-- ===== src/Runtime/Priority.antt =====
-- System frames overtake data and control.
use flowcat.Base.{◌≡◌, sym, ap, ◌∙◌, true, [], ◌∷◌, ◌++◌, if_true}
use flowcat.Frame.{class, system}
use flowcat.Runtime.{Envelope, Link, Loop, Processor, handle_frame, step, receive, send}

module _ {S : Type 0} (p : Processor S) (link : Link) where
  send-system :
      (l : Loop S) (env : Envelope)
      → class env.frame ≡ system
      → send l env ≡ record l { system = l.system ++ env ∷ [] }
  unfolding send
  send-system l env c = rw c

  step-queued :
      (l : Loop S) (env : Envelope)
      → l.running ≡ true
      → step p link (record l { system = env ∷ [] })
        ≡ handle_frame p link env.frame env (record l { system = [] })
  unfolding step receive
  step-queued l env r = if_true _ _ r

  -- A system frame that is sent to a running loop while no other waits is handled next, whatever
  -- is queued as data or control.
  pub send-system_first :
      (l : Loop S) (env : Envelope)
      → l.running ≡ true
      → l.system ≡ []
      → class env.frame ≡ system
      → step p link (send l env) ≡ handle_frame p link env.frame env l
  send-system_first l env r e c = rw (send-system l env c) (
      ap (λ s. step p link (record l { system = s ++ env ∷ [] })) e
      ∙ step-queued l env r
      ∙ ap (λ s. handle_frame p link env.frame env (record l { system = s })) (sym e))
