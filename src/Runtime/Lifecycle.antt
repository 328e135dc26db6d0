-- ===== src/Runtime/Lifecycle.antt =====
-- How the loop ends: behind a downstream `End` or `Cancel`, or when its channels are closed.
use flowcat.Base.{
  ◌≡◌, refl, sym, ◌∙◌, true, false, List, [], ◌∷◌, ◌++◌, Option, none, some, arith, if_true,
  if_false, subst, ap, ◌⊎◌, Bool-cases, inl, inr,
}
use flowcat.Base.Text.{Text}
use flowcat.Frame.{Frame, StartParams, start, interruption, cancel, end_of_task, stop, is_terminal}
use flowcat.Runtime.{
  Envelope, Link, Loop, Processor, is_downstream, is_stop, is_kept_terminal, drain_on_interruption,
  push, push_all, push_out, push_error, terminate, finish_interruption, interrupt, start_up,
  process, lifecycle, handle_frame, step, receive, stop_reason,
}
use flowcat.Runtime.Drain.{ends_drain}

module _ {S : Type 0} (p : Processor S) (link : Link) where
  -- The five arms of the match.
  handle_cases {ℓ} :
      (P : Loop S → Type ℓ) (env : Envelope) (l : Loop S)
      → ((params : StartParams) → P (start_up p link params env l))
      → P (interrupt p link env l)
      → P (process p link env l)
      → (f : Frame) → (is_terminal f ≡ true → P (lifecycle p link env l))
      → P (handle_frame p link f env l)
  unfolding handle_frame is_terminal
  handle_cases P env l a b c (start params) d = a params
  handle_cases P env l a b c interruption d = b
  handle_cases P env l a b c (cancel _) d = d refl
  handle_cases P env l a b c (end_of_task _) d = d refl
  handle_cases P env l a b c stop d = d refl
  handle_cases P env l a b c _ d = c

  kept-parts :
      (t : Envelope)
      → ends_drain t ≡ true
      → (is_downstream t.direction ≡ true) × (is_terminal t.frame ≡ true)
  unfolding is_kept_terminal
  kept-parts t h = ground arith

  push_error-running : (o : Option Text) (l : Loop S) → (push_error p link o l).running ≡ l.running
  unfolding push_error
  push_error-running none l = refl
  push_error-running (some message) l = refl

  -- The loop was left behind a downstream `End` or `Cancel`, the last thing that was pushed.
  abbrev pub IsHalted : Loop S → Type 0
  IsHalted l =
      (env : Envelope) × (front : List Envelope) × (l.sent ≡ front ++ push link env)
      × (is_downstream env.direction ≡ true)
      × (is_terminal env.frame ≡ true)
      × (is_stop env.frame ≡ false)

  terminate-IsHalted :
      (env : Envelope) (l : Loop S)
      → l.running ≡ true
      → is_downstream env.direction ≡ true
      → is_terminal env.frame ≡ true
      → (terminate p link env l).running ≡ false
      → IsHalted (terminate p link env l)
  unfolding terminate
  terminate-IsHalted env l r d t e =
      let hook = p.on_stop l.state (stop_reason env.frame) in
      let before = push_error p link hook.1 (record l { state = hook.0 }) in
      elim (Bool-cases (is_stop env.frame)) [
        | inl stopping ↦
            absurd (ground (arith, push_error-running hook.1 (record l { state = hook.0 })))
        | inr leaving ↦ rw leaving (env, before.sent, refl, d, t, leaving)
      ]

  drain-kept :
      (queue : List Envelope) (env : Envelope)
      → (drain_on_interruption queue).terminal ≡ some env
      → ends_drain env ≡ true
  unfolding drain_on_interruption
  drain-kept [] env e = cc
  drain-kept (q ∷ queue) env e = ground (arith, drain-kept queue env)

  interrupt-IsHalted :
      (env : Envelope) (l : Loop S)
      → l.running ≡ true
      → (interrupt p link env l).running ≡ false
      → IsHalted (interrupt p link env l)
  unfolding interrupt
  interrupt-IsHalted env l r =
      let d = drain_on_interruption l.normal in
      let hook = p.on_interruption l.state in
      let drained = record l {
        normal = d.left;
        sent = l.sent ++ push_all link d.forwarded;
        state = hook.0;
      } in
      go d.terminal (push_out p link env (push_error p link hook.1 drained)) (drain-kept l.normal)
        (push_error-running hook.1 drained ∙ r)
    where
      go :
          (o : Option Envelope) (m : Loop S)
          → ((t : Envelope) → o ≡ some t → ends_drain t ≡ true)
          → m.running ≡ true
          → (finish_interruption p link o m).running ≡ false
          → IsHalted (finish_interruption p link o m)
      go none m k run e = cc (sym run ∙ e)
      go (some t) m k run e =
          let (down, last) = kept-parts t (k t refl) in terminate-IsHalted t m run down last e

  process-running : (env : Envelope) (l : Loop S) → (process p link env l).running ≡ l.running
  unfolding process
  process-running env l = push_error-running (p.process_frame l.state env l.next_id).failed _

  start_up-running :
      (params : StartParams) (env : Envelope) (l : Loop S)
      → (start_up p link params env l).running ≡ l.running
  unfolding start_up
  start_up-running params env l = push_error-running (p.on_start l.state params).1 _

  lifecycle-down :
      (env : Envelope) (l : Loop S)
      → is_downstream env.direction ≡ true
      → lifecycle p link env l ≡ terminate p link env l
  unfolding lifecycle
  lifecycle-down env l h = if_true _ _ h

  lifecycle-up :
      (env : Envelope) (l : Loop S)
      → is_downstream env.direction ≡ false
      → lifecycle p link env l ≡ process p link env l
  unfolding lifecycle
  lifecycle-up env l h = if_false _ _ h

  lifecycle-IsHalted :
      (env : Envelope) (l : Loop S)
      → l.running ≡ true
      → is_terminal env.frame ≡ true
      → (lifecycle p link env l).running ≡ false
      → IsHalted (lifecycle p link env l)
  lifecycle-IsHalted env l r t = elim (Bool-cases (is_downstream env.direction)) [
    | inl down ↦ rw (lifecycle-down env l down) (terminate-IsHalted env l r down t)
    | inr up ↦ rw (lifecycle-up env l up) λ e. cc (sym (process-running env l ∙ r) ∙ e)
  ]

  handle_frame-IsHalted :
      (env : Envelope) (l : Loop S)
      → l.running ≡ true
      → (handle_frame p link env.frame env l).running ≡ false
      → IsHalted (handle_frame p link env.frame env l)
  handle_frame-IsHalted env l r =
      handle_cases (λ m. m.running ≡ false → IsHalted m) env l
        (λ params e. cc (sym (start_up-running params env l ∙ r) ∙ e)) (interrupt-IsHalted env l r)
        (λ e. cc (sym (process-running env l ∙ r) ∙ e)) env.frame
        (λ t. lifecycle-IsHalted env l r t)

  -- The channels were closed with nothing queued, and the loop has done nothing more.
  abbrev pub IsClosed : Loop S → Loop S → Type 0
  IsClosed l m =
      (l.closed ≡ true) × ((l.system ≡ []) × ((l.normal ≡ []) × (m ≡ record l { running = false })))

  receive-halts :
      (urgent queue : List Envelope) (l : Loop S)
      → l.system ≡ urgent
      → l.normal ≡ queue
      → l.running ≡ true
      → (receive p link urgent queue l).running ≡ false
      → IsHalted (receive p link urgent queue l) ⊎ IsClosed l (receive p link urgent queue l)
  unfolding receive
  receive-halts (env ∷ urgent) queue l u q r e = inl (handle_frame-IsHalted env _ r e)
  receive-halts [] (env ∷ queue) l u q r e = inl (handle_frame-IsHalted env _ r e)
  receive-halts [] [] l u q r e = elim (Bool-cases l.closed) [
    | inl gone ↦ inr (gone, (u, (q, if_true _ _ gone)))
    | inr held ↦ cc (sym r ∙ sym (ap (λ (m : Loop S). m.running) (if_false _ _ held)) ∙ e)
  ]

  -- Whatever the processor does, an iteration of a running loop leaves it only behind a downstream
  -- `End` or `Cancel`, which has then been pushed on, last, or with both queues empty and the
  -- channels closed, where it does nothing else.
  pub step-halts :
      (l : Loop S)
      → l.running ≡ true
      → (step p link l).running ≡ false
      → IsHalted (step p link l) ⊎ IsClosed l (step p link l)
  unfolding step
  step-halts l r =
      subst (λ m. m.running ≡ false → IsHalted m ⊎ IsClosed l m)
        (sym (if_true (receive p link l.system l.normal l) l r))
        (receive-halts l.system l.normal l refl refl r)
