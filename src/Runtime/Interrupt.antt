-- ===== src/Runtime/Interrupt.antt =====
-- What survives an interruption, what is dropped, and what is left queued.
use mathlib.Core.List.{append-nil}
use flowcat.Base.{
  ◌≡◌, refl, sym, ap, ◌∙◌, true, false, ◌&&◌, List, [], ◌∷◌, ◌++◌, Option, none, some, All, keep_if,
  Bool-cases, inl, inr, subst, if_true, if_false, if◌then◌else◌,
}
use flowcat.Base.Text.{Text}
use flowcat.Frame.{upstream, error}
use flowcat.Runtime.{
  is_downstream, new_meta, Envelope, Link, Loop, Processor, Drained, is_stop, drain_on_interruption,
  push, push_all, push_out, push_error, terminate, finish_interruption, interrupt, stop_reason,
}
use flowcat.Runtime.Drain.{ends_drain, survives, drain-clean, drain-terminal}

module _ {S : Type 0} (p : Processor S) (link : Link) where
  -- The error frames that the processor sends upstream when a hook fails.
  abbrev pub IsReport : Envelope → Type 0
  IsReport e =
      (e.direction ≡ upstream)
      × ((message : Text) × (e.frame ≡ error message false (some link.name)))

  push-IsReport : (e : Envelope) → IsReport e → All IsReport (push link e)
  unfolding push
  push-IsReport e h =
      elim (Bool-cases (if is_downstream e.direction then link.has_next else link.has_prev)) [
        | inl linked ↦ subst (All IsReport) (sym (if_true _ _ linked)) (h, tt)
        | inr alone ↦ subst (All IsReport) (sym (if_false _ _ alone)) tt
      ]

  -- What `push_error` adds, and what it leaves alone.
  push_error-adds :
      (o : Option Text) (l : Loop S)
      → (errors : List Envelope) × (All IsReport errors)
        × ((push_error p link o l).sent ≡ l.sent ++ errors)
        × ((push_error p link o l).normal ≡ l.normal)
        × ((push_error p link o l).running ≡ l.running)
  unfolding push_error
  push_error-adds none l = ([], tt, sym (append-nil l.sent), refl, refl)
  push_error-adds (some message) l =
      let frame = error message false (some link.name) in
      let report : Envelope = record {
        meta = new_meta l.next_id frame;
        frame = frame;
        direction = upstream;
      } in
      (push link report, push-IsReport report (refl, (message, refl)), refl, refl, refl)

  -- The state when the queue is drained, and when the hook has run and the marker is forwarded.
  abbrev drained : Loop S → Drained → Loop S
  drained l d = record l {
    normal = d.left;
    sent = l.sent ++ push_all link d.forwarded;
    state = (p.on_interruption l.state).0;
  }

  abbrev marked : Envelope → Loop S → Drained → Loop S
  marked env l d =
      push_out p link env (push_error p link (p.on_interruption l.state).1 (drained l d))

  interrupt_lem :
      (env : Envelope) (l : Loop S) (d : Drained)
      → drain_on_interruption l.normal ≡ d
      → interrupt p link env l ≡ finish_interruption p link d.terminal (marked env l d)
  unfolding interrupt
  interrupt_lem env l d e = ap (λ x. finish_interruption p link x.terminal (marked env l x)) e

  finish-none : (m : Loop S) → finish_interruption p link none m ≡ m
  unfolding finish_interruption
  finish-none m = refl

  finish-some :
      (t : Envelope) (m : Loop S) → finish_interruption p link (some t) m ≡ terminate p link t m
  unfolding finish_interruption
  finish-some t m = refl

  terminate-adds :
      (t : Envelope) (m : Loop S)
      → (errors : List Envelope) × (All IsReport errors)
        × ((terminate p link t m).sent ≡ (m.sent ++ errors) ++ push link t)
        × ((terminate p link t m).normal ≡ m.normal)
        × ((terminate p link t m).running ≡ (is_stop t.frame && m.running))
  unfolding terminate
  terminate-adds t m =
      let hook = p.on_stop m.state (stop_reason t.frame) in
      let (errors, reports, sent, normal, running) =
        push_error-adds hook.1 (record m { state = hook.0 }) in
      let sent' = ap (λ s. s ++ push link t) sent in
      elim (Bool-cases (is_stop t.frame)) [
        | inl stopping ↦ rw stopping (errors, reports, sent', normal, running)
        | inr leaving ↦ rw leaving (errors, reports, sent', normal, refl)
      ]

  -- An interruption with no uninterruptible downstream terminal queued: every uninterruptible frame is
  -- forwarded, in order, and then the marker, with nothing between them but the processor's own
  -- error frames; the queue is empty after it, every other queued frame dropped, and the loop runs
  -- on if it ran.
  pub interrupt-clean :
      (env : Envelope) (l : Loop S)
      → All (λ e. ends_drain e ≡ false) l.normal
      → (errors : List Envelope) × (All IsReport errors)
        × ((interrupt p link env l).sent
            ≡ ((l.sent ++ push_all link (keep_if survives l.normal)) ++ errors) ++ push link env)
        × ((interrupt p link env l).normal ≡ [])
        × ((interrupt p link env l).running ≡ l.running)
  interrupt-clean env l h =
      let d : Drained = record {
        forwarded = keep_if survives l.normal;
        terminal = none;
        left = [];
      } in
      let (errors, reports, sent, normal, running) =
        push_error-adds (p.on_interruption l.state).1 (drained l d) in
      rw (interrupt_lem env l d (drain-clean l.normal h), finish-none (marked env l d))
        (errors, reports, ap (λ s. s ++ push link env) sent, normal, running)

  -- An interruption with a first uninterruptible downstream terminal in the queue: the uninterruptible
  -- frames before it are forwarded, then the marker, then the terminal itself, last, with nothing
  -- between them but the processor's own error frames. What stood behind it stays queued, and the
  -- loop is left unless the terminal is `Stop`.
  pub interrupt-terminal :
      (env : Envelope) (l : Loop S) (before : List Envelope) (t : Envelope) (behind : List Envelope)
      → l.normal ≡ before ++ t ∷ behind
      → All (λ e. ends_drain e ≡ false) before
      → ends_drain t ≡ true
      → (errors : List Envelope) × (stop_errors : List Envelope) × (All IsReport errors)
        × (All IsReport stop_errors)
        × ((interrupt p link env l).sent
            ≡ ((((l.sent ++ push_all link (keep_if survives before)) ++ errors) ++ push link env)
                ++ stop_errors)
              ++ push link t)
        × ((interrupt p link env l).normal ≡ behind)
        × ((interrupt p link env l).running ≡ (is_stop t.frame && l.running))
  interrupt-terminal env l before t behind e h k =
      let d : Drained = record {
        forwarded = keep_if survives before;
        terminal = some t;
        left = behind;
      } in
      let (errors, reports, sent, normal, running) =
        push_error-adds (p.on_interruption l.state).1 (drained l d) in
      let m = marked env l d in
      let (stop_errors, stop_reports, sent', normal', running') = terminate-adds t m in
      let found = ap drain_on_interruption e ∙ drain-terminal before t behind h k in
      rw (interrupt_lem env l d found, finish-some t m)
        (
          errors,
          stop_errors,
          reports,
          stop_reports,
          sent' ∙ ap (λ s. ((s ++ push link env) ++ stop_errors) ++ push link t) sent,
          normal' ∙ normal,
          running' ∙ ap (◌&&◌ (is_stop t.frame)) running,
        )
