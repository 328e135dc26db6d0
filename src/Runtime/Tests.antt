-- ===== src/Runtime/Tests.antt =====
-- A processor that forwards every frame, run on small queues.
use flowcat.Base.{◌⊎◌, ◌≡◌, refl, true, false, List, [], ◌∷◌, ◌++◌, none, ℕ}
use flowcat.Base.Text.{codes}
use flowcat.Frame.{
  Frame, downstream, interruption, end_of_task, stop, text, llm_run, update_settings, stt,
  is_terminal, uninterruptible, class,
}
use flowcat.Base.Text.{null}
use flowcat.Runtime.{
  Envelope, Link, Loop, Processor, new_meta, is_stop, is_kept_terminal, push_all,
  drain_on_interruption, interrupt, terminate, send, step, handle_frame,
}
use flowcat.Runtime.Drain.{drain-clean}
use flowcat.Runtime.Lifecycle.{IsHalted, IsClosed, step-halts}
use flowcat.Runtime.Interrupt.{interrupt-clean, interrupt-terminal}

-- The default hooks of `FrameProcessor`.
abbrev forwarder : Processor ℕ
forwarder = record {
  on_start = λ s params. (s, none);
  process_frame = λ s env id. record { state = s; pushed = env ∷ []; next_id = id; failed = none };
  on_interruption = λ s. (s, none);
  on_stop = λ s reason. (s, none);
}

abbrev middle : Link
middle = record { has_next = true; has_prev = true; name = codes "middle" }

abbrev down : ℕ → Frame → Envelope
down id frame = record { meta = new_meta id frame; frame = frame; direction = downstream }

abbrev queued : List Envelope → Loop ℕ
queued normal = record {
  system = [];
  normal = normal;
  state = 0;
  next_id = 100;
  sent = [];
  running = true;
  closed = false;
}

abbrev speech : List Envelope
speech = down 1 (text (codes "hi")) ∷ down 2 (update_settings stt null) ∷ down 3 llm_run ∷ []

abbrev marker : Envelope
marker = down 9 interruption

interrupt_speech :
    step forwarder middle (send (queued speech) marker)
    ≡ record (queued []) { sent = down 2 (update_settings stt null) ∷ marker ∷ [] }
unfolding step send class handle_frame interrupt drain_on_interruption uninterruptible push_all
    is_terminal
interrupt_speech = refl

end_stops : (step forwarder middle (queued (down 1 (end_of_task none) ∷ speech))).running ≡ false
unfolding step handle_frame terminate is_stop
end_stops = refl

drain-clean_example :
    drain_on_interruption speech
    ≡ record { forwarded = down 2 (update_settings stt null) ∷ []; terminal = none; left = [] }
unfolding uninterruptible is_terminal is_kept_terminal
drain-clean_example = drain-clean speech (refl, (refl, (refl, tt)))

interrupt-clean_example : (interrupt forwarder middle marker (queued speech)).normal ≡ []
unfolding uninterruptible is_terminal is_kept_terminal
interrupt-clean_example =
    (interrupt-clean forwarder middle marker (queued speech) (refl, (refl, (refl, tt)))).3

-- Behind a queued `Stop` a stale text stays queued, and the loop goes on.
interrupt-terminal_example :
    (interrupt forwarder middle marker (queued (speech ++ down 4 stop ∷ speech))).normal ≡ speech
unfolding uninterruptible is_terminal is_kept_terminal
interrupt-terminal_example =
    (interrupt-terminal forwarder middle marker (queued (speech ++ down 4 stop ∷ speech)) speech
      (down 4 stop) speech refl (refl, (refl, (refl, tt))) refl).5

closes_when_drained :
    step forwarder middle (record (queued []) { closed = true })
    ≡ record (queued []) { closed = true; running = false }
unfolding step
closes_when_drained = refl

step-halts_example :
    IsHalted forwarder middle (step forwarder middle (queued (down 1 (end_of_task none) ∷ [])))
    ⊎ IsClosed forwarder middle
        (queued (down 1 (end_of_task none) ∷ []))
        (step forwarder middle (queued (down 1 (end_of_task none) ∷ [])))
unfolding step handle_frame terminate is_stop
step-halts_example = step-halts forwarder middle (queued (down 1 (end_of_task none) ∷ [])) refl refl
