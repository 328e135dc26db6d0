-- ===== src/Ivr/Tests.antt =====
-- flowcat-core/src/agent/ivr.rs: the two-step menu of the tests.
use flowcat.Base.{ℕ, ◌≤◌, ◌<◌, ◌≡◌, refl, ◌⊎◌, Bool, true, false, List, [], ◌∷◌, ◌++◌, none, length}
use flowcat.Base.Text.{Text, codes}
use flowcat.Frame.{
  Frame, Direction, downstream, transcription, output_dtmf, KeypadEntry, completed, stuck,
}
use flowcat.Runtime.{Envelope, new_meta}
use flowcat.Runtime.Sends.{run, made, passed}
use flowcat.Ivr.{Script, press, say_step, new, process_frame, status_frame}
use flowcat.Ivr.Told.{HasTold, run-HasTold}

abbrev kept : Text → Text
kept s = s

abbrev menu : Script
menu = record {
  steps =
      press kept (codes "for english" ∷ []) []
      ∷ say_step kept (codes "account" ∷ []) (codes "yes")
      ∷ [];
  stuck_after = 2;
}

abbrev heard : Text → Envelope
heard words = record {
  meta = new_meta 1 (transcription words [] none true);
  frame = transcription words [] none true;
  direction = downstream;
}

abbrev prompts : List Envelope
prompts = heard (codes "for english press 1") ∷ heard (codes "your account?") ∷ []

completes :
    made (run (process_frame kept) prompts (new menu)).0
    ≡ output_dtmf []
      ∷ flowcat.Frame.tts_speak (codes "yes") (flowcat.Base.some false)
      ∷ status_frame completed
      ∷ []
unfolding process_frame new press say_step
completes = refl

gets_stuck :
    made
      (run
        (process_frame kept)
        (heard (codes "what") ∷ heard (codes "no") ∷ heard (codes "for english") ∷ [])
        (new menu)).0
    ≡ status_frame stuck ∷ []
unfolding process_frame new press say_step
gets_stuck = refl

run-HasTold_example :
    (passed (run (process_frame kept) prompts (new menu)).0 ≡ prompts)
    × HasTold
        (run (process_frame kept) prompts (new menu)).1
        (made (run (process_frame kept) prompts (new menu)).0)
run-HasTold_example = run-HasTold kept prompts menu
