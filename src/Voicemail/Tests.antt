-- ===== src/Voicemail/Tests.antt =====
-- flowcat-core/src/agent/voicemail.rs: a short greeting, and a machine.
use flowcat.Base.{ℕ, ◌-◌, ◌≡◌, refl, true, List, [], ◌∷◌, none}
use flowcat.Base.Text.{Text, codes}
use flowcat.Frame.{
  F32, Frame, downstream, transcription, vad_user_started_speaking, vad_user_stopped_speaking,
  Classification, DecisionReason, conversation, human_response, voicemail, greeting_phrase,
}
use flowcat.Runtime.{Envelope, new_meta}
use flowcat.Runtime.Sends.{run, made, passed}
use flowcat.Voicemail.{default_voicemail, new, decision_frame, process_frame}
use flowcat.Voicemail.Decides.{run-decides}

abbrev kept : Text → Text
kept s = s

abbrev apart : F32 → F32 → ℕ
apart from to = to - from

abbrev envelope : Frame → Envelope
envelope frame = record { meta = new_meta 1 frame; frame = frame; direction = downstream }

abbrev said : Text → Envelope
said words = envelope (transcription words [] none true)

abbrev greeting : List Envelope
greeting =
    envelope (vad_user_started_speaking 0)
    ∷ said (codes "Hello")
    ∷ envelope (vad_user_stopped_speaking 3)
    ∷ said (codes "leave a message")
    ∷ []

hears_person :
    made (run (process_frame kept apart) greeting (new default_voicemail)).0
    ≡ decision_frame conversation human_response ∷ []
unfolding process_frame new
hears_person = refl

hears_machine :
    made
      (run
        (process_frame kept apart)
        (said (codes "please leave a message") ∷ [])
        (new default_voicemail)).0
    ≡ decision_frame voicemail greeting_phrase ∷ []
unfolding process_frame new
hears_machine = refl

run-decides_example :
    (passed (run (process_frame kept apart) greeting (new default_voicemail)).0 ≡ greeting)
    × ((c : Classification) × ((r : DecisionReason) × (made
              (run (process_frame kept apart) greeting (new default_voicemail)).0
            ≡ decision_frame c r ∷ [])))
run-decides_example = run-decides kept apart greeting default_voicemail refl

-- A turn of a minute whose edges carry the same seconds, the length of a window, and in which no word is heard.
takes_long_turn_for_human :
    made
      (run
        (process_frame kept apart)
        (envelope (vad_user_started_speaking 5) ∷ envelope (vad_user_stopped_speaking 5) ∷ [])
        (new default_voicemail)).0
    ≡ decision_frame conversation human_response ∷ []
unfolding process_frame new
takes_long_turn_for_human = refl
