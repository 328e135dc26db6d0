-- ===== src/Strategy/Stop/Tests.antt =====
-- A turn of each strategy, from the words to its end.
use flowcat.Base.{◌≡◌, refl, true, false, List, [], ◌∷◌, none}
use flowcat.Base.Text.{codes}
use flowcat.Frame.{F32, vad_user_started_speaking, vad_user_stopped_speaking, transcription}
use flowcat.Strategy.Stop.{
  triggered, new_analyzer_stop, new_timeout_stop, analyzer_on_frame, set_turn_complete,
  timeout_on_frame, timeout_on_tick,
}
use flowcat.Strategy.Stop.Patience.{
  Context, TurnEvent, heard, predicted, analyzer, last_decision, TimedEvent, heard_frame,
  ticked_for, timeout,
}

abbrev at_end : Context
at_end = record { speaks = false; has_text = true }

abbrev turn : List TurnEvent
turn =
    heard (vad_user_started_speaking 0)
    ∷ heard (transcription (codes "book it") (codes "u") none true)
    ∷ heard (vad_user_stopped_speaking 0)
    ∷ []

analyzer_ends :
    last_decision analyzer turn (predicted true) (new_analyzer_stop 0x44fa0000) ≡ triggered
unfolding analyzer_on_frame set_turn_complete new_analyzer_stop
analyzer_ends = refl

abbrev seconds : F32 → F32
seconds x = x

abbrev timed_turn : List TimedEvent
timed_turn =
    heard_frame (vad_user_started_speaking 0)
    ∷ heard_frame (transcription (codes "book it") (codes "u") none true)
    ∷ heard_frame (vad_user_stopped_speaking 0)
    ∷ []

timeout_ends :
    last_decision
      (timeout seconds)
      timed_turn
      (ticked_for 0x44fa0000)
      (new_timeout_stop 0x44160000 0x44fa0000)
    ≡ triggered
unfolding timeout_on_frame timeout_on_tick new_timeout_stop
timeout_ends = refl
