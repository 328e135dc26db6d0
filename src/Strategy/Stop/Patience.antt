-- ===== src/Strategy/Stop/Patience.antt =====
-- Neither strategy ends a turn while the user speaks, or before there is text.
use flowcat.Base.{
  ◌≡◌, refl, subst, Bool, true, false, not, ◌||◌, List, [], ◌∷◌, Option, none, some, arith,
}
use flowcat.Base.Text.{is_empty}
use flowcat.Frame.{F32, Frame, vad_user_started_speaking, vad_user_stopped_speaking, transcription}
use flowcat.Strategy.Stop.{
  TurnStopDecision, triggered, TurnAnalyzerStop, SpeechTimeoutStop, evaluate_analyzer,
  evaluate_timeout, analyzer_on_frame, analyzer_on_tick, set_turn_complete, timeout_on_frame,
  timeout_on_tick,
}

-- Whether the user speaks, by the last edge of the voice detector.
abbrev pub speaking_after : Bool → Frame → Bool
speaking_after b (vad_user_started_speaking _) = true
speaking_after b (vad_user_stopped_speaking _) = false
speaking_after b _ = b

abbrev pub text_after : Bool → Frame → Bool
text_after b (transcription text _ _ _) = not (is_empty text) || b
text_after b _ = b

-- Whether the user speaks, and whether there is text.
pub record Context : Type 0 where
  pub speaks : Bool
  pub has_text : Bool

abbrev pub silent : Context
silent = record { speaks = false; has_text = false }

abbrev pub after : Option Frame → Context → Context
after none c = c
after (some f) c = record { speaks = speaking_after c.speaks f; has_text = text_after c.has_text f }

-- What a strategy that hears the events `E` promises: its state has the context in it, and it ends a
-- turn only in silence and with text.
pub record TurnStopStrategy (E S : Type 0) : Type 0 where
  pub frame_of : E → Option Frame
  pub step : E → S → TurnStopDecision × S
  pub view : S → Context
  pub step_views : (e : E) (s : S) → view (step e s).1 ≡ after (frame_of e) (view s)
  pub step_waits :
      (e : E) (s : S)
      → (step e s).0 ≡ triggered
      → (view (step e s).1).speaks ≡ false × ((view (step e s).1).has_text ≡ true)

module _ {E S : Type 0} (strategy : TurnStopStrategy E S) where
  abbrev pub context : List E → Context → Context
  context [] c = c
  context (e ∷ es) c = context es (after (strategy.frame_of e) c)

  -- The decision on the last event of a history.
  abbrev pub last_decision : List E → E → S → TurnStopDecision
  last_decision [] e s = (strategy.step e s).0
  last_decision (d ∷ ds) e s = last_decision ds e (strategy.step d s).1

  abbrev pub IsOver : Context → Type 0
  IsOver c = (c.speaks ≡ false) × (c.has_text ≡ true)

  patient :
      (ds : List E) (e : E) (s : S)
      → last_decision ds e s ≡ triggered
      → IsOver (after (strategy.frame_of e) (context ds (strategy.view s)))
  patient [] e s h = subst IsOver (strategy.step_views e s) (strategy.step_waits e s h)
  patient (d ∷ ds) e s h =
      subst (λ c. IsOver (after (strategy.frame_of e) (context ds c))) (strategy.step_views d s)
        (patient ds e (strategy.step d s).1 h)

-- What the analyzer strategy hears: a frame, a tick of silence, or a prediction.
pub data TurnEvent : Type 0 where
  heard : Frame → TurnEvent
  ticked : F32 → TurnEvent
  predicted : Bool → TurnEvent

abbrev pub turn_frame : TurnEvent → Option Frame
turn_frame (heard f) = some f
turn_frame _ = none

abbrev pub analyzer_step : TurnEvent → TurnAnalyzerStop → TurnStopDecision × TurnAnalyzerStop
analyzer_step (heard f) s = analyzer_on_frame f s
analyzer_step (ticked elapsed_ms) s = analyzer_on_tick elapsed_ms s
analyzer_step (predicted complete) s = set_turn_complete complete s

abbrev pub analyzer_view : TurnAnalyzerStop → Context
analyzer_view s = record { speaks = s.vad_user_speaking; has_text = s.have_text }

pub analyzer_views :
    (e : TurnEvent) (s : TurnAnalyzerStop)
    → analyzer_view (analyzer_step e s).1 ≡ after (turn_frame e) (analyzer_view s)
unfolding analyzer_on_frame analyzer_on_tick set_turn_complete
analyzer_views (ticked _) s = refl
analyzer_views (predicted _) s = refl
analyzer_views (heard (vad_user_started_speaking _)) s = refl
analyzer_views (heard (vad_user_stopped_speaking _)) s = refl
analyzer_views (heard (transcription _ _ _ _)) s = refl
analyzer_views (heard _) s = refl

evaluate_analyzer-waits :
    (s : TurnAnalyzerStop)
    → evaluate_analyzer s ≡ triggered
    → (s.vad_user_speaking ≡ false) × (s.have_text ≡ true)
unfolding evaluate_analyzer
evaluate_analyzer-waits s h = ground arith

pub analyzer_waits :
    (e : TurnEvent) (s : TurnAnalyzerStop)
    → (analyzer_step e s).0 ≡ triggered
    → ((analyzer_step e s).1.vad_user_speaking ≡ false) × ((analyzer_step e s).1.have_text ≡ true)
unfolding analyzer_on_frame analyzer_on_tick set_turn_complete
analyzer_waits (ticked t) s h = evaluate_analyzer-waits (analyzer_on_tick t s).1 h
analyzer_waits (predicted b) s h = evaluate_analyzer-waits (set_turn_complete b s).1 h
analyzer_waits (heard (vad_user_started_speaking _)) s h = ground arith
analyzer_waits (heard (vad_user_stopped_speaking t)) s h =
    evaluate_analyzer-waits (analyzer_on_frame (vad_user_stopped_speaking t) s).1 h
analyzer_waits (heard (transcription a b c d)) s h =
    evaluate_analyzer-waits (analyzer_on_frame (transcription a b c d) s).1 h
analyzer_waits (heard _) s h = ground arith

abbrev pub analyzer : TurnStopStrategy TurnEvent TurnAnalyzerStop
analyzer = record {
  frame_of = turn_frame;
  step = analyzer_step;
  view = analyzer_view;
  step_views = analyzer_views;
  step_waits = analyzer_waits;
}

-- Whatever frames, ticks and predictions `TurnAnalyzerStop` has got, if it ends the turn on the next
-- one, then the last edge of the voice detector, that one included, is not a start of speech, or
-- there was none and the user was not speaking at first; and there has been a transcription with
-- text, or there was text at first.
pub analyzer-patient :
    (ds : List TurnEvent) (e : TurnEvent) (s : TurnAnalyzerStop)
    → last_decision analyzer ds e s ≡ triggered
    → IsOver analyzer (after (turn_frame e) (context analyzer ds (analyzer_view s)))
analyzer-patient ds e s h = patient analyzer ds e s h

-- What the timeout strategy hears: a frame, or a tick of silence.
pub data TimedEvent : Type 0 where
  heard_frame : Frame → TimedEvent
  ticked_for : F32 → TimedEvent

abbrev pub timed_frame : TimedEvent → Option Frame
timed_frame (heard_frame f) = some f
timed_frame (ticked_for _) = none

abbrev pub timeout_view : SpeechTimeoutStop → Context
timeout_view s = record { speaks = s.vad_user_speaking; has_text = s.have_text }

evaluate_timeout-waits :
    (s : SpeechTimeoutStop)
    → evaluate_timeout s ≡ triggered
    → (s.vad_user_speaking ≡ false) × (s.have_text ≡ true)
unfolding evaluate_timeout
evaluate_timeout-waits s h = ground arith

module _ (in_ms : F32 → F32) where
  abbrev pub timeout_step : TimedEvent → SpeechTimeoutStop → TurnStopDecision × SpeechTimeoutStop
  timeout_step (heard_frame f) s = timeout_on_frame in_ms f s
  timeout_step (ticked_for elapsed_ms) s = timeout_on_tick elapsed_ms s

  pub timeout_views :
      (e : TimedEvent) (s : SpeechTimeoutStop)
      → timeout_view (timeout_step e s).1 ≡ after (timed_frame e) (timeout_view s)
  unfolding timeout_on_frame timeout_on_tick
  timeout_views (ticked_for _) s = refl
  timeout_views (heard_frame (vad_user_started_speaking _)) s = refl
  timeout_views (heard_frame (vad_user_stopped_speaking _)) s = refl
  timeout_views (heard_frame (transcription _ _ _ _)) s = refl
  timeout_views (heard_frame _) s = refl

  pub timeout_waits :
      (e : TimedEvent) (s : SpeechTimeoutStop)
      → (timeout_step e s).0 ≡ triggered
      → ((timeout_step e s).1.vad_user_speaking ≡ false) × ((timeout_step e s).1.have_text ≡ true)
  unfolding timeout_on_frame timeout_on_tick
  timeout_waits (ticked_for t) s h = evaluate_timeout-waits (timeout_on_tick t s).1 h
  timeout_waits (heard_frame (vad_user_started_speaking _)) s h = ground arith
  timeout_waits (heard_frame (vad_user_stopped_speaking t)) s h =
      evaluate_timeout-waits (timeout_on_frame in_ms (vad_user_stopped_speaking t) s).1 h
  timeout_waits (heard_frame (transcription a b c d)) s h =
      evaluate_timeout-waits (timeout_on_frame in_ms (transcription a b c d) s).1 h
  timeout_waits (heard_frame _) s h = ground arith

  abbrev pub timeout : TurnStopStrategy TimedEvent SpeechTimeoutStop
  timeout = record {
    frame_of = timed_frame;
    step = timeout_step;
    view = timeout_view;
    step_views = timeout_views;
    step_waits = timeout_waits;
  }

  -- Whatever frames and ticks `SpeechTimeoutStop` has got, if it ends the turn on the next one, then
  -- the last edge of the voice detector, that one included, is not a start of speech, or there was
  -- none and the user was not speaking at first; and there has been a transcription with text, or
  -- there was text at first.
  pub timeout-patient :
      (ds : List TimedEvent) (e : TimedEvent) (s : SpeechTimeoutStop)
      → last_decision timeout ds e s ≡ triggered
      → IsOver timeout (after (timed_frame e) (context timeout ds (timeout_view s)))
  timeout-patient ds e s h = patient timeout ds e s h
