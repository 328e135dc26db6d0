-- ===== src/Strategy/Mute/FirstSpeech.antt =====
-- The two strategies that mute the user around the bot's first turn.
use flowcat.Base.{◌≡◌, refl, ap, ap₂, ◌∙◌, Bool, true, false, not, ◌&&◌, ◌||◌, List, [], ◌∷◌, any}
use flowcat.Frame.{Frame, bot_started_speaking, bot_stopped_speaking}
use flowcat.Strategy.Mute.{
  MuteUntilFirstBotComplete, until_muted, until_on_frame, FirstSpeechMute, first_muted,
  first_on_frame,
}

abbrev pub bot_stops : Frame → Bool
bot_stops bot_stopped_speaking = true
bot_stops _ = false

-- Whether the bot speaks after a frame, by its last edge.
abbrev pub bot_speaks : Frame → Bool → Bool
bot_speaks bot_started_speaking b = true
bot_speaks bot_stopped_speaking b = false
bot_speaks _ b = b

abbrev pub bot_speaks_after : List Frame → Bool → Bool
bot_speaks_after [] b = b
bot_speaks_after (f ∷ fs) b = bot_speaks_after fs (bot_speaks f b)

abbrev pub until_run : List Frame → MuteUntilFirstBotComplete → MuteUntilFirstBotComplete
until_run [] s = s
until_run (f ∷ fs) s = until_run fs (until_on_frame f s)

abbrev pub first_run : List Frame → FirstSpeechMute → FirstSpeechMute
first_run [] s = s
first_run (f ∷ fs) s = first_run fs (first_on_frame f s)

or-moves : (a b c : Bool) → (a || (b || c)) ≡ ((b || a) || c)
or-moves true true c = refl
or-moves true false c = refl
or-moves false true c = refl
or-moves false false c = refl

or-false : (a : Bool) → (a || false) ≡ a
or-false true = refl
or-false false = refl

until-step :
    (f : Frame) (s : MuteUntilFirstBotComplete)
    → (until_on_frame f s).first_speech_handled ≡ (bot_stops f || s.first_speech_handled)
unfolding until_on_frame
until-step bot_stopped_speaking s = refl
until-step _ s = refl

until-handled :
    (fs : List Frame) (s : MuteUntilFirstBotComplete)
    → (until_run fs s).first_speech_handled ≡ (any bot_stops fs || s.first_speech_handled)
until-handled [] s = refl
until-handled (f ∷ fs) s =
    until-handled fs (until_on_frame f s)
    ∙ ap (λ b. any bot_stops fs || b) (until-step f s)
    ∙ or-moves (any bot_stops fs) (bot_stops f) s.first_speech_handled

first-step :
    (f : Frame) (s : FirstSpeechMute)
    → ((first_on_frame f s).first_speech_handled ≡ (bot_stops f || s.first_speech_handled))
      × ((first_on_frame f s).bot_speaking ≡ bot_speaks f s.bot_speaking)
unfolding first_on_frame
first-step bot_started_speaking s = (refl, refl)
first-step bot_stopped_speaking s = (refl, refl)
first-step _ s = (refl, refl)

first-handled :
    (fs : List Frame) (s : FirstSpeechMute)
    → ((first_run fs s).first_speech_handled ≡ (any bot_stops fs || s.first_speech_handled))
      × ((first_run fs s).bot_speaking ≡ bot_speaks_after fs s.bot_speaking)
first-handled [] s = (refl, refl)
first-handled (f ∷ fs) s =
    let rest = first-handled fs (first_on_frame f s) in
    let step = first-step f s in
    (
      rest.0
          ∙ ap (λ b. any bot_stops fs || b) step.0
          ∙ or-moves (any bot_stops fs) (bot_stops f) s.first_speech_handled,
      rest.1 ∙ ap (bot_speaks_after fs) step.1,
    )

-- Over any frames from the start of a call, `MuteUntilFirstBotComplete` mutes the user until the bot
-- has stopped speaking once, and `FirstSpeechMute` only while the bot speaks and has not stopped yet.
pub muted-until_first :
    (fs : List Frame)
    → (until_muted (until_run fs (record { first_speech_handled = false }))
        ≡ not (any bot_stops fs))
      × (first_muted (first_run fs (record { bot_speaking = false; first_speech_handled = false }))
          ≡ (bot_speaks_after fs false && not (any bot_stops fs)))
unfolding until_muted first_muted
muted-until_first fs =
    let first = first-handled fs (record { bot_speaking = false; first_speech_handled = false }) in
    (
      ap not (
          until-handled fs (record { first_speech_handled = false }) ∙ or-false (any bot_stops fs)),
      ap₂ (λ a b. a && not b) first.1 (first.0 ∙ or-false (any bot_stops fs)),
    )
