-- ===== src/Strategy/Start.antt =====
-- flowcat-core/src/audio/strategy.rs: the strategies that decide when a user turn starts, and
-- whether it interrupts the bot.
pub mod Words
mod Tests
use flowcat.Base.{ℕ, ◌+◌, Bool, true, false, if◌then◌else◌, leb, max}
use flowcat.Base.Text.{Text, word_count}
use flowcat.Frame.{
  Frame, vad_user_started_speaking, bot_started_speaking, bot_stopped_speaking, transcription,
  interim_transcription,
}

pub data TurnStartDecision : Type 0 where
  turn_started keep_going reset_aggregation : TurnStartDecision

-- `VadTurnStart::on_frame`
unfoldable pub vad_on_frame : Frame → TurnStartDecision
vad_on_frame (vad_user_started_speaking _) = turn_started
vad_on_frame _ = keep_going

pub record MinWordsTurnStart : Type 0 where
  pub min_words : ℕ
  pub use_interim : Bool
  pub bot_speaking : Bool

unfoldable pub new_min_words : ℕ → Bool → MinWordsTurnStart
new_min_words min_words use_interim = record {
  min_words = min_words;
  use_interim = use_interim;
  bot_speaking = false;
}

unfoldable pub handle_transcription : Text → MinWordsTurnStart → TurnStartDecision
unfolding word_count
handle_transcription text s =
    let floor = if s.bot_speaking then max s.min_words 1 else 1 in
    if leb floor (word_count text) then turn_started else reset_aggregation

-- `MinWordsTurnStart::on_frame`
unfoldable pub words_on_frame : Frame → MinWordsTurnStart → TurnStartDecision × MinWordsTurnStart
unfolding handle_transcription
words_on_frame bot_started_speaking s = (keep_going, record s { bot_speaking = true })
words_on_frame bot_stopped_speaking s = (keep_going, record s { bot_speaking = false })
words_on_frame (transcription text _ _ _) s = (handle_transcription text s, s)
words_on_frame (interim_transcription text _ _) s =
    (if s.use_interim then handle_transcription text s else keep_going, s)
words_on_frame _ s = (keep_going, s)

-- `MinWordsTurnStart::reset`
unfoldable pub reset_min_words : MinWordsTurnStart → MinWordsTurnStart
reset_min_words s = record s { bot_speaking = false }

-- `ExternalTurnStart`, whether it is armed.
pub record ExternalTurnStart : Type 0 where
  pub armed : Bool

unfoldable pub trigger : ExternalTurnStart → ExternalTurnStart
trigger s = record { armed = true }

-- `ExternalTurnStart::on_frame`
unfoldable pub external_on_frame : Frame → ExternalTurnStart → TurnStartDecision × ExternalTurnStart
external_on_frame frame s =
    if s.armed then (turn_started, record { armed = false }) else (keep_going, s)

-- `ExternalTurnStart::reset`
unfoldable pub reset_external : ExternalTurnStart → ExternalTurnStart
reset_external s = record { armed = false }

-- `AlwaysInterrupt::should_interrupt`
abbrev pub always_interrupt : Bool
always_interrupt = true

pub record MinWordsInterrupt : Type 0 where
  pub min_words : ℕ
  pub accumulated_words : ℕ

unfoldable pub new_interrupt : ℕ → MinWordsInterrupt
new_interrupt min_words = record { min_words = min_words; accumulated_words = 0 }

unfoldable pub should_interrupt : MinWordsInterrupt → Bool
should_interrupt s = leb s.min_words s.accumulated_words

-- `accumulated_words += …`; a `usize` that counts words of texts in memory does not overflow.
unfoldable pub append_transcription : Frame → MinWordsInterrupt → MinWordsInterrupt
unfolding word_count
append_transcription (transcription text _ _ _) s = record s {
  accumulated_words = s.accumulated_words + word_count text;
}
append_transcription (interim_transcription text _ _) s = record s {
  accumulated_words = s.accumulated_words + word_count text;
}
append_transcription _ s = s

-- `MinWordsInterrupt::reset`
unfoldable pub reset_interrupt : MinWordsInterrupt → MinWordsInterrupt
reset_interrupt s = record s { accumulated_words = 0 }
