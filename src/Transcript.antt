-- ===== src/Transcript.antt =====
-- flowcat-core/src/transcript.rs: the lines of a call, merged from the deltas of its transcription.
-- The JSON bytes that `render` gives to `serde_json` are not modelled; the turns in them are.
pub mod Merge
pub mod Turns
mod Tests
use flowcat.Base.{
  ℕ, Bool, true, false, not, ◌&&◌, List, [], ◌∷◌, ◌++◌, if◌then◌else◌, keep_if, length, map,
}
use flowcat.Base.Text.{Text, codes, is_empty}

pub data Speaker : Type 0 where
  user bot : Speaker

unfoldable pub same_speaker : Speaker → Speaker → Bool
same_speaker user user = true
same_speaker bot bot = true
same_speaker user bot = false
same_speaker bot user = false

pub record TranscriptLine : Type 0 where
  pub speaker : Speaker
  pub text : Text

-- `Transcript`, which holds nothing but its lines.
abbrev pub Transcript : Type 0
Transcript = List TranscriptLine

-- The match on `lines.last_mut()`: extend the last line, or begin one.
unfoldable pub extend : Speaker → Text → Transcript → Transcript
unfolding same_speaker
extend speaker text [] = record { speaker = speaker; text = text } ∷ []
extend speaker text (last ∷ []) =
    if same_speaker last.speaker speaker
    then record last { text = last.text ++ text } ∷ []
    else last ∷ record { speaker = speaker; text = text } ∷ []
extend speaker text (line ∷ next ∷ lines) = line ∷ extend speaker text (next ∷ lines)

-- `push`
unfoldable pub push : Speaker → Text → Transcript → Transcript
unfolding extend
push speaker text lines = if is_empty text then lines else extend speaker text lines

unfoldable pub push_user : Text → Transcript → Transcript
unfolding push
push_user text lines = push user text lines

unfoldable pub push_bot : Text → Transcript → Transcript
unfolding push
push_bot text lines = push bot text lines

unfoldable pub turns_of : Speaker → Transcript → ℕ
unfolding same_speaker
turns_of speaker lines = length (keep_if (λ l. same_speaker l.speaker speaker) lines)

unfoldable pub user_turns : Transcript → ℕ
unfolding turns_of
user_turns lines = turns_of user lines

unfoldable pub bot_turns : Transcript → ℕ
unfolding turns_of
bot_turns lines = turns_of bot lines

pub record Turn : Type 0 where
  pub role : Text
  pub text : Text

unfoldable pub role : Speaker → Text
role user = codes "user"
role bot = codes "bot"

-- The turns that `render` serializes.
unfoldable pub rendered : Transcript → List Turn
unfolding role
rendered lines = map (λ l. record { role = role l.speaker; text = l.text }) lines
