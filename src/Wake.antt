-- ===== src/Wake.antt =====
-- flowcat-core/src/agent/wakeword.rs: `WakeCheckFilter`, which withholds a user's transcriptions
-- until a wake phrase has been spoken. A time is a number of nanoseconds, given with each frame;
-- `str::to_lowercase` is a parameter; texts are code points, and where the source has offsets in
-- bytes of UTF-8 so has the model. A slice off the boundaries of characters panics.
pub mod Users
pub mod Gate
pub mod Words
pub mod Phrases
mod Tests
use flowcat.Base.{
  ℕ, zero, suc, ◌+◌, ◌-◌, Bool, true, false, not, ◌&&◌, List, [], ◌∷◌, ◌++◌, Option, none, some,
  if◌then◌else◌, ltb, length, take, drop, map, Outcome, ok, err, panic,
}
use flowcat.Base.Text.{Text, text_eq, is_empty, is_whitespace, starts_with}
use flowcat.Base.Values.{or_else}
use flowcat.Frame.{Frame, transcription}
use flowcat.Runtime.{Envelope}

pub data WakeState : Type 0 where
  idle awake : WakeState

pub record ParticipantState : Type 0 where
  pub state : WakeState
  pub wake_timer : ℕ
  pub accumulator : Text

unfoldable pub new_participant : ParticipantState
new_participant = record { state = idle; wake_timer = 0; accumulator = [] }

pub record WakeCheckFilter : Type 0 where
  pub wake_phrases : List (List Text)
  pub keepalive : ℕ
  pub participants : List (Text × ParticipantState)

-- Bytes of a code point, and of a text, in UTF-8.
unfoldable pub char_bytes : ℕ → ℕ
char_bytes c = if ltb c 0x80 then 1 else if ltb c 0x800 then 2 else if ltb c 0x10000 then 3 else 4

unfoldable pub bytes : Text → ℕ
unfolding char_bytes
bytes [] = 0
bytes (c ∷ s) = char_bytes c + bytes s

-- `s[start..]`, at a byte.
unfoldable pub slice_at : ℕ → Text → Outcome (Unit {0}) Text
unfolding char_bytes
slice_at zero s = ok s
slice_at (suc n) [] = panic
slice_at (suc n) (c ∷ s) =
    let rest = slice_at (suc n - char_bytes c) s in
    if ltb (suc n) (char_bytes c) then panic else rest

-- `split_whitespace`, with the word that is being read.
unfoldable pub split_words : Text → Text → List Text
unfolding is_whitespace
split_words word [] = if is_empty word then [] else word ∷ []
split_words word (c ∷ s) =
    let between = split_words [] s in
    let inside = split_words (word ++ c ∷ []) s in
    if is_whitespace c then (if is_empty word then between else word ∷ between) else inside

-- `s.find(word)`, as a number of code points.
unfoldable pub find_in : Text → Text → Option ℕ
unfolding starts_with
find_in [] word = if is_empty word then some 0 else none
find_in (c ∷ s) word =
    let later = find_in s word in
    if starts_with (c ∷ s) word then some 0 else elim later [ none ↦ none | some n ↦ some (suc n) ]

-- The loop of `word_offsets`, whose `idx` is counted in code points; an offset is in bytes.
unfoldable pub offsets_from : ℕ → List Text → Text → List (ℕ × Text)
unfolding find_in bytes
offsets_from idx [] s = []
offsets_from idx (word ∷ words) s = elim (find_in (drop idx s) word) [
  | none ↦ offsets_from idx words s
  | some rel ↦ (bytes (take (idx + rel) s), word) ∷ offsets_from (idx + rel + length word) words s
]

unfoldable pub word_offsets : Text → List (ℕ × Text)
unfolding split_words offsets_from
word_offsets s = offsets_from 0 (split_words [] s) s

-- The words of a phrase, one after another.
unfoldable pub matches_here : List Text → List (ℕ × Text) → Bool
unfolding text_eq
matches_here [] words = true
matches_here (p ∷ phrase) [] = false
matches_here (p ∷ phrase) (w ∷ words) = text_eq w.1 p && matches_here phrase words

-- The loop over `start`.
unfoldable pub find_phrase : List Text → List (ℕ × Text) → Option ℕ
unfolding matches_here
find_phrase phrase [] = none
find_phrase phrase (w ∷ words) =
    let later = find_phrase phrase words in
    if ltb (length (w ∷ words)) (length phrase)
    then none
    else if matches_here phrase (w ∷ words)
    then some w.0
    else later

-- The loop over the phrases.
unfoldable pub first_phrase : List (List Text) → List (ℕ × Text) → Option ℕ
unfolding find_phrase
first_phrase [] words = none
first_phrase (phrase ∷ phrases) words =
    let later = first_phrase phrases words in
    if is_empty phrase then later else or_else (find_phrase phrase words) later

-- `ends_with(char::is_whitespace)`
unfoldable pub ends_with_space : Text → Bool
unfolding is_whitespace
ends_with_space [] = false
ends_with_space (c ∷ []) = is_whitespace c
ends_with_space (c ∷ d ∷ s) = ends_with_space (d ∷ s)

-- The accumulator with one more fragment.
unfoldable pub joined : Text → Text → Text
unfolding ends_with_space
joined accumulator fragment =
    if not (is_empty accumulator) && not (ends_with_space accumulator)
    then accumulator ++ 0x20 ∷ fragment
    else accumulator ++ fragment

unfoldable pub participant : Text → List (Text × ParticipantState) → ParticipantState
unfolding text_eq new_participant
participant user [] = new_participant
participant user (e ∷ es) = if text_eq e.0 user then e.1 else participant user es

unfoldable pub put_participant :
    Text → ParticipantState → List (Text × ParticipantState) → List (Text × ParticipantState)
unfolding text_eq
put_participant user p [] = (user, p) ∷ []
put_participant user p (e ∷ es) =
    let rest = put_participant user p es in if text_eq e.0 user then (user, p) ∷ es else e ∷ rest

abbrev pub Gated : Type 0
Gated = Outcome (Unit {0}) (Option Text × ParticipantState)

module _ (to_lowercase : Text → Text) where
  -- `match_wake`
  unfoldable pub match_wake : List (List Text) → Text → Option ℕ
  unfolding word_offsets first_phrase
  match_wake phrases haystack = first_phrase phrases (word_offsets (to_lowercase haystack))

  -- `WakeCheckFilter::with_clock`
  unfoldable pub with_clock : List Text → ℕ → WakeCheckFilter
  unfolding split_words
  with_clock wake_phrases keepalive = record {
    wake_phrases = map (λ p. map to_lowercase (split_words [] p)) wake_phrases;
    keepalive = keepalive;
    participants = [];
  }

  -- The text from a wake phrase on, and the participant awake.
  unfoldable pub wake_at : ℕ → Option ℕ → ParticipantState → Gated
  unfolding slice_at
  wake_at now none p = ok (none, p)
  wake_at now (some start) p = elim (slice_at start p.accumulator) [
    | ok gated ↦ ok (some gated, record { state = awake; wake_timer = now; accumulator = [] })
    | err e ↦ err e
    | panic ↦ panic
  ]

  -- A transcription of a user whose gate is closed.
  unfoldable pub listen : List (List Text) → ℕ → Text → ParticipantState → Gated
  unfolding match_wake wake_at joined
  listen phrases now text p =
      let accumulator = joined p.accumulator text in
      wake_at now (match_wake phrases accumulator)
        (record p { state = idle; accumulator = accumulator })

  unfoldable pub gate : WakeState → List (List Text) → ℕ → ℕ → Text → ParticipantState → Gated
  unfolding listen
  gate awake phrases keepalive now text p =
      if ltb (now - p.wake_timer) keepalive
      then ok (some text, record p { state = awake; wake_timer = now })
      else listen phrases now text p
  gate idle phrases keepalive now text p = listen phrases now text p

  abbrev pub settle :
      (Text → Frame)
      → Text
      → Envelope
      → WakeCheckFilter
      → Gated
      → Outcome (Unit {0}) (List Envelope × WakeCheckFilter)
  settle rebuild user env f (err e) = err e
  settle rebuild user env f panic = panic
  settle rebuild user env f (ok r) = ok (
    elim r.0 [ none ↦ [] | some words ↦ record env { frame = rebuild words } ∷ [] ],
    record f { participants = put_participant user r.1 f.participants },
  )

  unfoldable pub on_frame :
      Frame → ℕ → Envelope → WakeCheckFilter → Outcome (Unit {0}) (List Envelope × WakeCheckFilter)
  unfolding gate participant put_participant
  on_frame (transcription words user language final) now env f =
      let p = participant user f.participants in
      settle (λ text. transcription text user language final) user env f
        (gate p.state f.wake_phrases f.keepalive now words p)
  on_frame _ now env f = ok (env ∷ [], f)

  -- `process_frame`, at a time that the clock reads.
  unfoldable pub process_frame :
      ℕ → Envelope → WakeCheckFilter → Outcome (Unit {0}) (List Envelope × WakeCheckFilter)
  unfolding on_frame
  process_frame now env f = on_frame env.frame now env f
