-- ===== src/Wake/Tests.antt =====
-- A filter that wakes on "hey", and texts that grow in lower case.
use flowcat.Base.{
  ℕ, ◌≡◌, refl, ◌==◌, if◌then◌else◌, true, List, [], ◌∷◌, none, ok, panic, sym, ◌∙◌, some≢none,
}
use flowcat.Base.Text.{Text, codes}
use flowcat.Frame.{transcription, downstream}
use flowcat.Runtime.{new_meta}
use flowcat.Wake.{
  WakeCheckFilter, ParticipantState, idle, awake, with_clock, process_frame, match_wake,
  split_words, participant, new_participant,
}
use flowcat.Wake.Phrases.{IsHeard, match_wake-IsHeard}
use flowcat.Wake.Gate.{Said, says, talk, talk-unheard}

-- The capital I with a dot above is two code points in lower case.
abbrev lower : Text → Text
lower [] = []
lower (c ∷ s) = let rest = lower s in if c == 0x130 then 0x69 ∷ 0x307 ∷ rest else c ∷ rest

abbrev filter : WakeCheckFilter
filter = with_clock lower (codes "hey" ∷ []) 3000

abbrev say : ℕ → Text → Said
say now words = record {
  now = now;
  words = words;
  meta = new_meta 1 (transcription words (codes "u") none true);
  language = none;
  final = true;
  direction = downstream;
}

abbrev user : Text
user = codes "u"

wakes_at_phrase :
    (process_frame lower 10 (says user (say 10 (codes "so hey you"))) filter)
    ≡ ok (
      record (says user (say 10 (codes "so hey you"))) {
        frame = transcription (codes "hey you") user none true;
      }
          ∷ [],
      record filter {
        participants = (user, record { state = awake; wake_timer = 10; accumulator = [] }) ∷ [];
      },
    )
unfolding process_frame with_clock
wakes_at_phrase = refl

-- The offset in the lower-case text lies past the end of the text itself.
panics_past_end :
    process_frame lower 10
      (says user (say 10 (0x130 ∷ 0x130 ∷ 0x130 ∷ 0x130 ∷ codes " hey")))
      filter
    ≡ panic
unfolding process_frame with_clock
panics_past_end = refl

-- No word is "hey", though one begins with it.
abbrev small_talk : List Said
small_talk = say 1 (codes "what time") ∷ say 2 (codes "heyday") ∷ []

unheard_in :
    (text : Text)
    → match_wake lower filter.wake_phrases text ≡ none
    → IsHeard filter.wake_phrases (split_words [] (lower text))
    → ⊥
unheard_in text silent heard =
    some≢none (sym ((match_wake-IsHeard lower filter.wake_phrases text).1 heard).1 ∙ silent)

talk-unheard_example : (g : WakeCheckFilter) × (talk lower user small_talk filter ≡ ok ([], g))
unfolding match_wake participant with_clock flowcat.Wake.joined
talk-unheard_example =
    talk-unheard lower user small_talk filter refl
      (unheard_in (codes "what time") refl, (unheard_in (codes "what time heyday") refl, tt))
