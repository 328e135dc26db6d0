-- ===== src/Aggregate.antt =====
-- flowcat-core/src/agent/text_filter.rs: the aggregators that cut streamed text into sentences. An
-- offset counts code points, where the source counts the bytes of the same code points.
pub mod Letters
pub mod Processor
pub mod Turn
pub mod Pattern
pub mod Markdown
pub mod Plain
pub mod Regions
mod Tests
use flowcat.Base.{
  ℕ, zero, suc, ◌+◌, Bool, true, false, not, ◌&&◌, ◌||◌, List, [], ◌∷◌, ◌++◌, Option, none, some,
  if◌then◌else◌, leb, ltb, ◌==◌, length, take, drop, any,
}
use flowcat.Base.Text.{Text, is_empty, is_whitespace}
use flowcat.Base.Values.{map_some}
use flowcat.Base.Scan.{trim_by, cut}

-- `SENTENCE_ENDING_PUNCTUATION.contains`
unfoldable pub is_mark : ℕ → Bool
is_mark c =
    c == 46
    || (c == 63
        || (c == 33 || (c == 59 || (c == 0x3002 || (c == 0xff1f || (c == 0xff01 || c == 0xff1b))))))

unfoldable pub is_digit : Option ℕ → Bool
is_digit none = false
is_digit (some c) = leb 48 c && leb c 57

abbrev pub first_of : Text → Option ℕ
first_of [] = none
first_of (c ∷ s) = some c

abbrev pub last_of : Text → Option ℕ
last_of [] = none
last_of (c ∷ []) = some c
last_of (c ∷ d ∷ s) = last_of (d ∷ s)

-- The place of the last mark that is not a decimal point, from a place on, with the code point before it.
unfoldable pub last_mark : Option ℕ → ℕ → Option ℕ → Text → Option ℕ
unfolding is_mark is_digit
last_mark prev i idx [] = idx
last_mark prev i idx (c ∷ s) =
    last_mark (some c) (i + 1)
      (if is_mark c
        then (if c == 46 && (is_digit prev && is_digit (first_of s)) then idx else some i)
        else idx)
      s

-- How many marks stand at the front.
unfoldable pub mark_run : Text → ℕ
unfolding is_mark
mark_run [] = 0
mark_run (c ∷ s) = let rest = mark_run s in if is_mark c then rest + 1 else 0

unfoldable pub match_endofsentence : Text → Option ℕ
unfolding last_mark mark_run
match_endofsentence s =
    map_some (λ last. last + mark_run (drop (last + 1) s) + 1) (last_mark none 0 none s)

-- `trim_matches(' ')`
unfoldable pub trim_spaces : Text → Text
unfolding trim_by
trim_spaces s = trim_by (λ c. c == 32) s

pub record SimpleTextAggregator : Type 0 where
  pub buffered : Text
  pub needs_lookahead : Bool

unfoldable pub new_simple : SimpleTextAggregator
new_simple = record { buffered = []; needs_lookahead = false }

unfoldable pub ends_in_mark : Text → Bool
unfolding is_mark
ends_in_mark s = elim (last_of s) [ none ↦ false | some c ↦ is_mark c ]

-- Splitting off a sentence of that length, if there is one.
abbrev pub split_off : Option ℕ → SimpleTextAggregator → Option Text × SimpleTextAggregator
split_off none a = (none, a)
split_off (some marker) a =
    (some (trim_spaces (take marker a.buffered)), record a { buffered = drop marker a.buffered })

unfoldable pub check_sentence_with_lookahead :
    ℕ → SimpleTextAggregator → Option Text × SimpleTextAggregator
unfolding is_whitespace match_endofsentence trim_spaces ends_in_mark
check_sentence_with_lookahead ch a =
    if a.needs_lookahead
    then (if not (is_whitespace ch)
        then split_off (match_endofsentence a.buffered) (record a { needs_lookahead = false })
        else (none, a))
    else (none, if ends_in_mark a.buffered then record a { needs_lookahead = true } else a)

abbrev pub emitted : Option Text → List Text
emitted none = []
emitted (some s) = s ∷ []

-- `self.text.push(ch)`
abbrev pub append_char : ℕ → SimpleTextAggregator → SimpleTextAggregator
append_char ch a = record a { buffered = a.buffered ++ ch ∷ [] }

unfoldable pub aggregate_simple : Text → SimpleTextAggregator → List Text × SimpleTextAggregator
unfolding check_sentence_with_lookahead
aggregate_simple [] a = ([], a)
aggregate_simple (ch ∷ s) a =
    let checked = check_sentence_with_lookahead ch (append_char ch a) in
    let rest = aggregate_simple s checked.1 in (emitted checked.0 ++ rest.0, rest.1)

unfoldable pub flush_simple : SimpleTextAggregator → Option Text × SimpleTextAggregator
unfolding trim_spaces
flush_simple a =
    if is_empty a.buffered
    then (none, a)
    else (some (trim_spaces a.buffered), record { buffered = []; needs_lookahead = false })

unfoldable pub reset_simple : SimpleTextAggregator → SimpleTextAggregator
reset_simple a = record { buffered = []; needs_lookahead = false }

-- `trait TextAggregator`
pub record TextAggregator (A : Type 0) : Type 0 where
  pub aggregate : Text → A → List Text × A
  pub flush : A → Option Text × A
  pub reset : A → A

abbrev pub simple : TextAggregator SimpleTextAggregator
simple = record { aggregate = aggregate_simple; flush = flush_simple; reset = reset_simple }

pub record StartEndTags : Type 0 where
  pub start : Text
  pub end : Text

pub record SkipTagsAggregator : Type 0 where
  pub inner : SimpleTextAggregator
  pub tags : List StartEndTags
  pub inside : Bool

unfoldable pub new_skip_tags : List StartEndTags → SkipTagsAggregator
unfolding new_simple
new_skip_tags tags = record { inner = new_simple; tags = tags; inside = false }

-- The places of a text that is not empty that do not overlap, each found on a unit of fuel.
unfoldable pub occurrences : ℕ → Text → Text → ℕ
unfolding cut
occurrences zero pat s = 0
occurrences (suc fuel) pat s = elim (cut pat s) [
  | none ↦ 0
  | some parts ↦ occurrences fuel pat parts.1 + 1
]

-- `matches(pat).count()`: the empty text stands between any two code points.
unfoldable pub count_matches : Text → Text → ℕ
unfolding occurrences
count_matches [] s = length s + 1
count_matches (p ∷ pat) s = occurrences (length s) (p ∷ pat) s

-- `matches(start).count() > matches(end).count()`
unfoldable pub is_unclosed : Text → Text → Text → Bool
unfolding count_matches
is_unclosed start end s = ltb (count_matches end s) (count_matches start s)

unfoldable pub update_tag_state : SkipTagsAggregator → SkipTagsAggregator
unfolding is_unclosed
update_tag_state a = record a {
  inside = any (λ (tag : StartEndTags). is_unclosed tag.start tag.end a.inner.buffered) a.tags;
}

unfoldable pub aggregate_skip_tags : Text → SkipTagsAggregator → List Text × SkipTagsAggregator
unfolding update_tag_state check_sentence_with_lookahead
aggregate_skip_tags [] a = ([], a)
aggregate_skip_tags (ch ∷ s) a =
    let b = update_tag_state (record a { inner = append_char ch a.inner }) in
    let checked = check_sentence_with_lookahead ch b.inner in
    let skipped = aggregate_skip_tags s b in
    let rest = aggregate_skip_tags s (record b { inner = checked.1 }) in
    if b.inside then skipped else (emitted checked.0 ++ rest.0, rest.1)

unfoldable pub flush_skip_tags : SkipTagsAggregator → Option Text × SkipTagsAggregator
unfolding flush_simple
flush_skip_tags a =
    let flushed = flush_simple a.inner in
    (flushed.0, record a { inner = flushed.1; inside = false })

unfoldable pub reset_skip_tags : SkipTagsAggregator → SkipTagsAggregator
unfolding reset_simple
reset_skip_tags a = record a { inner = reset_simple a.inner; inside = false }

abbrev pub skip_tags : TextAggregator SkipTagsAggregator
skip_tags = record {
  aggregate = aggregate_skip_tags;
  flush = flush_skip_tags;
  reset = reset_skip_tags;
}
