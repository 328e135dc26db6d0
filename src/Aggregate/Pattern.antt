-- ===== src/Aggregate/Pattern.antt =====
-- flowcat-core/src/agent/text_filter.rs: the aggregator that takes delimited regions out of the text.
use flowcat.Base.{
  ℕ, zero, suc, ◌+◌, Bool, List, [], ◌∷◌, ◌++◌, Option, none, some, if◌then◌else◌, length, any, map,
}
use flowcat.Base.Text.{Text, codes}
use flowcat.Base.Values.{and_then, map_some}
use flowcat.Base.Scan.{cut, trim}
use flowcat.Aggregate.{
  SimpleTextAggregator, new_simple, append_char, check_sentence_with_lookahead, flush_simple,
  reset_simple, is_unclosed, emitted, TextAggregator,
}

pub data MatchAction : Type 0 where
  remove keep aggregate : MatchAction

pub record Pattern : Type 0 where
  pub id : Text
  pub start : Text
  pub end : Text
  pub action : MatchAction

pub record PatternMatch : Type 0 where
  pub id : Text
  pub content : Text

pub record PatternPairAggregator : Type 0 where
  pub inner : SimpleTextAggregator
  pub patterns : List Pattern

unfoldable pub new_pattern_pair : PatternPairAggregator
unfolding new_simple
new_pattern_pair = record { inner = new_simple; patterns = [] }

unfoldable pub add_pattern :
    Text → Text → Text → MatchAction → PatternPairAggregator → PatternPairAggregator
add_pattern id start end action a = record a {
  patterns = a.patterns ++ record { id = id; start = start; end = end; action = action } ∷ [];
}

unfoldable pub incomplete_pattern : PatternPairAggregator → Bool
unfolding is_unclosed
incomplete_pattern a = any (λ (p : Pattern). is_unclosed p.start p.end a.inner.buffered) a.patterns

-- `find`, where the empty text is found at once.
unfoldable pub find_text : Text → Text → Option (Text × Text)
unfolding cut
find_text [] s = some ([], s)
find_text (p ∷ pat) s = cut (p ∷ pat) s

-- What stands before the first region of a pattern, in it, and after it.
unfoldable pub region : Pattern → Text → Option (Text × (Text × Text))
unfolding find_text
region p s =
    and_then (find_text p.start s)
      λ opened. map_some (λ closed. (opened.0, (closed.0, closed.1))) (find_text p.end opened.1)

-- What a region does by its action, given what its removal leads to.
abbrev pub act :
    MatchAction
    → Pattern
    → Text × (Text × Text)
    → Option PatternMatch × Text
    → Option PatternMatch × Text
act remove p parts again = again
act keep p parts again = (none, parts.0 ++ (trim parts.1.0 ++ parts.1.1))
act aggregate p parts again =
    (some (record { id = p.id; content = trim parts.1.0 }), parts.0 ++ parts.1.1)

-- The patterns are tried in order; a region removed starts again with the first, on a unit of fuel.
unfoldable pub resolve : ℕ → List Pattern → List Pattern → Text → Option PatternMatch × Text
unfolding region trim
resolve fuel all [] s = (none, s)
resolve zero all (p ∷ ps) s = (none, s)
resolve (suc fuel) all (p ∷ ps) s = elim (region p s) [
  | none ↦ resolve (suc fuel) all ps s
  | some parts ↦ act p.action p parts (resolve fuel all all (parts.0 ++ parts.1.1))
]

unfoldable pub process_complete_patterns :
    PatternPairAggregator → Option PatternMatch × PatternPairAggregator
unfolding resolve
process_complete_patterns a =
    let resolved = resolve (length a.inner.buffered + 1) a.patterns a.patterns a.inner.buffered in
    (resolved.0, record a { inner = record (a.inner) { buffered = resolved.1 } })

abbrev pub sentence_match : Text → PatternMatch
sentence_match content = record { id = codes "sentence"; content = content }

-- The turn of the loop once the patterns are resolved.
abbrev pub finish_turn :
    ℕ → Option PatternMatch × PatternPairAggregator → List PatternMatch × PatternPairAggregator
finish_turn ch (some m, a) = (m ∷ [], a)
finish_turn ch (none, a) =
    let checked = check_sentence_with_lookahead ch a.inner in
    if incomplete_pattern a
    then ([], a)
    else (map sentence_match (emitted checked.0), record a { inner = checked.1 })

unfoldable pub aggregate_matches :
    Text → PatternPairAggregator → List PatternMatch × PatternPairAggregator
unfolding process_complete_patterns incomplete_pattern check_sentence_with_lookahead
aggregate_matches [] a = ([], a)
aggregate_matches (ch ∷ s) a =
    let turn =
      finish_turn ch (process_complete_patterns (record a { inner = append_char ch a.inner })) in
    let rest = aggregate_matches s turn.1 in (turn.0 ++ rest.0, rest.1)

abbrev pub pattern_pair : TextAggregator PatternPairAggregator
pattern_pair = record {
  aggregate =
      λ s a. let r = aggregate_matches s a in (map (λ (m : PatternMatch). m.content) r.0, r.1);
  flush = λ a. let r = flush_simple a.inner in (r.0, record a { inner = r.1 });
  reset = λ a. record a { inner = reset_simple a.inner };
}
