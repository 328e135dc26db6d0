-- ===== src/Aggregate/Plain.antt =====
-- flowcat-core/src/agent/text_filter.rs: with no tags and no patterns the other aggregators cut text as
-- the simple one does.
use flowcat.Base.{◌≡◌, refl, ap, ap₂, ◌∙◌, false, List, [], ◌∷◌, ◌++◌, Option, none, some, map}
use flowcat.Base.Text.{Text}
use flowcat.Aggregate.{
  SimpleTextAggregator, SkipTagsAggregator, append_char, check_sentence_with_lookahead, emitted,
  aggregate_simple, aggregate_skip_tags, update_tag_state,
}
use flowcat.Aggregate.Pattern.{
  PatternPairAggregator, PatternMatch, aggregate_matches, process_complete_patterns, resolve,
  incomplete_pattern, sentence_match, pattern_pair,
}

-- An aggregator of either kind with nothing to look for.
abbrev pub untagged : SimpleTextAggregator → SkipTagsAggregator
untagged a = record { inner = a; tags = []; inside = false }

abbrev pub unpatterned : SimpleTextAggregator → PatternPairAggregator
unpatterned a = record { inner = a; patterns = [] }

aggregate_skip_tags-untagged :
    (s : Text) (a : SimpleTextAggregator)
    → aggregate_skip_tags s (untagged a)
      ≡ ((aggregate_simple s a).0, untagged (aggregate_simple s a).1)
unfolding aggregate_skip_tags aggregate_simple update_tag_state
aggregate_skip_tags-untagged [] a = refl
aggregate_skip_tags-untagged (ch ∷ s) a =
    let checked = check_sentence_with_lookahead ch (append_char ch a) in
    ap (λ (r : List Text × SkipTagsAggregator). (emitted checked.0 ++ r.0, r.1))
      (aggregate_skip_tags-untagged s checked.1)

contents : List PatternMatch → List Text
contents ms = map (λ (m : PatternMatch). m.content) ms

contents-emitted :
    (o : Option Text) (ms : List PatternMatch)
    → contents (map sentence_match (emitted o) ++ ms) ≡ emitted o ++ contents ms
unfolding contents
contents-emitted none ms = refl
contents-emitted (some s) ms = refl

aggregate_matches-unpatterned :
    (s : Text) (a : SimpleTextAggregator)
    → (contents (aggregate_matches s (unpatterned a)).0 ≡ (aggregate_simple s a).0)
      × ((aggregate_matches s (unpatterned a)).1 ≡ unpatterned (aggregate_simple s a).1)
unfolding aggregate_matches aggregate_simple process_complete_patterns incomplete_pattern contents
    resolve
aggregate_matches-unpatterned [] a = (refl, refl)
aggregate_matches-unpatterned (ch ∷ s) a =
    let checked = check_sentence_with_lookahead ch (append_char ch a) in
    let rest = aggregate_matches-unpatterned s checked.1 in
    (
      contents-emitted checked.0 (aggregate_matches s (unpatterned checked.1)).0
          ∙ ap (λ ss. emitted checked.0 ++ ss) rest.0,
      rest.1,
    )

-- With no tags and with no patterns, text is cut into the sentences of the simple aggregator, and the same of it is held.
pub plain-simple :
    (s : Text) (a : SimpleTextAggregator)
    → (aggregate_skip_tags s (untagged a)
        ≡ ((aggregate_simple s a).0, untagged (aggregate_simple s a).1))
      × ((pattern_pair.aggregate s (unpatterned a))
          ≡ ((aggregate_simple s a).0, unpatterned (aggregate_simple s a).1))
unfolding contents
plain-simple s a =
    let r = aggregate_matches-unpatterned s a in
    (aggregate_skip_tags-untagged s a, ap₂ (λ x y. (x, y)) r.0 r.1)
