-- ===== src/Aggregate/Tests.antt =====
-- flowcat-core/src/agent/text_filter.rs: texts of the source's tests, and a number behind a tagged region.
use flowcat.Base.{Option, ◌≡◌, refl, true, List, [], ◌∷◌, ◌++◌, All, arith}
use flowcat.Base.Text.{Text, codes}
use flowcat.Base.Values.{filter_map}
use flowcat.Frame.{Frame, downstream, llm_text, text, llm_response_end}
use flowcat.Runtime.{Envelope, new_meta}
use flowcat.Runtime.Sends.{run, made}
use flowcat.Aggregate.{
  skip_tags, new_simple, new_skip_tags, StartEndTags, aggregate_simple, aggregate_skip_tags,
}
use flowcat.Aggregate.Letters.{letters, concat, skip_tags-IsLossless}
use flowcat.Aggregate.Processor.{process_frame}
use flowcat.Aggregate.Turn.{spoken, text_of, IsText, turn-spoken}
use flowcat.Aggregate.Pattern.{
  Pattern, PatternMatch, remove, aggregate, resolve, pattern_pair, new_pattern_pair, add_pattern,
  aggregate_matches,
}
use flowcat.Aggregate.Regions.{Resolves, resolve-terminates}
use flowcat.Aggregate.Markdown.{filter}

cuts_sentences :
    (aggregate_simple (codes "Hello there. It is $3.50 now. Bye") new_simple).0
    ≡ codes "Hello there." ∷ codes "It is $3.50 now." ∷ []
unfolding aggregate_simple new_simple
cuts_sentences = refl

abbrev think : List StartEndTags
think = record { start = codes "<t>"; end = codes "</t>" } ∷ []

holds_tagged :
    (aggregate_skip_tags (codes "<t>a. b. c</t> d. e") (new_skip_tags think)).0
    ≡ codes "<t>a. b. c</t> d." ∷ []
unfolding aggregate_skip_tags new_skip_tags
holds_tagged = refl

-- The mark before a decimal point may lie inside the tags.
splits_tagged :
    (aggregate_skip_tags (codes "<t>a. b</t> 3.1") (new_skip_tags think)).0 ≡ codes "<t>a." ∷ []
unfolding aggregate_skip_tags new_skip_tags
splits_tagged = refl

takes_pattern :
    (pattern_pair.aggregate
      (codes "Press <d>1</d> now. Ok")
      (add_pattern (codes "dtmf") (codes "<d>") (codes "</d>") aggregate new_pattern_pair)).0
    ≡ codes "1" ∷ codes "Press  now." ∷ []
unfolding aggregate_matches add_pattern new_pattern_pair
takes_pattern = refl

strips_markdown : filter true (codes "# **Hi** [there](http://x)") ≡ codes "Hi there"
unfolding filter
strips_markdown = refl

abbrev envelope : Frame → Envelope
envelope frame = record { meta = new_meta 1 frame; frame = frame; direction = downstream }

abbrev chunks : List Envelope
chunks =
    envelope (llm_text (codes "Hello the"))
    ∷ envelope (text (codes "re. It is "))
    ∷ envelope (llm_text (codes "3.50 now"))
    ∷ []

chunks-IsText : All IsText chunks
chunks-IsText =
    ((codes "Hello the", refl), ((codes "re. It is ", refl), ((codes "3.50 now", refl), tt)))

turn-spoken_example :
    spoken (
      made
        (run
          (process_frame skip_tags)
          (chunks ++ envelope llm_response_end ∷ [])
          (new_skip_tags think)).0)
    ≡ letters (skip_tags-IsLossless.held (new_skip_tags think))
      ++ letters (concat (filter_map (λ env. text_of env.frame) chunks))
turn-spoken_example =
    turn-spoken skip_tags skip_tags-IsLossless (envelope llm_response_end) refl chunks
      (new_skip_tags think) chunks-IsText

abbrev hidden : List Pattern
hidden = record { id = codes "x"; start = codes "<"; end = codes ">"; action = remove } ∷ []

resolve-terminates_example :
    Resolves hidden hidden (codes "a<b>c<d>") (resolve 9 hidden hidden (codes "a<b>c<d>"))
    × ((r : Option PatternMatch × Text)
        → Resolves hidden hidden (codes "a<b>c<d>") r
        → resolve 9 hidden hidden (codes "a<b>c<d>") ≡ r)
resolve-terminates_example = resolve-terminates hidden 9 (codes "a<b>c<d>") (refl, tt) (omega arith)
