-- ===== src/Aggregate/Processor.antt =====
-- flowcat-core/src/agent/text_filter.rs: the processors around an aggregator and around a filter.
use flowcat.Base.{List, [], ◌∷◌, ◌++◌, Option, none, some, if◌then◌else◌}
use flowcat.Base.Text.{Text, is_empty}
use flowcat.Frame.{Frame, Direction, text, llm_text, llm_response_end}
use flowcat.Runtime.{Envelope}
use flowcat.Runtime.Sends.{Send, pass, make, push_down}
use flowcat.Aggregate.{TextAggregator}

-- The sentences that are not empty, as frames.
unfoldable pub push_sentences : Direction → List Text → List Send
push_sentences direction [] = []
push_sentences direction (sentence ∷ sentences) =
    let rest = push_sentences direction sentences in
    if is_empty sentence then rest else make (text sentence) direction ∷ rest

-- The tail goes downstream whatever way the end of the response goes.
unfoldable pub push_tail : Option Text → List Send
push_tail none = []
push_tail (some tail) = if is_empty tail then [] else push_down (text tail) ∷ []

module _ {A : Type 0} (g : TextAggregator A) where
  abbrev pub on_text : Text → Envelope → A → List Send × A
  on_text t env a =
      let aggregated = g.aggregate t a in (push_sentences env.direction aggregated.0, aggregated.1)

  abbrev pub on_frame : Frame → Envelope → A → List Send × A
  on_frame (llm_text t) env a = on_text t env a
  on_frame (text t) env a = on_text t env a
  on_frame llm_response_end env a =
      let flushed = g.flush a in (push_tail flushed.0 ++ pass env ∷ [], flushed.1)
  on_frame _ env a = (pass env ∷ [], a)

  -- `TextAggregatorProcessor::process_frame`
  unfoldable pub process_frame : Envelope → A → List Send × A
  unfolding push_sentences push_tail
  process_frame env a = on_frame env.frame env a

  -- `TextAggregatorProcessor::on_interruption`
  unfoldable pub reset_aggregator : A → A
  reset_aggregator a = g.reset a

-- `trait TextFilter`
pub record TextFilter (F : Type 0) : Type 0 where
  pub filter : Text → F → Text × F
  pub reset : F → F

module _ {F : Type 0} (g : TextFilter F) where
  -- A frame whose text filters to the empty one is dropped.
  abbrev pub pass_cleaned : (Text → Frame) → Envelope → Text × F → List Send × F
  pass_cleaned rebuild env cleaned = (
    if is_empty cleaned.0 then [] else pass (record env { frame = rebuild cleaned.0 }) ∷ [],
    cleaned.1,
  )

  abbrev pub filter_frame : Frame → Envelope → F → List Send × F
  filter_frame (llm_text t) env f = pass_cleaned llm_text env (g.filter t f)
  filter_frame (text t) env f = pass_cleaned text env (g.filter t f)
  filter_frame _ env f = (pass env ∷ [], f)

  -- `TextFilterProcessor::process_frame`
  unfoldable pub filter_process_frame : Envelope → F → List Send × F
  filter_process_frame env f = filter_frame env.frame env f

-- The texts of frames.
abbrev pub texts : List Frame → List Text
texts [] = []
texts (text t ∷ frames) = t ∷ texts frames
texts (_ ∷ frames) = texts frames

-- The text that arrives in a frame, and a stream of such frames with the end of the response.
abbrev pub chunk : Direction → flowcat.Runtime.FrameMeta → Text → Envelope
chunk direction meta t = record { meta = meta; frame = llm_text t; direction = direction }
