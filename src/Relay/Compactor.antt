-- ===== src/Relay/Compactor.antt =====
-- flowcat-core/src/pipeline/context_relay.rs: `LlmCompactor`, which asks a language model for the summary. The service is
-- a parameter, whose stream is the frames that it yields.
use flowcat.Base.{Bool, true, false, List, [], ◌∷◌, ◌++◌, Option, none, some, if◌then◌else◌}
use flowcat.Base.Text.{Text, codes, is_empty, Json, string, object, end, field}
use flowcat.Base.Scan.{trim}
use flowcat.Frame.{Frame, StartParams, default_start, llm_text, LlmContext}
use flowcat.Transcript.{Speaker, user, bot, TranscriptLine}

-- `service::LlmService`, with its state: `start`, which may fail, and the frames of `run_llm`.
pub record LlmService (L : Type 0) : Type 0 where
  pub start : StartParams → L → Bool × L
  pub run_llm : LlmContext → L → Option (List Frame) × L

pub record LlmCompactor (L : Type 0) : Type 0 where
  pub llm : L
  pub started : Bool
  pub instruction : Text

-- `with_instruction`
unfoldable pub new_compactor : {L : Type 0} → L → Text → LlmCompactor L
new_compactor llm instruction = record { llm = llm; started = false; instruction = instruction }

abbrev opening : Option Text → Text
opening none = codes "Conversation so far:" ++ 10 ∷ []
opening (some p) =
    codes "Summary so far:"
    ++ 10 ∷ p
    ++ 10 ∷ 10 ∷ codes "New turns to fold into the summary:"
    ++ 10 ∷ []

abbrev caption : Speaker → Text
caption user = codes "Caller: "
caption bot = codes "Agent: "

abbrev captioned : List TranscriptLine → Text
captioned [] = []
captioned (line ∷ ls) = caption line.speaker ++ (line.text ++ 10 ∷ captioned ls)

abbrev message : Text → Text → Json
message role content =
    object (field (codes "role") (string role) (field (codes "content") (string content) end))

unfoldable pub build_context : Text → List TranscriptLine → Option Text → LlmContext
build_context instruction older prior = record {
  messages =
      message (codes "system") instruction
      ∷ message (codes "user") (opening prior ++ captioned older)
      ∷ [];
  tools = [];
}

-- The text of a stream.
unfoldable pub streamed : List Frame → Text
streamed [] = []
streamed (llm_text t ∷ frames) = t ++ streamed frames
streamed (_ ∷ frames) = streamed frames

unfoldable pub summary_of : Text → Option Text
unfolding trim
summary_of out = if is_empty (trim out) then none else some (trim out)

module _ {L : Type 0} (service : LlmService L) where
  -- The answer of the service, and the state behind it.
  abbrev summarize : Option (List Frame) × L → LlmCompactor L → Option Text × LlmCompactor L
  summarize (none, llm) c = (none, record c { llm = llm })
  summarize (some frames, llm) c = (summary_of (streamed frames), record c { llm = llm })

  abbrev ask : LlmContext → LlmCompactor L → Option Text × LlmCompactor L
  ask ctx c = summarize (service.run_llm ctx c.llm) c

  abbrev ask_started : Bool × L → LlmContext → LlmCompactor L → Option Text × LlmCompactor L
  ask_started (false, llm) ctx c = (none, record c { llm = llm })
  ask_started (true, llm) ctx c = ask ctx (record c { llm = llm; started = true })

  abbrev compact_lines :
      List TranscriptLine → Option Text → LlmCompactor L → Option Text × LlmCompactor L
  compact_lines older prior c =
      let ctx = build_context c.instruction older prior in
      if c.started then ask ctx c else ask_started (service.start default_start c.llm) ctx c

  -- `compact`
  unfoldable pub compact :
      List TranscriptLine → Option Text → LlmCompactor L → Option Text × LlmCompactor L
  unfolding build_context streamed summary_of
  compact [] prior c = (none, c)
  compact (line ∷ older) prior c = compact_lines (line ∷ older) prior c
