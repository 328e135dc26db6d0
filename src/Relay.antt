-- ===== src/Relay.antt =====
-- flowcat-core/src/pipeline/context_relay.rs: the processor that keeps a digest of the call and re-bases a
-- realtime session onto it. The summary that a compactor returns is an input of the step that ends its
-- task; the clock is read in nanoseconds.
pub mod Covered
pub mod Compactor
mod Tests
use flowcat.Base.{
  ℕ, ◌+◌, ◌-◌, ◌/◌, Bool, true, false, ◌||◌, List, [], ◌∷◌, ◌++◌, Option, none, some, length, take,
  drop, leb, ltb, if◌then◌else◌,
}
use flowcat.Base.Text.{Text, codes, text_eq}
use flowcat.Frame.{
  Frame, FrameClass, system, upstream, transcription, custom, CustomData, CustomFrame, usage_report,
  reprompt, ToolDecl, Usage,
}
use flowcat.Runtime.{Envelope}
use flowcat.Runtime.Sends.{Send, pass, make}
use flowcat.Transcript.{Speaker, user, bot, TranscriptLine, Transcript, push_user, push_bot}

pub record ContextDigest : Type 0 where
  pub summary : Option Text
  pub summarized_through : ℕ

-- `n.min(m)`
abbrev pub at_most : ℕ → ℕ → ℕ
at_most n m = if leb n m then n else m

abbrev speaker_label : Speaker → Text
speaker_label user = codes "user: "
speaker_label bot = codes "assistant: "

unfoldable pub spoken_lines : List TranscriptLine → Text
spoken_lines [] = []
spoken_lines (line ∷ ls) = speaker_label line.speaker ++ (line.text ++ 10 ∷ spoken_lines ls)

abbrev summary_line : Option Text → Text
summary_line none = []
summary_line (some s) = codes "Summary of earlier conversation: " ++ (s ++ 10 ∷ [])

-- The lines that `render_block` gives word for word.
abbrev pub recent : ContextDigest → List TranscriptLine → List TranscriptLine
recent d turns = drop (at_most d.summarized_through (length turns)) turns

abbrev is_bare : Option Text → List TranscriptLine → Bool
is_bare none [] = true
is_bare _ _ = false

unfoldable pub render_block : ContextDigest → List TranscriptLine → Text
unfolding spoken_lines
render_block d turns =
    if is_bare d.summary (recent d turns)
    then []
    else 10 ∷ 10 ∷ codes "--- Conversation so far (preserved across a session refresh) ---"
      ++ 10 ∷ summary_line d.summary
      ++ spoken_lines (recent d turns)
      ++ codes "--- end of preserved conversation ---"
      ++ 10 ∷ []

pub record ContextRelayConfig : Type 0 where
  pub max_context_tokens : Option ℕ
  pub trigger_after_turns : Option ℕ
  pub keep_recent_turns : ℕ
  pub min_turns_between : ℕ
  pub max_session_secs : Option ℕ

-- `ContextRelayConfig::new`
abbrev pub default_relay : ContextRelayConfig
default_relay = record {
  max_context_tokens = some 4000;
  trigger_after_turns = none;
  keep_recent_turns = 4;
  min_turns_between = 2;
  max_session_secs = none;
}

pub data CompactionReason : Type 0 where
  budget session_age turn_count : CompactionReason

-- A compaction that a spawned task runs.
pub record Job : Type 0 where
  pub older : List TranscriptLine
  pub prior : Option Text
  pub target : ℕ

-- The processor with what it shares with its tasks, and the tasks.
pub record Relay : Type 0 where
  pub config : ContextRelayConfig
  pub base_prompt : Text
  pub base_tools : List ToolDecl
  pub transcript : Transcript
  pub digest : ContextDigest
  pub in_flight : Bool
  pub turns_since_compaction : ℕ
  pub session_started : Option ℕ
  pub jobs : List Job

unfoldable pub new_relay : ContextRelayConfig → Text → List ToolDecl → Relay
new_relay config base_prompt base_tools = record {
  config = config;
  base_prompt = base_prompt;
  base_tools = base_tools;
  transcript = [];
  digest = record { summary = none; summarized_through = 0 };
  in_flight = false;
  turns_since_compaction = 0;
  session_started = none;
  jobs = [];
}

-- `start`
unfoldable pub start_relay : ℕ → Relay → Relay
start_relay now r = record r { session_started = some now }

unfoldable pub effective_prompt : Relay → Text
unfolding render_block
effective_prompt r = r.base_prompt ++ render_block r.digest r.transcript

abbrev reaches : Option ℕ → ℕ → Bool
reaches none n = false
reaches (some limit) n = leb limit n

abbrev exceeds : Option ℕ → Option ℕ → Bool
exceeds (some limit) (some n) = ltb limit n
exceeds _ _ = false

abbrev is_silent : Transcript → Bool
is_silent [] = true
is_silent (line ∷ ls) = false

unfoldable pub should_compact : Option ℕ → ℕ → Relay → Option CompactionReason
should_compact input_tokens elapsed_secs r =
    if r.in_flight || is_silent r.transcript
    then none
    else if reaches r.config.max_session_secs elapsed_secs
    then some session_age
    else if ltb r.turns_since_compaction
        (if leb r.config.min_turns_between 1 then 1 else r.config.min_turns_between)
    then none
    else if exceeds r.config.max_context_tokens input_tokens
    then some budget
    else if reaches r.config.trigger_after_turns r.turns_since_compaction
    then some turn_count
    else none

-- The frame that re-bases the session.
abbrev pub reprompt_frame : Text → List ToolDecl → Frame
reprompt_frame prompt tools = custom (record {
  frame_class = system;
  uninterruptible = true;
  name = codes "Reprompt";
  as_any = reprompt prompt tools;
})

abbrev pub push_prompt : Relay → List Send
push_prompt r = make (reprompt_frame (effective_prompt r) r.base_tools) upstream ∷ []

-- `fire_compaction` behind its prompt: a task, unless there is nothing older to compact.
unfoldable pub spawn : Relay → Relay
spawn r =
    let target = length r.transcript - r.config.keep_recent_turns in
    if leb target r.digest.summarized_through then record r { in_flight = false } else record r {
      jobs =
          r.jobs
          ++ record { older = take target r.transcript; prior = r.digest.summary; target = target }
            ∷ [];
    }

-- `fire_compaction`; the reason is logged.
unfoldable pub fire_compaction : ℕ → Relay → List Send × Relay
unfolding spawn effective_prompt
fire_compaction now r =
    let r' = record r {
      in_flight = true;
      turns_since_compaction = 0;
      session_started = some now;
    } in
    (push_prompt r', spawn r')

-- What a task does when its compactor returns.
unfoldable pub finish_job : Option Text → Job → Relay → Relay
finish_job none job r = record r { in_flight = false }
finish_job (some s) job r = record r {
  digest = record { summary = some s; summarized_through = job.target };
  in_flight = false;
}

abbrev elapsed : Option ℕ → ℕ → ℕ
elapsed none now = 0
elapsed (some started) now = (now - started) / 1000000000

abbrev pub compact_for : Option CompactionReason → ℕ → Relay → List Send × Relay
compact_for none now r = ([], r)
compact_for (some reason) now r = fire_compaction now r

unfoldable pub on_usage : ℕ → Usage → Relay → List Send × Relay
unfolding should_compact fire_compaction
on_usage now usage r =
    let r' = record r { turns_since_compaction = r.turns_since_compaction + 1 } in
    compact_for (should_compact usage.input_tokens (elapsed r.session_started now) r') now r'

abbrev pub hear_line : Text → Text → Relay → Relay
hear_line user_id text r =
    if text_eq user_id (codes "bot")
    then record r { transcript = push_bot text r.transcript }
    else record r { transcript = push_user text r.transcript }

abbrev pub then_pass : Envelope → List Send × Relay → List Send × Relay
then_pass env s = (s.0 ++ pass env ∷ [], s.1)

-- A change of node replaces the base, and is not passed on as it came.
abbrev pub rebase : Text → List ToolDecl → Relay → List Send × Relay
rebase prompt tools r =
    let r' = record r { base_prompt = prompt; base_tools = tools } in (push_prompt r', r')

abbrev pub on_custom : ℕ → CustomData → Envelope → Relay → List Send × Relay
on_custom now (usage_report usage) env r = then_pass env (on_usage now usage r)
on_custom now (reprompt prompt tools) env r = rebase prompt tools r
on_custom now _ env r = (pass env ∷ [], r)

abbrev pub on_relay_frame : ℕ → Frame → Envelope → Relay → List Send × Relay
on_relay_frame now (transcription text user_id lang true) env r =
    (pass env ∷ [], hear_line user_id text r)
on_relay_frame now (custom c) env r = on_custom now c.as_any env r
on_relay_frame now _ env r = (pass env ∷ [], r)

-- `process_frame`
unfoldable pub relay_frame : ℕ → Envelope → Relay → List Send × Relay
unfolding on_usage push_user push_bot effective_prompt text_eq
relay_frame now env r = on_relay_frame now env.frame env r
