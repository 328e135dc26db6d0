-- ===== src/Relay/Tests.antt =====
-- flowcat-core/src/pipeline/context_relay.rs: a call whose first line is summarized, and one whose only line is.
use flowcat.Base.{ℕ, ◌≡◌, refl, true, List, [], ◌∷◌, ◌++◌, none, some, false, arith}
use flowcat.Base.Text.{Text, codes}
use flowcat.Frame.{Frame, transcription, custom, usage_report, system, downstream}
use flowcat.Runtime.{Envelope, new_meta}
use flowcat.Transcript.{user, TranscriptLine}
use flowcat.Relay.{
  ContextRelayConfig, Job, Relay, recent, new_relay, relay_frame, finish_job, effective_prompt,
}
use flowcat.Relay.Covered.{Run, fresh, framed, summed, run-recent}

abbrev keeping : ℕ → ContextRelayConfig
keeping n = record {
  max_context_tokens = some 10;
  trigger_after_turns = none;
  keep_recent_turns = n;
  min_turns_between = 1;
  max_session_secs = none;
}

abbrev carried : Frame → Envelope
carried frame = record { meta = new_meta 1 frame; frame = frame; direction = downstream }

abbrev says : Text → Text → Envelope
says who words = carried (transcription words who none true)

-- A report of twenty tokens.
abbrev used : Envelope
used = carried (
    custom (record {
      frame_class = system;
      uninterruptible = false;
      name = codes "UsageReport";
      as_any = usage_report (record {
        input_tokens = some 20;
        output_tokens = none;
        total_tokens = none;
        extra = none;
      });
    }))

abbrev after : Envelope → Relay → Relay
after env r = (relay_frame 0 env r).1

abbrev opened : ℕ → Relay
opened n = new_relay (keeping n) (codes "BASE") []

abbrev two_lines : ℕ → Relay
two_lines n =
    after used
      (after (says (codes "bot") (codes "yo")) (after (says (codes "me") (codes "hi")) (opened n)))

abbrev first_line : List TranscriptLine
first_line = record { speaker = user; text = codes "hi" } ∷ []

abbrev first_job : Job
first_job = record { older = first_line; prior = none; target = 1 }

abbrev summed_up : Relay
summed_up = finish_job (some (codes "greeted")) first_job (record (two_lines 1) { jobs = [] })

spawns_first : (two_lines 1).jobs ≡ first_job ∷ []
unfolding relay_frame new_relay
spawns_first = refl

two_lines-Run : Run (keeping 1) (codes "BASE") [] (two_lines 1) []
two_lines-Run = framed _ [] 0 used (
    framed _ [] 0 (says (codes "bot") (codes "yo"))
      (framed _ [] 0 (says (codes "me") (codes "hi")) fresh))

run-recent_example :
    first_line ++ recent summed_up.digest summed_up.transcript ≡ summed_up.transcript
run-recent_example =
    run-recent (keeping 1) (codes "BASE") [] summed_up first_line (omega arith)
      (summed (two_lines 1) [] (codes "greeted") [] [] first_job two_lines-Run spawns_first)

prompts_with_summary :
    effective_prompt summed_up
    ≡ codes "BASE"
      ++ 10 ∷ 10 ∷ codes "--- Conversation so far (preserved across a session refresh) ---"
      ++ 10 ∷ codes "Summary of earlier conversation: greeted"
      ++ 10 ∷ codes "assistant: yo"
      ++ 10 ∷ codes "--- end of preserved conversation ---"
      ++ 10 ∷ []
unfolding effective_prompt relay_frame new_relay finish_job
prompts_with_summary = refl

-- With no recent turn kept, the only line is summarized while it grows.
abbrev one_line : Relay
one_line = after used (after (says (codes "me") (codes "hi")) (opened 0))

abbrev grown : Relay
grown =
    after (says (codes "me") (codes " there"))
      (finish_job (some (codes "greeted")) first_job (record one_line { jobs = [] }))

loses_growth : recent grown.digest grown.transcript ≡ []
unfolding relay_frame new_relay finish_job
loses_growth = refl
