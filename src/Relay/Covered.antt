-- ===== src/Relay/Covered.antt =====
-- flowcat-core/src/pipeline/context_relay.rs: what a digest has summarized and what it gives word for word, over any
-- order of frames and tasks.
use flowcat.Base.{
  ℕ, zero, suc, ◌+◌, ◌-◌, ◌≤◌, ◌<◌, ◌≡◌, refl, sym, ap, subst, ◌∙◌, inl, inr, true, List, [], ◌∷◌,
  ◌++◌, Option, none, some, length, take, drop, All, All-append, leb, arith, Bool-cases, if_true,
  if_false, le→leb,
}
use flowcat.Base.Text.{Text, codes, text_eq, is_empty}
use flowcat.Frame.{Frame, transcription, custom, CustomData, usage_report, reprompt, ToolDecl}
use flowcat.Runtime.{Envelope}
use flowcat.Transcript.{
  Speaker, user, bot, TranscriptLine, Transcript, same_speaker, extend, push, push_user, push_bot,
}
use flowcat.Relay.{
  ContextRelayConfig, CompactionReason, Job, Relay, recent, new_relay, start_relay, spawn,
  fire_compaction, finish_job, compact_for, on_usage, hear_line, on_custom, on_relay_frame,
  relay_frame,
}

-- A run of the processor and of its tasks, with the lines that the present summary was made from. A task ends at any
-- time, with a summary or without.
module _ (config : ContextRelayConfig) (base_prompt : Text) (base_tools : List ToolDecl) where
  pub data Run : Relay → List TranscriptLine → Type 0 where
    fresh : Run (new_relay config base_prompt base_tools) []
    begun : (r : Relay) (xs : List TranscriptLine) (now : ℕ) → Run r xs → Run (start_relay now r) xs
    framed :
        (r : Relay) (xs : List TranscriptLine) (now : ℕ) (env : Envelope)
        → Run r xs
        → Run (relay_frame now env r).1 xs
    summed :
        (r : Relay) (xs : List TranscriptLine) (s : Text) (before after : List Job) (job : Job)
        → Run r xs
        → r.jobs ≡ before ++ job ∷ after
        → Run (finish_job (some s) job (record r { jobs = before ++ after })) job.older
    gave_up :
        (r : Relay) (xs : List TranscriptLine) (before after : List Job) (job : Job)
        → Run r xs
        → r.jobs ≡ before ++ job ∷ after
        → Run (finish_job none job (record r { jobs = before ++ after })) xs

-- The first lines of a transcript, its last one not among them.
abbrev IsSettled : ℕ → List TranscriptLine → Transcript → Type 0
IsSettled n xs ts = (xs ≡ take n ts) × (n ≤ length ts - 1)

take-extend :
    (n : ℕ) (speaker : Speaker) (text : Text) (ts : Transcript)
    → n ≤ length ts - 1
    → take n ts ≡ take n (extend speaker text ts)
unfolding extend
take-extend zero speaker text ts h = refl
take-extend (suc n) speaker text [] h = absurd (omega arith)
take-extend (suc n) speaker text (last ∷ []) h = absurd (omega arith)
take-extend (suc n) speaker text (line ∷ next ∷ ts) h =
    ap (λ ls. line ∷ ls) (take-extend n speaker text (next ∷ ts) (omega arith))

length-extend :
    (speaker : Speaker) (text : Text) (ts : Transcript)
    → length ts ≤ length (extend speaker text ts)
unfolding extend
length-extend speaker text [] = omega arith
length-extend speaker text (last ∷ []) = elim (Bool-cases (same_speaker last.speaker speaker)) [
  | inl same ↦
      subst (λ (ls : Transcript). 1 ≤ length ls)
        (sym (
          if_true (record last { text = last.text ++ text } ∷ [])
            (last ∷ record { speaker = speaker; text = text } ∷ []) same))
        (omega arith)
  | inr other ↦
      subst (λ (ls : Transcript). 1 ≤ length ls)
        (sym (
          if_false (record last { text = last.text ++ text } ∷ [])
            (last ∷ record { speaker = speaker; text = text } ∷ []) other))
        (omega arith)
]
length-extend speaker text (line ∷ next ∷ ts) =
    omega (arith, length-extend speaker text (next ∷ ts))

push-IsSettled :
    (n : ℕ) (xs : List TranscriptLine) (speaker : Speaker) (text : Text) (ts : Transcript)
    → IsSettled n xs ts
    → IsSettled n xs (push speaker text ts)
unfolding push
push-IsSettled n xs speaker text ts settled = elim (Bool-cases (is_empty text)) [
  | inl nothing ↦ subst (IsSettled n xs) (sym (if_true ts (extend speaker text ts) nothing)) settled
  | inr something ↦ subst (IsSettled n xs) (sym (if_false ts (extend speaker text ts) something)) (
    settled.0 ∙ take-extend n speaker text ts settled.1,
    omega (arith, settled.1, length-extend speaker text ts),
  )
]

abbrev JobsSettled : List Job → Transcript → Type 0
JobsSettled jobs ts = All (λ (job : Job). IsSettled job.target job.older ts) jobs

push-JobsSettled :
    (jobs : List Job) (speaker : Speaker) (text : Text) (ts : Transcript)
    → JobsSettled jobs ts
    → JobsSettled jobs (push speaker text ts)
push-JobsSettled [] speaker text ts h = tt
push-JobsSettled (job ∷ jobs) speaker text ts h = (
  push-IsSettled job.target job.older speaker text ts h.0,
  push-JobsSettled jobs speaker text ts h.1,
)

-- One task less.
without :
    (before after : List Job) (job : Job) (ts : Transcript)
    → JobsSettled (before ++ job ∷ after) ts
    → IsSettled job.target job.older ts × JobsSettled (before ++ after) ts
without [] after job ts h = h
without (b ∷ before) after job ts h =
    let rest = without before after job ts h.1 in (rest.0, (h.0, rest.1))

abbrev IsKept : List TranscriptLine → Relay → Type 0
IsKept xs r =
    (0 < r.config.keep_recent_turns)
    × (IsSettled r.digest.summarized_through xs r.transcript × JobsSettled r.jobs r.transcript)

spawn-IsKept : (xs : List TranscriptLine) (r : Relay) → IsKept xs r → IsKept xs (spawn r)
unfolding spawn
spawn-IsKept xs r kept =
    let target = length r.transcript - r.config.keep_recent_turns in
    let job : Job = record {
      older = take target r.transcript;
      prior = r.digest.summary;
      target = target;
    } in
    elim (Bool-cases (leb target r.digest.summarized_through)) [
      | inl done ↦ subst (IsKept xs) (sym (if_true _ _ done)) kept
      | inr more ↦ subst (IsKept xs) (sym (if_false _ _ more)) (
        kept.0,
        (
          kept.1.0,
          All-append (λ (j : Job). IsSettled j.target j.older r.transcript) r.jobs (job ∷ [])
              kept.1.1 ((refl, omega (arith, kept.0)), tt),
        ),
      )
    ]

compact_for-IsKept :
    (xs : List TranscriptLine) (o : Option CompactionReason) (now : ℕ) (r : Relay)
    → IsKept xs r
    → IsKept xs (compact_for o now r).1
unfolding fire_compaction
compact_for-IsKept xs none now r kept = kept
compact_for-IsKept xs (some reason) now r kept =
    spawn-IsKept xs
      (record r { in_flight = true; turns_since_compaction = 0; session_started = some now }) kept

hear_line-IsKept :
    (xs : List TranscriptLine) (user_id text : Text) (r : Relay)
    → IsKept xs r
    → IsKept xs (hear_line user_id text r)
unfolding push_user push_bot
hear_line-IsKept xs user_id text r kept = elim (Bool-cases (text_eq user_id (codes "bot"))) [
  | inl agent ↦ subst (IsKept xs) (sym (if_true _ _ agent)) (by_speaker bot)
  | inr caller ↦ subst (IsKept xs) (sym (if_false _ _ caller)) (by_speaker user)
]
  where
    by_speaker : (s : Speaker) → IsKept xs (record r { transcript = push s text r.transcript })
    by_speaker s = (
      kept.0,
      (
        push-IsSettled r.digest.summarized_through xs s text r.transcript kept.1.0,
        push-JobsSettled r.jobs s text r.transcript kept.1.1,
      ),
    )

on_custom-IsKept :
    (xs : List TranscriptLine) (now : ℕ) (c : CustomData) (env : Envelope) (r : Relay)
    → IsKept xs r
    → IsKept xs (on_custom now c env r).1
unfolding on_usage
on_custom-IsKept xs now (usage_report usage) env r kept =
    compact_for-IsKept xs _ now (record r { turns_since_compaction = r.turns_since_compaction + 1 })
      kept
on_custom-IsKept xs now (reprompt prompt tools) env r kept = kept
on_custom-IsKept xs now _ env r kept = kept

on_relay_frame-IsKept :
    (xs : List TranscriptLine) (now : ℕ) (frame : Frame) (env : Envelope) (r : Relay)
    → IsKept xs r
    → IsKept xs (on_relay_frame now frame env r).1
on_relay_frame-IsKept xs now (transcription text user_id lang true) env r kept =
    hear_line-IsKept xs user_id text r kept
on_relay_frame-IsKept xs now (custom c) env r kept = on_custom-IsKept xs now c.as_any env r kept
on_relay_frame-IsKept xs now _ env r kept = kept

take-drop : (n : ℕ) (ts : Transcript) → take n ts ++ drop n ts ≡ ts
take-drop zero ts = refl
take-drop (suc n) [] = refl
take-drop (suc n) (t ∷ ts) = ap (λ ls. t ∷ ls) (take-drop n ts)

module _ (config : ContextRelayConfig) (base_prompt : Text) (base_tools : List ToolDecl) where
  run-IsKept :
      (r : Relay) (xs : List TranscriptLine)
      → 0 < config.keep_recent_turns
      → Run config base_prompt base_tools r xs
      → IsKept xs r
  unfolding new_relay start_relay relay_frame finish_job
  run-IsKept _ _ pos fresh = (pos, ((refl, omega arith), tt))
  run-IsKept _ _ pos (begun r xs now run) = run-IsKept r xs pos run
  run-IsKept _ _ pos (framed r xs now env run) =
      on_relay_frame-IsKept xs now env.frame env r (run-IsKept r xs pos run)
  run-IsKept _ _ pos (summed r xs s before after job run found) =
      let kept = run-IsKept r xs pos run in
      let rest =
        without before after job r.transcript
          (subst (λ (js : List Job). JobsSettled js r.transcript) found kept.1.1) in
      (kept.0, rest)
  run-IsKept _ _ pos (gave_up r xs before after job run found) =
      let kept = run-IsKept r xs pos run in
      let rest =
        without before after job r.transcript
          (subst (λ (js : List Job). JobsSettled js r.transcript) found kept.1.1) in
      (kept.0, (kept.1.0, rest.1))

  -- Where the configuration keeps at least one recent turn, over any order of frames and of tasks that end, the lines
  -- that the present summary was made from and the lines that the prompt gives word for word are the transcript of the
  -- call: none is lost between them, and none is in both.
  pub run-recent :
      (r : Relay) (xs : List TranscriptLine)
      → 0 < config.keep_recent_turns
      → Run config base_prompt base_tools r xs
      → xs ++ recent r.digest r.transcript ≡ r.transcript
  run-recent r xs pos run =
      let settled = (run-IsKept r xs pos run).1.0 in
      let n = r.digest.summarized_through in
      ap (λ k. xs ++ drop k r.transcript)
        (if_true n (length r.transcript)
          (le→leb n (length r.transcript) (omega (arith, settled.1))))
      ∙ ap (λ (ls : List TranscriptLine). ls ++ drop n r.transcript) settled.0
      ∙ take-drop n r.transcript
