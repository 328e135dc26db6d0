-- ===== src/Transcript/Turns.antt =====
-- The lines of a transcript alternate between the speakers, and none is empty.
use flowcat.Base.{
  ℕ, suc, ◌≤◌, ◌≡◌, refl, sym, subst, inl, inr, false, List, [], ◌∷◌, ◌++◌, if◌then◌else◌, if_true,
  if_false, Bool-cases, arith,
}
use flowcat.Base.Text.{Text, is_empty}
use flowcat.Transcript.{
  Speaker, user, bot, same_speaker, TranscriptLine, Transcript, extend, push, turns_of, user_turns,
  bot_turns,
}
use flowcat.Transcript.Merge.{run}

-- Neighbours have different speakers.
abbrev pub Alternates : Transcript → Type 0
Alternates [] = Unit
Alternates (line ∷ []) = is_empty line.text ≡ false
Alternates (line ∷ next ∷ lines) =
    (is_empty line.text ≡ false)
    × ((same_speaker line.speaker next.speaker ≡ false) × Alternates (next ∷ lines))

empty-append : (a b : Text) → is_empty a ≡ false → is_empty (a ++ b) ≡ false
empty-append [] b h = ground arith
empty-append (x ∷ a) b h = refl

extend-Alternates :
    (s : Speaker) (text : Text) (lines : Transcript)
    → is_empty text ≡ false
    → Alternates lines
    → Alternates (extend s text lines)
unfolding extend
extend-Alternates s text [] h k = h
extend-Alternates s text (last ∷ []) h k = elim (Bool-cases (same_speaker last.speaker s)) [
  | inl same ↦ subst Alternates (sym (if_true _ _ same)) (empty-append last.text text k)
  | inr turn ↦ subst Alternates (sym (if_false _ _ turn)) (k, (turn, h))
]
extend-Alternates s text (line ∷ last ∷ []) h k = elim (Bool-cases (same_speaker last.speaker s)) [
  | inl same ↦
      subst (λ ls. Alternates (line ∷ ls)) (sym (if_true _ _ same))
        (k.0, (k.1.0, empty-append last.text text k.1.1))
  | inr turn ↦
      subst (λ ls. Alternates (line ∷ ls)) (sym (if_false _ _ turn))
        (k.0, (k.1.0, (k.1.1, (turn, h))))
]
extend-Alternates s text (line ∷ next ∷ after ∷ lines) h k =
    (k.0, (k.1.0, extend-Alternates s text (next ∷ after ∷ lines) h k.1.1))

push-Alternates :
    (s : Speaker) (text : Text) (lines : Transcript)
    → Alternates lines
    → Alternates (push s text lines)
unfolding push
push-Alternates s [] lines k = k
push-Alternates s (c ∷ text) lines k = extend-Alternates s (c ∷ text) lines refl k

run-Alternates_lines :
    (ds : List (Speaker × Text)) (lines : Transcript) → Alternates lines → Alternates (run ds lines)
run-Alternates_lines [] lines k = k
run-Alternates_lines (d ∷ ds) lines k =
    run-Alternates_lines ds (push d.0 d.1 lines) (push-Alternates d.0 d.1 lines k)

-- The speaker in front has as many turns as the other, or one more.
Leads : Speaker → ℕ → ℕ → Type 0
Leads user users bots = (bots ≤ users) × (users ≤ suc bots)
Leads bot users bots = (users ≤ bots) × (bots ≤ suc users)

abbrev counted : Speaker → Speaker → ℕ → ℕ
counted s of n = if same_speaker s of then suc n else n

Leads-next :
    (s t : Speaker) (users bots : ℕ)
    → same_speaker s t ≡ false
    → Leads t users bots
    → Leads s (counted s user users) (counted s bot bots)
unfolding same_speaker Leads
Leads-next user user users bots h k = ground arith
Leads-next user bot users bots h k = ground arith
Leads-next bot user users bots h k = ground arith
Leads-next bot bot users bots h k = ground arith

Leads-none :
    (s : Speaker) → Leads s (counted s user (turns_of user [])) (counted s bot (turns_of bot []))
unfolding same_speaker Leads turns_of
Leads-none user = ground arith
Leads-none bot = ground arith

turns_of-cons :
    (s : Speaker) (line : TranscriptLine) (lines : Transcript)
    → turns_of s (line ∷ lines) ≡ counted line.speaker s (turns_of s lines)
unfolding turns_of
turns_of-cons s line lines = ground arith

uncounted :
    (line : TranscriptLine) (lines : Transcript)
    → Leads line.speaker
        (counted line.speaker user (turns_of user lines))
        (counted line.speaker bot (turns_of bot lines))
    → Leads line.speaker (turns_of user (line ∷ lines)) (turns_of bot (line ∷ lines))
uncounted line lines k =
    subst (λ n. Leads line.speaker n (turns_of bot (line ∷ lines)))
      (sym (turns_of-cons user line lines))
      (subst (Leads line.speaker (counted line.speaker user (turns_of user lines)))
        (sym (turns_of-cons bot line lines)) k)

front-Leads :
    (line : TranscriptLine) (lines : Transcript)
    → Alternates (line ∷ lines)
    → Leads line.speaker (turns_of user (line ∷ lines)) (turns_of bot (line ∷ lines))
front-Leads line [] k = uncounted line [] (Leads-none line.speaker)
front-Leads line (next ∷ lines) k = uncounted line (next ∷ lines) (
    Leads-next line.speaker next.speaker (turns_of user (next ∷ lines))
      (turns_of bot (next ∷ lines)) k.1.0 (front-Leads next lines k.1.1))

balanced :
    (s : Speaker) (users bots : ℕ) → Leads s users bots → (users ≤ suc bots) × (bots ≤ suc users)
unfolding Leads
balanced user users bots h = ground arith
balanced bot users bots h = ground arith

lines-balanced :
    (lines : Transcript)
    → Alternates lines
    → (user_turns lines ≤ suc (bot_turns lines)) × (bot_turns lines ≤ suc (user_turns lines))
unfolding user_turns bot_turns turns_of
lines-balanced [] k = ground arith
lines-balanced (line ∷ lines) k =
    balanced line.speaker (turns_of user (line ∷ lines)) (turns_of bot (line ∷ lines))
      (front-Leads line lines k)

-- From a transcript whose lines are not empty and alternate between the speakers, any run of deltas
-- leaves one, and then the turns of the two speakers differ by one at most.
pub run-Alternates_turns :
    (ds : List (Speaker × Text)) (lines : Transcript)
    → Alternates lines
    → Alternates (run ds lines)
      × ((user_turns (run ds lines) ≤ suc (bot_turns (run ds lines)))
          × (bot_turns (run ds lines) ≤ suc (user_turns (run ds lines))))
run-Alternates_turns ds lines k =
    let after = run-Alternates_lines ds lines k in (after, lines-balanced (run ds lines) after)
