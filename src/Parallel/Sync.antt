-- ===== src/Parallel/Sync.antt =====
-- A lifecycle frame is passed on behind the branches, and in front of what was held back for it.
use mathlib.Core.List.{append_assoc, append-nil}
use flowcat.Base.{
  ℕ, ◌+◌, ◌≤◌, ◌≡◌, sym, ap, ◌∙◌, true, false, List, [], ◌∷◌, ◌++◌, some, le→leb, if_true, if_false,
}
use flowcat.Frame.{Frame}
use flowcat.Runtime.{Envelope}
use flowcat.Parallel.{
  FanIn, is_seen, is_synced_lifecycle, same_lifecycle, forward_all, on_lifecycle, on_new, on_data,
  collect, fan_in,
}

-- Data frames with ids that are new, one after another.
abbrev pub AreNew : List ℕ → List Envelope → Type 0
AreNew ids [] = Unit
AreNew ids (env ∷ envs) =
    ((is_synced_lifecycle env.frame ≡ false) × (is_seen env.meta.id ids ≡ false))
    × AreNew (env.meta.id ∷ ids) envs

module _ (k : ℕ) where
  -- A state in which a lifecycle frame has passed some of the branches.
  abbrev waiting : Frame × ℕ → FanIn → FanIn
  waiting pending s = record s { lifecycle_pending = some pending }

  abbrev hold : Envelope → FanIn → FanIn
  hold env s = record s { seen_ids = env.meta.id ∷ s.seen_ids; buffer = s.buffer ++ env ∷ [] }

  collect-hold :
      (env : Envelope) (pending : Frame × ℕ) (s : FanIn)
      → is_synced_lifecycle env.frame ≡ false
      → is_seen env.meta.id s.seen_ids ≡ false
      → collect true k env (waiting pending s) ≡ ([], waiting pending (hold env s))
  unfolding collect on_data on_new
  collect-hold env pending s h fresh = if_false _ _ h ∙ if_false _ _ fresh

  collect-last :
      (env : Envelope) (pending : Frame × ℕ) (s : FanIn)
      → is_synced_lifecycle env.frame ≡ true
      → same_lifecycle pending.0 env.frame ≡ true
      → k ≤ pending.1 + 1
      → (collect true k env (waiting pending s)).0 ≡ env ∷ s.buffer
  unfolding collect on_lifecycle forward_all
  collect-last env pending s h same last =
      ap {A = List Envelope × FanIn} (λ r. r.0)
        (if_true _ _ h ∙ if_true _ _ same ∙ if_true _ _ (le→leb k (pending.1 + 1) last))

  -- With a next processor, and while a lifecycle frame has passed all the branches but one at
  -- most: data frames that arrive with ids not seen before, each once, are held; when a branch
  -- passes its copy of that lifecycle frame, the copy goes out first, and behind it what was held
  -- before and then those frames, in order.
  pub fan_in-held :
      (envs : List Envelope) (last : Envelope) (pending : Frame × ℕ) (s : FanIn)
      → AreNew s.seen_ids envs
      → is_synced_lifecycle last.frame ≡ true
      → same_lifecycle pending.0 last.frame ≡ true
      → k ≤ pending.1 + 1
      → (fan_in true k (envs ++ last ∷ []) (waiting pending s)).0 ≡ last ∷ (s.buffer ++ envs)
  unfolding fan_in
  fan_in-held [] last pending s new h same enough =
      append-nil (collect true k last (waiting pending s)).0
      ∙ collect-last last pending s h same enough
      ∙ ap (λ es. last ∷ es) (sym (append-nil s.buffer))
  fan_in-held (env ∷ envs) last pending s new h same enough =
      ap (λ r. r.0 ++ (fan_in true k (envs ++ last ∷ []) r.1).0)
        (collect-hold env pending s new.0.0 new.0.1)
      ∙ fan_in-held envs last pending (hold env s) new.1 h same enough
      ∙ ap (λ es. last ∷ es) (append_assoc s.buffer (env ∷ []) envs)
