-- ===== src/Parallel/Once.antt =====
-- The fan-in passes the data of the branches once and in order.
use mathlib.Core.List.{append_assoc, append-nil}
use flowcat.Base.{
  ℕ, ◌+◌, ◌≡◌, refl, sym, ap, subst, ◌∙◌, inl, inr, true, false, not, List, [], ◌∷◌, ◌++◌, Option,
  none, some, if◌then◌else◌, leb, if_true, if_false, Bool-cases, arith, keep_if,
}
use flowcat.Frame.{Frame}
use flowcat.Runtime.{Envelope}
use flowcat.Parallel.{
  FanIn, is_seen, is_synced_lifecycle, same_lifecycle, forward_all, on_lifecycle, on_new, on_data,
  collect, fan_in,
}

-- What is not a lifecycle frame.
abbrev pub data_in : List Envelope → List Envelope
data_in envs = keep_if (λ env. not (is_synced_lifecycle env.frame)) envs

-- The envelopes whose id was not seen, nor is that of an earlier one.
unfoldable pub first_of_id : List ℕ → List Envelope → List Envelope
first_of_id ids [] = []
first_of_id ids (env ∷ envs) =
    let again = first_of_id ids envs in
    let rest = first_of_id (env.meta.id ∷ ids) envs in
    if is_seen env.meta.id ids then again else env ∷ rest

-- Nothing is held back when no lifecycle frame is pending.
abbrev Flushed : Option (Frame × ℕ) → List Envelope → Type 0
Flushed none buffer = buffer ≡ []
Flushed (some _) buffer = Unit

abbrev pub IsFlushed : FanIn → Type 0
IsFlushed s = Flushed s.lifecycle_pending s.buffer

data_in-append : (xs ys : List Envelope) → data_in (xs ++ ys) ≡ data_in xs ++ data_in ys
data_in-append [] ys = refl
data_in-append (x ∷ xs) ys = ground (arith, data_in-append xs ys)

data_in-lifecycle :
    (env : Envelope) (envs : List Envelope)
    → is_synced_lifecycle env.frame ≡ true
    → data_in (env ∷ envs) ≡ data_in envs
data_in-lifecycle env envs h = ground arith

data_in-data :
    (env : Envelope) (envs : List Envelope)
    → is_synced_lifecycle env.frame ≡ false
    → data_in (env ∷ envs) ≡ env ∷ data_in envs
data_in-data env envs h = ground arith

-- A lifecycle frame moves data out of the buffer, or leaves it there.
abbrev Moves : FanIn → List Envelope × FanIn → Type 0
Moves s r =
    (data_in s.buffer ≡ data_in r.0 ++ data_in r.1.buffer)
    × ((r.1.seen_ids ≡ s.seen_ids) × IsFlushed r.1)

-- A result passes on what the state held, then what the arrivals add.
abbrev Passes : FanIn → List Envelope → List Envelope × FanIn → Type 0
Passes s arrived r =
    ((more : List Envelope)
      → data_in s.buffer ++ first_of_id s.seen_ids (arrived ++ more)
        ≡ data_in r.0 ++ (data_in r.1.buffer ++ first_of_id r.1.seen_ids more))
    × IsFlushed r.1

Moves-Passes : (s : FanIn) (r : List Envelope × FanIn) → Moves s r → Passes s [] r
Moves-Passes s r m = (
  (λ more.
      ap (λ ds. ds ++ first_of_id s.seen_ids more) m.0
      ∙ append_assoc (data_in r.0) (data_in r.1.buffer) (first_of_id s.seen_ids more)
      ∙ ap (λ ids. data_in r.0 ++ (data_in r.1.buffer ++ first_of_id ids more)) (sym m.1.0)),
  m.1.1,
)

module _ (k : ℕ) where
  on_lifecycle-Moves :
      (pending : Option (Frame × ℕ)) (env : Envelope) (s : FanIn)
      → is_synced_lifecycle env.frame ≡ true
      → Flushed pending s.buffer
      → Moves
          (record s { lifecycle_pending = pending })
          (on_lifecycle true k pending env (record s { lifecycle_pending = pending }))
  unfolding on_lifecycle forward_all
  on_lifecycle-Moves none env s h flush = elim (Bool-cases (leb k 1)) [
    | inl one ↦
        subst (Moves (record s { lifecycle_pending = none })) (sym (if_true _ _ one))
          (ap (λ ds. ds ++ data_in s.buffer) (sym (data_in-lifecycle env [] h)), (refl, flush))
    | inr many ↦
        subst (Moves (record s { lifecycle_pending = none })) (sym (if_false _ _ many))
          (refl, (refl, tt))
  ]
  on_lifecycle-Moves (some pending) env s h flush =
      let t = record s { lifecycle_pending = some pending } in
      elim (Bool-cases (same_lifecycle pending.0 env.frame)) [
        | inl same ↦ elim (Bool-cases (leb k (pending.1 + 1))) [
          | inl last ↦ subst (Moves t) (sym (if_true _ _ same ∙ if_true _ _ last)) (
            sym (data_in-lifecycle env s.buffer h) ∙ sym (append-nil (data_in (env ∷ s.buffer))),
            (refl, refl),
          )
          | inr early ↦
              subst (Moves t) (sym (if_true _ _ same ∙ if_false _ _ early)) (refl, (refl, tt))
        ]
        | inr other ↦ subst (Moves t) (sym (if_false _ _ other)) (
          sym (append-nil (data_in s.buffer))
              ∙ ap (λ ds. data_in s.buffer ++ ds) (sym (data_in-lifecycle env [] h))
              ∙ sym (data_in-append s.buffer (env ∷ [])),
          (refl, tt),
        )
      ]

  on_new-Passes :
      (pending : Option (Frame × ℕ)) (env : Envelope) (s : FanIn) (ids : List ℕ)
      → is_synced_lifecycle env.frame ≡ false
      → is_seen env.meta.id ids ≡ false
      → Flushed pending s.buffer
      → Passes
          (record s { lifecycle_pending = pending; seen_ids = ids })
          (env ∷ [])
          (on_new true k pending env
            (record s { lifecycle_pending = pending; seen_ids = env.meta.id ∷ ids }))
  unfolding on_new forward_all first_of_id
  on_new-Passes none env s ids h fresh flush = (
    (λ more.
        let rest = first_of_id (env.meta.id ∷ ids) more in
        ap (λ ds. data_in s.buffer ++ ds) (if_false _ _ fresh)
        ∙ ap (λ b. data_in b ++ env ∷ rest) flush
        ∙ sym (ap (λ b. env ∷ (data_in b ++ rest)) flush)
        ∙ ap (λ ds. ds ++ (data_in s.buffer ++ rest)) (sym (data_in-data env [] h))),
    flush,
  )
  on_new-Passes (some pending) env s ids h fresh flush = (
    (λ more.
        let rest = first_of_id (env.meta.id ∷ ids) more in
        ap (λ ds. data_in s.buffer ++ ds) (if_false _ _ fresh)
        ∙ sym (append_assoc (data_in s.buffer) (env ∷ []) rest)
        ∙ ap (λ ds. (data_in s.buffer ++ ds) ++ rest) (sym (data_in-data env [] h))
        ∙ ap (λ ds. ds ++ rest) (sym (data_in-append s.buffer (env ∷ [])))),
    tt,
  )

  on_data-Passes :
      (env : Envelope) (s : FanIn)
      → is_synced_lifecycle env.frame ≡ false
      → IsFlushed s
      → Passes s (env ∷ []) (on_data true k env s)
  unfolding on_data first_of_id
  on_data-Passes env s h flush = elim (Bool-cases (is_seen env.meta.id s.seen_ids)) [
    | inl again ↦
        subst (Passes s (env ∷ [])) (sym (if_true _ _ again))
          ((λ more. ap (λ ds. data_in s.buffer ++ ds) (if_true _ _ again)), flush)
    | inr fresh ↦
        subst (Passes s (env ∷ [])) (sym (if_false _ _ fresh))
          (on_new-Passes s.lifecycle_pending env s s.seen_ids h fresh flush)
  ]

  collect-Passes :
      (env : Envelope) (s : FanIn)
      → IsFlushed s
      → Passes s (data_in (env ∷ [])) (collect true k env s)
  unfolding collect
  collect-Passes env s flush = elim (Bool-cases (is_synced_lifecycle env.frame)) [
    | inl synced ↦
        subst (λ ds. Passes s ds (collect true k env s)) (sym (data_in-lifecycle env [] synced))
          (subst (Passes s []) (sym (if_true _ _ synced)) (
            Moves-Passes s (on_lifecycle true k s.lifecycle_pending env s)
              (on_lifecycle-Moves s.lifecycle_pending env s synced flush)))
    | inr data_frame ↦
        subst (λ ds. Passes s ds (collect true k env s)) (sym (data_in-data env [] data_frame))
          (subst (Passes s (env ∷ [])) (sym (if_false _ _ data_frame))
            (on_data-Passes env s data_frame flush))
  ]

  Passes-then :
      (s : FanIn) (a b : List Envelope) (q r : List Envelope × FanIn)
      → Passes s a q
      → Passes q.1 b r
      → Passes s (a ++ b) (q.0 ++ r.0, r.1)
  Passes-then s a b q r h g = (
    (λ more.
        let rest = data_in r.1.buffer ++ first_of_id r.1.seen_ids more in
        ap (λ es. data_in s.buffer ++ first_of_id s.seen_ids es) (append_assoc a b more)
        ∙ h.0 (b ++ more)
        ∙ ap (λ ds. data_in q.0 ++ ds) (g.0 more)
        ∙ sym (append_assoc (data_in q.0) (data_in r.0) rest)
        ∙ ap (λ ds. ds ++ rest) (sym (data_in-append q.0 r.0))),
    g.1,
  )

  fan_in-Passes :
      (envs : List Envelope) (s : FanIn)
      → IsFlushed s
      → Passes s (data_in envs) (fan_in true k envs s)
  unfolding fan_in
  fan_in-Passes [] s flush = ((λ more. refl), flush)
  fan_in-Passes (env ∷ envs) s flush =
      let first = collect true k env s in
      let passes = collect-Passes env s flush in
      subst (λ ds. Passes s ds (fan_in true k (env ∷ envs) s))
        (sym (data_in-append (env ∷ []) envs))
        (Passes-then s (data_in (env ∷ [])) (data_in envs) first (fan_in true k envs first.1) passes
          (fan_in-Passes envs first.1 passes.1))

  -- With a next processor, and in a state that holds nothing back unless a lifecycle frame is
  -- pending: over any run of arrivals the data frames passed on, with those left in the buffer behind
  -- them, are the ones that were in the buffer and then, in the order of arrival, those with an id
  -- that was not seen before; the state after it is of that kind again.
  pub fan_in-first_of_id :
      (envs : List Envelope) (s : FanIn)
      → IsFlushed s
      → (data_in (fan_in true k envs s).0 ++ data_in (fan_in true k envs s).1.buffer
          ≡ data_in s.buffer ++ first_of_id s.seen_ids (data_in envs))
        × IsFlushed (fan_in true k envs s).1
  unfolding first_of_id
  fan_in-first_of_id envs s flush =
      let r = fan_in true k envs s in
      let passes = fan_in-Passes envs s flush in
      (
        ap (λ ds. data_in r.0 ++ ds) (sym (append-nil (data_in r.1.buffer)))
            ∙ sym (passes.0 [])
            ∙ ap (λ es. data_in s.buffer ++ first_of_id s.seen_ids es) (append-nil (data_in envs)),
        passes.1,
      )
