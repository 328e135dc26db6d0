-- ===== src/Parallel.antt =====
-- flowcat-core/src/pipeline/parallel.rs: the fan-in of a parallel block, which passes each frame of
-- its branches once and holds a lifecycle frame until every branch has passed it. What it forwards is
-- a list, in order; an arrival is an envelope that the biased select has received.
pub mod Once
pub mod Sync
mod Tests
use flowcat.Base.{
  ℕ, ◌+◌, Bool, true, false, List, [], ◌∷◌, ◌++◌, Option, none, some, if◌then◌else◌, leb, ◌==◌, any,
}
use flowcat.Frame.{Frame, start, end_of_task, cancel}
use flowcat.Runtime.{Envelope}

unfoldable pub is_synced_lifecycle : Frame → Bool
is_synced_lifecycle (start _) = true
is_synced_lifecycle (end_of_task _) = true
is_synced_lifecycle (cancel _) = true
is_synced_lifecycle _ = false

unfoldable pub same_lifecycle : Frame → Frame → Bool
same_lifecycle (start _) (start _) = true
same_lifecycle (end_of_task _) (end_of_task _) = true
same_lifecycle (cancel _) (cancel _) = true
same_lifecycle _ _ = false

-- The local variables of `fan_in`.
pub record FanIn : Type 0 where
  pub seen_ids : List ℕ
  pub lifecycle_pending : Option (Frame × ℕ)
  pub buffer : List Envelope

unfoldable pub opened : FanIn
opened = record { seen_ids = []; lifecycle_pending = none; buffer = [] }

abbrev pub is_seen : ℕ → List ℕ → Bool
is_seen id ids = any (λ x. x == id) ids

module _ (has_next : Bool) (branch_count : ℕ) where
  -- `forward_one`, for the frames of a list.
  unfoldable pub forward_all : List Envelope → List Envelope
  forward_all envs = if has_next then envs else []

  -- The match on `lifecycle_pending`.
  unfoldable pub on_lifecycle : Option (Frame × ℕ) → Envelope → FanIn → List Envelope × FanIn
  unfolding same_lifecycle forward_all
  on_lifecycle none env s =
      if leb branch_count 1
      then (forward_all (env ∷ []), record s { lifecycle_pending = none })
      else ([], record s { lifecycle_pending = some (env.frame, 1) })
  on_lifecycle (some pending) env s =
      if same_lifecycle pending.0 env.frame
      then (if leb branch_count (pending.1 + 1)
          then (forward_all (env ∷ s.buffer), record s { buffer = []; lifecycle_pending = none })
          else ([], record s { lifecycle_pending = some (pending.0, pending.1 + 1) }))
      else ([], record s { buffer = s.buffer ++ env ∷ [] })

  -- The end of the loop's body, for a frame whose id is new.
  unfoldable pub on_new : Option (Frame × ℕ) → Envelope → FanIn → List Envelope × FanIn
  unfolding forward_all
  on_new none env s = (forward_all (env ∷ []), s)
  on_new (some pending) env s = ([], record s { buffer = s.buffer ++ env ∷ [] })

  unfoldable pub on_data : Envelope → FanIn → List Envelope × FanIn
  unfolding on_new
  on_data env s =
      let id = env.meta.id in
      if is_seen id s.seen_ids
      then ([], s)
      else on_new s.lifecycle_pending env (record s { seen_ids = id ∷ s.seen_ids })

  -- One turn of the loop.
  unfoldable pub collect : Envelope → FanIn → List Envelope × FanIn
  unfolding is_synced_lifecycle on_lifecycle on_data
  collect env s =
      if is_synced_lifecycle env.frame
      then on_lifecycle s.lifecycle_pending env s
      else on_data env s

  unfoldable pub fan_in : List Envelope → FanIn → List Envelope × FanIn
  unfolding collect
  fan_in [] s = ([], s)
  fan_in (env ∷ envs) s =
      let first = collect env s in let rest = fan_in envs first.1 in (first.0 ++ rest.0, rest.1)
