-- ===== src/Parallel/Tests.antt =====
-- Two branches, the first of which ends while the second still has text to pass on.
use flowcat.Base.{◌≡◌, refl, true, List, [], ◌∷◌, ◌++◌, none, ℕ, arith, ◌*◌, ◌+◌}
use flowcat.Base.Text.{codes}
use flowcat.Frame.{Frame, downstream, text, end_of_task, start, default_start}
use flowcat.Runtime.{Envelope, new_meta}
use flowcat.Parallel.{FanIn, opened, fan_in}
use flowcat.Parallel.Once.{data_in, first_of_id, IsFlushed, fan_in-first_of_id}
use flowcat.Parallel.Sync.{fan_in-held}

abbrev down : ℕ → Frame → Envelope
down id frame = record { meta = new_meta id frame; frame = frame; direction = downstream }

abbrev first_end : Envelope
first_end = down 11 (end_of_task none)

abbrev second_end : Envelope
second_end = down 12 (end_of_task none)

abbrev slow : Envelope
slow = down 7 (text (codes "slow"))

abbrev early : Envelope
early = down 5 (text (codes "early"))

-- The text of the slow branch goes out behind the end.
slow_text_behind_end :
    (fan_in true 2 (early ∷ early ∷ first_end ∷ slow ∷ second_end ∷ []) opened).0
    ≡ early ∷ second_end ∷ slow ∷ []
unfolding fan_in opened
slow_text_behind_end = refl

-- A start that arrives while an end is pending is held, and then passed on for each branch.
start_passed_twice :
    (fan_in true 2
      (first_end ∷ down 1 (start default_start) ∷ down 2 (start default_start) ∷ second_end ∷ [])
      opened).0
    ≡ second_end ∷ down 1 (start default_start) ∷ down 2 (start default_start) ∷ []
unfolding fan_in opened
start_passed_twice = refl

abbrev ending : FanIn
ending = record { seen_ids = []; lifecycle_pending = none; buffer = [] }

fan_in-held_example :
    (fan_in true 2 (slow ∷ second_end ∷ []) (record {
      seen_ids = [];
      lifecycle_pending = flowcat.Base.some (end_of_task none, 1);
      buffer = [];
    })).0
    ≡ second_end ∷ slow ∷ []
unfolding flowcat.Parallel.is_synced_lifecycle flowcat.Parallel.same_lifecycle
fan_in-held_example =
    fan_in-held 2 (slow ∷ []) second_end (end_of_task none, 1) ending ((refl, refl), tt) refl refl
      (omega arith)

abbrev arrivals : List Envelope
arrivals = early ∷ early ∷ first_end ∷ slow ∷ []

fan_in-first_of_id_example :
    (data_in (fan_in true 2 arrivals ending).0 ++ data_in (fan_in true 2 arrivals ending).1.buffer
      ≡ first_of_id [] (data_in arrivals))
    × IsFlushed (fan_in true 2 arrivals ending).1
fan_in-first_of_id_example = fan_in-first_of_id 2 arrivals ending refl
