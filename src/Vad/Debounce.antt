-- ===== src/Vad/Debounce.antt =====
-- `VadStateMachine` is a debouncer: a confirmed side, and how many windows in a row have disagreed.
use flowcat.Base.{
  ℕ, ◌+◌, ◌<◌, ◌≡◌, refl, sym, subst, inl, inr, if_true, if_false, ◌∙◌, Bool, true, false, not,
  List, [], ◌∷◌, leb, if◌then◌else◌, arith, Bool-cases,
}
use flowcat.Frame.{F32, VadParams}
use flowcat.Vad.{
  VadState, quiet, starting, speaking, stopping, VadStateMachine, is_speech, advance, advance_by,
  on_speech, on_silence, confirm_start, confirm_stop, Rounding, new, per, ge, at_least_one,
}

pub record Debounce : Type 0 where
  pub confirmed : Bool
  pub streak : ℕ

abbrev both_or_neither : Bool → Bool → Bool
both_or_neither true b = b
both_or_neither false b = not b

-- A window that agrees ends the streak; one that disagrees lengthens it, and the side changes once
-- the streak is as long as that side's limit.
unfoldable pub observe : ℕ → ℕ → Bool → Debounce → Debounce
observe start stop heard d =
    let differs = record d { streak = d.streak + 1 } in
    let turns = leb (if heard then start else stop) differs.streak in
    if both_or_neither heard d.confirmed
    then record d { streak = 0 }
    else if turns
    then record { confirmed = heard; streak = 0 }
    else differs

unfoldable pub observe_all : ℕ → ℕ → List Bool → Debounce → Debounce
unfolding observe
observe_all start stop [] d = d
observe_all start stop (b ∷ bs) d = observe_all start stop bs (observe start stop b d)

abbrev view_at : VadState → VadStateMachine → Debounce
view_at quiet m = record { confirmed = false; streak = 0 }
view_at starting m = record { confirmed = false; streak = m.starting_count }
view_at speaking m = record { confirmed = true; streak = 0 }
view_at stopping m = record { confirmed = true; streak = m.stopping_count }

abbrev pub view : VadStateMachine → Debounce
view m = view_at m.state m

abbrev CountsAt : VadState → VadStateMachine → Type 0
CountsAt quiet m = Unit
CountsAt starting m = (0 < m.starting_count) × (m.starting_count < m.start_frames)
CountsAt speaking m = Unit
CountsAt stopping m = (0 < m.stopping_count) × (m.stopping_count < m.stop_frames)

-- The limits fit `u32`, and a pending count is under its limit.
abbrev pub IsCounting : VadStateMachine → Type 0
IsCounting m = (m.start_frames < 0x100000000) × ((m.stop_frames < 0x100000000) × CountsAt m.state m)

-- `advance` over the confidence and the volume of each window.
unfoldable pub run : List (F32 × F32) → VadStateMachine → VadStateMachine
unfolding advance
run [] m = m
run (w ∷ ws) m = run ws (advance w.0 w.1 m)

-- The whole step, one window at a time: the view follows `observe`, and the counts stay bounded.
abbrev pub Follows : Bool → VadStateMachine → Type 0
Follows heard m =
    (view (advance_by heard m) ≡ observe m.start_frames m.stop_frames heard (view m))
    × IsCounting (advance_by heard m)

pub advance_by-Follows :
    (heard : Bool) (s : VadState) (m : VadStateMachine)
    → IsCounting (record m { state = s })
    → Follows heard (record m { state = s })
unfolding advance_by on_speech on_silence confirm_start confirm_stop observe
advance_by-Follows true quiet m h = ground arith
advance_by-Follows true starting m h = ground arith
advance_by-Follows true speaking m h = ground arith
advance_by-Follows true stopping m h = ground arith
advance_by-Follows false quiet m h = ground arith
advance_by-Follows false starting m h = ground arith
advance_by-Follows false speaking m h = ground arith
advance_by-Follows false stopping m h = ground arith

-- The limits and the params are left alone.
abbrev Keeps : VadStateMachine → VadStateMachine → Type 0
Keeps m m' =
    (m'.start_frames ≡ m.start_frames) × ((m'.stop_frames ≡ m.stop_frames) × (m'.params ≡ m.params))

advance_by-Keeps :
    (heard : Bool) (s : VadState) (m : VadStateMachine)
    → Keeps (record m { state = s }) (advance_by heard (record m { state = s }))
unfolding advance_by on_speech on_silence confirm_start confirm_stop
advance_by-Keeps true quiet m = ground arith
advance_by-Keeps true starting m = ground arith
advance_by-Keeps true speaking m = ground arith
advance_by-Keeps true stopping m = ground arith
advance_by-Keeps false quiet m = ground arith
advance_by-Keeps false starting m = ground arith
advance_by-Keeps false speaking m = ground arith
advance_by-Keeps false stopping m = ground arith

-- The tests of the windows.
abbrev pub heard_in : VadParams → List (F32 × F32) → List Bool
heard_in params [] = []
heard_in params (w ∷ ws) = is_speech params w.0 w.1 ∷ heard_in params ws

moved :
    (ws : List (F32 × F32)) {a a' b b' : ℕ} {p p' : VadParams} {d d' : Debounce}
    → a' ≡ a
    → b' ≡ b
    → p' ≡ p
    → d' ≡ d
    → observe_all a' b' (heard_in p' ws) d' ≡ observe_all a b (heard_in p ws) d
moved ws e f g h = cc

-- From a machine with its counts in bounds, any run of windows moves the view as the debouncer is
-- moved by the tests of those windows, and the counts are in bounds after it, so that no `u32`
-- overflows.
pub run_lem :
    (ws : List (F32 × F32)) (m : VadStateMachine)
    → IsCounting m
    → (view (run ws m) ≡ observe_all m.start_frames m.stop_frames (heard_in m.params ws) (view m))
      × IsCounting (run ws m)
unfolding run advance observe_all
run_lem [] m h = (refl, h)
run_lem (w ∷ ws) m h =
    let heard = is_speech m.params w.0 w.1 in
    let follows = advance_by-Follows heard m.state m h in
    let keeps = advance_by-Keeps heard m.state m in
    let ih = run_lem ws (advance_by heard m) follows.1 in
    (ih.0 ∙ moved ws keeps.0 (keeps.1.0) (keeps.1.1) follows.0, ih.1)

per_bound :
    (r : Rounding)
    → ((x : F32) → r.to_u32 x < 0x100000000)
    → (window_secs secs : F32) → per r window_secs secs < 0x100000000
unfolding per
per_bound r h window_secs secs = elim (Bool-cases (ge 0 window_secs)) [
  | inl flat ↦ subst (λ n. n < 0x100000000) (sym (if_true _ _ flat)) (omega arith)
  | inr long ↦ subst (λ n. n < 0x100000000) (sym (if_false _ _ long)) (h _)
]

-- A machine starts with its counts in bounds, if `as u32` gives a `u32`.
pub new-IsCounting :
    (r : Rounding)
    → ((x : F32) → r.to_u32 x < 0x100000000)
    → (sample_rate window_samples : ℕ) (params : VadParams)
    → IsCounting (new r sample_rate window_samples params)
unfolding new
new-IsCounting r h sample_rate window_samples params =
    let window_secs = r.div (r.of_int window_samples) (r.of_int (at_least_one sample_rate)) in
    (per_bound r h window_secs params.start_secs, (per_bound r h window_secs params.stop_secs, tt))
