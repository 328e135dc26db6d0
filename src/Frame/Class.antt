-- ===== src/Frame/Class.antt =====
-- The scheduling classes against the two tests that lifecycle handling makes.
use flowcat.Base.{◌≡◌, refl, ◌⊎◌, inl, inr, true, false}
use flowcat.Frame.{
  Frame, CustomFrame, custom, system, data_class, control, class, uninterruptible, is_terminal,
  stop, end_of_task, cancel, update_settings, function_call_result,
}

-- A terminal frame either waits its turn and survives an interruption, or jumps the queue.
pub terminal-class :
    (f : Frame)
    → is_terminal f ≡ true
    → ((class f ≡ control) × (uninterruptible f ≡ true))
      ⊎ ((class f ≡ system) × (uninterruptible f ≡ false))
unfolding is_terminal class uninterruptible
terminal-class (end_of_task _) h = inl (refl, refl)
terminal-class stop h = inl (refl, refl)
terminal-class (cancel _) h = inr (refl, refl)
terminal-class _ h = cc

-- What survives an interruption is never a system frame, but for frames of other crates.
pub uninterruptible-class :
    (f : Frame)
    → uninterruptible f ≡ true
    → (class f ≡ data_class) ⊎ ((class f ≡ control) ⊎ ((c : CustomFrame) × (f ≡ custom c)))
unfolding class uninterruptible
uninterruptible-class (custom c) h = inr (inr (c, refl))
uninterruptible-class (end_of_task _) h = inr (inl refl)
uninterruptible-class stop h = inr (inl refl)
uninterruptible-class (update_settings _ _) h = inr (inl refl)
uninterruptible-class (function_call_result _) h = inl refl
uninterruptible-class _ h = cc
