-- ===== src/Turn/Silence.antt =====
-- flowcat-core/src/audio/turn.rs: how often `MockTurn` takes a turn for complete by silence.
use flowcat.Base.{
  ℕ, ◌+◌, ◌≤◌, ◌≡◌, refl, sym, subst, ◌∙◌, inl, inr, Bool, true, false, List, [], ◌∷◌, none, length,
  arith, Bool-cases, if_true, if_false,
}
use flowcat.Frame.{AudioFrame}
use flowcat.Vad.{VadState}
use flowcat.Turn.{
  FloatOps, TurnSilenceTracker, TurnPrediction, MockTurn, hears_speech, append_window, add_silence,
  clear_tracker, by_silence, by_script, mock_analyze_turn,
}

abbrev pub flag : Bool → ℕ
flag true = 1
flag false = 0

abbrev pub completions : List TurnPrediction → ℕ
completions [] = 0
completions (r ∷ rs) = flag r.is_complete + completions rs

abbrev pub speech_windows : List (AudioFrame × VadState) → ℕ
speech_windows [] = 0
speech_windows (w ∷ ws) = flag (hears_speech w.1) + speech_windows ws

flag-one : (b : Bool) → flag b ≤ 1
flag-one true = omega arith
flag-one false = omega arith

module _ (ops : FloatOps) where
  abbrev pub analyze_all : List (AudioFrame × VadState) → MockTurn → List TurnPrediction × MockTurn
  analyze_all [] m = ([], m)
  analyze_all (w ∷ ws) m =
      let now = mock_analyze_turn ops w.0 w.1 m in
      let rest = analyze_all ws now.1 in (now.0 ∷ rest.0, rest.1)

  -- A turn that one window completes is a turn in which speech was heard.
  abbrev IsPaid : Bool → TurnSilenceTracker → Bool × TurnSilenceTracker → Type 0
  IsPaid speech t after =
      (flag after.0 ≤ flag t.speech_triggered)
      × (flag after.1.speech_triggered ≤ flag speech + flag t.speech_triggered)

  append_window-IsPaid :
      (n : ℕ) (speech : Bool) (t : TurnSilenceTracker)
      → IsPaid speech t (append_window ops n speech t)
  unfolding append_window
  append_window-IsPaid n true t = (omega arith, omega arith)
  append_window-IsPaid n false t = elim (Bool-cases t.speech_triggered) [
    | inl heard ↦ subst (IsPaid false t) (sym (if_true _ _ heard)) (
      subst (λ b. flag (add_silence ops n t).0 ≤ flag b) (sym heard)
          (flag-one (add_silence ops n t).0),
      omega arith,
    )
    | inr unheard ↦ subst (IsPaid false t) (sym (if_false _ _ unheard)) (omega arith, omega arith)
  ]

  abbrev Pays : Bool → MockTurn → TurnPrediction × MockTurn → Type 0
  Pays speech m after =
      (after.1.script ≡ m.script)
      × (flag after.0.is_complete + flag after.1.tracker.speech_triggered
          ≤ flag speech + flag m.tracker.speech_triggered)

  by_silence-Pays :
      (speech : Bool) (m : MockTurn) (after : Bool × TurnSilenceTracker)
      → IsPaid speech m.tracker after
      → Pays speech m (by_silence ops after m)
  unfolding clear_tracker
  by_silence-Pays speech m (true, t) paid = (refl, omega (arith, paid.0))
  by_silence-Pays speech m (false, t) paid = (refl, omega (arith, paid.1))

  mock_analyze_turn-Pays :
      (w : AudioFrame × VadState) (m : MockTurn)
      → m.script ≡ none
      → Pays (hears_speech w.1) m (mock_analyze_turn ops w.0 w.1 m)
  unfolding mock_analyze_turn
  mock_analyze_turn-Pays w m silent =
      subst (λ o. Pays (hears_speech w.1) m (by_script ops o w.0 w.1 m)) (sym silent)
        (by_silence-Pays (hears_speech w.1) m
          (append_window ops (length w.0.pcm) (hears_speech w.1) m.tracker)
          (append_window-IsPaid (length w.0.pcm) (hears_speech w.1) m.tracker))

  -- By silence, a turn is never taken for complete more often than there are windows of speech, a turn in which speech
  -- was heard before counted: after a complete turn the next one waits for speech.
  pub analyze_all-completions :
      (ws : List (AudioFrame × VadState)) (m : MockTurn)
      → m.script ≡ none
      → completions (analyze_all ws m).0 + flag (analyze_all ws m).1.tracker.speech_triggered
        ≤ speech_windows ws + flag m.tracker.speech_triggered
  analyze_all-completions [] m silent = omega arith
  analyze_all-completions (w ∷ ws) m silent =
      let now = mock_analyze_turn ops w.0 w.1 m in
      let one = mock_analyze_turn-Pays w m silent in
      omega (arith, one.1, analyze_all-completions ws now.1 (one.0 ∙ silent))
