-- ===== src/Strategy/Start/Words.antt =====
-- When words start a turn, and when they interrupt the bot.
use flowcat.Base.{
  ℕ, ◌+◌, ◌≤◌, ◌≡◌, refl, sym, ap, subst, ◌∙◌, ◌↔◌, Bool, true, false, List, [], ◌∷◌, none, leb,
  max, arith,
}
use flowcat.Base.Text.{Text, word_count}
use flowcat.Frame.{
  Frame, bot_started_speaking, bot_stopped_speaking, transcription, interim_transcription,
}
use flowcat.Strategy.Start.{
  turn_started, MinWordsTurnStart, handle_transcription, words_on_frame, MinWordsInterrupt,
  new_interrupt, should_interrupt, append_transcription,
}
use flowcat.Strategy.Mute.FirstSpeech.{bot_speaks, bot_speaks_after}

abbrev pub words_run : List Frame → MinWordsTurnStart → MinWordsTurnStart
words_run [] s = s
words_run (f ∷ fs) s = words_run fs (words_on_frame f s).1

-- The words that a turn needs to start.
abbrev pub needed : Bool → ℕ → ℕ
needed true min_words = max min_words 1
needed false min_words = 1

words_on_frame-state :
    (f : Frame) (s : MinWordsTurnStart)
    → (words_on_frame f s).1 ≡ record s { bot_speaking = bot_speaks f s.bot_speaking }
unfolding words_on_frame
words_on_frame-state bot_started_speaking s = refl
words_on_frame-state bot_stopped_speaking s = refl
words_on_frame-state (transcription _ _ _ _) s = refl
words_on_frame-state (interim_transcription _ _ _) s = refl
words_on_frame-state _ s = refl

words_run-state :
    (fs : List Frame) (s : MinWordsTurnStart)
    → words_run fs s ≡ record s { bot_speaking = bot_speaks_after fs s.bot_speaking }
words_run-state [] s = refl
words_run-state (f ∷ fs) s =
    ap (words_run fs) (words_on_frame-state f s)
    ∙ words_run-state fs (record s { bot_speaking = bot_speaks f s.bot_speaking })

transcription-starts :
    (words : Text) (s : MinWordsTurnStart)
    → (handle_transcription words s ≡ turn_started)
      ↔ (needed s.bot_speaking s.min_words ≤ word_count words)
unfolding handle_transcription
transcription-starts words s = ground arith

-- After any frames, a transcription starts the turn exactly when it has the minimum of words, and at
-- least one, if the bot speaks by its last edge, and when it has a word if the bot does not.
pub turn_started_iff :
    (fs : List Frame) (words user : Text) (final : Bool) (s : MinWordsTurnStart)
    → ((words_on_frame (transcription words user none final) (words_run fs s)).0 ≡ turn_started)
      ↔ (needed (bot_speaks_after fs s.bot_speaking) s.min_words ≤ word_count words)
unfolding words_on_frame
turn_started_iff fs words user final s =
    subst
      (λ t.
        ((words_on_frame (transcription words user none final) t).0 ≡ turn_started)
        ↔ (needed (bot_speaks_after fs s.bot_speaking) s.min_words ≤ word_count words))
      (sym (words_run-state fs s))
      (transcription-starts words (record s { bot_speaking = bot_speaks_after fs s.bot_speaking }))

-- The words of the transcriptions, the interim ones with the others.
abbrev pub words_of : Frame → ℕ
words_of (transcription words _ _ _) = word_count words
words_of (interim_transcription words _ _) = word_count words
words_of _ = 0

abbrev pub words_in : List Frame → ℕ
words_in [] = 0
words_in (f ∷ fs) = words_of f + words_in fs

abbrev pub append_all : List Frame → MinWordsInterrupt → MinWordsInterrupt
append_all [] s = s
append_all (f ∷ fs) s = append_all fs (append_transcription f s)

append-words :
    (f : Frame) (s : MinWordsInterrupt)
    → append_transcription f s ≡ record s { accumulated_words = s.accumulated_words + words_of f }
unfolding append_transcription
append-words (transcription _ _ _ _) s = refl
append-words (interim_transcription _ _ _) s = refl
append-words _ s = ap (λ n. record s { accumulated_words = n }) (omega arith)

append_all-words :
    (fs : List Frame) (s : MinWordsInterrupt)
    → append_all fs s ≡ record s { accumulated_words = s.accumulated_words + words_in fs }
append_all-words [] s = ap (λ n. record s { accumulated_words = n }) (omega arith)
append_all-words (f ∷ fs) s =
    ap (append_all fs) (append-words f s)
    ∙ append_all-words fs (record s { accumulated_words = s.accumulated_words + words_of f })
    ∙ ap (λ n. record s { accumulated_words = n }) (omega arith)

-- From a new strategy and over any frames, speech interrupts the bot exactly when the words of all
-- transcriptions, interim ones included, add up to the minimum.
pub should_interrupt_iff :
    (fs : List Frame) (min_words : ℕ)
    → (should_interrupt (append_all fs (new_interrupt min_words)) ≡ true)
      ↔ (min_words ≤ words_in fs)
unfolding should_interrupt new_interrupt
should_interrupt_iff fs min_words =
    subst (λ s. (leb s.min_words s.accumulated_words ≡ true) ↔ (min_words ≤ words_in fs))
      (sym (append_all-words fs (record { min_words = min_words; accumulated_words = 0 })))
      (ground arith)
