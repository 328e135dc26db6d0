-- ===== src/Strategy/Start/Tests.antt =====
-- A user who talks over the bot.
use flowcat.Base.{◌≡◌, refl, true, false, List, [], ◌∷◌, none}
use flowcat.Base.Text.{codes}
use flowcat.Frame.{Frame, bot_started_speaking, transcription, interim_transcription}
use flowcat.Strategy.Start.{
  reset_aggregation, words_on_frame, new_min_words, should_interrupt, new_interrupt,
  append_transcription,
}
use flowcat.Strategy.Start.Words.{words_run, append_all}

abbrev talking : List Frame
talking = bot_started_speaking ∷ []

one_word_is_not_enough :
    (words_on_frame
      (transcription (codes "uh") (codes "u") none true)
      (words_run talking (new_min_words 3 false))).0
    ≡ reset_aggregation
unfolding words_on_frame new_min_words
one_word_is_not_enough = refl

abbrev spoken : List Frame
spoken =
    interim_transcription (codes "wait") (codes "u") none
    ∷ transcription (codes "wait a") (codes "u") none true
    ∷ []

interim_words_count_too : should_interrupt (append_all spoken (new_interrupt 3)) ≡ true
unfolding should_interrupt new_interrupt append_transcription
interim_words_count_too = refl
