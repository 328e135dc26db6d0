-- ===== src/Transcript/Tests.antt =====
-- A short call, whose second line is cut in two ways.
use flowcat.Base.{◌≡◌, refl, ◌≤◌, suc, List, [], ◌∷◌}
use flowcat.Base.Text.{Text, codes}
use flowcat.Transcript.{Speaker, user, bot, push, user_turns, bot_turns}
use flowcat.Transcript.Merge.{run, run-spoken}
use flowcat.Transcript.Turns as Turns
use flowcat.Transcript.Turns.{run-Alternates_turns}

abbrev in_pieces : List (Speaker × Text)
in_pieces = (bot, codes "Hi") ∷ (user, codes "Book ") ∷ (user, codes "") ∷ (user, codes "it") ∷ []

abbrev at_once : List (Speaker × Text)
at_once = (bot, codes "H") ∷ (bot, codes "i") ∷ (user, codes "Book it") ∷ []

two_lines :
    run in_pieces []
    ≡ record { speaker = bot; text = codes "Hi" }
      ∷ record { speaker = user; text = codes "Book it" }
      ∷ []
unfolding push
two_lines = refl

run-spoken_example : run in_pieces [] ≡ run at_once []
run-spoken_example = run-spoken in_pieces at_once [] refl

run-Alternates_turns_example :
    Turns.Alternates (run in_pieces [])
    × ((user_turns (run in_pieces []) ≤ suc (bot_turns (run in_pieces [])))
        × (bot_turns (run in_pieces []) ≤ suc (user_turns (run in_pieces []))))
run-Alternates_turns_example = run-Alternates_turns in_pieces [] tt
