-- ===== src/Strategy/Mute/Tests.antt =====
-- A call with two functions in flight, and the bot's first turn.
use flowcat.Base.{◌≡◌, refl, ◌↔◌, true, false, not, ◌&&◌, List, [], ◌∷◌, any}
use flowcat.Base.Text.{Text, codes, null}
use flowcat.Frame.{
  Frame, FunctionCall, function_calls_started, function_call_cancel, bot_started_speaking,
  bot_stopped_speaking,
}
use flowcat.Strategy.Mute.{calls_muted, calls_on_frame}
use flowcat.Strategy.Mute.InFlight.{run, is_open, muted-is_open}

abbrev call : Text → FunctionCall
call id = record { function_name = codes "f"; tool_call_id = id; arguments = null }

abbrev one_left : List Frame
one_left =
    function_calls_started (call (codes "1") ∷ call (codes "2") ∷ [])
    ∷ function_call_cancel (codes "f") (codes "1")
    ∷ []

still_muted : calls_muted (run one_left []) ≡ true
unfolding calls_muted calls_on_frame flowcat.Base.Text.text_eq
still_muted = refl

muted-is_open_example :
    (calls_muted (run one_left []) ≡ false) ↔ ((id : Text) → is_open id one_left false ≡ false)
muted-is_open_example = muted-is_open one_left

abbrev first_turn : List Frame
first_turn = bot_started_speaking ∷ bot_stopped_speaking ∷ bot_started_speaking ∷ []
