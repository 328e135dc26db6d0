-- ===== src/FcallFilter/Tests.antt =====
-- Two sessions of calls: one with a repeat across two frames, and one with a function off the list.
use flowcat.Base.{◌≡◌, refl, List, [], ◌∷◌, keep_if}
use flowcat.Base.Text.{Text, codes, Json, object, null, end, field}
use flowcat.Frame.{FunctionCall, function_calls_started, downstream}
use flowcat.Runtime.{Envelope, new_meta}
use flowcat.FcallFilter.{FunctionCallFilter, new, require_args, only, process_frame}
use flowcat.FcallFilter.Dedup.{calls_in, session, first_of_key, is_valid, session-first_of_key}

abbrev print : Json → Text
print _ = codes "{}"

abbrev weather : FunctionCall
weather = record {
  function_name = codes "get_weather";
  tool_call_id = codes "1";
  arguments = object (field (codes "city") null end);
}

abbrev delete : FunctionCall
delete = record {
  function_name = codes "delete_account";
  tool_call_id = codes "2";
  arguments = object end;
}

abbrev gate : FunctionCallFilter
gate =
    require_args (codes "get_weather") (codes "city" ∷ []) (new (only (codes "get_weather" ∷ [])))

abbrev batch : List FunctionCall → Envelope
batch calls =
    let frame = function_calls_started calls in
    record { meta = new_meta 1 frame; frame = frame; direction = downstream }

abbrev two_batches : List Envelope
two_batches = batch (delete ∷ weather ∷ []) ∷ batch (weather ∷ []) ∷ []

passes_weather_once : calls_in (session print two_batches gate) ≡ weather ∷ []
unfolding process_frame require_args new
passes_weather_once = refl

session-first_of_key_example :
    calls_in (session print two_batches gate)
    ≡ first_of_key print [] (keep_if (is_valid gate) (calls_in two_batches))
unfolding require_args new
session-first_of_key_example = session-first_of_key print two_batches gate refl
