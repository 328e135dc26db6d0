-- ===== src/FcallFilter.antt =====
-- flowcat-core/src/agent/fcall_filter.rs: the gate in front of the tools. A `HashSet` is a list read
-- for membership, a `HashMap` an association list. How `serde_json` prints the arguments is a
-- parameter.
pub mod Dedup
mod Tests
use flowcat.Base.{
  ℕ, Bool, true, false, not, ◌&&◌, List, [], ◌∷◌, ◌++◌, Option, none, some, if◌then◌else◌, any, all,
}
use flowcat.Base.Text.{Text, text_eq, codes, Json, object, Fields, contains_key, is_empty}
use flowcat.Frame.{Frame, FunctionCall, function_calls_started}
use flowcat.Runtime.{Envelope}

pub data AllowPolicy : Type 0 where
  any_function : AllowPolicy
  only : List Text → AllowPolicy

-- `by_function` of `RequiredArgs`
abbrev pub RequiredArgs : Type 0
RequiredArgs = List (Text × List Text)

pub record FunctionCallFilter : Type 0 where
  pub name : Text
  pub allow : AllowPolicy
  pub required : RequiredArgs
  pub dedup : Bool
  pub seen : List Text

unfoldable pub new : AllowPolicy → FunctionCallFilter
new allow = record {
  name = codes "fcall-filter";
  allow = allow;
  required = [];
  dedup = true;
  seen = [];
}

-- `set.contains(k)`
unfoldable pub member : Text → List Text → Bool
unfolding text_eq
member k set = any (λ x. text_eq x k) set

unfoldable pub keys_of : Text → RequiredArgs → Option (List Text)
unfolding text_eq
keys_of k [] = none
keys_of k (e ∷ es) = if text_eq e.0 k then some e.1 else keys_of k es

-- `by_function.insert(function, keys)`
unfoldable pub with_keys : Text → List Text → RequiredArgs → RequiredArgs
unfolding text_eq
with_keys k keys [] = (k, keys) ∷ []
with_keys k keys (e ∷ es) =
    let rest = with_keys k keys es in if text_eq e.0 k then (k, keys) ∷ es else e ∷ rest

unfoldable pub require_args : Text → List Text → FunctionCallFilter → FunctionCallFilter
unfolding with_keys
require_args function keys f = record f { required = with_keys function keys f.required }

unfoldable pub without_dedup : FunctionCallFilter → FunctionCallFilter
without_dedup f = record f { dedup = false }

unfoldable pub is_allowed : AllowPolicy → Text → Bool
unfolding member
is_allowed any_function name = true
is_allowed (only set) name = member name set

-- `obj.is_some_and(|o| o.contains_key(k))`
unfoldable pub has_key : Json → Text → Bool
unfolding contains_key
has_key (object fields) k = contains_key k fields
has_key _ k = false

unfoldable pub has_keys : Json → Option (List Text) → Bool
unfolding has_key
has_keys arguments none = true
has_keys arguments (some keys) = all (λ k. has_key arguments k) keys

-- `process_frame`, once the calls of a batch are filtered.
unfoldable pub pass_kept : Envelope → List FunctionCall → List Envelope
pass_kept env kept =
    if is_empty kept then [] else record env { frame = function_calls_started kept } ∷ []

module _ (print : Json → Text) where
  -- `format!("{}:{}", call.function_name, call.arguments)`
  unfoldable pub call_key : FunctionCall → Text
  call_key call = call.function_name ++ codes ":" ++ print call.arguments

  -- `self.seen.insert(key)`, and whether the key was new.
  unfoldable pub insert_key : Text → FunctionCallFilter → Bool × FunctionCallFilter
  unfolding member
  insert_key key f =
      if member key f.seen then (false, f) else (true, record f { seen = key ∷ f.seen })

  unfoldable pub permits : FunctionCall → FunctionCallFilter → Bool × FunctionCallFilter
  unfolding is_allowed keys_of has_keys call_key insert_key
  permits call f =
      if not (is_allowed f.allow call.function_name)
      then (false, f)
      else if not (has_keys call.arguments (keys_of call.function_name f.required))
      then (false, f)
      else if f.dedup
      then insert_key (call_key call) f
      else (true, f)

  -- `calls.iter().filter(|c| self.permits(c)).cloned().collect()`
  unfoldable pub filter_calls :
      List FunctionCall → FunctionCallFilter → List FunctionCall × FunctionCallFilter
  unfolding permits
  filter_calls [] f = ([], f)
  filter_calls (call ∷ calls) f =
      let verdict = permits call f in
      let rest = filter_calls calls verdict.1 in
      (if verdict.0 then call ∷ rest.0 else rest.0, rest.1)

  unfoldable pub on_frame :
      Frame → Envelope → FunctionCallFilter → List Envelope × FunctionCallFilter
  unfolding filter_calls pass_kept
  on_frame (function_calls_started calls) env f =
      let filtered = filter_calls calls f in (pass_kept env filtered.0, filtered.1)
  on_frame _ env f = (env ∷ [], f)

  unfoldable pub process_frame : Envelope → FunctionCallFilter → List Envelope × FunctionCallFilter
  unfolding on_frame
  process_frame env f = on_frame env.frame env f
