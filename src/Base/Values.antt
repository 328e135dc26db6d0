-- ===== src/Base/Values.antt =====
-- What the agent reads of a `serde_json::Value`: the value at a key, and the value as one of the
-- types of JSON.
use mathlib.Core.Bool.{Bool}
use mathlib.Core.Option.{Option, none, some}
use mathlib.Core.List.{List, [], ◌∷◌}
use flowcat.Base.Tests.{if◌then◌else◌}
use flowcat.Base.Text.{
  Text, text_eq, Json, Items, Fields, boolean, string, array, object, nil, cons, end, field,
}

module _ {ℓ κ} {A : Type ℓ} {B : Type κ} where
  -- `Option::and_then`
  abbrev pub and_then : Option A → (A → Option B) → Option B
  and_then none f = none
  and_then (some a) f = f a

  -- `Option::map`
  abbrev pub map_some : (A → B) → Option A → Option B
  map_some f none = none
  map_some f (some a) = some (f a)

  -- `Iterator::filter_map`
  abbrev pub filter_map : (A → Option B) → List A → List B
  filter_map f [] = []
  filter_map f (x ∷ xs) = elim (f x) [ none ↦ filter_map f xs | some b ↦ b ∷ filter_map f xs ]

module _ {ℓ} {A : Type ℓ} where
  -- `Option::unwrap_or`
  abbrev pub unwrap_or : A → Option A → A
  unwrap_or d none = d
  unwrap_or d (some a) = a

  -- `Option::or_else`
  abbrev pub or_else : Option A → Option A → Option A
  or_else none o = o
  or_else (some a) o = some a

  -- `Option::filter`
  abbrev pub filter : (A → Bool) → Option A → Option A
  filter p none = none
  filter p (some a) = if p a then some a else none

unfoldable pub lookup : Text → Fields → Option Json
unfolding text_eq
lookup k end = none
lookup k (field name v fs) = if text_eq name k then some v else lookup k fs

-- `value.get(k)`
unfoldable pub at_key : Text → Json → Option Json
unfolding lookup
at_key k (object fs) = lookup k fs
at_key k _ = none

unfoldable pub as_str : Json → Option Text
as_str (string s) = some s
as_str _ = none

unfoldable pub as_bool : Json → Option Bool
as_bool (boolean b) = some b
as_bool _ = none

unfoldable pub items : Items → List Json
items nil = []
items (cons v vs) = v ∷ items vs

unfoldable pub as_array : Json → Option (List Json)
unfolding items
as_array (array vs) = some (items vs)
as_array _ = none
