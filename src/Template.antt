-- ===== src/Template.antt =====
-- flowcat-agent/src/engine.rs: `var_interpolate` and what it calls, the placeholders of a prompt
-- filled from the variables of the run. The clock of `chrono` with the table of time zones, at one
-- moment, and the text that `serde_json` prints of a value are parameters.
pub mod Loop
pub mod Keys
mod Tests
use flowcat.Base.{
  ℕ, zero, suc, ◌+◌, Bool, true, false, not, ◌&&◌, List, [], ◌∷◌, ◌++◌, Option, none, some,
  if◌then◌else◌, leb, ◌==◌, length, get_elem?,
}
use flowcat.Base.Text.{
  Text, codes, Json, Items, Fields, null, boolean, number, string, array, object, nil, cons, end,
  field, is_empty,
}
use flowcat.Base.Values.{and_then, map_some, unwrap_or, lookup, items}
use flowcat.Base.Scan.{trim, cut, strip_prefix, split}
use flowcat.Base.Decimal.{parse_usize}
use flowcat.Graph.{Table, get}

-- The moment at which a template is filled: its hour and its formats, in the named zones.
pub record Clock : Type 0 where
  pub singapore_hour : ℕ
  pub hour_in : Text → Option ℕ
  pub utc_format : Text → Text
  pub format_in : Text → Text → Option Text

unfoldable pub phrase : ℕ → Text
phrase hour =
    if leb 5 hour && leb hour 11
    then codes "Good morning"
    else if leb 12 hour && leb hour 16
    then codes "Good afternoon"
    else if leb 17 hour && leb hour 21
    then codes "Good evening"
    else codes "Hello"

-- The format that a builtin stands for, and what follows its name.
unfoldable pub date_format : Text → Option (Text × Text)
unfolding strip_prefix
date_format inner = elim (strip_prefix (codes "current_time") inner) [
  | some rest ↦ some (codes "%Y-%m-%d %H:%M %Z", rest)
  | none ↦ elim (strip_prefix (codes "current_weekday") inner) [
    | some rest ↦ some (codes "%A", rest)
    | none ↦ map_some (λ rest. (codes "%Y-%m-%d", rest)) (strip_prefix (codes "current_date") inner)
  ]
]

unfoldable pub time_builtin : Clock → Text → Option Text
unfolding phrase date_format strip_prefix
time_builtin clock inner = elim (strip_prefix (codes "greeting_phrase") inner) [
  | some rest ↦ map_some phrase (
      if is_empty rest
      then some clock.singapore_hour
      else and_then (strip_prefix (codes "_") rest) clock.hour_in)
  | none ↦ and_then (date_format inner) (λ kind.
      if is_empty kind.1
      then some (clock.utc_format kind.0)
      else and_then (strip_prefix (codes "_") kind.1) (clock.format_in kind.0))
]

-- One segment of a path.
unfoldable pub step_into : Text → Json → Option Json
unfolding lookup items parse_usize
step_into p (object fs) = lookup p fs
step_into p (array vs) = and_then (parse_usize p) (λ i. get_elem? (items vs) i)
step_into p _ = none

unfoldable pub walk : Json → List Text → Option Json
unfolding step_into
walk v [] = some v
walk v (p ∷ ps) = and_then (step_into p v) (λ w. walk w ps)

unfoldable pub get_nested : Table Json → Text → Option Json
unfolding get walk split
get_nested vars path =
    let parts = split 46 path in and_then (get parts.0 vars) (λ v. walk v parts.1)

unfoldable pub is_empty_value : Json → Bool
is_empty_value null = true
is_empty_value (string s) = is_empty s
is_empty_value _ = false

unfoldable pub value_to_string : (Json → Text) → Json → Text
value_to_string print (string s) = s
value_to_string print null = []
value_to_string print v = print v

-- The path of a placeholder, and its fallback.
unfoldable pub path_fallback : Text → Text × Option Text
unfolding cut trim strip_prefix
path_fallback inner = elim (cut (codes "|") inner) [
  | some parts ↦ (
    trim parts.0,
    some (
        unwrap_or (trim parts.1) (map_some trim (strip_prefix (codes "fallback:") (trim parts.1)))),
  )
  | none ↦ (trim inner, none)
]

unfoldable pub resolve_placeholder : (Json → Text) → Table Json → Text → Text
unfolding path_fallback get_nested is_empty_value value_to_string
resolve_placeholder print vars inner =
    let parts = path_fallback inner in
    let otherwise = unwrap_or [] parts.1 in
    elim (get_nested vars parts.0) [
      | some v ↦ if not (is_empty_value v) then value_to_string print v else otherwise
      | none ↦ otherwise
    ]

unfoldable pub fill : Clock → (Json → Text) → Table Json → Text → Text
unfolding time_builtin resolve_placeholder trim
fill clock print vars inner =
    unwrap_or (resolve_placeholder print vars inner) (time_builtin clock (trim inner))

abbrev pub opening : Text
opening = codes "{{"

abbrev pub closing : Text
closing = codes "}}"

-- The loop over the braces, given what a placeholder is filled with. Each round costs a unit of fuel.
unfoldable pub scan : (Text → Text) → ℕ → Text → Text
unfolding cut
scan filled zero rest = rest
scan filled (suc fuel) rest = elim (cut opening rest) [
  | none ↦ rest
  | some parts ↦ elim (cut closing parts.1) [
    | some inside ↦ parts.0 ++ (filled inside.0 ++ scan filled fuel inside.1)
    | none ↦ parts.0 ++ (opening ++ scan filled fuel parts.1)
  ]
]

-- `replace("\\n", "\n")`
unfoldable pub newlines : Text → Text
newlines [] = []
newlines (c ∷ []) = c ∷ []
newlines (c ∷ d ∷ s) =
    let skipped = newlines s in
    let kept = newlines (d ∷ s) in if (c == 92) && (d == 110) then 10 ∷ skipped else c ∷ kept

-- `var_interpolate_at`
unfoldable pub var_interpolate : Clock → (Json → Text) → Table Json → Text → Text
unfolding scan fill newlines
var_interpolate clock print vars template =
    newlines (scan (fill clock print vars) (length template + 1) template)

unfoldable mutual
  pub var_interpolate_value : (Text → Text) → Json → Json
  var_interpolate_value f (string s) = string (f s)
  var_interpolate_value f (array vs) = array (interpolate_items f vs)
  var_interpolate_value f (object fs) = object (interpolate_fields f fs)
  var_interpolate_value f null = null
  var_interpolate_value f (boolean b) = boolean b
  var_interpolate_value f (number n) = number n

  pub interpolate_items : (Text → Text) → Items → Items
  interpolate_items f nil = nil
  interpolate_items f (cons v vs) = cons (var_interpolate_value f v) (interpolate_items f vs)

  pub interpolate_fields : (Text → Text) → Fields → Fields
  interpolate_fields f end = end
  interpolate_fields f (field k v fs) =
      field k (var_interpolate_value f v) (interpolate_fields f fs)
