-- ===== src/Template/Keys.antt =====
-- flowcat-agent/src/engine.rs: `var_interpolate_value` on the object of a tool's request.
use flowcat.Base.{
  ℕ, zero, suc, get_elem?, ◌∙◌, ◌≡◌, refl, Option, none, some, List, [], ◌∷◌, ap, arith,
}
use flowcat.Base.Text.{Text, Json, Items, Fields, array, object, nil, cons, end, field}
use flowcat.Base.Values.{and_then, map_some, lookup, items}
use flowcat.Template.{var_interpolate_value, interpolate_items, interpolate_fields, step_into, walk}
use flowcat.Base.Decimal.{parse_usize}

module _ (f : Text → Text) where
  lookup-interpolate_fields :
      (k : Text) (fs : Fields)
      → lookup k (interpolate_fields f fs) ≡ map_some (var_interpolate_value f) (lookup k fs)
  unfolding lookup interpolate_fields
  lookup-interpolate_fields k end = refl
  lookup-interpolate_fields k (field name v fs) = ground (arith, lookup-interpolate_fields k fs)

  get_elem?-interpolate_items :
      (i : ℕ) (vs : Items)
      → get_elem? (items (interpolate_items f vs)) i
        ≡ map_some (var_interpolate_value f) (get_elem? (items vs) i)
  unfolding items interpolate_items
  get_elem?-interpolate_items i nil = refl
  get_elem?-interpolate_items zero (cons v vs) = refl
  get_elem?-interpolate_items (suc i) (cons v vs) = get_elem?-interpolate_items i vs

  step_into-interpolate :
      (p : Text) (v : Json)
      → step_into p (var_interpolate_value f v) ≡ map_some (var_interpolate_value f) (step_into p v)
  unfolding step_into var_interpolate_value
  step_into-interpolate p (object fs) = lookup-interpolate_fields p fs
  step_into-interpolate p (array vs) = at_index (parse_usize p)
    where
      at_index :
          (o : Option ℕ)
          → and_then o (λ i. get_elem? (items (interpolate_items f vs)) i)
            ≡ map_some (var_interpolate_value f) (and_then o (λ i. get_elem? (items vs) i))
      at_index none = refl
      at_index (some i) = get_elem?-interpolate_items i vs
  step_into-interpolate p _ = refl

  -- What stands at a path of an interpolated request is the interpolation of what stood there: the keys, the
  -- order and the lengths of a request are kept, and only its strings are filled.
  pub walk-interpolate :
      (path : List Text) (v : Json)
      → walk (var_interpolate_value f v) path ≡ map_some (var_interpolate_value f) (walk v path)
  unfolding walk
  walk-interpolate [] v = refl
  walk-interpolate (p ∷ path) v =
      ap (λ o. and_then o (λ w. walk w path)) (step_into-interpolate p v)
      ∙ onward (walk-interpolate path) (step_into p v)
    where
      onward :
          ((w : Json)
            → walk (var_interpolate_value f w) path
              ≡ map_some (var_interpolate_value f) (walk w path))
          → (o : Option Json)
          → and_then (map_some (var_interpolate_value f) o) (λ w. walk w path)
            ≡ map_some (var_interpolate_value f) (and_then o (λ w. walk w path))
      onward ih none = refl
      onward ih (some w) = ih w
