-- ===== src/Base/Blocks.antt =====
-- A loop that takes blocks of one size off the front of a buffer while it holds a whole one.
use native.Mathlib.Nat.{add-mul}
use mathlib.Core.List.{append_assoc}
use Prim.Native.Nat.{ℕ, zero, suc, ◌+◌, ◌*◌, ◌≤◌, ◌<◌}
use mathlib.Core.Path.{◌≡◌, refl, sym, ap, ap₂, subst, ◌∙◌}
use mathlib.Core.Logic.{inl, inr}
use mathlib.Core.List.{List, [], ◌∷◌, ◌++◌}
use native.Mathlib.Omega.{arith}
use flowcat.Base.Tests.{
  if◌then◌else◌, leb, Bool-cases, if_true, if_false, leb→le, leb→lt, le→leb, lt→leb,
}
use flowcat.Base.Lists.{length, take, drop, length-append, length-drop}

drop-append : {X : Type 0} (n : ℕ) (b c : List X) → n ≤ length b → drop n (b ++ c) ≡ drop n b ++ c
drop-append zero b c h = refl
drop-append (suc n) [] c h = absurd (omega arith)
drop-append (suc n) (x ∷ b) c h = drop-append n b c (omega arith)

take-append : {X : Type 0} (n : ℕ) (b c : List X) → n ≤ length b → take n (b ++ c) ≡ take n b
take-append zero b c h = refl
take-append (suc n) [] c h = absurd (omega arith)
take-append (suc n) (x ∷ b) c h = ap (λ xs. x ∷ xs) (take-append n b c (omega arith))

take-drop : {X : Type 0} (n : ℕ) (b : List X) → take n b ++ drop n b ≡ b
take-drop zero b = refl
take-drop (suc n) [] = refl
take-drop (suc n) (x ∷ b) = ap (λ xs. x ∷ xs) (take-drop n b)

pub length-take : {X : Type 0} (n : ℕ) (b : List X) → n ≤ length b → length (take n b) ≡ n
length-take zero b h = refl
length-take (suc n) [] h = absurd (omega arith)
length-take (suc n) (x ∷ b) h = ap suc (length-take n b (omega arith)) ∙ omega arith

-- What is taken off the front is whole blocks.
abbrev pub IsCut : {X : Type 0} → ℕ → List X → List X → Type 0
IsCut {X} size buffer left =
    (n : ℕ) × ((taken : List X) × ((taken ++ left ≡ buffer) × (length taken ≡ n * size)))

module _ {X S : Type 0} (size : ℕ) (step : List X → S → S) where
  -- Each turn costs a unit of fuel.
  unfoldable pub blocks : ℕ → List X → S → List X × S
  blocks zero buffer s = (buffer, s)
  blocks (suc fuel) buffer s =
      let rest = blocks fuel (drop size buffer) (step (take size buffer) s) in
      if leb size (length buffer) then rest else (buffer, s)

  pub blocks-whole :
      (fuel : ℕ) (buffer : List X) (s : S)
      → size ≤ length buffer
      → blocks (suc fuel) buffer s ≡ blocks fuel (drop size buffer) (step (take size buffer) s)
  unfolding blocks
  blocks-whole fuel buffer s h = if_true _ _ (le→leb size (length buffer) h)

  pub blocks-short :
      (fuel : ℕ) (buffer : List X) (s : S)
      → length buffer < size
      → blocks fuel buffer s ≡ (buffer, s)
  unfolding blocks
  blocks-short zero buffer s h = refl
  blocks-short (suc fuel) buffer s h = if_false _ _ (lt→leb size (length buffer) h)

  left_over :
      (g h : ℕ) (b c : List X) (s : S)
      → length b < size
      → blocks h ((blocks g b s).0 ++ c) (blocks g b s).1 ≡ blocks h (b ++ c) s
  left_over g h b c s less =
      ap (λ (r : List X × S). blocks h (r.0 ++ c) r.1) (blocks-short g b s less)

  pub blocks-IsCut :
      (fuel : ℕ) (buffer : List X) (s : S) → IsCut size buffer (blocks fuel buffer s).0
  unfolding blocks
  blocks-IsCut zero buffer s = (0, ([], (refl, omega arith)))
  blocks-IsCut (suc fuel) buffer s = elim (Bool-cases (leb size (length buffer))) [
    | inr short ↦
        subst (λ (r : List X × S). IsCut size buffer r.0)
          (sym (blocks-short (suc fuel) buffer s (leb→lt size (length buffer) short)))
          (0, ([], (refl, omega arith)))
    | inl whole ↦
        let more = leb→le size (length buffer) whole in
        let (n, (taken, (cuts, counted))) =
          blocks-IsCut fuel (drop size buffer) (step (take size buffer) s) in
        let block = take size buffer in
        subst (λ (r : List X × S). IsCut size buffer r.0) (sym (blocks-whole fuel buffer s more))
          (
            1 + n,
            (
              block ++ taken,
              (
                append_assoc block taken _ ∙ ap (λ xs. block ++ xs) cuts ∙ take-drop size buffer,
                length-append block taken
                    ∙ omega (arith, length-take size buffer more, counted, add-mul 1 n size),
              ),
            ),
          )
  ]

  module _ (some_size : 0 < size) where
    -- Fuel that reaches the length of the buffer is as good as any more.
    pub blocks-enough :
        (f g : ℕ) (buffer : List X) (s : S)
        → length buffer ≤ f
        → length buffer ≤ g
        → blocks f buffer s ≡ blocks g buffer s
    unfolding blocks
    blocks-enough zero g buffer s hf hg = sym (blocks-short g buffer s (omega arith))
    blocks-enough (suc f) zero buffer s hf hg = blocks-short (suc f) buffer s (omega arith)
    blocks-enough (suc f) (suc g) buffer s hf hg = elim (Bool-cases (leb size (length buffer))) [
      | inr short ↦
          let less = leb→lt size (length buffer) short in
          blocks-short (suc f) buffer s less ∙ sym (blocks-short (suc g) buffer s less)
      | inl whole ↦
          let more = leb→le size (length buffer) whole in
          blocks-whole f buffer s more
          ∙ blocks-enough f g (drop size buffer) (step (take size buffer) s)
              (omega (arith, length-drop size buffer)) (omega (arith, length-drop size buffer))
          ∙ sym (blocks-whole g buffer s more)
    ]

    -- Less than a block is left.
    pub blocks-left :
        (f : ℕ) (buffer : List X) (s : S) → length buffer ≤ f → length (blocks f buffer s).0 < size
    unfolding blocks
    blocks-left zero buffer s hf = omega arith
    blocks-left (suc f) buffer s hf = elim (Bool-cases (leb size (length buffer))) [
      | inr short ↦
          let less = leb→lt size (length buffer) short in
          subst (λ (r : List X × S). length r.0 < size) (sym (blocks-short (suc f) buffer s less))
            less
      | inl whole ↦
          let more = leb→le size (length buffer) whole in
          subst (λ (r : List X × S). length r.0 < size) (sym (blocks-whole f buffer s more))
            (blocks-left f (drop size buffer) (step (take size buffer) s)
              (omega (arith, length-drop size buffer)))
    ]

    -- Taking blocks of two parts in turn is taking blocks of the whole.
    pub blocks-append :
        (f g h : ℕ) (b c : List X) (s : S)
        → length (b ++ c) ≤ f
        → length b ≤ g
        → length b + length c ≤ h
        → blocks f (b ++ c) s ≡ blocks h ((blocks g b s).0 ++ c) (blocks g b s).1
    blocks-append f zero h b c s hf hg hh =
        blocks-enough f h (b ++ c) s hf (omega (arith, length-append b c))
        ∙ sym (left_over zero h b c s (omega arith))
    blocks-append f (suc g) h b c s hf hg hh = elim (Bool-cases (leb size (length b))) [
      | inr short ↦
          blocks-enough f h (b ++ c) s hf (omega (arith, length-append b c))
          ∙ sym (left_over (suc g) h b c s (leb→lt size (length b) short))
      | inl whole ↦
          let more = leb→le size (length b) whole in
          let k = length (b ++ c) in
          blocks-enough f (suc k) (b ++ c) s hf (omega arith)
          ∙ blocks-whole k (b ++ c) s (omega (arith, length-append b c))
          ∙ ap₂ (blocks k) (drop-append size b c more)
              (ap (λ x. step x s) (take-append size b c more))
          ∙ blocks-append k g h (drop size b) c (step (take size b) s)
              (omega (arith, length-append (drop size b) c, length-append b c, length-drop size b))
              (omega (arith, length-drop size b)) (omega (arith, length-drop size b))
          ∙ sym (ap (λ (r : List X × S). blocks h (r.0 ++ c) r.1) (blocks-whole g b s more))
    ]

    -- With fuel for the length of each buffer.
    pub blocks-join :
        (b c : List X) (s : S)
        → blocks (length (b ++ c)) (b ++ c) s
          ≡ blocks
              (length ((blocks (length b) b s).0 ++ c))
              ((blocks (length b) b s).0 ++ c)
              (blocks (length b) b s).1
    blocks-join b c s =
        let r = blocks (length b) b s in
        let k = length (r.0 ++ c) in
        blocks-append (length (b ++ c)) (length b) (length b + length c + k) b c s (omega arith)
          (omega arith) (omega arith)
        ∙ blocks-enough (length b + length c + k) k (r.0 ++ c) r.1 (omega arith) (omega arith)
