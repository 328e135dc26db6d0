-- ===== src/Base/Decimal.antt =====
-- Numbers in decimal: `to_string` of an unsigned integer, and `parse` of one, which gives it back.
use Prim.Native.Nat.{ℕ, zero, suc, ◌+◌, ◌*◌, ◌-◌, ◌/◌, ◌%◌, ◌^◌, ◌≤◌, ◌<◌}
use mathlib.Core.Path.{◌≡◌, refl, sym, ap, ◌∙◌}
use mathlib.Core.Logic.{inl, inr}
use mathlib.Core.Bool.{Bool, true, ◌&&◌}
use mathlib.Core.Option.{Option, none, some}
use mathlib.Core.List.{[], ◌∷◌, ◌++◌}
use native.Mathlib.Omega.{arith}
use flowcat.Base.Tests.{
  if◌then◌else◌, ltb, leb, ◌==◌, Bool-cases, if_true, if_false, ltb→lt, ltb→le,
}
use flowcat.Base.Lists.{all}
use flowcat.Base.Text.{Text}
use flowcat.Base.Values.{and_then}

-- The decimal digits of a number, of which the number itself bounds how many there are.
unfoldable pub decimal : ℕ → ℕ → Text
decimal zero n = (48 + n % 10) ∷ []
decimal (suc fuel) n =
    let front = decimal fuel (n / 10) in
    if ltb n 10 then (48 + n) ∷ [] else front ++ (48 + n % 10) ∷ []

unfoldable pub show : ℕ → Text
unfolding decimal
show n = decimal n n

unfoldable pub is_digit_char : ℕ → Bool
is_digit_char c = leb 48 c && leb c 57

-- The digits that follow a number read so far, which stays below a bound.
unfoldable pub digits : ℕ → ℕ → Text → Option ℕ
unfolding is_digit_char
digits bound n [] = some n
digits bound n (c ∷ s) =
    let rest = digits bound (n * 10 + (c - 48)) s in
    if is_digit_char c && ltb (n * 10 + (c - 48)) bound then rest else none

-- `parse` of an integer below a bound: one plus sign may stand before the digits.
unfoldable pub parse_unsigned : ℕ → Text → Option ℕ
unfolding digits
parse_unsigned bound [] = none
parse_unsigned bound (c ∷ []) = digits bound 0 (c ∷ [])
parse_unsigned bound (c ∷ d ∷ s) =
    if c == 43 then digits bound 0 (d ∷ s) else digits bound 0 (c ∷ d ∷ s)

unfoldable pub parse_usize : Text → Option ℕ
unfolding parse_unsigned
parse_usize s = parse_unsigned (2 ^ 64) s

-- One digit more.
digits-snoc :
    (bound n c : ℕ) (s : Text)
    → digits bound n (s ++ c ∷ [])
      ≡ and_then (digits bound n s) (λ v.
        if is_digit_char c && ltb (v * 10 + (c - 48)) bound then some (v * 10 + (c - 48)) else none)
unfolding digits
digits-snoc bound n c [] = refl
digits-snoc bound n c (d ∷ s) = ground (arith, digits-snoc bound (n * 10 + (d - 48)) c s)

all-snoc :
    (p : ℕ → Bool) (s : Text) (c : ℕ) → all p s ≡ true → p c ≡ true → all p (s ++ c ∷ []) ≡ true
all-snoc p [] c h k = ground arith
all-snoc p (d ∷ s) c h k = ground (arith, all-snoc p s c)

digit-next :
    (bound v n : ℕ)
    → v * 10 + n % 10 ≡ n
    → n < bound
    → (if is_digit_char (48 + n % 10) && ltb (v * 10 + (48 + n % 10 - 48)) bound
        then some (v * 10 + (48 + n % 10 - 48))
        else none)
      ≡ some n
unfolding is_digit_char
digit-next bound v n e h = let same : v * 10 + (48 + n % 10 - 48) ≡ n = omega arith in ground arith

-- The digits of a number, read on from zero.
digits-decimal :
    (bound fuel n : ℕ) → n ≤ fuel → n < bound → digits bound 0 (decimal fuel n) ≡ some n
unfolding digits decimal
digits-decimal bound zero n f h = digit-next bound 0 n (omega arith) h
digits-decimal bound (suc fuel) n f h = elim (Bool-cases (ltb n 10)) [
  | inl small ↦
      let least = ltb→lt n 10 small in
      let e : n % 10 ≡ n = omega arith in
      ap (digits bound 0) (if_true _ _ small ∙ ap (λ d. (48 + d) ∷ []) (sym e))
      ∙ digit-next bound 0 n (omega arith) h
  | inr large ↦
      let most = ltb→le n 10 large in
      ap (digits bound 0) (if_false _ _ large)
      ∙ digits-snoc bound 0 (48 + n % 10) (decimal fuel (n / 10))
      ∙ ap
          (λ o. and_then o (λ v.
            if is_digit_char (48 + n % 10) && ltb (v * 10 + (48 + n % 10 - 48)) bound
            then some (v * 10 + (48 + n % 10 - 48))
            else none))
          (digits-decimal bound fuel (n / 10) (omega arith) (omega arith))
      ∙ digit-next bound (n / 10) n (omega arith) h
]

-- The characters of a number are digits.
pub decimal-digits : (fuel n : ℕ) → n ≤ fuel → all is_digit_char (decimal fuel n) ≡ true
unfolding decimal is_digit_char
decimal-digits zero n f = ground arith
decimal-digits (suc fuel) n f = elim (Bool-cases (ltb n 10)) [
  | inl small ↦ ap (all is_digit_char) (if_true _ _ small) ∙ ground arith
  | inr large ↦
      let most = ltb→le n 10 large in
      ap (all is_digit_char) (if_false _ _ large)
      ∙ all-snoc is_digit_char (decimal fuel (n / 10)) (48 + n % 10)
          (decimal-digits fuel (n / 10) (omega arith)) (ground arith)
]

-- The first character of a number is not a zero, if the number is not.
pub decimal-first :
    (fuel n : ℕ) → n ≤ fuel → 0 < n → (c : ℕ) × ((s : Text) × ((decimal fuel n ≡ c ∷ s) × (48 < c)))
unfolding decimal
decimal-first zero n f h = absurd (omega arith)
decimal-first (suc fuel) n f h = elim (Bool-cases (ltb n 10)) [
  | inl small ↦ (48 + n, ([], (if_true _ _ small, omega arith)))
  | inr large ↦
      let most = ltb→le n 10 large in
      let front = decimal-first fuel (n / 10) (omega arith) (omega arith) in
      (
        front.0,
        (
          front.1.0 ++ (48 + n % 10) ∷ [],
          (if_false _ _ large ∙ ap (λ s. s ++ (48 + n % 10) ∷ []) front.1.1.0, front.1.1.1),
        ),
      )
]

pub digits-show : (bound n : ℕ) → n < bound → digits bound 0 (show n) ≡ some n
unfolding show
digits-show bound n h = digits-decimal bound n n (omega arith) h
