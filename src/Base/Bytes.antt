-- ===== src/Base/Bytes.antt =====
-- Bytes and machine words as native numbers: big-endian encodings, and the bit masks of the wire
-- formats, each read as arithmetic by a check of all bytes.
use Prim.Native.Nat.{bit_and, bit_or}
use flowcat.Base.{
  ℕ, zero, suc, ◌+◌, ◌*◌, ◌/◌, ◌%◌, ◌^◌, ◌<◌, ◌≡◌, refl, Bool, true, ◌&&◌, List, [], ◌∷◌, arith,
  ◌==◌, ==→eq, &&-left, &&-right, Bool-cases, subst, sym, inl, inr,
}

-- `u16::to_be_bytes`, `u32::to_be_bytes` and their inverses
abbrev pub be16 : ℕ → List ℕ
be16 n = n / 256 % 256 ∷ n % 256 ∷ []

abbrev pub be32 : ℕ → List ℕ
be32 n = n / 16777216 % 256 ∷ n / 65536 % 256 ∷ n / 256 % 256 ∷ n % 256 ∷ []

abbrev pub from_be16 : ℕ → ℕ → ℕ
from_be16 a b = a * 256 + b

abbrev pub from_be32 : ℕ → ℕ → ℕ → ℕ → ℕ
from_be32 a b c d = a * 16777216 + b * 65536 + c * 256 + d

pub from_be16-be16 : (n : ℕ) → n < 2 ^ 16 → from_be16 (n / 256 % 256) (n % 256) ≡ n
from_be16-be16 n h = omega arith

pub from_be32-be32 :
    (n : ℕ)
    → n < 2 ^ 32
    → from_be32 (n / 16777216 % 256) (n / 65536 % 256) (n / 256 % 256) (n % 256) ≡ n
from_be32-be32 n h = omega arith

-- Whether two functions agree below a bound, by evaluation.
agree : (ℕ → ℕ) → (ℕ → ℕ) → ℕ → Bool
agree f g zero = true
agree f g (suc bound) = agree f g bound && f bound == g bound

agree-last : (f g : ℕ → ℕ) (bound : ℕ) → agree f g (suc bound) ≡ true → f bound ≡ g bound
unfolding agree
agree-last f g bound h =
    ==→eq (f bound) (g bound) (&&-right (agree f g bound) (f bound == g bound) h)

agree_lem : (f g : ℕ → ℕ) (bound : ℕ) → agree f g bound ≡ true → (b : ℕ) → b < bound → f b ≡ g b
unfolding agree
agree_lem f g zero h b lt = absurd (omega arith)
agree_lem f g (suc bound) h b lt = elim (Bool-cases (b == bound)) [
  | inl top ↦ subst (λ n. f n ≡ g n) (sym (==→eq b bound top)) (agree-last f g bound h)
  | inr under ↦
      agree_lem f g bound (&&-left (agree f g bound) (f bound == g bound) h) b (ground arith)
]

pub and_0x7f : (b : ℕ) → b < 256 → bit_and b 0x7f ≡ b % 128
unfolding agree
and_0x7f = agree_lem (λ b. bit_and b 0x7f) (λ b. b % 128) 256 refl

pub and_0x3f : (b : ℕ) → b < 256 → bit_and b 0x3f ≡ b % 64
unfolding agree
and_0x3f = agree_lem (λ b. bit_and b 0x3f) (λ b. b % 64) 256 refl

pub and_0x0f : (b : ℕ) → b < 256 → bit_and b 0x0f ≡ b % 16
unfolding agree
and_0x0f = agree_lem (λ b. bit_and b 0x0f) (λ b. b % 16) 256 refl

pub and_0x10 : (b : ℕ) → b < 256 → bit_and b 0x10 ≡ b / 16 % 2 * 16
unfolding agree
and_0x10 = agree_lem (λ b. bit_and b 0x10) (λ b. b / 16 % 2 * 16) 256 refl

pub and_0x80 : (b : ℕ) → b < 256 → bit_and b 0x80 ≡ b / 128 * 128
unfolding agree
and_0x80 = agree_lem (λ b. bit_and b 0x80) (λ b. b / 128 * 128) 256 refl

pub or_0x80 : (b : ℕ) → b < 128 → bit_or b 0x80 ≡ b + 128
unfolding agree
or_0x80 = agree_lem (λ b. bit_or b 0x80) (λ b. b + 128) 128 refl
