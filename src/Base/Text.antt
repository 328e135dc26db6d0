-- ===== src/Base/Text.antt =====
-- Text as a list of code points, the whitespace test of `char::is_whitespace`, and JSON values.
use flowcat.Base.{
  ℕ, ◌+◌, ◌≡◌, refl, Bool-cases, inr, inl, ◌∙◌, ap, sym, Bool, true, false, not, ◌&&◌, ◌||◌, List,
  [], ◌∷◌, leb, ◌==◌, if◌then◌else◌, arith,
}
use Prim.Native.Char.{code}
use Prim.Native.String.{String}

abbrev pub Text : Type 0
Text = List ℕ

-- The code points of a literal.
abbrev pub codes : String → Text
codes String.[] = []
codes (String.◌∷◌ c s) = code c ∷ codes s

unfoldable pub text_eq : Text → Text → Bool
text_eq [] [] = true
text_eq [] (y ∷ ys) = false
text_eq (x ∷ xs) [] = false
text_eq (x ∷ xs) (y ∷ ys) = x == y && text_eq xs ys

pub text_eq→eq : (s t : Text) → text_eq s t ≡ true → s ≡ t
unfolding text_eq
text_eq→eq [] [] h = refl
text_eq→eq [] (y ∷ ys) h = ground arith
text_eq→eq (x ∷ xs) [] h = ground arith
text_eq→eq (x ∷ xs) (y ∷ ys) h = ground (arith, text_eq→eq xs ys)

pub text_eq_self : (s : Text) → text_eq s s ≡ true
unfolding text_eq
text_eq_self [] = refl
text_eq_self (x ∷ xs) = ground (arith, text_eq_self xs)

pub eq→text_eq : (s t : Text) → s ≡ t → text_eq s t ≡ true
eq→text_eq s t e = ground (arith, text_eq_self s)

-- Texts that differ are not both equal to a third.
pub text_eq-apart : (a b c : Text) → text_eq a b ≡ false → text_eq a c ≡ true → text_eq b c ≡ false
text_eq-apart a b c h k = elim (Bool-cases (text_eq b c)) [
  | inl same ↦
      let e : a ≡ b = text_eq→eq a c k ∙ sym (text_eq→eq b c same) in
      ground (arith, eq→text_eq a b e)
  | inr other ↦ other
]

pub text_eq-same : (a b c : Text) → text_eq a b ≡ true → text_eq a c ≡ text_eq b c
text_eq-same a b c h = ap (λ x. text_eq x c) (text_eq→eq a b h)

abbrev pub is_empty {ℓ} : {A : Type ℓ} → List A → Bool
is_empty [] = true
is_empty (x ∷ xs) = false

-- The property `White_Space`.
unfoldable pub is_whitespace : ℕ → Bool
is_whitespace c =
    (leb 0x9 c && leb c 0xd)
    || (c == 0x20
        || (c == 0x85
            || (c == 0xa0
                || (c == 0x1680
                    || ((leb 0x2000 c && leb c 0x200a)
                        || (c == 0x2028
                            || (c == 0x2029 || (c == 0x202f || (c == 0x205f || c == 0x3000)))))))))

-- Words read so far, and whether the last code point was in a word.
unfoldable pub count_words : Bool → Text → ℕ
unfolding is_whitespace
count_words inside [] = 0
count_words inside (c ∷ s) =
    (if not inside && not (is_whitespace c) then 1 else 0) + count_words (not (is_whitespace c)) s

-- `text.split_whitespace().count()`
unfoldable pub word_count : Text → ℕ
unfolding count_words
word_count s = count_words false s

-- `s.contains(t)`
unfoldable pub starts_with : Text → Text → Bool
starts_with s [] = true
starts_with [] (y ∷ ys) = false
starts_with (x ∷ xs) (y ∷ ys) = x == y && starts_with xs ys

unfoldable pub contains : Text → Text → Bool
unfolding starts_with
contains [] t = starts_with [] t
contains (x ∷ xs) t = starts_with (x ∷ xs) t || contains xs t

mutual
  -- `serde_json::Value`; a number is its text.
  pub data Json : Type 0 where
    null : Json
    boolean : Bool → Json
    number : Text → Json
    string : Text → Json
    array : Items → Json
    object : Fields → Json

  pub data Items : Type 0 where
    nil : Items
    cons : Json → Items → Items

  pub data Fields : Type 0 where
    end : Fields
    field : Text → Json → Fields → Fields

unfoldable pub contains_key : Text → Fields → Bool
unfolding text_eq
contains_key k end = false
contains_key k (field name v fs) = text_eq name k || contains_key k fs

-- `value.get(k)`, at an object
unfoldable pub field_value : Text → Fields → Json
unfolding text_eq
field_value k end = null
field_value k (field name v fs) = if text_eq name k then v else field_value k fs
