-- ===== src/Sdp/Words.antt =====
-- flowcat-core/src/sip/sdp.rs: the addresses and the numbers of a description, printed and read.
use flowcat.Base.{
  ℕ, suc, zero, ◌<◌, ◌≡◌, refl, sym, ap, ◌∙◌, Bool, true, false, not, ◌||◌, List, [], ◌∷◌, ◌++◌,
  some, ◌==◌, all, keep_if, arith, if_true,
}
use mathlib.Core.Bool.{true≢false}
use flowcat.Base.Text.{Text, codes, text_eq, is_whitespace, is_empty}
use flowcat.Base.Scan.{split, words, split_by-whole, split_by-at}
use flowcat.Base.Decimal.{
  show, is_digit_char, digits, decimal-digits, decimal-first, digits-show, parse_unsigned,
}
use flowcat.Sdp.{
  Ipv4Addr, show_ip, parse_ip, parse_octet, octets, ip_of, parse_connection_ipv4, connection_of,
}

module _ (p q : ℕ → Bool) where
  pub all-implied :
      ((c : ℕ) → p c ≡ true → q c ≡ true) → (s : Text) → all p s ≡ true → all q s ≡ true
  all-implied f [] h = refl
  all-implied f (c ∷ s) h = ground (arith, f c, all-implied f s)

pub all-append :
    (p : ℕ → Bool) (s t : Text) → all p s ≡ true → all p t ≡ true → all p (s ++ t) ≡ true
all-append p [] t h k = k
all-append p (c ∷ s) t h k = ground (arith, all-append p s t)

-- A digit or a dot.
abbrev pub is_dotted : ℕ → Bool
is_dotted c = is_digit_char c || c == 46

pub all-show : (n : ℕ) → all is_digit_char (show n) ≡ true
unfolding show
all-show n = decimal-digits n n (omega arith)

dotted-show : (n : ℕ) → all is_dotted (show n) ≡ true
dotted-show n = all-implied is_digit_char is_dotted (λ c h. ground arith) (show n) (all-show n)

dotted-more : (n : ℕ) (s : Text) → all is_dotted s ≡ true → all is_dotted (show n ++ 46 ∷ s) ≡ true
unfolding is_digit_char
dotted-more n s h = all-append is_dotted (show n) (46 ∷ s) (dotted-show n) h

pub dotted-show_ip : (ip : Ipv4Addr) → all is_dotted (show_ip ip) ≡ true
unfolding show_ip is_digit_char
dotted-show_ip ip = dotted-more ip.a _ (dotted-more ip.b _ (dotted-more ip.c _ (dotted-show ip.d)))

-- The first piece at dots, of a number and what follows.
split-show :
    (n : ℕ) (t : Text) → split 46 (show n ++ 46 ∷ t) ≡ (show n, (split 46 t).0 ∷ (split 46 t).1)
unfolding split is_digit_char
split-show n t =
    split_by-at (λ d. d == 46) (show n) 46 t
      (all-implied is_digit_char (λ d. not (d == 46)) (λ c h. ground arith) (show n) (all-show n))
      refl

split-last : (n : ℕ) → split 46 (show n) ≡ (show n, [])
unfolding split is_digit_char
split-last n =
    split_by-whole (λ d. d == 46) (show n)
      (all-implied is_digit_char (λ d. not (d == 46)) (λ c h. ground arith) (show n) (all-show n))

split-show_ip :
    (ip : Ipv4Addr) → split 46 (show_ip ip) ≡ (show ip.a, show ip.b ∷ show ip.c ∷ show ip.d ∷ [])
unfolding show_ip
split-show_ip ip =
    split-show ip.a _
    ∙ ap (λ (r : Text × List Text). (show ip.a, r.0 ∷ r.1))
        (split-show ip.b _
          ∙ ap (λ (r : Text × List Text). (show ip.b, r.0 ∷ r.1))
              (split-show ip.c _
                ∙ ap (λ (r : Text × List Text). (show ip.c, r.0 ∷ r.1)) (split-last ip.d)))

-- No slash stands in an address.
whole-show_ip : (ip : Ipv4Addr) → split 47 (show_ip ip) ≡ (show_ip ip, [])
unfolding split is_digit_char
whole-show_ip ip =
    split_by-whole (λ d. d == 47) (show_ip ip)
      (all-implied is_dotted (λ d. not (d == 47)) (λ c h. ground arith) (show_ip ip)
        (dotted-show_ip ip))

first-show : (n : ℕ) → 0 < n → (c : ℕ) × ((s : Text) × ((show n ≡ c ∷ s) × (48 < c)))
unfolding show
first-show n h = decimal-first n n (omega arith) h

-- A number that is read without a zero before it.
octet-digits : (c : ℕ) (s : Text) → 48 < c → parse_octet (c ∷ s) ≡ digits 256 0 (c ∷ s)
unfolding parse_octet
octet-digits c [] h = refl
octet-digits c (d ∷ s) h = ground arith

zero-octet : parse_octet (show 0) ≡ some 0
unfolding parse_octet show
zero-octet = refl

pub parse_octet-show : (n : ℕ) → n < 256 → parse_octet (show n) ≡ some n
parse_octet-show zero h = zero-octet
parse_octet-show (suc n) h =
    let front = first-show (suc n) (omega arith) in
    ap parse_octet front.1.1.0
    ∙ octet-digits front.0 front.1.0 front.1.1.1
    ∙ ap (digits 256 0) (sym front.1.1.0)
    ∙ digits-show 256 (suc n) h

-- The four numbers of an address are below 256.
abbrev pub IsAddress : Ipv4Addr → Type 0
IsAddress ip = (ip.a < 256) × ((ip.b < 256) × ((ip.c < 256) × (ip.d < 256)))

pub parse_ip-show_ip : (ip : Ipv4Addr) → IsAddress ip → parse_ip (show_ip ip) ≡ some ip
unfolding parse_ip
parse_ip-show_ip ip h =
    ap (λ (r : Text × List Text). octets r.0 r.1) (split-show_ip ip)
    ∙ ap
        (λ o. ip_of o (parse_octet (show ip.b)) (parse_octet (show ip.c)) (parse_octet (show ip.d)))
        (parse_octet-show ip.a h.0)
    ∙ ap (λ o. ip_of (some ip.a) o (parse_octet (show ip.c)) (parse_octet (show ip.d)))
        (parse_octet-show ip.b h.1.0)
    ∙ ap (λ o. ip_of (some ip.a) (some ip.b) o (parse_octet (show ip.d)))
        (parse_octet-show ip.c h.1.1.0)
    ∙ ap (ip_of (some ip.a) (some ip.b) (some ip.c)) (parse_octet-show ip.d h.1.1.1)

-- A word: not empty, and without whitespace.
abbrev pub IsWord : Text → Type 0
IsWord s = (is_empty s ≡ false) × (all (λ c. not (is_whitespace c)) s ≡ true)

pub words-one : (s : Text) → IsWord s → words s ≡ s ∷ []
unfolding words
words-one s h =
    ap (λ (r : Text × List Text). keep_if (λ w. not (is_empty w)) (r.0 ∷ r.1))
      (split_by-whole is_whitespace s h.1)
    ∙ if_true _ _ (ap not h.0)

pub words-more :
    (s : Text) (c : ℕ) (t : Text)
    → IsWord s
    → is_whitespace c ≡ true
    → words (s ++ c ∷ t) ≡ s ∷ words t
unfolding words
words-more s c t h k =
    ap (λ (r : Text × List Text). keep_if (λ w. not (is_empty w)) (r.0 ∷ r.1))
      (split_by-at is_whitespace s c t h.1 k)
    ∙ if_true _ _ (ap not h.0)

dotted-IsWord : (s : Text) → is_empty s ≡ false → all is_dotted s ≡ true → IsWord s
unfolding is_digit_char is_whitespace
dotted-IsWord s e h =
    (e, all-implied is_dotted (λ c. not (is_whitespace c)) (λ c k. ground arith) s h)

zero-full : is_empty (show 0) ≡ false
unfolding show
zero-full = refl

show-full : (n : ℕ) → is_empty (show n) ≡ false
show-full zero = zero-full
show-full (suc n) = let front = first-show (suc n) (omega arith) in ap is_empty front.1.1.0

pub show-IsWord : (n : ℕ) → IsWord (show n)
show-IsWord n = dotted-IsWord (show n) (show-full n) (dotted-show n)

append-full : (s t : Text) → is_empty s ≡ false → is_empty (s ++ t) ≡ false
append-full [] t h = absurd (true≢false h)
append-full (c ∷ s) t h = refl

pub show_ip-IsWord : (ip : Ipv4Addr) → IsWord (show_ip ip)
unfolding show_ip
show_ip-IsWord ip =
    dotted-IsWord (show_ip ip) (append-full (show ip.a) _ (show-full ip.a)) (dotted-show_ip ip)

-- The address that a connection line prints is read from it.
pub parse_connection-show_ip :
    (ip : Ipv4Addr) → IsAddress ip → parse_connection_ipv4 (codes "IN IP4 " ++ show_ip ip) ≡ some ip
unfolding parse_connection_ipv4 text_eq is_whitespace
parse_connection-show_ip ip h =
    ap connection_of (
      words-more (codes "IN") 32 (codes "IP4 " ++ show_ip ip) (refl, refl) refl
      ∙ ap (λ ws. codes "IN" ∷ ws)
          (words-more (codes "IP4") 32 (show_ip ip) (refl, refl) refl
            ∙ ap (λ ws. codes "IP4" ∷ ws) (words-one (show_ip ip) (show_ip-IsWord ip))))
    ∙ ap (λ (r : Text × List Text). parse_ip r.0) (whole-show_ip ip)
    ∙ parse_ip-show_ip ip h

-- A number that is read with no plus sign before it.
unsigned-digits :
    (bound c : ℕ) (s : Text) → 43 < c → parse_unsigned bound (c ∷ s) ≡ digits bound 0 (c ∷ s)
unfolding parse_unsigned
unsigned-digits bound c [] h = refl
unsigned-digits bound c (d ∷ s) h = ground arith

zero-unsigned : (bound : ℕ) → 0 < bound → parse_unsigned bound (show 0) ≡ some 0
unfolding show
zero-unsigned bound h = unsigned-digits bound 48 [] (omega arith) ∙ digits-show bound 0 h

pub parse_unsigned-show : (bound n : ℕ) → n < bound → parse_unsigned bound (show n) ≡ some n
parse_unsigned-show bound zero h = zero-unsigned bound h
parse_unsigned-show bound (suc n) h =
    let front = first-show (suc n) (omega arith) in
    ap (parse_unsigned bound) front.1.1.0
    ∙ unsigned-digits bound front.0 front.1.0 (omega (arith, front.1.1.1))
    ∙ ap (digits bound 0) (sym front.1.1.0)
    ∙ digits-show bound (suc n) h
