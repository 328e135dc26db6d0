-- ===== src/Rtp/Jitter/Window.antt =====
-- The buffer's invariant: strictly ascending distances from a base, all past the last release.
use flowcat.Base.{
  ℕ, ◌+◌, ◌-◌, ◌^◌, ◌<◌, ◌≤◌, ◌≡◌, refl, inl, inr, Bool, true, false, List, [], ◌∷◌, ◌++◌, Option,
  none, some, arith, ltb, length, Bool-cases, ltb→lt, sym, ◌∙◌,
}
use flowcat.Rtp.{RtpPacket}
use flowcat.Rtp.Jitter.{JitterBuffer, seq_lt, is_duplicate, insert, release, with_depth}
use flowcat.Rtp.Jitter.Serial.{offset, seq_lt-offset, eq-offset}

-- A packet whose sequence number is a u16 in the half circle that starts at the base.
abbrev pub InHalf : ℕ → RtpPacket → Type 0
InHalf base p = (p.seq < 2 ^ 16) × (offset base p.seq < 0x8000)

-- Strictly ascending, from a distance `lo` on.
abbrev pub Ascends : ℕ → ℕ → List RtpPacket → Type 0
Ascends base lo [] = Unit
Ascends base lo (p ∷ ps) =
    InHalf base p × (lo ≤ offset base p.seq) × Ascends base (offset base p.seq + 1) ps

-- The least distance that may follow.
abbrev pub end : ℕ → ℕ → List RtpPacket → ℕ
end base lo [] = lo
end base lo (p ∷ ps) = end base (offset base p.seq + 1) ps

abbrev pub floor : ℕ → Option ℕ → ℕ
floor base none = 0
floor base (some last) = offset base last + 1

abbrev pub LastInHalf : ℕ → JitterBuffer → Type 0
LastInHalf base j =
    (last : ℕ) → j.last_released ≡ some last → (last < 2 ^ 16) × (offset base last < 0x8000)

abbrev pub is_some {ℓ} : {A : Type ℓ} → Option A → Bool
is_some none = false
is_some (some a) = true

pub record IsWindow (base : ℕ) (j : JitterBuffer) : Type 0 where
  pub base_word : base < 2 ^ 16
  pub sorted : Ascends base (floor base j.last_released) j.buf
  pub last_in : LastInHalf base j
  pub primed_iff : j.primed ≡ is_some j.last_released
  pub bounded : length j.buf ≤ j.depth
  pub positive : 1 ≤ j.depth

pub with_depth-IsWindow : (base depth : ℕ) → base < 2 ^ 16 → IsWindow base (with_depth depth)
unfolding with_depth
with_depth-IsWindow base depth h = record {
  base_word = h;
  sorted = tt;
  last_in = λ last e. ground arith;
  primed_iff = refl;
  bounded = omega arith;
  positive = omega arith;
}

module _ (base : ℕ) where
  pub Ascends-weaken :
      (lo lo' : ℕ) (ps : List RtpPacket) → lo' ≤ lo → Ascends base lo ps → Ascends base lo' ps
  Ascends-weaken lo lo' [] h a = tt
  Ascends-weaken lo lo' (p ∷ ps) h (q, l, r) = (q, omega arith, r)

  pub Ascends-append :
      (lo : ℕ) (ps qs : List RtpPacket)
      → Ascends base lo ps
      → Ascends base (end base lo ps) qs
      → Ascends base lo (ps ++ qs)
  Ascends-append lo [] qs a b = b
  Ascends-append lo (p ∷ ps) qs (h, l, r) b =
      (h, l, Ascends-append (offset base p.seq + 1) ps qs r b)

  pub end-append :
      (lo : ℕ) (ps qs : List RtpPacket) → end base lo (ps ++ qs) ≡ end base (end base lo ps) qs
  end-append lo [] qs = refl
  end-append lo (p ∷ ps) qs = end-append (offset base p.seq + 1) ps qs

  module _ (base_word : base < 2 ^ 16) (pkt : RtpPacket) (here : InHalf base pkt) where
    -- Inserting a packet that is in reach and no duplicate keeps the order.
    pub insert-Ascends :
        (lo : ℕ) (ps : List RtpPacket)
        → lo ≤ offset base pkt.seq
        → Ascends base lo ps
        → is_duplicate ps pkt.seq ≡ false
        → Ascends base lo (insert pkt ps)
    unfolding insert is_duplicate
    insert-Ascends lo [] l a d = (here, l, tt)
    insert-Ascends lo (p ∷ ps) l (h, lp, r) d = elim (Bool-cases (seq_lt pkt.seq p.seq)) [
      | inl before ↦
          rw before (here, l, (h, omega (arith, ltb→lt _ _ (sym (order p h) ∙ before)), r))
      | inr after ↦ rw after (
        h,
        lp,
        insert-Ascends (offset base p.seq + 1) ps
            (ground (arith, order p h, eq-offset base p.seq pkt.seq base_word h.0 here.0)) r
            (ground arith),
      )
    ]
      where
        order :
            (p : RtpPacket)
            → InHalf base p
            → seq_lt pkt.seq p.seq ≡ ltb (offset base pkt.seq) (offset base p.seq)
        order p h = seq_lt-offset base pkt.seq p.seq base_word here.0 h.0 here.1 h.1

  -- Release splits the buffer: what comes out, then what stays, at most `depth` of it.
  pub release-split :
      (ps : List RtpPacket) (j : JitterBuffer)
      → ((release ps j).0 ++ (release ps j).1.buf ≡ ps)
        × (length (release ps j).1.buf ≤ j.depth)
        × ((release ps j).1.depth ≡ j.depth)
        × (length (release ps j).0 ≡ length ps - j.depth)
        × (floor base (release ps j).1.last_released
            ≡ end base (floor base j.last_released) (release ps j).0)
  unfolding release
  release-split [] j = ground arith
  release-split (p ∷ ps) j =
      ground (arith, release-split ps (record j { last_released = some p.seq; primed = true }))
