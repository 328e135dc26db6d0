-- ===== src/Rtp/Jitter/Serial.antt =====
-- The order on the sequence circle: within half the circle of a base it is the order of the distances
-- from that base.
use flowcat.Base.{ℕ, ◌^◌, ◌<◌, ◌≡◌, ◌≢◌, ◌↔◌, false, arith, ltb, ◌==◌}
use flowcat.Rtp.Jitter.{wrapping_sub, seq_lt}

-- How far past a base a sequence number lies on the circle.
abbrev pub offset : ℕ → ℕ → ℕ
offset base seq = wrapping_sub seq base

pub seq_lt-offset :
    (base a b : ℕ)
    → base < 2 ^ 16
    → a < 2 ^ 16
    → b < 2 ^ 16
    → offset base a < 0x8000
    → offset base b < 0x8000
    → seq_lt a b ≡ ltb (offset base a) (offset base b)
unfolding seq_lt
seq_lt-offset base a b hb ha hc wa wb = ground arith

pub eq-offset :
    (base a b : ℕ)
    → base < 2 ^ 16
    → a < 2 ^ 16
    → b < 2 ^ 16
    → (a == b) ≡ (offset base a == offset base b)
eq-offset base a b hb ha hc = ground arith

-- Two different 16-bit numbers are unordered exactly when they lie half the circle apart: the
-- source compares with `> 0x8000`, so the signed difference -32768 counts as neither before nor
-- after.
pub seq_lt_unordered_iff :
    (a b : ℕ)
    → a < 2 ^ 16
    → b < 2 ^ 16
    → a ≢ b
    → ((seq_lt a b ≡ false) × (seq_lt b a ≡ false)) ↔ (wrapping_sub a b ≡ 0x8000)
unfolding seq_lt
seq_lt_unordered_iff a b ha hb ne = (λ h. ground arith, λ e. ground arith)
