-- ===== src/Rtp/Jitter.antt =====
-- flowcat-core/src/sip/rtp.rs: the jitter buffer, a bounded reorder window over 16-bit sequence
-- numbers.
pub mod Serial
pub mod Window
pub mod Playout
pub mod Lossless
mod Tests
use flowcat.Base.{
  ℕ, ◌+◌, ◌-◌, ◌%◌, ◌^◌, max, Bool, true, false, not, ◌&&◌, ◌||◌, List, [], ◌∷◌, ◌++◌, Option, none,
  some, length, any, ltb, ◌==◌, if◌then◌else◌,
}
use flowcat.Rtp.{RtpPacket}

abbrev pub jitter_depth : ℕ
jitter_depth = 2

pub record JitterBuffer : Type 0 where
  pub buf : List RtpPacket
  pub depth : ℕ
  pub last_released : Option ℕ
  pub primed : Bool

pub with_depth : ℕ → JitterBuffer
with_depth depth = record { buf = []; depth = max depth 1; last_released = none; primed = false }

-- `JitterBuffer::new`
pub new : JitterBuffer
unfolding with_depth
new = with_depth jitter_depth

pub reset : JitterBuffer → JitterBuffer
reset j = record j { buf = []; last_released = none; primed = false }

-- `u16::wrapping_sub`
abbrev pub wrapping_sub : ℕ → ℕ → ℕ
wrapping_sub a b = (a + 2 ^ 16 - b) % 2 ^ 16

pub seq_lt : ℕ → ℕ → Bool
seq_lt seq reference = not (seq == reference) && ltb 0x8000 (wrapping_sub seq reference)

-- At or below the last released sequence number. `primed` is set with `last_released`, so the
-- `unwrap` of the source does not fail; where there is none the answer is `false`.
pub is_late : JitterBuffer → ℕ → Bool
unfolding seq_lt
is_late j seq =
    j.primed && elim j.last_released [ none ↦ false | some last ↦ seq == last || seq_lt seq last ]

pub is_duplicate : List RtpPacket → ℕ → Bool
is_duplicate buf seq = any (λ p. p.seq == seq) buf

-- Before the first buffered packet that the new one is behind.
pub insert : RtpPacket → List RtpPacket → List RtpPacket
unfolding seq_lt
insert pkt [] = pkt ∷ []
insert pkt (p ∷ ps) = if seq_lt pkt.seq p.seq then pkt ∷ p ∷ ps else p ∷ insert pkt ps

-- `while self.buf.len() > self.depth`, over the buffered packets that are left.
pub release : List RtpPacket → JitterBuffer → List RtpPacket × JitterBuffer
release [] j = ([], record j { buf = [] })
release (p ∷ ps) j =
    let rest = release ps (record j { last_released = some p.seq; primed = true }) in
    if ltb j.depth (length (p ∷ ps)) then (p ∷ rest.0, rest.1) else ([], record j { buf = p ∷ ps })

pub push : JitterBuffer → RtpPacket → List RtpPacket × JitterBuffer
unfolding is_late is_duplicate insert release
push j pkt =
    if is_late j pkt.seq
    then ([], j)
    else if is_duplicate j.buf pkt.seq
    then ([], j)
    else release (insert pkt j.buf) j

-- `out.last()` decides what `drain` leaves.
pub mark_last : List RtpPacket → JitterBuffer → JitterBuffer
mark_last [] j = j
mark_last (p ∷ []) j = record j { last_released = some p.seq; primed = true }
mark_last (p ∷ q ∷ ps) j = mark_last (q ∷ ps) j

pub drain : JitterBuffer → List RtpPacket × JitterBuffer
unfolding mark_last
drain j = (j.buf, mark_last j.buf (record j { buf = [] }))

-- A call's inbound packets in arrival order, with all that is played out.
pub run : JitterBuffer → List RtpPacket → List RtpPacket × JitterBuffer
unfolding push
run j [] = ([], j)
run j (pkt ∷ pkts) =
    let first = push j pkt in let rest = run first.1 pkts in (first.0 ++ rest.0, rest.1)
