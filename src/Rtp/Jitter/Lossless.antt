-- ===== src/Rtp/Jitter/Lossless.antt =====
-- What the jitter buffer keeps: it neither invents nor loses an accepted packet, and a stream that
-- arrives in order comes out whole.
use mathlib.Core.List.{append-nil, append_assoc, Perm}
use mathlib.Core.List.Perm
use flowcat.Base.{
  ℕ, ◌+◌, ◌<◌, ◌≤◌, ◌≡◌, ◌⊎◌, refl, ◌∙◌, sym, ap, inl, inr, true, false, List, [], ◌∷◌, ◌++◌, none,
  arith, Bool-cases, le→ltb,
}
use flowcat.Rtp.{RtpPacket}
use flowcat.Rtp.Jitter.{JitterBuffer, seq_lt, is_late, is_duplicate, insert, push, run, reset}
use flowcat.Rtp.Jitter.Serial.{offset, seq_lt-offset, eq-offset}
use flowcat.Rtp.Jitter.Window.{end-append, InHalf, Ascends, end, floor, IsWindow, release-split}
use flowcat.Rtp.Jitter.Playout.{late-floor, push-Plays}

insert-perm : (pkt : RtpPacket) (ps : List RtpPacket) → Perm (insert pkt ps) (pkt ∷ ps)
unfolding insert
insert-perm pkt [] = Perm.refl _
insert-perm pkt (p ∷ ps) = elim (Bool-cases (seq_lt pkt.seq p.seq)) [
  | inl before ↦ rw before (Perm.refl _)
  | inr after ↦ rw after (Perm.trans (Perm.cons p (insert-perm pkt ps)) (Perm.swap pkt p ps))
]

-- An arrival that is neither late nor a duplicate is in what is played out or in the buffer, once,
-- with all that was buffered before; any other arrival changes nothing and plays nothing.
pub push-conserves :
    (j : JitterBuffer) (pkt : RtpPacket)
    → ((is_late j pkt.seq ≡ false)
        × (is_duplicate j.buf pkt.seq ≡ false)
        × Perm ((push j pkt).0 ++ (push j pkt).1.buf) (pkt ∷ j.buf))
      ⊎ (((is_late j pkt.seq ≡ true) ⊎ (is_duplicate j.buf pkt.seq ≡ true))
          × (push j pkt ≡ ([], j)))
unfolding push
push-conserves j pkt = elim (Bool-cases (is_late j pkt.seq)) [
  | inl late ↦ inr (inl late, rw late)
  | inr fresh ↦ elim (Bool-cases (is_duplicate j.buf pkt.seq)) [
    | inl dup ↦ inr (inr dup, rw (fresh, dup))
    | inr new ↦ inl (
      fresh,
      new,
      rw (fresh, new, (release-split 0 (insert pkt j.buf) j).0) (insert-perm pkt j.buf),
    )
  ]
]

le-end : (base lo : ℕ) (qs : List RtpPacket) → Ascends base lo qs → lo ≤ end base lo qs
le-end base lo [] a = omega arith
le-end base lo (q ∷ qs) (hq, l, r) = omega (arith, le-end base (offset base q.seq + 1) qs r)

module _ (base : ℕ) (base_word : base < 65536) (pkt : RtpPacket) (h : InHalf base pkt) where
  -- A packet past the whole buffer is no duplicate, and goes to the end.
  append-last :
      (lo : ℕ) (ps : List RtpPacket)
      → Ascends base lo ps
      → end base lo ps ≤ offset base pkt.seq
      → (is_duplicate ps pkt.seq ≡ false) × (insert pkt ps ≡ ps ++ pkt ∷ [])
  unfolding is_duplicate insert
  append-last lo [] a e = (refl, refl)
  append-last lo (p ∷ ps) (hp, l, r) e = ground (
    arith,
    append-last (offset base p.seq + 1) ps r e,
    le-end base (offset base p.seq + 1) ps r,
    seq_lt-offset base pkt.seq p.seq base_word h.0 hp.0 h.1 hp.1,
    eq-offset base p.seq pkt.seq base_word hp.0 h.0,
  )

-- Such a packet is accepted: what is played and what is buffered make up the old buffer and the packet.
push-in_order :
    (base : ℕ) (j : JitterBuffer) (pkt : RtpPacket)
    → IsWindow base j
    → InHalf base pkt
    → end base (floor base j.last_released) j.buf ≤ offset base pkt.seq
    → (push j pkt).0 ++ (push j pkt).1.buf ≡ j.buf ++ pkt ∷ []
unfolding push
push-in_order base j pkt v h e =
    let (new, last) = append-last base v.base_word pkt h _ j.buf v.sorted e in
    let late = late-floor base j pkt j.last_released v.base_word refl v.last_in v.primed_iff h in
    let fresh = late ∙ le→ltb _ _ (omega (arith, le-end base _ j.buf v.sorted)) in
    rw (fresh, new, last) (release-split base (j.buf ++ pkt ∷ []) j).0

end-push :
    (base : ℕ) (j : JitterBuffer) (pkt : RtpPacket)
    → IsWindow base j
    → InHalf base pkt
    → end base (floor base j.last_released) j.buf ≤ offset base pkt.seq
    → end base (floor base (push j pkt).1.last_released) (push j pkt).1.buf
      ≡ offset base pkt.seq + 1
end-push base j pkt v h e =
    let r = push j pkt in
    rw (push-Plays base j pkt v h).floor_moves (
      sym (end-append base _ r.0 r.1.buf)
      ∙ ap (end base (floor base j.last_released)) (push-in_order base j pkt v h e)
      ∙ end-append base _ j.buf (pkt ∷ []))

-- From a valid buffer, a stream that arrives in ascending order, from past the buffer on and
-- within half the circle, comes out whole and in order: what is played and what stays buffered is
-- the old buffer and the stream.
pub run-in_order :
    (base : ℕ) (j : JitterBuffer) (pkts : List RtpPacket)
    → IsWindow base j
    → Ascends base (end base (floor base j.last_released) j.buf) pkts
    → (run j pkts).0 ++ (run j pkts).1.buf ≡ j.buf ++ pkts
unfolding run
run-in_order base j [] v a = sym (append-nil j.buf)
run-in_order base j (pkt ∷ pkts) v (h, l, r) =
    let j' = (push j pkt).1 in
    let rest =
      run-in_order base j' pkts (push-Plays base j pkt v h).valid
        (rw (end-push base j pkt v h l) r) in
    append_assoc (push j pkt).0 (run j' pkts).0 (run j' pkts).1.buf
    ∙ ap (◌++◌ (push j pkt).0) rest
    ∙ sym (append_assoc (push j pkt).0 j'.buf pkts)
    ∙ ap (λ ps. ps ++ pkts) (push-in_order base j pkt v h l)
    ∙ append_assoc j.buf (pkt ∷ []) pkts

-- After a reset, as on a change of SSRC, the first packet is buffered whatever its sequence number.
pub push-reset :
    (j : JitterBuffer) (pkt : RtpPacket)
    → 1 ≤ j.depth
    → push (reset j) pkt ≡ ([], record j { buf = pkt ∷ []; last_released = none; primed = false })
unfolding push reset
push-reset j pkt h = ground arith
