-- ===== src/Rtp/Jitter/Playout.antt =====
-- What a call plays out: in sequence order, no packet twice, and at most one per arrival.
use flowcat.Base.{
  ℕ, ◌+◌, ◌<◌, ◌≤◌, ◌≡◌, refl, ◌∙◌, sym, subst, ap, inl, inr, true, List, [], ◌∷◌, ◌++◌, Option,
  none, some, arith, ltb, length, Bool-cases, All, ltb→le,
}
use flowcat.Rtp.{RtpPacket}
use flowcat.Rtp.Jitter.{JitterBuffer, is_late, is_duplicate, insert, release, push, drain, run}
use flowcat.Rtp.Jitter.Serial.{offset, seq_lt-offset, eq-offset}
use flowcat.Rtp.Jitter.Window.{
  InHalf, Ascends, end, floor, LastInHalf, is_some, IsWindow, Ascends-append, end-append,
  insert-Ascends, release-split,
}

Ascends-split :
    (base lo : ℕ) (ps qs : List RtpPacket)
    → Ascends base lo (ps ++ qs)
    → Ascends base lo ps × Ascends base (end base lo ps) qs
Ascends-split base lo [] qs a = (tt, a)
Ascends-split base lo (p ∷ ps) qs (h, l, r) =
    let (x, y) = Ascends-split base (offset base p.seq + 1) ps qs r in ((h, l, x), y)

-- A packet is late exactly when it lies below the floor.
pub late-floor :
    (base : ℕ) (j : JitterBuffer) (pkt : RtpPacket) (last : Option ℕ)
    → base < 65536
    → j.last_released ≡ last
    → LastInHalf base j
    → j.primed ≡ is_some last
    → InHalf base pkt
    → is_late j pkt.seq ≡ ltb (offset base pkt.seq) (floor base last)
unfolding is_late
late-floor base j pkt none hb e k pr h = rw pr (ground arith)
late-floor base j pkt (some l) hb e k pr h =
    let (lw, lh) = k l e in
    rw (pr, e)
      (ground
        (arith, seq_lt-offset base pkt.seq l hb h.0 lw h.1 lh, eq-offset base pkt.seq l hb h.0 lw))

release-last :
    (base lo : ℕ) (ps : List RtpPacket) (j : JitterBuffer)
    → Ascends base lo ps
    → LastInHalf base j
    → j.primed ≡ is_some j.last_released
    → LastInHalf base (release ps j).1
      × ((release ps j).1.primed ≡ is_some (release ps j).1.last_released)
unfolding release
release-last base lo [] j a k pr = (k, pr)
release-last base lo (p ∷ ps) j (h, l, r) k pr =
    let j' : JitterBuffer = record j { last_released = some p.seq; primed = true } in
    let rest = release-last base (offset base p.seq + 1) ps j' r (λ last e. ground arith) refl in
    elim (Bool-cases (ltb j.depth (length (p ∷ ps)))) [
      | inl over ↦ rw over rest
      | inr fits ↦ rw fits (k, pr)
    ]

-- What one arrival does, from a valid buffer.
pub record Plays (base : ℕ) (j : JitterBuffer) (r : List RtpPacket × JitterBuffer) : Type 0 where
  pub out_sorted : Ascends base (floor base j.last_released) r.0
  pub floor_moves : floor base r.1.last_released ≡ end base (floor base j.last_released) r.0
  pub valid : IsWindow base r.1
  pub at_most_one : length r.0 ≤ 1

length-insert : (pkt : RtpPacket) (ps : List RtpPacket) → length (insert pkt ps) ≡ length ps + 1
unfolding insert
length-insert pkt [] = omega arith
length-insert pkt (p ∷ ps) = ground (arith, length-insert pkt ps)

-- From a valid buffer an arrival plays at most one packet, past the last one played, and leaves a
-- valid buffer.
pub push-Plays :
    (base : ℕ) (j : JitterBuffer) (pkt : RtpPacket)
    → IsWindow base j
    → InHalf base pkt
    → Plays base j (push j pkt)
unfolding push
push-Plays base j pkt v h = elim (Bool-cases (is_late j pkt.seq)) [
  | inl late ↦ rw late same
  | inr fresh ↦ elim (Bool-cases (is_duplicate j.buf pkt.seq)) [
    | inl dup ↦ rw (fresh, dup) same
    | inr new ↦
        let past = ltb→le _ _ (
          sym (late-floor base j pkt j.last_released v.base_word refl v.last_in v.primed_iff h)
          ∙ fresh) in
        rw (fresh, new) (released (insert-Ascends base v.base_word pkt h _ j.buf past v.sorted new))
  ]
]
  where
    same : Plays base j ([], j)
    same = record { out_sorted = tt; floor_moves = refl; valid = v; at_most_one = omega arith }

    released :
        Ascends base (floor base j.last_released) (insert pkt j.buf)
        → Plays base j (release (insert pkt j.buf) j)
    released a =
        let ps = insert pkt j.buf in
        let (whole, fits, same_depth, count, moves) = release-split base ps j in
        let (out, kept) =
          Ascends-split base _ (release ps j).0 (release ps j).1.buf
            (subst (Ascends base _) (sym whole) a) in
        let (last_ok, primed_ok) = release-last base _ ps j a v.last_in v.primed_iff in
        record {
          out_sorted = out;
          floor_moves = moves;
          valid = record {
            base_word = v.base_word;
            sorted = rw moves kept;
            last_in = last_ok;
            primed_iff = primed_ok;
            bounded = omega arith;
            positive = omega (arith, v.positive);
          };
          at_most_one = omega (arith, v.bounded, length-insert pkt j.buf);
        }

run-plays :
    (base : ℕ) (j : JitterBuffer) (pkts : List RtpPacket)
    → IsWindow base j
    → All (InHalf base) pkts
    → Ascends base (floor base j.last_released) (run j pkts).0
      × (floor base (run j pkts).1.last_released
          ≡ end base (floor base j.last_released) (run j pkts).0)
      × IsWindow base (run j pkts).1
unfolding run
run-plays base j [] v hs = (tt, refl, v)
run-plays base j (pkt ∷ pkts) v (h, hs) =
    let first = push-Plays base j pkt v h in
    let (sorted, moves, valid) = run-plays base (push j pkt).1 pkts first.valid hs in
    (
      Ascends-append base _ (push j pkt).0 (run (push j pkt).1 pkts).0 first.out_sorted
          (subst (λ lo. Ascends base lo (run (push j pkt).1 pkts).0) first.floor_moves sorted),
      moves
          ∙ ap (λ lo. end base lo (run (push j pkt).1 pkts).0) first.floor_moves
          ∙ sym (end-append base _ (push j pkt).0 (run (push j pkt).1 pkts).0),
      valid,
    )

-- From a valid buffer, however packets less than half the sequence circle past its base arrive,
-- reordered, repeated or late: what is played out, followed by what the final drain returns, is
-- strictly ascending and past the last packet played before.
pub run-drain-Ascends :
    (base : ℕ) (j : JitterBuffer) (pkts : List RtpPacket)
    → IsWindow base j
    → All (InHalf base) pkts
    → Ascends base (floor base j.last_released) ((run j pkts).0 ++ (drain (run j pkts).1).0)
unfolding drain
run-drain-Ascends base j pkts v hs =
    let (sorted, moves, valid) = run-plays base j pkts v hs in
    Ascends-append base _ (run j pkts).0 (run j pkts).1.buf sorted
      (subst (λ lo. Ascends base lo (run j pkts).1.buf) moves valid.sorted)
