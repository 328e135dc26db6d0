-- ===== src/Rtp/Parse.antt =====
-- What the parser makes of any datagram: no access is out of bounds, each error has its cause, and
-- the payload starts just past the CSRC list and the header extension.
use Prim.Native.Nat.{bit_and}
use flowcat.Base.{
  ℕ, ◌+◌, ◌*◌, ◌/◌, ◌^◌, ◌≤◌, ◌≡◌, refl, inl, inr, Bool, true, false, not, List, drop, length,
  arith, ltb, ◌==◌, ok, err, slice_from, index-in_bounds, slice_from-in_bounds, get_or,
  if◌then◌else◌, Bool-cases, ltb→le, le→ltb, lt→ltb, ltb→lt, fail_if_lem, fail_if, ◌>>=◌, ◌>>◌, ◌∙◌,
  ==→eq,
}
use flowcat.Base.Bytes.{from_be16, from_be32}
use flowcat.Rtp.{RtpPacket, Parsed, too_short, bad_version, truncated, skip_extension, depacketize}

-- The byte at an index, 0 past the end.
abbrev pub byte : List ℕ → ℕ → ℕ
byte buf i = get_or buf i 0

abbrev csrc_end : List ℕ → ℕ
csrc_end buf = 12 + bit_and (byte buf 0) 0x0f * 4

abbrev extension_end : List ℕ → ℕ → ℕ
extension_end buf offset =
    offset + (4 + from_be16 (byte buf (offset + 2)) (byte buf (offset + 3)) * 4)

abbrev has_extension : List ℕ → Bool
has_extension buf = not (bit_and (byte buf 0) 0x10 == 0)

-- The index at which the payload starts, as the header claims.
unfoldable pub payload_start : List ℕ → ℕ
payload_start buf = if has_extension buf then extension_end buf (csrc_end buf) else csrc_end buf

pub fields : List ℕ → RtpPacket
fields buf = record {
  payload_type = bit_and (byte buf 1) 0x7f;
  seq = from_be16 (byte buf 2) (byte buf 3);
  timestamp = from_be32 (byte buf 4) (byte buf 5) (byte buf 6) (byte buf 7);
  ssrc = from_be32 (byte buf 8) (byte buf 9) (byte buf 10) (byte buf 11);
  marker = not (bit_and (byte buf 1) 0x80 == 0);
  payload = drop (payload_start buf) buf;
}

skip_extension_lem :
    (buf : List ℕ) (offset : ℕ)
    → skip_extension buf offset ≡ (
        if ltb (length buf) (extension_end buf offset)
        then err truncated
        else ok (extension_end buf offset))
unfolding skip_extension
skip_extension_lem buf offset = elim (Bool-cases (ltb (length buf) (offset + 4))) [
  | inl short ↦
      rw (short, lt→ltb (length buf) (extension_end buf offset) (omega (arith, ltb→lt _ _ short)))
  | inr long ↦
      let enough = ltb→le _ _ long in
      rw
        (
          long,
          index-in_bounds buf (offset + 2) 0 (omega arith),
          index-in_bounds buf (offset + 3) 0 (omega arith),
        )
        (fail_if_lem (ltb (length buf) (extension_end buf offset)) truncated
          (ok (extension_end buf offset)))
]

-- An early return leaves a bind.
if_bind :
    (n : ℕ) (b : Bool) (f : ℕ → Parsed RtpPacket)
    → ((if b then err truncated else ok n) >>= f) ≡ (if b then err truncated else f n)
if_bind n true f = refl
if_bind n false f = refl

-- Past the length test the slice is in bounds.
if_slice :
    (buf : List ℕ) (n : ℕ) (g : List ℕ → RtpPacket)
    → (if ltb (length buf) n
        then err truncated
        else (slice_from buf n >>= λ payload. ok (g payload)))
      ≡ (let r : Parsed RtpPacket =
            if ltb (length buf) n then err truncated else ok (g (drop n buf)) in
          r)
if_slice buf n g = elim (Bool-cases (ltb (length buf) n)) [
  | inl short ↦ rw short
  | inr long ↦ rw (long, slice_from-in_bounds buf n (ltb→le (length buf) n long))
]

-- The two skips end at `payload_start`, or the datagram is shorter than that.
start_lem :
    (buf : List ℕ) (f : ℕ → Parsed RtpPacket)
    → (fail_if (ltb (length buf) (csrc_end buf)) truncated
        >> ((if has_extension buf then skip_extension buf (csrc_end buf) else ok (csrc_end buf))
            >>= f))
      ≡ (if ltb (length buf) (payload_start buf) then err truncated else f (payload_start buf))
unfolding payload_start
start_lem buf f = elim (Bool-cases (has_extension buf)) [
  | inl ext ↦
      rw (ext, skip_extension_lem buf (csrc_end buf))
        (elim (Bool-cases (ltb (length buf) (csrc_end buf))) [
          | inl short ↦ rw (
            short,
            lt→ltb (length buf) (extension_end buf (csrc_end buf))
                (omega (arith, ltb→lt _ _ short)),
          )
          | inr long ↦ rw long (
              if_bind (extension_end buf (csrc_end buf))
                (ltb (length buf) (extension_end buf (csrc_end buf))) f)
        ])
  | inr plain ↦
      rw plain (fail_if_lem (ltb (length buf) (csrc_end buf)) truncated (f (csrc_end buf)))
]

-- On a long enough datagram of version 2 the header is read in bounds, and what remains is to find
-- where the payload starts.
depacketize_long :
    (buf : List ℕ)
    → 12 ≤ length buf
    → byte buf 0 / 2 ^ 6 ≡ 2
    → depacketize buf
      ≡ (if ltb (length buf) (payload_start buf) then err truncated else ok (fields buf))
unfolding depacketize payload_start fields
depacketize_long buf h v2 =
    rw
      (
        le→ltb (length buf) 12 h,
        index-in_bounds buf 0 0 (omega arith),
        v2,
        index-in_bounds buf 1 0 (omega arith),
        index-in_bounds buf 2 0 (omega arith),
        index-in_bounds buf 3 0 (omega arith),
        index-in_bounds buf 4 0 (omega arith),
        index-in_bounds buf 5 0 (omega arith),
        index-in_bounds buf 6 0 (omega arith),
        index-in_bounds buf 7 0 (omega arith),
        index-in_bounds buf 8 0 (omega arith),
        index-in_bounds buf 9 0 (omega arith),
        index-in_bounds buf 10 0 (omega arith),
        index-in_bounds buf 11 0 (omega arith),
      )
      (start_lem buf _
        ∙ if_slice buf (payload_start buf) (λ payload. record (fields buf) { payload = payload }))

depacketize_short : (buf : List ℕ) → ltb (length buf) 12 ≡ true → depacketize buf ≡ err too_short
unfolding depacketize
depacketize_short buf short = rw short

depacketize_version :
    (buf : List ℕ)
    → ltb (length buf) 12 ≡ false
    → (byte buf 0 / 2 ^ 6 == 2) ≡ false
    → depacketize buf ≡ err (bad_version (byte buf 0 / 2 ^ 6))
unfolding depacketize
depacketize_version buf long other =
    let enough = ltb→le (length buf) 12 long in
    rw (long, index-in_bounds buf 0 0 (omega arith), other)

-- The parser against a flat description: a datagram shorter than 12 bytes is `too_short`; then a
-- version other than 2 is `bad_version`; then one shorter than its header claims is `truncated`;
-- any other yields the header's fields and all bytes from the claimed start on. So no access is out
-- of bounds.
pub depacketize_lem :
    (buf : List ℕ)
    → depacketize buf ≡ (
        if ltb (length buf) 12
        then err too_short
        else if not (byte buf 0 / 2 ^ 6 == 2)
        then err (bad_version (byte buf 0 / 2 ^ 6))
        else if ltb (length buf) (payload_start buf)
        then err truncated
        else ok (fields buf))
depacketize_lem buf = elim (Bool-cases (ltb (length buf) 12)) [
  | inl short ↦ rw short (depacketize_short buf short)
  | inr long ↦ elim (Bool-cases (byte buf 0 / 2 ^ 6 == 2)) [
    | inl v2 ↦ rw (long, v2) (depacketize_long buf (ltb→le (length buf) 12 long) (==→eq _ _ v2))
    | inr other ↦ rw (long, other) (depacketize_version buf long other)
  ]
]
