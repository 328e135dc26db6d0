-- ===== src/Rtp.antt =====
-- flowcat-core/src/sip/rtp.rs: RTP packets for G.711, the sender's state and the wire format.
-- The jitter buffer is in the child Jitter.
pub mod RoundTrip
pub mod Parse
pub mod Jitter
mod Tests
use Prim.Native.Nat.{bit_and}
use flowcat.Base.{
  ℕ, ◌+◌, ◌*◌, ◌/◌, ◌%◌, ◌^◌, ◌<◌, Bool, not, List, [], ◌∷◌, ◌++◌, length, ltb, ◌==◌, Outcome, ok,
  err, ◌>>=◌, ◌>>◌, fail_if, index, slice_from, if◌then◌else◌,
}
use flowcat.Base.Bytes.{be16, be32, from_be16, from_be32}

abbrev pub rtp_version : ℕ
rtp_version = 2

abbrev pub rtp_header_len : ℕ
rtp_header_len = 12

-- `RtpPacket`; the bytes of a payload are numbers.
pub record RtpPacket : Type 0 where
  pub payload_type : ℕ
  pub seq : ℕ
  pub timestamp : ℕ
  pub ssrc : ℕ
  pub marker : Bool
  pub payload : List ℕ

pub data RtpParseError : Type 0 where
  too_short : RtpParseError
  bad_version : ℕ → RtpParseError
  truncated : RtpParseError

pub record RtpSender : Type 0 where
  pub ssrc : ℕ
  pub payload_type : ℕ
  pub seq : ℕ
  pub timestamp : ℕ

-- `RtpSender::with_seeds`; `new` calls it with three random words.
abbrev pub with_seeds : ℕ → ℕ → ℕ → ℕ → RtpSender
with_seeds payload_type ssrc seq timestamp = record {
  ssrc = ssrc;
  payload_type = payload_type;
  seq = seq;
  timestamp = timestamp;
}

-- The fields hold a u8, a u16 and two u32.
pub record IsSender (s : RtpSender) : Type 0 where
  pub type_byte : s.payload_type < 2 ^ 8
  pub seq_word : s.seq < 2 ^ 16
  pub timestamp_word : s.timestamp < 2 ^ 32
  pub ssrc_word : s.ssrc < 2 ^ 32

-- The header that `packetize` writes: byte 0 is `RTP_VERSION << 6`.
abbrev pub header : RtpSender → List ℕ
header s =
    rtp_version * 2 ^ 6 % 2 ^ 8 ∷ bit_and s.payload_type 0x7f ∷ be16 s.seq
    ++ (be32 s.timestamp ++ be32 s.ssrc)

-- `RtpSender::packetize`: the datagram and the advanced sender.
pub packetize : RtpSender → List ℕ → List ℕ × RtpSender
packetize s payload = (
  header s ++ payload,
  record s {
    seq = (s.seq + 1) % 2 ^ 16;
    timestamp = (s.timestamp + length payload % 2 ^ 32) % 2 ^ 32;
  },
)

abbrev pub Parsed : Type 0 → Type 0
Parsed A = Outcome RtpParseError A

-- Where the payload starts: past the CSRC list, and past the header extension if there is one.
pub skip_extension : List ℕ → ℕ → Parsed ℕ
skip_extension buf offset = do
  fail_if (ltb (length buf) (offset + 4)) truncated
  hi ← index buf (offset + 2)
  lo ← index buf (offset + 3)
  let ext_words = from_be16 hi lo
  let past = offset + (4 + ext_words * 4)
  fail_if (ltb (length buf) past) truncated
  ok past

-- `depacketize`
pub depacketize : List ℕ → Parsed RtpPacket
depacketize buf = do
  fail_if (ltb (length buf) rtp_header_len) too_short
  b0 ← index buf 0
  let version = b0 / 2 ^ 6
  fail_if (not (version == rtp_version)) (bad_version version)
  let has_extension = not (bit_and b0 0x10 == 0)
  let csrc_count = bit_and b0 0x0f
  b1 ← index buf 1
  let marker = not (bit_and b1 0x80 == 0)
  let payload_type = bit_and b1 0x7f
  s0 ← index buf 2
  s1 ← index buf 3
  t0 ← index buf 4
  t1 ← index buf 5
  t2 ← index buf 6
  t3 ← index buf 7
  c0 ← index buf 8
  c1 ← index buf 9
  c2 ← index buf 10
  c3 ← index buf 11
  let offset = rtp_header_len + csrc_count * 4
  fail_if (ltb (length buf) offset) truncated
  start ← if has_extension then skip_extension buf offset else ok offset
  payload ← slice_from buf start
  ok (record {
    payload_type = payload_type;
    seq = from_be16 s0 s1;
    timestamp = from_be32 t0 t1 t2 t3;
    ssrc = from_be32 c0 c1 c2 c3;
    marker = marker;
    payload = payload;
  })
