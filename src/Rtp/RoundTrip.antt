-- ===== src/Rtp/RoundTrip.antt =====
-- What the sender writes, the receiver reads back.
use Prim.Native.Nat.{bit_and}
use flowcat.Base.{
  ap, ◌∙◌, ℕ, ◌+◌, ◌%◌, ◌^◌, ◌<◌, ◌≡◌, false, List, [], ◌∷◌, ◌++◌, length, arith, ok, index,
  slice_from, le→ltb,
}
use flowcat.Base.Bytes.{and_0x7f, and_0x80, from_be16-be16, from_be32-be32}
use flowcat.Rtp.{RtpPacket, RtpSender, IsSender, packetize, depacketize, header}

abbrev pub sent : RtpSender → List ℕ → RtpPacket
sent s payload = record {
  payload_type = s.payload_type % 128;
  seq = s.seq;
  timestamp = s.timestamp;
  ssrc = s.ssrc;
  marker = false;
  payload = payload;
}

-- The marker bit of the header's second byte is clear, and its low bits are the payload type's.
header_byte_1 :
    (pt : ℕ)
    → pt < 256
    → (bit_and (bit_and pt 0x7f) 0x80 ≡ 0) × (bit_and (bit_and pt 0x7f) 0x7f ≡ pt % 128)
header_byte_1 pt h =
    rw (and_0x7f pt h, and_0x80 (pt % 128) (omega arith), and_0x7f (pt % 128) (omega arith))
      (omega arith, omega arith)

-- Whatever the sender packetizes parses back: the same sequence number, timestamp, SSRC and payload,
-- the payload type in its low seven bits, and the marker clear.
pub depacketize-packetize :
    (s : RtpSender) (payload : List ℕ)
    → IsSender s
    → depacketize (packetize s payload).0 ≡ ok (sent s payload)
unfolding depacketize packetize index slice_from
depacketize-packetize s payload v =
    let (clear, low) = header_byte_1 s.payload_type v.type_byte in
    rw (
      le→ltb (length (header s ++ payload)) 12 (omega arith),
      clear,
      low,
      from_be16-be16 s.seq v.seq_word,
      from_be32-be32 s.timestamp v.timestamp_word,
      from_be32-be32 s.ssrc v.ssrc_word,
    )

pub packetize-IsSender :
    (s : RtpSender) (payload : List ℕ) → IsSender s → IsSender (packetize s payload).1
unfolding packetize
packetize-IsSender s payload v = omega arith

-- The sender after a run of payloads, and the number of samples in the run.
pub after_run : RtpSender → List (List ℕ) → RtpSender
after_run s [] = s
after_run s (p ∷ ps) = after_run (packetize s p).1 ps

unfoldable pub samples : List (List ℕ) → ℕ
samples [] = 0
samples (p ∷ ps) = length p + samples ps

after_run-IsSender : (s : RtpSender) (ps : List (List ℕ)) → IsSender s → IsSender (after_run s ps)
unfolding after_run
after_run-IsSender s [] v = v
after_run-IsSender s (p ∷ ps) v = after_run-IsSender (packetize s p).1 ps (packetize-IsSender s p v)

after_run_lem :
    (s : RtpSender) (ps : List (List ℕ))
    → IsSender s
    → after_run s ps ≡ record s {
      seq = (s.seq + length ps) % 2 ^ 16;
      timestamp = (s.timestamp + samples ps) % 2 ^ 32;
    }
unfolding after_run samples packetize
after_run_lem s [] v = ground arith
after_run_lem s (p ∷ ps) v =
    ground (arith, after_run_lem (packetize s p).1 ps (packetize-IsSender s p v))

-- From a sender whose fields fit their widths and after any run of payloads, the next datagram
-- carries the low seven bits of the payload type, a sequence number that counts the run's packets
-- (mod 2^16), a timestamp that counts its samples (mod 2^32), and its own payload.
pub depacketize-after_run :
    (s : RtpSender) (ps : List (List ℕ)) (payload : List ℕ)
    → IsSender s
    → depacketize (packetize (after_run s ps) payload).0
      ≡ ok (record {
        payload_type = s.payload_type % 128;
        seq = (s.seq + length ps) % 2 ^ 16;
        timestamp = (s.timestamp + samples ps) % 2 ^ 32;
        ssrc = s.ssrc;
        marker = false;
        payload = payload;
      })
depacketize-after_run s ps payload v =
    depacketize-packetize (after_run s ps) payload (after_run-IsSender s ps v)
    ∙ ap (λ t. ok (sent t payload)) (after_run_lem s ps v)
