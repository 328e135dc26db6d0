-- ===== src/Rtp/Tests.antt =====
-- Runs of the RTP model on concrete datagrams and packets, and each result at an input that meets
-- its hypotheses.
use flowcat.Base.{ℕ, ◌≡◌, refl, true, false, List, [], ◌∷◌, arith, ok, err, index, slice_from}
use flowcat.Rtp.{
  RtpSender, with_seeds, packetize, depacketize, skip_extension, too_short, bad_version, truncated,
}
use flowcat.Rtp.RoundTrip.{sent, depacketize-packetize, after_run, samples, depacketize-after_run}
use flowcat.Rtp.Parse.{payload_start, fields, depacketize_lem}

abbrev sender : RtpSender
sender = with_seeds 8 0xdeadbeef 65535 4294967290

abbrev frame : List ℕ
frame = 1 ∷ 2 ∷ 3 ∷ []

packetize_runs : packetize sender frame ≡ (
  0x80 ∷ 8 ∷ 255 ∷ 255 ∷ 255 ∷ 255 ∷ 255 ∷ 250 ∷ 0xde ∷ 0xad ∷ 0xbe ∷ 0xef ∷ 1 ∷ 2 ∷ 3 ∷ [],
  with_seeds 8 0xdeadbeef 0 4294967293,
)
unfolding packetize
packetize_runs = refl

-- One CSRC and an extension of one word stand before the payload.
abbrev extended : List ℕ
extended =
    0x91 ∷ 0x88 ∷ 0 ∷ 7 ∷ 0 ∷ 0 ∷ 0 ∷ 160 ∷ 0 ∷ 0 ∷ 0 ∷ 1 ∷ 9 ∷ 9 ∷ 9 ∷ 9 ∷ 0xbe ∷ 0xde ∷ 0 ∷ 1 ∷ 7
    ∷ 7 ∷ 7 ∷ 7 ∷ 42 ∷ 43 ∷ []

depacketize_runs :
    depacketize extended
    ≡ ok (record {
      payload_type = 8;
      seq = 7;
      timestamp = 160;
      ssrc = 1;
      marker = true;
      payload = 42 ∷ 43 ∷ [];
    })
unfolding depacketize skip_extension index slice_from
depacketize_runs = refl

depacketize_errors :
    (depacketize (0x80 ∷ []) ≡ err too_short)
    × (depacketize (0x40 ∷ 0 ∷ 0 ∷ 0 ∷ 0 ∷ 0 ∷ 0 ∷ 0 ∷ 0 ∷ 0 ∷ 0 ∷ 0 ∷ []) ≡ err (bad_version 1))
    × (depacketize (0x81 ∷ 0 ∷ 0 ∷ 0 ∷ 0 ∷ 0 ∷ 0 ∷ 0 ∷ 0 ∷ 0 ∷ 0 ∷ 0 ∷ []) ≡ err truncated)
unfolding depacketize index slice_from
depacketize_errors = (refl, refl, refl)

depacketize-packetize_example : depacketize (packetize sender frame).0 ≡ ok (sent sender frame)
depacketize-packetize_example = depacketize-packetize sender frame (omega arith)

depacketize-after_run_example :
    depacketize (packetize (after_run sender (frame ∷ frame ∷ [])) (9 ∷ [])).0
    ≡ ok (record {
      payload_type = 8;
      seq = 1;
      timestamp = 0;
      ssrc = 0xdeadbeef;
      marker = false;
      payload = 9 ∷ [];
    })
unfolding samples
depacketize-after_run_example =
    depacketize-after_run sender (frame ∷ frame ∷ []) (9 ∷ []) (omega arith)

depacketize_lem_example : depacketize extended ≡ ok (fields extended)
unfolding payload_start
depacketize_lem_example = depacketize_lem extended
