-- ===== src/Sdp/Tests.antt =====
-- flowcat-core/src/sip/sdp.rs: descriptions of the source's tests.
use flowcat.Base.{◌≡◌, refl, true, [], ◌∷◌, ok, err, arith}
use flowcat.Base.Text.{codes}
use flowcat.Sdp.{
  G711Codec, pcmu, pcma, Ipv4Addr, build_offer, build_answer, parse_sdp, with_ends, no_audio_media,
  no_connection, bad_port, no_supported_codec, Scan, scan_lines, unscanned,
}
use flowcat.Sdp.Body.{parse_sdp-build}
use flowcat.Sdp.First.{SameStream, scan_lines-SameStream}

abbrev home : Ipv4Addr
home = record { a = 192; b = 168; c = 0; d = 7 }

parse_sdp-build_example :
    (parse_sdp (build_offer home 4000) ≡ ok (record { ip = home; port = 4000; codec = pcmu }))
    × ((codec : G711Codec)
        → parse_sdp (build_answer home 4000 codec)
          ≡ ok (record { ip = home; port = 4000; codec = codec }))
parse_sdp-build_example =
    parse_sdp-build home 4000 (omega arith, (omega arith, (omega arith, omega arith))) (omega arith)
      (omega arith)

prefers_first :
    parse_sdp (with_ends (codes "c=IN IP4 10.0.0.1/127" ∷ codes "m=audio 9 RTP/AVP 101 8 0" ∷ []))
    ≡ ok (record { ip = record { a = 10; b = 0; c = 0; d = 1 }; port = 9; codec = pcma })
unfolding parse_sdp with_ends
prefers_first = refl

declines_port_zero :
    parse_sdp (with_ends (codes "c=IN IP4 10.0.0.1" ∷ codes "m=audio 0 RTP/AVP 0" ∷ []))
    ≡ err bad_port
unfolding parse_sdp with_ends
declines_port_zero = refl

lacks_connection : parse_sdp (with_ends (codes "m=audio 9 RTP/AVP 0" ∷ [])) ≡ err no_connection
unfolding parse_sdp with_ends
lacks_connection = refl

lacks_codec :
    parse_sdp (with_ends (codes "c=IN IP4 10.0.0.1" ∷ codes "m=audio 9 RTP/AVP 18" ∷ []))
    ≡ err no_supported_codec
unfolding parse_sdp with_ends
lacks_codec = refl

lacks_audio : parse_sdp (codes "v=0") ≡ err no_audio_media
unfolding parse_sdp
lacks_audio = refl

abbrev committed : Scan
committed = record unscanned { seen_audio = true; media_pts = 0 ∷ [] }

scan_lines-SameStream_example :
    SameStream committed
      (scan_lines (codes "m=audio 9 RTP/AVP 8" ∷ codes "c=IN IP4 10.0.0.1" ∷ []) committed)
scan_lines-SameStream_example =
    scan_lines-SameStream (codes "m=audio 9 RTP/AVP 8" ∷ codes "c=IN IP4 10.0.0.1" ∷ []) committed
      refl
