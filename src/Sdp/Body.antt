-- ===== src/Sdp/Body.antt =====
-- flowcat-core/src/sip/sdp.rs: a description that is built is read back.
use flowcat.Base.{
  ℕ, ◌<◌, ◌≡◌, refl, ap, ap₂, ◌∙◌, Bool, true, false, not, ◌&&◌, List, [], ◌∷◌, ◌++◌, Option, none,
  some, ◌==◌, All, map, arith, ok, if_false, All-append,
}
use flowcat.Base.Text.{codes, is_whitespace, starts_with}
use flowcat.Base.Values.{filter_map}
use flowcat.Base.Scan.{words, strip_prefix}
use flowcat.Base.Decimal.{show, is_digit_char, parse_unsigned}
use flowcat.Sdp.{
  G711Codec, pcmu, pcma, payload_type, Ipv4Addr, show_ip, join_pts, rtpmap_line, body_lines,
  build_sdp, build_offer, build_answer, Scan, unscanned, on_line, on_audio, on_address, scan_lines,
  first_codec, media_of, parse_sdp, with_codec,
}
use flowcat.Sdp.Words.{
  IsAddress, all-implied, all-append, all-show, is_dotted, dotted-show_ip, show-IsWord, words-one,
  words-more, parse_unsigned-show, parse_connection-show_ip,
}
use flowcat.Sdp.Lines.{IsLine, lines-with_ends}

abbrev ends_no_line : ℕ → Bool
ends_no_line c = not (c == 10) && not (c == 13)

show-IsLine : (n : ℕ) → IsLine (show n)
unfolding is_digit_char
show-IsLine n = all-implied is_digit_char ends_no_line (λ c h. ground arith) (show n) (all-show n)

show_ip-IsLine : (ip : Ipv4Addr) → IsLine (show_ip ip)
unfolding is_digit_char
show_ip-IsLine ip =
    all-implied is_dotted ends_no_line (λ c h. ground arith) (show_ip ip) (dotted-show_ip ip)

join_pts-IsLine : (cs : List G711Codec) → IsLine (join_pts cs)
unfolding join_pts
join_pts-IsLine [] = refl
join_pts-IsLine (c ∷ []) = show-IsLine (payload_type c)
join_pts-IsLine (c ∷ d ∷ cs) =
    all-append ends_no_line (show (payload_type c)) (32 ∷ join_pts (d ∷ cs))
      (show-IsLine (payload_type c)) (join_pts-IsLine (d ∷ cs))

rtpmap_line-IsLine : (c : G711Codec) → IsLine (rtpmap_line c)
unfolding rtpmap_line
rtpmap_line-IsLine pcmu = refl
rtpmap_line-IsLine pcma = refl

rtpmap_lines-IsLine : (cs : List G711Codec) → All IsLine (map rtpmap_line cs)
rtpmap_lines-IsLine [] = tt
rtpmap_lines-IsLine (c ∷ cs) = (rtpmap_line-IsLine c, rtpmap_lines-IsLine cs)

body_lines-IsLine :
    (ip : Ipv4Addr) (port : ℕ) (cs : List G711Codec) → All IsLine (body_lines ip port cs)
unfolding body_lines
body_lines-IsLine ip port cs = (
  refl,
  (
    show_ip-IsLine ip,
    (
      refl,
      (
        show_ip-IsLine ip,
        (
          refl,
          (
            all-append ends_no_line (show port) (32 ∷ (codes "RTP/AVP " ++ join_pts cs))
                (show-IsLine port) (join_pts-IsLine cs),
            All-append IsLine (map rtpmap_line cs) (codes "a=ptime:20" ∷ codes "a=sendrecv" ∷ [])
                (rtpmap_lines-IsLine cs) (refl, (refl, tt)),
          ),
        ),
      ),
    ),
  ),
)

-- The attributes say nothing that the parser reads.
attributes-ignored :
    (cs : List G711Codec) (s : Scan)
    → scan_lines (map rtpmap_line cs ++ codes "a=ptime:20" ∷ codes "a=sendrecv" ∷ []) s ≡ s
unfolding scan_lines on_line rtpmap_line
attributes-ignored [] s = refl
attributes-ignored (pcmu ∷ cs) s = attributes-ignored cs s
attributes-ignored (pcma ∷ cs) s = attributes-ignored cs s

payload_type-lt : (c : G711Codec) → payload_type c < 256
unfolding payload_type
payload_type-lt pcmu = omega arith
payload_type-lt pcma = omega arith

words-join_pts :
    (c : G711Codec) (cs : List G711Codec)
    → words (join_pts (c ∷ cs)) ≡ map (λ x. show (payload_type x)) (c ∷ cs)
unfolding join_pts is_whitespace
words-join_pts c [] = words-one (show (payload_type c)) (show-IsWord (payload_type c))
words-join_pts c (d ∷ cs) =
    words-more (show (payload_type c)) 32 (join_pts (d ∷ cs)) (show-IsWord (payload_type c)) refl
    ∙ ap (λ ws. show (payload_type c) ∷ ws) (words-join_pts d cs)

parsed-pts :
    (cs : List G711Codec)
    → filter_map (parse_unsigned 256) (map (λ x. show (payload_type x)) cs) ≡ map payload_type cs
parsed-pts [] = refl
parsed-pts (c ∷ cs) =
    ap₂ (λ (o : Option ℕ) (rest : List ℕ). elim o [ none ↦ rest | some b ↦ b ∷ rest ])
      (parse_unsigned-show 256 (payload_type c) (payload_type-lt c)) (parsed-pts cs)

first_codec-payload : (c : G711Codec) (pts : List ℕ) → first_codec (payload_type c ∷ pts) ≡ some c
unfolding first_codec payload_type
first_codec-payload pcmu pts = refl
first_codec-payload pcma pts = refl

zero_test : (port : ℕ) → 0 < port → (port == 0) ≡ false
zero_test port h = ground arith

origin-line : (ip : Ipv4Addr) (s : Scan) → on_line (codes "o=- 0 0 IN IP4 " ++ show_ip ip) s ≡ s
unfolding on_line strip_prefix starts_with
origin-line ip s = refl

plain-lines :
    (s : Scan)
    → (on_line (codes "v=0") s ≡ s)
      × ((on_line (codes "s=flowcat") s ≡ s) × (on_line (codes "t=0 0") s ≡ s))
unfolding on_line strip_prefix starts_with
plain-lines s = (refl, (refl, refl))

module _ (ip : Ipv4Addr) (port : ℕ) (c : G711Codec) (cs : List G711Codec) (address : IsAddress ip)
    (bound : port < 65536) where
  audio-words :
      words (show port ++ 32 ∷ (codes "RTP/AVP " ++ join_pts (c ∷ cs)))
      ≡ show port ∷ codes "RTP/AVP" ∷ map (λ x. show (payload_type x)) (c ∷ cs)
  unfolding is_whitespace
  audio-words =
      words-more (show port) 32 (codes "RTP/AVP " ++ join_pts (c ∷ cs)) (show-IsWord port) refl
      ∙ ap (λ ws. show port ∷ ws)
          (words-more (codes "RTP/AVP") 32 (join_pts (c ∷ cs)) (refl, refl) refl
            ∙ ap (λ ws. codes "RTP/AVP" ∷ ws) (words-join_pts c cs))

  -- What the lines say.
  abbrev found : Scan
  found = record {
    session_ip = some ip;
    media_ip = none;
    port = some port;
    media_pts = map payload_type (c ∷ cs);
    in_audio = true;
    seen_audio = true;
  }

  connection-line :
      on_line (codes "c=IN IP4 " ++ show_ip ip) unscanned
      ≡ record unscanned { session_ip = some ip }
  unfolding on_line strip_prefix starts_with
  connection-line = ap (λ o. on_address o unscanned) (parse_connection-show_ip ip address)

  media-line :
      on_line
        (codes "m=audio " ++ (show port ++ 32 ∷ (codes "RTP/AVP " ++ join_pts (c ∷ cs))))
        (record unscanned { session_ip = some ip })
      ≡ found
  unfolding on_line strip_prefix starts_with
  media-line =
      ap (λ ws. on_audio ws (record unscanned { session_ip = some ip })) audio-words
      ∙ ap
          (λ o. record found {
            port = o;
            media_pts = filter_map (parse_unsigned 256) (map (λ x. show (payload_type x)) (c ∷ cs));
          })
          (parse_unsigned-show 65536 port bound)
      ∙ ap (λ pts. record found { media_pts = pts }) (parsed-pts (c ∷ cs))

  scan_lines-body : scan_lines (body_lines ip port (c ∷ cs)) unscanned ≡ found
  unfolding scan_lines body_lines
  scan_lines-body =
      let attributes = map rtpmap_line (c ∷ cs) ++ codes "a=ptime:20" ∷ codes "a=sendrecv" ∷ [] in
      let origin = codes "o=- 0 0 IN IP4 " ++ show_ip ip in
      let connection = codes "c=IN IP4 " ++ show_ip ip in
      let media = codes "m=audio " ++ (show port ++ 32 ∷ (codes "RTP/AVP " ++ join_pts (c ∷ cs))) in
      ap (scan_lines (origin ∷ codes "s=flowcat" ∷ connection ∷ codes "t=0 0" ∷ media ∷ attributes))
        (plain-lines unscanned).0
      ∙ ap (scan_lines (codes "s=flowcat" ∷ connection ∷ codes "t=0 0" ∷ media ∷ attributes))
          (origin-line ip unscanned)
      ∙ ap (scan_lines (connection ∷ codes "t=0 0" ∷ media ∷ attributes))
          (plain-lines unscanned).1.0
      ∙ ap (scan_lines (codes "t=0 0" ∷ media ∷ attributes)) connection-line
      ∙ ap (scan_lines (media ∷ attributes))
          (plain-lines (record unscanned { session_ip = some ip })).1.1
      ∙ ap (scan_lines attributes) media-line
      ∙ attributes-ignored (c ∷ cs) found

  parse_sdp-build_sdp :
      0 < port
      → parse_sdp (build_sdp ip port (c ∷ cs)) ≡ ok (record { ip = ip; port = port; codec = c })
  unfolding parse_sdp build_sdp media_of
  parse_sdp-build_sdp pos =
      ap (λ ls. media_of (scan_lines ls unscanned))
        (lines-with_ends (body_lines ip port (c ∷ cs)) (body_lines-IsLine ip port (c ∷ cs)))
      ∙ ap media_of scan_lines-body
      ∙ if_false _ _ (zero_test port pos)
      ∙ ap (with_codec ip port) (first_codec-payload c (map payload_type cs))

-- Read back, a description that is built gives its address and its port, and the first codec that it lists: an offer is
-- for PCMU, and an answer for the codec that it commits to. The port is not zero, and an address is four numbers
-- below 256.
pub parse_sdp-build :
    (ip : Ipv4Addr) (port : ℕ)
    → IsAddress ip
    → 0 < port
    → port < 65536
    → (parse_sdp (build_offer ip port) ≡ ok (record { ip = ip; port = port; codec = pcmu }))
      × ((codec : G711Codec)
          → parse_sdp (build_answer ip port codec)
            ≡ ok (record { ip = ip; port = port; codec = codec }))
unfolding build_offer build_answer
parse_sdp-build ip port address pos bound = (
  parse_sdp-build_sdp ip port pcmu (pcma ∷ []) address bound pos,
  λ codec. parse_sdp-build_sdp ip port codec [] address bound pos,
)
