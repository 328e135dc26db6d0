-- ===== src/Sdp.antt =====
-- flowcat-core/src/sip/sdp.rs: the session descriptions that offer and answer one stream of G.711
-- audio. A text is its code points; the address is its four numbers.
pub mod Words
pub mod Lines
pub mod Body
pub mod First
mod Tests
use flowcat.Base.{
  ℕ, Bool, true, false, not, ◌&&◌, List, [], ◌∷◌, ◌++◌, Option, none, some, if◌then◌else◌, ◌==◌,
  map, Outcome, ok, err,
}
use flowcat.Base.Text.{Text, codes, text_eq, is_empty}
use flowcat.Base.Values.{and_then, map_some, or_else, filter_map}
use flowcat.Base.Scan.{trim_end_by, strip_prefix, split, words}
use flowcat.Base.Decimal.{show, digits, parse_unsigned}

pub data G711Codec : Type 0 where
  pcmu pcma : G711Codec

-- `PT_PCMU` and `PT_PCMA` of sip/rtp.rs
unfoldable pub payload_type : G711Codec → ℕ
payload_type pcmu = 0
payload_type pcma = 8

unfoldable pub rtpmap_name : G711Codec → Text
rtpmap_name pcmu = codes "PCMU"
rtpmap_name pcma = codes "PCMA"

unfoldable pub from_payload_type : ℕ → Option G711Codec
from_payload_type pt = if pt == 0 then some pcmu else if pt == 8 then some pcma else none

-- `Ipv4Addr`
pub record Ipv4Addr : Type 0 where
  pub a : ℕ
  pub b : ℕ
  pub c : ℕ
  pub d : ℕ

pub record SdpMedia : Type 0 where
  pub ip : Ipv4Addr
  pub port : ℕ
  pub codec : G711Codec

-- The `Display` of an address.
unfoldable pub show_ip : Ipv4Addr → Text
unfolding show
show_ip ip = show ip.a ++ 46 ∷ (show ip.b ++ 46 ∷ (show ip.c ++ 46 ∷ show ip.d))

-- `pts.join(" ")`
unfoldable pub join_pts : List G711Codec → Text
unfolding show payload_type
join_pts [] = []
join_pts (c ∷ []) = show (payload_type c)
join_pts (c ∷ d ∷ cs) = show (payload_type c) ++ 32 ∷ join_pts (d ∷ cs)

unfoldable pub rtpmap_line : G711Codec → Text
unfolding show payload_type rtpmap_name
rtpmap_line c =
    codes "a=rtpmap:" ++ (show (payload_type c) ++ 32 ∷ (rtpmap_name c ++ codes "/8000"))

-- The lines of the body, which the code pushes one by one.
unfoldable pub body_lines : Ipv4Addr → ℕ → List G711Codec → List Text
unfolding show_ip join_pts rtpmap_line show
body_lines ip port codecs =
    codes "v=0"
    ∷ (codes "o=- 0 0 IN IP4 " ++ show_ip ip)
    ∷ codes "s=flowcat"
    ∷ (codes "c=IN IP4 " ++ show_ip ip)
    ∷ codes "t=0 0"
    ∷ (codes "m=audio " ++ (show port ++ 32 ∷ (codes "RTP/AVP " ++ join_pts codecs)))
    ∷ (map rtpmap_line codecs ++ codes "a=ptime:20" ∷ codes "a=sendrecv" ∷ [])

-- Each line with its `\r\n`.
unfoldable pub with_ends : List Text → Text
with_ends [] = []
with_ends (l ∷ ls) = l ++ 13 ∷ 10 ∷ with_ends ls

unfoldable pub build_sdp : Ipv4Addr → ℕ → List G711Codec → Text
unfolding body_lines with_ends
build_sdp ip port codecs = with_ends (body_lines ip port codecs)

unfoldable pub build_offer : Ipv4Addr → ℕ → Text
unfolding build_sdp
build_offer ip port = build_sdp ip port (pcmu ∷ pcma ∷ [])

unfoldable pub build_answer : Ipv4Addr → ℕ → G711Codec → Text
unfolding build_sdp
build_answer ip port codec = build_sdp ip port (codec ∷ [])

pub data SdpParseError : Type 0 where
  no_audio_media no_connection bad_port no_supported_codec : SdpParseError

-- One number of an address: no zero before other digits, and below 256.
unfoldable pub parse_octet : Text → Option ℕ
unfolding digits
parse_octet [] = none
parse_octet (c ∷ []) = digits 256 0 (c ∷ [])
parse_octet (c ∷ d ∷ s) = if c == 48 then none else digits 256 0 (c ∷ d ∷ s)

abbrev ip_of : Option ℕ → Option ℕ → Option ℕ → Option ℕ → Option Ipv4Addr
ip_of (some a) (some b) (some c) (some d) = some (record { a = a; b = b; c = c; d = d })
ip_of _ _ _ _ = none

abbrev octets : Text → List Text → Option Ipv4Addr
octets s (t ∷ u ∷ v ∷ []) = ip_of (parse_octet s) (parse_octet t) (parse_octet u) (parse_octet v)
octets s _ = none

-- `parse::<Ipv4Addr>()`
unfoldable pub parse_ip : Text → Option Ipv4Addr
unfolding split parse_octet
parse_ip s = let pieces = split 46 s in octets pieces.0 pieces.1

abbrev pub connection_of : List Text → Option Ipv4Addr
connection_of (net ∷ kind ∷ addr ∷ _) =
    if text_eq net (codes "IN") && text_eq kind (codes "IP4")
    then parse_ip (split 47 addr).0
    else none
connection_of _ = none

unfoldable pub parse_connection_ipv4 : Text → Option Ipv4Addr
unfolding words split parse_ip text_eq
parse_connection_ipv4 rest = connection_of (words rest)

-- What the loop over the lines has found so far.
pub record Scan : Type 0 where
  pub session_ip : Option Ipv4Addr
  pub media_ip : Option Ipv4Addr
  pub port : Option ℕ
  pub media_pts : List ℕ
  pub in_audio : Bool
  pub seen_audio : Bool

abbrev pub unscanned : Scan
unscanned = record {
  session_ip = none;
  media_ip = none;
  port = none;
  media_pts = [];
  in_audio = false;
  seen_audio = false;
}

abbrev pub on_address : Option Ipv4Addr → Scan → Scan
on_address none s = s
on_address (some addr) s =
    if s.in_audio then record s { media_ip = some addr } else record s { session_ip = some addr }

-- The words behind the port and the transport.
abbrev pub after_transport : List Text → List Text
after_transport (port ∷ transport ∷ pts) = pts
after_transport _ = []

abbrev pub port_of : List Text → Option ℕ
port_of [] = none
port_of (port ∷ _) = parse_unsigned 65536 port

-- The first audio line.
abbrev pub on_audio : List Text → Scan → Scan
on_audio parts s = record s {
  in_audio = true;
  seen_audio = true;
  port = port_of parts;
  media_pts = s.media_pts ++ filter_map (parse_unsigned 256) (after_transport parts);
}

abbrev pub on_media : Option Text → Scan → Scan
on_media none s = record s { in_audio = false }
on_media (some audio) s =
    if s.seen_audio then record s { in_audio = false } else on_audio (words audio) s

unfoldable pub on_line : Text → Scan → Scan
unfolding strip_prefix parse_connection_ipv4 words parse_unsigned
on_line line s = elim (strip_prefix (codes "c=") line) [
  | some rest ↦ on_address (parse_connection_ipv4 rest) s
  | none ↦ elim (strip_prefix (codes "m=") line) [
    | some rest ↦ on_media (strip_prefix (codes "audio ") rest) s
    | none ↦ s
  ]
]

unfoldable pub scan_lines : List Text → Scan → Scan
unfolding on_line
scan_lines [] s = s
scan_lines (l ∷ ls) s = scan_lines ls (on_line l s)

-- `find_map`
unfoldable pub first_codec : List ℕ → Option G711Codec
unfolding from_payload_type
first_codec [] = none
first_codec (pt ∷ pts) = or_else (from_payload_type pt) (first_codec pts)

abbrev pub with_codec : Ipv4Addr → ℕ → Option G711Codec → Outcome SdpParseError SdpMedia
with_codec ip port none = err no_supported_codec
with_codec ip port (some codec) = ok (record { ip = ip; port = port; codec = codec })

abbrev pub with_port : Ipv4Addr → Option ℕ → List ℕ → Outcome SdpParseError SdpMedia
with_port ip none pts = err bad_port
with_port ip (some port) pts =
    if port == 0 then err bad_port else with_codec ip port (first_codec pts)

abbrev pub with_ip : Option Ipv4Addr → Scan → Outcome SdpParseError SdpMedia
with_ip none s = err no_connection
with_ip (some ip) s = with_port ip s.port s.media_pts

unfoldable pub media_of : Scan → Outcome SdpParseError SdpMedia
unfolding first_codec
media_of s =
    if not s.seen_audio then err no_audio_media else with_ip (or_else s.media_ip s.session_ip) s

abbrev pub extend_line : ℕ → List Text → List Text
extend_line c [] = (c ∷ []) ∷ []
extend_line c (l ∷ ls) = (c ∷ l) ∷ ls

-- The lines that newlines end.
unfoldable pub split_newlines : Text → List Text
split_newlines [] = []
split_newlines (c ∷ s) =
    let rest = split_newlines s in if c == 10 then [] ∷ rest else extend_line c rest

-- `lines()` with `trim_end_matches('\r')`
unfoldable pub lines : Text → List Text
unfolding split_newlines trim_end_by
lines s = map (trim_end_by (λ c. c == 13)) (split_newlines s)

unfoldable pub parse_sdp : Text → Outcome SdpParseError SdpMedia
unfolding lines scan_lines media_of
parse_sdp sdp = media_of (scan_lines (lines sdp) unscanned)
