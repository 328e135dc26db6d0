-- ===== src/Sdp/First.antt =====
-- flowcat-core/src/sip/sdp.rs: the parser commits to the first audio stream of a description.
use flowcat.Base.{
  ◌≡◌, refl, sym, subst, ◌∙◌, inl, inr, true, List, [], ◌∷◌, Option, none, some, if_true, if_false,
  Bool-cases,
}
use flowcat.Base.Text.{Text, codes}
use flowcat.Base.Scan.{strip_prefix}
use flowcat.Sdp.{Ipv4Addr, Scan, on_line, on_address, on_media, scan_lines, parse_connection_ipv4}

-- The stream that a scan has committed to is that of another.
abbrev pub SameStream : Scan → Scan → Type 0
SameStream s t = (t.seen_audio ≡ true) × ((t.port ≡ s.port) × (t.media_pts ≡ s.media_pts))

module _ (s : Scan) (seen : s.seen_audio ≡ true) where
  on_address-SameStream : (o : Option Ipv4Addr) → SameStream s (on_address o s)
  on_address-SameStream none = (seen, (refl, refl))
  on_address-SameStream (some addr) = elim (Bool-cases s.in_audio) [
    | inl inside ↦ subst (SameStream s) (sym (if_true _ _ inside)) (seen, (refl, refl))
    | inr outside ↦ subst (SameStream s) (sym (if_false _ _ outside)) (seen, (refl, refl))
  ]

  on_media-SameStream : (o : Option Text) → SameStream s (on_media o s)
  on_media-SameStream none = (seen, (refl, refl))
  on_media-SameStream (some audio) =
      subst (SameStream s) (sym (if_true _ _ seen)) (seen, (refl, refl))

  on_line-SameStream : (line : Text) → SameStream s (on_line line s)
  unfolding on_line
  on_line-SameStream line =
      by_prefix (strip_prefix (codes "c=") line) (strip_prefix (codes "m=") line)
    where
      by_prefix :
          (o p : Option Text)
          → SameStream s (elim o [
            | some rest ↦ on_address (parse_connection_ipv4 rest) s
            | none ↦ elim p [
              | some rest ↦ on_media (strip_prefix (codes "audio ") rest) s
              | none ↦ s
            ]
          ])
      by_prefix (some rest) p = on_address-SameStream (parse_connection_ipv4 rest)
      by_prefix none (some rest) = on_media-SameStream (strip_prefix (codes "audio ") rest)
      by_prefix none none = (seen, (refl, refl))

-- Once an audio stream is seen, no further line changes its port or its payload types.
pub scan_lines-SameStream :
    (ls : List Text) (s : Scan) → s.seen_audio ≡ true → SameStream s (scan_lines ls s)
unfolding scan_lines
scan_lines-SameStream [] s seen = (seen, (refl, refl))
scan_lines-SameStream (l ∷ ls) s seen =
    let now = on_line-SameStream s seen l in
    let later = scan_lines-SameStream ls (on_line l s) now.0 in
    (later.0, (later.1.0 ∙ now.1.0, later.1.1 ∙ now.1.1))
