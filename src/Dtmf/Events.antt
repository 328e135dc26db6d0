-- ===== src/Dtmf/Events.antt =====
-- flowcat-telephony/src/dtmf/mod.rs: the receiver that turns `telephone-event` payloads into key
-- presses, and the sender that spreads a key over payloads.
pub mod Dial
use flowcat.Base.{
  ℕ, zero, suc, ◌+◌, ◌^◌, ◌-◌, ◌<◌, min, Bool, true, false, not, List, [], ◌∷◌, ◌++◌, Option, none,
  some, ◌==◌, if◌then◌else◌,
}
use flowcat.Frame.{KeypadEntry, Frame, input_dtmf, output_dtmf}
use flowcat.Dtmf.{
  DtmfSymbol, event_code, to_keypad_entry, from_keypad_entry, TelephoneEvent, encode_event,
  decode_event,
}

-- `Rfc2833Receiver`
pub record Receiver : Type 0 where
  pub active : Option ℕ
  pub fired_end : Bool
  pub last_symbol : Option DtmfSymbol

-- `Rfc2833Receiver::new`, and what `reset` restores.
abbrev pub idle : Receiver
idle = record { active = none; fired_end = false; last_symbol = none }

-- `self.active == Some(code)`
abbrev pub is_active : Option ℕ → ℕ → Bool
is_active none code = false
is_active (some a) code = a == code

abbrev pub key_frame : Option KeypadEntry → Option Frame
key_frame none = none
key_frame (some k) = some (input_dtmf k)

-- What a decoded event does, once a new key has replaced the active one.
pub on_current : Receiver → TelephoneEvent → Receiver × Option Frame
on_current r ev = if not ev.end then (r, none) else if r.fired_end then (r, none) else (
  record r { fired_end = true; last_symbol = some ev.symbol },
  key_frame (to_keypad_entry ev.symbol),
)

pub on_event : Receiver → TelephoneEvent → Receiver × Option Frame
unfolding on_current
on_event r ev =
    let code = event_code ev.symbol in
    if not (is_active r.active code)
    then on_current (record r { active = some code; fired_end = false }) ev
    else on_current r ev

-- `Rfc2833Receiver::on_payload`
pub on_payload : Receiver → List ℕ → Receiver × Option Frame
unfolding on_event
on_payload r payload = elim (decode_event payload) [ none ↦ (r, none) | some ev ↦ on_event r ev ]

abbrev pub frames_of : Option Frame → List Frame
frames_of none = []
frames_of (some frame) = frame ∷ []

-- The payloads of a stream in turn, with the frames that they yield.
pub receive : Receiver → List (List ℕ) → List Frame × Receiver
receive r [] = ([], r)
receive r (payload ∷ payloads) =
    let first = on_payload r payload in
    let rest = receive first.0 payloads in (frames_of first.1 ++ rest.0, rest.1)

-- `Rfc2833Sender`: two u16 and a u8.
pub record Sender : Type 0 where
  pub tone_packets : ℕ
  pub tick_step : ℕ
  pub volume : ℕ

-- `Rfc2833Sender::default`
abbrev pub default_sender : Sender
default_sender = record { tone_packets = 3; tick_step = 160; volume = 10 }

-- `u16::saturating_add`
abbrev pub saturating_add : ℕ → ℕ → ℕ
saturating_add a b = min (a + b) (2 ^ 16 - 1)

-- The loop over the tone packets that are left, then the end packet.
pub tones : Sender → DtmfSymbol → ℕ → ℕ → List (List ℕ)
tones s symbol zero duration =
    encode_event symbol true s.volume (saturating_add duration s.tick_step) ∷ []
tones s symbol (suc n) duration =
    let next = saturating_add duration s.tick_step in
    encode_event symbol false s.volume next ∷ tones s symbol n next

pub encode_symbol : Sender → DtmfSymbol → List (List ℕ)
unfolding tones
encode_symbol s symbol = tones s symbol s.tone_packets 0

pub encode_key : Sender → KeypadEntry → List (List ℕ)
unfolding encode_symbol
encode_key s key = encode_symbol s (from_keypad_entry key)

pub encode_keys : Sender → List KeypadEntry → List (List ℕ)
unfolding encode_key
encode_keys s [] = []
encode_keys s (key ∷ keys) = encode_key s key ++ encode_keys s keys

pub encode_frame : Sender → Frame → List (List ℕ)
unfolding encode_keys
encode_frame s (output_dtmf keys) = encode_keys s keys
encode_frame s _ = []
