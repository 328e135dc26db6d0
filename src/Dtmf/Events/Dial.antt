-- ===== src/Dtmf/Events/Dial.antt =====
-- What a receiver makes of a sender's payloads.
use mathlib.Core.List.{append-nil, append_assoc}
use flowcat.Base.{
  ℕ, zero, suc, ◌%◌, ◌^◌, ◌<◌, ◌≡◌, refl, sym, ◌∙◌, ap, inl, inr, Bool, true, false, List, [], ◌∷◌,
  ◌++◌, map, Option, none, some, arith, if◌then◌else◌, if_true, Bool-cases, ==_self,
}
use flowcat.Frame.{key_star, key_pound, KeypadEntry, Frame, input_dtmf, output_dtmf}
use flowcat.Dtmf.{
  DtmfSymbol, IsSymbol, event_code, to_keypad_entry, from_keypad_entry, TelephoneEvent,
  encode_event,
}
use flowcat.Dtmf.Codec.{decode_event-encode_event, to_keypad_entry_iff}
use flowcat.Dtmf.Events.{
  Receiver, is_active, key_frame, frames_of, on_event, on_payload, receive, Sender, saturating_add,
  tones, encode_symbol, encode_key, encode_keys, encode_frame,
}

module _ (s : Sender) (volume_byte : s.volume < 2 ^ 8) (symbol : DtmfSymbol)
    (known : IsSymbol symbol) where
  -- The receiver after a press of the symbol, and what a press yields unless the symbol was pressed
  -- last.
  abbrev pub pressed : Receiver
  pressed = record {
    active = some (event_code symbol);
    fired_end = true;
    last_symbol = some symbol;
  }

  abbrev pub press_frames : List Frame
  press_frames = frames_of (key_frame (to_keypad_entry symbol))

  abbrev event : Bool → ℕ → TelephoneEvent
  event end duration = record {
    symbol = symbol;
    end = end;
    volume = s.volume % 64;
    duration = duration;
  }

  -- The symbol is active, and its end packet has been seen or not.
  abbrev holding : Bool → Option DtmfSymbol → Receiver
  holding fired last = record {
    active = some (event_code symbol);
    fired_end = fired;
    last_symbol = last;
  }

  on_payload-encoded :
      (r : Receiver) (end : Bool) (duration : ℕ)
      → duration < 2 ^ 16
      → on_payload r (encode_event symbol end s.volume duration) ≡ on_event r (event end duration)
  unfolding on_payload
  on_payload-encoded r end duration h =
      rw (decode_event-encode_event symbol end s.volume duration known volume_byte h, on_payload)

  on_event-tone :
      (fired : Bool) (last : Option DtmfSymbol) (duration : ℕ)
      → on_event (holding fired last) (event false duration) ≡ (holding fired last, none)
  unfolding on_event
  on_event-tone fired last duration = rw (==_self (event_code symbol))

  on_event-end :
      (last : Option DtmfSymbol) (duration : ℕ)
      → on_event (holding false last) (event true duration)
        ≡ (pressed, key_frame (to_keypad_entry symbol))
  unfolding on_event
  on_event-end last duration = rw (==_self (event_code symbol))

  -- Once the active key has fired, its events do nothing.
  on_event-spent :
      (r : Receiver) (end : Bool) (duration : ℕ)
      → is_active r.active (event_code symbol) ≡ true
      → r.fired_end ≡ true
      → on_event r (event end duration) ≡ (r, none)
  unfolding on_event
  on_event-spent r true duration a f = rw a (if_true _ _ f)
  on_event-spent r false duration a f = rw a

  -- Another key's event first makes the symbol the active one.
  on_event-other :
      (r : Receiver) (end : Bool) (duration : ℕ)
      → is_active r.active (event_code symbol) ≡ false
      → on_event r (event end duration)
        ≡ on_event (holding false r.last_symbol) (event end duration)
  unfolding on_event
  on_event-other r end duration h = rw (h, ==_self (event_code symbol))

  receive-cons :
      (r r' : Receiver) (out : Option Frame) (end : Bool) (duration : ℕ) (payloads : List (List ℕ))
      → duration < 2 ^ 16
      → on_event r (event end duration) ≡ (r', out)
      → receive r (encode_event symbol end s.volume duration ∷ payloads)
        ≡ (frames_of out ++ (receive r' payloads).0, (receive r' payloads).1)
  unfolding receive
  receive-cons r r' out end duration payloads h e =
      ap (λ x. (frames_of x.1 ++ (receive x.0 payloads).0, (receive x.0 payloads).1))
        (on_payload-encoded r end duration h ∙ e)

  -- From a receiver that has the symbol active and has not fired, the tones fire once, at the end.
  receive-tones :
      (n duration : ℕ) (last : Option DtmfSymbol)
      → receive (holding false last) (tones s symbol n duration) ≡ (press_frames, pressed)
  unfolding tones receive
  receive-tones zero duration last =
      receive-cons _ _ _ true (saturating_add duration s.tick_step) [] (omega arith)
        (on_event-end last _)
      ∙ nothing
    where
      nothing :
          ◌≡◌ {A = List Frame × Receiver} (press_frames ++ [], pressed) (press_frames, pressed)
      nothing = ap (λ fs. (fs, pressed)) (append-nil press_frames)
  receive-tones (suc n) duration last =
      receive-cons _ _ _ false (saturating_add duration s.tick_step)
        (tones s symbol n (saturating_add duration s.tick_step)) (omega arith)
        (on_event-tone false last _)
      ∙ receive-tones n (saturating_add duration s.tick_step) last

  receive-other :
      (r : Receiver) (n duration : ℕ)
      → is_active r.active (event_code symbol) ≡ false
      → receive r (tones s symbol n duration)
        ≡ receive (holding false r.last_symbol) (tones s symbol n duration)
  unfolding tones
  receive-other r zero duration h =
      receive-cons r _ _ true (saturating_add duration s.tick_step) [] (omega arith)
        (on_event-other r true _ h)
      ∙ sym (receive-cons _ _ _ true (saturating_add duration s.tick_step) [] (omega arith) refl)
  receive-other r (suc n) duration h =
      let d = saturating_add duration s.tick_step in
      receive-cons r _ _ false d (tones s symbol n d) (omega arith) (on_event-other r false _ h)
      ∙ sym (receive-cons _ _ _ false d (tones s symbol n d) (omega arith) refl)

  receive-spent :
      (r : Receiver) (n duration : ℕ)
      → is_active r.active (event_code symbol) ≡ true
      → r.fired_end ≡ true
      → receive r (tones s symbol n duration) ≡ ([], r)
  unfolding tones receive
  receive-spent r zero duration a f =
      receive-cons r _ _ true (saturating_add duration s.tick_step) [] (omega arith)
        (on_event-spent r true _ a f)
  receive-spent r (suc n) duration a f =
      let d = saturating_add duration s.tick_step in
      receive-cons r _ _ false d (tones s symbol n d) (omega arith) (on_event-spent r false _ a f)
      ∙ receive-spent r n d a f

  -- However many tone packets the sender spreads a symbol over, a receiver with another symbol active
  -- (or none) fires exactly one key press, or none for the letters, and holds the symbol.
  pub receive-encode_symbol :
      (r : Receiver)
      → is_active r.active (event_code symbol) ≡ false
      → receive r (encode_symbol s symbol) ≡ (press_frames, pressed)
  unfolding encode_symbol
  receive-encode_symbol r h =
      receive-other r s.tone_packets 0 h ∙ receive-tones s.tone_packets 0 r.last_symbol

  -- A symbol that is pressed again right after it has fired yields nothing, whatever its packets.
  pub receive-encode_symbol_again :
      (r : Receiver)
      → is_active r.active (event_code symbol) ≡ true
      → r.fired_end ≡ true
      → receive r (encode_symbol s symbol) ≡ ([], r)
  unfolding encode_symbol
  receive-encode_symbol_again r a f = receive-spent r s.tone_packets 0 a f

receive-append :
    (r : Receiver) (ps qs : List (List ℕ))
    → receive r (ps ++ qs)
      ≡ ((receive r ps).0 ++ (receive (receive r ps).1 qs).0, (receive (receive r ps).1 qs).1)
unfolding receive
receive-append r [] qs = refl
receive-append r (p ∷ ps) qs =
    let first = on_payload r p in
    let rest = receive first.0 ps in
    let last = receive rest.1 qs in
    ap (λ x. (frames_of first.1 ++ x.0, x.1)) (receive-append first.0 ps qs)
    ∙ ap (λ fs. (fs, last.1)) (sym (append_assoc (frames_of first.1) rest.0 last.0))

-- The keys of a dialled sequence, but for each that repeats the key before it.
unfoldable pub collapse : Option ℕ → List KeypadEntry → List KeypadEntry
collapse active [] = []
collapse active (key ∷ keys) =
    let code = event_code (from_keypad_entry key) in
    if is_active active code then collapse active keys else key ∷ collapse (some code) keys

from_keypad_entry-IsSymbol : (key : KeypadEntry) → IsSymbol (from_keypad_entry key)
unfolding from_keypad_entry
from_keypad_entry-IsSymbol key_star = tt
from_keypad_entry-IsSymbol key_pound = tt
from_keypad_entry-IsSymbol _ = omega arith

-- No key is active, or the active one has fired.
abbrev pub IsSettled : Receiver → Type 0
IsSettled r = (code : ℕ) → is_active r.active code ≡ true → r.fired_end ≡ true

module _ (s : Sender) (volume_byte : s.volume < 2 ^ 8) where
  dial-keys :
      (r : Receiver) (keys : List KeypadEntry)
      → IsSettled r
      → (receive r (encode_keys s keys)).0 ≡ map input_dtmf (collapse r.active keys)
  unfolding encode_keys encode_key collapse receive
  dial-keys r [] h = refl
  dial-keys r (key ∷ keys) h =
      let symbol = from_keypad_entry key in
      let known = from_keypad_entry-IsSymbol key in
      let after = pressed s volume_byte symbol known in
      let shown = (to_keypad_entry_iff symbol key).1 refl in
      elim (Bool-cases (is_active r.active (event_code symbol))) [
        | inl again ↦
            rw
              (
                again,
                receive-append r (encode_symbol s symbol) (encode_keys s keys),
                receive-encode_symbol_again s volume_byte symbol known r again (h _ again),
              )
              (dial-keys r keys h)
        | inr other ↦
            rw
              (
                other,
                receive-append r (encode_symbol s symbol) (encode_keys s keys),
                receive-encode_symbol s volume_byte symbol known r other,
                shown,
              )
              (ap (◌∷◌ (input_dtmf key)) (dial-keys after keys (λ code e. refl)))
      ]

  -- With a sender whose volume is a byte, a receiver with no active key, or whose active key has
  -- been reported, makes of a dialled sequence one press for each key, in order, but for the keys
  -- that repeat the one before them or, at the front, the active one, which are lost.
  pub dial_lem :
      (r : Receiver) (keys : List KeypadEntry)
      → IsSettled r
      → (receive r (encode_frame s (output_dtmf keys))).0 ≡ map input_dtmf (collapse r.active keys)
  unfolding encode_frame
  dial_lem r keys h = dial-keys r keys h
