-- ===== src/Dtmf.antt =====
-- flowcat-telephony/src/dtmf/rfc2833.rs: the symbols and the four-byte `telephone-event` payload. The
-- receiver and the sender of dtmf/mod.rs are in the children.
pub mod Codec
pub mod Events
mod Tests
use Prim.Native.Nat.{bit_and, bit_or}
use flowcat.Base.{
  ℕ, ◌+◌, ◌-◌, ◌%◌, ◌^◌, ◌≤◌, ◌<◌, ◌≡◌, ◌⊎◌, Bool, true, false, not, ◌&&◌, List, [], ◌∷◌, Option,
  none, some, length, leb, ◌==◌, if◌then◌else◌, get_or,
}
use flowcat.Base.Bytes.{be16, from_be16}
use flowcat.Frame.{
  KeypadEntry, key_zero, key_one, key_two, key_three, key_four, key_five, key_six, key_seven,
  key_eight, key_nine, key_star, key_pound,
}

-- A digit is a u8, and a letter a `char`.
pub data DtmfSymbol : Type 0 where
  digit : ℕ → DtmfSymbol
  star pound : DtmfSymbol
  letter : ℕ → DtmfSymbol

-- What `from_event_code` and `from_char` build.
abbrev pub IsSymbol : DtmfSymbol → Type 0
IsSymbol (digit d) = d ≤ 9
IsSymbol star = Unit {0}
IsSymbol pound = Unit {0}
IsSymbol (letter c) = (b'A' ≤ c) × (c ≤ b'D')

unfoldable pub event_code : DtmfSymbol → ℕ
event_code (digit d) = d
event_code star = 10
event_code pound = 11
event_code (letter c) =
    if c == b'A'
    then 12
    else if c == b'B'
    then 13
    else if c == b'C'
    then 14
    else if c == b'D'
    then 15
    else 12

unfoldable pub from_event_code : ℕ → Option DtmfSymbol
from_event_code code =
    if leb code 9
    then some (digit code)
    else if code == 10
    then some star
    else if code == 11
    then some pound
    else if code == 12
    then some (letter b'A')
    else if code == 13
    then some (letter b'B')
    else if code == 14
    then some (letter b'C')
    else if code == 15
    then some (letter b'D')
    else none

-- `b'0' + d` is a sum of bytes.
pub to_char : DtmfSymbol → ℕ
to_char (digit d) = (b'0' + d) % 2 ^ 8
to_char star = b'*'
to_char pound = b'#'
to_char (letter c) = c

-- `to_ascii_uppercase`, on a lower-case letter
pub from_char : ℕ → Option DtmfSymbol
from_char c =
    if leb b'0' c && leb c b'9'
    then some (digit (c - b'0'))
    else if c == b'*'
    then some star
    else if c == b'#'
    then some pound
    else if leb b'A' c && leb c b'D'
    then some (letter c)
    else if leb b'a' c && leb c b'd'
    then some (letter (c - 32))
    else none

unfoldable pub to_keypad_entry : DtmfSymbol → Option KeypadEntry
to_keypad_entry (digit d) =
    if d == 0
    then some key_zero
    else if d == 1
    then some key_one
    else if d == 2
    then some key_two
    else if d == 3
    then some key_three
    else if d == 4
    then some key_four
    else if d == 5
    then some key_five
    else if d == 6
    then some key_six
    else if d == 7
    then some key_seven
    else if d == 8
    then some key_eight
    else if d == 9
    then some key_nine
    else none
to_keypad_entry star = some key_star
to_keypad_entry pound = some key_pound
to_keypad_entry (letter _) = none

unfoldable pub from_keypad_entry : KeypadEntry → DtmfSymbol
from_keypad_entry key_zero = digit 0
from_keypad_entry key_one = digit 1
from_keypad_entry key_two = digit 2
from_keypad_entry key_three = digit 3
from_keypad_entry key_four = digit 4
from_keypad_entry key_five = digit 5
from_keypad_entry key_six = digit 6
from_keypad_entry key_seven = digit 7
from_keypad_entry key_eight = digit 8
from_keypad_entry key_nine = digit 9
from_keypad_entry key_star = star
from_keypad_entry key_pound = pound

pub record TelephoneEvent : Type 0 where
  pub symbol : DtmfSymbol
  pub end : Bool
  pub volume : ℕ
  pub duration : ℕ

unfoldable pub encode_event : DtmfSymbol → Bool → ℕ → ℕ → List ℕ
unfolding event_code
encode_event symbol end volume duration =
    let low = bit_and volume 0x3f in
    event_code symbol ∷ (if end then bit_or low 0x80 else low) ∷ be16 duration

-- The payload's bytes, once its length is known to be 4.
decode_bytes : ℕ → ℕ → ℕ → ℕ → Option TelephoneEvent
unfolding from_event_code
decode_bytes code flags hi lo = elim (from_event_code code) [
  | none ↦ none
  | some symbol ↦ some (record {
    symbol = symbol;
    end = not (bit_and flags 0x80 == 0);
    volume = bit_and flags 0x3f;
    duration = from_be16 hi lo;
  })
]

unfoldable pub decode_event : List ℕ → Option TelephoneEvent
unfolding decode_bytes
decode_event payload =
    if not (length payload == 4)
    then none
    else decode_bytes (get_or payload 0 0) (get_or payload 1 0) (get_or payload 2 0)
        (get_or payload 3 0)
