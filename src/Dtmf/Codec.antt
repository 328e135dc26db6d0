-- ===== src/Dtmf/Codec.antt =====
-- The symbols, their codes, characters and keys, and the payload: what is written is read back.
use Prim.Native.Nat.{bit_and, bit_or}
use flowcat.Base.{
  ℕ, ◌+◌, ◌*◌, ◌%◌, ◌^◌, ◌<◌, ◌≡◌, ◌↔◌, refl, ◌∙◌, Bool, true, false, not, some, arith, ◌==◌,
  if◌then◌else◌,
}
use flowcat.Base.Bytes.{from_be16-be16, and_0x3f, and_0x80, or_0x80}
use flowcat.Frame.{KeypadEntry}
use flowcat.Dtmf.{
  DtmfSymbol, digit, star, pound, letter, IsSymbol, event_code, from_event_code, to_char, from_char,
  to_keypad_entry, from_keypad_entry, encode_event, decode_event, decode_bytes,
}

-- The event codes name exactly the sixteen symbols: a code decodes to a symbol if and only if the
-- symbol is one of the grid and has that code.
pub from_event_code_iff :
    (code : ℕ) (s : DtmfSymbol)
    → (from_event_code code ≡ some s) ↔ (IsSymbol s × (event_code s ≡ code))
unfolding from_event_code event_code
from_event_code_iff code (digit d) = (λ h. ground arith, λ h. ground arith)
from_event_code_iff code star = (λ h. ground arith, λ h. ground arith)
from_event_code_iff code pound = (λ h. ground arith, λ h. ground arith)
from_event_code_iff code (letter c) = (λ h. ground arith, λ h. ground arith)

-- A symbol of the grid is read back from its character.
pub from_char-to_char : (s : DtmfSymbol) → IsSymbol s → from_char (to_char s) ≡ some s
unfolding from_char to_char
from_char-to_char (digit d) h = ground arith
from_char-to_char star h = refl
from_char-to_char pound h = refl
from_char-to_char (letter c) h = ground arith

-- The twelve keys are the symbols but for the letters: each key is read back from its symbol, and a
-- symbol that yields a key is that key's.
pub to_keypad_entry_iff :
    (s : DtmfSymbol) (k : KeypadEntry) → (to_keypad_entry s ≡ some k) ↔ (s ≡ from_keypad_entry k)
unfolding to_keypad_entry from_keypad_entry
to_keypad_entry_iff (digit d) k = (λ h. ground arith, λ h. ground arith)
to_keypad_entry_iff star k = (λ h. ground arith, λ h. ground arith)
to_keypad_entry_iff pound k = (λ h. ground arith, λ h. ground arith)
to_keypad_entry_iff (letter c) k = (λ h. ground arith, λ h. ground arith)

-- The second byte of a payload keeps the volume and the end bit apart.
flags :
    (end : Bool) (v : ℕ)
    → v < 256
    → let b = if end then bit_or (bit_and v 0x3f) 0x80 else bit_and v 0x3f in
      (bit_and b 0x3f ≡ v % 64) × (not (bit_and b 0x80 == 0) ≡ end)
flags true v h =
    rw
      (
        and_0x3f v h,
        or_0x80 (v % 64) (omega arith),
        and_0x3f (v % 64 + 128) (omega arith),
        and_0x80 (v % 64 + 128) (omega arith),
      )
      (ground arith, ground arith)
flags false v h =
    rw (and_0x3f v h, and_0x3f (v % 64) (omega arith), and_0x80 (v % 64) (omega arith))
      (ground arith, ground arith)

decode_bytes_lem :
    (code b hi lo : ℕ) (s : DtmfSymbol)
    → from_event_code code ≡ some s
    → decode_bytes code b hi lo
      ≡ some (record {
        symbol = s;
        end = not (bit_and b 0x80 == 0);
        volume = bit_and b 0x3f;
        duration = hi * 256 + lo;
      })
unfolding decode_bytes
decode_bytes_lem code b hi lo s h = rw (h, decode_bytes)

-- An encoded event of a symbol of the grid, with a volume that is a byte and a duration of 16
-- bits, decodes to its symbol, end bit and duration, and to the low six bits of its volume.
pub decode_event-encode_event :
    (s : DtmfSymbol) (end : Bool) (volume duration : ℕ)
    → IsSymbol s
    → volume < 2 ^ 8
    → duration < 2 ^ 16
    → decode_event (encode_event s end volume duration)
      ≡ some (record { symbol = s; end = end; volume = volume % 64; duration = duration })
unfolding decode_event encode_event
decode_event-encode_event s end volume duration hs hv hd =
    let (low, bit) = flags end volume hv in
    let known = (from_event_code_iff (event_code s) s).1 (hs, refl) in
    decode_bytes_lem (event_code s) _ _ _ s known ∙ rw (low, bit, from_be16-be16 duration hd)
