-- ===== src/Dtmf/Tests.antt =====
-- Runs of the DTMF codec, and each result at an input that meets its hypotheses.
use flowcat.Base.{◌≡◌, ◌↔◌, refl, true, [], ◌∷◌, some, arith}
use flowcat.Frame.{key_one, key_two, key_five, output_dtmf, input_dtmf}
use flowcat.Dtmf.{digit, letter, event_code, to_keypad_entry, from_keypad_entry, encode_event}
use flowcat.Dtmf.Codec.{to_keypad_entry_iff}
use flowcat.Dtmf.Events.{idle, default_sender, receive, encode_symbol, encode_frame}
use flowcat.Dtmf.Events.Dial.{collapse, pressed, receive-encode_symbol, dial_lem}

encode_runs : encode_event (letter b'D') true 0xff 0x1234 ≡ 15 ∷ 0xbf ∷ 0x12 ∷ 0x34 ∷ []
unfolding encode_event
encode_runs = refl

to_keypad_entry_iff_example :
    (to_keypad_entry (digit 2) ≡ some key_two) ↔ (digit 2 ≡ from_keypad_entry key_two)
to_keypad_entry_iff_example = to_keypad_entry_iff (digit 2) key_two

receive-encode_symbol_example :
    receive idle (encode_symbol default_sender (digit 5))
    ≡ (input_dtmf key_five ∷ [], pressed default_sender (omega arith) (digit 5) (omega arith))
unfolding to_keypad_entry
receive-encode_symbol_example =
    receive-encode_symbol default_sender (omega arith) (digit 5) (omega arith) idle refl

-- Dialling 1 1 2 is heard as 1 2.
dial_lem_example :
    (receive idle (encode_frame default_sender (output_dtmf (key_one ∷ key_one ∷ key_two ∷ [])))).0
    ≡ input_dtmf key_one ∷ input_dtmf key_two ∷ []
unfolding collapse event_code from_keypad_entry
dial_lem_example =
    dial_lem default_sender (omega arith) idle (key_one ∷ key_one ∷ key_two ∷ []) (λ code h. cc)
