-- ===== src/Template/Tests.antt =====
-- Templates of the source's tests, on a clock that stands still.
use flowcat.Base.{◌≡◌, refl, [], ◌∷◌, none, some, arith, if◌then◌else◌}
use flowcat.Base.Text.{
  Text, codes, text_eq, Json, string, null, object, array, cons, nil, field, end, number,
}
use flowcat.Graph.{Table}
use flowcat.Template.{Clock, scan, fill, var_interpolate}
use flowcat.Template.Loop.{Scans, scan-terminates}

abbrev noon : Clock
noon = record {
  singapore_hour = 12;
  hour_in = λ zone. if text_eq zone (codes "UTC") then some 4 else none;
  utc_format = λ format. codes "2026-01-02";
  format_in = λ format zone. none;
}

abbrev printed : Json → Text
printed (number n) = n
printed _ = codes "{}"

abbrev sam : Table Json
sam =
    (codes "name", string (codes "Sam"))
    ∷ (codes "customer", object (field (codes "email") (string (codes "s@x")) end))
    ∷ (codes "empty", string [])
    ∷ []

abbrev hello : Text
hello = codes "Hello {{name}}"

fills_hello : var_interpolate noon printed sam hello ≡ codes "Hello Sam"
unfolding var_interpolate flowcat.Graph.get text_eq
fills_hello = refl

fills_path : var_interpolate noon printed sam (codes "{{ customer.email }}") ≡ codes "s@x"
unfolding var_interpolate
fills_path = refl

falls_back :
    var_interpolate noon printed sam (codes "Hi {{empty | fallback: there}}") ≡ codes "Hi there"
unfolding var_interpolate
falls_back = refl

greets : var_interpolate noon printed sam (codes "{{greeting_phrase}}") ≡ codes "Good afternoon"
unfolding var_interpolate
greets = refl

greets_at_night : var_interpolate noon printed sam (codes "{{greeting_phrase_UTC}}") ≡ codes "Hello"
unfolding var_interpolate
greets_at_night = refl

keeps_open_braces : var_interpolate noon printed sam (codes "a {{b {{c") ≡ codes "a {{b {{c"
unfolding var_interpolate
keeps_open_braces = refl

scan-terminates_example :
    Scans (fill noon printed sam) hello (scan (fill noon printed sam) 15 hello)
    × ((out : Text)
        → Scans (fill noon printed sam) hello out
        → scan (fill noon printed sam) 15 hello ≡ out)
scan-terminates_example = scan-terminates (fill noon printed sam) 15 hello (omega arith)

abbrev request : Json
request = object (field (codes "to") (array (cons (string hello) (cons null nil))) end)
