-- ===== src/Engine/Slugs.antt =====
-- flowcat-agent/src/engine.rs: the names that `slugify` makes of labels.
use flowcat.Base.{ℕ, ◌+◌, ◌≡◌, refl, ap₂, Bool, true, ◌&&◌, [], ◌∷◌, leb, arith}
use flowcat.Base.Text.{Text}
use flowcat.Engine.{slugify}

-- Where the lower case of a letter is alphanumeric too, the name of a name is the name, so the name that the
-- model is offered for an edge or a transfer is one that `slugify` leaves as it is.
pub slugify-slugify :
    (alphanumeric : ℕ → Bool)
    → ((c : ℕ) → alphanumeric c ≡ true → leb 65 c && leb c 90 ≡ true → alphanumeric (c + 32) ≡ true)
    → (s : Text) → slugify alphanumeric (slugify alphanumeric s) ≡ slugify alphanumeric s
unfolding slugify
slugify-slugify alphanumeric lower [] = refl
slugify-slugify alphanumeric lower (c ∷ s) =
    ap₂ (λ d t. d ∷ t) (ground (arith, lower c)) (slugify-slugify alphanumeric lower s)
