-- ===== src/Wake/Users.antt =====
-- The filter keeps the users apart.
use flowcat.Base.{
  ℕ, ◌≡◌, refl, sym, ap, ◌∙◌, Bool, false, List, [], ◌∷◌, Option, if◌then◌else◌, if_false, arith,
  ok, err, panic, ok-injective, err≢ok, panic≢ok,
}
use flowcat.Base.Text.{Text, text_eq, text_eq-same, text_eq-apart}
use flowcat.Frame.{Frame, transcription}
use flowcat.Runtime.{Envelope}
use flowcat.Wake.{
  WakeCheckFilter, ParticipantState, participant, put_participant, Gated, settle, gate, on_frame,
  process_frame,
}

pub participant-put :
    (j k : Text) (p : ParticipantState) (t : List (Text × ParticipantState))
    → participant j (put_participant k p t) ≡ (if text_eq k j then p else participant j t)
unfolding participant put_participant
participant-put j k p [] = refl
participant-put j k p (e ∷ es) =
    ground (arith, participant-put j k p es, text_eq-same e.0 k j, text_eq-apart e.0 k j)

-- What a frame leaves of the others: the settings, and every user that it is not from.
abbrev pub Leaves : Text → WakeCheckFilter → WakeCheckFilter → Type 0
Leaves user f g =
    ((other : Text)
      → text_eq user other ≡ false
      → participant other g.participants ≡ participant other f.participants)
    × ((g.wake_phrases ≡ f.wake_phrases) × (g.keepalive ≡ f.keepalive))

module _ (to_lowercase : Text → Text) where
  settle-Leaves :
      (rebuild : Text → Frame) (user : Text) (env : Envelope) (f : WakeCheckFilter) (r : Gated)
      (out : List Envelope) (g : WakeCheckFilter)
      → settle to_lowercase rebuild user env f r ≡ ok (out, g)
      → Leaves user f g
  settle-Leaves rebuild user env f (err e) out g h = absurd (err≢ok h)
  settle-Leaves rebuild user env f panic out g h = absurd (panic≢ok h)
  settle-Leaves rebuild user env f (ok r) out g h =
      let same = ap (λ x. x.1) (ok-injective h) in
      (
        (λ other apart.
            sym (ap (λ x. participant other x.participants) same)
            ∙ participant-put other user r.1 f.participants
            ∙ if_false _ _ apart),
        (sym (ap (λ x. x.wake_phrases) same), sym (ap (λ x. x.keepalive) same)),
      )

  -- A transcription of one user that the filter handles without a panic leaves the state of every
  -- other user alone, and the settings.
  pub process_frame-Leaves :
      (now : ℕ) (words user : Text) (language : Option Text) (final : Bool) (env : Envelope)
      (f g : WakeCheckFilter) (out : List Envelope)
      → env.frame ≡ transcription words user language final
      → process_frame to_lowercase now env f ≡ ok (out, g)
      → Leaves user f g
  unfolding process_frame on_frame
  process_frame-Leaves now words user language final env f g out e h =
      let p = participant user f.participants in
      settle-Leaves (λ text. transcription text user language final) user env f
        (gate to_lowercase p.state f.wake_phrases f.keepalive now words p) out g
        (sym (ap (λ frame. on_frame to_lowercase frame now env f) e) ∙ h)
