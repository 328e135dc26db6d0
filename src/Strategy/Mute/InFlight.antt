-- ===== src/Strategy/Mute/InFlight.antt =====
-- `FunctionCallMute` mutes the user exactly while some call is open.
use flowcat.Base.{
  ◌≡◌, refl, sym, ap, subst, ◌∙◌, inl, inr, ◌↔◌, ◌≢◌, ◌&&◌, Bool, true, false, not, ◌||◌, List, [],
  ◌∷◌, if◌then◌else◌, if_true, if_false, Bool-cases, arith, any, keep_if,
}
use flowcat.Base.Text.{Text, text_eq, text_eq→eq, text_eq-same, text_eq_self}
use flowcat.Frame.{
  Frame, FunctionCall, function_calls_started, function_call_result, function_call_cancel,
}
use flowcat.Strategy.Mute.{
  FunctionCallMute, is_in, insert_id, remove_id, insert_calls, calls_muted, calls_on_frame,
}

-- Whether the call is open after a frame, by whether it was before.
abbrev pub open_after : Text → Frame → Bool → Bool
open_after id (function_calls_started calls) b = any (λ c. text_eq c.tool_call_id id) calls || b
open_after id (function_call_result r) b = if text_eq r.tool_call_id id then false else b
open_after id (function_call_cancel _ tool_call_id) b = if text_eq tool_call_id id then false else b
open_after id _ b = b

abbrev pub is_open : Text → List Frame → Bool → Bool
is_open id [] b = b
is_open id (f ∷ fs) b = is_open id fs (open_after id f b)

abbrev pub run : List Frame → FunctionCallMute → FunctionCallMute
run [] s = s
run (f ∷ fs) s = run fs (calls_on_frame f s)

absorbed : (a b : Bool) → (a ≡ true → b ≡ true) → b ≡ (a || b)
absorbed true b h = h refl
absorbed false b h = refl

swapped : (a b c : Bool) → (a || (b || c)) ≡ ((b || a) || c)
swapped true true c = refl
swapped true false c = refl
swapped false true c = refl
swapped false false c = refl

removed :
    (x_id x_j id_j rest tail : Bool)
    → rest ≡ (if id_j then false else tail)
    → (x_id ≡ true → x_j ≡ id_j)
    → (x_j ≡ true → id_j ≡ true → x_id ≡ true)
    → ((not x_id && x_j) || rest) ≡ (if id_j then false else x_j || tail)
removed x_id x_j id_j rest tail e f g = ground arith

holds_itself : (x : Text) (s : List Text) → is_in x (x ∷ s) ≢ false
holds_itself x s h = ground (arith, text_eq_self x)

-- An id that is another is in the same sets.
is_in-same : (j id : Text) (ids : List Text) → text_eq id j ≡ true → is_in j ids ≡ is_in id ids
is_in-same j id ids h = ap (λ t. is_in t ids) (sym (text_eq→eq id j h))

is_in-insert_id :
    (j id : Text) (ids : List Text) → is_in j (insert_id id ids) ≡ (text_eq id j || is_in j ids)
unfolding insert_id
is_in-insert_id j id ids = elim (Bool-cases (is_in id ids)) [
  | inl there ↦
      ap (is_in j) (if_true _ _ there)
      ∙ absorbed (text_eq id j) (is_in j ids) (λ h. is_in-same j id ids h ∙ there)
  | inr new ↦ ap (is_in j) (if_false _ _ new)
]

text_eq-both : (x id j : Text) → text_eq x j ≡ true → text_eq id j ≡ true → text_eq x id ≡ true
text_eq-both x id j h k =
    subst (λ t. text_eq x t ≡ true) (text_eq→eq x j h ∙ sym (text_eq→eq id j k)) (text_eq_self x)

any-keep_if :
    {A : Type 0} (p q : A → Bool) (x : A) (xs : List A)
    → any q (keep_if p (x ∷ xs)) ≡ ((p x && q x) || any q (keep_if p xs))
any-keep_if p q x xs = elim (Bool-cases (p x)) [
  | inl kept ↦
      ap (any q) (if_true _ _ kept) ∙ ap (λ b. (b && q x) || any q (keep_if p xs)) (sym kept)
  | inr cut ↦ ap (any q) (if_false _ _ cut) ∙ ap (λ b. (b && q x) || any q (keep_if p xs)) (sym cut)
]

is_in-remove_id :
    (j id : Text) (ids : List Text)
    → is_in j (remove_id id ids) ≡ (if text_eq id j then false else is_in j ids)
unfolding remove_id
is_in-remove_id j id [] = ground arith
is_in-remove_id j id (x ∷ ids) =
    any-keep_if (λ y. not (text_eq y id)) (λ y. text_eq y j) x ids
    ∙ removed (text_eq x id) (text_eq x j) (text_eq id j) (is_in j (remove_id id ids)) (is_in j ids)
        (is_in-remove_id j id ids) (text_eq-same x id j) (text_eq-both x id j)

is_in-insert_calls :
    (j : Text) (calls : List FunctionCall) (s : FunctionCallMute)
    → is_in j (insert_calls calls s) ≡ (any (λ c. text_eq c.tool_call_id j) calls || is_in j s)
unfolding insert_calls
is_in-insert_calls j [] s = refl
is_in-insert_calls j (call ∷ calls) s =
    is_in-insert_calls j calls (insert_id call.tool_call_id s)
    ∙ ap (λ b. any (λ c. text_eq c.tool_call_id j) calls || b)
        (is_in-insert_id j call.tool_call_id s)
    ∙ swapped (any (λ c. text_eq c.tool_call_id j) calls) (text_eq call.tool_call_id j) (is_in j s)

is_in-on_frame :
    (j : Text) (f : Frame) (s : FunctionCallMute)
    → is_in j (calls_on_frame f s) ≡ open_after j f (is_in j s)
unfolding calls_on_frame
is_in-on_frame j (function_calls_started calls) s = is_in-insert_calls j calls s
is_in-on_frame j (function_call_result r) s = is_in-remove_id j r.tool_call_id s
is_in-on_frame j (function_call_cancel _ id) s = is_in-remove_id j id s
is_in-on_frame j _ s = refl

is_in-run :
    (j : Text) (fs : List Frame) (s : FunctionCallMute)
    → is_in j (run fs s) ≡ is_open j fs (is_in j s)
is_in-run j [] s = refl
is_in-run j (f ∷ fs) s =
    is_in-run j fs (calls_on_frame f s) ∙ ap (is_open j fs) (is_in-on_frame j f s)

muted-empty : (s : FunctionCallMute) → (calls_muted s ≡ false) ↔ ((j : Text) → is_in j s ≡ false)
unfolding calls_muted
muted-empty [] = ((λ h j. refl), (λ h. refl))
muted-empty (x ∷ s) = ((λ h j. ground arith), (λ h. absurd (holds_itself x s (h x))))

-- From no calls in progress and over any frames, the user is not muted exactly when no id is open:
-- an id opens with a batch that has it and closes with its result or its cancellation.
pub muted-is_open :
    (fs : List Frame)
    → (calls_muted (run fs []) ≡ false) ↔ ((id : Text) → is_open id fs false ≡ false)
muted-is_open fs =
    let empty = muted-empty (run fs []) in
    (
      (λ h id. sym (is_in-run id fs []) ∙ empty.0 h id),
      (λ h. empty.1 (λ id. is_in-run id fs [] ∙ h id)),
    )
