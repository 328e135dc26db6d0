-- ===== src/Engine/Pinned.antt =====
-- flowcat-agent/src/engine.rs: the numbers that a transfer dials, which the conversation cannot change.
use flowcat.Base.{
  ℕ, ◌+◌, ◌≡◌, refl, sym, ap, ap₂, subst, ◌∙◌, inl, inr, Bool, Bool-cases, true, false, not, List,
  [], ◌∷◌, Option, none, some, arith, Outcome, ok, err, panic, ◌>>=◌, map, some-injective,
  some≢none, any, All, err≢ok, panic≢ok, ok-injective,
}
use flowcat.Base.Text.{Text, codes, text_eq_self, text_eq, Json, is_empty}
use flowcat.Base.Values.{map_some, filter, filter_map}
use flowcat.Graph.{Edge, GraphError, Table, find, node, outgoing}
use flowcat.Engine.{
  Host, Engine, Action, NodePrompt, transfer, TransferTarget, TransferMode, capture, from_graph,
}
use flowcat.Engine.Prompt.{
  target_of, targets, phone_of, targets_at, current_prompt, prompt_on, entries,
}
use flowcat.Engine.Placed.{All-map}
use flowcat.Graph.Names.{str_at}
use flowcat.Graph.Valid.{find-All}
use flowcat.Base.Scan.{trim}
use flowcat.Engine.Steps.{on_transfer, transfer_action}

-- The number, the name and the mode of an action.
unfoldable pub pinned : Action → Option (Text × (Option Text × TransferMode))
pinned (transfer phone name say mode) = some (phone, (name, mode))
pinned _ = none

abbrev Fixed : Type 0
Fixed = Text × (Text × (Option Text × TransferMode))

-- A target but for what is said of it.
abbrev fixed : TransferTarget → Fixed
fixed t = (t.name, (t.target_phone, (t.target_name, t.mode)))

map_some-map_some :
    {A B C : Type 0} (g : B → C) (f h : A → B) (o : Option A)
    → ((a : A) → g (f a) ≡ g (h a))
    → map_some g (map_some f o) ≡ map_some g (map_some h o)
map_some-map_some g f h none e = refl
map_some-map_some g f h (some a) e = ap some (e a)

module _ (host : Host) (vars others : Table Json) where
  target_of-fixed :
      (i : ℕ) (t : Json)
      → map_some fixed (target_of host vars i t) ≡ map_some fixed (target_of host others i t)
  unfolding target_of
  target_of-fixed i t = map_some-map_some fixed _ _ (phone_of t) (λ phone. refl)

  targets-fixed :
      (i : ℕ) (ts : List Json)
      → map fixed (targets host vars i ts) ≡ map fixed (targets host others i ts)
  unfolding targets
  targets-fixed i [] = refl
  targets-fixed i (t ∷ ts) =
      kept _ _ (target_of host vars i t) (target_of host others i t) (target_of-fixed i t)
        (targets-fixed (i + 1) ts)
    where
      kept :
          (xs ys : List TransferTarget) (a b : Option TransferTarget)
          → map_some fixed a ≡ map_some fixed b
          → map fixed xs ≡ map fixed ys
          → map fixed (elim a [ none ↦ xs | some x ↦ x ∷ xs ])
            ≡ map fixed (elim b [ none ↦ ys | some y ↦ y ∷ ys ])
      kept xs ys none none e rest = rest
      kept xs ys (some a) (some b) e rest = ap₂ (λ x xs. x ∷ xs) (some-injective e) rest
      kept xs ys none (some b) e rest = absurd (some≢none (sym e))
      kept xs ys (some a) none e rest = absurd (some≢none e)

find-fixed :
    (name : Text) (xs : List TransferTarget)
    → map_some fixed (find (λ t. text_eq t.name name) xs)
      ≡ find (λ (f : Fixed). text_eq f.0 name) (map fixed xs)
unfolding find
find-fixed name [] = refl
find-fixed name (x ∷ xs) = ground (arith, find-fixed name xs)

pinned-transfer_action :
    (o : Option TransferTarget)
    → pinned (transfer_action o) ≡ map_some (λ (f : Fixed). f.1) (map_some fixed o)
unfolding pinned
pinned-transfer_action none = refl
pinned-transfer_action (some t) = refl

abbrev named : Text → List TransferTarget → Option TransferTarget
named name ts = find (λ t. text_eq t.name name) ts

module _ (name : Text) where
  pinned-named :
      (xs ys : List TransferTarget)
      → map fixed xs ≡ map fixed ys
      → pinned (transfer_action (named name xs)) ≡ pinned (transfer_action (named name ys))
  pinned-named xs ys e =
      pinned-transfer_action (named name xs)
      ∙ ap (map_some (λ (f : Fixed). f.1)) (
          find-fixed name xs
          ∙ ap (find (λ (f : Fixed). text_eq f.0 name)) e
          ∙ sym (find-fixed name ys))
      ∙ sym (pinned-transfer_action (named name ys))

  through :
      (o : Outcome GraphError (List Edge)) (f h : List Edge → NodePrompt)
      → ((es : List Edge) → map fixed (f es).transfer_targets ≡ map fixed (h es).transfer_targets)
      → (((from_graph o >>= λ es. ok (f es)) >>= λ prompt.
            ok (transfer_action (named name prompt.transfer_targets)))
          >>= λ a. ok (pinned a))
        ≡ (((from_graph o >>= λ es. ok (h es)) >>= λ prompt.
              ok (transfer_action (named name prompt.transfer_targets)))
            >>= λ a. ok (pinned a))
  through (err e) f h same = refl
  through panic f h same = refl
  through (ok es) f h same =
      ap ok (pinned-named (f es).transfer_targets (h es).transfer_targets (same es))

-- Whatever the conversation captures, a transfer by name is refused as before or dials the same number, with the
-- same name and mode.
pub on_transfer-capture :
    (host : Host) (name : Text) (kvs : List (Text × Json)) (e : Engine)
    → (on_transfer host name (capture kvs e) >>= λ a. ok (pinned a))
      ≡ (on_transfer host name e >>= λ a. ok (pinned a))
unfolding on_transfer current_prompt targets_at capture
on_transfer-capture host name kvs e =
    through name (outgoing e.current e.graph) (prompt_on host (capture kvs e)) (prompt_on host e)
      (λ es. targets-fixed host (capture kvs e).vars e.vars 0 (entries (node e.current e.graph)))

-- The number that an entry of the node's configuration gives, trimmed.
abbrev configured : Json → Option Text
configured t = map_some trim (str_at (codes "target_phone") t)

-- The numbers that the node's configuration lists.
abbrev pub numbers : Engine → List Text
numbers e = filter_map configured (entries (node e.current e.graph))

-- An entry that is kept is an entry that is there.
any-filter :
    {A : Type 0} (keep p : Text → Bool) (f : A → Option Text) (xs : List A)
    → any p (filter_map (λ x. filter keep (f x)) xs) ≡ true
    → any p (filter_map f xs) ≡ true
any-filter keep p f [] h = h
any-filter keep p f (x ∷ xs) h = at (f x) (any-filter keep p f xs) h
  where
    found : Option Text → List Text → Bool
    found o more = any p (elim o as (λ y. List Text) [ none ↦ more | some b ↦ b ∷ more ])

    at :
        (o : Option Text)
        → (any p (filter_map (λ x. filter keep (f x)) xs) ≡ true → any p (filter_map f xs) ≡ true)
        → found (filter keep o) (filter_map (λ x. filter keep (f x)) xs) ≡ true
        → found o (filter_map f xs) ≡ true
    at none later k = later k
    at (some b) later k = elim (Bool-cases (keep b)) [
      | inl kept ↦ ground (arith, kept, k, later)
      | inr left ↦ ground (arith, left, k, later)
    ]

-- A number that is listed, and is not empty.
abbrev IsListed : List Text → Text → Type 0
IsListed phones phone = (any (λ p. text_eq p phone) phones ≡ true) × (is_empty phone ≡ false)

more-IsListed :
    (p : Text) (phones : List Text) (phone : Text)
    → IsListed phones phone
    → IsListed (p ∷ phones) phone
more-IsListed p phones phone h = (ground (arith, h.0), h.1)

filter-is_empty :
    (o : Option Text) (s : Text) → filter (λ s. not (is_empty s)) o ≡ some s → is_empty s ≡ false
filter-is_empty none s h = absurd (some≢none (sym h))
filter-is_empty (some []) s h = absurd (some≢none (sym h))
filter-is_empty (some (c ∷ t)) s h = subst (λ x. is_empty x ≡ false) (some-injective h) refl

consider-IsListed :
    (o : Option Text) (f : Text → TransferTarget) (phones : List Text) (rest : List TransferTarget)
    → ((s : Text) → (f s).target_phone ≡ s)
    → ((s : Text) → o ≡ some s → is_empty s ≡ false)
    → All (λ (t : TransferTarget). IsListed phones t.target_phone) rest
    → All
        (λ (t : TransferTarget).
          IsListed (elim o [ none ↦ phones | some p ↦ p ∷ phones ]) t.target_phone)
        (elim (map_some f o) [ none ↦ rest | some t ↦ t ∷ rest ])
consider-IsListed none f phones rest own full all = all
consider-IsListed (some p) f phones rest own full all = (
  subst (IsListed (p ∷ phones)) (sym (own p)) (ground (arith, text_eq_self p), full p refl),
  All-map _ _ (λ (t : TransferTarget) h. more-IsListed p phones t.target_phone h) rest all,
)

targets-IsListed :
    (host : Host) (vars : Table Json) (i : ℕ) (ts : List Json)
    → All
        (λ (t : TransferTarget). IsListed (filter_map phone_of ts) t.target_phone)
        (targets host vars i ts)
unfolding targets phone_of
targets-IsListed host vars i [] = tt
targets-IsListed host vars i (t ∷ ts) =
    consider-IsListed (phone_of t) _ (filter_map phone_of ts) (targets host vars (i + 1) ts)
      (λ s. refl) (filter-is_empty (map_some trim (str_at (codes "target_phone") t)))
      (targets-IsListed host vars (i + 1) ts)

module _ (host : Host) (name : Text) (e : Engine) where
  action-IsListed :
      (o : Option TransferTarget) (phone : Text) (to say : Option Text) (mode : TransferMode)
      → named name (targets_at host e) ≡ o
      → transfer_action o ≡ transfer phone to say mode
      → IsListed (numbers e) phone
  unfolding targets_at pinned phone_of
  action-IsListed none phone to say mode h a = absurd (some≢none (sym (ap pinned a)))
  action-IsListed (some t) phone to say mode h a =
      subst (IsListed (numbers e)) (ap (λ x. x.0) (some-injective (ap pinned a))) (
        any-filter (λ s. not (is_empty s)) (λ p. text_eq p t.target_phone) configured listed
            found.0,
        found.1,
      )
    where
      listed : List Json
      listed = entries (node e.current e.graph)

      found : IsListed (filter_map phone_of listed) t.target_phone
      found =
          (find-All (λ (x : TransferTarget). IsListed (filter_map phone_of listed) x.target_phone)
            (λ x. text_eq x.name name) (targets_at host e) t (targets-IsListed host e.vars 0 listed)
            h).0

  -- A number that a transfer dials is, without the spaces around it, one that the configuration of the active node lists, and
  -- it is not empty, whatever the model asked for.
  pub on_transfer-listed :
      (phone : Text) (to say : Option Text) (mode : TransferMode)
      → on_transfer host name e ≡ ok (transfer phone to say mode)
      → (any (λ p. text_eq p phone) (numbers e) ≡ true) × (is_empty phone ≡ false)
  unfolding on_transfer current_prompt
  on_transfer-listed phone to say mode h = answered (outgoing e.current e.graph) h
    where
      answered :
          (o : Outcome GraphError (List Edge))
          → ((from_graph o >>= λ es. ok (prompt_on host e es)) >>= λ (prompt : NodePrompt).
              ok (transfer_action (named name prompt.transfer_targets)))
            ≡ ok (transfer phone to say mode)
          → IsListed (numbers e) phone
      answered (err x) k = absurd (err≢ok k)
      answered panic k = absurd (panic≢ok k)
      answered (ok es) k =
          action-IsListed (named name (targets_at host e)) phone to say mode refl (ok-injective k)
