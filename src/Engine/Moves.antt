-- ===== src/Engine/Moves.antt =====
-- flowcat-agent/src/engine.rs: the nodes that a run can get to.
use flowcat.Base.{
  ℕ, ◌+◌, ◌≡◌, refl, sym, ap, subst, ◌∙◌, ◌⊎◌, inl, inr, Bool, true, false, not, List, [], ◌∷◌,
  some, any, map, keep_if, Bool-cases, if_true, if_false, arith, Outcome, ok, ◌>>=◌,
}
use flowcat.Base.Text.{Text, text_eq, text_eq→eq, eq→text_eq}
use flowcat.Graph.{Node, Edge, find}
use flowcat.Graph.Names.{node_name}
use flowcat.Engine.{Host, Engine, EngineError, Action, TransitionSpec, record_visit}
use flowcat.Engine.Prompt.{specs, spec_of}
use flowcat.Engine.Steps.{move_to, on_transition}
use flowcat.Engine.Placed.{IsPlaced, transits, answer, on_transition-ok, Step-IsPlaced}
use flowcat.Engine.Visits.{Distinct, among}

-- Membership, by recursion.
abbrev pub IsIn : {A : Type 0} → A → List A → Type 0
IsIn a [] = ⊥
IsIn a (x ∷ xs) = (x ≡ a) ⊎ IsIn a xs

-- The path from a node to another along the edges.
pub data Leads (edges : List Edge) : Text → Text → Type 0 where
  arrived : (id : Text) → Leads edges id id
  along :
      (edge : Edge) (to : Text)
      → IsIn edge edges
      → Leads edges edge.target to
      → Leads edges edge.source to

abbrev pub names : List TransitionSpec → List Text
names ts = map (λ t. t.name) ts

IsIn-keep_if :
    {A : Type 0} (p : A → Bool) (a : A) (xs : List A)
    → p a ≡ true
    → IsIn a xs
    → IsIn a (keep_if p xs)
IsIn-keep_if p a [] h m = m
IsIn-keep_if p a (x ∷ xs) h (inl e) = subst (IsIn a) (sym (if_true _ _ (ap p e ∙ h))) (inl e)
IsIn-keep_if p a (x ∷ xs) h (inr m) = elim (Bool-cases (p x)) [
  | inl kept ↦ subst (IsIn a) (sym (if_true _ _ kept)) (inr (IsIn-keep_if p a xs h m))
  | inr left ↦ subst (IsIn a) (sym (if_false _ _ left)) (IsIn-keep_if p a xs h m)
]

-- The transition that an edge gives.
IsIn-specs :
    (host : Host) (i : ℕ) (edge : Edge) (es : List Edge)
    → IsIn edge es
    → (s : TransitionSpec) × (IsIn s (specs host i es) × (s.target ≡ edge.target))
unfolding specs spec_of
IsIn-specs host i edge [] m = absurd m
IsIn-specs host i edge (e ∷ es) (inl same) = (spec_of host i e, (inl refl, ap (λ x. x.target) same))
IsIn-specs host i edge (e ∷ es) (inr m) =
    let later = IsIn-specs host (i + 1) edge es m in (later.0, (inr later.1.0, later.1.1))

among-IsIn :
    (s : TransitionSpec) (ts : List TransitionSpec) → IsIn s ts → among s.name (names ts) ≡ true
among-IsIn s [] m = absurd m
among-IsIn s (t ∷ ts) (inl e) =
    let same = eq→text_eq t.name s.name (ap (λ x. x.name) e) in ground arith
among-IsIn s (t ∷ ts) (inr m) = ground (arith, among-IsIn s ts m)

-- Where the names are distinct, a name finds the transition that has it.
find-IsIn :
    (s : TransitionSpec) (ts : List TransitionSpec)
    → Distinct (names ts)
    → IsIn s ts
    → find (λ t. text_eq t.name s.name) ts ≡ some s
unfolding find Distinct
find-IsIn s [] d m = absurd m
find-IsIn s (t ∷ ts) d (inl e) =
    if_true _ _ (eq→text_eq t.name s.name (ap (λ x. x.name) e)) ∙ ap some e
find-IsIn s (t ∷ ts) d (inr m) = elim (Bool-cases (text_eq t.name s.name)) [
  | inl same ↦
      let here = among-IsIn s ts m in
      let none_here : among s.name (names ts) ≡ false =
        subst (λ n. among n (names ts) ≡ false) (text_eq→eq t.name s.name same) d.0 in
      ground (arith, here, none_here)
  | inr other ↦ if_false _ _ other ∙ find-IsIn s ts d.1 m
]

-- Recording a visit leaves the engine where it stands.
record_visit-current : (e : Engine) → (record_visit e).current ≡ e.current
unfolding record_visit
record_visit-current e =
    elim (Bool-cases (not (any (λ n. text_eq n (node_name e.current e.graph)) e.visited))) [
      | inl first ↦ ap (λ (x : Engine). x.current) (if_true _ _ first)
      | inr again ↦ ap (λ (x : Engine). x.current) (if_false _ _ again)
    ]

-- Transitions by name, one after another.
abbrev pub transit_all : Host → List Text → Engine → Outcome EngineError Engine
transit_all host [] e = ok e
transit_all host (name ∷ said) e = on_transition host name e >>= λ r. transit_all host said r.0

module _ (host : Host) (raw : List Node) (edges : List Edge) where
  -- The names that the model is offered at a node are distinct.
  abbrev pub HasNames : Text → Type 0
  HasNames id = Distinct (names (specs host 0 (keep_if (λ x. text_eq x.source id) edges)))

  -- An edge out of the node is taken by the transition that it gives.
  takes :
      (e : Engine) (edge : Edge)
      → IsPlaced host raw edges e
      → HasNames e.current
      → IsIn edge edges
      → edge.source ≡ e.current
      → (name : Text) × ((moved : Engine × Action) × ((on_transition host name e ≡ ok moved)
            × (moved.0.current ≡ edge.target)))
  unfolding move_to
  takes e edge p d m h =
      let out = keep_if (λ x. text_eq x.source e.current) edges in
      let kept =
        IsIn-keep_if (λ x. text_eq x.source e.current) edge edges
          (eq→text_eq edge.source e.current h) m in
      let offered = IsIn-specs host 0 edge out kept in
      let found = find-IsIn offered.0 (specs host 0 out) d offered.1.0 in
      (
        offered.0.name,
        (
          move_to offered.0.target e,
          (
            on_transition-ok host raw edges offered.0.name e p ∙ ap (λ o. ok (answer e o)) found,
            record_visit-current (record e { current = offered.0.target }) ∙ offered.1.1,
          ),
        ),
      )

  -- Where the transitions out of each node have distinct names, some names that the model may say take the engine, by
  -- transitions alone, from the active node to any node that the edges lead to from it.
  pub Leads-transit_all :
      (from to : Text)
      → ((id : Text) → HasNames id)
      → Leads edges from to
      → (e : Engine) → IsPlaced host raw edges e
      → from ≡ e.current
      → (said : List Text) × ((last : Engine) × ((transit_all host said e ≡ ok last)
            × (last.current ≡ to)))
  Leads-transit_all _ _ d (arrived id) e p h = ([], (e, (refl, sym h)))
  Leads-transit_all _ _ d (along edge to m more) e p h =
      let (name, (moved, (taken, there))) = takes e edge p (d e.current) m h in
      let rest =
        Leads-transit_all edge.target to d more moved.0
          (Step-IsPlaced host raw edges e moved.0 (transits name moved.0 moved.1 taken) p)
          (sym there) in
      (
        name ∷ rest.0,
        (
          rest.1.0,
          (ap (λ o. o >>= λ r. transit_all host rest.0 r.0) taken ∙ rest.1.1.0, rest.1.1.1),
        ),
      )
