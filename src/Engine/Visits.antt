-- ===== src/Engine/Visits.antt =====
-- flowcat-agent/src/engine.rs: `visited`, the names of the nodes that a run has been at.
use flowcat.Base.{
  ◌≡◌, refl, sym, ap, subst, ◌∙◌, inl, inr, Bool, true, false, not, ◌||◌, List, [], ◌∷◌, ◌++◌,
  Option, none, some, any, arith, Bool-cases, if_true, if_false, ok-injective,
}
use mathlib.Core.List.{append-nil, append_assoc}
use flowcat.Base.Text.{Text, text_eq, text_eq_self, text_eq-apart}
use flowcat.Graph.{Node, Edge, node}
use flowcat.Graph.Names.{node_name}
use flowcat.Engine.{Host, Engine, TransitionSpec, record_visit, set_current_node, seat, capture}
use flowcat.Engine.Steps.{move_to}
use flowcat.Engine.Placed.{
  Step, transits, seats, captures, IsPlaced, answer, chosen, on_transition-ok,
}

-- Whether a name is among those.
abbrev pub among : Text → List Text → Bool
among name names = any (λ n. text_eq n name) names

unfoldable pub Distinct : List Text → Type 0
Distinct [] = Unit
Distinct (x ∷ xs) = (among x xs ≡ false) × Distinct xs

among-append :
    (name : Text) (xs ys : List Text) → among name (xs ++ ys) ≡ (among name xs || among name ys)
among-append name [] ys = refl
among-append name (x ∷ xs) ys = ground (arith, among-append name xs ys)

Distinct-append :
    (xs : List Text) (name : Text)
    → Distinct xs
    → among name xs ≡ false
    → Distinct (xs ++ name ∷ [])
unfolding Distinct
Distinct-append [] name d h = (refl, tt)
Distinct-append (x ∷ xs) name d h = (
  ground (arith, among-append x xs (name ∷ []), text_eq-apart x name x, text_eq_self x, d.0),
  Distinct-append xs name d.1 (ground arith),
)

-- The names are distinct, and the active node's is one of them.
pub record IsVisited (e : Engine) : Type 0 where
  pub distinct : Distinct e.visited
  pub present : among (node_name e.current e.graph) e.visited ≡ true

-- What an engine has visited begins with what an earlier one had.
abbrev pub Extends : Engine → Engine → Type 0
Extends e later = (more : List Text) × (later.visited ≡ e.visited ++ more)

pub Extends-trans : (a b c : Engine) → Extends a b → Extends b c → Extends a c
Extends-trans a b c f g =
    (f.0 ++ g.0, g.1 ∙ ap (λ names. names ++ g.0) f.1 ∙ append_assoc a.visited f.0 g.0)

-- Recording a visit.
pub record_visit-IsVisited :
    (e : Engine) → Distinct e.visited → IsVisited (record_visit e) × Extends e (record_visit e)
unfolding record_visit
record_visit-IsVisited e d =
    let name = node_name e.current e.graph in
    elim (Bool-cases (among name e.visited)) [
      | inl again ↦
          subst (λ x. IsVisited x × Extends e x) (sym (if_false _ _ (ap not again)))
            (record { distinct = d; present = again }, ([], sym (append-nil e.visited)))
      | inr first ↦
          subst (λ x. IsVisited x × Extends e x) (sym (if_true _ _ (ap not first)))
            (
              record {
                distinct = Distinct-append e.visited name d first;
                present =
                    ground (arith, among-append name e.visited (name ∷ []), text_eq_self name);
              },
              (name ∷ [], refl),
            )
    ]

moves :
    (to : Text) (e : Engine) → IsVisited e → IsVisited (move_to to e).0 × Extends e (move_to to e).0
unfolding move_to
moves to e v = record_visit-IsVisited (record e { current = to }) v.distinct

answer-IsVisited :
    (e : Engine) (o : Option TransitionSpec)
    → IsVisited e
    → IsVisited (answer e o).0 × Extends e (answer e o).0
answer-IsVisited e none v = (v, ([], sym (append-nil e.visited)))
answer-IsVisited e (some spec) v = moves spec.target e v

seat-IsVisited :
    (id : Text) (e : Engine) (o : Option Node)
    → IsVisited e
    → IsVisited (seat id e o).0 × Extends e (seat id e o).0
seat-IsVisited id e none v = (v, ([], sym (append-nil e.visited)))
seat-IsVisited id e (some n) v = record_visit-IsVisited (record e { current = id }) v.distinct

module _ (host : Host) (raw : List Node) (edges : List Edge) where
  pub Step-IsVisited :
      (e moved : Engine)
      → Step host raw edges e moved
      → IsPlaced host raw edges e
      → IsVisited e
      → IsVisited moved × Extends e moved
  unfolding set_current_node capture
  Step-IsVisited e _ (transits name moved action h) p v =
      subst (λ x. IsVisited x × Extends e x)
        (ap (λ r. r.0) (ok-injective (sym (on_transition-ok host raw edges name e p) ∙ h)))
        (answer-IsVisited e (chosen host raw edges name e) v)
  Step-IsVisited e _ (seats id) p v = seat-IsVisited id e (node id e.graph) v
  Step-IsVisited e _ (captures kvs) p v =
      (record { distinct = v.distinct; present = v.present }, ([], sym (append-nil e.visited)))
