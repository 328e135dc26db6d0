-- ===== src/Engine/Placed.antt =====
-- flowcat-agent/src/engine.rs: where the engine can stand. The steps of an engine are the calls of
-- its host that change it.
use flowcat.Base.{
  ℕ, ◌+◌, ◌≡◌, refl, sym, ap, subst, ◌∙◌, inl, inr, Bool, true, not, List, [], ◌∷◌, Option, none,
  some, any, arith, ok, ◌>>=◌, All, keep_if, ok-injective, Bool-cases, if_true, if_false,
}
use flowcat.Base.Text.{Text, text_eq, Json}
use flowcat.Graph.{Node, Edge, Graph, find, contains_node, node, outgoing, parse}
use flowcat.Graph.Outgoing.{outgoing-parse}
use flowcat.Graph.Valid.{IsJoined, edges-IsJoined, find-All}
use flowcat.Graph.Names.{node_name}
use flowcat.Engine.{
  Host, Engine, Action, TransitionSpec, record_visit, set_current_node, capture, from_graph,
  NodePrompt, stay, seat,
}
use flowcat.Engine.Prompt.{current_prompt, prompt_on, specs, spec_of}
use flowcat.Engine.Steps.{on_transition, move_to}

-- The engine's graph is one that the document parses to, and its node is one of the graph.
pub record IsPlaced (host : Host) (raw : List Node) (edges : List Edge) (e : Engine) : Type 0 where
  pub parsed : parse host.values raw edges ≡ ok e.graph
  pub placed : contains_node e.current e.graph.nodes ≡ true

-- The graph has a node of that id.
abbrev pub Has : Graph → Text → Type 0
Has g id = contains_node id g.nodes ≡ true

pub node-Has : (g : Graph) (id : Text) (n : Node) → node id g ≡ some n → Has g id
unfolding node contains_node
node-Has g id n h = ground arith

All-keep_if :
    {A : Type 0} (P : A → Type 0) (p : A → Bool) (xs : List A) → All P xs → All P (keep_if p xs)
All-keep_if P p [] all = tt
All-keep_if P p (x ∷ xs) all = elim (Bool-cases (p x)) [
  | inl kept ↦ subst (All P) (sym (if_true _ _ kept)) (all.0, All-keep_if P p xs all.1)
  | inr left ↦ subst (All P) (sym (if_false _ _ left)) (All-keep_if P p xs all.1)
]

pub All-map :
    {A : Type 0} (P Q : A → Type 0) (f : (a : A) → P a → Q a) (xs : List A) → All P xs → All Q xs
All-map P Q f [] all = tt
All-map P Q f (x ∷ xs) all = (f x all.0, All-map P Q f xs all.1)

specs-All :
    (host : Host) (P : Text → Type 0) (i : ℕ) (es : List Edge)
    → All (λ e. P e.target) es
    → All (λ (s : TransitionSpec). P s.target) (specs host i es)
unfolding specs spec_of
specs-All host P i [] all = tt
specs-All host P i (e ∷ es) all = (all.0, specs-All host P (i + 1) es all.1)

-- What `on_transition` does with the transition that it found.
abbrev pub answer : Engine → Option TransitionSpec → Engine × Action
answer e none = (e, stay)
answer e (some spec) = move_to spec.target e

module _ (host : Host) (raw : List Node) (edges : List Edge) where
  -- The edges out of any node of a parsed graph are found without a panic, and lead to nodes.
  pub outgoing-Has :
      (g : Graph) (id : Text)
      → parse host.values raw edges ≡ ok g
      → (outgoing id g ≡ ok (keep_if (λ e. text_eq e.source id) edges))
        × All (λ e. Has g e.target) (keep_if (λ e. text_eq e.source id) edges)
  outgoing-Has g id h = (
    outgoing-parse host.values raw edges g id h,
    All-keep_if _ _ edges (
        All-map (IsJoined g.nodes) (λ e. Has g e.target) (λ e j. j.1) edges
          (edges-IsJoined host.values raw edges g h)),
  )

  pub record_visit-IsPlaced :
      (e : Engine) → IsPlaced host raw edges e → IsPlaced host raw edges (record_visit e)
  unfolding record_visit
  record_visit-IsPlaced e p =
      elim (Bool-cases (not (any (λ n. text_eq n (node_name e.current e.graph)) e.visited))) [
        | inl first ↦
            subst (IsPlaced host raw edges) (sym (if_true _ _ first))
              (record { parsed = p.parsed; placed = p.placed })
        | inr again ↦ subst (IsPlaced host raw edges) (sym (if_false _ _ again)) p
      ]

  -- Standing at another node of the same graph.
  reseat :
      (e : Engine) (id : Text)
      → IsPlaced host raw edges e
      → Has e.graph id
      → IsPlaced host raw edges (record_visit (record e { current = id }))
  reseat e id p has =
      record_visit-IsPlaced (record e { current = id }) (record { parsed = p.parsed; placed = has })

  -- At a node of a parsed graph the prompt is composed without a panic or an error, and every
  -- transition it offers leads to a node.
  pub current_prompt-ok :
      (e : Engine)
      → IsPlaced host raw edges e
      → (current_prompt host e
          ≡ ok (prompt_on host e (keep_if (λ x. text_eq x.source e.current) edges)))
        × All
            (λ (s : TransitionSpec). Has e.graph s.target)
            (specs host 0 (keep_if (λ x. text_eq x.source e.current) edges))
  unfolding current_prompt
  current_prompt-ok e p =
      let out = outgoing-Has e.graph e.current p.parsed in
      (
        ap (λ o. from_graph o >>= λ es. ok (prompt_on host e es)) out.0,
        specs-All host (Has e.graph) 0 (keep_if (λ x. text_eq x.source e.current) edges) out.1,
      )

  -- The transition that a name picks at a node.
  abbrev pub chosen : Text → Engine → Option TransitionSpec
  chosen name e =
      find (λ t. text_eq t.name name)
        (specs host 0 (keep_if (λ x. text_eq x.source e.current) edges))

  -- At a node of a parsed graph `on_transition` neither fails nor panics.
  pub on_transition-ok :
      (name : Text) (e : Engine)
      → IsPlaced host raw edges e
      → on_transition host name e ≡ ok (answer e (chosen name e))
  unfolding on_transition
  on_transition-ok name e p =
      ap
        (λ o. o >>= λ (prompt : NodePrompt).
          ok (answer e (find (λ t. text_eq t.name name) prompt.transitions)))
        (current_prompt-ok e p).0

  answer-IsPlaced :
      (name : Text) (e : Engine) (o : Option TransitionSpec)
      → IsPlaced host raw edges e
      → chosen name e ≡ o
      → IsPlaced host raw edges (answer e o).0
  unfolding move_to
  answer-IsPlaced name e none p h = p
  answer-IsPlaced name e (some spec) p h =
      reseat e spec.target p
        (find-All (λ (s : TransitionSpec). Has e.graph s.target) (λ t. text_eq t.name name)
          (specs host 0 (keep_if (λ x. text_eq x.source e.current) edges)) spec
          (current_prompt-ok e p).1 h).0

  pub set_current_node-IsPlaced :
      (id : Text) (e : Engine)
      → IsPlaced host raw edges e
      → IsPlaced host raw edges (set_current_node id e).0
  unfolding set_current_node
  set_current_node-IsPlaced id e p = seated (node id e.graph) refl
    where
      seated : (o : Option Node) → node id e.graph ≡ o → IsPlaced host raw edges (seat id e o).0
      seated none h = p
      seated (some n) h = reseat e id p (node-Has e.graph id n h)

  -- The calls that change an engine.
  pub data Step (e : Engine) : Engine → Type 0 where
    transits :
        (name : Text) (moved : Engine) (action : Action)
        → on_transition host name e ≡ ok (moved, action)
        → Step e moved
    seats : (id : Text) → Step e (set_current_node id e).0
    captures : (kvs : List (Text × Json)) → Step e (capture kvs e)

  pub Step-IsPlaced :
      (e moved : Engine) → Step e moved → IsPlaced host raw edges e → IsPlaced host raw edges moved
  unfolding capture
  Step-IsPlaced e _ (transits name moved action h) p =
      subst (IsPlaced host raw edges)
        (ap (λ r. r.0) (ok-injective (sym (on_transition-ok name e p) ∙ h)))
        (answer-IsPlaced name e (chosen name e) p refl)
  Step-IsPlaced e _ (seats id) p = set_current_node-IsPlaced id e p
  Step-IsPlaced e _ (captures kvs) p = record { parsed = p.parsed; placed = p.placed }
