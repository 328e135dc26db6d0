-- ===== src/Engine/Runs.antt =====
-- flowcat-agent/src/engine.rs: a run, which `Engine::new` begins and the calls of the host go on with.
use flowcat.Base.{
  ◌≡◌, refl, sym, ap, subst, ◌∙◌, true, not, List, [], ◌∷◌, Option, none, some, Outcome, ok, ◌>>=◌,
  All, keep_if, ok-injective, Bool-cases, inl, inr, if_true, if_false,
}
use mathlib.Core.List.{append-nil}
use flowcat.Base.Text.{text_eq, Json}
use flowcat.Graph.{Node, Edge, Graph, Table, node, outgoing, parse, insert_nodes, is_start}
use flowcat.Graph.Valid.{IsYielded, parse-IsJoined}
use flowcat.Engine.{
  Host, Engine, EngineError, new, advance_through_start, record_visit, from_graph, NodePrompt,
  follow_first, has_prompt, leave_start,
}
use flowcat.Graph.Names.{node_name}
use flowcat.Engine.Prompt.{current_prompt}
use flowcat.Engine.Placed.{
  current_prompt-ok, IsPlaced, Has, Step, node-Has, outgoing-Has, record_visit-IsPlaced,
  Step-IsPlaced,
}
use flowcat.Engine.Visits.{
  among, IsVisited, Distinct, Extends, Extends-trans, record_visit-IsVisited, Step-IsVisited,
}

module _ (host : Host) (raw : List Node) (edges : List Edge) where
  -- A sequence of calls.
  pub data Run : Engine → Engine → Type 0 where
    still : (e : Engine) → Run e e
    then_call : (e moved last : Engine) → Step host raw edges e moved → Run moved last → Run e last

  -- The engine that `new` sets up on a graph, before it advances.
  abbrev begun : Json → Table Json → Graph → Engine
  begun options seed g = record {
    graph = g;
    current = g.start_id;
    vars = seed;
    runtime_options = options;
    visited = [];
  }

  follow_first-IsPlaced :
      (e : Engine) (es : List Edge)
      → IsPlaced host raw edges e
      → All (λ x. Has e.graph x.target) es
      → IsPlaced host raw edges (follow_first e es) × ((follow_first e es).visited ≡ e.visited)
  follow_first-IsPlaced e [] p all = (p, refl)
  follow_first-IsPlaced e (x ∷ es) p all = (record { parsed = p.parsed; placed = all.0 }, refl)

  -- What `advance_through_start` gives at a node of a parsed graph.
  abbrev Advances : Engine → Outcome EngineError Engine → Type 0
  Advances e r =
      (later : Engine) × ((r ≡ ok later)
        × (IsPlaced host raw edges later × (later.visited ≡ e.visited)))

  followed :
      (e : Engine)
      → IsPlaced host raw edges e
      → Advances e (from_graph (outgoing e.current e.graph) >>= λ es. ok (follow_first e es))
  followed e p =
      let out = outgoing-Has host raw edges e.graph e.current p.parsed in
      let es = keep_if (λ x. text_eq x.source e.current) edges in
      (
        follow_first e es,
        (
          ap (λ o. from_graph o >>= λ xs. ok (follow_first e xs)) out.0,
          follow_first-IsPlaced e es p out.1,
        ),
      )

  leave_start-Advances :
      (e : Engine) (o : Option Node) → IsPlaced host raw edges e → Advances e (leave_start e o)
  leave_start-Advances e none p = (e, (refl, (p, refl)))
  leave_start-Advances e (some n) p = elim (Bool-cases (not (is_start n.kind))) [
    | inl elsewhere ↦ (e, (if_true _ _ elsewhere, (p, refl)))
    | inr at_start ↦ elim (Bool-cases (has_prompt n)) [
      | inl speaks ↦ (e, (if_false _ _ at_start ∙ if_true _ _ speaks, (p, refl)))
      | inr silent ↦
          subst (Advances e) (sym (if_false _ _ at_start ∙ if_false _ _ silent)) (followed e p)
    ]
  ]

  -- Where the node table yields its own values and the document parses, `new` gives an engine at a node of the
  -- graph, whose name is the only one visited.
  pub new-IsPlaced :
      (options : Json) (seed : Table Json) (g : Graph)
      → All (IsYielded (insert_nodes raw [])) (host.values (insert_nodes raw []))
      → parse host.values raw edges ≡ ok g
      → (e : Engine) × ((new host raw edges options seed ≡ ok e)
          × (IsPlaced host raw edges e × IsVisited e))
  unfolding new advance_through_start Distinct
  new-IsPlaced options seed g yields h =
      let start = (parse-IsJoined host.values raw edges g yields h).0 in
      let at = begun options seed g in
      let placed : IsPlaced host raw edges at = record {
        parsed = h;
        placed = node-Has g g.start_id start.0 start.1.0;
      } in
      let later = leave_start-Advances at (node g.start_id g) placed in
      (
        record_visit later.0,
        (
          ap
                (λ o. from_graph o >>= λ x.
                  advance_through_start (begun options seed x) >>= λ y. ok (record_visit y))
                h
              ∙ ap (λ o. o >>= λ y. ok (record_visit y)) later.1.0,
          (
            record_visit-IsPlaced host raw edges later.0 later.1.1.0,
            (record_visit-IsVisited later.0 (subst Distinct (sym later.1.1.1) tt)).0,
          ),
        ),
      )

  -- After any sequence of calls the engine stands at a node of the graph, the prompt is composed without a panic, the names visited are
  -- distinct, begin with those visited before, and have the active node's among them.
  pub Run-keeps :
      (e last : Engine)
      → Run e last
      → IsPlaced host raw edges e
      → IsVisited e
      → IsPlaced host raw edges last × (IsVisited last × Extends e last)
  Run-keeps e _ (still _) p v = (p, (v, ([], sym (append-nil e.visited))))
  Run-keeps e _ (then_call _ moved last call more) p v =
      let kept = Step-IsVisited host raw edges e moved call p v in
      let rest = Run-keeps moved last more (Step-IsPlaced host raw edges e moved call p) kept.0 in
      (rest.0, (rest.1.0, Extends-trans e moved last kept.1 rest.1.1))

  -- Where the node table yields its own values and the document parses, `new` gives an engine, and after any sequence
  -- of calls on it the engine stands at a node of the graph, the prompt and the transitions of that node are composed
  -- without an error or a panic, the names visited are distinct, and the active node's is one of them.
  pub new-Run :
      (options : Json) (seed : Table Json) (g : Graph)
      → All (IsYielded (insert_nodes raw [])) (host.values (insert_nodes raw []))
      → parse host.values raw edges ≡ ok g
      → (e : Engine) × ((new host raw edges options seed ≡ ok e)
          × ((last : Engine)
              → Run e last
              → Has g last.current
                × (((prompt : NodePrompt) × (current_prompt host last ≡ ok prompt))
                    × (Distinct last.visited
                        × (among (node_name last.current g) last.visited ≡ true)))))
  new-Run options seed g yields h =
      let made = new-IsPlaced options seed g yields h in
      (
        made.0,
        (
          made.1.0,
          λ last run.
              let kept = Run-keeps made.0 last run made.1.1.0 made.1.1.1 in
              let same : last.graph ≡ g = ok-injective (sym kept.0.parsed ∙ h) in
              (
                subst (λ x. Has x last.current) same kept.0.placed,
                (
                  (_, (current_prompt-ok host raw edges last kept.0).0),
                  (
                    kept.1.0.distinct,
                    subst (λ x. among (node_name last.current x) last.visited ≡ true) same
                        kept.1.0.present,
                  ),
                ),
              ),
        ),
      )
