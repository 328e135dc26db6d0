-- ===== src/Graph/Tests.antt =====
-- The minimal graph of the source's tests.
use flowcat.Base.{
  ◌≡◌, err, refl, sym, ap, subst, ◌∙◌, ◌⊎◌, inl, inr, Bool, Bool-cases, true, arith, any, some≢none,
  some-injective, if_true, if_false, ◌++◌, List, [], ◌∷◌, none, some, ok, map, All, keep_if,
}
use flowcat.Base.Text.{Text, codes, null, text_eq, Json, string}
use flowcat.Graph.{
  Node, Edge, Graph, Table, start, agent, end_call, parse, outgoing, node, is_start, insert_nodes,
  is_terminal, dangling_edge, get, no_start, malformed, RawGraph, parse_spec,
}
use flowcat.Graph.Errors.{IsYield, Explains, parse_spec-Explains}
use flowcat.Graph.Outgoing.{outgoing-parse}
use flowcat.Graph.Valid.{IsJoined, parse-IsJoined}

abbrev in_order : Table Node → List Node
in_order nodes = map (λ e. e.1) nodes

abbrev three_nodes : List Node
three_nodes =
    record { id = codes "s"; kind = start; data_json = null }
    ∷ record { id = codes "a"; kind = agent; data_json = null }
    ∷ record { id = codes "e"; kind = end_call; data_json = null }
    ∷ []

abbrev edge : Text → Text → Text → Edge
edge id source target = record {
  id = id;
  source = source;
  target = target;
  label = none;
  data_json = null;
}

abbrev two_edges : List Edge
two_edges =
    edge (codes "e1") (codes "s") (codes "a") ∷ edge (codes "e2") (codes "a") (codes "e") ∷ []

abbrev minimal : Graph
minimal = record {
  nodes =
      (codes "s", record { id = codes "s"; kind = start; data_json = null })
      ∷ (codes "a", record { id = codes "a"; kind = agent; data_json = null })
      ∷ (codes "e", record { id = codes "e"; kind = end_call; data_json = null })
      ∷ [];
  edges = two_edges;
  start_id = codes "s";
  global_id = none;
  adjacency = (codes "s", 0 ∷ []) ∷ (codes "a", 1 ∷ []) ∷ [];
}

parses_minimal : parse in_order three_nodes two_edges ≡ ok minimal
unfolding parse
parses_minimal = refl

outgoing-parse_example :
    outgoing (codes "a") minimal ≡ ok (keep_if (λ e. text_eq e.source (codes "a")) two_edges)
outgoing-parse_example =
    outgoing-parse in_order three_nodes two_edges minimal (codes "a") parses_minimal

parse-IsJoined_example :
    ((n : Node) × ((node (codes "s") minimal ≡ some n) × (is_start n.kind ≡ true)))
    × All (IsJoined minimal.nodes) two_edges
unfolding insert_nodes get
parse-IsJoined_example =
    parse-IsJoined in_order three_nodes two_edges minimal
      ((codes "s", refl), ((codes "a", refl), ((codes "e", refl), tt))) parses_minimal

rejects_dangling_edge :
    parse in_order three_nodes (edge (codes "x") (codes "s") (codes "ghost") ∷ [])
    ≡ flowcat.Base.err (dangling_edge (codes "ghost"))
unfolding parse
rejects_dangling_edge = refl

end_is_terminal : is_terminal (codes "e") minimal ≡ true
unfolding is_terminal
end_is_terminal = refl

get-any :
    (t : Table Node) (p : Node → Bool) (id : Text) (n : Node)
    → get id t ≡ some n
    → p n ≡ true
    → any p (in_order t) ≡ true
unfolding get
get-any [] p id n h k = absurd (some≢none (sym h))
get-any (e ∷ t) p id n h k = elim (Bool-cases (text_eq e.0 id)) [
  | inl same ↦
      let here = ap p (some-injective (sym (if_true _ _ same) ∙ h)) in ground (arith, here, k)
  | inr other ↦
      let there = get-any t p id n (sym (if_false _ _ other) ∙ h) k in ground (arith, there)
]

-- The edge to a ghost, and a text that is no document.
abbrev ghost : RawGraph
ghost = record { nodes = three_nodes; edges = edge (codes "x") (codes "s") (codes "ghost") ∷ [] }

abbrev read : Json → Text ⊎ RawGraph
read null = inr ghost
read _ = inl (codes "no object")

refuses_text : parse_spec in_order read (string []) ≡ err (malformed (codes "no object"))
unfolding parse_spec
refuses_text = refl

-- The start node is overwritten by a later node with its id.
loses_start :
    parse in_order
      (three_nodes ++ record { id = codes "s"; kind = agent; data_json = null } ∷ [])
      []
    ≡ err no_start
unfolding parse
loses_start = refl

three-IsYield : IsYield (insert_nodes three_nodes []) (in_order (insert_nodes three_nodes []))
unfolding insert_nodes get
three-IsYield = (
  ((codes "s", refl), ((codes "a", refl), ((codes "e", refl), tt))),
  get-any (insert_nodes three_nodes []),
)

inr-injective : {a b : RawGraph} → ◌≡◌ {A = Text ⊎ RawGraph} (inr a) (inr b) → a ≡ b
inr-injective h = cc

parse_spec-Explains_example : Explains in_order (read null) (parse_spec in_order read null)
parse_spec-Explains_example = parse_spec-Explains in_order read null (λ raw same.
    subst (λ (g : RawGraph). IsYield (insert_nodes g.nodes []) (in_order (insert_nodes g.nodes [])))
      (inr-injective same) three-IsYield)
