-- ===== src/Graph/Cardinality.antt =====
-- flowcat-agent/src/graph.rs: `cardinality_errors`, what the editor reports of the edges at a node.
pub mod Bounds
mod Tests
use flowcat.Base.{
  ℕ, zero, suc, ◌+◌, ◌/◌, ◌%◌, Bool, true, false, List, [], ◌∷◌, ◌++◌, Option, none, some,
  if◌then◌else◌, ltb, ◌==◌, map,
}
use flowcat.Base.Decimal.{show}
use flowcat.Base.Text.{Text, codes}
use flowcat.Graph.{Node, Edge, Graph, NodeKind, edge_bounds, EdgeBounds, label, Table, get, put}

pub record ValidationError : Type 0 where
  pub kind : Text
  pub id : Option Text
  pub message : Text

-- `in_deg.get(id).copied().unwrap_or(0)`
unfoldable pub degree : Text → Table ℕ → ℕ
unfolding get
degree id table = elim (get id table) [ none ↦ 0 | some n ↦ n ]

-- `*in_deg.entry(id).or_insert(0) += 1`
unfoldable pub bump : Text → Table ℕ → Table ℕ
unfolding degree put
bump id table = put id (degree id table + 1) table

-- The loop over `nodes.keys()`.
unfoldable pub zeros : Table Node → Table ℕ → Table ℕ
unfolding put
zeros [] table = table
zeros (e ∷ es) table = zeros es (put e.0 0 table)

-- The loop over the edges, for one end of each.
unfoldable pub tally : (Edge → Text) → List Edge → Table ℕ → Table ℕ
unfolding bump
tally at [] table = table
tally at (e ∷ es) table = tally at es (bump (at e) table)

unfoldable pub degrees : (Edge → Text) → Graph → Table ℕ
unfolding zeros tally
degrees at g = tally at g.edges (zeros g.nodes [])

unfoldable pub under : Text → Option ℕ → ℕ → List Text
unfolding show
under side none n = []
under side (some m) n =
    if ltb n m
    then (codes "must have at least " ++ show m ++ codes " " ++ side ++ codes " edge(s)") ∷ []
    else []

unfoldable pub over : Text → Option ℕ → ℕ → List Text
unfolding show
over side none n = []
over side (some m) n =
    if ltb m n
    then (if m == 0
        then codes "cannot have " ++ side ++ codes " edges"
        else codes "must have at most " ++ show m ++ codes " " ++ side ++ codes " edge(s)")
      ∷ []
    else []

-- `msgs`
unfoldable pub messages : EdgeBounds → ℕ → ℕ → List Text
unfolding under over
messages b i o =
    (under (codes "incoming") b.min_in i ++ over (codes "incoming") b.max_in i)
    ++ (under (codes "outgoing") b.min_out o ++ over (codes "outgoing") b.max_out o)

unfoldable pub report : Node → Text → ValidationError
unfolding label
report n message = record {
  kind = codes "node";
  id = some n.id;
  message = label n.kind ++ codes " node \"" ++ n.id ++ codes "\": " ++ message;
}

-- The loop over `nodes.values()`.
unfoldable pub node_errors : Table ℕ → Table ℕ → List Node → List ValidationError
unfolding edge_bounds messages report degree
node_errors in_deg out_deg [] = []
node_errors in_deg out_deg (n ∷ ns) =
    map (report n) (messages (edge_bounds n.kind) (degree n.id in_deg) (degree n.id out_deg))
    ++ node_errors in_deg out_deg ns

unfoldable pub cardinality_errors : (Table Node → List Node) → Graph → List ValidationError
unfolding degrees node_errors
cardinality_errors values g =
    node_errors (degrees (λ e. e.target) g) (degrees (λ e. e.source) g) (values g.nodes)
