-- ===== src/Graph/Cardinality/Tests.antt =====
-- A graph whose start node has an edge into it, and one that keeps the rules.
use flowcat.Base.{◌≡◌, refl, List, [], ◌∷◌, none, some, map, All, ◌↔◌}
use flowcat.Base.Text.{Text, codes, null}
use flowcat.Graph.{Node, Edge, Graph, NodeKind, Table, start, agent}
use flowcat.Graph.Cardinality.{cardinality_errors}
use flowcat.Graph.Cardinality.Bounds.{IsAllowed, cardinality_errors-IsAllowed}

abbrev in_order : Table Node → List Node
in_order nodes = map (λ e. e.1) nodes

abbrev entry : Text → NodeKind → Text × Node
entry id kind = (id, record { id = id; kind = kind; data_json = null })

abbrev joins : Text → Text → Edge
joins source target = record {
  id = codes "x";
  source = source;
  target = target;
  label = none;
  data_json = null;
}

abbrev with_edges : List Edge → Graph
with_edges edges = record {
  nodes = entry (codes "s") start ∷ entry (codes "a") agent ∷ [];
  edges = edges;
  start_id = codes "s";
  global_id = none;
  adjacency = [];
}

abbrev looped : Graph
looped = with_edges (joins (codes "s") (codes "a") ∷ joins (codes "a") (codes "s") ∷ [])

flags_edge_into_start :
    cardinality_errors in_order looped
    ≡ record {
      kind = codes "node";
      id = some (codes "s");
      message = codes "Start node \"s\": cannot have incoming edges";
    }
      ∷ []
unfolding cardinality_errors
flags_edge_into_start = refl

cardinality_errors-IsAllowed_example :
    (cardinality_errors in_order looped ≡ []) ↔ All (IsAllowed looped.edges) (in_order looped.nodes)
cardinality_errors-IsAllowed_example = cardinality_errors-IsAllowed in_order looped
