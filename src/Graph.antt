-- ===== src/Graph.antt =====
-- flowcat-agent/src/graph.rs: the workflow graph that an agent traverses. A `HashMap` is an
-- association list with one entry for each key; the order in which it yields its values is the
-- hasher's, and a parameter; so is what `serde` reads of the document, its error or its nodes and its edges.
pub mod Outgoing
pub mod Valid
pub mod Cardinality
pub mod Names
pub mod Errors
mod Tests
use flowcat.Base.{
  ℕ, zero, suc, ◌+◌, Bool, true, false, not, ◌||◌, List, [], ◌∷◌, ◌++◌, Option, none, some, ◌⊎◌,
  inl, inr, if◌then◌else◌, ltb, Outcome, ok, err, panic, ◌>>=◌, index,
}
use flowcat.Base.Text.{Text, text_eq, codes, Json, Fields, object, string, null, is_empty}

pub data NodeKind : Type 0 where
  start agent end_call global trigger webhook qa tuner other : NodeKind

-- `kind == NodeKind::Start` and its like
unfoldable pub is_start : NodeKind → Bool
is_start start = true
is_start _ = false

unfoldable pub is_global : NodeKind → Bool
is_global global = true
is_global _ = false

unfoldable pub is_end : NodeKind → Bool
is_end end_call = true
is_end _ = false

pub record EdgeBounds : Type 0 where
  pub min_in : Option ℕ
  pub max_in : Option ℕ
  pub min_out : Option ℕ
  pub max_out : Option ℕ

abbrev bounds : Option ℕ → Option ℕ → Option ℕ → Option ℕ → EdgeBounds
bounds a b c d = record { min_in = a; max_in = b; min_out = c; max_out = d }

unfoldable pub edge_bounds : NodeKind → EdgeBounds
edge_bounds start = bounds none (some 0) none none
edge_bounds trigger = bounds none (some 0) none none
edge_bounds agent = bounds (some 1) none none none
edge_bounds end_call = bounds (some 1) none (some 0) (some 0)
edge_bounds other = bounds none none none none
edge_bounds _ = bounds (some 0) (some 0) (some 0) (some 0)

unfoldable pub label : NodeKind → Text
label start = codes "Start"
label agent = codes "Agent"
label end_call = codes "End"
label global = codes "Global"
label trigger = codes "Trigger"
label webhook = codes "Webhook"
label qa = codes "QA"
label tuner = codes "Tuner"
label other = codes "Node"

pub record Node : Type 0 where
  pub id : Text
  pub kind : NodeKind
  pub data_json : Json

pub record Edge : Type 0 where
  pub id : Text
  pub source : Text
  pub target : Text
  pub label : Option Text
  pub data_json : Json

pub data GraphError : Type 0 where
  no_start : GraphError
  dangling_edge : Text → GraphError
  malformed : Text → GraphError

abbrev pub Table : Type 0 → Type 0
Table A = List (Text × A)

module _ {A : Type 0} where
  -- `HashMap::get`
  unfoldable pub get : Text → Table A → Option A
  unfolding text_eq
  get k [] = none
  get k (e ∷ es) = if text_eq e.0 k then some e.1 else get k es

  -- `HashMap::insert`
  unfoldable pub put : Text → A → Table A → Table A
  unfolding text_eq
  put k v [] = (k, v) ∷ []
  put k v (e ∷ es) = let rest = put k v es in if text_eq e.0 k then (k, v) ∷ es else e ∷ rest

  -- `find`
  unfoldable pub find : (A → Bool) → List A → Option A
  find p [] = none
  find p (x ∷ xs) = if p x then some x else find p xs

unfoldable pub contains_node : Text → Table Node → Bool
unfolding get
contains_node k nodes = elim (get k nodes) [ none ↦ false | some _ ↦ true ]

-- `entry(k).or_default()`
unfoldable pub indices : Text → Table (List ℕ) → List ℕ
unfolding get
indices k table = elim (get k table) [ none ↦ [] | some is ↦ is ]

pub record Graph : Type 0 where
  pub nodes : Table Node
  pub edges : List Edge
  pub start_id : Text
  pub global_id : Option Text
  pub adjacency : Table (List ℕ)

-- The loop over `raw.nodes`.
unfoldable pub insert_nodes : List Node → Table Node → Table Node
unfolding put
insert_nodes [] nodes = nodes
insert_nodes (n ∷ ns) nodes = insert_nodes ns (put n.id n nodes)

-- The loop over the edges, from the index of the first.
unfoldable pub link :
    Table Node → ℕ → List Edge → Table (List ℕ) → Outcome GraphError (Table (List ℕ))
unfolding contains_node put indices
link nodes idx [] adjacency = ok adjacency
link nodes idx (e ∷ es) adjacency =
    let rest =
      link nodes (idx + 1) es (put e.source (indices e.source adjacency ++ idx ∷ []) adjacency) in
    if not (contains_node e.source nodes)
    then err (dangling_edge e.source)
    else if not (contains_node e.target nodes)
    then err (dangling_edge e.target)
    else rest

abbrev option_id : Option Node → Option Text
option_id none = none
option_id (some n) = some n.id

module _ (values : Table Node → List Node) where
  abbrev pub finish :
      List Edge → Table Node → Text → Outcome GraphError (Table (List ℕ)) → Outcome GraphError Graph
  finish edges nodes start_id (err e) = err e
  finish edges nodes start_id panic = panic
  finish edges nodes start_id (ok adjacency) = ok (record {
    nodes = nodes;
    edges = edges;
    start_id = start_id;
    global_id = option_id (find (λ n. is_global n.kind) (values nodes));
    adjacency = adjacency;
  })

  abbrev pub from_start : List Edge → Table Node → Option Node → Outcome GraphError Graph
  from_start edges nodes none = err no_start
  from_start edges nodes (some n) = finish edges nodes n.id (link nodes 0 edges [])

  -- `Graph::parse` behind serde, on the nodes and the edges of the document.
  unfoldable pub parse : List Node → List Edge → Outcome GraphError Graph
  unfolding insert_nodes find is_start is_global link
  parse raw_nodes edges =
      let nodes = insert_nodes raw_nodes [] in
      from_start edges nodes (find (λ n. is_start n.kind) (values nodes))

-- The document, as serde reads it.
pub record RawGraph : Type 0 where
  pub nodes : List Node
  pub edges : List Edge

module _ (values : Table Node → List Node) (from_value : Json → Text ⊎ RawGraph) where
  abbrev pub parse_raw : Text ⊎ RawGraph → Outcome GraphError Graph
  parse_raw (inl message) = err (malformed message)
  parse_raw (inr raw) = parse values raw.nodes raw.edges

  -- `Graph::parse`
  unfoldable pub parse_spec : Json → Outcome GraphError Graph
  unfolding parse
  parse_spec spec = parse_raw (from_value spec)

-- `idxs.iter().map(|&i| &self.edges[i]).collect()`
unfoldable pub edges_at : List Edge → List ℕ → Outcome GraphError (List Edge)
edges_at edges [] = ok []
edges_at edges (i ∷ is) = do e ← index edges i; es ← edges_at edges is; ok (e ∷ es)

unfoldable pub outgoing : Text → Graph → Outcome GraphError (List Edge)
unfolding edges_at indices
outgoing id g = edges_at g.edges (indices id g.adjacency)

-- `Graph::node`
unfoldable pub node : Text → Graph → Option Node
unfolding get
node id g = get id g.nodes

unfoldable pub is_terminal : Text → Graph → Bool
unfolding node is_end
is_terminal id g = elim (node id g) [ none ↦ false | some n ↦ is_end n.kind ]
