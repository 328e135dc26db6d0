-- ===== src/Engine.antt =====
-- flowcat-agent/src/engine.rs: the decision engine that walks a workflow graph. The engine is a
-- record, and a method that changes it returns the record that it leaves. The order in which a
-- `HashMap` yields its values, the Unicode table of `char::is_alphanumeric`, the clock, the text that
-- `serde_json` prints and the variable that `serde` reads are parameters.
pub mod Prompt
pub mod Steps
pub mod Slugs
pub mod Placed
pub mod Visits
pub mod Runs
pub mod Pinned
pub mod Moves
mod Tests
use flowcat.Base.{
  ℕ, ◌+◌, Bool, true, false, not, List, [], ◌∷◌, ◌++◌, Option, none, some, if◌then◌else◌, leb, ◌&&◌,
  map, any, Outcome, ok, err, panic, ◌>>=◌,
}
use flowcat.Base.Text.{Text, codes, text_eq, Json, is_empty}
use flowcat.Base.Values.{map_some, unwrap_or}
use flowcat.Base.Scan.{trim}
use flowcat.Graph.{
  Node, Edge, Graph, GraphError, Table, put, node, outgoing, is_start, is_terminal, parse,
}
use flowcat.Graph.Names.{str_at, node_name}
use flowcat.Template.{Clock}

pub data TransferMode : Type 0 where
  cold warm : TransferMode

pub data Action : Type 0 where
  transition : Text → Option Text → Action
  stay : Action
  end_session : Action
  transfer : Text → Option Text → Option Text → TransferMode → Action

pub record TransitionSpec : Type 0 where
  pub name : Text
  pub target : Text
  pub description : Option Text

pub record TransferTarget : Type 0 where
  pub name : Text
  pub target_phone : Text
  pub target_name : Option Text
  pub description : Option Text
  pub say : Option Text
  pub mode : TransferMode

pub record NodePrompt : Type 0 where
  pub node_id : Text
  pub system_prompt : Text
  pub transitions : List TransitionSpec
  pub transfer_targets : List TransferTarget

pub data VarType : Type 0 where
  text_var number_var boolean_var : VarType

pub record ExtractionVar : Type 0 where
  pub name : Text
  pub var_type : VarType
  pub hint : Option Text

pub record ExtractionSpec : Type 0 where
  pub prompt : Option Text
  pub variables : List ExtractionVar

pub record NodeInfo : Type 0 where
  pub id : Text
  pub name : Text
  pub allow_interrupt : Option Bool

pub data EngineError : Type 0 where
  graph_error : GraphError → EngineError
  unknown_node : Text → EngineError

-- What is not the engine's own.
pub record Host : Type 0 where
  pub values : Table Node → List Node
  pub alphanumeric : ℕ → Bool
  pub clock : Clock
  pub print : Json → Text
  pub read_var : Json → Option ExtractionVar

pub record Engine : Type 0 where
  pub graph : Graph
  pub current : Text
  pub vars : Table Json
  pub runtime_options : Json
  pub visited : List Text

-- `?` on the result of a graph's function.
abbrev pub from_graph : {A : Type 0} → Outcome GraphError A → Outcome EngineError A
from_graph (ok a) = ok a
from_graph (err e) = err (graph_error e)
from_graph panic = panic

unfoldable pub slugify : (ℕ → Bool) → Text → Text
slugify alphanumeric [] = []
slugify alphanumeric (c ∷ s) =
    (if alphanumeric c then (if leb 65 c && leb c 90 then c + 32 else c) else 95)
    ∷ slugify alphanumeric s

unfoldable pub has_prompt : Node → Bool
unfolding str_at trim
has_prompt n =
    unwrap_or false (map_some (λ s. not (is_empty (trim s))) (str_at (codes "prompt") n.data_json))

unfoldable pub record_visit : Engine → Engine
unfolding node_name text_eq
record_visit e =
    let name = node_name e.current e.graph in
    if not (any (λ n. text_eq n name) e.visited)
    then record e { visited = e.visited ++ name ∷ [] }
    else e

-- `if let Some(edge) = outgoing.first()`
abbrev pub follow_first : Engine → List Edge → Engine
follow_first e [] = e
follow_first e (edge ∷ edges) = record e { current = edge.target }

-- What `advance_through_start` does at the node where it stands.
abbrev pub leave_start : Engine → Option Node → Outcome EngineError Engine
leave_start e none = ok e
leave_start e (some n) =
    if not (is_start n.kind)
    then ok e
    else if has_prompt n
    then ok e
    else from_graph (outgoing e.current e.graph) >>= λ edges. ok (follow_first e edges)

unfoldable pub advance_through_start : Engine → Outcome EngineError Engine
unfolding node is_start has_prompt outgoing
advance_through_start e = leave_start e (node e.current e.graph)

-- `Engine::new`, on the nodes and the edges of the document.
unfoldable pub new : Host → List Node → List Edge → Json → Table Json → Outcome EngineError Engine
unfolding parse advance_through_start record_visit
new host raw_nodes edges runtime_options seed_vars = do
  g ← from_graph (parse host.values raw_nodes edges)
  e ← advance_through_start (record {
    graph = g;
    current = g.start_id;
    vars = seed_vars;
    runtime_options = runtime_options;
    visited = [];
  })
  ok (record_visit e)

-- The engine that the call leaves and what it returns, given the node of that id.
abbrev pub seat : Text → Engine → Option Node → Engine × Outcome EngineError (Unit {0})
seat id e none = (e, err (unknown_node id))
seat id e (some n) = (record_visit (record e { current = id }), ok tt)

unfoldable pub set_current_node : Text → Engine → Engine × Outcome EngineError (Unit {0})
unfolding node record_visit
set_current_node id e = seat id e (node id e.graph)

unfoldable pub is_finished : Engine → Bool
unfolding is_terminal
is_finished e = is_terminal e.current e.graph

-- `capture`, the map's entries in the order it yields them.
unfoldable pub insert_all : List (Text × Json) → Table Json → Table Json
unfolding put
insert_all [] vars = vars
insert_all (kv ∷ kvs) vars = insert_all kvs (put kv.0 kv.1 vars)

unfoldable pub capture : List (Text × Json) → Engine → Engine
unfolding insert_all
capture kvs e = record e { vars = insert_all kvs e.vars }
