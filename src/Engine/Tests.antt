-- ===== src/Engine/Tests.antt =====
-- The graph of the source's tests, with a node that can transfer.
use flowcat.Base.{
  ℕ, ◌≡◌, refl, inl, inr, Bool, true, false, ◌&&◌, ◌||◌, List, [], ◌∷◌, Option, none, some, leb,
  map, ok, All, any, ◌>>=◌, if◌then◌else◌,
}
use flowcat.Base.Text.{
  Text, codes, text_eq, Json, string, null, object, array, cons, nil, field, end, is_empty,
}
use flowcat.Graph.{Node, Edge, Graph, Table, start, agent, end_call, parse, insert_nodes}
use flowcat.Graph.Valid.{IsYielded}
use flowcat.Graph.Names.{node_name}
use flowcat.Engine.{Host, Engine, NodePrompt, transfer, warm, end_session, new, capture}
use flowcat.Engine.Prompt.{current_prompt, specs}
use flowcat.Engine.Steps.{on_transfer, on_transition}
use flowcat.Engine.Placed.{IsPlaced, Has}
use flowcat.Engine.Visits.{Distinct, among}
use flowcat.Engine.Runs.{Run, new-Run}
use flowcat.Engine.Pinned.{pinned, numbers, on_transfer-capture, on_transfer-listed}
use flowcat.Engine.Moves.{arrived, along, HasNames, Leads-transit_all, transit_all, names}

abbrev host : Host
host = record {
  values = λ nodes. map (λ e. e.1) nodes;
  alphanumeric = λ c. (leb 48 c && leb c 57) || ((leb 65 c && leb c 90) || (leb 97 c && leb c 122));
  clock = record {
    singapore_hour = 12;
    hour_in = λ zone. none;
    utc_format = λ format. codes "2026-01-02";
    format_in = λ format zone. none;
  };
  print = λ v. [];
  read_var = λ v. none;
}

abbrev greeting : Json
greeting = object (
    field (codes "prompt") (string (codes "Hello {{name}}")) (
      field (codes "transfer_targets")
        (array (
          cons
            (object (
              field (codes "target_phone") (string (codes " +65 "))
                (field (codes "mode") (string (codes "warm")) end)))
            nil))
        end))

abbrev nodes : List Node
nodes =
    record { id = codes "s"; kind = start; data_json = null }
    ∷ record { id = codes "g"; kind = agent; data_json = greeting }
    ∷ record { id = codes "e"; kind = end_call; data_json = null }
    ∷ []

abbrev to_greet : Edge
to_greet = record {
  id = codes "1";
  source = codes "s";
  target = codes "g";
  label = none;
  data_json = null;
}

abbrev to_end : Edge
to_end = record {
  id = codes "2";
  source = codes "g";
  target = codes "e";
  label = some (codes "Finish");
  data_json = null;
}

abbrev edges : List Edge
edges = to_greet ∷ to_end ∷ []

abbrev graph : Graph
graph = record {
  nodes = map (λ n. (n.id, n)) nodes;
  edges = edges;
  start_id = codes "s";
  global_id = none;
  adjacency = (codes "s", 0 ∷ []) ∷ (codes "g", 1 ∷ []) ∷ [];
}

abbrev seed : Table Json
seed = (codes "name", string (codes "Sam")) ∷ []

abbrev begun : Engine
begun = record {
  graph = graph;
  current = codes "g";
  vars = seed;
  runtime_options = null;
  visited = codes "g" ∷ [];
}

parses : parse host.values nodes edges ≡ ok graph
unfolding parse
parses = refl

begins : new host nodes edges null seed ≡ ok begun
unfolding new flowcat.Base.index
begins = refl

finishes :
    on_transition host (codes "finish") begun
    ≡ ok (record begun { current = codes "e"; visited = codes "g" ∷ codes "e" ∷ [] }, end_session)
unfolding on_transition flowcat.Base.index
finishes = refl

transfers :
    on_transfer host (codes "transfer_call") begun ≡ ok (transfer (codes "+65") none none warm)
unfolding on_transfer flowcat.Base.index
transfers = refl

yields : All (IsYielded (insert_nodes nodes [])) (host.values (insert_nodes nodes []))
unfolding insert_nodes flowcat.Graph.get
yields = ((codes "s", refl), ((codes "g", refl), ((codes "e", refl), tt)))

new-Run_example :
    (e : Engine) × ((new host nodes edges null seed ≡ ok e)
      × ((last : Engine)
          → Run host nodes edges e last
          → Has graph last.current
            × (((prompt : NodePrompt) × (current_prompt host last ≡ ok prompt))
                × (Distinct last.visited
                    × (among (node_name last.current graph) last.visited ≡ true)))))
new-Run_example = new-Run host nodes edges null seed graph yields parses

on_transfer-capture_example :
    (on_transfer host
        (codes "transfer_call")
        (capture ((codes "target_phone", string (codes "+1")) ∷ []) begun)
      >>= λ a. ok (pinned a))
    ≡ (on_transfer host (codes "transfer_call") begun >>= λ a. ok (pinned a))
on_transfer-capture_example =
    on_transfer-capture host (codes "transfer_call")
      ((codes "target_phone", string (codes "+1")) ∷ []) begun

on_transfer-listed_example :
    (any (λ p. text_eq p (codes "+65")) (numbers begun) ≡ true) × (is_empty (codes "+65") ≡ false)
on_transfer-listed_example =
    on_transfer-listed host (codes "transfer_call") begun (codes "+65") none none warm transfers

begun-IsPlaced : IsPlaced host nodes edges begun
unfolding flowcat.Graph.contains_node
begun-IsPlaced = record { parsed = parses; placed = refl }

two_edges-Distinct :
    (a b : Bool)
    → Distinct (
        names (
          specs host 0 (
            if a
            then to_greet ∷ (if b then to_end ∷ [] else [])
            else if b
            then to_end ∷ []
            else [])))
unfolding Distinct specs
two_edges-Distinct true true = (refl, (refl, tt))
two_edges-Distinct true false = (refl, tt)
two_edges-Distinct false true = (refl, tt)
two_edges-Distinct false false = tt

has_names : (id : Text) → HasNames host nodes edges id
has_names id = two_edges-Distinct (text_eq (codes "s") id) (text_eq (codes "g") id)

Leads-transit_all_example :
    (said : List Text) × ((last : Engine) × ((transit_all host said begun ≡ ok last)
        × (last.current ≡ codes "e")))
Leads-transit_all_example =
    Leads-transit_all host nodes edges (codes "g") (codes "e") has_names
      (along to_end (codes "e") (inr (inl refl)) (arrived (codes "e"))) begun begun-IsPlaced refl
