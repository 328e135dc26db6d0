-- ===== src/Graph/Names.antt =====
-- flowcat-agent/src/graph.rs: what the engine reads of a node's `data`: its display name, and the
-- prompt of the global node.
use flowcat.Base.{Option}
use flowcat.Base.Text.{Text, codes, Json}
use flowcat.Base.Values.{and_then, or_else, unwrap_or, at_key, as_str}
use flowcat.Graph.{Graph, get, node}

-- `data.get(k).and_then(|v| v.as_str())`
unfoldable pub str_at : Text → Json → Option Text
unfolding at_key as_str
str_at k data_json = and_then (at_key k data_json) as_str

unfoldable pub global_prompt : Graph → Option Text
unfolding get str_at
global_prompt g =
    and_then g.global_id
      (λ id. and_then (get id g.nodes) (λ n. str_at (codes "prompt") n.data_json))

unfoldable pub display_name : Json → Option Text
unfolding str_at
display_name data_json =
    or_else (str_at (codes "name") data_json)
      (or_else (str_at (codes "label") data_json) (str_at (codes "title") data_json))

unfoldable pub node_name : Text → Graph → Text
unfolding node display_name
node_name id g = unwrap_or id (and_then (node id g) (λ n. display_name n.data_json))
