-- ===== src/Engine/Steps.antt =====
-- flowcat-agent/src/engine.rs: what the host calls on the engine once the call runs.
use flowcat.Base.{false, List, [], ◌∷◌, Option, none, some, if◌then◌else◌, Outcome, ok, ◌>>=◌}
use flowcat.Base.Text.{Text, codes, text_eq, Json, Fields, object, field, string, end, is_empty}
use flowcat.Base.Values.{
  and_then, map_some, or_else, unwrap_or, filter, filter_map, at_key, as_bool, as_array, as_str,
}
use flowcat.Graph.{find, node, Table}
use flowcat.Graph.Names.{str_at, node_name}
use flowcat.Engine.{
  Host, Engine, EngineError, Action, transition, stay, end_session, transfer, TransferTarget,
  NodeInfo, ExtractionSpec, record_visit, is_finished,
}
use flowcat.Engine.Prompt.{current_prompt, is_said}

-- Moving to the target of a transition.
unfoldable pub move_to : Text → Engine → Engine × Action
unfolding record_visit is_finished
move_to to e =
    let moved = record_visit (record e { current = to }) in
    (moved, if is_finished moved then end_session else transition to none)

unfoldable pub on_transition : Host → Text → Engine → Outcome EngineError (Engine × Action)
unfolding current_prompt find text_eq move_to
on_transition host name e = current_prompt host e >>= λ prompt.
    ok (elim (find (λ t. text_eq t.name name) prompt.transitions) [
      | some spec ↦ move_to spec.target e
      | none ↦ (e, stay)
    ])

abbrev pub transfer_action : Option TransferTarget → Action
transfer_action none = stay
transfer_action (some t) = transfer t.target_phone t.target_name t.say t.mode

unfoldable pub on_transfer : Host → Text → Engine → Outcome EngineError Action
unfolding current_prompt find text_eq
on_transfer host name e = current_prompt host e >>= λ prompt.
    ok (transfer_action (find (λ t. text_eq t.name name) prompt.transfer_targets))

unfoldable pub current_node_info : Engine → NodeInfo
unfolding node node_name at_key as_bool
current_node_info e = record {
  id = e.current;
  name = node_name e.current e.graph;
  allow_interrupt = and_then (node e.current e.graph) λ n.
      and_then
        (or_else (at_key (codes "allow_interrupt") n.data_json)
          (at_key (codes "allowInterrupt") n.data_json))
        as_bool;
}

unfoldable pub extraction_spec : Host → Engine → Option ExtractionSpec
unfolding node at_key as_bool as_array str_at is_said
extraction_spec host e = and_then (node e.current e.graph) λ n.
    let variables = unwrap_or [] (
      map_some (filter_map host.read_var)
        (and_then (at_key (codes "extraction_variables") n.data_json) as_array)) in
    if unwrap_or false (and_then (at_key (codes "extraction_enabled") n.data_json) as_bool)
    then (if is_empty variables
        then none
        else some (record {
          prompt = filter is_said (str_at (codes "extraction_prompt") n.data_json);
          variables = variables;
        }))
    else none

unfoldable pub string_array_field : Text → Engine → List Text
unfolding node at_key as_array as_str
string_array_field key e = unwrap_or [] (
    map_some (filter_map as_str)
      (and_then (node e.current e.graph) λ n. and_then (at_key key n.data_json) as_array))

unfoldable pub tool_refs : Engine → List Text
unfolding string_array_field
tool_refs e = string_array_field (codes "tool_uuids") e

unfoldable pub document_refs : Engine → List Text
unfolding string_array_field
document_refs e = string_array_field (codes "document_uuids") e

-- The object of a map of variables.
abbrev fields : Table Json → Fields
fields [] = end
fields (kv ∷ kvs) = field kv.0 kv.1 (fields kvs)

unfoldable pub snapshot : Engine → Json
snapshot e = object (
    field (codes "current") (string e.current) (
      field (codes "vars") (object (fields e.vars))
        (field (codes "runtime_options") e.runtime_options end)))
