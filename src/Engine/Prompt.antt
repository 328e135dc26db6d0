-- ===== src/Engine/Prompt.antt =====
-- flowcat-agent/src/engine.rs: `current_prompt`, what the language model is told and may call at the
-- active node.
use flowcat.Base.{
  ℕ, ◌+◌, Bool, true, not, List, [], ◌∷◌, ◌++◌, Option, none, some, if◌then◌else◌, ◌==◌, map,
  Outcome, ok, ◌>>=◌,
}
use flowcat.Base.Text.{Text, codes, text_eq, Json, is_empty}
use flowcat.Base.Values.{and_then, map_some, or_else, unwrap_or, filter, at_key, as_bool, as_array}
use flowcat.Base.Scan.{trim}
use flowcat.Graph.{Node, Edge, node, outgoing, Table}
use flowcat.Graph.Names.{str_at, global_prompt}
use flowcat.Base.Decimal.{show}
use flowcat.Template.{var_interpolate}
use flowcat.Engine.{
  Host, Engine, EngineError, NodePrompt, TransitionSpec, TransferTarget, TransferMode, cold, warm,
  slugify, from_graph,
}

-- `!s.trim().is_empty()`
unfoldable pub is_said : Text → Bool
unfolding trim
is_said s = not (is_empty (trim s))

unfoldable pub interpolated : Host → Table Json → Text → Text
unfolding var_interpolate
interpolated host vars s = var_interpolate host.clock host.print vars s

unfoldable pub inherits : Option Node → Bool
unfolding at_key as_bool
inherits n = unwrap_or true (
    and_then n λ n.
      and_then
        (or_else (at_key (codes "add_global_prompt") n.data_json)
          (at_key (codes "inherit_global_directive") n.data_json))
        as_bool)

-- The prompt of the node under the global directive.
unfoldable pub with_global : Text → Text → Text
unfolding is_said
with_global directive own =
    if is_said directive
    then (if is_said own then directive ++ 10 ∷ 10 ∷ own else directive)
    else own

unfoldable pub directed : Host → Option Node → Engine → Text → Text
unfolding inherits global_prompt with_global interpolated
directed host n e own =
    if inherits n
    then unwrap_or own
        (map_some (λ raw. with_global (interpolated host e.vars raw) own) (global_prompt e.graph))
    else own

unfoldable pub spec_of : Host → ℕ → Edge → TransitionSpec
unfolding slugify at_key str_at is_said show flowcat.Base.Values.as_str
spec_of host i edge = record {
  name =
      unwrap_or (codes "transition_" ++ show i) (map_some (slugify host.alphanumeric) edge.label);
  target = edge.target;
  description =
      or_else
        (filter is_said (
          and_then
            (or_else (at_key (codes "transition_criteria") edge.data_json)
              (at_key (codes "condition") edge.data_json))
            flowcat.Base.Values.as_str))
        edge.label;
}

unfoldable pub specs : Host → ℕ → List Edge → List TransitionSpec
unfolding spec_of
specs host i [] = []
specs host i (edge ∷ edges) = spec_of host i edge ∷ specs host (i + 1) edges

unfoldable pub default_name : ℕ → Text
unfolding show
default_name i = if i == 0 then codes "transfer_call" else codes "transfer_call_" ++ show i

unfoldable pub mode_of : Option Text → TransferMode
unfolding text_eq
mode_of none = cold
mode_of (some s) = if text_eq s (codes "warm") then warm else cold

-- The number that an entry of the node's configuration dials.
unfoldable pub phone_of : Json → Option Text
unfolding str_at trim
phone_of t = filter (λ s. not (is_empty s)) (map_some trim (str_at (codes "target_phone") t))

unfoldable pub target_of : Host → Table Json → ℕ → Json → Option TransferTarget
unfolding phone_of str_at is_said slugify interpolated default_name mode_of
target_of host vars i t =
    map_some
      (λ phone. record {
        name = unwrap_or (default_name i) (
            filter (λ s. not (is_empty s))
              (map_some (slugify host.alphanumeric) (str_at (codes "name") t)));
        target_phone = phone;
        target_name = filter is_said (str_at (codes "target_name") t);
        description =
            map_some (interpolated host vars) (filter is_said (str_at (codes "description") t));
        say = map_some (interpolated host vars) (filter is_said (str_at (codes "say") t));
        mode = mode_of (str_at (codes "mode") t);
      })
      (phone_of t)

-- The entries that have a number, numbered from a first one.
unfoldable pub targets : Host → Table Json → ℕ → List Json → List TransferTarget
unfolding target_of
targets host vars i [] = []
targets host vars i (t ∷ ts) =
    let rest = targets host vars (i + 1) ts in
    elim (target_of host vars i t) [ none ↦ rest | some target ↦ target ∷ rest ]

-- What the node's configuration lists.
unfoldable pub entries : Option Node → List Json
unfolding at_key as_array
entries n =
    unwrap_or [] (and_then n λ n. and_then (at_key (codes "transfer_targets") n.data_json) as_array)

unfoldable pub join : Text → List Text → Text
join sep [] = []
join sep (s ∷ []) = s
join sep (s ∷ t ∷ ss) = s ++ (sep ++ join sep (t ∷ ss))

unfoldable pub escalation : List TransferTarget → Text
unfolding join
escalation [] = []
escalation (t ∷ ts) =
    10
      ∷ 10
      ∷ codes
          "[Human escalation] If the caller asks to speak to a human, a person, an agent, a manager, or to be transferred: FIRST say one short sentence telling them you're connecting them to a human now and to please hold, THEN call the `"
    ++ (join (codes "` or `") (map (λ x. x.name) (t ∷ ts))
        ++ codes "` function. Never claim you are unable to transfer.")

unfoldable pub targets_at : Host → Engine → List TransferTarget
unfolding targets entries node
targets_at host e = targets host e.vars 0 (entries (node e.current e.graph))

unfoldable pub prompt_text : Host → Engine → Text
unfolding directed interpolated str_at node escalation targets_at
prompt_text host e =
    let n = node e.current e.graph in
    let raw = unwrap_or [] (and_then n λ n. str_at (codes "prompt") n.data_json) in
    directed host n e (interpolated host e.vars raw) ++ escalation (targets_at host e)

-- The prompt, given the edges that leave the node.
abbrev pub prompt_on : Host → Engine → List Edge → NodePrompt
prompt_on host e edges = record {
  node_id = e.current;
  system_prompt = prompt_text host e;
  transitions = specs host 0 edges;
  transfer_targets = targets_at host e;
}

unfoldable pub current_prompt : Host → Engine → Outcome EngineError NodePrompt
unfolding outgoing specs prompt_text targets_at
current_prompt host e =
    from_graph (outgoing e.current e.graph) >>= λ edges. ok (prompt_on host e edges)
