-- ===== src/Graph/Errors.antt =====
-- flowcat-agent/src/graph.rs: what `Graph::parse` refuses, told from the document alone.
use flowcat.Base.{
  ℕ, ◌+◌, ◌≡◌, refl, sym, ap, subst, ◌∙◌, ◌⊎◌, inl, inr, Bool, true, false, not, List, [], ◌∷◌,
  ◌++◌, Option, none, some, if◌then◌else◌, if_true, if_false, Bool-cases, arith, Outcome, ok, err,
  panic, any, All,
}
use mathlib.Core.Bool.{true≢false}
use flowcat.Base.Text.{Text, Json, text_eq}
use flowcat.Base.Values.{or_else}
use flowcat.Graph.{
  Node, Edge, Graph, GraphError, Table, no_start, dangling_edge, malformed, get, put, indices,
  contains_node, link, parse, insert_nodes, find, is_start, finish, from_start, RawGraph, parse_raw,
  parse_spec,
}
use flowcat.Graph.Outgoing.{get-put}
use flowcat.Graph.Valid.{IsYielded, find-All}

-- The last node of the document with an id.
abbrev pub last_with : Text → List Node → Option Node
last_with id [] = none
last_with id (n ∷ ns) = or_else (last_with id ns) (if text_eq n.id id then some n else none)

-- Some id has a start node for its last node.
abbrev pub Starts : List Node → Type 0
Starts raw = (id : Text) × ((n : Node) × ((last_with id raw ≡ some n) × (is_start n.kind ≡ true)))

-- No id has.
abbrev pub IsStartless : List Node → Type 0
IsStartless raw = (id : Text) (n : Node) → last_with id raw ≡ some n → is_start n.kind ≡ false

-- Whether some node of the document has the id.
abbrev pub is_known : List Node → Text → Bool
is_known raw id = any (λ n. text_eq n.id id) raw

-- The first end of an edge, in the order of the document and the source before the target, that is not known.
abbrev pub first_unknown : (Text → Bool) → List Edge → Option Text
first_unknown known [] = none
first_unknown known (e ∷ es) =
    if not (known e.source)
    then some e.source
    else if not (known e.target)
    then some e.target
    else first_unknown known es

-- The table holds the last node of each id.
get-insert_nodes :
    (id : Text) (raw : List Node) (t : Table Node)
    → get id (insert_nodes raw t) ≡ or_else (last_with id raw) (get id t)
unfolding insert_nodes
get-insert_nodes id [] t = refl
get-insert_nodes id (n ∷ raw) t =
    get-insert_nodes id raw (put n.id n t) ∙ further (last_with id raw)
  where
    further :
        (o : Option Node)
        → or_else o (get id (put n.id n t))
          ≡ or_else (or_else o (if text_eq n.id id then some n else none)) (get id t)
    further (some m) = refl
    further none = elim (Bool-cases (text_eq n.id id)) [
      | inl same ↦ ground (arith, get-put id n.id n t, same)
      | inr other ↦ ground (arith, get-put id n.id n t, other)
    ]

get-last_with : (id : Text) (raw : List Node) → get id (insert_nodes raw []) ≡ last_with id raw
unfolding get
get-last_with id raw = get-insert_nodes id raw [] ∙ same (last_with id raw)
  where
    same : (o : Option Node) → or_else o none ≡ o
    same (some m) = refl
    same none = refl

is_known-last_with :
    (id : Text) (raw : List Node)
    → (elim (last_with id raw) [ none ↦ false | some _ ↦ true ]) ≡ is_known raw id
is_known-last_with id [] = refl
is_known-last_with id (n ∷ raw) = ground (arith, is_known-last_with id raw)

contains_node-is_known :
    (id : Text) (raw : List Node) → contains_node id (insert_nodes raw []) ≡ is_known raw id
unfolding contains_node
contains_node-is_known id raw =
    ap (λ (o : Option Node). elim o [ none ↦ false | some _ ↦ true ]) (get-last_with id raw)
    ∙ is_known-last_with id raw

first_unknown-same :
    (f g : Text → Bool) (es : List Edge)
    → ((id : Text) → f id ≡ g id)
    → first_unknown f es ≡ first_unknown g es
first_unknown-same f g [] same = refl
first_unknown-same f g (e ∷ es) same =
    ground (arith, same e.source, same e.target, first_unknown-same f g es same)

-- What linking gives, by the first unknown end.
Links : Option Text → Outcome GraphError (Table (List ℕ)) → Type 0
Links o (ok adjacency) = o ≡ none
Links o (err error) = (id : Text) × ((error ≡ dangling_edge id) × (o ≡ some id))
Links o panic = ⊥

link-Links :
    (nodes : Table Node) (idx : ℕ) (es : List Edge) (adjacency : Table (List ℕ))
    → Links (first_unknown (λ id. contains_node id nodes) es) (link nodes idx es adjacency)
unfolding link Links
link-Links nodes idx [] adjacency = refl
link-Links nodes idx (e ∷ es) adjacency = elim (Bool-cases (contains_node e.source nodes)) [
  | inr no_source ↦
      let absent = ap not no_source in
      subst (λ r. Links (first_unknown known (e ∷ es)) r) (sym (if_true _ _ absent))
        (e.source, (refl, if_true _ _ absent))
  | inl source ↦ elim (Bool-cases (contains_node e.target nodes)) [
    | inr no_target ↦
        let absent = ap not no_target in
        subst (λ r. Links (first_unknown known (e ∷ es)) r)
          (sym (if_false _ _ (ap not source) ∙ if_true _ _ absent))
          (e.target, (refl, if_false _ _ (ap not source) ∙ if_true _ _ absent))
    | inl target ↦
        subst (λ r. Links (first_unknown known (e ∷ es)) r)
          (sym (if_false _ _ (ap not source) ∙ if_false _ _ (ap not target)))
          (subst (λ o. Links o rest)
            (sym (if_false _ _ (ap not source) ∙ if_false _ _ (ap not target)))
            (link-Links nodes (idx + 1) es later))
  ]
]
  where
    known : Text → Bool
    known id = contains_node id nodes

    later : Table (List ℕ)
    later = put e.source (indices e.source adjacency ++ idx ∷ []) adjacency

    rest : Outcome GraphError (Table (List ℕ))
    rest = link nodes (idx + 1) es later

-- The values that a table yields are those that it holds, and a value that it holds is not missed.
abbrev pub IsYield : Table Node → List Node → Type 0
IsYield t ns =
    All (IsYielded t) ns
    × ((p : Node → Bool) (id : Text) (n : Node) → get id t ≡ some n → p n ≡ true → any p ns ≡ true)

find-none : (p : Node → Bool) (ns : List Node) → find p ns ≡ none → any p ns ≡ false
unfolding find
find-none p [] h = refl
find-none p (n ∷ ns) h = ground (arith, find-none p ns)

module _ (values : Table Node → List Node) (raw : RawGraph) where
  -- What parsing gives, told from the document.
  abbrev pub IsVerdict : Outcome GraphError Graph → Type 0
  IsVerdict (ok g) = Starts raw.nodes × (first_unknown (is_known raw.nodes) raw.edges ≡ none)
  IsVerdict (err no_start) = IsStartless raw.nodes
  IsVerdict (err (dangling_edge id)) =
      Starts raw.nodes × (first_unknown (is_known raw.nodes) raw.edges ≡ some id)
  IsVerdict (err (malformed message)) = ⊥
  IsVerdict panic = ⊥

  finish-IsVerdict :
      (first : Node) (r : Outcome GraphError (Table (List ℕ)))
      → Starts raw.nodes
      → Links (first_unknown (is_known raw.nodes) raw.edges) r
      → IsVerdict (finish values raw.edges (insert_nodes raw.nodes []) first.id r)
  unfolding Links
  finish-IsVerdict first (ok adjacency) starts x = (starts, x)
  finish-IsVerdict first (err error) starts (id, (dangles, found)) =
      subst (λ e. IsVerdict (err e)) (sym dangles) (starts, found)
  finish-IsVerdict first panic starts x = x

  module _ (yields : IsYield (insert_nodes raw.nodes []) (values (insert_nodes raw.nodes []))) where
    from_start-IsVerdict :
        (o : Option Node)
        → find (λ n. is_start n.kind) (values (insert_nodes raw.nodes [])) ≡ o
        → IsVerdict (from_start values raw.edges (insert_nodes raw.nodes []) o)
    from_start-IsVerdict none f = λ id n last. elim (Bool-cases (is_start n.kind)) [
      | inr other ↦ other
      | inl starts ↦ absurd (
          true≢false (
            sym (yields.1 (λ m. is_start m.kind) id n (get-last_with id raw.nodes ∙ last) starts)
            ∙ find-none (λ m. is_start m.kind) (values (insert_nodes raw.nodes [])) f))
    ]
    from_start-IsVerdict (some first) f =
        let nodes = insert_nodes raw.nodes [] in
        let found =
          find-All (IsYielded nodes) (λ n. is_start n.kind) (values nodes) first yields.0 f in
        finish-IsVerdict first (link nodes 0 raw.edges [])
          (found.0.0, (first, (sym (get-last_with found.0.0 raw.nodes) ∙ found.0.1, found.1)))
          (subst (λ o. Links o (link nodes 0 raw.edges []))
            (first_unknown-same (λ id. contains_node id nodes) (is_known raw.nodes) raw.edges
              (λ id. contains_node-is_known id raw.nodes))
            (link-Links nodes 0 raw.edges []))

    parse-IsVerdict : IsVerdict (parse values raw.nodes raw.edges)
    unfolding parse
    parse-IsVerdict =
        from_start-IsVerdict (find (λ n. is_start n.kind) (values (insert_nodes raw.nodes []))) refl

-- What parsing gives, told from what serde reads of the document.
abbrev pub Explains : (Table Node → List Node) → Text ⊎ RawGraph → Outcome GraphError Graph → Type 0
Explains values (inl message) o = o ≡ err (malformed message)
Explains values (inr raw) o = IsVerdict values raw o

-- Where the table of the document's nodes yields what it holds, the outcome of parsing is told by the document: it is
-- malformed where serde refuses it, and else has no start where no id has a start node for its last node; where one
-- has, it names the first end of an edge that is the id of no node, and is a graph where there is no such end.
pub parse_spec-Explains :
    (values : Table Node → List Node) (from_value : Json → Text ⊎ RawGraph) (spec : Json)
    → ((raw : RawGraph)
        → from_value spec ≡ inr raw
        → IsYield (insert_nodes raw.nodes []) (values (insert_nodes raw.nodes [])))
    → Explains values (from_value spec) (parse_spec values from_value spec)
unfolding parse_spec
parse_spec-Explains values from_value spec yields = told (from_value spec) refl
  where
    told :
        (r : Text ⊎ RawGraph)
        → from_value spec ≡ r
        → Explains values r (parse_raw values from_value r)
    told (inl message) same = refl
    told (inr raw) same = parse-IsVerdict values raw (yields raw same)
