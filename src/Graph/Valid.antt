-- ===== src/Graph/Valid.antt =====
-- What `Graph::parse` accepts: a start node, and edges between known nodes.
use flowcat.Base.{
  ℕ, ◌+◌, ◌≡◌, sym, ap, subst, ◌∙◌, inl, inr, Bool, true, List, [], ◌∷◌, ◌++◌, some, if_true,
  if_false, Bool-cases, arith, some-injective, ok, All,
}
use flowcat.Base.Text.{Text, text_eq, text_eq→eq}
use flowcat.Graph.{
  Node, Edge, Graph, Table, get, put, find, indices, contains_node, link, parse, insert_nodes,
  is_start, node,
}
use flowcat.Graph.Outgoing.{get-put, link-passes, parse-Made}

-- What a table may yield is in it.
abbrev pub IsYielded : Table Node → Node → Type 0
IsYielded nodes n = (k : Text) × (get k nodes ≡ some n)

pub find-All :
    {A : Type 0} (P : A → Type 0) (p : A → Bool) (xs : List A) (x : A)
    → All P xs
    → find p xs ≡ some x
    → P x × (p x ≡ true)
unfolding find
find-All P p [] x all h = ground arith
find-All P p (y ∷ ys) x all h = elim (Bool-cases (p y)) [
  | inl passes ↦
      let e = some-injective (sym (if_true _ _ passes) ∙ h) in
      (subst P e all.0, ap p (sym e) ∙ passes)
  | inr fails ↦ find-All P p ys x all.1 (sym (if_false _ _ fails) ∙ h)
]

-- A node stands at its own id.
Owns : Table Node → Type 0
Owns t = (k : Text) (n : Node) → get k t ≡ some n → n.id ≡ k

put-Owns : (t : Table Node) (n : Node) → Owns t → Owns (put n.id n t)
unfolding Owns
put-Owns t n owns k m h = elim (Bool-cases (text_eq n.id k)) [
  | inl same ↦
      let e : n ≡ m = some-injective (sym (get-put k n.id n t ∙ if_true _ _ same) ∙ h) in
      ap (λ x. x.id) (sym e) ∙ text_eq→eq n.id k same
  | inr other ↦ owns k m (sym (get-put k n.id n t ∙ if_false _ _ other) ∙ h)
]

insert_nodes-Owns : (raw : List Node) (t : Table Node) → Owns t → Owns (insert_nodes raw t)
unfolding insert_nodes
insert_nodes-Owns [] t owns = owns
insert_nodes-Owns (n ∷ raw) t owns = insert_nodes-Owns raw (put n.id n t) (put-Owns t n owns)

no-Owns : Owns []
unfolding Owns get
no-Owns k n h = ground arith

abbrev pub IsJoined : Table Node → Edge → Type 0
IsJoined nodes e = (contains_node e.source nodes ≡ true) × (contains_node e.target nodes ≡ true)

link-IsJoined :
    (nodes : Table Node) (idx : ℕ) (es : List Edge) (adjacency done : Table (List ℕ))
    → link nodes idx es adjacency ≡ ok done
    → All (IsJoined nodes) es
link-IsJoined nodes idx [] adjacency done h = tt
link-IsJoined nodes idx (e ∷ es) adjacency done h =
    let passes = link-passes nodes idx e es adjacency done h in
    (
      (passes.0, passes.1.0),
      link-IsJoined nodes (idx + 1) es
          (put e.source (indices e.source adjacency ++ idx ∷ []) adjacency) done passes.1.1,
    )

-- Both ends of every edge of a parsed graph are nodes of it.
pub edges-IsJoined :
    (values : Table Node → List Node) (raw : List Node) (edges : List Edge) (g : Graph)
    → parse values raw edges ≡ ok g
    → All (IsJoined g.nodes) edges
edges-IsJoined values raw edges g h =
    let made = parse-Made values raw edges g h in
    subst (λ t. All (IsJoined t) edges) (sym made.nodes_in)
      (link-IsJoined (insert_nodes raw []) 0 edges [] g.adjacency made.linked)

-- Where the values that the table of nodes yields are in it, a parsed graph has a start node at `start_id`,
-- and both ends of every edge are nodes.
pub parse-IsJoined :
    (values : Table Node → List Node) (raw : List Node) (edges : List Edge) (g : Graph)
    → All (IsYielded (insert_nodes raw [])) (values (insert_nodes raw []))
    → parse values raw edges ≡ ok g
    → ((n : Node) × ((node g.start_id g ≡ some n) × (is_start n.kind ≡ true)))
      × All (IsJoined g.nodes) g.edges
unfolding node Owns
parse-IsJoined values raw edges g yields h =
    let made = parse-Made values raw edges g h in
    let nodes = insert_nodes raw [] in
    let found =
      find-All (IsYielded nodes) (λ n. is_start n.kind) (values nodes) made.first yields
        made.found in
    let owns = insert_nodes-Owns raw [] no-Owns found.0.0 made.first found.0.1 in
    let key : found.0.0 ≡ g.start_id = sym owns ∙ sym made.starts in
    let at_start : get g.start_id g.nodes ≡ some made.first =
      subst (λ t. get g.start_id t ≡ some made.first) (sym made.nodes_in)
        (subst (λ k. get k nodes ≡ some made.first) key found.0.1) in
    (
      (made.first, (at_start, found.1)),
      subst (All (IsJoined g.nodes)) (sym made.edges_in) (edges-IsJoined values raw edges g h),
    )
