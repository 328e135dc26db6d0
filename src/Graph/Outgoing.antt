-- ===== src/Graph/Outgoing.antt =====
-- The adjacency that `Graph::parse` builds gives the edges that leave a node.
use flowcat.Base.{
  ℕ, ◌+◌, ◌≡◌, refl, sym, ap, subst, ◌∙◌, inl, inr, Bool, true, List, [], ◌∷◌, ◌++◌, Option, none,
  some, if◌then◌else◌, if_true, if_false, Bool-cases, arith, Outcome, ok, err, panic, ◌>>=◌, index,
  keep_if, length, length-append, ok-injective, err≢ok, panic≢ok,
}
use mathlib.Core.List.{append_assoc, append-nil}
use flowcat.Base.Text.{Text, text_eq, text_eq→eq, text_eq-same, text_eq-apart}
use flowcat.Graph.{
  Node, Edge, Graph, GraphError, Table, get, put, indices, contains_node, link, edges_at, outgoing,
  parse, insert_nodes, find, is_start, finish, from_start,
}

-- Looking a key up in a table after another key was put there.
pub get-put :
    {A : Type 0} (j k : Text) (v : A) (table : Table A)
    → get j (put k v table) ≡ (if text_eq k j then some v else get j table)
unfolding get put
get-put j k v [] = refl
get-put j k v (e ∷ es) =
    ground (arith, get-put j k v es, text_eq-same e.0 k j, text_eq-apart e.0 k j)

-- Whether an edge leaves the node.
abbrev pub leaves : Text → Edge → Bool
leaves id e = text_eq e.source id

-- The places of the edges that leave the node, counted from a first one.
places : Text → ℕ → List Edge → List ℕ
places id idx [] = []
places id idx (e ∷ es) =
    if leaves id e then idx ∷ places id (idx + 1) es else places id (idx + 1) es

-- An edge that `link` lets pass has both ends among the nodes.
pub link-passes :
    (nodes : Table Node) (idx : ℕ) (e : Edge) (es : List Edge) (adjacency done : Table (List ℕ))
    → link nodes idx (e ∷ es) adjacency ≡ ok done
    → (contains_node e.source nodes ≡ true)
      × ((contains_node e.target nodes ≡ true)
          × (link nodes
                (idx + 1)
                es
                (put e.source (indices e.source adjacency ++ idx ∷ []) adjacency)
              ≡ ok done))
unfolding link
link-passes nodes idx e es adjacency done h = ground arith

indices-put :
    (j k : Text) (is : List ℕ) (table : Table (List ℕ))
    → indices j (put k is table) ≡ (if text_eq k j then is else indices j table)
unfolding indices
indices-put j k is table = ground (arith, get-put j k is table)

link-indices :
    (id : Text) (nodes : Table Node) (idx : ℕ) (es : List Edge) (adjacency done : Table (List ℕ))
    → link nodes idx es adjacency ≡ ok done
    → indices id done ≡ indices id adjacency ++ places id idx es
unfolding link places
link-indices id nodes idx [] adjacency done h =
    sym (ap (indices id) (ok-injective h)) ∙ sym (append-nil (indices id adjacency))
link-indices id nodes idx (e ∷ es) adjacency done h =
    let mine = indices e.source adjacency ++ idx ∷ [] in
    let passes = link-passes nodes idx e es adjacency done h in
    let rest = link-indices id nodes (idx + 1) es (put e.source mine adjacency) done passes.1.1 in
    rest ∙ elim (Bool-cases (leaves id e)) [
      | inl out ↦
          ap (λ is. is ++ places id (idx + 1) es)
            (indices-put id e.source mine adjacency
              ∙ if_true _ _ out
              ∙ ap (λ k. indices k adjacency ++ idx ∷ []) (text_eq→eq e.source id out))
          ∙ append_assoc (indices id adjacency) (idx ∷ []) (places id (idx + 1) es)
          ∙ ap (λ is. indices id adjacency ++ is) (sym (if_true _ _ out))
      | inr not_out ↦
          ap (λ is. is ++ places id (idx + 1) es)
            (indices-put id e.source mine adjacency ∙ if_false _ _ not_out)
          ∙ ap (λ is. indices id adjacency ++ is) (sym (if_false _ _ not_out))
    ]

index-middle :
    {A : Type 0} (before : List A) (x : A) (after : List A)
    → index {E = GraphError} (before ++ x ∷ after) (length before) ≡ ok x
unfolding index
index-middle [] x after = refl
index-middle (y ∷ before) x after = index-middle before x after

edges_at-places :
    (id : Text) (before es : List Edge)
    → edges_at (before ++ es) (places id (length before) es) ≡ ok (keep_if (leaves id) es)
unfolding edges_at places
edges_at-places id before [] = refl
edges_at-places id before (e ∷ es) =
    let rest : edges_at (before ++ e ∷ es) (places id (length before + 1) es)
        ≡ ok (keep_if (leaves id) es) =
      subst (λ n. edges_at (before ++ e ∷ es) (places id n es) ≡ ok (keep_if (leaves id) es))
        (length-append before (e ∷ []))
        (subst
          (λ all.
            edges_at all (places id (length (before ++ e ∷ [])) es) ≡ ok (keep_if (leaves id) es))
          (append_assoc before (e ∷ []) es) (edges_at-places id (before ++ e ∷ []) es)) in
    elim (Bool-cases (leaves id e)) [
      | inl out ↦
          ap (edges_at (before ++ e ∷ es)) (if_true _ _ out)
          ∙ ap
              (λ m. m >>= λ x.
                edges_at (before ++ e ∷ es) (places id (length before + 1) es) >>= λ xs.
                ok (x ∷ xs))
              (index-middle before e es)
          ∙ ap (λ m. m >>= λ xs. ok (e ∷ xs)) rest
          ∙ ap ok (sym (if_true _ _ out))
      | inr not_out ↦
          ap (edges_at (before ++ e ∷ es)) (if_false _ _ not_out)
          ∙ rest
          ∙ ap ok (sym (if_false _ _ not_out))
    ]

-- What a graph is made of: a start node, and the adjacency of the edges.
pub record Made (values : Table Node → List Node) (raw : List Node) (edges : List Edge) (g : Graph)
    : Type 0 where
  pub first : Node
  pub found : find (λ n. is_start n.kind) (values (insert_nodes raw [])) ≡ some first
  pub linked : link (insert_nodes raw []) 0 edges [] ≡ ok g.adjacency
  pub nodes_in : g.nodes ≡ insert_nodes raw []
  pub edges_in : g.edges ≡ edges
  pub starts : g.start_id ≡ first.id

module _ (values : Table Node → List Node) (raw : List Node) (edges : List Edge) (g : Graph) where
  finish-Made :
      (first : Node) (r : Outcome GraphError (Table (List ℕ)))
      → find (λ n. is_start n.kind) (values (insert_nodes raw [])) ≡ some first
      → link (insert_nodes raw []) 0 edges [] ≡ r
      → finish values edges (insert_nodes raw []) first.id r ≡ ok g
      → Made values raw edges g
  finish-Made first (err e) f l h = absurd (err≢ok h)
  finish-Made first panic f l h = absurd (panic≢ok h)
  finish-Made first (ok adjacency) f l h =
      let same = ok-injective h in
      record {
        first = first;
        found = f;
        linked = l ∙ ap (λ x. ok x.adjacency) same;
        nodes_in = sym (ap (λ x. x.nodes) same);
        edges_in = sym (ap (λ x. x.edges) same);
        starts = sym (ap (λ x. x.start_id) same);
      }

  from_start-Made :
      (start : Option Node)
      → find (λ n. is_start n.kind) (values (insert_nodes raw [])) ≡ start
      → from_start values edges (insert_nodes raw []) start ≡ ok g
      → Made values raw edges g
  from_start-Made none f h = absurd (err≢ok h)
  from_start-Made (some first) f h =
      finish-Made first (link (insert_nodes raw []) 0 edges []) f refl h

  pub parse-Made : parse values raw edges ≡ ok g → Made values raw edges g
  unfolding parse
  parse-Made h = from_start-Made (find (λ n. is_start n.kind) (values (insert_nodes raw []))) refl h

  -- In a parsed graph the outgoing edges of any node are the edges of the document that name it as
  -- their source, in the order of the document, and no index is out of bounds.
  pub outgoing-parse :
      (id : Text)
      → parse values raw edges ≡ ok g
      → outgoing id g ≡ ok (keep_if (λ e. text_eq e.source id) edges)
  unfolding outgoing
  outgoing-parse id h =
      let made = parse-Made h in
      let nodes = insert_nodes raw [] in
      subst (λ es. edges_at es (indices id g.adjacency) ≡ ok (keep_if (leaves id) edges))
        (sym made.edges_in)
        (ap (edges_at edges) (link-indices id nodes 0 edges [] g.adjacency made.linked)
          ∙ edges_at-places id [] edges)
