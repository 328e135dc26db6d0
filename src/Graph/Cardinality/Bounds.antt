-- ===== src/Graph/Cardinality/Bounds.antt =====
-- `cardinality_errors` is empty exactly when every node keeps the rule of its kind.
use std.Logic.{↔_trans}
use flowcat.Base.{
  ℕ, suc, ◌+◌, ◌≤◌, ◌≡◌, refl, sym, ap, subst, ◌∙◌, inl, inr, List, [], ◌∷◌, ◌++◌, ◌↔◌, ◌≢◌, Option,
  none, some, if◌then◌else◌, if_true, if_false, Bool-cases, arith, All, keep_if, length, map,
}
use flowcat.Base.Text.{Text, codes, text_eq, text_eq→eq}
use flowcat.Graph.{
  Node, Edge, Graph, NodeKind, EdgeBounds, start, agent, end_call, global, trigger, webhook, qa,
  tuner, other, edge_bounds, Table, put,
}
use flowcat.Graph.Outgoing.{get-put}
use flowcat.Graph.Cardinality.{
  degree, bump, zeros, tally, degrees, under, over, messages, report, node_errors,
  cardinality_errors,
}

degree-put :
    (j k : Text) (v : ℕ) (t : Table ℕ)
    → degree j (put k v t) ≡ (if text_eq k j then v else degree j t)
unfolding degree
degree-put j k v t = ground (arith, get-put j k v t)

degree-bump :
    (j k : Text) (t : Table ℕ)
    → degree j (bump k t) ≡ (if text_eq k j then suc (degree j t) else degree j t)
unfolding bump
degree-bump j k t = elim (Bool-cases (text_eq k j)) [
  | inl same ↦
      degree-put j k (degree k t + 1) t
      ∙ if_true _ _ same
      ∙ ap (λ x. degree x t + 1) (text_eq→eq k j same)
      ∙ omega arith
      ∙ sym (if_true _ _ same)
  | inr apart ↦ degree-put j k (degree k t + 1) t ∙ if_false _ _ apart ∙ sym (if_false _ _ apart)
]

degree-zeros :
    (j : Text) (nodes : Table Node) (t : Table ℕ) → degree j t ≡ 0 → degree j (zeros nodes t) ≡ 0
unfolding zeros
degree-zeros j [] t h = h
degree-zeros j (e ∷ es) t h = degree-zeros j es (put e.0 0 t) (ground (arith, degree-put j e.0 0 t))

-- How many edges have the node at that end.
abbrev pub count : (Edge → Text) → Text → List Edge → ℕ
count at id edges = length (keep_if (λ e. text_eq (at e) id) edges)

degree-tally :
    (at : Edge → Text) (j : Text) (es : List Edge) (t : Table ℕ)
    → degree j (tally at es t) ≡ degree j t + count at j es
unfolding tally
degree-tally at j [] t = omega arith
degree-tally at j (e ∷ es) t =
    ground (arith, degree-tally at j es (bump (at e) t), degree-bump j (at e) t)

pub degree-degrees :
    (at : Edge → Text) (j : Text) (g : Graph) → degree j (degrees at g) ≡ count at j g.edges
unfolding degrees degree
degree-degrees at j g =
    omega (arith, degree-tally at j g.edges (zeros g.nodes []), degree-zeros j g.nodes [] refl)

-- The rule of each kind, for the numbers of its incoming and its outgoing edges.
abbrev pub Allows : NodeKind → ℕ → ℕ → Type 0
Allows start i o = i ≡ 0
Allows trigger i o = i ≡ 0
Allows agent i o = 1 ≤ i
Allows end_call i o = (1 ≤ i) × (o ≡ 0)
Allows other i o = Unit
Allows _ i o = (i ≡ 0) × (o ≡ 0)

abbrev AtLeast : Option ℕ → ℕ → Type 0
AtLeast none n = Unit
AtLeast (some m) n = m ≤ n

abbrev AtMost : Option ℕ → ℕ → Type 0
AtMost none n = Unit
AtMost (some m) n = n ≤ m

under-AtLeast : (side : Text) (b : Option ℕ) (n : ℕ) → (under side b n ≡ []) ↔ AtLeast b n
unfolding under
under-AtLeast side none n = ((λ h. tt), (λ h. refl))
under-AtLeast side (some m) n = ground arith

over-AtMost : (side : Text) (b : Option ℕ) (n : ℕ) → (over side b n ≡ []) ↔ AtMost b n
unfolding over
over-AtMost side none n = ((λ h. tt), (λ h. refl))
over-AtMost side (some m) n = ground arith

cons-empty : {A : Type 0} {x : A} {xs : List A} → x ∷ xs ≢ []
cons-empty h = cc

module _ {P Q : Type 0} where
  append-empty_iff :
      {A : Type 0} (xs ys : List A) → (xs ≡ []) ↔ P → (ys ≡ []) ↔ Q → (xs ++ ys ≡ []) ↔ (P × Q)
  append-empty_iff [] ys h k = ((λ e. (h.0 refl, k.0 e)), (λ pq. k.1 pq.1))
  append-empty_iff (x ∷ xs) ys h k =
      ((λ e. absurd (cons-empty e)), (λ pq. absurd (cons-empty (h.1 pq.0))))

messages-empty :
    (b : EdgeBounds) (i o : ℕ)
    → (messages b i o ≡ [])
      ↔ ((AtLeast b.min_in i × AtMost b.max_in i) × (AtLeast b.min_out o × AtMost b.max_out o))
unfolding messages
messages-empty b i o =
    append-empty_iff (under (codes "incoming") b.min_in i ++ over (codes "incoming") b.max_in i)
      (under (codes "outgoing") b.min_out o ++ over (codes "outgoing") b.max_out o)
      (append-empty_iff (under (codes "incoming") b.min_in i) (over (codes "incoming") b.max_in i)
        (under-AtLeast (codes "incoming") b.min_in i) (over-AtMost (codes "incoming") b.max_in i))
      (append-empty_iff (under (codes "outgoing") b.min_out o) (over (codes "outgoing") b.max_out o)
        (under-AtLeast (codes "outgoing") b.min_out o) (over-AtMost (codes "outgoing") b.max_out o))

rule :
    (k : NodeKind) (i o : ℕ)
    → ((AtLeast (edge_bounds k).min_in i × AtMost (edge_bounds k).max_in i)
        × (AtLeast (edge_bounds k).min_out o × AtMost (edge_bounds k).max_out o))
      ↔ Allows k i o
unfolding edge_bounds
rule start i o = ground arith
rule trigger i o = ground arith
rule agent i o = ground arith
rule end_call i o = ground arith
rule other i o = ground arith
rule global i o = ground arith
rule webhook i o = ground arith
rule qa i o = ground arith
rule tuner i o = ground arith

messages-Allows : (k : NodeKind) (i o : ℕ) → (messages (edge_bounds k) i o ≡ []) ↔ Allows k i o
messages-Allows k i o = ↔_trans (messages-empty (edge_bounds k) i o) (rule k i o)

map-empty : {A B : Type 0} (f : A → B) (xs : List A) → (map f xs ≡ []) ↔ (xs ≡ [])
map-empty f [] = ((λ h. refl), (λ h. refl))
map-empty f (x ∷ xs) = ((λ h. absurd (cons-empty h)), (λ h. absurd (cons-empty h)))

-- A node keeps the rule of its kind among these edges.
abbrev pub IsAllowed : List Edge → Node → Type 0
IsAllowed edges n =
    Allows n.kind (count (λ e. e.target) n.id edges) (count (λ e. e.source) n.id edges)

module _ (values : Table Node → List Node) (g : Graph) where
  abbrev in_deg : Table ℕ
  in_deg = degrees (λ e. e.target) g

  abbrev out_deg : Table ℕ
  out_deg = degrees (λ e. e.source) g

  node-IsAllowed :
      (n : Node)
      → (messages (edge_bounds n.kind) (degree n.id in_deg) (degree n.id out_deg) ≡ [])
        ↔ IsAllowed g.edges n
  node-IsAllowed n =
      subst
        (λ i.
          (messages (edge_bounds n.kind) (degree n.id in_deg) (degree n.id out_deg) ≡ [])
          ↔ Allows n.kind i (count (λ e. e.source) n.id g.edges))
        (degree-degrees (λ e. e.target) n.id g)
        (subst
          (λ o.
            (messages (edge_bounds n.kind) (degree n.id in_deg) (degree n.id out_deg) ≡ [])
            ↔ Allows n.kind (degree n.id in_deg) o)
          (degree-degrees (λ e. e.source) n.id g)
          (messages-Allows n.kind (degree n.id in_deg) (degree n.id out_deg)))

  node_errors-IsAllowed :
      (ns : List Node) → (node_errors in_deg out_deg ns ≡ []) ↔ All (IsAllowed g.edges) ns
  unfolding node_errors
  node_errors-IsAllowed [] = ((λ h. tt), (λ h. refl))
  node_errors-IsAllowed (n ∷ ns) =
      let found = messages (edge_bounds n.kind) (degree n.id in_deg) (degree n.id out_deg) in
      append-empty_iff (map (report n) found) (node_errors in_deg out_deg ns)
        (↔_trans (map-empty (report n) found) (node-IsAllowed n)) (node_errors-IsAllowed ns)

  -- `cardinality_errors` is empty exactly when each node that the table yields has as many incoming
  -- and outgoing edges in the graph as its kind allows.
  pub cardinality_errors-IsAllowed :
      (cardinality_errors values g ≡ []) ↔ All (IsAllowed g.edges) (values g.nodes)
  unfolding cardinality_errors
  cardinality_errors-IsAllowed = node_errors-IsAllowed (values g.nodes)
