-- ===== src/Scene/Maps/Root.antt =====
-- The root node that addNodeToMaps of bouncer/src/repo/core/model/collection/repo_scene.cpp keeps.
use drepobouncer.Prelude.{
  ℕ, true, false, ◌≡◌, ◌↔◌, refl, List, [], ◌∷◌, none, some, ◌==◌, if◌then◌else◌, arith, inl, inr,
  Bool-cases, Option-cases, subst, sym,
}
use drepobouncer.Prelude.Map
use drepobouncer.Prelude.Map.{lookup-insert, lookup-nil}
use drepobouncer.Scene.Node.{Node, same_ids, differs}
use drepobouncer.Scene.Graph.{GraphType, default, Graph, Scene, graph_of, with_graph}
use drepobouncer.Scene.Maps.Enter.{enter_lookups}
use drepobouncer.Scene.Maps.{
  ok, >>=-eq-ok, is_empty, is_transformation, choose_root, register, enter, add_node_to_maps,
  add_nodes,
}

same_ids_refl : (ids : List ℕ) → same_ids ids ids ≡ true
unfolding same_ids
same_ids_refl [] = refl
same_ids_refl (x ∷ ids) = ground (arith, same_ids_refl ids)

differs_self : (n : Node) → differs n n ≡ false
unfolding differs
differs_self n = ground (arith, same_ids_refl n.parent_ids)

-- A transformation with no parents.
abbrev pub IsTop : Node → Type 0
IsTop n = (is_transformation n ≡ true) × (is_empty n.parent_ids ≡ true)

-- The root is a transformation, and every top transformation of the graph is the root or equal to it.
pub record IsRooted (h : ℕ → Node) (g : Graph) : Type 0 where
  pub root_is : (r : ℕ) → g.root_node ≡ some r → is_transformation (h r) ≡ true
  pub only :
      (u c : ℕ)
      → Map.lookup u g.nodes_by_unique_id ≡ some c
      → IsTop (h c)
      → (r : ℕ) × (g.root_node ≡ some r) × (differs (h r) (h c) ≡ false)

-- addNodeToMaps throws exactly when a transformation without parents meets a root that is a
-- transformation and that differs from it.
pub enter_throws :
    (h : ℕ → Node) (a : ℕ) (g : Graph)
    → (enter h a g ≡ none) ↔ (
        IsTop (h a)
        × ((r : ℕ) × (g.root_node ≡ some r)
            × (is_transformation (h r) ≡ true)
            × (differs (h r) (h a) ≡ true)))
unfolding enter choose_root
enter_throws h a g = (
  λ e. elim (Option-cases g.root_node) [
    | inl m ↦ absurd (ground arith)
    | inr (r, m) ↦ ((ground arith, ground arith), (r, m, ground arith, ground arith))
  ],
  λ x. ground arith,
)

-- A root that is a transformation stays.
root-enter_keep :
    (h : ℕ → Node) (a r : ℕ) (g g' : Graph)
    → g.root_node ≡ some r
    → is_transformation (h r) ≡ true
    → enter h a g ≡ some g'
    → g'.root_node ≡ some r
unfolding enter choose_root register
root-enter_keep h a r g g' m t e = ground arith

root-enter_top :
    (h : ℕ → Node) (a : ℕ) (g g' : Graph)
    → IsTop (h a)
    → enter h a g ≡ some g'
    → ((r : ℕ) → g.root_node ≡ some r → is_transformation (h r) ≡ true)
    → (r : ℕ) × (g'.root_node ≡ some r) × (differs (h r) (h a) ≡ false)
unfolding enter choose_root register
root-enter_top h a g g' top e is = elim (Option-cases g.root_node) [
  | inl m ↦ (a, ground arith, differs_self (h a))
  | inr (r, m) ↦ (r, ground (arith, is r), ground (arith, is r))
]

nodes-enter :
    (h : ℕ → Node) (a u : ℕ) (g g' : Graph)
    → enter h a g ≡ some g'
    → Map.lookup u g'.nodes_by_unique_id
      ≡ (if (h a).unique_id == u then some a else Map.lookup u g.nodes_by_unique_id)
nodes-enter h a u g g' e = (enter_lookups h a g g' u 0 0 e).0

-- A node that can be entered keeps the root unique.
pub enter-IsRooted :
    (h : ℕ → Node) (a : ℕ) (g g' : Graph) → IsRooted h g → enter h a g ≡ some g' → IsRooted h g'
unfolding enter choose_root register
enter-IsRooted h a g g' v e = record {
  root_is = λ r m. ground (arith, v.root_is r);
  only = λ u c at top. elim (Bool-cases ((h a).unique_id == u)) [
    | inl new ↦
        let same : a ≡ c = ground (arith, nodes-enter h a u g g' e, new, at) in
        rw (← same) (root-enter_top h a g g' (rw same top) e v.root_is)
    | inr old ↦
        let (r, m, d) = v.only u c (ground (arith, nodes-enter h a u g g' e, old, at)) top in
        (r, root-enter_keep h a r g g' m (v.root_is r m) e, d)
  ];
}

pub add_node_to_maps-ok :
    (t : GraphType) (a : ℕ) (s s' : Scene)
    → add_node_to_maps t a s ≡ ok s'
    → (g : Graph) × (enter s.heap a (graph_of t s) ≡ some g) × (s' ≡ with_graph t g s)
unfolding add_node_to_maps
add_node_to_maps-ok t a s s' e = elim (Option-cases (enter s.heap a (graph_of t s))) [
  | inl m ↦ absurd (ground (arith, m))
  | inr (g, m) ↦ (g, m, ground (arith, m))
]

add_nodes_induction :
    (P : (ℕ → Node) → Graph → Type 0)
    → ((h : ℕ → Node) (a : ℕ) (g g' : Graph) → P h g → enter h a g ≡ some g' → P h g')
    → (nodes : List ℕ) (s s' : Scene) → P s.heap s.graph
    → add_nodes nodes s ≡ ok s'
    → P s'.heap s'.graph
unfolding add_nodes
add_nodes_induction P step [] s s' v e =
    let same : s ≡ s' = cc in subst (λ (t : Scene). P t.heap t.graph) same v
add_nodes_induction P step (a ∷ rest) s s' v e =
    let (s1, e1, e2) = >>=-eq-ok (add_node_to_maps default a s) (add_nodes rest) e in
    let (g, m, same) = add_node_to_maps-ok default a s s1 e1 in
    add_nodes_induction P step rest s1 s'
      (subst (λ (t : Scene). P t.heap t.graph) (sym same) (step s.heap a s.graph g v m)) e2

-- addNodes that returns leaves a graph whose root is a transformation and, up to `operator!=`, its
-- only transformation without parents, if the graph was such before.
pub add_nodes-IsRooted :
    (nodes : List ℕ) (s s' : Scene)
    → IsRooted s.heap s.graph
    → add_nodes nodes s ≡ ok s'
    → IsRooted s'.heap s'.graph
add_nodes-IsRooted nodes s s' v e = add_nodes_induction IsRooted enter-IsRooted nodes s s' v e
