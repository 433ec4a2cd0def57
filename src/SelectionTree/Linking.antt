-- ===== src/SelectionTree/Linking.antt =====
-- The nodes of the selection tree as they are read and linked: generateSelectionTrees of
-- bouncer/src/repo/manipulator/modelutility/repo_maker_selection_tree.cpp, given the nodes of the database's cursor.
use drepobouncer.Prelude.{
  ℕ, ◌≡◌, refl, sym, ap, ◌∙◌, Bool, true, false, List, [], ◌∷◌, ◌++◌, Option, none, some, map, ◌==◌,
  if◌then◌else◌, filter, append_assoc, append-nil, Option-cases, Bool-cases, inl, inr, arith,
}
use drepobouncer.Prelude.Map
use drepobouncer.Prelude.Map.{Map}
use drepobouncer.Scene.Node.{NodeType, Node}

-- The first loop: the nodes of the tree and the metadata, each with its parents
pub record Loaded : Type 0 where
  pub nodes : List Node
  pub metadata : Map (List ℕ)

unfoldable pub load_as : NodeType → Node → Loaded → Loaded
load_as NodeType.mesh n l = record l { nodes = l.nodes ++ n ∷ [] }
load_as NodeType.transformation n l = record l { nodes = l.nodes ++ n ∷ [] }
load_as NodeType.metadata n l = record l {
  metadata = Map.insert n.unique_id n.parent_ids l.metadata;
}
load_as _ n l = l

unfoldable pub load_node : Node → Loaded → Loaded
load_node n l = load_as n.type n l

unfoldable pub load : List Node → Loaded → Loaded
load [] l = l
load (n ∷ cursor) l = load cursor (load_node n l)

-- sharedIdToNode, with the unique id for the address
unfoldable pub shared_id_to_node : List Node → Map ℕ → Map ℕ
shared_id_to_node [] m = m
shared_id_to_node (n ∷ nodes) m = shared_id_to_node nodes (Map.insert n.shared_id n.unique_id m)

-- The links that are made
pub record Links : Type 0 where
  pub children : Map (List ℕ)
  pub meta : Map (List ℕ)
  pub root : Option ℕ

abbrev pub at_found : Option (List ℕ) → List ℕ
at_found none = []
at_found (some ids) = ids

abbrev pub at_or_nil : ℕ → Map (List ℕ) → List ℕ
at_or_nil id m = at_found (Map.lookup id m)

-- uniqueIdToParentSharedId: the first parent; reading it of a node without one gives the default id.
abbrev pub parent_shared_id : ℕ → Node → ℕ
parent_shared_id default_id n = elim n.parent_ids [ [] ↦ default_id | id ∷ _ ↦ id ]

abbrev pub is_at : ℕ → Option ℕ → Bool
is_at p none = false
is_at p (some q) = q == p

abbrev pub is_none : Option ℕ → Bool
is_none none = true
is_none (some q) = false

pub at_or_nil-insert :
    (q p id : ℕ) (m : Map (List ℕ))
    → at_or_nil p (Map.insert q (at_or_nil q m ++ id ∷ []) m)
      ≡ (if q == p then at_or_nil p m ++ id ∷ [] else at_or_nil p m)
at_or_nil-insert q p id m = elim (Bool-cases (q == p)) [
  | inl same ↦
      (let e : q ≡ p = ground (arith, same) in
        ap at_found (Map.lookup-insert q p (at_or_nil q m ++ id ∷ []) m) ∙ rw (same, e) refl)
  | inr other ↦ ap at_found (Map.lookup-insert q p (at_or_nil q m ++ id ∷ []) m) ∙ rw other refl
]

append-if :
    (b : Bool) (ids : List ℕ) (n : Node) (rest : List Node)
    → (if b then ids ++ n.unique_id ∷ [] else ids) ++ map (λ m. m.unique_id) rest
      ≡ ids ++ map (λ m. m.unique_id) (if b then n ∷ rest else rest)
append-if true ids n rest = append_assoc ids (n.unique_id ∷ []) (map (λ m. m.unique_id) rest)
append-if false ids n rest = refl

abbrev pub last_or : Option ℕ → List Node → Option ℕ
last_or found [] = found
last_or found (n ∷ nodes) = last_or (some n.unique_id) nodes

module _ (default_id : ℕ) (by_shared_id : Map ℕ) where
  abbrev pub parent_of : Node → Option ℕ
  parent_of n = Map.lookup (parent_shared_id default_id n) by_shared_id

  unfoldable pub link_node : Node → Links → Links
  link_node n l = elim (parent_of n) [
    | none ↦ record l { root = some n.unique_id }
    | some p ↦ record l {
      children = Map.insert p (at_or_nil p l.children ++ n.unique_id ∷ []) l.children;
    }
  ]

  unfoldable pub link_nodes : List Node → Links → Links
  link_nodes [] l = l
  link_nodes (n ∷ nodes) l = link_nodes nodes (link_node n l)

  -- A metadata node at its parents; `none` where the program follows a null pointer.
  unfoldable pub link_metadata : ℕ → List ℕ → Links → Option Links
  link_metadata id [] l = some l
  link_metadata id (parent ∷ parents) l = elim (Map.lookup parent by_shared_id) [
    | none ↦ none
    | some p ↦
        link_metadata id parents
          (record l { meta = Map.insert p (at_or_nil p l.meta ++ id ∷ []) l.meta })
  ]

  unfoldable pub link_all_metadata : Map (List ℕ) → Links → Option Links
  link_all_metadata [] l = some l
  link_all_metadata ((id, parents) ∷ rest) l = elim (link_metadata id parents l) [
    | none ↦ none
    | some l' ↦ link_all_metadata rest l'
  ]

  -- Whether p is the parent, and whether there is none
  abbrev pub is_child_of : ℕ → Node → Bool
  is_child_of p n = is_at p (parent_of n)

  abbrev pub is_orphan : Node → Bool
  is_orphan n = is_none (parent_of n)

  link_node-children :
      (n : Node) (l : Links) (p : ℕ)
      → at_or_nil p (link_node n l).children ≡ (
          if is_child_of p n
          then at_or_nil p l.children ++ n.unique_id ∷ []
          else at_or_nil p l.children)
  unfolding link_node
  link_node-children n l p = elim (Option-cases (parent_of n)) [
    | inl e ↦ rw (link_node, e) refl
    | inr (q, e) ↦ rw (link_node, e) (at_or_nil-insert q p n.unique_id l.children)
  ]

  -- The children of a node are the nodes whose parent it is, in the order of the cursor, behind those that it has.
  pub link_nodes-children :
      (nodes : List Node) (l : Links) (p : ℕ)
      → at_or_nil p (link_nodes nodes l).children
        ≡ at_or_nil p l.children ++ map (λ n. n.unique_id) (filter (is_child_of p) nodes)
  unfolding link_nodes
  link_nodes-children [] l p = sym (append-nil (at_or_nil p l.children))
  link_nodes-children (n ∷ nodes) l p =
      link_nodes-children nodes (link_node n l) p
      ∙ ap (λ ids. ids ++ map (λ m. m.unique_id) (filter (is_child_of p) nodes))
          (link_node-children n l p)
      ∙ append-if (is_child_of p n) (at_or_nil p l.children) n (filter (is_child_of p) nodes)

  pub link_nodes-root :
      (nodes : List Node) (l : Links)
      → (link_nodes nodes l).root ≡ last_or l.root (filter is_orphan nodes)
  unfolding link_nodes link_node
  link_nodes-root [] l = refl
  link_nodes-root (n ∷ nodes) l = elim (Option-cases (parent_of n)) [
    | inl e ↦ link_nodes-root nodes (link_node n l) ∙ rw (link_node, e) refl
    | inr (q, e) ↦ link_nodes-root nodes (link_node n l) ∙ rw (link_node, e) refl
  ]

abbrev pub empty_loaded : Loaded
empty_loaded = record { nodes = []; metadata = [] }

abbrev pub empty_links : Links
empty_links = record { children = []; meta = []; root = none }

abbrev pub loaded : List Node → Loaded
loaded cursor = load cursor empty_loaded

abbrev pub index_of : List Node → Map ℕ
index_of cursor = shared_id_to_node (loaded cursor).nodes []

-- generateSelectionTrees up to the traversal; the metadata come in the order of the map.
unfoldable pub link : ℕ → List Node → Option Links
link default_id cursor =
    link_all_metadata default_id (index_of cursor) (loaded cursor).metadata
      (link_nodes default_id (index_of cursor) (loaded cursor).nodes empty_links)
