-- ===== src/SelectionTree/Read.antt =====
-- What the loops of generateSelectionTrees of
-- bouncer/src/repo/manipulator/modelutility/repo_maker_selection_tree.cpp read from the cursor, described without them.
use drepobouncer.Prelude.{
  ap₂, ℕ, ◌≡◌, refl, sym, ap, ◌∙◌, Bool, true, false, List, [], ◌∷◌, ◌++◌, Option, none, some, ◌==◌,
  if◌then◌else◌, if-cases, filter, append_assoc, append-nil, All,
}
use drepobouncer.Prelude.Map
use drepobouncer.Prelude.Map.{Map}
use drepobouncer.Scene.Node.{NodeType, Node}
use drepobouncer.SelectionTree.Linking.{
  is_at, Loaded, load_as, load_node, load, shared_id_to_node, parent_shared_id, parent_of,
  empty_loaded, loaded, index_of,
}

abbrev pub in_tree : NodeType → Bool
in_tree NodeType.mesh = true
in_tree NodeType.transformation = true
in_tree _ = false

abbrev pub is_metadata : NodeType → Bool
is_metadata NodeType.metadata = true
is_metadata _ = false

-- The meshes and transformations, in the order of the cursor
abbrev pub tree_nodes : List Node → List Node
tree_nodes cursor = filter (λ n. in_tree n.type) cursor

-- The unique id of the last of the nodes with a shared id
abbrev pub last_with : ℕ → Option ℕ → List Node → Option ℕ
last_with id found [] = found
last_with id found (n ∷ nodes) =
    last_with id (if n.shared_id == id then some n.unique_id else found) nodes

abbrev pub first_or : ℕ → List ℕ → ℕ
first_or default_id [] = default_id
first_or default_id (id ∷ ids) = id

-- The node that has the first parent of n, or the default id, as its shared id
abbrev pub parent_in : ℕ → List Node → Node → Option ℕ
parent_in default_id cursor n =
    last_with (first_or default_id n.parent_ids) none (tree_nodes cursor)

-- Each parent of the metadata is a node of the tree.
abbrev pub HasParents : List Node → Node → Type 0
HasParents cursor n =
    All (λ parent. (p : ℕ) × (last_with parent none (tree_nodes cursor) ≡ some p)) n.parent_ids

abbrev pub AllHaveParents : List Node → Type 0
AllHaveParents cursor = All (HasParents cursor) (filter (λ n. is_metadata n.type) cursor)

-- The parents of the metadata by unique id: the later of two nodes with one unique id replaces the earlier.
abbrev pub metadata_of : List Node → Map (List ℕ) → Map (List ℕ)
metadata_of [] m = m
metadata_of (n ∷ nodes) m = metadata_of nodes (Map.insert n.unique_id n.parent_ids m)

-- The identifiers of the metadata that have the node p for a parent, once for each such parent
abbrev pub once_for_each : (ℕ → Option ℕ) → ℕ → ℕ → List ℕ → List ℕ
once_for_each find p id [] = []
once_for_each find p id (parent ∷ parents) =
    let rest = once_for_each find p id parents in if is_at p (find parent) then id ∷ rest else rest

abbrev pub meta_at : (ℕ → Option ℕ) → ℕ → Map (List ℕ) → List ℕ
meta_at find p [] = []
meta_at find p ((id, parents) ∷ rest) = once_for_each find p id parents ++ meta_at find p rest

abbrev pub meta_in : List Node → ℕ → List ℕ
meta_in cursor p =
    meta_at (λ parent. last_with parent none (tree_nodes cursor)) p
      (metadata_of (filter (λ n. is_metadata n.type) cursor) [])

once_for_each-agree :
    (find find' : ℕ → Option ℕ) (p id : ℕ) (parents : List ℕ)
    → ((parent : ℕ) → find parent ≡ find' parent)
    → once_for_each find p id parents ≡ once_for_each find' p id parents
once_for_each-agree find find' p id [] h = refl
once_for_each-agree find find' p id (parent ∷ parents) h =
    rw (h parent, once_for_each-agree find find' p id parents h) refl

meta_at-agree :
    (find find' : ℕ → Option ℕ) (p : ℕ) (entries : Map (List ℕ))
    → ((parent : ℕ) → find parent ≡ find' parent)
    → meta_at find p entries ≡ meta_at find' p entries
meta_at-agree find find' p [] h = refl
meta_at-agree find find' p ((id, parents) ∷ rest) h =
    ap₂ (◌++◌) (once_for_each-agree find find' p id parents h) (meta_at-agree find find' p rest h)

lookup-shared_id_to_node :
    (id : ℕ) (nodes : List Node) (m : Map ℕ)
    → Map.lookup id (shared_id_to_node nodes m) ≡ last_with id (Map.lookup id m) nodes
unfolding shared_id_to_node
lookup-shared_id_to_node id [] m = refl
lookup-shared_id_to_node id (n ∷ nodes) m =
    lookup-shared_id_to_node id nodes (Map.insert n.shared_id n.unique_id m)
    ∙ ap (λ found. last_with id found nodes) (Map.lookup-insert n.shared_id id n.unique_id m)

load_as-nodes :
    (t : NodeType) (n : Node) (l : Loaded)
    → (load_as t n l).nodes ≡ (if in_tree t then l.nodes ++ n ∷ [] else l.nodes)
unfolding load_as
load_as-nodes NodeType.material n l = refl
load_as-nodes NodeType.mesh n l = refl
load_as-nodes NodeType.metadata n l = refl
load_as-nodes NodeType.texture n l = refl
load_as-nodes NodeType.transformation n l = refl
load_as-nodes NodeType.revision n l = refl
load_as-nodes NodeType.unknown n l = refl

pub push-if :
    {A : Type 0} (b : Bool) (xs : List A) (x : A) (rest : List A)
    → (if b then xs ++ x ∷ [] else xs) ++ rest ≡ xs ++ (if b then x ∷ rest else rest)
push-if true xs x rest = append_assoc xs (x ∷ []) rest
push-if false xs x rest = refl

load-nodes :
    (cursor : List Node) (l : Loaded) → (load cursor l).nodes ≡ l.nodes ++ tree_nodes cursor
unfolding load load_node
load-nodes [] l = sym (append-nil l.nodes)
load-nodes (n ∷ cursor) l =
    load-nodes cursor (load_node n l)
    ∙ ap (λ nodes. nodes ++ tree_nodes cursor) (load_as-nodes n.type n l)
    ∙ push-if (in_tree n.type) l.nodes n (tree_nodes cursor)

pub loaded-nodes : (cursor : List Node) → (loaded cursor).nodes ≡ tree_nodes cursor
loaded-nodes cursor = load-nodes cursor empty_loaded

load_as-metadata :
    (t : NodeType) (n : Node) (l : Loaded) (rest : List Node)
    → metadata_of rest (load_as t n l).metadata
      ≡ metadata_of (if is_metadata t then n ∷ rest else rest) l.metadata
unfolding load_as
load_as-metadata NodeType.material n l rest = refl
load_as-metadata NodeType.mesh n l rest = refl
load_as-metadata NodeType.metadata n l rest = refl
load_as-metadata NodeType.texture n l rest = refl
load_as-metadata NodeType.transformation n l rest = refl
load_as-metadata NodeType.revision n l rest = refl
load_as-metadata NodeType.unknown n l rest = refl

load-metadata :
    (cursor : List Node) (l : Loaded)
    → (load cursor l).metadata ≡ metadata_of (filter (λ n. is_metadata n.type) cursor) l.metadata
unfolding load load_node
load-metadata [] l = refl
load-metadata (n ∷ cursor) l =
    load-metadata cursor (load_node n l)
    ∙ load_as-metadata n.type n l (filter (λ m. is_metadata m.type) cursor)

pub lookup-index_of :
    (id : ℕ) (cursor : List Node)
    → Map.lookup id (index_of cursor) ≡ last_with id none (tree_nodes cursor)
unfolding Map.lookup
lookup-index_of id cursor =
    lookup-shared_id_to_node id (loaded cursor).nodes []
    ∙ ap (last_with id none) (loaded-nodes cursor)

pub meta_at-index_of :
    (cursor : List Node) (p : ℕ)
    → meta_at (λ parent. Map.lookup parent (index_of cursor)) p (loaded cursor).metadata
      ≡ meta_in cursor p
meta_at-index_of cursor p =
    meta_at-agree (λ parent. Map.lookup parent (index_of cursor))
      (λ parent. last_with parent none (tree_nodes cursor)) p (loaded cursor).metadata
      (λ parent. lookup-index_of parent cursor)
    ∙ ap (meta_at (λ parent. last_with parent none (tree_nodes cursor)) p)
        (load-metadata cursor empty_loaded)

first_parent :
    (default_id : ℕ) (n : Node) (ids : List ℕ)
    → n.parent_ids ≡ ids
    → parent_shared_id default_id n ≡ first_or default_id n.parent_ids
first_parent default_id n [] e = rw (parent_shared_id, e) refl
first_parent default_id n (id ∷ ids) e = rw (parent_shared_id, e) refl

pub parent_of-index_of :
    (default_id : ℕ) (cursor : List Node) (n : Node)
    → parent_of default_id (index_of cursor) n ≡ parent_in default_id cursor n
parent_of-index_of default_id cursor n =
    ap (λ id. Map.lookup id (index_of cursor)) (first_parent default_id n n.parent_ids refl)
    ∙ lookup-index_of (first_or default_id n.parent_ids) cursor

-- What holds of the parents of the metadata, holds of them when they are in the map.
module _ (P : List ℕ → Type 0) where
  insert-All :
      (id : ℕ) (ids : List ℕ) (entries : Map (List ℕ))
      → P ids
      → All (λ entry. P entry.1) entries
      → All (λ entry. P entry.1) (Map.insert id ids entries)
  unfolding Map.insert
  insert-All id ids [] p h = (p, tt)
  insert-All id ids ((i, x) ∷ entries) p h =
      if-cases (All (λ entry. P entry.1)) (i == id) ((id, ids) ∷ entries)
        ((i, x) ∷ Map.insert id ids entries) (λ _. (p, h.1))
        (λ _. (h.0, insert-All id ids entries p h.1))

  load_as-All :
      (t : NodeType) (n : Node) (l : Loaded) (rest : List Node)
      → All (λ m. P m.parent_ids) (if is_metadata t then n ∷ rest else rest)
      → All (λ entry. P entry.1) l.metadata
      → All (λ entry. P entry.1) (load_as t n l).metadata × All (λ m. P m.parent_ids) rest
  unfolding load_as
  load_as-All NodeType.metadata n l rest h k =
      (insert-All n.unique_id n.parent_ids l.metadata h.0 k, h.1)
  load_as-All NodeType.material n l rest h k = (k, h)
  load_as-All NodeType.mesh n l rest h k = (k, h)
  load_as-All NodeType.texture n l rest h k = (k, h)
  load_as-All NodeType.transformation n l rest h k = (k, h)
  load_as-All NodeType.revision n l rest h k = (k, h)
  load_as-All NodeType.unknown n l rest h k = (k, h)

  pub load-All :
      (cursor : List Node) (l : Loaded)
      → All (λ m. P m.parent_ids) (filter (λ n. is_metadata n.type) cursor)
      → All (λ entry. P entry.1) l.metadata
      → All (λ entry. P entry.1) (load cursor l).metadata
  unfolding load load_node
  load-All [] l h k = k
  load-All (n ∷ cursor) l h k =
      let (k', h') = load_as-All n.type n l (filter (λ m. is_metadata m.type) cursor) h k in
      load-All cursor (load_node n l) h' k'
