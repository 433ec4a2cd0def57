-- ===== src/Scene/Maps.antt =====
-- Entering nodes into a graph: addNodeToMaps, addNodes, addNodeToScene and populateAndUpdate of
-- bouncer/src/repo/core/model/collection/repo_scene.cpp, and the status bits of repo_scene.h.
pub mod Enter
pub mod Root
pub mod Status
use drepobouncer.Prelude.{
  ℕ, ◌≡◌, refl, Bool, true, false, not, ◌&&◌, ◌+◌, ◌/◌, ◌%◌, List, [], ◌∷◌, ◌++◌, Option, none,
  some, ◌==◌, if◌then◌else◌,
}
use drepobouncer.Prelude.Map
use drepobouncer.Prelude.Map.{Map}
use drepobouncer.Prelude.Set
use drepobouncer.Scene.Node.{Node, NodeType, transformation, same_type, differs, less}
use drepobouncer.Scene.Graph.{
  GraphType, default, optimized, Graph, Scene, graph_of, with_graph, children_or_empty,
}

-- A scene, or the scene as it was when RepoSceneProcessingException was thrown.
pub data Outcome : Type 0 where
  ok : Scene → Outcome
  thrown : Scene → Outcome

infixl 5 ◌>>=◌
abbrev pub ◌>>=◌ : Outcome → (Scene → Outcome) → Outcome
ok s >>= f = f s
thrown s >>= f = thrown s

-- Inversion of a chain that returns.
pub >>=-eq-ok :
    (m : Outcome) (f : Scene → Outcome) {s : Scene}
    → (m >>= f) ≡ ok s
    → (s' : Scene) × (m ≡ ok s') × (f s' ≡ ok s)
>>=-eq-ok (ok s') f e = (s', refl, e)
>>=-eq-ok (thrown s') f e = absurd (cc)

-- status, whose bits are REPO_SCENE_TEXTURE_BIT (1) and REPO_SCENE_ENTITIES_BIT (2)
unfoldable pub set_missing_texture : Scene → Scene
set_missing_texture s = record s { status = if s.status % 2 == 0 then s.status + 1 else s.status }

unfoldable pub set_missing_nodes : Scene → Scene
set_missing_nodes s = record s { status = if s.status / 2 % 2 == 0 then s.status + 2 else s.status }

-- `(bool)status & REPO_SCENE_TEXTURE_BIT`: the cast binds tighter than `&`.
unfoldable pub is_missing_texture : Scene → Bool
is_missing_texture s = not ((if s.status == 0 then 0 else 1) % 2 == 0)

unfoldable pub is_missing_nodes : Scene → Bool
is_missing_nodes s = not (s.status / 2 % 2 == 0)

unfoldable pub is_ok : Scene → Bool
is_ok s = s.status == 0

unfoldable pub is_transformation : Node → Bool
is_transformation n = same_type n.type transformation

unfoldable pub is_empty : List ℕ → Bool
is_empty [] = true
is_empty (x ∷ xs) = false

-- The new root, given the old one; `none` stands for the exception.
unfoldable pub choose_root : (ℕ → Node) → Option ℕ → ℕ → Option (Option ℕ)
choose_root h none a = some (if is_transformation (h a) then some a else none)
choose_root h (some r) a =
    if differs (h r) (h a)
    then (if is_transformation (h a)
        then (if is_transformation (h r) then none else some (some a))
        else some (some r))
    else some (some r)

-- The loop over the parents: no test for a node that is there already.
unfoldable pub add_to_parents : List ℕ → ℕ → Map (List ℕ) → Map (List ℕ)
add_to_parents [] a m = m
add_to_parents (p ∷ ps) a m =
    add_to_parents ps a (Map.insert p (children_or_empty (Map.lookup p m) ++ a ∷ []) m)

-- The last two assignments.
unfoldable pub register : ℕ → Node → Graph → Graph
register a n g = record g {
  nodes_by_unique_id = Map.insert n.unique_id a g.nodes_by_unique_id;
  shared_id_to_unique_id = Map.insert n.shared_id n.unique_id g.shared_id_to_unique_id;
}

-- addNodeToMaps on one graph; `none` stands for the exception.
unfoldable pub enter : (ℕ → Node) → ℕ → Graph → Option Graph
enter h a g =
    if is_empty (h a).parent_ids
    then (elim (choose_root h g.root_node a) [
      | none ↦ none
      | some r ↦ some (register a (h a) (record g { root_node = r }))
    ])
    else some (
        register a (h a) (record g {
          parent_to_children = add_to_parents (h a).parent_ids a g.parent_to_children;
        }))

-- addNodeToMaps, which returns true whenever it returns
unfoldable pub add_node_to_maps : GraphType → ℕ → Scene → Outcome
add_node_to_maps t a s = elim (enter s.heap a (graph_of t s)) [
  | none ↦ thrown s
  | some g ↦ ok (with_graph t g s)
]

-- addNodes
unfoldable pub add_nodes : List ℕ → Scene → Outcome
add_nodes [] s = ok s
add_nodes (a ∷ rest) s = add_node_to_maps default a s >>= add_nodes rest

-- RepoNodeSet::insert: ordered by `operator<`, and nothing if an equivalent node is in.
unfoldable pub node_set_insert : (ℕ → Node) → ℕ → List ℕ → List ℕ
node_set_insert h a [] = a ∷ []
node_set_insert h a (b ∷ bs) =
    if less (h a) (h b)
    then a ∷ b ∷ bs
    else if less (h b) (h a)
    then b ∷ node_set_insert h a bs
    else b ∷ bs

-- Which of the six sets `collection` points to.
pub data Collection : Type 0 where
  meshes materials metadata textures transformations unknowns : Collection

unfoldable pub insert_in : (ℕ → Node) → Collection → ℕ → Graph → Graph
insert_in h meshes a g = record g { meshes = node_set_insert h a g.meshes }
insert_in h materials a g = record g { materials = node_set_insert h a g.materials }
insert_in h metadata a g = record g { metadata = node_set_insert h a g.metadata }
insert_in h textures a g = record g { textures = node_set_insert h a g.textures }
insert_in h transformations a g = record g {
  transformations = node_set_insert h a g.transformations;
}
insert_in h unknowns a g = record g { unknowns = node_set_insert h a g.unknowns }

abbrev pub note_added : GraphType → ℕ → Scene → Scene
note_added default id s = record s { new_added = Set.insert id s.new_added }
note_added optimized id s = s

-- `a` is an orphan: no transformation, and it has no parents.
unfoldable pub is_orphan : Node → Bool
is_orphan n = not (is_transformation n) && is_empty n.parent_ids

-- One round of addNodeToScene.
unfoldable pub add_one : GraphType → Collection → ℕ → Scene → Outcome
add_one t k a s =
    if is_orphan (s.heap a)
    then ok (set_missing_nodes s)
    else (add_node_to_maps t a (with_graph t (insert_in s.heap k a (graph_of t s)) s) >>= λ s'.
        ok (note_added t (s.heap a).shared_id s'))

-- addNodeToScene, which returns true whenever it returns
unfoldable pub add_node_to_scene : GraphType → List ℕ → Collection → Scene → Outcome
add_node_to_scene t [] k s = ok s
add_node_to_scene t (a ∷ rest) k s = add_one t k a s >>= add_node_to_scene t rest k

-- populateAndUpdate
unfoldable pub populate_and_update :
    GraphType → List ℕ → List ℕ → List ℕ → List ℕ → List ℕ → List ℕ → Scene → Outcome
populate_and_update t ms mats metas texs transs unks s =
    add_node_to_scene t ms meshes s
    >>= add_node_to_scene t mats materials
    >>= add_node_to_scene t metas metadata
    >>= add_node_to_scene t texs textures
    >>= add_node_to_scene t transs transformations
    >>= add_node_to_scene t unks unknowns

-- addStashGraph
unfoldable pub add_stash_graph : List ℕ → List ℕ → List ℕ → List ℕ → Scene → Outcome
add_stash_graph ms mats texs transs = populate_and_update optimized ms mats [] texs transs []
