-- ===== src/Scene/Examples.antt =====
-- The theorems on scenes, applied to a small scene: a root transformation, a mesh under it, and a mesh
-- without a parent (bouncer/src/repo/core/model/collection/repo_scene.cpp).
use drepobouncer.Prelude.{
  ℕ, ◌≡◌, ◌↔◌, refl, true, false, [], ◌∷◌, none, some, ◌==◌, if◌then◌else◌, arith, ◌<◌,
}
use drepobouncer.Prelude.Map
use drepobouncer.Prelude.Set
use drepobouncer.Scene.Node.{Node, NodeType, transformation, mesh, differs, same_ids}
use drepobouncer.Scene.Graph.{
  default, Graph, Scene, empty_graph, get_children_as_nodes, get_node_by_shared_id,
  get_node_by_unique_id,
}
use drepobouncer.Scene.Inherit.{
  add_inheritance, add_inheritances, abandon_child, push_child, push_child_all, new_parent_ids,
}
use drepobouncer.Scene.Inherit.Children.{children_of, IsConsistent}
use drepobouncer.Scene.Inherit.Laws.{add_inheritance-IsConsistent, abandon_child-IsConsistent}
use drepobouncer.Scene.Inherit.Effects.{add_inheritance_links, abandon_child_links}
use drepobouncer.Scene.Maps.{
  enter, add_nodes, add_node_to_maps, ok, choose_root, register, add_to_parents, is_empty,
  is_transformation, meshes, add_node_to_scene, is_missing_nodes, set_missing_nodes, add_one,
  is_orphan,
}
use drepobouncer.Scene.Maps.Enter.{enter_lookups, enter-IsConsistent}
use drepobouncer.Scene.Maps.Root.{IsRooted, IsTop, enter_throws, add_nodes-IsRooted}
use drepobouncer.Scene.Maps.Status.{add_node_to_scene_notes, any_orphan, added_ids}
use drepobouncer.Scene.Removal.{remove_node}
use drepobouncer.Scene.Removal.Laws.{remove_node_lookups}
use drepobouncer.Scene.Descend.{get_all_descendants_by_type}
use drepobouncer.Scene.Descend.Laws.{Descends, get_all_descendants_by_type_lem}

abbrev root : Node
root = record {
  name = "root";
  unique_id = 10;
  shared_id = 20;
  parent_ids = [];
  rev_id = 0;
  type = transformation;
}

abbrev wall : Node
wall = record {
  name = "wall";
  unique_id = 11;
  shared_id = 21;
  parent_ids = 20 ∷ [];
  rev_id = 0;
  type = mesh;
}

abbrev loose : Node
loose = record {
  name = "loose";
  unique_id = 12;
  shared_id = 22;
  parent_ids = [];
  rev_id = 0;
  type = mesh;
}

abbrev shed : Node
shed = record {
  name = "shed";
  unique_id = 13;
  shared_id = 23;
  parent_ids = [];
  rev_id = 0;
  type = transformation;
}

abbrev nodes : ℕ → Node
nodes a = if a == 0 then root else if a == 1 then wall else if a == 2 then loose else shed

abbrev rooted : Graph
rooted = record empty_graph {
  root_node = some 0;
  nodes_by_unique_id = (10, 0) ∷ [];
  shared_id_to_unique_id = (20, 10) ∷ [];
}

abbrev walled : Graph
walled = record rooted {
  nodes_by_unique_id = (10, 0) ∷ (11, 1) ∷ [];
  shared_id_to_unique_id = (20, 10) ∷ (21, 11) ∷ [];
  parent_to_children = (20, 1 ∷ []) ∷ [];
}

abbrev house : Scene
house = record {
  heap = nodes;
  freed = [];
  graph = walled;
  stash_graph = rooted;
  to_remove = [];
  new_current = [];
  new_added = 20 ∷ 21 ∷ [];
  new_removed = [];
  new_modified = [];
  status = 0;
  un_revisioned = true;
  rev_node = none;
  database_name = "db";
  project_name = "project";
}

abbrev empty_house : Scene
empty_house = record house { graph = empty_graph; stash_graph = empty_graph; new_added = [] }

enter_root : enter nodes 0 empty_graph ≡ some rooted
unfolding enter register is_empty choose_root is_transformation Map.insert
    drepobouncer.Scene.Node.same_type
enter_root = refl

enter_wall : enter nodes 1 rooted ≡ some walled
unfolding enter register is_empty add_to_parents Map.insert Map.lookup
enter_wall = refl

empty-IsConsistent : IsConsistent nodes empty_graph
unfolding Map.lookup Set.contains
empty-IsConsistent = record {
  sound = λ p c m. absurd (cc m);
  complete = λ u p c at m. absurd (cc at);
  distinct = λ p. tt;
}

rooted-IsConsistent : IsConsistent nodes rooted
unfolding Map.lookup Set.contains
rooted-IsConsistent =
    enter-IsConsistent nodes 0 empty_graph rooted empty-IsConsistent tt (λ p. refl) enter_root

walled-IsConsistent : IsConsistent nodes walled
unfolding Map.lookup Set.contains
walled-IsConsistent =
    enter-IsConsistent nodes 1 rooted walled rooted-IsConsistent (refl, tt) (λ p. refl) enter_wall

empty-IsRooted : IsRooted nodes empty_graph
unfolding Map.lookup
empty-IsRooted = record { root_is = λ r e. absurd (cc e); only = λ u c at top. absurd (cc at) }

-- The wall is entered below the root.
enter-IsConsistent_example : IsConsistent nodes walled
unfolding Map.lookup Set.contains
enter-IsConsistent_example =
    enter-IsConsistent nodes 1 rooted walled rooted-IsConsistent (refl, tt) (λ p. refl) enter_wall

add_inheritance-IsConsistent_example :
    IsConsistent
      (add_inheritance default (some 0) (some 2) house).heap
      (add_inheritance default (some 0) (some 2) house).graph
add_inheritance-IsConsistent_example =
    add_inheritance-IsConsistent default (some 0) (some 2) house walled-IsConsistent

abandon_child-IsConsistent_example :
    IsConsistent
      (abandon_child default 20 (some 1) true true house).heap
      (abandon_child default 20 (some 1) true true house).graph
abandon_child-IsConsistent_example =
    abandon_child-IsConsistent default 20 (some 1) house walled-IsConsistent

add_inheritance_links_example :
    (get_children_as_nodes default 20 (add_inheritance default (some 0) (some 2) house)
      ≡ 1 ∷ 2 ∷ [])
    × (Set.contains 20 ((add_inheritance default (some 0) (some 2) house).heap 2).parent_ids ≡ true)
unfolding Map.lookup Set.contains
add_inheritance_links_example = add_inheritance_links default 0 2 20 house

abandon_child_links_example :
    (get_children_as_nodes default 20 (abandon_child default 20 (some 1) true false house) ≡ [])
    × (Set.contains 20 ((abandon_child default 20 (some 1) true false house).heap 1).parent_ids
        ≡ true)
unfolding Map.lookup Set.contains drepobouncer.Scene.Inherit.erase_first
abandon_child_links_example = abandon_child_links default 20 1 20 true false house

enter_lookups_example :
    (Map.lookup 11 walled.nodes_by_unique_id ≡ some 1)
    × (Map.lookup 11 walled.shared_id_to_unique_id ≡ none)
    × (Set.contains 1 (children_of walled 11) ≡ false)
unfolding Map.lookup Set.contains
enter_lookups_example = enter_lookups nodes 1 rooted walled 11 11 1 enter_wall

enter_throws_example : (enter nodes 3 walled ≡ none) ↔ (
    IsTop shed
    × ((r : ℕ) × (some 0 ≡ some r)
        × (is_transformation (nodes r) ≡ true)
        × (differs (nodes r) shed ≡ true)))
enter_throws_example = enter_throws nodes 3 walled

add_root_and_wall : add_nodes (0 ∷ 1 ∷ []) empty_house ≡ ok (record empty_house { graph = walled })
unfolding add_nodes add_node_to_maps enter register is_empty choose_root is_transformation
    add_to_parents Map.insert Map.lookup drepobouncer.Scene.Node.same_type
add_root_and_wall = refl

add_nodes-IsRooted_example : IsRooted nodes walled
add_nodes-IsRooted_example =
    add_nodes-IsRooted (0 ∷ 1 ∷ []) empty_house (record empty_house { graph = walled })
      empty-IsRooted add_root_and_wall

add_loose : add_node_to_scene default (2 ∷ []) meshes house ≡ ok (set_missing_nodes house)
unfolding add_node_to_scene add_one is_orphan is_empty is_transformation
    drepobouncer.Scene.Node.same_type
add_loose = refl

add_node_to_scene_notes_example :
    (is_missing_nodes (set_missing_nodes house) ≡ true)
    × (Set.contains 22 (set_missing_nodes house).new_added ≡ false)
unfolding any_orphan added_ids is_orphan is_empty is_transformation
    drepobouncer.Scene.Node.same_type Set.contains
add_node_to_scene_notes_example =
    add_node_to_scene_notes meshes (2 ∷ []) house (set_missing_nodes house) 22 add_loose

wall_found : get_node_by_shared_id default 21 house ≡ some 1
unfolding get_node_by_shared_id get_node_by_unique_id Map.lookup
wall_found = refl

remove_node_lookups_example :
    (Map.lookup 11 (remove_node default 21 house).graph.nodes_by_unique_id ≡ none)
    × (Map.lookup 11 (remove_node default 21 house).graph.shared_id_to_unique_id ≡ none)
    × (get_children_as_nodes default 11 (remove_node default 21 house) ≡ [])
unfolding Map.lookup
remove_node_lookups_example = remove_node_lookups default 21 1 11 house wall_found

abbrev rank : ℕ → ℕ
rank id = if id == 20 then 1 else 0

rank-falls :
    (id c : ℕ) → Set.contains c (children_of walled id) ≡ true → rank (nodes c).shared_id < rank id
unfolding Map.lookup Set.contains
rank-falls id c m = ground arith

get_all_descendants_by_type_lem_example :
    Descends nodes walled mesh 20 (get_all_descendants_by_type 2 nodes walled mesh 20)
get_all_descendants_by_type_lem_example =
    get_all_descendants_by_type_lem nodes walled mesh rank rank-falls 2 20 (omega arith)
