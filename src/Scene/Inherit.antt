-- ===== src/Scene/Inherit.antt =====
-- The links between parents and children: addInheritance and abandonChild of
-- bouncer/src/repo/core/model/collection/repo_scene.cpp.
pub mod Children
pub mod Laws
pub mod Effects
use drepobouncer.Prelude.{ℕ, Bool, List, [], ◌∷◌, ◌++◌, Option, none, some, ◌==◌, if◌then◌else◌}
use drepobouncer.Prelude.Map
use drepobouncer.Prelude.Set
use drepobouncer.Scene.Node.{Node, add_parent, add_parents, remove_parent}
use drepobouncer.Scene.Graph.{
  GraphType, Graph, Scene, graph_of, with_graph, write, get_node_by_unique_id,
  get_node_by_shared_id,
}

-- std::find and erase: the first occurrence only.
unfoldable pub erase_first : ℕ → List ℕ → List ℕ
erase_first c [] = []
erase_first c (x ∷ xs) = if x == c then xs else x ∷ erase_first c xs

unfoldable pub push_child : ℕ → ℕ → Graph → Graph
push_child parent child g = elim (Map.lookup parent g.parent_to_children) [
  | some children ↦ if Set.contains child children then g else record g {
    parent_to_children = Map.insert parent (children ++ child ∷ []) g.parent_to_children;
  }
  | none ↦ record g { parent_to_children = Map.insert parent (child ∷ []) g.parent_to_children }
]

-- addInheritance of one parent
unfoldable pub add_inheritance : GraphType → Option ℕ → Option ℕ → Scene → Scene
add_inheritance t none c s = s
add_inheritance t (some p) none s = s
add_inheritance t (some p) (some c) s =
    let parent_id = (s.heap p).shared_id in
    write c (add_parent parent_id (s.heap c))
      (with_graph t (push_child parent_id c (graph_of t s)) s)

-- addInheritance by unique identifiers
unfoldable pub add_inheritance_by_id : GraphType → ℕ → ℕ → Scene → Scene
add_inheritance_by_id t parent child s =
    add_inheritance t (get_node_by_unique_id t parent s) (get_node_by_unique_id t child s) s

-- The shared identifiers of those parents that the child does not have yet.
unfoldable pub new_parent_ids : (ℕ → Node) → List ℕ → List ℕ → List ℕ
new_parent_ids h current [] = []
new_parent_ids h current (p ∷ ps) =
    let rest = new_parent_ids h current ps in
    if Set.contains (h p).shared_id current then rest else (h p).shared_id ∷ rest

unfoldable pub push_child_all : List ℕ → ℕ → Graph → Graph
push_child_all [] c g = g
push_child_all (p ∷ ps) c g = push_child_all ps c (push_child p c g)

-- addInheritance of a set of parents
unfoldable pub add_inheritances : GraphType → List ℕ → Option ℕ → Scene → Scene
add_inheritances t parents none s = s
add_inheritances t parents (some c) s =
    let ids = new_parent_ids s.heap (s.heap c).parent_ids parents in
    write c (add_parents (Set.insert_all ids []) (s.heap c))
      (with_graph t (push_child_all ids c (graph_of t s)) s)

unfoldable pub drop_child : ℕ → ℕ → Graph → Graph
unfolding erase_first
drop_child parent child g = elim (Map.lookup parent g.parent_to_children) [
  | none ↦ g
  | some children ↦
      if Set.contains child children
      then record g {
        parent_to_children = Map.insert parent (erase_first child children) g.parent_to_children;
      }
      else g
]

-- abandonChild
unfoldable pub abandon_child : GraphType → ℕ → Option ℕ → Bool → Bool → Scene → Scene
abandon_child t parent none modify_parent modify_child s = s
abandon_child t parent (some c) modify_parent modify_child s =
    let s' = if modify_parent then with_graph t (drop_child parent c (graph_of t s)) s else s in
    if modify_child then write c (remove_parent parent (s'.heap c)) s' else s'

-- abandonChild by the child's shared identifier
unfoldable pub abandon_child_by_id : GraphType → ℕ → ℕ → Bool → Bool → Scene → Scene
abandon_child_by_id t parent child modify_parent modify_child s =
    abandon_child t parent (get_node_by_shared_id t child s) modify_parent modify_child s
