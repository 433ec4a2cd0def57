-- ===== src/Scene/Removal.antt =====
-- Taking nodes out: removeNode, clearStash and resetChangeSet of
-- bouncer/src/repo/core/model/collection/repo_scene.cpp.
pub mod Laws
use drepobouncer.Prelude.{
  ℕ, Bool, true, false, List, [], ◌∷◌, ◌++◌, map, Option, none, some, ◌==◌, if◌then◌else◌,
}
use drepobouncer.Prelude.Map
use drepobouncer.Prelude.Map.{Map}
use drepobouncer.Prelude.Set
use drepobouncer.Scene.Node.{
  Node, NodeType, material, mesh, metadata, texture, transformation, revision, unknown, less,
}
use drepobouncer.Scene.Graph.{
  GraphType, default, optimized, Graph, Scene, empty_graph, graph_of, with_graph,
  get_node_by_shared_id,
}

-- RepoNodeSet::erase, by value.
unfoldable pub node_set_erase : (ℕ → Node) → ℕ → List ℕ → List ℕ
node_set_erase h a [] = []
node_set_erase h a (b ∷ bs) =
    if less (h b) (h a) then b ∷ node_set_erase h a bs else if less (h a) (h b) then b ∷ bs else bs

-- The switch over the node's type.
unfoldable pub erase_from : (ℕ → Node) → NodeType → ℕ → Graph → Graph
erase_from h material a g = record g { materials = node_set_erase h a g.materials }
erase_from h mesh a g = record g { meshes = node_set_erase h a g.meshes }
erase_from h metadata a g = record g { metadata = node_set_erase h a g.metadata }
erase_from h texture a g = record g { textures = node_set_erase h a g.textures }
erase_from h transformation a g = record g {
  transformations = node_set_erase h a g.transformations;
}
erase_from h unknown a g = record g { unknowns = node_set_erase h a g.unknowns }
erase_from h revision a g = g

-- The three maps without the node.
unfoldable pub unmap : ℕ → ℕ → Graph → Graph
unmap unique_id shared_id g = record g {
  nodes_by_unique_id = Map.erase unique_id g.nodes_by_unique_id;
  shared_id_to_unique_id = Map.erase shared_id g.shared_id_to_unique_id;
  parent_to_children = Map.erase shared_id g.parent_to_children;
}

-- The maps and the set of its type without the node.
unfoldable pub forget : (ℕ → Node) → ℕ → ℕ → Graph → Graph
forget h shared_id a g = erase_from h (h a).type a (unmap (h a).unique_id shared_id g)

-- The change set, and `delete` or the list of nodes that are deleted at the next commit.
unfoldable pub note_removed : GraphType → ℕ → ℕ → Scene → Scene
note_removed optimized shared_id a s = record s { freed = a ∷ s.freed }
note_removed default shared_id a s =
    if Set.contains shared_id s.new_added
    then record s { new_added = Set.erase shared_id s.new_added; freed = a ∷ s.freed }
    else record s {
      new_modified = Set.erase shared_id s.new_modified;
      new_removed = Set.insert shared_id s.new_removed;
      to_remove = s.to_remove ++ a ∷ [];
    }

-- removeNode
unfoldable pub remove_node : GraphType → ℕ → Scene → Scene
remove_node t shared_id s = elim (get_node_by_shared_id t shared_id s) [
  | none ↦ s
  | some a ↦ note_removed t shared_id a (with_graph t (forget s.heap shared_id a (graph_of t s)) s)
]

unfoldable pub values : Map ℕ → List ℕ
values [] = []
values ((k, a) ∷ m) = a ∷ values m

unfoldable pub keys : Map ℕ → List ℕ
keys [] = []
keys ((k, a) ∷ m) = k ∷ keys m

-- clearStash
unfoldable pub clear_stash : Scene → Scene
clear_stash s = record s {
  freed = values s.stash_graph.nodes_by_unique_id ++ s.freed;
  stash_graph = empty_graph;
}

-- resetChangeSet
unfoldable pub reset_change_set : Scene → Scene
reset_change_set s = record s {
  new_removed = [];
  new_modified = [];
  new_current = [];
  new_added = Set.insert_all (keys s.graph.shared_id_to_unique_id) [];
  rev_node = none;
  un_revisioned = true;
  database_name = "";
  project_name = "";
}
