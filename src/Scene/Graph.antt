-- ===== src/Scene/Graph.antt =====
-- The state of a RepoScene (bouncer/src/repo/core/model/collection/repo_scene.h). Nodes are shared and
-- mutable, so they live in a heap; a `RepoNode *` is an address, and `nullptr` is `none`.
use drepobouncer.Prelude.{ℕ, Bool, List, [], Option, none, some, ◌==◌, if◌then◌else◌}
use drepobouncer.Prelude.Map
use drepobouncer.Prelude.Map.{Map}
use drepobouncer.Scene.Node.{Node}
use Prim.Native.String.{String}

pub data GraphType : Type 0 where
  default optimized : GraphType

-- repoGraphInstance. The six node sets hold addresses.
pub record Graph : Type 0 where
  pub meshes : List ℕ
  pub materials : List ℕ
  pub metadata : List ℕ
  pub textures : List ℕ
  pub transformations : List ℕ
  pub unknowns : List ℕ
  pub root_node : Option ℕ
  pub nodes_by_unique_id : Map ℕ
  pub shared_id_to_unique_id : Map ℕ
  pub parent_to_children : Map (List ℕ)

-- `freed` lists the addresses that `delete` was called on, the latest first.
pub record Scene : Type 0 where
  pub heap : ℕ → Node
  pub freed : List ℕ
  pub graph : Graph
  pub stash_graph : Graph
  pub to_remove : List ℕ
  pub new_current : List ℕ
  pub new_added : List ℕ
  pub new_removed : List ℕ
  pub new_modified : List ℕ
  pub status : ℕ
  pub un_revisioned : Bool
  pub rev_node : Option ℕ
  pub database_name : String
  pub project_name : String

abbrev pub empty_graph : Graph
empty_graph = record {
  meshes = [];
  materials = [];
  metadata = [];
  textures = [];
  transformations = [];
  unknowns = [];
  root_node = none;
  nodes_by_unique_id = [];
  shared_id_to_unique_id = [];
  parent_to_children = [];
}

-- `g`, the graph that an operation works on
abbrev pub graph_of : GraphType → Scene → Graph
graph_of default s = s.graph
graph_of optimized s = s.stash_graph

abbrev pub with_graph : GraphType → Graph → Scene → Scene
with_graph default g s = record s { graph = g }
with_graph optimized g s = record s { stash_graph = g }

-- A write through a pointer.
abbrev pub update : (ℕ → Node) → ℕ → Node → ℕ → Node
update h a n b = if a == b then n else h b

abbrev pub write : ℕ → Node → Scene → Scene
write a n s = record s { heap = update s.heap a n }

abbrev pub children_or_empty : Option (List ℕ) → List ℕ
children_or_empty none = []
children_or_empty (some cs) = cs

-- getChildrenAsNodes
abbrev pub get_children_as_nodes : GraphType → ℕ → Scene → List ℕ
get_children_as_nodes t parent s =
    children_or_empty (Map.lookup parent (graph_of t s).parent_to_children)

-- getNodeByUniqueID
unfoldable pub get_node_by_unique_id : GraphType → ℕ → Scene → Option ℕ
get_node_by_unique_id t unique_id s = Map.lookup unique_id (graph_of t s).nodes_by_unique_id

-- getNodeBySharedID
unfoldable pub get_node_by_shared_id : GraphType → ℕ → Scene → Option ℕ
unfolding get_node_by_unique_id
get_node_by_shared_id t shared_id s =
    elim (Map.lookup shared_id (graph_of t s).shared_id_to_unique_id) [
      | none ↦ none
      | some u ↦ get_node_by_unique_id t u s
    ]
