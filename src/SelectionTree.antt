-- ===== src/SelectionTree.antt =====
-- The selection tree of a scene: traversePtree of
-- bouncer/src/repo/manipulator/modelutility/repo_maker_selection_tree.cpp over the nodes of
-- repo_maker_selection_tree.h. A node is known by its unique id; its path and state are kept in maps.
pub mod Below
pub mod Leaving
pub mod Traversing
pub mod Linking
pub mod Read
pub mod Linked
mod Examples
use drepobouncer.Prelude.{
  ℕ, zero, suc, Bool, true, false, ◌&&◌, ◌||◌, List, [], ◌∷◌, ◌++◌, Option, none, some,
  if◌then◌else◌,
}
use drepobouncer.Prelude.Map
use drepobouncer.Prelude.Map.{Map}
use drepobouncer.Scene.Node.{NodeType}
use Prim.Native.String.{String}

-- SelectionTree::Node::ToggleState
pub data ToggleState : Type 0 where
  show : ToggleState
  hidden : ToggleState
  half_hidden : ToggleState

-- SelectionTree::Node
pub record Entry : Type 0 where
  pub type : NodeType
  pub name : String
  pub shared_id : ℕ
  pub children : List ℕ

-- The nodes that are linked, isHiddenByDefault of the scene, whether a name holds "(IFC Space)", and std::sort by
-- the latter, which leaves the order of equal ones open.
pub record Env : Type 0 where
  pub entry : ℕ → Entry
  pub is_hidden_by_default : ℕ → Bool
  pub is_space : String → Bool
  pub sort : (ℕ → Bool) → List ℕ → List ℕ

-- SelectionTreesSet, and what the nodes hold
pub record Trees : Type 0 where
  pub path : Map (List ℕ)
  pub toggle_state : Map ToggleState
  pub id_to_path : Map (List ℕ)
  pub id_to_meshes : Map (List ℕ)
  pub id_to_name : Map String
  pub id_map : Map ℕ
  pub hidden_nodes : List ℕ

-- What a call gives back through its references
pub record Out : Type 0 where
  pub has_hidden_children : Bool
  pub mesh_ids : List ℕ
  pub trees : Trees

abbrev pub is_mesh : NodeType → Bool
is_mesh NodeType.mesh = true
is_mesh _ = false

module _ (env : Env) where
  abbrev pub mesh_at : ℕ → Bool
  mesh_at id = is_mesh (env.entry id).type

  -- The condition under which a node is hidden
  abbrev pub hidden_at : ℕ → Bool
  hidden_at id = env.is_hidden_by_default id || (env.is_space (env.entry id).name && mesh_at id)

  abbrev pub toggle : ℕ → Bool → ToggleState
  toggle id has_hidden = if hidden_at id then hidden else if has_hidden then half_hidden else show

  -- What follows the loop over the children
  unfoldable pub leave : List ℕ → ℕ → Out → Out
  leave current_path id o =
      let ids = if mesh_at id then o.mesh_ids ++ id ∷ [] else o.mesh_ids in
      record {
        has_hidden_children = hidden_at id || o.has_hidden_children;
        mesh_ids = ids;
        trees = record {
          path = Map.insert id current_path o.trees.path;
          toggle_state = Map.insert id (toggle id o.has_hidden_children) o.trees.toggle_state;
          id_to_path = Map.insert id current_path o.trees.id_to_path;
          id_to_meshes = Map.insert id ids o.trees.id_to_meshes;
          id_to_name = Map.insert id (env.entry id).name o.trees.id_to_name;
          id_map = Map.insert id (env.entry id).shared_id o.trees.id_map;
          hidden_nodes =
              if hidden_at id then o.trees.hidden_nodes ++ id ∷ [] else o.trees.hidden_nodes;
        };
      }

  -- The loop over the children
  unfoldable pub traverse_children : (ℕ → Trees → Option Out) → List ℕ → Trees → Option Out
  traverse_children call [] s =
      some (record { has_hidden_children = false; mesh_ids = []; trees = s })
  traverse_children call (child ∷ rest) s = elim (call child s) [
    | none ↦ none
    | some o ↦ elim (traverse_children call rest o.trees) [
      | none ↦ none
      | some o' ↦ some (record {
        has_hidden_children = o.has_hidden_children || o'.has_hidden_children;
        mesh_ids = o.mesh_ids ++ o'.mesh_ids;
        trees = o'.trees;
      })
    ]
  ]

  abbrev pub leave_with : List ℕ → ℕ → Option Out → Option Out
  leave_with current_path id none = none
  leave_with current_path id (some o) = some (leave current_path id o)

  -- traversePtree, on fuel
  unfoldable pub traverse_ptree : ℕ → List ℕ → ℕ → Trees → Option Out
  traverse_ptree zero current_path id s = none
  traverse_ptree (suc fuel) current_path id s =
      let here = current_path ++ id ∷ [] in
      leave_with here id (
        traverse_children (traverse_ptree fuel here)
          (env.sort (λ child. env.is_space (env.entry child).name) (env.entry id).children) s)
