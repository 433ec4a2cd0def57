-- ===== src/Scene/Node.antt =====
-- The base class of scene nodes, bouncer/src/repo/core/model/bson/repo_node.{h,cpp}. An identifier
-- (RepoUUID) is a number, whose order stands for the order of the identifiers.
use drepobouncer.Prelude.{ℕ, Bool, true, false, ◌||◌, List, not, ◌==◌, ltb, if◌then◌else◌}
use drepobouncer.Prelude.Set
use Prim.Native.String.{String}
use text.Mathlib.Text.{◌==◌ as str_eq}
use mathlib.Core.List.{[], ◌∷◌}

pub data NodeType : Type 0 where
  material mesh metadata texture transformation revision unknown : NodeType

pub record Node : Type 0 where
  pub name : String
  pub unique_id : ℕ
  pub shared_id : ℕ
  pub parent_ids : List ℕ
  pub rev_id : ℕ
  pub type : NodeType

unfoldable pub add_parent : ℕ → Node → Node
add_parent parent n = record n { parent_ids = Set.insert parent n.parent_ids }

unfoldable pub add_parents : List ℕ → Node → Node
add_parents parents n = record n { parent_ids = Set.insert_all parents n.parent_ids }

unfoldable pub set_parents : List ℕ → Node → Node
set_parents parents n = add_parents parents (record n { parent_ids = [] })

unfoldable pub remove_parent : ℕ → Node → Node
remove_parent parent n = record n { parent_ids = Set.erase parent n.parent_ids }

unfoldable pub set_revision : ℕ → Node → Node
set_revision id n = record n { rev_id = id }

-- Equality of the ordered sets of identifiers.
unfoldable pub same_ids : List ℕ → List ℕ → Bool
same_ids [] [] = true
same_ids [] (y ∷ ys) = false
same_ids (x ∷ xs) [] = false
same_ids (x ∷ xs) (y ∷ ys) = if x == y then same_ids xs ys else false

-- operator==
unfoldable pub equals : Node → Node → Bool
equals a b = if a.unique_id == b.unique_id then a.shared_id == b.shared_id else false

-- operator!=, which also compares the parents
unfoldable pub differs : Node → Node → Bool
unfolding same_ids
differs a b =
    not (a.unique_id == b.unique_id)
    || (not (a.shared_id == b.shared_id) || not (same_ids a.parent_ids b.parent_ids))

-- operator<
unfoldable pub less : Node → Node → Bool
less a b =
    if a.shared_id == b.shared_id then ltb a.unique_id b.unique_id else ltb a.shared_id b.shared_id

-- The names of the types are the constants of repo_model_global.h and the node headers.
unfoldable pub parse_type : String → NodeType
parse_type s =
    if str_eq "transformation" s
    then transformation
    else if str_eq "mesh" s
    then mesh
    else if str_eq "material" s
    then material
    else if str_eq "texture" s
    then texture
    else if str_eq "meta" s
    then metadata
    else if str_eq "revision" s
    then revision
    else unknown

-- getTypeAsEnum() == filter
unfoldable pub same_type : NodeType → NodeType → Bool
same_type material material = true
same_type mesh mesh = true
same_type metadata metadata = true
same_type texture texture = true
same_type transformation transformation = true
same_type revision revision = true
same_type unknown unknown = true
same_type _ _ = false
