-- ===== src/SceneBuilder.antt =====
-- Building a scene piece by piece: RepoSceneBuilder of
-- bouncer/src/repo/manipulator/modelutility/repo_scene_builder.{h,cpp}. The queue to the writing thread is the
-- list of what was pushed, the oldest first; identifiers, texture paths and checksums are numbers.
pub mod Links
pub mod References
pub mod Order
pub mod Validity
pub mod Async
mod Examples
use drepobouncer.Prelude.{
  ℕ, zero, suc, ◌+◌, ◌-◌, Bool, true, false, List, [], ◌∷◌, ◌++◌, Option, none, some, ltb, ◌==◌,
  if◌then◌else◌, length,
}
use drepobouncer.Prelude.Map
use drepobouncer.Prelude.Map.{Map}
use drepobouncer.Prelude.Set

-- repo_material_t: its checksum, and its texture path if it has a texture
pub record Material : Type 0 where
  pub checksum : ℕ
  pub texture_path : Option ℕ

-- What the builder reads of a node. Only a mesh has a material.
pub record BuiltNode : Type 0 where
  pub unique_id : ℕ
  pub shared_id : ℕ
  pub parent_ids : List ℕ
  pub rev_id : ℕ
  pub material : Option Material
  pub texture_id : Option ℕ

-- What is pushed to the queue: a node, or the parents to add to a node (query::AddParent).
pub data Consumable : Type 0 where
  node : BuiltNode → Consumable
  parents : ℕ → List ℕ → Consumable

-- `created i` is the i-th identifier that createUUID makes, `opens p` says whether the file p opens.
pub record Env : Type 0 where
  pub revision_id : ℕ
  pub created : ℕ → ℕ
  pub opens : ℕ → Bool

pub record SceneBuilder : Type 0 where
  pub reference_counter : ℕ
  pub node_count : ℕ
  pub is_missing_textures : Bool
  pub material_to_unique_id : Map (ℕ × ℕ)
  pub texture_to_unique_id : Map ℕ
  pub parent_updates : Map (List ℕ)
  pub queue : List Consumable
  pub next_id : ℕ

abbrev pub new_builder : SceneBuilder
new_builder = record {
  reference_counter = 0;
  node_count = 0;
  is_missing_textures = false;
  material_to_unique_id = [];
  texture_to_unique_id = [];
  parent_updates = [];
  queue = [];
  next_id = 0;
}

abbrev pub max_materialnode_usage : ℕ
max_materialnode_usage = 500000

abbrev pub max_parent_updates : ℕ
max_parent_updates = 10000

-- setMissingTextures
unfoldable pub set_missing_textures : SceneBuilder → SceneBuilder
set_missing_textures b = record b { is_missing_textures = true }

-- queueNode
unfoldable pub queue_node : BuiltNode → SceneBuilder → SceneBuilder
queue_node n b = record b { node_count = suc b.node_count; queue = b.queue ++ node n ∷ [] }

unfoldable pub updates_of : Map (List ℕ) → List Consumable
updates_of [] = []
updates_of ((u, ps) ∷ rest) = parents u ps ∷ updates_of rest

-- commit
unfoldable pub commit : SceneBuilder → SceneBuilder
commit b = record b { queue = b.queue ++ updates_of b.parent_updates; parent_updates = [] }

-- finalise; the queue is then flushed by the end of the writing thread
unfoldable pub finalise : SceneBuilder → SceneBuilder
finalise b = commit b

unfoldable pub with_parent : ℕ → Option (List ℕ) → List ℕ
with_parent p none = p ∷ []
with_parent p (some ps) = Set.insert p ps

unfoldable pub commit_if_many : SceneBuilder → SceneBuilder
commit_if_many b = if ltb max_parent_updates (length b.parent_updates) then commit b else b

-- addParent
unfoldable pub add_parent : ℕ → ℕ → SceneBuilder → SceneBuilder
add_parent node_unique_id parent_shared_id b = commit_if_many (record b {
  parent_updates =
      Map.insert node_unique_id
        (with_parent parent_shared_id (Map.lookup node_unique_id b.parent_updates))
        b.parent_updates;
})

abbrev pub set_revision : Env → BuiltNode → BuiltNode
set_revision env n = record n { rev_id = env.revision_id }

-- A node that the builder makes itself: a texture or a material.
abbrev pub made_node : Env → ℕ → SceneBuilder → BuiltNode
made_node env parent b = record {
  unique_id = env.created b.next_id;
  shared_id = env.created (suc b.next_id);
  parent_ids = parent ∷ [];
  rev_id = env.revision_id;
  material = none;
  texture_id = none;
}

-- addNode of a node that is no mesh
unfoldable pub add_plain_node : Env → BuiltNode → SceneBuilder → SceneBuilder
add_plain_node env n b = queue_node (set_revision env n) b

-- The first branch of addTextureReference, with createTextureNode.
unfoldable pub make_texture_node : Env → ℕ → ℕ → SceneBuilder → SceneBuilder
make_texture_node env texture parent_id b =
    let n = made_node env parent_id b in
    if env.opens texture
    then add_plain_node env n (record b {
      texture_to_unique_id = Map.insert texture n.unique_id b.texture_to_unique_id;
      next_id = suc (suc b.next_id);
    })
    else set_missing_textures b

-- addTextureReference
unfoldable pub add_texture_reference : Env → ℕ → ℕ → SceneBuilder → SceneBuilder
add_texture_reference env texture parent_id b = elim (Map.lookup texture b.texture_to_unique_id) [
  | none ↦ make_texture_node env texture parent_id b
  | some u ↦ add_parent u parent_id b
]

abbrev pub add_texture_if : Env → Option ℕ → ℕ → SceneBuilder → SceneBuilder
add_texture_if env none parent_id b = b
add_texture_if env (some texture) parent_id b = add_texture_reference env texture parent_id b

-- makeMaterialNode. The shared pointer to the node ends at once, so that the counter of references is
-- what it was.
unfoldable pub make_material_node : Env → ℕ → Material → ℕ → SceneBuilder → SceneBuilder
make_material_node env key m parent_id b =
    let n = made_node env parent_id b in
    let b' = add_plain_node env n (record b { next_id = suc (suc b.next_id) }) in
    add_texture_if env m.texture_path n.shared_id (record b' {
      material_to_unique_id = Map.insert key (n.unique_id, 1) b'.material_to_unique_id;
    })

-- The second branch of addMaterialReference.
unfoldable pub use_material_node : Env → ℕ → Material → ℕ → ℕ × ℕ → SceneBuilder → SceneBuilder
use_material_node env key m parent_id (u, uses) b =
    if ltb uses max_materialnode_usage
    then (let b' = add_parent u parent_id b in
        record b' { material_to_unique_id = Map.insert key (u, suc uses) b'.material_to_unique_id })
    else make_material_node env key m parent_id b

-- addMaterialReference
unfoldable pub add_material_reference : Env → Material → ℕ → SceneBuilder → SceneBuilder
add_material_reference env m parent_id b = elim (Map.lookup m.checksum b.material_to_unique_id) [
  | none ↦ make_material_node env m.checksum m parent_id b
  | some entry ↦ use_material_node env m.checksum m parent_id entry b
]

unfoldable pub texture_of : Material → SceneBuilder → Option ℕ → Option ℕ
texture_of m b old = elim m.texture_path [
  | none ↦ old
  | some texture ↦ elim (Map.lookup texture b.texture_to_unique_id) [ none ↦ old | some u ↦ some u ]
]

unfoldable pub add_with_material : Env → Option Material → BuiltNode → SceneBuilder → SceneBuilder
add_with_material env none n b = add_plain_node env n b
add_with_material env (some m) n b =
    let b' = add_material_reference env m n.shared_id b in
    add_plain_node env (record n { texture_id = texture_of m b' n.texture_id }) b'

-- addNode of a unique pointer
unfoldable pub add_node : Env → BuiltNode → SceneBuilder → SceneBuilder
add_node env n b = add_with_material env n.material n b

-- addNodes
unfoldable pub add_nodes : Env → List BuiltNode → SceneBuilder → SceneBuilder
add_nodes env [] b = b
add_nodes env (n ∷ rest) b = add_nodes env rest (add_node env n b)

-- addNode of a copy: what the shared pointer points to, and the builder.
unfoldable pub add_copy : Env → BuiltNode → SceneBuilder → BuiltNode × SceneBuilder
add_copy env n b = (set_revision env n, record b { reference_counter = suc b.reference_counter })

-- Deleter, when the last pointer to the node is gone
unfoldable pub release : Env → BuiltNode → SceneBuilder → SceneBuilder
release env n b =
    let b' = add_node env n b in record b' { reference_counter = b'.reference_counter - 1 }

-- The destructor returns rather than throws.
unfoldable pub may_end : SceneBuilder → Bool
may_end b = if b.reference_counter == 0 then length b.parent_updates == 0 else false
