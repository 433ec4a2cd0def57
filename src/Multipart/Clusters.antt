-- ===== src/Multipart/Clusters.antt =====
-- The meshes of a cluster: createSuperMeshes and appendMesh of
-- bouncer/src/repo/manipulator/modeloptimizer/repo_optimizer_multipart.cpp, for one cluster and with its meshes loaded
-- and baked. `none` is an exception, which createSuperMeshes does not catch.
-- Materials are left out, and with them the exception for a mesh that has none.
use drepobouncer.Prelude.{
  ℕ, ◌+◌, ◌&&◌, List, [], ◌∷◌, ◌++◌, Option, none, some, map, leb, ltb, ◌==◌, if◌then◌else◌, length,
}

-- A StreamingMeshNode; a vertex is a number
pub record Mesh : Type 0 where
  pub shared_id : ℕ
  pub vertices : List ℕ
  pub faces : List (List ℕ)
  -- How many UV channels the mesh has
  pub uv_channels : ℕ

-- repo_mesh_mapping_t
pub record Mapping : Type 0 where
  pub shared_id : ℕ
  pub vert_from : ℕ
  pub vert_to : ℕ
  pub tri_from : ℕ
  pub tri_to : ℕ

-- mapped_mesh_t
pub record Supermesh : Type 0 where
  pub vertices : List ℕ
  pub faces : List (List ℕ)
  pub uv_channels : ℕ
  pub mesh_mapping : List Mapping

-- What is created: a supermesh, or those of a mesh that is split
pub data Created : Type 0 where
  super_mesh : Supermesh → Created
  split : Mesh → Created

-- The variables of the loop over the meshes
pub record State : Type 0 where
  pub current_supermesh : Supermesh
  pub created : List Created

abbrev pub new_mesh : Supermesh
new_mesh = record { vertices = []; faces = []; uv_channels = 0; mesh_mapping = [] }

abbrev pub mapping_of : Mesh → Supermesh → Mapping
mapping_of m s = record {
  shared_id = m.shared_id;
  vert_from = length s.vertices;
  vert_to = length s.vertices + length m.vertices;
  tri_from = length s.faces;
  tri_to = length s.faces + length m.faces;
}

-- The channels of the supermesh once they are initialised
abbrev pub channels_with : Mesh → Supermesh → ℕ
channels_with m s = if s.uv_channels == 0 then m.uv_channels else s.uv_channels

abbrev pub merged : Mesh → Supermesh → Supermesh
merged m s = record {
  vertices = s.vertices ++ m.vertices;
  faces = s.faces ++ map (map (λ idx. length s.vertices + idx)) m.faces;
  uv_channels = channels_with m s;
  mesh_mapping = s.mesh_mapping ++ mapping_of m s ∷ [];
}

unfoldable pub append_mesh : Mesh → Supermesh → Option Supermesh
append_mesh m s =
    if ltb 0 (length m.vertices) && ltb 0 (length m.faces)
    then (if channels_with m s == m.uv_channels then some (merged m s) else none)
    else none

module _ (max_vertex_count : ℕ) where
  -- The mesh fits: it is added to the current supermesh.
  abbrev pub append_to_current : Mesh → State → Option State
  append_to_current m st = elim (append_mesh m st.current_supermesh) [
    | none ↦ none
    | some s ↦ some (record { current_supermesh = s; created = st.created })
  ]

  abbrev pub split_up : Mesh → State → State
  split_up m st = record {
    current_supermesh = st.current_supermesh;
    created = st.created ++ split m ∷ [];
  }

  abbrev pub start_next : Mesh → State → Option State
  start_next m st = elim (append_mesh m new_mesh) [
    | none ↦ none
    | some s ↦ some (record {
      current_supermesh = s;
      created = st.created ++ super_mesh st.current_supermesh ∷ [];
    })
  ]

  unfoldable pub add_mesh : Mesh → State → Option State
  add_mesh m st =
      if leb (length st.current_supermesh.vertices + length m.vertices) max_vertex_count
      then append_to_current m st
      else (if ltb max_vertex_count (length m.vertices)
          then some (split_up m st)
          else start_next m st)

  unfoldable pub add_meshes : List Mesh → State → Option State
  add_meshes [] st = some st
  add_meshes (m ∷ meshes) st = elim (add_mesh m st) [
    | none ↦ none
    | some st1 ↦ add_meshes meshes st1
  ]

  -- The last supermesh
  abbrev pub add_last : State → List Created
  add_last st =
      if ltb 0 (length st.current_supermesh.vertices)
      then st.created ++ super_mesh st.current_supermesh ∷ []
      else st.created

  unfoldable pub create_super_meshes : List Mesh → Option (List Created)
  create_super_meshes meshes =
      elim (add_meshes meshes (record { current_supermesh = new_mesh; created = [] })) [
        | none ↦ none
        | some st ↦ some (add_last st)
      ]
