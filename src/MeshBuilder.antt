-- ===== src/MeshBuilder.antt =====
-- Collecting faces into meshes: RepoMeshBuilder of
-- bouncer/src/repo/manipulator/modelconvertor/import/odaHelper/repo_mesh_builder.{h,cpp} over VertexMap of
-- vertex_map.{h,cpp}. Positions, normals, texture coordinates and boxes are abstract types; the offset,
-- the matrix and the encapsulation are functions on them.
pub mod Format
pub mod Shape
pub mod Gained
pub mod Filled
pub mod Adding
pub mod Extract
mod Examples
use Prim.Native.Nat.{bit_or}
use drepobouncer.Prelude.{
  ℕ, zero, suc, ◌+◌, ◌*◌, Bool, true, false, not, ◌&&◌, List, [], ◌∷◌, ◌++◌, map, Option, none,
  some, ltb, ◌==◌, if◌then◌else◌, length,
}
use drepobouncer.Prelude.Map
use drepobouncer.Prelude.Map.{Map}

-- The arrays have three places; `uvs i` is what stands at the place i.
pub record Face (V N U : Type 0) : Type 0 where
  pub vertices : List V
  pub norm : N
  pub uvs : ℕ → U
  pub num_uvs : ℕ

-- mesh_data_t, with its VertexMap
pub record MeshData (V N U B : Type 0) : Type 0 where
  pub faces : List (List ℕ)
  pub bounding_box : B
  pub vertices : List V
  pub normals : List N
  pub uvs : List U
  pub format : ℕ

-- `current_mesh` is a pointer to the entry of its format, if that entry is there still.
pub record Builder (V N U B : Type 0) : Type 0 where
  pub current_mesh : Option ℕ
  pub meshes : Map (MeshData V N U B)

-- The builder when the call returns, or throws RepoGeometryProcessingException; `dangling` is the use of
-- a pointer to a mesh that was deleted.
pub data Outcome (S : Type 0) : Type 0 where
  ok : S → Outcome S
  thrown : S → Outcome S
  dangling : Outcome S

-- getMeshFormat, as C++ reads it: `?:` binds weaker than `<<`, so that the shifted value is that of
-- the third operand. The results fit 32 bits.
unfoldable pub get_mesh_format : Bool → Bool → ℕ → ℕ
get_mesh_format has_uvs has_normals face_size =
    let v_bit : ℕ = 1 in
    let f_bit : ℕ = face_size * 256 in
    let n_bit : ℕ = if has_normals then 1 else 0 * 2 in
    let u_bit : ℕ = if has_uvs then 1 else 0 * 2 in bit_or (bit_or (bit_or v_bit f_bit) n_bit) u_bit

module _ {V N U : Type 0} where
  unfoldable pub has_normals : Face V N U → Bool
  has_normals f = length f.vertices == 3

  unfoldable pub has_uvs : Face V N U → Bool
  has_uvs f = ltb 0 f.num_uvs

  unfoldable pub get_format : Face V N U → ℕ
  unfolding has_normals has_uvs
  get_format f = get_mesh_format (has_uvs f) (has_normals f) (length f.vertices)

module _ {V N U B : Type 0} (empty_box : B) where
  unfoldable pub new_mesh : ℕ → MeshData V N U B
  new_mesh format = record {
    faces = [];
    bounding_box = empty_box;
    vertices = [];
    normals = [];
    uvs = [];
    format = format;
  }

  unfoldable pub find_or_new :
      ℕ → Option (MeshData V N U B) → Builder V N U B → MeshData V N U B × Builder V N U B
  find_or_new format (some m) b = (m, record b { current_mesh = some format })
  find_or_new format none b = (
    new_mesh format,
    record { current_mesh = some format; meshes = Map.insert format (new_mesh format) b.meshes },
  )

  -- startOrContinueMeshByFormat; `none` is the read through a dangling pointer
  unfoldable pub start_or_continue_mesh_by_format :
      ℕ → Builder V N U B → Option (MeshData V N U B × Builder V N U B)
  start_or_continue_mesh_by_format format b = elim b.current_mesh [
    | none ↦ some (find_or_new format (Map.lookup format b.meshes) b)
    | some f ↦ elim (Map.lookup f b.meshes) [
      | none ↦ none
      | some m ↦
          if m.format == format
          then some (m, b)
          else some (find_or_new format (Map.lookup format b.meshes) b)
    ]
  ]

module _ {V N U B : Type 0} where
  -- The last line of addFace.
  unfoldable pub push_face : List ℕ × MeshData V N U B → MeshData V N U B
  push_face (face, m) = record m { faces = m.faces ++ face ∷ [] }

module _ {V N U B : Type 0} (move : V → V) (encapsulate : V → B → B) where
  -- One round of the loop of addFace: the insertion into the VertexMap, and the box.
  unfoldable pub add_vertex : Face V N U → ℕ → V → MeshData V N U B → MeshData V N U B
  add_vertex f i v m = record m {
    bounding_box = encapsulate (move v) m.bounding_box;
    vertices = m.vertices ++ move v ∷ [];
    normals = if has_normals f then m.normals ++ f.norm ∷ [] else m.normals;
    uvs = if has_uvs f then m.uvs ++ f.uvs i ∷ [] else m.uvs;
  }

  -- The loop of addFace from the place i on, with the indices of the new face so far.
  unfoldable pub add_vertices :
      Face V N U → ℕ → List V → List ℕ → MeshData V N U B → List ℕ × MeshData V N U B
  add_vertices f i [] face m = (face, m)
  add_vertices f i (v ∷ vs) face m =
      add_vertices f (suc i) vs (face ++ length m.vertices ∷ []) (add_vertex f i v m)

  -- A face with texture coordinates and no normals ends the loop in its first round.
  unfoldable pub fill_mesh :
      Face V N U → MeshData V N U B × Builder V N U B → Outcome (Builder V N U B)
  fill_mesh f (m, b) =
      if has_uvs f && not (has_normals f)
      then thrown b
      else ok (record b {
        meshes = Map.insert (get_format f) (push_face (add_vertices f 0 f.vertices [] m)) b.meshes;
      })

  unfoldable pub fill_started :
      Face V N U → Option (MeshData V N U B × Builder V N U B) → Outcome (Builder V N U B)
  fill_started f none = dangling
  fill_started f (some s) = fill_mesh f s

  -- addFace
  unfoldable pub add_face : B → Face V N U → Builder V N U B → Outcome (Builder V N U B)
  add_face empty_box f b =
      if length f.vertices == 0
      then thrown b
      else fill_started f (start_or_continue_mesh_by_format empty_box (get_format f) b)

-- The arguments of makeMeshNode that depend on the mesh.
pub record MeshNode (V N U : Type 0) : Type 0 where
  pub vertices : List V
  pub faces : List (List ℕ)
  pub normals : List N
  pub uv_channels : List (List U)

module _ {V N U B : Type 0} where
  abbrev pub entries : Builder V N U B → List (ℕ × MeshData V N U B)
  entries b = b.meshes

  -- hasMeshes
  unfoldable pub has_meshes : List (ℕ × MeshData V N U B) → Bool
  has_meshes [] = false
  has_meshes ((k, m) ∷ ms) = if length m.faces == 0 then has_meshes ms else true

  -- Both size checks of extractMeshes.
  unfoldable pub sizes_match : MeshData V N U B → Bool
  sizes_match m =
      (if length m.uvs == 0 then true else length m.uvs == length m.vertices)
      && (if length m.normals == 0 then true else length m.normals == length m.vertices)

module _ {V N U B W T : Type 0} (place : V → W) (turn : N → T) where
  unfoldable pub mesh_node : MeshData V N U B → MeshNode W T U
  mesh_node m = record {
    vertices = map place m.vertices;
    faces = m.faces;
    normals = map turn m.normals;
    uv_channels = if length m.uvs == 0 then [] else m.uvs ∷ [];
  }

  -- The loop of extractMeshes; `none` is the exception.
  unfoldable pub extract_nodes : List (ℕ × MeshData V N U B) → Option (List (MeshNode W T U))
  extract_nodes [] = some []
  extract_nodes ((k, m) ∷ ms) =
      let rest = extract_nodes ms in
      if length m.vertices == 0
      then rest
      else if sizes_match m
      then (elim rest [ none ↦ none | some ns ↦ some (mesh_node m ∷ ns) ])
      else none

  -- extractMeshes: the nodes and the builder. The pointer to the current mesh is not reset.
  unfoldable pub extract_meshes : Builder V N U B → Option (List (MeshNode W T U) × Builder V N U B)
  extract_meshes b = elim (extract_nodes b.meshes) [
    | none ↦ none
    | some ns ↦ some (ns, record b { meshes = [] })
  ]
