-- ===== src/Reorganiser.antt =====
-- Cutting a supermesh into sub meshes within limits: MeshMapReorganiser of
-- bouncer/src/repo/manipulator/modelutility/repo_mesh_map_reorganiser.{h,cpp}. An element of the vertex buffer
-- stands for the position, the normal and the texture coordinates of a vertex: the code treats the parallel
-- buffers alike. Bounding boxes are an abstract type. The vectors that only grow are kept with their last element
-- first: the new faces, the serialised faces, the new mappings, the identifier maps and the material maps.
pub mod Large
pub mod Perform
pub mod Drawn
pub mod ReIndex
pub mod CutNext
pub mod Cut
pub mod Buffer
pub mod Laid
pub mod SmallMesh
pub mod LargeMesh
pub mod Prepared
pub mod Splitting
pub mod Parallel
pub mod ParallelCut
pub mod ParallelKept
pub mod Serialised
mod Examples
use drepobouncer.Prelude.{
  ℕ, zero, suc, ◌+◌, ◌-◌, ◌%◌, ◌^◌, Bool, true, false, ◌||◌, List, [], ◌∷◌, ◌++◌, Option, none,
  some, ltb, leb, ◌==◌, if◌then◌else◌, length, take, drop, replicate,
}
use drepobouncer.Prelude.Map
use drepobouncer.Prelude.Map.{Map}

-- repo_mesh_mapping_t; a mapping's material and texture are passed on with it and left out. The four numbers are
-- int32_t: the counts of vertices and faces are taken to be below 2 ^ 31. A difference of two in the wrong order is
-- negative in the code and 0 here; the theorems are about mappings in the right order.
pub record Mapping (B : Type 0) : Type 0 where
  pub box : B
  pub mesh_id : ℕ
  pub shared_id : ℕ
  pub material_id : ℕ
  pub vert_from : ℕ
  pub vert_to : ℕ
  pub tri_from : ℕ
  pub tri_to : ℕ

-- repo_face_t
abbrev pub Face : Type 0
Face = List ℕ

-- The limits, the old vertices, and the boxes. `read i` is what oldVertices[i] reads, `blank` a vertex as resize
-- makes it.
pub record Env (V B : Type 0) : Type 0 where
  pub max_vertices : ℕ
  pub max_faces : ℕ
  pub read : ℕ → V
  pub blank : V
  pub point : V → B
  pub hull : B → B → B
  pub no_box : B
  pub default_id : ℕ

-- The members, and the variables of performSplitting. `old_faces` are the faces from orgFaceIdx on.
pub record State (V B : Type 0) : Type 0 where
  pub old_faces : List Face
  pub new_vertices : List V
  pub new_faces : List Face
  pub serialised_faces : List ℕ
  pub id_map_buf : List (List ℕ)
  pub mat_map : List (List (Mapping B))
  pub split_map : Map (List ℕ)
  pub new_mappings : List (Mapping B)
  pub id_map_idx : ℕ
  pub sub_vertices : ℕ
  pub sub_faces : ℕ
  pub total_vertices : ℕ
  pub total_faces : ℕ
  pub finished : Bool
  pub bbox : Option B

-- back(), which is modified
abbrev pub on_back {ℓ} : {A : Type ℓ} → (A → A) → List A → List A
on_back f [] = []
on_back f (x ∷ xs) = f x ∷ xs

abbrev pub to_u32 : ℕ → ℕ
to_u32 x = x % 2 ^ 32

abbrev pub to_u16 : ℕ → ℕ
to_u16 x = x % 2 ^ 16

-- serialisedFaces.push_back of every index of a face
unfoldable pub serialise : Face → List ℕ → List ℕ
serialise [] out = out
serialise (i ∷ f) out = serialise f (to_u16 i ∷ out)

module _ {V B : Type 0} (env : Env V B) where
  -- updateBoundingBoxes
  unfoldable pub update_bounding_boxes : B → Option B → Option B
  update_bounding_boxes new none = some new
  update_bounding_boxes new (some old) = some (env.hull old new)

  abbrev pub with_box : Option B → Mapping B → Mapping B
  with_box none m = m
  with_box (some b) m = record m { box = b }

  -- finishSubMesh of the last new mapping; the box is cleared by the caller's record
  abbrev pub finish_mapping : Option B → ℕ → ℕ → Mapping B → Mapping B
  finish_mapping bbox n_vertices n_faces m =
      with_box bbox (record m { vert_to = m.vert_from + n_vertices; tri_to = m.tri_from + n_faces })

  unfoldable pub finish_sub_mesh : Option B → ℕ → ℕ → State V B → State V B
  finish_sub_mesh bbox n_vertices n_faces s = record s {
    new_mappings = on_back (finish_mapping bbox n_vertices n_faces) s.new_mappings;
  }

  abbrev pub new_mapping : ℕ → ℕ → Mapping B
  new_mapping s_vertices s_faces = record {
    box = env.no_box;
    mesh_id = env.default_id;
    shared_id = env.default_id;
    material_id = env.default_id;
    vert_from = s_vertices;
    vert_to = 0;
    tri_from = s_faces;
    tri_to = 0;
  }

  -- startSubMesh of a mapping that was just appended
  unfoldable pub start_sub_mesh : ℕ → ℕ → State V B → State V B
  start_sub_mesh s_vertices s_faces s = record s {
    new_mappings = new_mapping s_vertices s_faces ∷ s.new_mappings;
    id_map_buf = [] ∷ s.id_map_buf;
    mat_map = [] ∷ s.mat_map;
  }

  -- newMatMapEntry
  unfoldable pub new_mat_map_entry : Mapping B → ℕ → ℕ → State V B → State V B
  new_mat_map_entry m s_vertices s_faces s = record s {
    mat_map =
        on_back (λ ms. record m { vert_from = s_vertices; tri_from = s_faces } ∷ ms) s.mat_map;
  }

  -- completeLastMatMapEntry, given the ends by the entry
  unfoldable pub complete_last : (Mapping B → ℕ) → (Mapping B → ℕ) → State V B → State V B
  complete_last e_vertices e_faces s = record s {
    mat_map =
        on_back (on_back (λ m. record m { vert_to = e_vertices m; tri_to = e_faces m })) s.mat_map;
  }

  -- updateIDMapArray
  unfoldable pub update_id_map_array : ℕ → ℕ → State V B → State V B
  update_id_map_array n value s = record s {
    id_map_buf = on_back (λ buf. replicate n value ++ buf) s.id_map_buf;
  }

  -- splitMap[id].push_back(newMappings.size() - 1)
  unfoldable pub push_split : ℕ → State V B → State V B
  push_split id s = record s {
    split_map = elim (Map.lookup id s.split_map) [
      | none ↦ Map.insert id ((length s.new_mappings - 1) ∷ []) s.split_map
      | some l ↦ Map.insert id (l ++ (length s.new_mappings - 1) ∷ []) s.split_map
    ];
  }

  -- The index of a small mesh's vertex in its new sub mesh: unsigned arithmetic of 64 bits, cut to 32.
  unfoldable pub shifted : ℕ → ℕ → ℕ → ℕ
  shifted sub_vertices v_from i = to_u32 ((i + (sub_vertices + 2 ^ 64 - v_from)) % 2 ^ 64)

  unfoldable pub shift_face : ℕ → ℕ → Face → Face
  shift_face sub_vertices v_from [] = []
  shift_face sub_vertices v_from (i ∷ f) =
      shifted sub_vertices v_from i ∷ shift_face sub_vertices v_from f

  unfoldable pub add_small_face : Mapping B → Face → List Face → State V B → State V B
  add_small_face m g rest s =
      let f = shift_face s.sub_vertices m.vert_from g in
      record s {
        old_faces = rest;
        new_faces = f ∷ s.new_faces;
        serialised_faces = serialise f s.serialised_faces;
        sub_faces = suc s.sub_faces;
        total_faces = suc s.total_faces;
      }

  -- The loop over the faces of a small mesh. Where the faces end too early the program reads past the end; here
  -- the loop ends. The theorems are about faces that do not.
  unfoldable pub add_small_faces : Mapping B → ℕ → List Face → State V B → State V B
  add_small_faces m zero gs s = s
  add_small_faces m (suc n) [] s = s
  add_small_faces m (suc n) (g ∷ rest) s = add_small_faces m n rest (add_small_face m g rest s)

  -- The second branch of performSplitting's loop.
  unfoldable pub add_small_mesh : Mapping B → State V B → State V B
  add_small_mesh m s =
      let n = m.vert_to - m.vert_from in
      let s1 = new_mat_map_entry m s.total_vertices s.total_faces s in
      let s2 = add_small_faces m (m.tri_to - m.tri_from) s1.old_faces s1 in
      let s3 = update_id_map_array n s2.id_map_idx s2 in
      let s4 = push_split m.mesh_id (record s3 {
        id_map_idx = suc s3.id_map_idx;
        bbox = update_bounding_boxes m.box s3.bbox;
        sub_vertices = s3.sub_vertices + n;
        total_vertices = s3.total_vertices + n;
      }) in
      complete_last (λ _. s4.total_vertices) (λ _. s4.total_faces) s4

  unfoldable pub close_sub_mesh : State V B → State V B
  close_sub_mesh s =
      if s.finished
      then s
      else record (finish_sub_mesh s.bbox s.sub_vertices s.sub_faces s) { bbox = none }

  -- A new sub mesh, after the last one is closed off.
  unfoldable pub open_sub_mesh : State V B → State V B
  open_sub_mesh s =
      let s1 = close_sub_mesh s in
      start_sub_mesh s1.total_vertices s1.total_faces
        (record s1 { sub_vertices = 0; sub_faces = 0; finished = false })

  unfoldable pub needs_sub_mesh : Mapping B → State V B → Bool
  needs_sub_mesh m s =
      ltb env.max_vertices (s.sub_vertices + (m.vert_to - m.vert_from))
      || (ltb env.max_faces (s.sub_faces + (m.tri_to - m.tri_from)) || s.finished)

  unfoldable pub is_large : Mapping B → Bool
  is_large m =
      ltb env.max_vertices (m.vert_to - m.vert_from) || ltb env.max_faces (m.tri_to - m.tri_from)
