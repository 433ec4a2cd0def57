-- ===== src/MeshBuilder/Adding.antt =====
-- addFace keeps the meshes well formed
-- (bouncer/src/repo/manipulator/modelconvertor/import/odaHelper/repo_mesh_builder.cpp).
use drepobouncer.Prelude.{
  none, ltb, ◌++◌, ◌⊎◌, true, ℕ, ◌+◌, ◌*◌, ◌≤◌, false, not, ◌&&◌, ◌≡◌, ◌≢◌, refl, ap, ◌∙◌, [], ◌∷◌,
  some, ◌==◌, length, arith, inl, inr, Bool-cases, subst,
}
use drepobouncer.Prelude.Map
use drepobouncer.Prelude.Map.{lookup-insert}
use drepobouncer.MeshBuilder.{
  Face, MeshData, Builder, ok, thrown, has_normals, has_uvs, get_format, new_mesh, fill_mesh,
  fill_started, add_face,
}
use drepobouncer.MeshBuilder.Gained.{indices_from, Gains, push_face-Gains}
use drepobouncer.MeshBuilder.Shape.{IsValid, mesh_of, start-Starts}
use drepobouncer.MeshBuilder.Filled.{
  get_format_lem, filled, Fills, add_face-Fills, Fills-IsValid, Starts-IsValid,
}

module _ {V N U B : Type 0} (move : V → V) (encapsulate : V → B → B) (box : B) where
  -- The mesh of a format, or one with nothing in it
  abbrev pub mesh_before : ℕ → Builder V N U B → MeshData V N U B
  mesh_before format b = elim (Map.lookup format b.meshes) [
    | some m ↦ m
    | none ↦ record {
      faces = [];
      bounding_box = box;
      vertices = [];
      normals = [];
      uvs = [];
      format = format;
    }
  ]

  -- The mesh of the format has what the face adds, and at its end a face of the vertices that are added.
  pub record IsAdded (f : Face V N U) (b b' : Builder V N U B) (format : ℕ) : Type 0 where
    pub mesh : MeshData V N U B
    pub added : Map.lookup format b'.meshes ≡ some mesh
    pub gains : Gains move encapsulate f 0 f.vertices (mesh_before format b) mesh
    pub last_face :
        mesh.faces
        ≡ (mesh_before format b).faces
          ++ indices_from (length (mesh_before format b).vertices) (length f.vertices) ∷ []

  -- What addFace does to a face with vertices
  abbrev pub Handled : Face V N U → Builder V N U B → Builder V N U B → ℕ → Type 0
  Handled f b b' format =
      ((k : ℕ) → k ≢ format → Map.lookup k b'.meshes ≡ Map.lookup k b.meshes)
      × (((ltb 0 f.num_uvs && not (length f.vertices == 3) ≡ true)
            × (add_face move encapsulate box f b ≡ thrown b')
            × (Map.lookup format b'.meshes ≡ some (mesh_before format b)))
          ⊎ ((ltb 0 f.num_uvs && not (length f.vertices == 3) ≡ false)
              × (add_face move encapsulate box f b ≡ ok b')
              × IsAdded f b b' format))

  mesh_before-mesh_of :
      (format : ℕ) (b : Builder V N U B)
      → mesh_of move encapsulate box format b ≡ mesh_before format b
  unfolding new_mesh
  mesh_before-mesh_of format b = refl

  filled-IsAdded :
      (f : Face V N U) (b b' : Builder V N U B)
      → Fills move encapsulate box f b b'
      → IsAdded f b b' (get_format f)
  filled-IsAdded f b b' w =
      let m = mesh_of move encapsulate box (get_format f) b in
      let (gains, faces) = push_face-Gains move encapsulate f m in
      let before = mesh_before-mesh_of (get_format f) b in
      record {
        mesh = filled move encapsulate box f b;
        added = w.filling;
        gains =
            subst
              (λ (x : MeshData V N U B).
                Gains move encapsulate f 0 f.vertices x (filled move encapsulate box f b))
              before gains;
        last_face =
            subst
              (λ (x : MeshData V N U B).
                (filled move encapsulate box f b).faces
                ≡ x.faces ++ indices_from (length x.vertices) (length f.vertices) ∷ [])
              before faces;
      }

  add_face-Handled :
      (f : Face V N U) (b : Builder V N U B)
      → IsValid b
      → length f.vertices ≤ 3
      → 1 ≤ length f.vertices
      → (b' : Builder V N U B) × IsValid b' × Handled f b b' (get_format f)
  unfolding add_face fill_started fill_mesh has_uvs has_normals
  add_face-Handled f b v small some_vertex = elim (Bool-cases (has_uvs f && not (has_normals f))) [
    | inl bad ↦
        let (b1, s) = start-Starts move encapsulate box (get_format f) b v in
        (
          b1,
          Starts-IsValid move encapsulate box (get_format f) b b1 v s,
          (
            s.others,
            inl (
              bad,
              ground (arith, some_vertex, s.started, bad),
              s.entry ∙ ap some (mesh_before-mesh_of (get_format f) b),
            ),
          ),
        )
    | inr fine ↦
        let (b', e, w) = add_face-Fills move encapsulate box f b v some_vertex fine in
        (
          b',
          Fills-IsValid move encapsulate box f b b' v small fine w,
          (w.others, inr (fine, e, filled-IsAdded f b b' w)),
        )
  ]

  -- addFace of a face with at most three vertices on well formed meshes never uses a dangling pointer. It refuses a
  -- face without vertices and changes nothing. It refuses a face with texture coordinates that is no triangle: it
  -- leaves the mesh of the face's format as it was, or an empty one if there was none. Any other face is added to the mesh of its format, which is 1
  -- and 256 times the number of vertices, or to a new one: the mesh then has the vertices of the face, moved,
  -- the normal for each if it is a triangle, the texture coordinates if there are any, the box that encapsulates them,
  -- and as its last face the indices of these vertices. The meshes of other formats are as before, and the
  -- meshes are well formed again.
  pub add_face_lem :
      (f : Face V N U) (b : Builder V N U B)
      → IsValid b
      → length f.vertices ≤ 3
      → ((length f.vertices ≡ 0) × (add_face move encapsulate box f b ≡ thrown b))
        ⊎ ((1 ≤ length f.vertices)
            × ((b' : Builder V N U B) × IsValid b' × Handled f b b' (1 + 256 * length f.vertices)))
  unfolding add_face
  add_face_lem f b v small = elim (Bool-cases (length f.vertices == 0)) [
    | inl empty ↦ inl (ground (arith, empty), rw empty refl)
    | inr full ↦
        let some_vertex : 1 ≤ length f.vertices = ground (arith, full) in
        inr (
          some_vertex,
          subst (λ (n : ℕ). (b' : Builder V N U B) × IsValid b' × Handled f b b' n)
              (get_format_lem f small) (add_face-Handled f b v small some_vertex),
        )
  ]
