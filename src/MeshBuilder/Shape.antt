-- ===== src/MeshBuilder/Shape.antt =====
-- What addFace of
-- bouncer/src/repo/manipulator/modelconvertor/import/odaHelper/repo_mesh_builder.cpp makes of the meshes.
use drepobouncer.Prelude.{
  ℕ, suc, ◌+◌, ◌<◌, ◌≤◌, ◌≡◌, ◌≢◌, refl, sym, ap, ◌∙◌, List, [], ◌∷◌, ◌++◌, Option, none, some,
  ◌==◌, if◌then◌else◌, length, length-append, All, All-append, All-map, arith, inl, inr, Bool-cases,
  Option-cases, ==_refl, ==_iff,
}
use drepobouncer.Prelude.Map
use drepobouncer.Prelude.Map.{lookup-insert}
use drepobouncer.MeshBuilder.{
  Face, MeshData, Builder, has_normals, has_uvs, new_mesh, find_or_new,
  start_or_continue_mesh_by_format, add_vertex, add_vertices,
}

-- The format of triangles.
abbrev pub triangles : ℕ
triangles = 769

-- A mesh of a format: its faces point into its vertices; triangles have a normal for each vertex, other
-- faces none and no texture coordinates; and there are never more of these than vertices.
pub record IsShaped {V N U B : Type 0} (format : ℕ) (m : MeshData V N U B) : Type 0 where
  pub formatted : m.format ≡ format
  pub in_range : All (All (λ i. i < length m.vertices)) m.faces
  pub normal_count : length m.normals ≡ (if format == triangles then length m.vertices else 0)
  pub uv_count : length m.uvs ≤ length m.normals

pub record IsValid {V N U B : Type 0} (b : Builder V N U B) : Type 0 where
  pub shaped : (k : ℕ) (m : MeshData V N U B) → Map.lookup k b.meshes ≡ some m → IsShaped k m
  pub current :
      (k : ℕ) → b.current_mesh ≡ some k → (m : MeshData V N U B) × (Map.lookup k b.meshes ≡ some m)

module _ {V N U B : Type 0} (move : V → V) (encapsulate : V → B → B) where
  -- What the loop does to a mesh, in numbers.
  pub record Adds (f : Face V N U) (n : ℕ) (m : MeshData V N U B) (r : List ℕ × MeshData V N U B)
      : Type 0 where
    pub format : r.1.format ≡ m.format
    pub faces : r.1.faces ≡ m.faces
    pub vertices : length r.1.vertices ≡ length m.vertices + n
    pub normals : length r.1.normals ≡ length m.normals + (if has_normals f then n else 0)
    pub uvs : length r.1.uvs ≡ length m.uvs + (if has_uvs f then n else 0)
    pub indices : All (λ i. i < length r.1.vertices) r.0

  record AddsOne (f : Face V N U) (m r : MeshData V N U B) : Type 0 where
    format : r.format ≡ m.format
    faces : r.faces ≡ m.faces
    vertices : length r.vertices ≡ suc (length m.vertices)
    normals : length r.normals ≡ length m.normals + (if has_normals f then 1 else 0)
    uvs : length r.uvs ≡ length m.uvs + (if has_uvs f then 1 else 0)

  add_vertex-AddsOne :
      (f : Face V N U) (i : ℕ) (v : V) (m : MeshData V N U B)
      → AddsOne f m (add_vertex move encapsulate f i v m)
  unfolding add_vertex
  add_vertex-AddsOne f i v m = record {
    format = refl;
    faces = refl;
    vertices = omega (arith, length-append m.vertices (move v ∷ []));
    normals = elim (Bool-cases (has_normals f)) [
      | inl e ↦ rw e (omega (arith, length-append m.normals (f.norm ∷ [])))
      | inr e ↦ rw e (omega arith)
    ];
    uvs = elim (Bool-cases (has_uvs f)) [
      | inl e ↦ rw e (omega (arith, length-append m.uvs (f.uvs i ∷ [])))
      | inr e ↦ rw e (omega arith)
    ];
  }

  pub add_vertices-Adds :
      (f : Face V N U) (i : ℕ) (vs : List V) (face : List ℕ) (m : MeshData V N U B)
      → All (λ i. i < length m.vertices) face
      → Adds f (length vs) m (add_vertices move encapsulate f i vs face m)
  unfolding add_vertices
  add_vertices-Adds f i [] face m h = record {
    format = refl;
    faces = refl;
    vertices = omega arith;
    normals = ground arith;
    uvs = ground arith;
    indices = h;
  }
  add_vertices-Adds f i (v ∷ vs) face m h =
      let m1 = add_vertex move encapsulate f i v m in
      let one = add_vertex-AddsOne f i v m in
      let kept : All (λ i. i < length m1.vertices) face =
        All-map (λ i. i < length m.vertices) (λ i. i < length m1.vertices)
          (λ i lt. omega (arith, one.vertices)) face h in
      let ih = add_vertices-Adds f (suc i) vs (face ++ length m.vertices ∷ []) m1 (
        All-append (λ i. i < length m1.vertices) face (length m.vertices ∷ []) kept
          (omega (arith, one.vertices), tt)) in
      record {
        format = ih.format ∙ one.format;
        faces = ih.faces ∙ one.faces;
        vertices = omega (arith, ih.vertices, one.vertices);
        normals = ground (arith, ih.normals, one.normals);
        uvs = ground (arith, ih.uvs, one.uvs);
        indices = ih.indices;
      }

  -- The mesh that a face of this format goes to.
  abbrev pub mesh_of : B → ℕ → Builder V N U B → MeshData V N U B
  mesh_of box format b = elim (Map.lookup format b.meshes) [
    | some m ↦ m
    | none ↦ new_mesh box format
  ]

  pub record Starts (box : B) (format : ℕ) (b b' : Builder V N U B) : Type 0 where
    pub started : start_or_continue_mesh_by_format box format b ≡ some (mesh_of box format b, b')
    pub entry : Map.lookup format b'.meshes ≡ some (mesh_of box format b)
    pub others : (k : ℕ) → k ≢ format → Map.lookup k b'.meshes ≡ Map.lookup k b.meshes
    pub current : b'.current_mesh ≡ some format

  find_or_new-Starts :
      (box : B) (format : ℕ) (b : Builder V N U B) (found : Option (MeshData V N U B))
      → Map.lookup format b.meshes ≡ found
      → let r = find_or_new box format found b in
        (r.0 ≡ mesh_of box format b)
        × (r.1.current_mesh ≡ some format)
        × ((k : ℕ) → k ≢ format → Map.lookup k r.1.meshes ≡ Map.lookup k b.meshes)
        × (Map.lookup format r.1.meshes ≡ some (mesh_of box format b))
  unfolding find_or_new
  find_or_new-Starts box format b none e = (
    rw (e, mesh_of),
    refl,
    λ k n. ground (arith, lookup-insert format k (new_mesh box format) b.meshes),
    rw lookup-insert (rw (==_refl format, e, mesh_of)),
  )
  find_or_new-Starts box format b (some m) e = (rw (e, mesh_of), refl, λ k n. refl, rw (e, mesh_of))

  found-Starts :
      (box : B) (format : ℕ) (b : Builder V N U B)
      → start_or_continue_mesh_by_format box format b
        ≡ some (find_or_new box format (Map.lookup format b.meshes) b)
      → (b' : Builder V N U B) × Starts box format b b'
  found-Starts box format b e =
      let r = find_or_new box format (Map.lookup format b.meshes) b in
      let w = find_or_new-Starts box format b (Map.lookup format b.meshes) refl in
      (
        r.1,
        record {
          started = e ∙ ap (λ (m : MeshData V N U B). some (m, r.1)) w.0;
          entry = w.3;
          others = w.2;
          current = w.1;
        },
      )

  start_fresh :
      (box : B) (format : ℕ) (b : Builder V N U B)
      → b.current_mesh ≡ none
      → start_or_continue_mesh_by_format box format b
        ≡ some (find_or_new box format (Map.lookup format b.meshes) b)
  unfolding start_or_continue_mesh_by_format
  start_fresh box format b e = ground (arith, e)

  start_current :
      (box : B) (format k : ℕ) (m : MeshData V N U B) (b : Builder V N U B)
      → b.current_mesh ≡ some k
      → Map.lookup k b.meshes ≡ some m
      → start_or_continue_mesh_by_format box format b ≡ (
          if m.format == format
          then some (m, b)
          else some (find_or_new box format (Map.lookup format b.meshes) b))
  unfolding start_or_continue_mesh_by_format
  start_current box format k m b e here = ground (arith, e, here)

  pub start-Starts :
      (box : B) (format : ℕ) (b : Builder V N U B)
      → IsValid b
      → (b' : Builder V N U B) × Starts box format b b'
  start-Starts box format b v = elim (Option-cases b.current_mesh) [
    | inl e ↦ found-Starts box format b (start_fresh box format b e)
    | inr (k, e) ↦
        let (m, here) = v.current k e in
        let start = start_current box format k m b e here in
        elim (Bool-cases (m.format == format)) [
          | inl same ↦
              let k_is : k ≡ format =
                omega (arith, (v.shaped k m here).formatted, (==_iff m.format format).0 same) in
              let m_is : mesh_of box format b ≡ m =
                rw (ap (λ (x : ℕ). Map.lookup x b.meshes) (sym k_is) ∙ here, mesh_of) in
              (
                b,
                record {
                  started =
                      start ∙ (rw same (ap (λ (x : MeshData V N U B). some (x, b)) (sym m_is)));
                  entry =
                      ap (λ (x : ℕ). Map.lookup x b.meshes) (sym k_is) ∙ here ∙ ap some (sym m_is);
                  others = λ k n. refl;
                  current = e ∙ ap some k_is;
                },
              )
          | inr other ↦ found-Starts box format b (start ∙ rw other)
        ]
  ]
