-- ===== src/MeshBuilder/Filled.antt =====
-- The mesh that a face is added to stays well formed: addFace of
-- bouncer/src/repo/manipulator/modelconvertor/import/odaHelper/repo_mesh_builder.cpp.
use drepobouncer.Prelude.{
  ℕ, ◌+◌, ◌*◌, ◌<◌, ◌≤◌, false, not, ◌&&◌, ◌≡◌, ◌≢◌, refl, sym, ap, ◌∙◌, [], ◌∷◌, some, ◌==◌,
  length, All, All-append, All-map, arith, inl, inr, Bool-cases, Option-cases, ==_refl, ==_iff,
  subst,
}
use drepobouncer.Prelude.Map
use drepobouncer.Prelude.Map.{lookup-insert}
use drepobouncer.MeshBuilder.{
  Face, MeshData, Builder, ok, has_normals, has_uvs, get_format, new_mesh, add_vertices, push_face,
  fill_mesh, fill_started, add_face,
}
use drepobouncer.MeshBuilder.Format.{get_mesh_format_lem}
use drepobouncer.MeshBuilder.Shape.{
  IsShaped, IsValid, add_vertices-Adds, mesh_of, Starts, start-Starts,
}

pub get_format_lem :
    {V N U : Type 0} (f : Face V N U)
    → length f.vertices ≤ 3
    → get_format f ≡ 1 + 256 * length f.vertices
unfolding get_format
get_format_lem f h =
    get_mesh_format_lem (has_uvs f) (has_normals f) (length f.vertices) (omega arith)

module _ {V N U B : Type 0} (move : V → V) (encapsulate : V → B → B) (box : B) where
  pub mesh_of-IsShaped :
      (format : ℕ) (b : Builder V N U B)
      → IsValid b
      → IsShaped format (mesh_of move encapsulate box format b)
  unfolding new_mesh
  mesh_of-IsShaped format b v = elim (Option-cases (Map.lookup format b.meshes)) [
    | inl e ↦
        rw (e, mesh_of)
          (record {
            formatted = refl;
            in_range = tt;
            normal_count = ground arith;
            uv_count = omega arith;
          })
    | inr (m, e) ↦ rw (e, mesh_of) (v.shaped format m e)
  ]

  -- The mesh with one more face.
  abbrev pub filled : Face V N U → Builder V N U B → MeshData V N U B
  filled f b = push_face (
      add_vertices move encapsulate f 0 f.vertices []
        (mesh_of move encapsulate box (get_format f) b))

  pub filled-IsShaped :
      (f : Face V N U) (b : Builder V N U B)
      → IsValid b
      → length f.vertices ≤ 3
      → has_uvs f && not (has_normals f) ≡ false
      → IsShaped (get_format f) (filled f b)
  unfolding push_face has_normals
  filled-IsShaped f b v small fine =
      let m = mesh_of move encapsulate box (get_format f) b in
      let old = mesh_of-IsShaped (get_format f) b v in
      let adds = add_vertices-Adds move encapsulate f 0 f.vertices [] m tt in
      let r = add_vertices move encapsulate f 0 f.vertices [] m in
      record {
        formatted = adds.format ∙ old.formatted;
        in_range = rw adds.faces (
            All-append (All (λ i. i < length r.1.vertices)) m.faces (r.0 ∷ [])
              (All-map (All (λ i. i < length m.vertices)) (All (λ i. i < length r.1.vertices))
                (λ face.
                  All-map (λ i. i < length m.vertices) (λ i. i < length r.1.vertices)
                    (λ i lt. omega (arith, adds.vertices)) face)
                m.faces old.in_range)
              (adds.indices, tt));
        normal_count =
            ground (arith, adds.normals, adds.vertices, old.normal_count, get_format_lem f small);
        uv_count = ground (arith, adds.normals, adds.uvs, old.uv_count, fine);
      }

  -- Every other mesh is as before, and the mesh of the face's format has the face at its end.
  pub record Fills (f : Face V N U) (b b' : Builder V N U B) : Type 0 where
    pub filling : Map.lookup (get_format f) b'.meshes ≡ some (filled f b)
    pub others : (k : ℕ) → k ≢ get_format f → Map.lookup k b'.meshes ≡ Map.lookup k b.meshes
    pub current : b'.current_mesh ≡ some (get_format f)

  pub add_face-Fills :
      (f : Face V N U) (b : Builder V N U B)
      → IsValid b
      → 1 ≤ length f.vertices
      → has_uvs f && not (has_normals f) ≡ false
      → (b' : Builder V N U B) × (add_face move encapsulate box f b ≡ ok b') × Fills f b b'
  unfolding add_face fill_started fill_mesh
  add_face-Fills f b v some_vertex fine =
      let (b1, s) = start-Starts move encapsulate box (get_format f) b v in
      (
        record b1 { meshes = Map.insert (get_format f) (filled f b) b1.meshes },
        ground (arith, s.started, fine),
        record {
          filling = rw lookup-insert (rw (==_refl (get_format f)));
          others = λ k n.
              ground (arith, lookup-insert (get_format f) k (filled f b) b1.meshes, s.others k);
          current = s.current;
        },
      )

  pub Fills-IsValid :
      (f : Face V N U) (b b' : Builder V N U B)
      → IsValid b
      → length f.vertices ≤ 3
      → has_uvs f && not (has_normals f) ≡ false
      → Fills f b b'
      → IsValid b'
  Fills-IsValid f b b' v small fine w = record {
    shaped = λ k m e. elim (Bool-cases (k == get_format f)) [
      | inl same ↦
          let k_is : k ≡ get_format f = (==_iff k (get_format f)).0 same in
          let m_is : filled f b ≡ m = cc (w.filling, e, k_is) in
          subst (λ (x : MeshData V N U B). IsShaped k x) m_is
            (subst (λ (x : ℕ). IsShaped x (filled f b)) (sym k_is)
              (filled-IsShaped f b v small fine))
      | inr other ↦ v.shaped k m (sym (w.others k (ground (arith, other))) ∙ e)
    ];
    current =
        λ k e. (filled f b, ap (λ (x : ℕ). Map.lookup x b'.meshes) (cc (e, w.current)) ∙ w.filling);
  }

  pub Starts-IsValid :
      (format : ℕ) (b b' : Builder V N U B)
      → IsValid b
      → Starts move encapsulate box format b b'
      → IsValid b'
  Starts-IsValid format b b' v s = record {
    shaped = λ k m e. elim (Bool-cases (k == format)) [
      | inl same ↦
          let k_is : k ≡ format = (==_iff k format).0 same in
          let m_is : mesh_of move encapsulate box format b ≡ m = cc (s.entry, e, k_is) in
          subst (λ (x : MeshData V N U B). IsShaped k x) m_is
            (subst (λ (x : ℕ). IsShaped x (mesh_of move encapsulate box format b)) (sym k_is)
              (mesh_of-IsShaped format b v))
      | inr other ↦ v.shaped k m (sym (s.others k (ground (arith, other))) ∙ e)
    ];
    current = λ k e. (
      mesh_of move encapsulate box format b,
      ap (λ (x : ℕ). Map.lookup x b'.meshes) (cc (e, s.current)) ∙ s.entry,
    );
  }
