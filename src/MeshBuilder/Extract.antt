-- ===== src/MeshBuilder/Extract.antt =====
-- extractMeshes of
-- bouncer/src/repo/manipulator/modelconvertor/import/odaHelper/repo_mesh_builder.cpp.
use drepobouncer.Prelude.{
  if◌then◌else◌, ℕ, suc, ◌≤◌, true, false, not, ◌&&◌, ◌≡◌, refl, sym, ap, ◌∙◌, List, [], ◌∷◌, map,
  none, some, ◌==◌, length, arith, inl, inr, Bool-cases, Option-cases, ◌⊎◌, All, subst,
}
use drepobouncer.Prelude.Map
use drepobouncer.Prelude.Map.{Map}
use drepobouncer.MeshBuilder.{
  Face, MeshData, Builder, MeshNode, ok, dangling, has_normals, has_uvs, get_format,
  start_or_continue_mesh_by_format, fill_started, add_face, push_face, sizes_match, mesh_node,
  extract_nodes, extract_meshes,
}
use drepobouncer.MeshBuilder.Shape.{IsValid, mesh_of, add_vertices-Adds}
use drepobouncer.MeshBuilder.Filled.{
  filled, Fills, Fills-IsValid, add_face-Fills, get_format_lem, mesh_of-IsShaped,
}

length-map {ℓ κ} :
    {A : Type ℓ} {B : Type κ} (f : A → B) (xs : List A) → length (map f xs) ≡ length xs
length-map f [] = refl
length-map f (x ∷ xs) = ap suc (length-map f xs)

-- A mesh that extractMeshes accepts: it has no vertices, or each of its texture coordinates and normals are none or
-- as many as the vertices.
abbrev pub Fits : {V N U B : Type 0} → ℕ × MeshData V N U B → Type 0
Fits (k, m) =
    (length m.vertices ≡ 0)
    ⊎ (((length m.uvs ≡ 0) ⊎ (length m.uvs ≡ length m.vertices))
        × ((length m.normals ≡ 0) ⊎ (length m.normals ≡ length m.vertices)))

sizes_match-Fits :
    {V N U B : Type 0} (k : ℕ) (m : MeshData V N U B) → sizes_match m ≡ true → Fits (k, m)
unfolding sizes_match
sizes_match-Fits k m h = inr (ground (arith, h), ground (arith, h))

Fits-sizes_match :
    {V N U B : Type 0} (k : ℕ) (m : MeshData V N U B)
    → 1 ≤ length m.vertices
    → Fits (k, m)
    → sizes_match m ≡ true
unfolding sizes_match
Fits-sizes_match k m some_vertex h = ground (arith, some_vertex, h)

-- A node with vertices, with no normals or one for each vertex, and with texture coordinates for each
-- vertex in every channel.
pub record IsNode {V N U : Type 0} (n : MeshNode V N U) : Type 0 where
  pub some_vertex : 1 ≤ length n.vertices
  pub normals : (length n.normals ≡ 0) ⊎ (length n.normals ≡ length n.vertices)
  pub channels : All (λ uvs. length uvs ≡ length n.vertices) n.uv_channels

module _ {V N U B W T : Type 0} (place : V → W) (turn : N → T) where
  -- The nodes are those of the meshes with vertices, in the order of the meshes: each has the vertices and
  -- normals of its mesh, placed and turned, its faces, and one channel of texture coordinates if it has any.
  pub data Makes : Map (MeshData V N U B) → List (MeshNode W T U) → Type 0 where
    no_more : Makes [] []
    skipped :
        {ms : Map (MeshData V N U B)} {ns : List (MeshNode W T U)} (k : ℕ) (m : MeshData V N U B)
        → length m.vertices ≡ 0
        → Makes ms ns
        → Makes ((k, m) ∷ ms) ns
    made :
        {ms : Map (MeshData V N U B)} {ns : List (MeshNode W T U)} (k : ℕ) (m : MeshData V N U B)
        (n : MeshNode W T U)
        → 1 ≤ length m.vertices
        → n.vertices ≡ map place m.vertices
        → n.faces ≡ m.faces
        → n.normals ≡ map turn m.normals
        → n.uv_channels ≡ (if length m.uvs == 0 then [] else m.uvs ∷ [])
        → Makes ms ns
        → Makes ((k, m) ∷ ms) (n ∷ ns)

  mesh_node-IsNode :
      (m : MeshData V N U B)
      → (length m.vertices == 0) ≡ false
      → sizes_match m ≡ true
      → IsNode (mesh_node place turn m)
  unfolding sizes_match mesh_node
  mesh_node-IsNode m e h = record {
    some_vertex = ground (arith, e, length-map place m.vertices);
    normals = ground (arith, h, length-map place m.vertices, length-map turn m.normals);
    channels = elim (Bool-cases (length m.uvs == 0)) [
      | inl bare ↦ rw bare tt
      | inr textured ↦ rw textured (ground (arith, h, textured, length-map place m.vertices), tt)
    ];
  }

  -- The loop of extractMeshes throws exactly when some mesh with vertices has some other number of
  -- texture coordinates or of normals, other than none. Otherwise it returns a node for each mesh with vertices, in
  -- the order of the meshes, with the vertices, faces, normals and texture coordinates of the mesh; the nodes have
  -- vertices, and their normals, if any, and texture coordinates are as many as these.
  pub extract_nodes_lem :
      (ms : Map (MeshData V N U B))
      → ((extract_nodes place turn ms ≡ none) × ¬ All Fits ms)
        ⊎ ((ns : List (MeshNode W T U)) × (extract_nodes place turn ms ≡ some ns)
            × All Fits ms
            × Makes ms ns
            × All IsNode ns)
  unfolding extract_nodes mesh_node
  extract_nodes_lem [] = inr ([], refl, tt, no_more, tt)
  extract_nodes_lem ((k, m) ∷ ms) = elim (extract_nodes_lem ms) [
    | inl (e, bad) ↦ inl (ground (arith, e), λ h. bad h.1)
    | inr (ns, e, fits, makes, nodes) ↦ elim (Bool-cases (length m.vertices == 0)) [
      | inl empty ↦ inr (
        ns,
        rw empty e,
        (inl (ground (arith, empty)), fits),
        skipped k m (ground (arith, empty)) makes,
        nodes,
      )
      | inr full ↦ elim (Bool-cases (sizes_match m)) [
        | inl h ↦ inr (
          mesh_node place turn m ∷ ns,
          rw (full, h, e) refl,
          (sizes_match-Fits k m h, fits),
          made k m (mesh_node place turn m) (ground (arith, full)) refl refl refl refl makes,
          (mesh_node-IsNode m full h, nodes),
        )
        | inr h ↦ inl (
          rw (full, h) refl,
          λ all. absurd (cc (sym (Fits-sizes_match k m (ground (arith, full)) all.0) ∙ h)),
        )
      ]
    ]
  ]

  one_mismatch :
      (ms : Map (MeshData V N U B)) (k : ℕ) (m : MeshData V N U B)
      → Map.lookup k ms ≡ some m
      → 1 ≤ length m.vertices
      → sizes_match m ≡ false
      → ¬ All Fits ms
  unfolding Map.lookup
  one_mismatch [] k m e some_vertex bad h = absurd (cc e)
  one_mismatch ((j, m') ∷ ms) k m e some_vertex bad h = elim (Bool-cases (j == k)) [
    | inl here ↦
        let same : m' ≡ m = ground (arith, here, e) in
        absurd
          (cc (sym (Fits-sizes_match j m some_vertex (subst (λ x. Fits (j, x)) same h.0)) ∙ bad))
    | inr there ↦ one_mismatch ms k m (ground (arith, there, e)) some_vertex bad h.1
  ]

module _ {V N U B W T : Type 0} (place : V → W) (turn : N → T) where
  mismatch_throws :
      (b : Builder V N U B) (k : ℕ) (m : MeshData V N U B)
      → Map.lookup k b.meshes ≡ some m
      → 1 ≤ length m.vertices
      → sizes_match m ≡ false
      → extract_meshes place turn b ≡ none
  unfolding extract_meshes
  mismatch_throws b k m e some_vertex bad = elim (extract_nodes_lem place turn b.meshes) [
    | inl (x, h) ↦ rw (x, extract_meshes) refl
    | inr (ns, x, fits, makes, h) ↦
        absurd (one_mismatch place turn b.meshes k m e some_vertex bad fits)
  ]

  extract_meshes_leaves :
      (b b' : Builder V N U B) (ns : List (MeshNode W T U))
      → extract_meshes place turn b ≡ some (ns, b')
      → (b'.current_mesh ≡ b.current_mesh) × (b'.meshes ≡ [])
  unfolding extract_meshes
  extract_meshes_leaves b b' ns h = elim (Option-cases (extract_nodes place turn b.meshes)) [
    | inl x ↦ absurd (ground (arith, x, h))
    | inr (ms, x) ↦ (ground (arith, x, h), ground (arith, x, h))
  ]

module _ {V N U B W T : Type 0} (move : V → V) (encapsulate : V → B → B) (box : B) (place : V → W)
    (turn : N → T) where
  filled_some :
      (f : Face V N U) (b : Builder V N U B)
      → 1 ≤ length f.vertices
      → 1 ≤ length (filled move encapsulate box f b).vertices
  unfolding push_face
  filled_some f b h =
      let m0 = mesh_of move encapsulate box (get_format f) b in
      omega (arith, (add_vertices-Adds move encapsulate f 0 f.vertices [] m0 tt).vertices)

  -- Two triangles, one with and one without texture coordinates, end in one mesh with fewer texture
  -- coordinates than vertices.
  mixed_mesh :
      (f g : Face V N U) (b b1 : Builder V N U B)
      → IsValid b
      → length f.vertices ≡ 3
      → length g.vertices ≡ 3
      → has_uvs f ≡ not (has_uvs g)
      → Fills move encapsulate box f b b1
      → sizes_match (filled move encapsulate box g b1) ≡ false
  unfolding sizes_match has_normals push_face
  mixed_mesh f g b b1 v three three' mixed w =
      let m0 = mesh_of move encapsulate box (get_format f) b in
      let old = mesh_of-IsShaped move encapsulate box (get_format f) b v in
      let adds = add_vertices-Adds move encapsulate f 0 f.vertices [] m0 tt in
      let m1 = filled move encapsulate box f b in
      let adds' = add_vertices-Adds move encapsulate g 0 g.vertices [] m1 tt in
      let format_f = get_format_lem f (omega arith) in
      let format_g = get_format_lem g (omega arith) in
      let one_format : get_format g ≡ get_format f = omega (arith, format_f, format_g) in
      let same : mesh_of move encapsulate box (get_format g) b1 ≡ m1 =
        rw (ap (λ (x : ℕ). Map.lookup x b1.meshes) one_format ∙ w.filling, mesh_of) in
      rw same (
        ground (
          arith, adds'.vertices, adds'.uvs, adds.vertices, adds.uvs, adds.normals, old.normal_count,
          old.uv_count, three, three', mixed, format_f,
        ))

  -- Two triangles, one with texture coordinates and one without, are both added to well formed meshes,
  -- and extractMeshes then throws.
  pub mixed_triangles_throw :
      (f g : Face V N U) (b : Builder V N U B)
      → IsValid b
      → length f.vertices ≡ 3
      → length g.vertices ≡ 3
      → has_uvs f ≡ not (has_uvs g)
      → (b1 b2 : Builder V N U B) × (add_face move encapsulate box f b ≡ ok b1)
        × (add_face move encapsulate box g b1 ≡ ok b2)
        × (extract_meshes place turn b2 ≡ none)
  unfolding has_normals
  mixed_triangles_throw f g b v three three' mixed =
      let plain_f : has_uvs f && not (has_normals f) ≡ false = ground (arith, three) in
      let plain_g : has_uvs g && not (has_normals g) ≡ false = ground (arith, three') in
      let (b1, e1, w1) = add_face-Fills move encapsulate box f b v (omega arith) plain_f in
      let v1 = Fills-IsValid move encapsulate box f b b1 v (omega arith) plain_f w1 in
      let (b2, e2, w2) = add_face-Fills move encapsulate box g b1 v1 (omega arith) plain_g in
      let bad = mixed_mesh f g b b1 v three three' mixed w1 in
      let some_vertex : 1 ≤ length (filled move encapsulate box g b1).vertices =
        filled_some g b1 (omega arith) in
      (
        b1,
        b2,
        e1,
        e2,
        mismatch_throws place turn b2 (get_format g) (filled move encapsulate box g b1) w2.filling
            some_vertex bad,
      )

  -- After extractMeshes has returned, a builder to which a face was added before uses the deleted mesh
  -- when the next face that has vertices is added.
  pub add_face-extract_meshes :
      (f : Face V N U) (b b' : Builder V N U B) (k : ℕ) (ns : List (MeshNode W T U))
      → b.current_mesh ≡ some k
      → extract_meshes place turn b ≡ some (ns, b')
      → 1 ≤ length f.vertices
      → add_face move encapsulate box f b' ≡ dangling
  unfolding add_face fill_started extract_meshes start_or_continue_mesh_by_format Map.lookup
  add_face-extract_meshes f b b' k ns e h some_vertex =
      let left = extract_meshes_leaves place turn b b' ns h in
      let current : b'.current_mesh ≡ some k = left.0 ∙ e in ground (arith, current, left.1)
