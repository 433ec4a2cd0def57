-- ===== src/MeshBuilder/Gained.antt =====
-- What a face adds to a mesh, in full: the loop of addFace of
-- bouncer/src/repo/manipulator/modelconvertor/import/odaHelper/repo_mesh_builder.cpp.
use drepobouncer.Prelude.{
  ℕ, zero, suc, ◌≡◌, refl, sym, ap, ◌∙◌, Bool, true, false, List, [], ◌∷◌, ◌++◌, map, ltb, ◌==◌,
  if◌then◌else◌, length, length-append, replicate, append_assoc, append-nil, arith,
}
use drepobouncer.MeshBuilder.{
  Face, MeshData, has_normals, has_uvs, add_vertex, add_vertices, push_face,
}

-- The n indices from i on
abbrev pub indices_from : ℕ → ℕ → List ℕ
indices_from i zero = []
indices_from i (suc n) = i ∷ indices_from (suc i) n

abbrev pub uvs_from : {U : Type 0} → (ℕ → U) → ℕ → ℕ → List U
uvs_from uvs i zero = []
uvs_from uvs i (suc n) = uvs i ∷ uvs_from uvs (suc i) n

append-if_more :
    {A : Type 0} (b : Bool) (xs : List A) (x : A) (more : List A)
    → (if b then xs ++ x ∷ [] else xs) ++ (if b then more else [])
      ≡ xs ++ (if b then x ∷ more else [])
append-if_more true xs x more = append_assoc xs (x ∷ []) more
append-if_more false xs x more = refl

if_nil : {A : Type 0} (b : Bool) → ◌≡◌ {A = List A} (if b then [] else []) []
if_nil true = refl
if_nil false = refl

abbrev pub boxed : {V B : Type 0} → (V → V) → (V → B → B) → List V → B → B
boxed move encapsulate [] box = box
boxed move encapsulate (v ∷ vs) box = boxed move encapsulate vs (encapsulate (move v) box)

module _ {V N U B : Type 0} (move : V → V) (encapsulate : V → B → B) where
  -- The mesh m' is m with the vertices vs, moved, and with the normal of the face, if it is a triangle, and its
  -- texture coordinates from the place i on, if it has any, for each of them.
  pub record Gains (f : Face V N U) (i : ℕ) (vs : List V) (m m' : MeshData V N U B) : Type 0 where
    pub vertices : m'.vertices ≡ m.vertices ++ map move vs
    pub normals :
        m'.normals
        ≡ m.normals ++ (if length f.vertices == 3 then replicate (length vs) f.norm else [])
    pub uvs : m'.uvs ≡ m.uvs ++ (if ltb 0 f.num_uvs then uvs_from f.uvs i (length vs) else [])
    pub bounding_box : m'.bounding_box ≡ boxed move encapsulate vs m.bounding_box
    pub format : m'.format ≡ m.format

  add_vertices-Gains :
      (f : Face V N U) (i : ℕ) (vs : List V) (face : List ℕ) (m : MeshData V N U B)
      → let r = add_vertices move encapsulate f i vs face m in
        Gains f i vs m r.1
        × (r.0 ≡ face ++ indices_from (length m.vertices) (length vs))
        × (r.1.faces ≡ m.faces)
  unfolding add_vertices add_vertex has_normals has_uvs
  add_vertices-Gains f i [] face m = (
    record {
      vertices = sym (append-nil m.vertices);
      normals = sym (ap (◌++◌ m.normals) (if_nil (length f.vertices == 3)) ∙ append-nil m.normals);
      uvs = sym (ap (◌++◌ m.uvs) (if_nil (ltb 0 f.num_uvs)) ∙ append-nil m.uvs);
      bounding_box = refl;
      format = refl;
    },
    sym (append-nil face),
    refl,
  )
  add_vertices-Gains f i (v ∷ vs) face m =
      let m1 = add_vertex move encapsulate f i v m in
      let (gains, indices, faces) =
        add_vertices-Gains f (suc i) vs (face ++ length m.vertices ∷ []) m1 in
      let next : length m1.vertices ≡ suc (length m.vertices) =
        omega (arith, length-append m.vertices (move v ∷ [])) in
      (
        record {
          vertices = gains.vertices ∙ append_assoc m.vertices (move v ∷ []) (map move vs);
          normals =
              gains.normals
              ∙ append-if_more (length f.vertices == 3) m.normals f.norm
                  (replicate (length vs) f.norm);
          uvs =
              gains.uvs
              ∙ append-if_more (ltb 0 f.num_uvs) m.uvs (f.uvs i)
                  (uvs_from f.uvs (suc i) (length vs));
          bounding_box = gains.bounding_box;
          format = gains.format;
        },
        indices
            ∙ ap (λ n. (face ++ length m.vertices ∷ []) ++ indices_from n (length vs)) next
            ∙ append_assoc face (length m.vertices ∷ [])
                (indices_from (suc (length m.vertices)) (length vs)),
        faces,
      )

  -- The mesh with one more face, of the vertices that are added
  pub push_face-Gains :
      (f : Face V N U) (m : MeshData V N U B)
      → let m' = push_face (add_vertices move encapsulate f 0 f.vertices [] m) in
        Gains f 0 f.vertices m m'
        × (m'.faces ≡ m.faces ++ indices_from (length m.vertices) (length f.vertices) ∷ [])
  unfolding push_face
  push_face-Gains f m =
      let (gains, indices, faces) = add_vertices-Gains f 0 f.vertices [] m in
      (
        record {
          vertices = gains.vertices;
          normals = gains.normals;
          uvs = gains.uvs;
          bounding_box = gains.bounding_box;
          format = gains.format;
        },
        rw (indices, faces) refl,
      )
