-- ===== src/Reorganiser/Large.antt =====
-- Cutting one mesh that exceeds the limits: splitLargeMesh of
-- bouncer/src/repo/manipulator/modelutility/repo_mesh_map_reorganiser.cpp.
use drepobouncer.Prelude.{
  ℕ, zero, suc, ◌+◌, ◌-◌, Bool, true, false, ◌||◌, List, [], ◌∷◌, ◌++◌, Option, none, some, ltb,
  leb, if◌then◌else◌, length, take, drop, replicate,
}
use drepobouncer.Prelude.Map
use drepobouncer.Prelude.Map.{Map}
use drepobouncer.Reorganiser.{
  Mapping, Face, Env, State, to_u32, serialise, update_bounding_boxes, finish_sub_mesh,
  start_sub_mesh, new_mat_map_entry, complete_last, update_id_map_array, push_split,
}

-- The variables of splitLargeMesh. `startedLargeMeshSplit` is true throughout.
pub record Large (V B : Type 0) : Type 0 where
  pub re_index_map : Map ℕ
  pub re_mapped_vertices : List V
  pub vertices : ℕ
  pub faces : ℕ
  pub total_vertices : ℕ
  pub bbox : Option B

module _ {V B : Type 0} (env : Env V B) where
  -- The first half of the round for one corner: the new index, and a new vertex if there was none.
  unfoldable pub re_index : ℕ → Large V B → ℕ × Large V B
  re_index i l = elim (Map.lookup i l.re_index_map) [
    | some j ↦ (j, l)
    | none ↦ (
      to_u32 l.vertices,
      record l {
        re_index_map = Map.insert i (to_u32 l.vertices) l.re_index_map;
        re_mapped_vertices = l.re_mapped_vertices ++ env.read i ∷ [];
        vertices = suc l.vertices;
        bbox = update_bounding_boxes env (env.point (env.read i)) l.bbox;
      },
    )
  ]

  -- The second half: `none` is `return false`.
  unfoldable pub in_range : ℕ × Large V B → Option (ℕ × Large V B)
  in_range (j, l) = if ltb l.vertices j then none else some (j, l)

  unfoldable pub re_index_face : Face → Large V B → Option (Face × Large V B)
  re_index_face [] l = some ([], l)
  re_index_face (i ∷ g) l = elim (in_range (re_index i l)) [
    | none ↦ none
    | some (j, l1) ↦ elim (re_index_face g l1) [ none ↦ none | some (f, l2) ↦ some (j ∷ f, l2) ]
  ]

  unfoldable pub is_full : Face → Large V B → Bool
  is_full g l = ltb env.max_vertices (l.vertices + length g) || leb env.max_faces l.faces

  -- The body of the test in the loop: the last sub mesh is finished and a new one begins. finishSubMesh clears the
  -- box before completeLastMatMapEntry reads it, so that the entry keeps the box of the whole mesh.
  unfoldable pub next_sub_mesh : Mapping B → Bool → Large V B → State V B → Large V B × State V B
  next_sub_mesh m first l s =
      let s1 = if first then s else push_split env m.mesh_id s in
      let s2 = update_id_map_array env l.vertices s.id_map_idx s1 in
      let s3 = finish_sub_mesh env l.bbox l.vertices l.faces s2 in
      let s4 = complete_last env (λ e. e.vert_from + l.vertices) (λ e. e.tri_from + l.faces) s3 in
      let s5 : State V B = record s4 {
        total_vertices = s4.total_vertices + l.vertices;
        total_faces = s4.total_faces + l.faces;
      } in
      (
        record l {
          re_index_map = [];
          vertices = 0;
          faces = 0;
          total_vertices = l.total_vertices + l.vertices;
          bbox = none;
        },
        new_mat_map_entry env m s5.total_vertices s5.total_faces
            (start_sub_mesh env s5.total_vertices s5.total_faces s5),
      )

  unfoldable pub make_room : Mapping B → Bool → Face → Large V B → State V B → Large V B × State V B
  make_room m first g l s = if is_full g l then next_sub_mesh m first l s else (l, s)

  unfoldable pub push_face :
      List Face → State V B → Option (Face × Large V B) → Option (Large V B × State V B)
  push_face rest s none = none
  push_face rest s (some (f, l)) = some (
    record l { faces = suc l.faces },
    record s {
      old_faces = rest;
      new_faces = f ∷ s.new_faces;
      serialised_faces = serialise f s.serialised_faces;
    },
  )

  -- One round of the loop over the faces.
  unfoldable pub large_round :
      Mapping B → Bool → Face → List Face → Large V B × State V B → Option (Large V B × State V B)
  large_round m first g rest (l, s) =
      let r = make_room m first g l s in push_face rest r.1 (re_index_face g r.0)

  -- The loop; too few faces end it, as in the loop of a small mesh.
  unfoldable pub large_rounds :
      Mapping B → Bool → ℕ → List Face → Large V B × State V B → Option (Large V B × State V B)
  large_rounds m first zero gs r = some r
  large_rounds m first (suc n) [] r = some r
  large_rounds m first (suc n) (g ∷ rest) r = elim (large_round m first g rest r) [
    | none ↦ none
    | some r' ↦ large_rounds m false n rest r'
  ]

  -- newMappings.back().vertFrom
  abbrev pub last_from : List (Mapping B) → ℕ
  last_from [] = 0
  last_from (m ∷ ms) = m.vert_from

  -- erase, insert and std::copy on the vertex buffer
  abbrev pub erase_at : ℕ → ℕ → List V → List V
  erase_at p n vs = take p vs ++ drop (p + n) vs

  abbrev pub insert_at : ℕ → ℕ → List V → List V
  insert_at p n vs = take p vs ++ (replicate n env.blank ++ drop p vs)

  abbrev pub copy_to : ℕ → List V → List V → List V
  copy_to p ws vs = take p vs ++ (ws ++ drop (p + length ws) vs)

  -- The buffer of the right length: `total` vertices are to stand where `n` stood.
  unfoldable pub resize_region : ℕ → ℕ → ℕ → ℕ → List V → List V
  resize_region n total from last_end vs =
      if ltb total n
      then erase_at last_end (n - total) vs
      else if ltb n total
      then insert_at from (total - n) vs
      else vs

  -- What follows the loop.
  unfoldable pub finish_large : Mapping B → ℕ → Large V B × State V B → State V B
  finish_large m from (l, s) =
      let s1 = update_id_map_array env l.vertices s.id_map_idx s in
      let total = l.total_vertices + l.vertices in
      let s2 : State V B = record s1 {
        total_vertices = s1.total_vertices + l.vertices;
        total_faces = s1.total_faces + l.faces;
        new_vertices = copy_to from l.re_mapped_vertices (
            resize_region (m.vert_to - m.vert_from) total from
              (last_from s1.new_mappings + l.vertices) s1.new_vertices);
      } in
      let s3 = push_split env m.mesh_id s2 in
      let s4 = finish_sub_mesh env l.bbox l.vertices l.faces s3 in
      complete_last env (λ e. e.vert_from + l.vertices) (λ e. e.tri_from + l.faces) s4

  abbrev pub new_large : Large V B
  new_large = record {
    re_index_map = [];
    re_mapped_vertices = [];
    vertices = 0;
    faces = 0;
    total_vertices = 0;
    bbox = none;
  }

  -- splitLargeMesh; `none` is the result false
  unfoldable pub split_large_mesh : Mapping B → State V B → Option (State V B)
  split_large_mesh m s =
      elim (large_rounds m true (m.tri_to - m.tri_from) s.old_faces (new_large, s)) [
        | none ↦ none
        | some r ↦ some (finish_large m (last_from s.new_mappings) r)
      ]
