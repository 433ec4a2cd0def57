-- ===== src/Reorganiser/Parallel.antt =====
-- The buffers that MeshMapReorganiser of bouncer/src/repo/manipulator/modelutility/repo_mesh_map_reorganiser.cpp
-- keeps beside the new vertices and faces: the serialised faces, and the identifiers of each sub mesh's vertices.
use drepobouncer.Prelude.{
  ℕ, zero, suc, ◌+◌, ◌-◌, ◌≡◌, refl, sym, ap, ◌∙◌, true, false, List, [], ◌∷◌, ◌++◌, Option, none,
  some, length, replicate, length-append, length-replicate, arith,
}
use drepobouncer.Reorganiser.{
  Mapping, Face, Env, State, on_back, serialise, finish_mapping, new_mat_map_entry, complete_last,
  update_id_map_array, push_split, add_small_face, shift_face, add_small_faces, add_small_mesh,
}

-- The faces' indices, serialised face by face; all with the last first.
abbrev pub serialise_all : List Face → List ℕ
serialise_all [] = []
serialise_all (f ∷ fs) = serialise f (serialise_all fs)

module _ {V B : Type 0} (env : Env V B) where
  -- Each sub mesh has an identifier for each of its vertices.
  abbrev pub Ids : List (List ℕ) → List (Mapping B) → Type 0
  Ids [] [] = Unit
  Ids [] (m ∷ ms) = ⊥
  Ids (buf ∷ bufs) [] = ⊥
  Ids (buf ∷ bufs) (m ∷ ms) = (length buf ≡ m.vert_to - m.vert_from) × Ids bufs ms

  -- The last sub mesh is not finished and has n identifiers.
  abbrev pub OpenIds : ℕ → List (List ℕ) → List (Mapping B) → Type 0
  OpenIds n [] ms = ⊥
  OpenIds n (buf ∷ bufs) [] = ⊥
  OpenIds n (buf ∷ bufs) (m ∷ ms) = (length buf ≡ n) × (m.vert_to ≡ 0) × Ids bufs ms

  pub record IsParallelOpen (s : State V B) : Type 0 where
    pub serialised : s.serialised_faces ≡ serialise_all s.new_faces
    pub unfinished : s.finished ≡ false
    pub ids : OpenIds s.sub_vertices s.id_map_buf s.new_mappings

  pub record IsParallelClosed (s : State V B) : Type 0 where
    pub serialised : s.serialised_faces ≡ serialise_all s.new_faces
    pub ids : Ids s.id_map_buf s.new_mappings

  finish_mapping-ends :
      (bbox : Option B) (n k : ℕ) (m : Mapping B)
      → (finish_mapping env bbox n k m).vert_to - (finish_mapping env bbox n k m).vert_from ≡ n
  finish_mapping-ends none n k m = omega arith
  finish_mapping-ends (some b) n k m = omega arith

  pub finish-Ids :
      (bbox : Option B) (n k : ℕ) (bufs : List (List ℕ)) (ms : List (Mapping B))
      → OpenIds n bufs ms
      → Ids bufs (on_back (finish_mapping env bbox n k) ms)
  finish-Ids bbox n k [] ms h = absurd h
  finish-Ids bbox n k (buf ∷ bufs) [] h = absurd h
  finish-Ids bbox n k (buf ∷ bufs) (m ∷ ms) h = (h.0 ∙ sym (finish_mapping-ends bbox n k m), h.2)

  pub update-OpenIds :
      (n k n' value : ℕ) (bufs : List (List ℕ)) (ms : List (Mapping B))
      → n + k ≡ n'
      → OpenIds n bufs ms
      → OpenIds n' (on_back (λ buf. replicate k value ++ buf) bufs) ms
  update-OpenIds n k n' value [] ms e h = absurd h
  update-OpenIds n k n' value (buf ∷ bufs) [] e h = absurd h
  update-OpenIds n k n' value (buf ∷ bufs) (m ∷ ms) e h = (
    omega (arith, h.0, e, length-append (replicate k value) buf, length-replicate k value),
    h.1,
    h.2,
  )

  -- A sub mesh without vertices that is not finished
  pub empty-Ids : (bufs : List (List ℕ)) (ms : List (Mapping B)) → OpenIds 0 bufs ms → Ids bufs ms
  empty-Ids [] ms h = absurd h
  empty-Ids (buf ∷ bufs) [] h = absurd h
  empty-Ids (buf ∷ bufs) (m ∷ ms) h = (omega (arith, h.0, h.1), h.2)

  add_small_faces-Parallel :
      (m : Mapping B) (n : ℕ) (gs : List Face) (s : State V B)
      → IsParallelOpen s
      → IsParallelOpen (add_small_faces env m n gs s)
  unfolding add_small_faces add_small_face
  add_small_faces-Parallel m zero gs s h = h
  add_small_faces-Parallel m (suc n) [] s h = h
  add_small_faces-Parallel m (suc n) (g ∷ gs) s h =
      add_small_faces-Parallel m n gs (add_small_face env m g gs s) (record {
        serialised = ap (serialise (shift_face env s.sub_vertices m.vert_from g)) h.serialised;
        ids = h.ids;
        unfinished = h.unfinished;
      })

  pub add_small_mesh-Parallel :
      (m : Mapping B) (s : State V B) → IsParallelOpen s → IsParallelOpen (add_small_mesh env m s)
  unfolding add_small_mesh new_mat_map_entry update_id_map_array push_split complete_last
  add_small_mesh-Parallel m s h =
      let s1 = new_mat_map_entry env m s.total_vertices s.total_faces s in
      let s2 = add_small_faces env m (m.tri_to - m.tri_from) s1.old_faces s1 in
      let h2 =
        add_small_faces-Parallel m (m.tri_to - m.tri_from) s1.old_faces s1
          (record { serialised = h.serialised; unfinished = h.unfinished; ids = h.ids }) in
      record {
        serialised = h2.serialised;
        unfinished = h2.unfinished;
        ids =
            update-OpenIds s2.sub_vertices (m.vert_to - m.vert_from)
              (s2.sub_vertices + (m.vert_to - m.vert_from)) s2.id_map_idx s2.id_map_buf
              s2.new_mappings refl h2.ids;
      }

  -- Between two meshes
  pub data IsParallel (s : State V B) : Type 0 where
    all_closed : s.finished ≡ true → s.sub_vertices ≡ 0 → IsParallelClosed s → IsParallel s
    last_open : IsParallelOpen s → IsParallel s
