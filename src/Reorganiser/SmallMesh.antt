-- ===== src/Reorganiser/SmallMesh.antt =====
-- A mesh within the limits in performSplitting of
-- bouncer/src/repo/manipulator/modelutility/repo_mesh_map_reorganiser.cpp.
use drepobouncer.Prelude.{
  ℕ, zero, suc, ◌+◌, ◌-◌, ◌%◌, ◌^◌, ◌≤◌, ◌<◌, ◌≡◌, refl, sym, ap, ◌∙◌, List, [], ◌∷◌, ◌++◌, some,
  length, drop, get_elem?, get_elem?-behind, get_elem?-take, get_elem?-drop, All, length-append,
  append_assoc, subst, reverse_onto, arith,
}
use drepobouncer.Reorganiser.{
  Mapping, Face, Env, State, shifted, shift_face, add_small_face, add_small_faces, add_small_mesh,
  new_mat_map_entry, update_id_map_array, push_split, complete_last,
}
use drepobouncer.Reorganiser.Drawn.{Same, Opens, Opens-append, Opens-add}
use drepobouncer.Reorganiser.Laid.{
  IsBounded, Reads, InMesh, region, region-left, length-region, IsPlaced, IsOpen, still_open,
  IsNext,
}

module _ {V B : Type 0} (env : Env V B) where
  shifted_lem :
      (sub v i : ℕ)
      → v ≤ i
      → v < 2 ^ 32
      → sub + (i - v) < 2 ^ 32
      → shifted env sub v i ≡ sub + (i - v)
  unfolding shifted
  shifted_lem sub v i le small fit =
      let wide : i + (sub + 2 ^ 64 - v) ≡ (sub + (i - v)) + 2 ^ 64 = omega arith in
      let cut : (i + (sub + 2 ^ 64 - v)) % 2 ^ 64 ≡ sub + (i - v) = omega arith in
      rw cut (omega arith)

  -- The vertices of the mesh from v to w stand in vs from the place p on.
  abbrev Stands : List V → ℕ → ℕ → ℕ → Type 0
  Stands vs p v w = (i : ℕ) → v ≤ i → i < w → get_elem? vs (p + (i - v)) ≡ some (env.read i)

  shift_face-Same :
      (vs : List V) (from sub v w : ℕ) (g : Face)
      → sub + (w - v) < 2 ^ 32
      → v < 2 ^ 32
      → Stands vs (from + sub) v w
      → All (λ i. (v ≤ i) × (i < w)) g
      → Same env vs from (sub + (w - v)) (shift_face env sub v g) g
  unfolding shift_face
  shift_face-Same vs from sub v w [] fit small stands h = tt
  shift_face-Same vs from sub v w (i ∷ g) fit small stands h =
      let index = shifted_lem sub v i h.0.0 small (omega (arith, h.0)) in
      let place : from + (sub + (i - v)) ≡ (from + sub) + (i - v) = omega arith in
      (
        rw index (omega (arith, h.0)),
        rw (index, place) (stands i h.0.0 h.0.1),
        shift_face-Same vs from sub v w g fit small stands h.1,
      )

  -- The loop adds the faces that it draws, and leaves the rest alone.
  record Added (done : List V) (from nv : ℕ) (gs rest : List Face) (n : ℕ) (s s' : State V B)
      : Type 0 where
    drawn : Opens env done from nv s'.sub_faces s'.new_mappings s'.new_faces gs
    faces_counted : s'.total_faces ≡ length s'.new_faces
    rest_left : s'.old_faces ≡ rest
    sub_vertices_kept : s'.sub_vertices ≡ s.sub_vertices
    total_kept : s'.total_vertices ≡ s.total_vertices
    vertices_kept : s'.new_vertices ≡ s.new_vertices
    finished_kept : s'.finished ≡ s.finished

  add_small_faces-Added :
      (done : List V) (from nv : ℕ) (fs gs rest : List Face) (m : Mapping B) (n : ℕ) (s : State V B)
      → nv ≡ s.sub_vertices + (m.vert_to - m.vert_from)
      → nv < 2 ^ 32
      → m.vert_from < 2 ^ 32
      → Stands done (from + s.sub_vertices) m.vert_from m.vert_to
      → All (InMesh env m.vert_from m.vert_to) fs
      → length fs ≡ n
      → s.sub_faces + n ≤ env.max_faces
      → s.old_faces ≡ fs ++ rest
      → s.total_faces ≡ length s.new_faces
      → Opens env done from nv s.sub_faces s.new_mappings s.new_faces gs
      → Added done from nv (reverse_onto fs gs) rest n s (add_small_faces env m n (fs ++ rest) s)
  unfolding add_small_faces add_small_face
  add_small_faces-Added done from nv [] gs rest m zero s e fit small stands inside long room old
        count h =
      record {
        drawn = h;
        faces_counted = count;
        rest_left = old;
        sub_vertices_kept = refl;
        total_kept = refl;
        vertices_kept = refl;
        finished_kept = refl;
      }
  add_small_faces-Added done from nv [] gs rest m (suc n) s e fit small stands inside long room old
        count h =
      absurd (omega arith)
  add_small_faces-Added done from nv (g ∷ fs) gs rest m zero s e fit small stands inside long room
        old count h =
      absurd (omega arith)
  add_small_faces-Added done from nv (g ∷ fs) gs rest m (suc n) s e fit small stands inside long
        room old count h =
      let same =
        shift_face-Same done from s.sub_vertices m.vert_from m.vert_to g (omega arith) small stands
          inside.0.1 in
      let one =
        Opens-add env done from nv s.sub_faces s.new_mappings s.new_faces gs
          (shift_face env s.sub_vertices m.vert_from g) g (omega arith) (rw e same) h in
      let r =
        add_small_faces-Added done from nv fs (g ∷ gs) rest m n
          (add_small_face env m g (fs ++ rest) s) e fit small stands inside.1 (omega arith)
          (omega arith) refl (ap suc count) one in
      record {
        drawn = r.drawn;
        faces_counted = r.faces_counted;
        rest_left = r.rest_left;
        sub_vertices_kept = r.sub_vertices_kept;
        total_kept = r.total_kept;
        vertices_kept = r.vertices_kept;
        finished_kept = r.finished_kept;
      }

  region-Stands :
      (old done : List V) (m : Mapping B) (p : ℕ)
      → Reads env old
      → m.vert_to ≤ length old
      → length done ≡ p
      → Stands (done ++ region env old m) p m.vert_from m.vert_to
  region-Stands old done m p reads last e i from to =
      let n = m.vert_to - m.vert_from in
      let index : m.vert_from + (i - m.vert_from) ≡ i = omega arith in
      get_elem?-behind done (region env old m) p (i - m.vert_from) e
      ∙ get_elem?-take n (i - m.vert_from) (drop m.vert_from old) (omega arith)
      ∙ get_elem?-drop m.vert_from (i - m.vert_from) old
      ∙ rw index (reads i (omega arith))

  pub add_small_mesh-IsNext :
      (old done : List V) (fs gs rest : List Face) (m : Mapping B) (s : State V B)
      → IsBounded env old
      → Reads env old
      → m.vert_from < m.vert_to
      → m.vert_to ≤ length old
      → m.tri_from + length fs ≡ m.tri_to
      → All (InMesh env m.vert_from m.vert_to) fs
      → s.sub_vertices + (m.vert_to - m.vert_from) ≤ env.max_vertices
      → s.sub_faces + (m.tri_to - m.tri_from) ≤ env.max_faces
      → s.old_faces ≡ fs ++ rest
      → IsPlaced env old m.vert_from done s
      → IsOpen env done gs s
      → IsNext env old m.vert_to (reverse_onto fs gs) rest (add_small_mesh env m s)
  unfolding add_small_mesh new_mat_map_entry update_id_map_array push_split complete_last
  add_small_mesh-IsNext old done fs gs rest m s b reads some_vertex last long inside vertices_fit
        faces_fit left p o =
      let n = m.vert_to - m.vert_from in
      let done' = done ++ region env old m in
      let h3 = length-region env old m last in
      let both = length-append done (region env old m) in
      let region_placed : done ++ drop m.vert_from old ≡ done' ++ drop m.vert_to old =
        ap (◌++◌ done) (region-left env old m (omega arith))
        ∙ sym (append_assoc done (region env old m) (drop m.vert_to old)) in
      let s1 = new_mat_map_entry env m s.total_vertices s.total_faces s in
      let wider =
        Opens-append env done (region env old m) o.from s.sub_vertices (s.sub_vertices + n)
          s.sub_faces s.new_mappings s.new_faces gs (omega arith) vertices_fit o.drawn in
      let r =
        add_small_faces-Added done' o.from (s.sub_vertices + n) fs gs rest m (m.tri_to - m.tri_from)
          s1 refl (omega (arith, b.index_fits)) (omega (arith, b.vertices_fit))
          (region-Stands old done m (o.from + s.sub_vertices) reads last
            (omega (arith, p.counted, o.ends)))
          inside (omega arith) faces_fit left p.faces_counted wider in
      let s2 = add_small_faces env m (m.tri_to - m.tri_from) s1.old_faces s1 in
      let r' : Added done' o.from (s.sub_vertices + n) (reverse_onto fs gs) rest
          (m.tri_to - m.tri_from) s1 s2 =
        subst
          (λ gs'.
            Added done' o.from (s.sub_vertices + n) (reverse_onto fs gs) rest
              (m.tri_to - m.tri_from) s1 (add_small_faces env m (m.tri_to - m.tri_from) gs' s1))
          (sym left) r in
      let opens : IsOpen env done' (reverse_onto fs gs) (add_small_mesh env m s) = record {
        from = o.from;
        ends = omega (arith, r'.sub_vertices_kept, r'.total_kept, o.ends);
        unfinished = r'.finished_kept ∙ o.unfinished;
        drawn = rw r'.sub_vertices_kept r'.drawn;
      } in
      record {
        done = done';
        placed = record {
          vertices_placed = r'.vertices_kept ∙ p.vertices_placed ∙ region_placed;
          counted = omega (arith, both, h3, r'.total_kept, p.counted);
          faces_counted = r'.faces_counted;
        };
        between = still_open opens (omega (arith, r'.sub_vertices_kept));
        rest_left = r'.rest_left;
      }
