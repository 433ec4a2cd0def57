-- ===== src/Reorganiser/LargeMesh.antt =====
-- A mesh that exceeds the limits in performSplitting of
-- bouncer/src/repo/manipulator/modelutility/repo_mesh_map_reorganiser.cpp.
use drepobouncer.Prelude.{
  ℕ, suc, ◌+◌, ◌-◌, ◌≤◌, ◌≡◌, refl, sym, ap, ◌∙◌, true, List, ◌++◌, Option, some, length, drop, All,
  All-map, length-append, append-nil, append_assoc, reverse_onto, arith,
}
use drepobouncer.Prelude.Map
use drepobouncer.Reorganiser.{
  Mapping, Face, Env, State, update_id_map_array, push_split, finish_sub_mesh, complete_last,
}
use drepobouncer.Reorganiser.Large.{
  Large, last_from, new_large, large_rounds, finish_large, split_large_mesh,
}
use drepobouncer.Reorganiser.Perform.{after_large}
use drepobouncer.Reorganiser.Drawn.{Opens, opened, Opens-finish}
use drepobouncer.Reorganiser.Cut.{large_rounds-Round}
use drepobouncer.Reorganiser.CutNext.{IsCut}
use drepobouncer.Reorganiser.Buffer.{copy_to-resize_region}
use drepobouncer.Reorganiser.Laid.{
  IsBounded, InMesh, region, region-left, length-region, IsPlaced, IsOpen, closed, IsNext,
}

module _ {V B : Type 0} (env : Env V B) where
  last_from-Opens :
      (vs : List V) (from nv nf : ℕ) (ms : List (Mapping B)) (fs gs : List Face)
      → Opens env vs from nv nf ms fs gs
      → last_from env ms ≡ from
  last_from-Opens vs from nv nf _ _ _ (opened m fs gs a b c d e same before) = a

  Opens-at :
      (vs : List V) (from from' nv nv' nf nf' : ℕ) (ms : List (Mapping B)) (fs gs : List Face)
      → from ≡ from'
      → nv ≡ nv'
      → nf ≡ nf'
      → Opens env vs from nv nf ms fs gs
      → Opens env vs from' nv' nf' ms fs gs
  Opens-at vs from from' nv nv' nf nf' ms fs gs e e' e'' h = rw (sym e, sym e', sym e'') h

  new_large-IsCut :
      (done : List V) (gs : List Face) (s : State V B)
      → IsOpen env done gs s
      → length done ≡ s.total_vertices
      → s.total_faces ≡ length s.new_faces
      → s.sub_vertices ≡ 0
      → s.sub_faces ≡ 0
      → IsCut env done gs (new_large env, s)
  new_large-IsCut done gs s o count faces no_vertex no_face =
      let whole = append-nil done in
      let from : o.from ≡ s.total_vertices = omega (arith, o.ends) in
      let drawn' =
        Opens-at done o.from s.total_vertices s.sub_vertices 0 s.sub_faces 0 s.new_mappings
          s.new_faces gs from no_vertex no_face o.drawn in
      record {
        indexed = record {
          ends = rw whole (omega arith);
          small = omega arith;
          finds = λ i j found. absurd (cc (found, Map.lookup-nil {V = ℕ} i));
        };
        drawn = rw whole drawn';
        counted = refl;
        faces_counted = omega arith;
      }

  -- What follows the loop, behind the vertices `done` of the earlier meshes.
  finish_large-IsNext :
      (old done : List V) (gs rest : List Face) (m : Mapping B) (l : Large V B) (s : State V B)
      → m.vert_from ≤ m.vert_to
      → m.vert_to ≤ length old
      → IsCut env done gs (l, s)
      → s.new_vertices ≡ done ++ drop m.vert_from old
      → s.old_faces ≡ rest
      → s.sub_vertices ≡ 0
      → IsNext env old m.vert_to gs rest (record (finish_large env m (length done) (l, s)) {
        id_map_idx = suc s.id_map_idx;
        finished = true;
      })
  unfolding finish_large update_id_map_array push_split finish_sub_mesh complete_last
  finish_large-IsNext old done gs rest m l s le last h buffer left no_vertex =
      let n = m.vert_to - m.vert_from in
      let vs = done ++ l.re_mapped_vertices in
      let last_end = last_from env s.new_mappings + l.vertices in
      let at =
        last_from-Opens vs s.total_vertices l.vertices l.faces s.new_mappings s.new_faces gs
          h.drawn in
      let both = length-append done l.re_mapped_vertices in
      let whole : s.new_vertices ≡ done ++ (region env old m ++ drop m.vert_to old) =
        buffer ∙ ap (◌++◌ done) (region-left env old m le) in
      let placed' =
        copy_to-resize_region env done (region env old m) l.re_mapped_vertices (drop m.vert_to old)
          (length done) n last_end refl (length-region env old m last)
          (omega (arith, at, both, h.indexed.ends)) in
      record {
        done = vs;
        placed = record {
          vertices_placed =
              rw (h.counted, whole) placed' ∙ sym (append_assoc done l.re_mapped_vertices _);
          counted = sym h.indexed.ends;
          faces_counted = h.faces_counted;
        };
        between = closed refl no_vertex (
            Opens-finish env vs s.total_vertices l.vertices l.faces s.new_mappings s.new_faces gs
              l.bbox h.drawn);
        rest_left = left;
      }

  -- A large mesh is cut, always.
  pub record Cuts (old : List V) (v : ℕ) (gs rest : List Face) (o : Option (State V B))
      : Type 0 where
    pub result : State V B
    pub succeeds : o ≡ some result
    pub next : IsNext env old v gs rest result

  pub split_large_mesh-Cuts :
      (old done : List V) (fs gs rest : List Face) (m : Mapping B) (s : State V B)
      → IsBounded env old
      → m.vert_from ≤ m.vert_to
      → m.vert_to ≤ length old
      → m.tri_from + length fs ≡ m.tri_to
      → All (InMesh env m.vert_from m.vert_to) fs
      → s.old_faces ≡ fs ++ rest
      → IsPlaced env old m.vert_from done s
      → IsOpen env done gs s
      → s.sub_vertices ≡ 0
      → s.sub_faces ≡ 0
      → Cuts old m.vert_to (reverse_onto fs gs) rest (after_large env (split_large_mesh env m s))
  unfolding split_large_mesh finish_large update_id_map_array push_split finish_sub_mesh
      complete_last
  split_large_mesh-Cuts old done fs gs rest m s b le last long inside left p o no_vertex no_face =
      let start = new_large-IsCut done gs s o p.counted p.faces_counted no_vertex no_face in
      let from : last_from env s.new_mappings ≡ length done =
        last_from-Opens done o.from s.sub_vertices s.sub_faces s.new_mappings s.new_faces gs o.drawn
        ∙ omega (arith, p.counted, o.ends) in
      let r =
        large_rounds-Round env done fs gs rest m true (m.tri_to - m.tri_from) (new_large env, s)
          b.index_fits b.some_face
          (All-map (InMesh env m.vert_from m.vert_to) (λ g. length g ≤ env.max_vertices)
            (λ g h. h.0) fs inside)
          (omega arith) left start in
      let rounds =
        ap (λ gs'. large_rounds env m true (m.tri_to - m.tri_from) gs' (new_large env, s)) left
        ∙ r.succeeds in
      let (l', s') = r.result in
      rw (split_large_mesh, rounds, from)
        (record {
          result = record (finish_large env m (length done) r.result) {
            id_map_idx = suc s'.id_map_idx;
            finished = true;
          };
          succeeds = refl;
          next =
              finish_large-IsNext old done (reverse_onto fs gs) rest m l' s' le last r.is_cut
                (r.kept.vertices_kept ∙ p.vertices_placed) r.rest_left
                (r.kept.sub_vertices_kept ∙ no_vertex);
        })
