-- ===== src/Reorganiser/CutNext.antt =====
-- A new sub mesh in the loop of splitLargeMesh in
-- bouncer/src/repo/manipulator/modelutility/repo_mesh_map_reorganiser.cpp.
use drepobouncer.Prelude.{ℕ, ◌+◌, ◌≡◌, refl, ◌∙◌, Bool, true, false, List, ◌++◌, length, arith}
use drepobouncer.Prelude.Map
use drepobouncer.Reorganiser.{
  Mapping, Face, Env, State, on_back, update_id_map_array, push_split, finish_sub_mesh,
  finish_mapping, complete_last, new_mat_map_entry, start_sub_mesh,
}
use drepobouncer.Reorganiser.Large.{Large, next_sub_mesh}
use drepobouncer.Reorganiser.Drawn.{Opens, Opens-finish, Draws-open}
use drepobouncer.Reorganiser.ReIndex.{IsIndexed}

module _ {V B : Type 0} (env : Env V B) where
  -- The state in the loop, behind the vertices `done`, when the faces gs are drawn.
  pub record IsCut (done : List V) (gs : List Face) (r : Large V B × State V B) : Type 0 where
    pub indexed : IsIndexed env done r.1.total_vertices r.0
    pub drawn :
        Opens env
          (done ++ r.0.re_mapped_vertices)
          r.1.total_vertices
          r.0.vertices
          r.0.faces
          r.1.new_mappings
          r.1.new_faces
          gs
    pub counted : r.0.total_vertices + r.0.vertices ≡ length r.0.re_mapped_vertices
    pub faces_counted : r.1.total_faces + r.0.faces ≡ length r.1.new_faces

  -- What the loop leaves alone
  pub record Kept (s s' : State V B) : Type 0 where
    pub vertices_kept : s'.new_vertices ≡ s.new_vertices
    pub sub_vertices_kept : s'.sub_vertices ≡ s.sub_vertices

  pub Kept-refl : (s : State V B) → Kept s s
  Kept-refl s = record { vertices_kept = refl; sub_vertices_kept = refl }

  pub Kept-trans : (s s1 s2 : State V B) → Kept s s1 → Kept s1 s2 → Kept s s2
  Kept-trans s s1 s2 h k = record {
    vertices_kept = k.vertices_kept ∙ h.vertices_kept;
    sub_vertices_kept = k.sub_vertices_kept ∙ h.sub_vertices_kept;
  }

  pub next_sub_mesh-Kept :
      (m : Mapping B) (first : Bool) (l : Large V B) (s : State V B)
      → Kept s (next_sub_mesh env m first l s).1
  unfolding next_sub_mesh push_split update_id_map_array finish_sub_mesh complete_last
      new_mat_map_entry start_sub_mesh
  next_sub_mesh-Kept m true l s = record { vertices_kept = refl; sub_vertices_kept = refl }
  next_sub_mesh-Kept m false l s = record { vertices_kept = refl; sub_vertices_kept = refl }

  next_sub_mesh_first-IsCut :
      (done : List V) (gs : List Face) (m : Mapping B) (l : Large V B) (s : State V B)
      → IsCut done gs (l, s)
      → IsCut done gs (next_sub_mesh env m true l s)
  unfolding next_sub_mesh push_split update_id_map_array finish_sub_mesh complete_last
      new_mat_map_entry start_sub_mesh
  next_sub_mesh_first-IsCut done gs m l s h =
      let vs = done ++ l.re_mapped_vertices in
      let finished =
        Opens-finish env vs s.total_vertices l.vertices l.faces s.new_mappings s.new_faces gs l.bbox
          h.drawn in
      record {
        indexed = record {
          ends = omega (arith, h.indexed.ends);
          small = omega arith;
          finds = λ i j found. absurd (cc (found, Map.lookup-nil {V = ℕ} i));
        };
        drawn =
            Draws-open env vs (s.total_vertices + l.vertices)
              (on_back (finish_mapping env l.bbox l.vertices l.faces) s.new_mappings) s.new_faces gs
              (s.total_faces + l.faces) h.faces_counted finished;
        counted = omega (arith, h.counted);
        faces_counted = omega (arith, h.faces_counted);
      }

  push_split-IsCut :
      (done : List V) (gs : List Face) (id : ℕ) (l : Large V B) (s : State V B)
      → IsCut done gs (l, s)
      → IsCut done gs (l, push_split env id s)
  unfolding push_split
  push_split-IsCut done gs id l s h = record {
    indexed = h.indexed;
    drawn = h.drawn;
    counted = h.counted;
    faces_counted = h.faces_counted;
  }

  pub next_sub_mesh-IsCut :
      (done : List V) (gs : List Face) (m : Mapping B) (first : Bool) (l : Large V B)
      (s : State V B)
      → IsCut done gs (l, s)
      → IsCut done gs (next_sub_mesh env m first l s)
  unfolding next_sub_mesh push_split
  next_sub_mesh-IsCut done gs m true l s h = next_sub_mesh_first-IsCut done gs m l s h
  next_sub_mesh-IsCut done gs m false l s h =
      next_sub_mesh_first-IsCut done gs m l (push_split env m.mesh_id s)
        (push_split-IsCut done gs m.mesh_id l s h)
