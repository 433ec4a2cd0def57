-- ===== src/Reorganiser/Splitting.antt =====
-- performSplitting and the constructor of
-- bouncer/src/repo/manipulator/modelutility/repo_mesh_map_reorganiser.cpp: what the new sub meshes draw.
use drepobouncer.Prelude.{
  ℕ, ◌+◌, ◌≤◌, ◌<◌, ◌≡◌, refl, sym, subst, List, [], ◌++◌, Option, some, ◌==◌, length, drop, All,
  reverse_onto, reverse_onto-append, arith, if-cases,
}
use drepobouncer.Prelude.Map
use drepobouncer.Prelude.Map.{Map}
use drepobouncer.Reorganiser.{
  Mapping, Face, Env, State, on_back, finish_mapping, is_large, finish_sub_mesh, new_mat_map_entry,
  add_small_mesh,
}
use drepobouncer.Reorganiser.Large.{split_large_mesh}
use drepobouncer.Reorganiser.Perform.{
  after_large, add_opened, add_mapping, add_mappings, finish_last, start, perform_splitting,
}
use drepobouncer.Reorganiser.Drawn.{Draws, Draws-append, nothing, Opens-finish}
use drepobouncer.Reorganiser.Laid.{
  IsBounded, Reads, InMesh, IsLaid, no_more, laid, IsPlaced, IsBetween, closed, still_open, IsNext,
}
use drepobouncer.Reorganiser.SmallMesh.{add_small_mesh-IsNext}
use drepobouncer.Reorganiser.LargeMesh.{Cuts, split_large_mesh-Cuts}
use drepobouncer.Reorganiser.Prepared.{
  IsReady, HasRoomFor, prepared, prepared-HasRoomFor, prepared-IsReady,
}

module _ {V B : Type 0} (env : Env V B) where
  add_opened-Cuts :
      (old done : List V) (fs gs rest : List Face) (m : Mapping B) (s : State V B)
      → IsBounded env old
      → Reads env old
      → m.vert_from < m.vert_to
      → m.vert_to ≤ length old
      → m.tri_from + length fs ≡ m.tri_to
      → All (InMesh env m.vert_from m.vert_to) fs
      → IsReady env old m.vert_from done gs (fs ++ rest) s
      → HasRoomFor env m s
      → Cuts env old m.vert_to (reverse_onto fs gs) rest (add_opened env m s)
  unfolding add_opened new_mat_map_entry
  add_opened-Cuts old done fs gs rest m s b reads some_vertex last long inside ready room =
      if-cases (Cuts env old m.vert_to (reverse_onto fs gs) rest) (is_large env m)
        (after_large env
          (split_large_mesh env m (new_mat_map_entry env m s.total_vertices s.total_faces s)))
        (some (add_small_mesh env m s))
        (λ e.
          split_large_mesh-Cuts env old done fs gs rest m
            (new_mat_map_entry env m s.total_vertices s.total_faces s) b (omega arith) last long
            inside ready.left_over
            (record {
              vertices_placed = ready.placed.vertices_placed;
              counted = ready.placed.counted;
              faces_counted = ready.placed.faces_counted;
            })
            (record {
              from = ready.opens.from;
              ends = ready.opens.ends;
              unfinished = ready.opens.unfinished;
              drawn = ready.opens.drawn;
            })
            (room.large e).0 (room.large e).1)
        (λ e. record {
          result = add_small_mesh env m s;
          succeeds = refl;
          next =
              add_small_mesh-IsNext env old done fs gs rest m s b reads some_vertex last long inside
                (room.small e).0 (room.small e).1 ready.left_over ready.placed ready.opens;
        })

  -- An entry of splitMap is no part of what is drawn.
  split_map-IsBetween :
      (done : List V) (gs : List Face) (entries : Map (List ℕ)) (s : State V B)
      → IsBetween env done gs s
      → IsBetween env done gs (record s { split_map = entries })
  split_map-IsBetween done gs entries s (closed e no_vertex h) = closed e no_vertex h
  split_map-IsBetween done gs entries s (still_open o some_vertex) =
      still_open
        (record { from = o.from; ends = o.ends; unfinished = o.unfinished; drawn = o.drawn })
        some_vertex

  add_mapping-Cuts :
      (old : List V) (fs gs rest : List Face) (m : Mapping B) (s : State V B)
      → IsBounded env old
      → Reads env old
      → m.vert_from < m.vert_to
      → m.vert_to ≤ length old
      → m.tri_from + length fs ≡ m.tri_to
      → All (InMesh env m.vert_from m.vert_to) fs
      → IsNext env old m.vert_from gs (fs ++ rest) s
      → Cuts env old m.vert_to (reverse_onto fs gs) rest (add_mapping env m s)
  unfolding add_mapping
  add_mapping-Cuts old fs gs rest m s b reads some_vertex last long inside h =
      let s1 : State V B = record s { split_map = Map.insert m.mesh_id [] s.split_map } in
      let p = h.placed in
      let ready =
        prepared-IsReady env old m.vert_from h.done gs (fs ++ rest) m s1
          (record {
            vertices_placed = p.vertices_placed;
            counted = p.counted;
            faces_counted = p.faces_counted;
          })
          (split_map-IsBetween h.done gs s1.split_map s h.between) h.rest_left in
      add_opened-Cuts old h.done fs gs rest m (prepared env m s1) b reads some_vertex last long
        inside ready (prepared-HasRoomFor env m s1)

  -- What the loop over the meshes leaves
  record IsAdded (old : List V) (gs : List Face) (o : Option (State V B)) : Type 0 where
    last_vertex : ℕ
    result : State V B
    succeeds : o ≡ some result
    next : IsNext env old last_vertex gs [] result

  add_mappings-IsAdded :
      (old : List V) (v : ℕ) (ms : List (Mapping B)) (faces gs : List Face) (s : State V B)
      → IsBounded env old
      → Reads env old
      → IsLaid env (length old) v ms faces
      → IsNext env old v gs faces s
      → IsAdded old (reverse_onto faces gs) (add_mappings env ms s)
  unfolding add_mappings
  add_mappings-IsAdded old v _ _ gs s b reads no_more h = record {
    last_vertex = v;
    result = s;
    succeeds = refl;
    next = h;
  }
  add_mappings-IsAdded old v _ _ gs s b reads
        (laid {ms = ms} {rest = rest} m fs from some_vertex last long inside laid') h =
      let c =
        add_mapping-Cuts old fs gs rest m s b reads (omega arith) last long
          (subst (λ w. All (InMesh env w m.vert_to) fs) (sym from) inside) (rw from h) in
      let r =
        add_mappings-IsAdded old m.vert_to ms rest (reverse_onto fs gs) c.result b reads laid'
          c.next in
      rw (add_mappings, c.succeeds, reverse_onto-append fs rest gs) r

  -- What the vertices show that are in place, the whole buffer shows.
  placed-Draws :
      (old done : List V) (v : ℕ) (ms : List (Mapping B)) (fs gs : List Face) (s : State V B)
      → IsPlaced env old v done s
      → Draws env done ms fs gs
      → Draws env s.new_vertices ms fs gs
  placed-Draws old done v ms fs gs s p h =
      rw p.vertices_placed (Draws-append env done (drop v old) ms fs gs h)

  finish_last-Draws :
      (old done : List V) (v : ℕ) (gs : List Face) (s : State V B)
      → IsPlaced env old v done s
      → IsBetween env done gs s
      → Draws env
          (finish_last env s).new_vertices
          (finish_last env s).new_mappings
          (finish_last env s).new_faces
          gs
  unfolding finish_last finish_sub_mesh
  finish_last-Draws old done v gs s p (closed e no_vertex h) =
      if-cases (λ s'. Draws env s'.new_vertices s'.new_mappings s'.new_faces gs)
        (s.sub_vertices == 0) s _ (λ _. placed-Draws old done v s.new_mappings s.new_faces gs s p h)
        (λ e'. absurd (ground (arith, e', no_vertex)))
  finish_last-Draws old done v gs s p (still_open o some_vertex) =
      let h =
        Opens-finish env done o.from s.sub_vertices s.sub_faces s.new_mappings s.new_faces gs s.bbox
          o.drawn in
      if-cases (λ s'. Draws env s'.new_vertices s'.new_mappings s'.new_faces gs)
        (s.sub_vertices == 0) s _ (λ e. absurd (ground (arith, e, some_vertex)))
        (λ _.
          placed-Draws old done v
            (on_back (finish_mapping env s.bbox s.sub_vertices s.sub_faces) s.new_mappings)
            s.new_faces gs s p h)

  -- Let the old meshes lie one behind the other within the old vertices, each with at least one vertex, and let the
  -- faces be theirs, inside their meshes and of at most maxVertices corners; let maxVertices and the number of old
  -- vertices be below 2 ^ 32, let maxFaces not be 0, and let the environment read the old vertices. Then
  -- performSplitting succeeds, and the new sub meshes draw the old faces in their order: each
  -- sub mesh is within the limits of vertices and faces and ends where or behind where it begins, each index of its
  -- faces is below its number of vertices, and at that index behind its first vertex stands the vertex that the old
  -- face has there.
  pub perform_splitting-Draws :
      (old : List V) (ms : List (Mapping B)) (faces : List Face)
      → IsBounded env old
      → Reads env old
      → IsLaid env (length old) 0 ms faces
      → (s : State V B) × (perform_splitting env old faces ms ≡ some s)
        × Draws env s.new_vertices s.new_mappings s.new_faces (reverse_onto faces [])
  unfolding perform_splitting
  perform_splitting-Draws old ms faces b reads laid' =
      let start-IsNext : IsNext env old 0 [] faces (start env old faces) = record {
        done = [];
        placed = record { vertices_placed = refl; counted = refl; faces_counted = refl };
        between = closed refl refl nothing;
        rest_left = refl;
      } in
      let r =
        add_mappings-IsAdded old 0 ms faces [] (start env old faces) b reads laid' start-IsNext in
      (
        finish_last env r.result,
        rw r.succeeds refl,
        finish_last-Draws old r.next.done r.last_vertex (reverse_onto faces []) r.result
            r.next.placed r.next.between,
      )
