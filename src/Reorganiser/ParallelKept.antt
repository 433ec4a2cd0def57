-- ===== src/Reorganiser/ParallelKept.antt =====
-- The serialised faces and the identifiers through performSplitting of
-- bouncer/src/repo/manipulator/modelutility/repo_mesh_map_reorganiser.cpp.
use drepobouncer.Prelude.{
  ◌+◌, length, reverse_onto, ℕ, ◌≡◌, refl, true, false, List, [], ◌∷◌, Option, none, some, ◌==◌,
  arith, if-cases, IfSome, IfSome-bind, IfSome-at, subst,
}
use drepobouncer.Prelude.Map
use drepobouncer.Prelude.Map.{Map}
use drepobouncer.Reorganiser.{
  Mapping, Face, Env, State, finish_sub_mesh, start_sub_mesh, new_mat_map_entry, add_small_mesh,
  open_sub_mesh, needs_sub_mesh, is_large,
}
use drepobouncer.Reorganiser.Drawn.{Draws, nothing, piece}
use drepobouncer.Reorganiser.Laid.{IsBounded, Reads, IsLaid}
use drepobouncer.Reorganiser.Splitting.{perform_splitting-Draws}
use drepobouncer.Reorganiser.Perform.{
  add_opened, add_mapping, add_mappings, finish_last, finish_if, start, perform_splitting,
}
use drepobouncer.Reorganiser.Prepared.{prepared, needs_sub_mesh-finished, needs_sub_mesh-HasRoomFor}
use drepobouncer.Reorganiser.Parallel.{
  serialise_all, Ids, OpenIds, IsParallelOpen, IsParallelClosed, IsParallel, all_closed, last_open,
  finish-Ids, empty-Ids, add_small_mesh-Parallel,
}
use drepobouncer.Reorganiser.ParallelCut.{
  IsParallelCut, split_large_mesh-Parallel, open_sub_mesh-Parallel,
}

module _ {V B : Type 0} (env : Env V B) where
  -- The sub mesh that a mesh is added to is open, and empty for a large mesh.
  record IsPrepared (m : Mapping B) (s : State V B) : Type 0 where
    opens : IsParallelOpen env s
    empty : is_large env m ≡ true → IsParallelCut env s

  kept-IsPrepared :
      (m : Mapping B) (s : State V B)
      → IsParallel env s
      → needs_sub_mesh env m s ≡ false
      → IsPrepared m s
  kept-IsPrepared m s (all_closed e no_vertex h) none_needed =
      absurd (cc (e, needs_sub_mesh-finished env m s none_needed))
  kept-IsPrepared m s (last_open h) none_needed = record {
    opens = h;
    empty = λ large.
        let no_vertex = ((needs_sub_mesh-HasRoomFor env m s none_needed).large large).0 in
        record {
          serialised = h.serialised;
          ids = subst (λ n. OpenIds env n s.id_map_buf s.new_mappings) no_vertex h.ids;
          no_vertex = no_vertex;
        };
  }

  opened-IsPrepared :
      (m : Mapping B) (s : State V B) → IsParallel env s → IsPrepared m (open_sub_mesh env s)
  unfolding open_sub_mesh start_sub_mesh
  opened-IsPrepared m s h =
      let c = open_sub_mesh-Parallel env s h in
      record {
        opens = record { serialised = c.serialised; unfinished = refl; ids = c.ids };
        empty = λ _. c;
      }

  prepared-IsPrepared :
      (m : Mapping B) (s : State V B) → IsParallel env s → IsPrepared m (prepared env m s)
  prepared-IsPrepared m s h =
      if-cases (IsPrepared m) (needs_sub_mesh env m s) (open_sub_mesh env s) s
        (λ _. opened-IsPrepared m s h) (kept-IsPrepared m s h)

  add_opened-Parallel :
      (m : Mapping B) (s : State V B)
      → IsPrepared m s
      → IfSome (IsParallel env) (add_opened env m s)
  unfolding add_opened new_mat_map_entry
  add_opened-Parallel m s h =
      if-cases (IfSome (IsParallel env)) (is_large env m) _ (some (add_small_mesh env m s))
        (λ large.
          let c = h.empty large in
          split_large_mesh-Parallel env m (new_mat_map_entry env m s.total_vertices s.total_faces s)
            (record { serialised = c.serialised; ids = c.ids; no_vertex = c.no_vertex }))
        (λ _. last_open (add_small_mesh-Parallel env m s h.opens))

  split_map-IsParallel :
      (entries : Map (List ℕ)) (s : State V B)
      → IsParallel env s
      → IsParallel env (record s { split_map = entries })
  split_map-IsParallel entries s (all_closed e no_vertex h) =
      all_closed e no_vertex (record { serialised = h.serialised; ids = h.ids })
  split_map-IsParallel entries s (last_open h) =
      last_open (record { serialised = h.serialised; unfinished = h.unfinished; ids = h.ids })

  add_mapping-Parallel :
      (m : Mapping B) (s : State V B)
      → IsParallel env s
      → IfSome (IsParallel env) (add_mapping env m s)
  unfolding add_mapping
  add_mapping-Parallel m s h =
      let s1 : State V B = record s { split_map = Map.insert m.mesh_id [] s.split_map } in
      add_opened-Parallel m (prepared env m s1)
        (prepared-IsPrepared m s1 (split_map-IsParallel s1.split_map s h))

  add_mappings-Parallel :
      (ms : List (Mapping B)) (s : State V B)
      → IsParallel env s
      → IfSome (IsParallel env) (add_mappings env ms s)
  unfolding add_mappings
  add_mappings-Parallel [] s h = h
  add_mappings-Parallel (m ∷ ms) s h =
      IfSome-bind (IsParallel env) (IsParallel env) (add_mapping env m s) (add_mappings env ms)
        (add_mapping-Parallel m s h) (add_mappings-Parallel ms)

  finish_last-Parallel :
      (s : State V B) → IsParallel env s → IsParallelClosed env (finish_last env s)
  unfolding finish_last finish_sub_mesh
  finish_last-Parallel s (all_closed e no_vertex h) =
      if-cases (IsParallelClosed env) (s.sub_vertices == 0) s _ (λ _. h)
        (λ e'. absurd (ground (arith, e', no_vertex)))
  finish_last-Parallel s (last_open h) =
      if-cases (IsParallelClosed env) (s.sub_vertices == 0) s _
        (λ e'. record {
          serialised = h.serialised;
          ids =
              empty-Ids env s.id_map_buf s.new_mappings
                (subst (λ n. OpenIds env n s.id_map_buf s.new_mappings) (ground (arith, e')) h.ids);
        })
        (λ _. record {
          serialised = h.serialised;
          ids = finish-Ids env s.bbox s.sub_vertices s.sub_faces s.id_map_buf s.new_mappings h.ids;
        })

  finish_if-Parallel :
      (o : Option (State V B))
      → IfSome (IsParallel env) o
      → IfSome (IsParallelClosed env) (finish_if env o)
  finish_if-Parallel none h = tt
  finish_if-Parallel (some s) h = finish_last-Parallel s h

  pub splitting-Ids :
      (old : List V) (faces : List Face) (ms : List (Mapping B)) (s : State V B)
      → perform_splitting env old faces ms ≡ some s
      → (s.serialised_faces ≡ serialise_all s.new_faces) × Ids env s.id_map_buf s.new_mappings
  unfolding perform_splitting
  splitting-Ids old faces ms s e =
      let o = add_mappings env ms (start env old faces) in
      let h =
        add_mappings-Parallel ms (start env old faces)
          (all_closed refl refl (record { serialised = refl; ids = tt })) in
      let k = IfSome-at (IsParallelClosed env) (finish_if env o) s (finish_if-Parallel o h) e in
      (k.serialised, k.ids)

  -- A buffer for each mapping: it reaches from the first vertex of the mapping to behind its last.
  abbrev pub Buffers : List (List ℕ) → List (Mapping B) → Type 0
  Buffers [] [] = Unit
  Buffers [] (m ∷ ms) = ⊥
  Buffers (buf ∷ bufs) [] = ⊥
  Buffers (buf ∷ bufs) (m ∷ ms) = (m.vert_from + length buf ≡ m.vert_to) × Buffers bufs ms

  Ids-Buffers :
      (vs : List V) (bufs : List (List ℕ)) (ms : List (Mapping B)) (fs gs : List Face)
      → Draws env vs ms fs gs
      → Ids env bufs ms
      → Buffers bufs ms
  Ids-Buffers vs [] _ _ _ nothing h = tt
  Ids-Buffers vs (buf ∷ bufs) _ _ _ nothing h = absurd h
  Ids-Buffers vs [] _ _ _ (piece m fs gs a b up c d same before) h = absurd h
  Ids-Buffers vs (buf ∷ bufs) _ _ _ (piece {ms} {fs'} {gs'} m fs gs a b up c d same before) h =
      (omega (arith, up, h.0), Ids-Buffers vs bufs ms fs' gs' before h.1)

  -- Let the old meshes lie one behind the other within the old vertices, each with at least one vertex, and let the
  -- faces be theirs, inside their meshes and of at most maxVertices corners; let maxVertices and the number of old
  -- vertices be below 2 ^ 32, let maxFaces not be 0, and let the environment read the old vertices. Then
  -- performSplitting succeeds, the serialised faces are those of the new faces in their order, and each new mapping has
  -- a buffer of identifiers with one identifier for each vertex from its first to its last.
  pub perform_splitting-Ids :
      (old : List V) (ms : List (Mapping B)) (faces : List Face)
      → IsBounded env old
      → Reads env old
      → IsLaid env (length old) 0 ms faces
      → (s : State V B) × (perform_splitting env old faces ms ≡ some s)
        × (s.serialised_faces ≡ serialise_all s.new_faces)
        × Buffers s.id_map_buf s.new_mappings
  perform_splitting-Ids old ms faces b reads laid' =
      let (s, e, drawn) = perform_splitting-Draws env old ms faces b reads laid' in
      let (serialised, ids) = splitting-Ids old faces ms s e in
      (
        s,
        e,
        serialised,
        Ids-Buffers s.new_vertices s.id_map_buf s.new_mappings s.new_faces (reverse_onto faces [])
            drawn ids,
      )
