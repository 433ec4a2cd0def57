-- ===== src/Reorganiser/ParallelCut.antt =====
-- The serialised faces and the identifiers through splitLargeMesh of
-- bouncer/src/repo/manipulator/modelutility/repo_mesh_map_reorganiser.cpp.
use drepobouncer.Prelude.{
  ℕ, zero, suc, ◌-◌, ◌≡◌, refl, ap, Bool, true, false, List, [], ◌∷◌, Option, none, some, arith,
  if-cases, IfSome, IfSome-bind,
}
use drepobouncer.Reorganiser.{
  Mapping, Face, Env, State, serialise, finish_sub_mesh, start_sub_mesh, new_mat_map_entry,
  complete_last, update_id_map_array, push_split, close_sub_mesh, open_sub_mesh,
}
use drepobouncer.Reorganiser.Large.{
  Large, next_sub_mesh, is_full, make_room, push_face, large_round, large_rounds, re_index_face,
  finish_large, split_large_mesh, new_large, last_from,
}
use drepobouncer.Reorganiser.Perform.{after_large}
use drepobouncer.Reorganiser.Parallel.{
  serialise_all, OpenIds, IsParallelClosed, IsParallel, all_closed, last_open, finish-Ids,
  update-OpenIds,
}

module _ {V B : Type 0} (env : Env V B) where
  -- The large mesh is added to an empty sub mesh.
  pub record IsParallelCut (s : State V B) : Type 0 where
    pub serialised : s.serialised_faces ≡ serialise_all s.new_faces
    pub ids : OpenIds env 0 s.id_map_buf s.new_mappings
    pub no_vertex : s.sub_vertices ≡ 0

  next_sub_mesh-Parallel :
      (m : Mapping B) (first : Bool) (l : Large V B) (s : State V B)
      → IsParallelCut s
      → IsParallelCut (next_sub_mesh env m first l s).1
  unfolding next_sub_mesh push_split update_id_map_array finish_sub_mesh complete_last
      new_mat_map_entry start_sub_mesh
  next_sub_mesh-Parallel m true l s h = record {
    serialised = h.serialised;
    ids = (
      refl,
      refl,
      finish-Ids env l.bbox l.vertices l.faces _ s.new_mappings (
          update-OpenIds env 0 l.vertices l.vertices s.id_map_idx s.id_map_buf s.new_mappings
            (omega arith) h.ids),
    );
    no_vertex = h.no_vertex;
  }
  next_sub_mesh-Parallel m false l s h = record {
    serialised = h.serialised;
    ids = (
      refl,
      refl,
      finish-Ids env l.bbox l.vertices l.faces _ s.new_mappings (
          update-OpenIds env 0 l.vertices l.vertices s.id_map_idx s.id_map_buf s.new_mappings
            (omega arith) h.ids),
    );
    no_vertex = h.no_vertex;
  }

  make_room-Parallel :
      (m : Mapping B) (first : Bool) (g : Face) (l : Large V B) (s : State V B)
      → IsParallelCut s
      → IsParallelCut (make_room env m first g l s).1
  unfolding make_room
  make_room-Parallel m first g l s h =
      if-cases (λ r. IsParallelCut r.1) (is_full env g l) (next_sub_mesh env m first l s) (l, s)
        (λ _. next_sub_mesh-Parallel m first l s h) (λ _. h)

  abbrev CutPair : Large V B × State V B → Type 0
  CutPair r = IsParallelCut r.1

  push_face-Parallel :
      (rest : List Face) (s : State V B) (o : Option (Face × Large V B))
      → IsParallelCut s
      → IfSome CutPair (push_face env rest s o)
  unfolding push_face
  push_face-Parallel rest s none h = tt
  push_face-Parallel rest s (some (f, l)) h = record {
    serialised = ap (serialise f) h.serialised;
    ids = h.ids;
    no_vertex = h.no_vertex;
  }

  large_rounds-Parallel :
      (m : Mapping B) (first : Bool) (n : ℕ) (gs : List Face) (r : Large V B × State V B)
      → IsParallelCut r.1
      → IfSome CutPair (large_rounds env m first n gs r)
  unfolding large_rounds large_round
  large_rounds-Parallel m first zero gs r h = h
  large_rounds-Parallel m first (suc n) [] r h = h
  large_rounds-Parallel m first (suc n) (g ∷ gs) (l, s) h =
      let (l1, s1) = make_room env m first g l s in
      let one =
        push_face-Parallel gs s1 (re_index_face env g l1) (make_room-Parallel m first g l s h) in
      IfSome-bind CutPair CutPair (push_face env gs s1 (re_index_face env g l1))
        (large_rounds env m false n gs) one (large_rounds-Parallel m false n gs)

  finish_large-Parallel :
      (m : Mapping B) (from : ℕ) (r : Large V B × State V B)
      → IsParallelCut r.1
      → IsParallelClosed env (finish_large env m from r)
        × ((finish_large env m from r).sub_vertices ≡ 0)
  unfolding finish_large update_id_map_array push_split finish_sub_mesh complete_last
  finish_large-Parallel m from (l, s) h = (
    record {
      serialised = h.serialised;
      ids = finish-Ids env l.bbox l.vertices l.faces _ s.new_mappings (
          update-OpenIds env 0 l.vertices l.vertices s.id_map_idx s.id_map_buf s.new_mappings
            (omega arith) h.ids);
    },
    h.no_vertex,
  )

  abbrev Closed : State V B → Type 0
  Closed s = IsParallelClosed env s × (s.sub_vertices ≡ 0)

  after_large-Parallel :
      (o : Option (State V B)) → IfSome Closed o → IfSome (IsParallel env) (after_large env o)
  after_large-Parallel none h = tt
  after_large-Parallel (some s) (h, no_vertex) =
      all_closed refl no_vertex (record { serialised = h.serialised; ids = h.ids })

  pub split_large_mesh-Parallel :
      (m : Mapping B) (s : State V B)
      → IsParallelCut s
      → IfSome (IsParallel env) (after_large env (split_large_mesh env m s))
  unfolding split_large_mesh
  split_large_mesh-Parallel m s h = after_large-Parallel (split_large_mesh env m s) (
      IfSome-bind CutPair Closed
        (large_rounds env m true (m.tri_to - m.tri_from) s.old_faces (new_large env, s))
        (λ r. some (finish_large env m (last_from env s.new_mappings) r))
        (large_rounds-Parallel m true (m.tri_to - m.tri_from) s.old_faces (new_large env, s) h)
        (finish_large-Parallel m (last_from env s.new_mappings)))

  close_sub_mesh-Parallel :
      (s : State V B) → IsParallel env s → IsParallelClosed env (close_sub_mesh env s)
  unfolding close_sub_mesh finish_sub_mesh
  close_sub_mesh-Parallel s (all_closed e no_vertex h) =
      if-cases (IsParallelClosed env) s.finished s _ (λ _. h) (λ e'. absurd (cc (e, e')))
  close_sub_mesh-Parallel s (last_open h) =
      if-cases (IsParallelClosed env) s.finished s _ (λ e'. absurd (cc (h.unfinished, e')))
        (λ _. record {
          serialised = h.serialised;
          ids = finish-Ids env s.bbox s.sub_vertices s.sub_faces s.id_map_buf s.new_mappings h.ids;
        })

  pub open_sub_mesh-Parallel :
      (s : State V B) → IsParallel env s → IsParallelCut (open_sub_mesh env s)
  unfolding open_sub_mesh start_sub_mesh
  open_sub_mesh-Parallel s h =
      let c = close_sub_mesh-Parallel s h in
      record { serialised = c.serialised; ids = (refl, refl, c.ids); no_vertex = refl }
