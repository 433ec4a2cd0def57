-- ===== src/Reorganiser/Prepared.antt =====
-- The sub mesh that a mesh is added to, in performSplitting of
-- bouncer/src/repo/manipulator/modelutility/repo_mesh_map_reorganiser.cpp.
use drepobouncer.Prelude.{
  ℕ, ◌+◌, ◌-◌, ◌≤◌, ◌≡◌, refl, true, false, List, if◌then◌else◌, arith, if-cases,
}
use drepobouncer.Reorganiser.{
  Mapping, Face, Env, State, close_sub_mesh, open_sub_mesh, needs_sub_mesh, is_large,
  start_sub_mesh, finish_sub_mesh,
}
use drepobouncer.Reorganiser.Drawn.{Draws, Opens-finish, Draws-open}
use drepobouncer.Reorganiser.Laid.{IsPlaced, IsOpen, IsBetween, closed, still_open}

module _ {V B : Type 0} (env : Env V B) where
  -- A mesh whose vertices begin at v can be added.
  pub record IsReady (old : List V) (v : ℕ) (done : List V) (gs left : List Face) (s : State V B)
      : Type 0 where
    pub placed : IsPlaced env old v done s
    pub opens : IsOpen env done gs s
    pub left_over : s.old_faces ≡ left

  -- All sub meshes are finished.
  pub record IsClosed (old : List V) (v : ℕ) (done : List V) (gs left : List Face) (s : State V B)
      : Type 0 where
    pub placed : IsPlaced env old v done s
    pub drawn : Draws env done s.new_mappings s.new_faces gs
    pub left_over : s.old_faces ≡ left

  close_sub_mesh-IsClosed :
      (old : List V) (v : ℕ) (done : List V) (gs left : List Face) (s : State V B)
      → IsPlaced env old v done s
      → IsBetween env done gs s
      → s.old_faces ≡ left
      → IsClosed old v done gs left (close_sub_mesh env s)
  unfolding close_sub_mesh finish_sub_mesh
  close_sub_mesh-IsClosed old v done gs left s p (closed e no_vertex h) over =
      if-cases (IsClosed old v done gs left) s.finished s _
        (λ _. record { placed = p; drawn = h; left_over = over }) (λ e'. absurd (cc (e, e')))
  close_sub_mesh-IsClosed old v done gs left s p (still_open o some_vertex) over =
      let h =
        Opens-finish env done o.from s.sub_vertices s.sub_faces s.new_mappings s.new_faces gs s.bbox
          o.drawn in
      if-cases (IsClosed old v done gs left) s.finished s _ (λ e. absurd (cc (e, o.unfinished)))
        (λ _. record {
          placed = record {
            vertices_placed = p.vertices_placed;
            counted = p.counted;
            faces_counted = p.faces_counted;
          };
          drawn = h;
          left_over = over;
        })

  open_sub_mesh-IsReady :
      (old : List V) (v : ℕ) (done : List V) (gs left : List Face) (s : State V B)
      → IsPlaced env old v done s
      → IsBetween env done gs s
      → s.old_faces ≡ left
      → IsReady old v done gs left (open_sub_mesh env s)
  unfolding open_sub_mesh start_sub_mesh
  open_sub_mesh-IsReady old v done gs left s p h over =
      let s1 = close_sub_mesh env s in
      let c = close_sub_mesh-IsClosed old v done gs left s p h over in
      record {
        placed = record {
          vertices_placed = c.placed.vertices_placed;
          counted = c.placed.counted;
          faces_counted = c.placed.faces_counted;
        };
        opens = record {
          from = s1.total_vertices;
          ends = omega arith;
          unfinished = refl;
          drawn =
              Draws-open env done s1.total_vertices s1.new_mappings s1.new_faces gs s1.total_faces
                c.placed.faces_counted c.drawn;
        };
        left_over = c.left_over;
      }

  -- The sub mesh that is open has room for the mesh, or it is empty and the mesh is too large.
  pub record HasRoomFor (m : Mapping B) (s : State V B) : Type 0 where
    pub small :
        is_large env m ≡ false
        → (s.sub_vertices + (m.vert_to - m.vert_from) ≤ env.max_vertices)
          × (s.sub_faces + (m.tri_to - m.tri_from) ≤ env.max_faces)
    pub large : is_large env m ≡ true → (s.sub_vertices ≡ 0) × (s.sub_faces ≡ 0)

  abbrev pub prepared : Mapping B → State V B → State V B
  prepared m s = if needs_sub_mesh env m s then open_sub_mesh env s else s

  open_sub_mesh-HasRoomFor : (m : Mapping B) (s : State V B) → HasRoomFor m (open_sub_mesh env s)
  unfolding open_sub_mesh start_sub_mesh is_large
  open_sub_mesh-HasRoomFor m s = record {
    small = λ e. (ground (arith, e), ground (arith, e));
    large = λ e. (refl, refl);
  }

  pub needs_sub_mesh-HasRoomFor :
      (m : Mapping B) (s : State V B) → needs_sub_mesh env m s ≡ false → HasRoomFor m s
  unfolding needs_sub_mesh is_large
  needs_sub_mesh-HasRoomFor m s none_needed = record {
    small = λ e. (ground (arith, none_needed), ground (arith, none_needed));
    large = λ e. absurd (ground (arith, none_needed, e));
  }

  pub needs_sub_mesh-finished :
      (m : Mapping B) (s : State V B) → needs_sub_mesh env m s ≡ false → s.finished ≡ false
  unfolding needs_sub_mesh
  needs_sub_mesh-finished m s e = ground (arith, e)

  pub prepared-HasRoomFor : (m : Mapping B) (s : State V B) → HasRoomFor m (prepared m s)
  prepared-HasRoomFor m s =
      if-cases (HasRoomFor m) (needs_sub_mesh env m s) (open_sub_mesh env s) s
        (λ _. open_sub_mesh-HasRoomFor m s) (needs_sub_mesh-HasRoomFor m s)

  pub prepared-IsReady :
      (old : List V) (v : ℕ) (done : List V) (gs left : List Face) (m : Mapping B) (s : State V B)
      → IsPlaced env old v done s
      → IsBetween env done gs s
      → s.old_faces ≡ left
      → IsReady old v done gs left (prepared m s)
  prepared-IsReady old v done gs left m s p (closed e no_vertex h) over =
      if-cases (IsReady old v done gs left) (needs_sub_mesh env m s) (open_sub_mesh env s) s
        (λ _. open_sub_mesh-IsReady old v done gs left s p (closed e no_vertex h) over)
        (λ none_needed. absurd (cc (e, needs_sub_mesh-finished m s none_needed)))
  prepared-IsReady old v done gs left m s p (still_open o some_vertex) over =
      if-cases (IsReady old v done gs left) (needs_sub_mesh env m s) (open_sub_mesh env s) s
        (λ _. open_sub_mesh-IsReady old v done gs left s p (still_open o some_vertex) over)
        (λ _. record { placed = p; opens = o; left_over = over })
