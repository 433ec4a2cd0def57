-- ===== src/Multipart/Cutting.antt =====
-- splitMesh of bouncer/src/repo/manipulator/modeloptimizer/repo_optimizer_multipart.cpp cuts off good branches.
use drepobouncer.Prelude.{
  ℕ, ◌+◌, ◌≤◌, ◌≡◌, Bool, List, [], ◌∷◌, ◌++◌, Option, none, some, map, length, All, All-append,
  All-map, count, count-append, IfSome, if-cases, arith,
}
use drepobouncer.Multipart.{
  Bvh, leaf, branch, Front, fits, move_up, combined, combine, at_branch, process, with_left_over,
  split_mesh, create_supermesh_from_branch,
}
use drepobouncer.Multipart.Reindexed.{AllShow, map-AllShow}
use drepobouncer.Multipart.Fronts.{
  primitives_of, cut_primitives, IsGood, LeavesFit, unique_vertices-HasAll, combined-HasAll,
  IsProcessed, left_of, count-cut,
}

module _ (max_vertex_count : ℕ) (face_at : ℕ → List ℕ) where
  move_up-IsProcessed :
      (f : Front) (before : List Front) (primitives : List ℕ)
      → IsGood max_vertex_count face_at f
      → All (IsGood max_vertex_count face_at) before
      → ((p : ℕ → Bool)
          → count p f.primitives + count p (cut_primitives before) ≡ count p primitives)
      → IsProcessed max_vertex_count face_at primitives (move_up max_vertex_count face_at f before)
  move_up-IsProcessed f before primitives good goods same =
      if-cases (IsProcessed max_vertex_count face_at primitives) (fits max_vertex_count face_at f) _
        _ (λ _. record { front_good = good; cut_good = goods; kept = same })
        (λ _. record {
          front_good = tt;
          cut_good = All-append (IsGood max_vertex_count face_at) before (f ∷ []) goods (good, tt);
          kept = λ p. omega (
            arith,
            same p,
            count-cut max_vertex_count face_at p before (f ∷ []),
            count-append p f.primitives [],
          );
        })

  combine-IsProcessed :
      (l r : Front) (before : List Front) (primitives : List ℕ)
      → IsGood max_vertex_count face_at l
      → IsGood max_vertex_count face_at r
      → All (IsGood max_vertex_count face_at) before
      → ((p : ℕ → Bool)
          → (count p l.primitives + count p r.primitives) + count p (cut_primitives before)
            ≡ count p primitives)
      → IsProcessed max_vertex_count face_at primitives
          (combine max_vertex_count face_at l r before)
  combine-IsProcessed l r before primitives hl hr goods same =
      if-cases (IsProcessed max_vertex_count face_at primitives)
        (fits max_vertex_count face_at (combined max_vertex_count face_at l r)) _ _
        (λ fitting. record {
          front_good = record {
            has_all = combined-HasAll max_vertex_count face_at l r hl.has_all hr.has_all;
            small = ground (arith, fitting);
          };
          cut_good = goods;
          kept = λ p. omega (arith, same p, count-append p l.primitives r.primitives);
        })
        (λ _. record {
          front_good = tt;
          cut_good =
              All-append (IsGood max_vertex_count face_at) before (l ∷ r ∷ []) goods (hl, (hr, tt));
          kept = λ p. omega (
            arith,
            same p,
            count-cut max_vertex_count face_at p before (l ∷ r ∷ []),
            count-append p l.primitives (r.primitives ++ []),
            count-append p r.primitives [],
          );
        })

  at_branch-IsProcessed :
      (fl fr : Option Front) (before : List Front) (primitives : List ℕ)
      → IfSome (IsGood max_vertex_count face_at) fl
      → IfSome (IsGood max_vertex_count face_at) fr
      → All (IsGood max_vertex_count face_at) before
      → ((p : ℕ → Bool)
          → (count p (left_of max_vertex_count face_at fl)
                + count p (left_of max_vertex_count face_at fr))
              + count p (cut_primitives before)
            ≡ count p primitives)
      → IsProcessed max_vertex_count face_at primitives
          (at_branch max_vertex_count face_at fl fr before)
  unfolding at_branch
  at_branch-IsProcessed none none before primitives hl hr goods same = record {
    front_good = tt;
    cut_good = goods;
    kept = λ p. omega (arith, same p);
  }
  at_branch-IsProcessed (some l) none before primitives hl hr goods same =
      move_up-IsProcessed l before primitives hl goods (λ p. omega (arith, same p))
  at_branch-IsProcessed none (some r) before primitives hl hr goods same =
      move_up-IsProcessed r before primitives hr goods (λ p. omega (arith, same p))
  at_branch-IsProcessed (some l) (some r) before primitives hl hr goods same =
      combine-IsProcessed l r before primitives hl hr goods same

  process-IsProcessed :
      (t : Bvh)
      → LeavesFit max_vertex_count face_at t
      → IsProcessed max_vertex_count face_at (primitives_of t) (process max_vertex_count face_at t)
  unfolding process
  process-IsProcessed (leaf primitives) fit = record {
    front_good = record {
      has_all = unique_vertices-HasAll max_vertex_count face_at primitives;
      small = fit;
    };
    cut_good = tt;
    kept = λ p. omega arith;
  }
  process-IsProcessed (branch l r) fit =
      let pl = process max_vertex_count face_at l in
      let pr = process max_vertex_count face_at r in
      let hl = process-IsProcessed l fit.0 in
      let hr = process-IsProcessed r fit.1 in
      at_branch-IsProcessed pl.front pr.front (pl.cut ++ pr.cut)
        (primitives_of l ++ primitives_of r) hl.front_good hr.front_good
        (All-append (IsGood max_vertex_count face_at) pl.cut pr.cut hl.cut_good hr.cut_good)
        (λ p. omega (
          arith,
          hl.kept p,
          hr.kept p,
          count-cut max_vertex_count face_at p pl.cut pr.cut,
          count-append p (primitives_of l) (primitives_of r),
        ))

  -- A supermesh within the limit that shows the faces of its branch
  abbrev pub IsMade : Front → Type 0
  IsMade f =
      let m = create_supermesh_from_branch max_vertex_count face_at f in
      (length m.vertices ≤ max_vertex_count) × AllShow m.vertices m.faces (map face_at f.primitives)

  IsGood-IsMade : (f : Front) → IsGood max_vertex_count face_at f → IsMade f
  unfolding create_supermesh_from_branch
  IsGood-IsMade f h = (h.small, map-AllShow f.vertices face_at f.primitives h.has_all)

  left-over :
      (f : Option Front) (cut : List Front) (primitives : List ℕ)
      → IfSome (IsGood max_vertex_count face_at) f
      → All (IsGood max_vertex_count face_at) cut
      → ((p : ℕ → Bool)
          → count p (left_of max_vertex_count face_at f) + count p (cut_primitives cut)
            ≡ count p primitives)
      → ((p : ℕ → Bool)
          → count p (cut_primitives (with_left_over max_vertex_count face_at f cut))
            ≡ count p primitives)
        × All IsMade (with_left_over max_vertex_count face_at f cut)
  left-over none cut primitives h goods same = (
    λ p. omega (arith, same p),
    All-map (IsGood max_vertex_count face_at) IsMade IsGood-IsMade cut goods,
  )
  left-over (some f) cut primitives h goods same = (
    λ p. omega (
      arith,
      same p,
      count-cut max_vertex_count face_at p cut (f ∷ []),
      count-append p f.primitives [],
    ),
    All-map (IsGood max_vertex_count face_at) IsMade IsGood-IsMade (cut ++ f ∷ [])
        (All-append (IsGood max_vertex_count face_at) cut (f ∷ []) goods (h, tt)),
  )

  -- Where the tree has a branch and each of its leaves is within the limit of vertices: each face of the mesh is in
  -- as many of the branches that are cut off as it is in leaves, and the supermesh that is made of a branch is within
  -- the limit and shows the faces of the branch: at each index of its faces stands the vertex that the face of the
  -- mesh has there.
  pub split_mesh_lem :
      (l r : Bvh)
      → LeavesFit max_vertex_count face_at (branch l r)
      → ((p : ℕ → Bool)
          → count p (cut_primitives (split_mesh max_vertex_count face_at (branch l r)))
            ≡ count p (primitives_of (branch l r)))
        × All IsMade (split_mesh max_vertex_count face_at (branch l r))
  unfolding split_mesh
  split_mesh_lem l r fit =
      let o = process max_vertex_count face_at (branch l r) in
      let h = process-IsProcessed (branch l r) fit in
      left-over o.front o.cut (primitives_of (branch l r)) h.front_good h.cut_good h.kept
