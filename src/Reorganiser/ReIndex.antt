-- ===== src/Reorganiser/ReIndex.antt =====
-- The re-indexing of one face in splitLargeMesh of
-- bouncer/src/repo/manipulator/modelutility/repo_mesh_map_reorganiser.cpp.
use drepobouncer.Prelude.{
  ℕ, suc, ◌+◌, ◌^◌, ◌≤◌, ◌<◌, ◌≡◌, refl, sym, ap, ◌∙◌, List, [], ◌∷◌, ◌++◌, some, length, get_elem?,
  get_elem?-append, get_elem?-behind, length-append, arith, append-nil, append_assoc, Option-cases,
  inl, inr,
}
use drepobouncer.Prelude.Map
use drepobouncer.Reorganiser.{Face, Env, to_u32, update_bounding_boxes}
use drepobouncer.Reorganiser.Large.{Large, re_index, in_range, re_index_face}
use drepobouncer.Reorganiser.Drawn.{Same}

module _ {V B : Type 0} (env : Env V B) where
  -- The map finds the vertices of the sub mesh that begins at `from`, behind the vertices `done` of earlier meshes.
  pub record IsIndexed (done : List V) (from : ℕ) (l : Large V B) : Type 0 where
    pub ends : from + l.vertices ≡ length (done ++ l.re_mapped_vertices)
    pub small : l.vertices ≤ env.max_vertices
    pub finds :
        (i j : ℕ)
        → Map.lookup i l.re_index_map ≡ some j
        → (j < l.vertices)
          × (get_elem? (done ++ l.re_mapped_vertices) (from + j) ≡ some (env.read i))

  -- What re-indexing adds: at most n vertices, behind those that are there.
  pub record Grows (n : ℕ) (l l' : Large V B) : Type 0 where
    pub added : List V
    pub added_last : l'.re_mapped_vertices ≡ l.re_mapped_vertices ++ added
    pub counted : l'.vertices ≡ l.vertices + length added
    pub at_most : length added ≤ n
    pub faces_kept : l'.faces ≡ l.faces
    pub total_kept : l'.total_vertices ≡ l.total_vertices

  Grows-refl : (n : ℕ) (l : Large V B) → Grows n l l
  Grows-refl n l = record {
    added = [];
    added_last = sym (append-nil l.re_mapped_vertices);
    counted = omega arith;
    at_most = omega arith;
    faces_kept = refl;
    total_kept = refl;
  }

  Grows-trans :
      (n n' m : ℕ) (l l1 l2 : Large V B) → n + n' ≤ m → Grows n l l1 → Grows n' l1 l2 → Grows m l l2
  Grows-trans n n' m l l1 l2 le g h =
      let both = length-append g.added h.added in
      record {
        added = g.added ++ h.added;
        added_last =
            h.added_last
            ∙ ap (λ vs. vs ++ h.added) g.added_last
            ∙ append_assoc l.re_mapped_vertices g.added h.added;
        counted = omega (arith, both, g.counted, h.counted);
        at_most = omega (arith, both, g.at_most, h.at_most);
        faces_kept = h.faces_kept ∙ g.faces_kept;
        total_kept = h.total_kept ∙ g.total_kept;
      }

  pub Grows-vertices :
      (done : List V) (n : ℕ) (l l' : Large V B) (g : Grows n l l')
      → done ++ l'.re_mapped_vertices ≡ (done ++ l.re_mapped_vertices) ++ g.added
  Grows-vertices done n l l' g =
      ap (◌++◌ done) g.added_last ∙ sym (append_assoc done l.re_mapped_vertices g.added)

  -- One corner
  record Corner (done : List V) (from i : ℕ) (l : Large V B) (r : ℕ × Large V B) : Type 0 where
    grows : Grows 1 l r.1
    indexed : IsIndexed done from r.1
    inside : r.0 < r.1.vertices
    reads : get_elem? (done ++ r.1.re_mapped_vertices) (from + r.0) ≡ some (env.read i)

  -- A vertex that is appended is found, and the others are found as before.
  appended-IsIndexed :
      (done : List V) (from i : ℕ) (l l' : Large V B)
      → IsIndexed done from l
      → suc l.vertices ≤ env.max_vertices
      → l'.re_mapped_vertices ≡ l.re_mapped_vertices ++ env.read i ∷ []
      → l'.vertices ≡ suc l.vertices
      → l'.re_index_map ≡ Map.insert i l.vertices l.re_index_map
      → IsIndexed done from l'
        × (get_elem? (done ++ l'.re_mapped_vertices) (from + l.vertices) ≡ some (env.read i))
  appended-IsIndexed done from i l l' h room e_vertices e_count e_map =
      let end : done ++ l'.re_mapped_vertices ≡ (done ++ l.re_mapped_vertices) ++ env.read i ∷ [] =
        ap (◌++◌ done) e_vertices ∙ sym (append_assoc done l.re_mapped_vertices _) in
      let at : from + l.vertices ≡ length (done ++ l.re_mapped_vertices) + 0 =
        omega (arith, h.ends) in
      let here : get_elem? (done ++ l'.re_mapped_vertices) (from + l.vertices) ≡ some (env.read i) =
        rw (end, at)
          (get_elem?-behind (done ++ l.re_mapped_vertices) (env.read i ∷ [])
            (length (done ++ l.re_mapped_vertices)) 0 refl) in
      (
        record {
          ends =
              rw (end, length-append (done ++ l.re_mapped_vertices) (env.read i ∷ []), e_count)
                (omega (arith, h.ends));
          small = omega (arith, e_count);
          finds = λ k j found.
              elim (Map.lookup-insert_cases i k l.vertices j l.re_index_map
                (rw (sym e_map) found)) [
                  | inl (e, e') ↦ (omega (arith, e', e_count), rw (e, e') here)
                  | inr old ↦ (
                    omega (arith, (h.finds k j old).0, e_count),
                    rw end (
                        get_elem?-append (done ++ l.re_mapped_vertices) (env.read i ∷ []) (from + j)
                          (env.read k) (h.finds k j old).1),
                  )
                ];
        },
        here,
      )

  re_index-Corner :
      (done : List V) (from i : ℕ) (l : Large V B)
      → env.max_vertices < 2 ^ 32
      → IsIndexed done from l
      → suc l.vertices ≤ env.max_vertices
      → Corner done from i l (re_index env i l)
  unfolding re_index
  re_index-Corner done from i l words h room =
      let fitting : to_u32 l.vertices ≡ l.vertices = omega (arith, h.small) in
      elim (Option-cases (Map.lookup i l.re_index_map)) [
        | inl e ↦
            rw (e, re_index, fitting)
              (let l' : Large V B = record l {
                re_index_map = Map.insert i l.vertices l.re_index_map;
                re_mapped_vertices = l.re_mapped_vertices ++ env.read i ∷ [];
                vertices = suc l.vertices;
                bbox = update_bounding_boxes env (env.point (env.read i)) l.bbox;
              } in
                let (indexed', here) = appended-IsIndexed done from i l l' h room refl refl refl in
                record {
                  grows = record {
                    added = env.read i ∷ [];
                    added_last = refl;
                    counted = omega arith;
                    at_most = omega arith;
                    faces_kept = refl;
                    total_kept = refl;
                  };
                  indexed = indexed';
                  inside = omega arith;
                  reads = here;
                })
        | inr (j, e) ↦
            rw (e, re_index)
              (record {
                grows = Grows-refl 1 l;
                indexed = h;
                inside = (h.finds i j e).0;
                reads = (h.finds i j e).1;
              })
      ]

  in_range-inside : (r : ℕ × Large V B) → r.0 < r.1.vertices → in_range env r ≡ some r
  unfolding in_range
  in_range-inside (j, l) h = ground (arith, h)

  re_index_face-step :
      (i j : ℕ) (g f : Face) (l l1 l2 : Large V B)
      → in_range env (re_index env i l) ≡ some (j, l1)
      → re_index_face env g l1 ≡ some (f, l2)
      → re_index_face env (i ∷ g) l ≡ some (j ∷ f, l2)
  unfolding re_index_face
  re_index_face-step i j g f l l1 l2 e1 e2 = rw (re_index_face, e1, e2) refl

  -- A face that is re-indexed
  pub record ReIndexed (done : List V) (from : ℕ) (g : Face) (l : Large V B) : Type 0 where
    pub face : Face
    pub after : Large V B
    pub succeeds : re_index_face env g l ≡ some (face, after)
    pub grows : Grows (length g) l after
    pub indexed : IsIndexed done from after
    pub same : Same env (done ++ after.re_mapped_vertices) from after.vertices face g

  pub re_index_face-ReIndexed :
      (done : List V) (from : ℕ) (g : Face) (l : Large V B)
      → env.max_vertices < 2 ^ 32
      → IsIndexed done from l
      → l.vertices + length g ≤ env.max_vertices
      → ReIndexed done from g l
  unfolding re_index_face
  re_index_face-ReIndexed done from [] l words h room = record {
    face = [];
    after = l;
    succeeds = refl;
    grows = Grows-refl 0 l;
    indexed = h;
    same = tt;
  }
  re_index_face-ReIndexed done from (i ∷ g) l words h room =
      let c = re_index-Corner done from i l words h (omega arith) in
      let (j, l1) = re_index env i l in
      let r =
        re_index_face-ReIndexed done from g l1 words c.indexed
          (omega (arith, c.grows.counted, c.grows.at_most)) in
      let all = Grows-vertices done (length g) l1 r.after r.grows in
      record {
        face = j ∷ r.face;
        after = r.after;
        succeeds =
            re_index_face-step i j g r.face l l1 r.after
              (in_range-inside (re_index env i l) c.inside) r.succeeds;
        grows =
            Grows-trans 1 (length g) (suc (length g)) l l1 r.after (omega arith) c.grows r.grows;
        indexed = r.indexed;
        same = (
          omega (arith, c.inside, r.grows.counted),
          rw all (
              get_elem?-append (done ++ l1.re_mapped_vertices) r.grows.added (from + j) (env.read i)
                c.reads),
          r.same,
        );
      }
