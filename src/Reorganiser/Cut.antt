-- ===== src/Reorganiser/Cut.antt =====
-- The loop over the faces of a large mesh in splitLargeMesh of
-- bouncer/src/repo/manipulator/modelutility/repo_mesh_map_reorganiser.cpp.
use drepobouncer.Prelude.{
  ℕ, zero, suc, ◌+◌, ◌^◌, ◌≤◌, ◌<◌, ◌≡◌, refl, Bool, true, false, List, [], ◌∷◌, ◌++◌, Option, some,
  length, length-append, reverse_onto, arith, if◌then◌else◌, All,
}
use drepobouncer.Reorganiser.{Mapping, Face, Env, State, serialise}
use drepobouncer.Reorganiser.Large.{
  Large, re_index_face, is_full, next_sub_mesh, make_room, push_face, large_round, large_rounds,
}
use drepobouncer.Reorganiser.Drawn.{Opens, Opens-append, Opens-add}
use drepobouncer.Reorganiser.ReIndex.{Grows-vertices, re_index_face-ReIndexed}
use drepobouncer.Reorganiser.CutNext.{
  IsCut, Kept, Kept-refl, Kept-trans, next_sub_mesh-Kept, next_sub_mesh-IsCut,
}

module _ {V B : Type 0} (env : Env V B) where
  -- Room for one more face of n corners
  record HasRoom (g : Face) (l : Large V B) : Type 0 where
    vertices_fit : l.vertices + length g ≤ env.max_vertices
    faces_fit : suc l.faces ≤ env.max_faces

  make_room-HasRoom :
      (m : Mapping B) (first : Bool) (g : Face) (l : Large V B) (s : State V B)
      → length g ≤ env.max_vertices
      → 1 ≤ env.max_faces
      → HasRoom g (make_room env m first g l s).0
  unfolding make_room is_full next_sub_mesh
  make_room-HasRoom m first g l s small some_face = record {
    vertices_fit = ground arith;
    faces_fit = ground arith;
  }

  make_room-IsCut :
      (done : List V) (gs : List Face) (m : Mapping B) (first : Bool) (g : Face) (l : Large V B)
      (s : State V B)
      → IsCut env done gs (l, s)
      → IsCut env done gs (make_room env m first g l s) × Kept env s (make_room env m first g l s).1
  unfolding make_room
  make_room-IsCut done gs m first g l s h =
      elim (is_full env g l)
        as (λ full.
          IsCut env done gs (if full then next_sub_mesh env m first l s else (l, s))
          × Kept env s (if full then next_sub_mesh env m first l s else (l, s)).1) [
            | true ↦
                (next_sub_mesh-IsCut env done gs m first l s h, next_sub_mesh-Kept env m first l s)
            | false ↦ (h, Kept-refl env s)
          ]

  -- A round draws one face.
  pub record Round (done : List V) (gs rest : List Face) (s : State V B)
      (o : Option (Large V B × State V B)) : Type 0 where
    pub result : Large V B × State V B
    pub succeeds : o ≡ some result
    pub is_cut : IsCut env done gs result
    pub rest_left : result.1.old_faces ≡ rest
    pub kept : Kept env s result.1

  push_face-Round :
      (done : List V) (gs rest : List Face) (g : Face) (l : Large V B) (s : State V B)
      → env.max_vertices < 2 ^ 32
      → IsCut env done gs (l, s)
      → HasRoom g l
      → Round done (g ∷ gs) rest s (push_face env rest s (re_index_face env g l))
  unfolding push_face
  push_face-Round done gs rest g l s words h room =
      let r =
        re_index_face-ReIndexed env done s.total_vertices g l words h.indexed room.vertices_fit in
      let all = Grows-vertices env done (length g) l r.after r.grows in
      let drawn' : Opens env (done ++ r.after.re_mapped_vertices) s.total_vertices r.after.vertices
          (suc l.faces) s.new_mappings (r.face ∷ s.new_faces) (g ∷ gs) =
        Opens-add env (done ++ r.after.re_mapped_vertices) s.total_vertices r.after.vertices l.faces
          s.new_mappings s.new_faces gs r.face g room.faces_fit r.same
          (rw all (
            Opens-append env (done ++ l.re_mapped_vertices) r.grows.added s.total_vertices
              l.vertices r.after.vertices l.faces s.new_mappings s.new_faces gs
              (omega (arith, r.grows.counted)) r.indexed.small h.drawn)) in
      let added = length-append l.re_mapped_vertices r.grows.added in
      rw r.succeeds (record {
        result = (
          record r.after { faces = suc r.after.faces },
          record s {
            old_faces = rest;
            new_faces = r.face ∷ s.new_faces;
            serialised_faces = serialise r.face s.serialised_faces;
          },
        );
        succeeds = refl;
        is_cut = record {
          indexed = record {
            ends = r.indexed.ends;
            small = r.indexed.small;
            finds = r.indexed.finds;
          };
          drawn = rw r.grows.faces_kept drawn';
          counted =
              rw (r.grows.added_last, added, r.grows.total_kept)
                (omega (arith, h.counted, r.grows.counted));
          faces_counted = omega (arith, h.faces_counted, r.grows.faces_kept);
        };
        rest_left = refl;
        kept = record { vertices_kept = refl; sub_vertices_kept = refl };
      })

  large_round-Round :
      (done : List V) (gs rest : List Face) (m : Mapping B) (first : Bool) (g : Face)
      (l : Large V B) (s : State V B)
      → env.max_vertices < 2 ^ 32
      → 1 ≤ env.max_faces
      → length g ≤ env.max_vertices
      → IsCut env done gs (l, s)
      → Round done (g ∷ gs) rest s (large_round env m first g rest (l, s))
  unfolding large_round
  large_round-Round done gs rest m first g l s words some_face small h =
      let (l1, s1) = make_room env m first g l s in
      let (h1, kept1) = make_room-IsCut done gs m first g l s h in
      let r =
        push_face-Round done gs rest g l1 s1 words h1
          (make_room-HasRoom m first g l s small some_face) in
      record {
        result = r.result;
        succeeds = r.succeeds;
        is_cut = r.is_cut;
        rest_left = r.rest_left;
        kept = Kept-trans env s s1 r.result.1 kept1 r.kept;
      }

  -- The loop draws all faces of the mesh.
  pub large_rounds-Round :
      (done : List V) (fs gs rest : List Face) (m : Mapping B) (first : Bool) (n : ℕ)
      (r : Large V B × State V B)
      → env.max_vertices < 2 ^ 32
      → 1 ≤ env.max_faces
      → All (λ g. length g ≤ env.max_vertices) fs
      → length fs ≡ n
      → r.1.old_faces ≡ fs ++ rest
      → IsCut env done gs r
      → Round done (reverse_onto fs gs) rest r.1 (large_rounds env m first n (fs ++ rest) r)
  unfolding large_rounds
  large_rounds-Round done [] gs rest m first zero r words some_face small e old h = record {
    result = r;
    succeeds = refl;
    is_cut = h;
    rest_left = old;
    kept = Kept-refl env r.1;
  }
  large_rounds-Round done [] gs rest m first (suc n) r words some_face small e old h =
      absurd (omega arith)
  large_rounds-Round done (g ∷ fs) gs rest m first zero r words some_face small e old h =
      absurd (omega arith)
  large_rounds-Round done (g ∷ fs) gs rest m first (suc n) r words some_face small e old h =
      let k = large_round-Round done gs (fs ++ rest) m first g r.0 r.1 words some_face small.0 h in
      let rest' =
        large_rounds-Round done fs (g ∷ gs) rest m false n k.result words some_face small.1
          (omega arith) k.rest_left k.is_cut in
      rw (large_rounds, k.succeeds)
        (record {
          result = rest'.result;
          succeeds = rest'.succeeds;
          is_cut = rest'.is_cut;
          rest_left = rest'.rest_left;
          kept = Kept-trans env r.1 k.result.1 rest'.result.1 k.kept rest'.kept;
        })
