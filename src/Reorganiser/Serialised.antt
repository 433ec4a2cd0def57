-- ===== src/Reorganiser/Serialised.antt =====
-- The serialised faces of 16 bits in bouncer/src/repo/manipulator/modelutility/repo_mesh_map_reorganiser.cpp.
use drepobouncer.Prelude.{
  ℕ, ◌-◌, ◌^◌, ◌≤◌, ◌≡◌, refl, ap, ◌∙◌, subst, List, [], ◌∷◌, ◌++◌, some, length, reverse_onto,
  arith,
}
use drepobouncer.Reorganiser.{Mapping, Face, Env, State, to_u16, serialise}
use drepobouncer.Reorganiser.Perform.{perform_splitting}
use drepobouncer.Reorganiser.Drawn.{Same, AllSame, Draws, nothing, piece}
use drepobouncer.Reorganiser.Laid.{IsBounded, Reads, IsLaid}
use drepobouncer.Reorganiser.Splitting.{perform_splitting-Draws}
use drepobouncer.Reorganiser.Parallel.{serialise_all}
use drepobouncer.Reorganiser.ParallelKept.{splitting-Ids}

-- The indices of the faces, the last first.
abbrev pub indices : List Face → List ℕ
indices [] = []
indices (f ∷ fs) = reverse_onto f (indices fs)

module _ {V B : Type 0} (env : Env V B) where
  serialise-Same :
      (vs : List V) (from n : ℕ) (f g : Face) (out : List ℕ)
      → n ≤ 2 ^ 16
      → Same env vs from n f g
      → serialise f out ≡ reverse_onto f out
  unfolding serialise
  serialise-Same vs from n [] [] out small h = refl
  serialise-Same vs from n [] (i ∷ g) out small h = absurd h
  serialise-Same vs from n (j ∷ f) [] out small h = absurd h
  serialise-Same vs from n (j ∷ f) (i ∷ g) out small h =
      let fits : to_u16 j ≡ j = omega (arith, h.0) in
      rw fits (serialise-Same vs from n f g (j ∷ out) small h.2)

  serialise_all-AllSame :
      (vs : List V) (from n : ℕ) (fs fs' gs : List Face)
      → n ≤ 2 ^ 16
      → AllSame env vs from n fs gs
      → serialise_all fs' ≡ indices fs'
      → serialise_all (fs ++ fs') ≡ indices (fs ++ fs')
  serialise_all-AllSame vs from n [] fs' [] small h e = e
  serialise_all-AllSame vs from n [] fs' (g ∷ gs) small h e = absurd h
  serialise_all-AllSame vs from n (f ∷ fs) fs' [] small h e = absurd h
  serialise_all-AllSame vs from n (f ∷ fs) fs' (g ∷ gs) small h e =
      ap (serialise f) (serialise_all-AllSame vs from n fs fs' gs small h.1 e)
      ∙ serialise-Same vs from n f g (indices (fs ++ fs')) small h.0

  serialise_all-Draws :
      (vs : List V) (ms : List (Mapping B)) (fs gs : List Face)
      → env.max_vertices ≤ 2 ^ 16
      → Draws env vs ms fs gs
      → serialise_all fs ≡ indices fs
  serialise_all-Draws vs _ _ _ small nothing = refl
  serialise_all-Draws vs _ _ _ small (piece {ms} {fs'} {gs'} m fs gs a b up c d same before) =
      serialise_all-AllSame vs m.vert_from (m.vert_to - m.vert_from) fs fs' gs (omega arith) same
        (serialise_all-Draws vs ms fs' gs' small before)

  -- Where the meshes are laid out as performSplitting expects and maxVertices is at most 2 ^ 16, no index is cut off
  -- by the 16 bits of the serialised faces: they are the indices of the new faces.
  pub perform_splitting-indices :
      (old : List V) (ms : List (Mapping B)) (faces : List Face) (s : State V B)
      → IsBounded env old
      → Reads env old
      → IsLaid env (length old) 0 ms faces
      → env.max_vertices ≤ 2 ^ 16
      → perform_splitting env old faces ms ≡ some s
      → s.serialised_faces ≡ indices s.new_faces
  perform_splitting-indices old ms faces s b reads laid' small e =
      let (s', e', drawn) = perform_splitting-Draws env old ms faces b reads laid' in
      let same : s' ≡ s = cc (e, e') in
      (splitting-Ids env old faces ms s e).0
      ∙ subst (λ r. serialise_all r.new_faces ≡ indices r.new_faces) same
          (serialise_all-Draws s'.new_vertices s'.new_mappings s'.new_faces (reverse_onto faces [])
            small drawn)
