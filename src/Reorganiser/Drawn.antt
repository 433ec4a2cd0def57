-- ===== src/Reorganiser/Drawn.antt =====
-- What the sub meshes of
-- bouncer/src/repo/manipulator/modelutility/repo_mesh_map_reorganiser.cpp draw.
use drepobouncer.Prelude.{
  ℕ, suc, ◌+◌, ◌-◌, ◌≤◌, ◌<◌, ◌≡◌, refl, ap, ◌∙◌, List, [], ◌∷◌, ◌++◌, Option, none, some, length,
  get_elem?, get_elem?-append, arith,
}
use drepobouncer.Reorganiser.{Mapping, Face, Env, on_back, finish_mapping, new_mapping}

module _ {V B : Type 0} (env : Env V B) where
  -- The face f of a sub mesh that begins at `from` and has n vertices shows what the old face g shows: corner by
  -- corner, the index is one of the n, and the vertex there is the old one.
  abbrev pub Same : List V → ℕ → ℕ → Face → Face → Type 0
  Same vs from n [] [] = Unit
  Same vs from n [] (i ∷ g) = ⊥
  Same vs from n (j ∷ f) [] = ⊥
  Same vs from n (j ∷ f) (i ∷ g) =
      (j < n) × (get_elem? vs (from + j) ≡ some (env.read i)) × Same vs from n f g

  abbrev pub AllSame : List V → ℕ → ℕ → List Face → List Face → Type 0
  AllSame vs from n [] [] = Unit
  AllSame vs from n [] (g ∷ gs) = ⊥
  AllSame vs from n (f ∷ fs) [] = ⊥
  AllSame vs from n (f ∷ fs) (g ∷ gs) = Same vs from n f g × AllSame vs from n fs gs

  -- The mappings, the new faces and the old faces, all with the last first: the mappings cut the new faces into
  -- pieces, each within the limits, and each piece shows what the old faces at its place show.
  pub data Draws (vs : List V) : List (Mapping B) → List Face → List Face → Type 0 where
    nothing : Draws vs [] [] []
    piece :
        {ms : List (Mapping B)} {fs' gs' : List Face} (m : Mapping B) (fs gs : List Face)
        → m.tri_from ≡ length fs'
        → m.tri_to ≡ length fs + length fs'
        → m.vert_from ≤ m.vert_to
        → m.vert_to ≤ m.vert_from + env.max_vertices
        → length fs ≤ env.max_faces
        → AllSame vs m.vert_from (m.vert_to - m.vert_from) fs gs
        → Draws vs ms fs' gs'
        → Draws vs (m ∷ ms) (fs ++ fs') (gs ++ gs')

  -- The same with a last sub mesh that is not finished: it begins at `from` and has nv vertices and nf faces yet.
  pub data Opens (vs : List V) (from nv nf : ℕ)
      : List (Mapping B) → List Face → List Face → Type 0 where
    opened :
        {ms : List (Mapping B)} {fs' gs' : List Face} (m : Mapping B) (fs gs : List Face)
        → m.vert_from ≡ from
        → m.tri_from ≡ length fs'
        → nf ≡ length fs
        → nv ≤ env.max_vertices
        → nf ≤ env.max_faces
        → AllSame vs from nv fs gs
        → Draws vs ms fs' gs'
        → Opens vs from nv nf (m ∷ ms) (fs ++ fs') (gs ++ gs')

  pub Same-append :
      (vs ws : List V) (from n n' : ℕ) (f g : Face)
      → n ≤ n'
      → Same vs from n f g
      → Same (vs ++ ws) from n' f g
  Same-append vs ws from n n' [] [] le h = tt
  Same-append vs ws from n n' [] (i ∷ g) le h = h
  Same-append vs ws from n n' (j ∷ f) [] le h = h
  Same-append vs ws from n n' (j ∷ f) (i ∷ g) le h = (
    omega (arith, h.0),
    get_elem?-append vs ws (from + j) (env.read i) h.1,
    Same-append vs ws from n n' f g le h.2,
  )

  pub AllSame-append :
      (vs ws : List V) (from n n' : ℕ) (fs gs : List Face)
      → n ≤ n'
      → AllSame vs from n fs gs
      → AllSame (vs ++ ws) from n' fs gs
  AllSame-append vs ws from n n' [] [] le h = tt
  AllSame-append vs ws from n n' [] (g ∷ gs) le h = h
  AllSame-append vs ws from n n' (f ∷ fs) [] le h = h
  AllSame-append vs ws from n n' (f ∷ fs) (g ∷ gs) le h =
      (Same-append vs ws from n n' f g le h.0, AllSame-append vs ws from n n' fs gs le h.1)

  pub Draws-append :
      (vs ws : List V) (ms : List (Mapping B)) (fs gs : List Face)
      → Draws vs ms fs gs
      → Draws (vs ++ ws) ms fs gs
  Draws-append vs ws _ _ _ nothing = nothing
  Draws-append vs ws _ _ _ (piece {ms} {fs'} {gs'} m fs gs a b up c d same before) =
      piece m fs gs a b up c d
        (AllSame-append vs ws m.vert_from (m.vert_to - m.vert_from) (m.vert_to - m.vert_from) fs gs
          (omega arith) same)
        (Draws-append vs ws ms fs' gs' before)

  pub Opens-append :
      (vs ws : List V) (from nv nv' nf : ℕ) (ms : List (Mapping B)) (fs gs : List Face)
      → nv ≤ nv'
      → nv' ≤ env.max_vertices
      → Opens vs from nv nf ms fs gs
      → Opens (vs ++ ws) from nv' nf ms fs gs
  Opens-append vs ws from nv nv' nf _ _ _ le small
        (opened {ms} {fs'} {gs'} m fs gs a b c d e same before) =
      opened m fs gs a b c small e (AllSame-append vs ws from nv nv' fs gs le same)
        (Draws-append vs ws ms fs' gs' before)

  -- A new sub mesh.
  pub Draws-open :
      (vs : List V) (from : ℕ) (ms : List (Mapping B)) (fs gs : List Face) (tri_from : ℕ)
      → tri_from ≡ length fs
      → Draws vs ms fs gs
      → Opens vs from 0 0 (new_mapping env from tri_from ∷ ms) fs gs
  Draws-open vs from ms fs gs tri_from e h =
      opened (new_mapping env from tri_from) [] [] refl e refl (omega arith) (omega arith) tt h

  pub Opens-add :
      (vs : List V) (from nv nf : ℕ) (ms : List (Mapping B)) (fs gs : List Face) (f g : Face)
      → suc nf ≤ env.max_faces
      → Same vs from nv f g
      → Opens vs from nv nf ms fs gs
      → Opens vs from nv (suc nf) ms (f ∷ fs) (g ∷ gs)
  Opens-add vs from nv nf _ _ _ f g small same' (opened m fs gs a b c d e same before) =
      opened m (f ∷ fs) (g ∷ gs) a b (ap suc c) d small (same', same) before

  finished_from :
      (bbox : Option B) (nv nf : ℕ) (m : Mapping B)
      → ((finish_mapping env bbox nv nf m).vert_from ≡ m.vert_from)
        × ((finish_mapping env bbox nv nf m).tri_from ≡ m.tri_from)
        × ((finish_mapping env bbox nv nf m).vert_to ≡ m.vert_from + nv)
        × ((finish_mapping env bbox nv nf m).tri_to ≡ m.tri_from + nf)
  finished_from none nv nf m = (refl, refl, refl, refl)
  finished_from (some b) nv nf m = (refl, refl, refl, refl)

  pub Opens-finish :
      (vs : List V) (from nv nf : ℕ) (ms : List (Mapping B)) (fs gs : List Face) (bbox : Option B)
      → Opens vs from nv nf ms fs gs
      → Draws vs (on_back (finish_mapping env bbox nv nf) ms) fs gs
  Opens-finish vs from nv nf _ _ _ bbox (opened m fs gs a b c d e same before) =
      let (vf, tf, vt, tt') = finished_from bbox nv nf m in
      let m' = finish_mapping env bbox nv nf m in
      let same_from : m'.vert_from ≡ from = vf ∙ a in
      let same_count : m'.vert_to - from ≡ nv = omega (arith, vf, vt, a) in
      piece m' fs gs (tf ∙ b) (omega (arith, tf, tt', b, c)) (omega (arith, vf, vt))
        (omega (arith, vf, vt, d)) (omega (arith, c, e)) (rw (same_from, same_count) same) before
