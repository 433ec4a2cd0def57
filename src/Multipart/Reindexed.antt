-- ===== src/Multipart/Reindexed.antt =====
-- The faces of a supermesh in createSupermeshFromBranch of
-- bouncer/src/repo/manipulator/modeloptimizer/repo_optimizer_multipart.cpp.
use drepobouncer.Prelude.{ℕ, ◌≡◌, true, List, [], ◌∷◌, some, get_elem?, All, map, arith}
use drepobouncer.Prelude.Set
use drepobouncer.Multipart.{local_index, re_index}

-- The face f of the supermesh shows the face g of the mesh, corner by corner.
abbrev pub Shows : List ℕ → List ℕ → List ℕ → Type 0
Shows vs [] [] = Unit
Shows vs [] (i ∷ g) = ⊥
Shows vs (j ∷ f) [] = ⊥
Shows vs (j ∷ f) (i ∷ g) = (get_elem? vs j ≡ some i) × Shows vs f g

abbrev pub AllShow : List ℕ → List (List ℕ) → List (List ℕ) → Type 0
AllShow vs [] [] = Unit
AllShow vs [] (g ∷ gs) = ⊥
AllShow vs (f ∷ fs) [] = ⊥
AllShow vs (f ∷ fs) (g ∷ gs) = Shows vs f g × AllShow vs fs gs

get_elem?-local_index :
    (i : ℕ) (vs : List ℕ) → Set.contains i vs ≡ true → get_elem? vs (local_index i vs) ≡ some i
unfolding local_index Set.contains
get_elem?-local_index i [] h = absurd (cc h)
get_elem?-local_index i (v ∷ vs) h = ground (arith, h, get_elem?-local_index i vs)

re_index-Shows :
    (vs g : List ℕ) → All (λ i. Set.contains i vs ≡ true) g → Shows vs (re_index vs g) g
unfolding re_index
re_index-Shows vs [] h = tt
re_index-Shows vs (i ∷ g) h = (get_elem?-local_index i vs h.0, re_index-Shows vs g h.1)

pub map-AllShow :
    (vs : List ℕ) (face_at : ℕ → List ℕ) (primitives : List ℕ)
    → All (λ primitive. All (λ i. Set.contains i vs ≡ true) (face_at primitive)) primitives
    → AllShow vs
        (map (λ primitive. re_index vs (face_at primitive)) primitives)
        (map face_at primitives)
map-AllShow vs face_at [] h = tt
map-AllShow vs face_at (primitive ∷ primitives) h =
    (re_index-Shows vs (face_at primitive) h.0, map-AllShow vs face_at primitives h.1)
