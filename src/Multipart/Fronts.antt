-- ===== src/Multipart/Fronts.antt =====
-- The fronts of splitMesh in bouncer/src/repo/manipulator/modeloptimizer/repo_optimizer_multipart.cpp hold what their
-- faces use.
use drepobouncer.Prelude.{
  ℕ, ◌+◌, ◌≤◌, ◌≡◌, Bool, true, List, [], ◌∷◌, ◌++◌, Option, none, some, length, All, All-append,
  All-map, count, count-append, IfSome, arith,
}
use drepobouncer.Prelude.Set
use drepobouncer.Multipart.{Bvh, leaf, branch, Front, Processed, unique_vertices, combined}

abbrev pub primitives_of : Bvh → List ℕ
primitives_of (leaf primitives) = primitives
primitives_of (branch l r) = primitives_of l ++ primitives_of r

abbrev pub cut_primitives : List Front → List ℕ
cut_primitives [] = []
cut_primitives (f ∷ cut) = f.primitives ++ cut_primitives cut

module _ (max_vertex_count : ℕ) (face_at : ℕ → List ℕ) where
  -- The vertices of a front are all that its faces use.
  abbrev pub HasAll : List ℕ → List ℕ → Type 0
  HasAll vs primitives =
      All (λ primitive. All (λ i. Set.contains i vs ≡ true) (face_at primitive)) primitives

  pub record IsGood (f : Front) : Type 0 where
    pub has_all : HasAll f.vertices f.primitives
    pub small : length f.vertices ≤ max_vertex_count

  -- Each leaf is within the limit.
  abbrev pub LeavesFit : Bvh → Type 0
  LeavesFit (leaf primitives) =
      length (unique_vertices max_vertex_count face_at primitives) ≤ max_vertex_count
  LeavesFit (branch l r) = LeavesFit l × LeavesFit r

  HasAll-weaken :
      (vs ws primitives : List ℕ)
      → ((i : ℕ) → Set.contains i vs ≡ true → Set.contains i ws ≡ true)
      → HasAll vs primitives
      → HasAll ws primitives
  HasAll-weaken vs ws primitives known h =
      All-map (λ primitive. All (λ i. Set.contains i vs ≡ true) (face_at primitive))
        (λ primitive. All (λ i. Set.contains i ws ≡ true) (face_at primitive))
        (λ primitive.
          All-map (λ i. Set.contains i vs ≡ true) (λ i. Set.contains i ws ≡ true) known
            (face_at primitive))
        primitives h

  contains_self : (xs : List ℕ) → All (λ i. Set.contains i xs ≡ true) xs
  unfolding Set.contains
  contains_self [] = tt
  contains_self (x ∷ xs) = (
    ground arith,
    All-map (λ i. Set.contains i xs ≡ true) (λ i. Set.contains i (x ∷ xs) ≡ true)
        (λ i h. ground (arith, h)) xs (contains_self xs),
  )

  pub unique_vertices-HasAll :
      (primitives : List ℕ)
      → HasAll (unique_vertices max_vertex_count face_at primitives) primitives
  unfolding unique_vertices
  unique_vertices-HasAll [] = tt
  unique_vertices-HasAll (primitive ∷ rest) =
      let vs = unique_vertices max_vertex_count face_at rest in
      let face = face_at primitive in
      (
        All-map (λ i. Set.contains i face ≡ true)
            (λ i. Set.contains i (Set.insert_all face vs) ≡ true)
            (λ i h. ground (arith, h, Set.contains-insert_all face vs i)) face (contains_self face),
        HasAll-weaken vs (Set.insert_all face vs) rest
            (λ i h. ground (arith, h, Set.contains-insert_all face vs i))
            (unique_vertices-HasAll rest),
      )

  pub combined-HasAll :
      (l r : Front)
      → HasAll l.vertices l.primitives
      → HasAll r.vertices r.primitives
      → HasAll
          (combined max_vertex_count face_at l r).vertices
          (combined max_vertex_count face_at l r).primitives
  combined-HasAll l r hl hr =
      let vs = Set.insert_all l.vertices [] in
      let both = Set.insert_all r.vertices vs in
      All-append (λ primitive. All (λ i. Set.contains i both ≡ true) (face_at primitive))
        l.primitives r.primitives
        (HasAll-weaken l.vertices both l.primitives
          (λ i h. ground (
            arith,
            h,
            Set.contains-insert_all l.vertices [] i,
            Set.contains-insert_all r.vertices vs i,
          ))
          hl)
        (HasAll-weaken r.vertices both r.primitives
          (λ i h. ground (arith, h, Set.contains-insert_all r.vertices vs i)) hr)

  abbrev pub left_of : Option Front → List ℕ
  left_of none = []
  left_of (some f) = f.primitives

  -- What is left and cut off is good, and keeps the primitives.
  pub record IsProcessed (primitives : List ℕ) (o : Processed) : Type 0 where
    pub front_good : IfSome IsGood o.front
    pub cut_good : All IsGood o.cut
    pub kept :
        (p : ℕ → Bool)
        → count p (left_of o.front) + count p (cut_primitives o.cut) ≡ count p primitives

  pub count-cut :
      (p : ℕ → Bool) (xs ys : List Front)
      → count p (cut_primitives (xs ++ ys))
        ≡ count p (cut_primitives xs) + count p (cut_primitives ys)
  count-cut p [] ys = omega arith
  count-cut p (f ∷ xs) ys = omega (
    arith,
    count-append p f.primitives (cut_primitives (xs ++ ys)),
    count-append p f.primitives (cut_primitives xs),
    count-cut p xs ys,
  )
