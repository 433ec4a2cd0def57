-- ===== src/ClashScheduler/Examples.antt =====
-- Four pairs of meshes, one of them twice and one of a mesh with itself, for
-- bouncer/src/repo/manipulator/modelutility/clashdetection/clash_scheduler.cpp.
use drepobouncer.Prelude.{ℕ, ◌≡◌, refl, Bool, List, [], ◌∷◌, some, leb, if◌then◌else◌, count, arith}
use drepobouncer.ClashScheduler.{
  Edge, Sorts, schedule, rounds, drain, process, visit, remove, create_graph, push_edges, push_edge,
  add_nodes,
}
use drepobouncer.ClashScheduler.Blocks.{Blocks}
use drepobouncer.ClashScheduler.Visits.{Permutes}
use drepobouncer.ClashScheduler.Creating.{schedule_lem}

module _ {A : Type 0} (key : A → ℕ) where
  abbrev insert_by : A → List A → List A
  insert_by x [] = x ∷ []
  insert_by x (y ∷ ys) =
      let rest = insert_by x ys in if leb (key x) (key y) then x ∷ y ∷ ys else y ∷ rest

  abbrev sort_by : List A → List A
  sort_by [] = []
  sort_by (x ∷ xs) = insert_by x (sort_by xs)

  insert_by-count :
      (p : A → Bool) (x : A) (ys : List A) → count p (insert_by x ys) ≡ count p (x ∷ ys)
  insert_by-count p x [] = refl
  insert_by-count p x (y ∷ ys) = ground (arith, insert_by-count p x ys)

  sort_by-count : (p : A → Bool) (xs : List A) → count p (sort_by xs) ≡ count p xs
  sort_by-count p [] = refl
  sort_by-count p (x ∷ xs) = ground (arith, insert_by-count p x (sort_by xs), sort_by-count p xs)

abbrev sorts : Sorts
sorts = record { sort_nodes = sort_by; sort_others = sort_by }

sorts-Permutes : Permutes sorts
sorts-Permutes = record { nodes_kept = sort_by-count; others_kept = sort_by-count }

abbrev pairs : List Edge
pairs = (1, 2) ∷ (2, 3) ∷ (1, 2) ∷ (4, 4) ∷ (3, 5) ∷ []

-- The mesh with fewest pairs comes first, and from there the pairs of its neighbours.
scheduled : schedule sorts pairs ≡ some ((4, 4) ∷ (3, 5) ∷ (2, 3) ∷ (1, 2) ∷ (1, 2) ∷ [])
unfolding schedule rounds drain process visit remove create_graph push_edges push_edge add_nodes
scheduled = refl

schedule_lem_example :
    (out : List Edge) × (schedule sorts pairs ≡ some out)
    × ((p : Edge → Bool) → count p out ≡ count p pairs)
    × Blocks out
schedule_lem_example = schedule_lem sorts pairs sorts-Permutes
