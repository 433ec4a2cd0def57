-- ===== src/Multipart.antt =====
-- Splitting a large mesh by location: splitMesh and createSupermeshFromBranch of
-- bouncer/src/repo/manipulator/modeloptimizer/repo_optimizer_multipart.{h,cpp}. The tree is what the bvh library
-- builds over the faces. The code keeps the front in arrays by node and goes through the branches from the last of
-- a breadth first list to the first; here a branch is taken after its two children, so that the order in
-- which the supermeshes are created is not that of the code.
pub mod Fronts
pub mod Cutting
pub mod Reindexed
pub mod Clusters
pub mod Packed
pub mod BigClusters
pub mod Limited
mod Examples
use drepobouncer.Prelude.{
  ℕ, suc, Bool, true, false, List, [], ◌∷◌, ◌++◌, Option, none, some, map, leb, ◌==◌, if◌then◌else◌,
  length,
}
use drepobouncer.Prelude.Set

-- A node of the bvh, with the primitives of a leaf
pub data Bvh : Type 0 where
  leaf : List ℕ → Bvh
  branch : Bvh → Bvh → Bvh

-- verts and primitives at a node of the front
pub record Front : Type 0 where
  pub vertices : List ℕ
  pub primitives : List ℕ

-- What is at a node when it has been processed (`none` for a null pointer), and what was cut off below it.
pub record Processed : Type 0 where
  pub front : Option Front
  pub cut : List Front

-- The parts of mapped_mesh_t that come from the mesh: the vertices by their indices in it
pub record MappedMesh : Type 0 where
  pub vertices : List ℕ
  pub faces : List (List ℕ)

-- globalToLocalIndex
unfoldable pub local_index : ℕ → List ℕ → ℕ
local_index i [] = 0
local_index i (v ∷ vs) = let rest = local_index i vs in if v == i then 0 else suc rest

unfoldable pub re_index : List ℕ → List ℕ → List ℕ
re_index vs [] = []
re_index vs (i ∷ face) = local_index i vs ∷ re_index vs face

module _ (max_vertex_count : ℕ) (face_at : ℕ → List ℕ) where
  -- The leaves
  unfoldable pub unique_vertices : List ℕ → List ℕ
  unique_vertices [] = []
  unique_vertices (primitive ∷ rest) = Set.insert_all (face_at primitive) (unique_vertices rest)

  abbrev pub at_leaf : List ℕ → Front
  at_leaf primitives = record { vertices = unique_vertices primitives; primitives = primitives }

  abbrev pub fits : Front → Bool
  fits f = leb (length f.vertices) max_vertex_count

  -- One valid child: it is moved up or cut off.
  abbrev pub move_up : Front → List Front → Processed
  move_up f before =
      if fits f
      then record { front = some f; cut = before }
      else record { front = none; cut = before ++ f ∷ [] }

  abbrev pub combined : Front → Front → Front
  combined l r = record {
    vertices = Set.insert_all r.vertices (Set.insert_all l.vertices []);
    primitives = l.primitives ++ r.primitives;
  }

  -- Two valid children: they are combined or both cut off.
  abbrev pub combine : Front → Front → List Front → Processed
  combine l r before =
      if fits (combined l r)
      then record { front = some (combined l r); cut = before }
      else record { front = none; cut = before ++ l ∷ r ∷ [] }

  -- A round of the loop over the branches
  unfoldable pub at_branch : Option Front → Option Front → List Front → Processed
  at_branch none none before = record { front = none; cut = before }
  at_branch (some l) none before = move_up l before
  at_branch none (some r) before = move_up r before
  at_branch (some l) (some r) before = combine l r before

  unfoldable pub process : Bvh → Processed
  process (leaf primitives) = record { front = some (at_leaf primitives); cut = [] }
  process (branch l r) =
      let pl = process l in let pr = process r in at_branch pl.front pr.front (pl.cut ++ pr.cut)

  abbrev pub with_left_over : Option Front → List Front → List Front
  with_left_over none cut = cut
  with_left_over (some f) cut = cut ++ f ∷ []

  -- splitMesh: the branches that are cut off, each of which becomes a supermesh. A tree of one leaf has no branch:
  -- there the code reads the last of an empty list of branches.
  unfoldable pub split_mesh : Bvh → List Front
  split_mesh t = with_left_over (process t).front (process t).cut

  -- createSupermeshFromBranch
  unfoldable pub create_supermesh_from_branch : Front → MappedMesh
  create_supermesh_from_branch f = record {
    vertices = f.vertices;
    faces = map (λ primitive. re_index f.vertices (face_at primitive)) f.primitives;
  }
