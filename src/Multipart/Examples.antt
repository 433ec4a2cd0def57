-- ===== src/Multipart/Examples.antt =====
-- A mesh of four triangles for bouncer/src/repo/manipulator/modeloptimizer/repo_optimizer_multipart.cpp.
use drepobouncer.Prelude.{
  ◌≢◌, none, some, map, ◌*◌, ℕ, ◌≡◌, refl, Bool, List, [], ◌∷◌, All, count, ◌+◌, arith,
}
use drepobouncer.Prelude.Set
use drepobouncer.Multipart.{Bvh, leaf, branch, unique_vertices, process, at_branch, split_mesh}
use drepobouncer.Multipart.Clusters.{
  Mesh, split, super_mesh, append_mesh, add_mesh, add_meshes, create_super_meshes,
}
use drepobouncer.Multipart.Packed.{Gives, IsWhole, IsSorted, create_super_meshes_lem}
use drepobouncer.Multipart.BigClusters.{split_cluster, split_clusters, split_big_clusters}
use drepobouncer.Multipart.Limited.{IsSmall, members, split_big_clusters_lem}
use drepobouncer.Multipart.Fronts.{primitives_of, cut_primitives, LeavesFit}
use drepobouncer.Multipart.Cutting.{IsMade, split_mesh_lem}

abbrev face_at : ℕ → List ℕ
face_at primitive = primitive ∷ (primitive + 1) ∷ (primitive + 2) ∷ []

abbrev tree : Bvh
tree = branch (leaf (0 ∷ [])) (branch (leaf (1 ∷ [])) (leaf (2 ∷ 3 ∷ [])))

-- The right branch has five vertices, the whole has six.
cut_off :
    split_mesh 5 face_at tree
    ≡ record { vertices = 0 ∷ 1 ∷ 2 ∷ []; primitives = 0 ∷ [] }
      ∷ record { vertices = 1 ∷ 2 ∷ 3 ∷ 4 ∷ 5 ∷ []; primitives = 1 ∷ 2 ∷ 3 ∷ [] }
      ∷ []
unfolding split_mesh process at_branch unique_vertices Set.insert_all Set.insert
cut_off = refl

leaves : LeavesFit 5 face_at tree
unfolding unique_vertices Set.insert_all Set.insert
leaves = (omega arith, (omega arith, omega arith))

split_mesh_lem_example :
    ((p : ℕ → Bool)
      → count p (cut_primitives (split_mesh 5 face_at tree)) ≡ count p (primitives_of tree))
    × All (IsMade 5 face_at) (split_mesh 5 face_at tree)
split_mesh_lem_example =
    split_mesh_lem 5 face_at (leaf (0 ∷ [])) (branch (leaf (1 ∷ [])) (leaf (2 ∷ 3 ∷ []))) leaves

-- A triangle, or a few, of which each vertex is a number of its mesh
abbrev mesh : ℕ → List ℕ → List (List ℕ) → ℕ → Mesh
mesh shared_id vertices faces uv_channels = record {
  shared_id = shared_id;
  vertices = vertices;
  faces = faces;
  uv_channels = uv_channels;
}

abbrev low : Mesh
low = mesh 1 (10 ∷ 11 ∷ 12 ∷ []) ((0 ∷ 1 ∷ 2 ∷ []) ∷ []) 0

abbrev high : Mesh
high = mesh 2 (20 ∷ 21 ∷ []) ((1 ∷ 0 ∷ []) ∷ []) 0

abbrev large : Mesh
large = mesh 3 (30 ∷ 31 ∷ 32 ∷ 33 ∷ 34 ∷ 35 ∷ []) ((5 ∷ 0 ∷ 3 ∷ []) ∷ []) 0

abbrev cluster : List Mesh
cluster = low ∷ large ∷ high ∷ low ∷ []

abbrev corners : Mesh → List (List ℕ)
corners m = map (map (λ i. 10 * m.shared_id + i)) m.faces

-- The large mesh is split, two meshes share a supermesh, and the last does not fit.
clustered :
    create_super_meshes 5 cluster
    ≡ some (
        split large
        ∷ super_mesh (record {
          vertices = 10 ∷ 11 ∷ 12 ∷ 20 ∷ 21 ∷ [];
          faces = (0 ∷ 1 ∷ 2 ∷ []) ∷ (4 ∷ 3 ∷ []) ∷ [];
          uv_channels = 0;
          mesh_mapping =
              record { shared_id = 1; vert_from = 0; vert_to = 3; tri_from = 0; tri_to = 1 }
              ∷ record { shared_id = 2; vert_from = 3; vert_to = 5; tri_from = 1; tri_to = 2 }
              ∷ [];
        })
        ∷ super_mesh (record {
          vertices = 10 ∷ 11 ∷ 12 ∷ [];
          faces = (0 ∷ 1 ∷ 2 ∷ []) ∷ [];
          uv_channels = 0;
          mesh_mapping =
              record { shared_id = 1; vert_from = 0; vert_to = 3; tri_from = 0; tri_to = 1 } ∷ [];
        })
        ∷ [])
unfolding create_super_meshes add_meshes add_mesh append_mesh
clustered = refl

-- A mesh with UV channels is refused before one without them, but taken after it.
with_before_without :
    create_super_meshes 9
      (mesh 1 (0 ∷ []) ((0 ∷ []) ∷ []) 1 ∷ mesh 2 (0 ∷ []) ((0 ∷ []) ∷ []) 0 ∷ [])
    ≡ none
unfolding create_super_meshes add_meshes add_mesh append_mesh
with_before_without = refl

without_before_with :
    create_super_meshes 9
      (mesh 2 (0 ∷ []) ((0 ∷ []) ∷ []) 0 ∷ mesh 1 (0 ∷ []) ((0 ∷ []) ∷ []) 1 ∷ [])
    ≢ none
unfolding create_super_meshes add_meshes add_mesh append_mesh
without_before_with e = absurd (cc e)

low-IsWhole : IsWhole 5 corners 0 low
low-IsWhole = record {
  has_vertices = omega arith;
  has_faces = omega arith;
  same_channels = refl;
  has_corners = ((refl, (refl, (refl, tt))), tt);
}

high-IsWhole : IsWhole 5 corners 0 high
high-IsWhole = record {
  has_vertices = omega arith;
  has_faces = omega arith;
  same_channels = refl;
  has_corners = ((refl, (refl, tt)), tt);
}

large-IsWhole : IsWhole 5 corners 0 large
large-IsWhole = record {
  has_vertices = omega arith;
  has_faces = omega arith;
  same_channels = refl;
  has_corners = ((refl, (refl, (refl, tt))), tt);
}

create_super_meshes_lem_example :
    Gives (IsSorted 5 corners 0 cluster) (create_super_meshes 5 cluster)
create_super_meshes_lem_example =
    create_super_meshes_lem 5 corners 0 cluster
      (low-IsWhole, (large-IsWhole, (high-IsWhole, (low-IsWhole, tt))))

split_big_clusters_lem_example :
    All (IsSmall 2) (split_big_clusters 2 ((0 ∷ 1 ∷ 2 ∷ 3 ∷ 4 ∷ []) ∷ (5 ∷ 6 ∷ []) ∷ []))
    × ((p : ℕ → Bool)
        → members p (split_big_clusters 2 ((0 ∷ 1 ∷ 2 ∷ 3 ∷ 4 ∷ []) ∷ (5 ∷ 6 ∷ []) ∷ []))
          ≡ members p ((0 ∷ 1 ∷ 2 ∷ 3 ∷ 4 ∷ []) ∷ (5 ∷ 6 ∷ []) ∷ []))
split_big_clusters_lem_example =
    split_big_clusters_lem 2 ((0 ∷ 1 ∷ 2 ∷ 3 ∷ 4 ∷ []) ∷ (5 ∷ 6 ∷ []) ∷ []) (omega arith)
      (omega arith)

-- With two clusters above the limit, what is left of the first is pushed twice: mesh 2 is in two clusters.
two_big_clusters :
    split_big_clusters 2 ((0 ∷ 1 ∷ 2 ∷ []) ∷ (3 ∷ 4 ∷ 5 ∷ []) ∷ [])
    ≡ (0 ∷ 1 ∷ []) ∷ (2 ∷ []) ∷ (2 ∷ 3 ∷ []) ∷ (4 ∷ 5 ∷ []) ∷ []
unfolding split_big_clusters split_clusters split_cluster
two_big_clusters = refl
