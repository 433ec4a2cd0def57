-- ===== src/Multipart/BigClusters.antt =====
-- splitBigClusters of bouncer/src/repo/manipulator/modeloptimizer/repo_optimizer_multipart.cpp. A mesh is its index.
use drepobouncer.Prelude.{
  ℕ, Bool, not, List, [], ◌∷◌, ◌++◌, leb, ltb, if◌then◌else◌, length, filter,
}

-- The variables of the loop
pub record Splitting : Type 0 where
  pub cluster : List ℕ
  pub clusters : List (List ℕ)

module _ (max_meshes : ℕ) where
  abbrev pub is_big : List ℕ → Bool
  is_big cluster = ltb max_meshes (length cluster)

  abbrev pub push_next : List ℕ → List (List ℕ) → Splitting
  push_next cluster clusters =
      if leb max_meshes (length cluster)
      then record { cluster = []; clusters = clusters ++ cluster ∷ [] }
      else record { cluster = cluster; clusters = clusters }

  unfoldable pub split_cluster : List ℕ → Splitting → Splitting
  split_cluster [] st = st
  split_cluster (i ∷ todo) st = split_cluster todo (push_next (st.cluster ++ i ∷ []) st.clusters)

  -- What is left of the cluster is pushed, and stays in the variable.
  abbrev pub push_rest : Splitting → Splitting
  push_rest st =
      if ltb 0 (length st.cluster)
      then record { cluster = st.cluster; clusters = st.clusters ++ st.cluster ∷ [] }
      else st

  unfoldable pub split_clusters : List (List ℕ) → Splitting → Splitting
  split_clusters [] st = st
  split_clusters (c ∷ to_split) st = split_clusters to_split (push_rest (split_cluster c st))

  unfoldable pub split_big_clusters : List (List ℕ) → List (List ℕ)
  split_big_clusters clusters =
      (split_clusters (filter is_big clusters)
        (record { cluster = []; clusters = filter (λ c. not (is_big c)) clusters })).clusters
