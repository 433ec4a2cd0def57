-- ===== src/Multipart/Limited.antt =====
-- The clusters after splitBigClusters of bouncer/src/repo/manipulator/modeloptimizer/repo_optimizer_multipart.cpp
use drepobouncer.Prelude.{
  ℕ, ◌+◌, ◌≤◌, ◌<◌, ◌≡◌, refl, Bool, true, false, not, List, [], ◌∷◌, ◌++◌, leb, ltb, if-cases,
  length, length-append, All, All-append, All-map, All-filter_self, filter, count, count-append,
  arith,
}
use drepobouncer.Multipart.BigClusters.{
  Splitting, is_big, push_next, split_cluster, push_rest, split_clusters, split_big_clusters,
}

-- How many meshes of the clusters pass the test
abbrev pub members : (ℕ → Bool) → List (List ℕ) → ℕ
members p [] = 0
members p (c ∷ clusters) = count p c + members p clusters

members-append :
    (p : ℕ → Bool) (cs ds : List (List ℕ)) → members p (cs ++ ds) ≡ members p cs + members p ds
members-append p [] ds = omega arith
members-append p (c ∷ cs) ds = omega (arith, members-append p cs ds)

members-filter :
    (p : ℕ → Bool) (q : List ℕ → Bool) (cs : List (List ℕ))
    → members p (filter q cs) + members p (filter (λ c. not (q c)) cs) ≡ members p cs
members-filter p q [] = omega arith
members-filter p q (c ∷ cs) = ground (arith, members-filter p q cs)

length-filter : (q : List ℕ → Bool) (cs : List (List ℕ)) → length (filter q cs) ≡ count q cs
length-filter q [] = refl
length-filter q (c ∷ cs) = ground (arith, length-filter q cs)

module _ (max_meshes : ℕ) where
  abbrev pub IsSmall : List ℕ → Type 0
  IsSmall c = length c ≤ max_meshes

  -- The open cluster is not full, and the others are within the limit.
  record IsOpen (st : Splitting) : Type 0 where
    open_cluster : length st.cluster < max_meshes
    small : All IsSmall st.clusters

  abbrev total : (ℕ → Bool) → Splitting → ℕ
  total p st = members p st.clusters + count p st.cluster

  push_next-IsOpen :
      (c : List ℕ) (clusters : List (List ℕ))
      → 0 < max_meshes
      → length c ≤ max_meshes
      → All IsSmall clusters
      → IsOpen (push_next max_meshes c clusters)
  push_next-IsOpen c clusters positive le h =
      if-cases IsOpen (leb max_meshes (length c))
        (record { cluster = []; clusters = clusters ++ c ∷ [] })
        (record { cluster = c; clusters = clusters })
        (λ _. record {
          open_cluster = positive;
          small = All-append IsSmall clusters (c ∷ []) h (le, tt);
        })
        (λ more. record { open_cluster = ground (arith, more); small = h })

  push_next-total :
      (p : ℕ → Bool) (c : List ℕ) (clusters : List (List ℕ))
      → total p (push_next max_meshes c clusters) ≡ members p clusters + count p c
  push_next-total p c clusters =
      if-cases (λ st. total p st ≡ members p clusters + count p c) (leb max_meshes (length c))
        (record { cluster = []; clusters = clusters ++ c ∷ [] })
        (record { cluster = c; clusters = clusters })
        (λ _. omega (arith, members-append p clusters (c ∷ []))) (λ _. refl)

  split_cluster-IsOpen :
      (c : List ℕ) (st : Splitting)
      → 0 < max_meshes
      → IsOpen st
      → IsOpen (split_cluster max_meshes c st)
  unfolding split_cluster
  split_cluster-IsOpen [] st positive h = h
  split_cluster-IsOpen (i ∷ c) st positive h =
      split_cluster-IsOpen c (push_next max_meshes (st.cluster ++ i ∷ []) st.clusters) positive (
        push_next-IsOpen (st.cluster ++ i ∷ []) st.clusters positive
          (omega (arith, length-append st.cluster (i ∷ []), h.open_cluster)) h.small)

  split_cluster-total :
      (p : ℕ → Bool) (c : List ℕ) (st : Splitting)
      → total p (split_cluster max_meshes c st) ≡ total p st + count p c
  unfolding split_cluster
  split_cluster-total p [] st = omega arith
  split_cluster-total p (i ∷ c) st = ground (
    arith,
    split_cluster-total p c (push_next max_meshes (st.cluster ++ i ∷ []) st.clusters),
    push_next-total p (st.cluster ++ i ∷ []) st.clusters,
    count-append p st.cluster (i ∷ []),
  )

  push_rest-IsOpen : (st : Splitting) → IsOpen st → IsOpen (push_rest max_meshes st)
  push_rest-IsOpen st h =
      if-cases IsOpen (ltb 0 (length st.cluster))
        (record { cluster = st.cluster; clusters = st.clusters ++ st.cluster ∷ [] }) st
        (λ _. record {
          open_cluster = h.open_cluster;
          small =
              All-append IsSmall st.clusters (st.cluster ∷ []) h.small
                (omega (arith, h.open_cluster), tt);
        })
        (λ _. h)

  count_empty : (p : ℕ → Bool) (c : List ℕ) → ltb 0 (length c) ≡ false → count p c ≡ 0
  count_empty p [] e = refl
  count_empty p (i ∷ c) e = absurd (ground (arith, e))

  push_rest-members :
      (p : ℕ → Bool) (st : Splitting) → members p (push_rest max_meshes st).clusters ≡ total p st
  push_rest-members p st =
      if-cases (λ st1. members p st1.clusters ≡ total p st) (ltb 0 (length st.cluster))
        (record { cluster = st.cluster; clusters = st.clusters ++ st.cluster ∷ [] }) st
        (λ _. omega (arith, members-append p st.clusters (st.cluster ∷ [])))
        (λ empty. omega (arith, count_empty p st.cluster empty))

  split_clusters-IsOpen :
      (cs : List (List ℕ)) (st : Splitting)
      → 0 < max_meshes
      → IsOpen st
      → IsOpen (split_clusters max_meshes cs st)
  unfolding split_clusters
  split_clusters-IsOpen [] st positive h = h
  split_clusters-IsOpen (c ∷ cs) st positive h =
      split_clusters-IsOpen cs (push_rest max_meshes (split_cluster max_meshes c st)) positive
        (push_rest-IsOpen (split_cluster max_meshes c st) (split_cluster-IsOpen c st positive h))

  -- One cluster at most
  split_clusters-members :
      (p : ℕ → Bool) (cs : List (List ℕ)) (kept : List (List ℕ))
      → length cs ≤ 1
      → members p (split_clusters max_meshes cs (record { cluster = []; clusters = kept })).clusters
        ≡ members p kept + members p cs
  unfolding split_clusters
  split_clusters-members p [] kept le = omega arith
  split_clusters-members p (c ∷ []) kept le = omega (
    arith,
    push_rest-members p (split_cluster max_meshes c (record { cluster = []; clusters = kept })),
    split_cluster-total p c (record { cluster = []; clusters = kept }),
  )
  split_clusters-members p (c ∷ d ∷ cs) kept le = absurd (omega (arith, le))

  -- Where one cluster at most is above the limit, splitBigClusters leaves clusters within the limit, which have
  -- each mesh as often as those before.
  pub split_big_clusters_lem :
      (clusters : List (List ℕ))
      → 0 < max_meshes
      → count (is_big max_meshes) clusters ≤ 1
      → All IsSmall (split_big_clusters max_meshes clusters)
        × ((p : ℕ → Bool) → members p (split_big_clusters max_meshes clusters) ≡ members p clusters)
  unfolding split_big_clusters
  split_big_clusters_lem clusters positive one = (
    (split_clusters-IsOpen (filter (is_big max_meshes) clusters) _ positive (record {
      open_cluster = positive;
      small =
          All-map (λ c. not (is_big max_meshes c) ≡ true) IsSmall (λ c e. ground (arith, e))
            (filter (λ c. not (is_big max_meshes c)) clusters)
            (All-filter_self (λ c. not (is_big max_meshes c)) clusters);
    })).small,
    λ p. omega (
      arith,
      split_clusters-members p (filter (is_big max_meshes) clusters)
          (filter (λ c. not (is_big max_meshes c)) clusters)
          (omega (arith, one, length-filter (is_big max_meshes) clusters)),
      members-filter p (is_big max_meshes) clusters,
    ),
  )
