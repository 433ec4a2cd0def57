-- ===== src/Multipart/Packed.antt =====
-- The supermeshes of createSuperMeshes in bouncer/src/repo/manipulator/modeloptimizer/repo_optimizer_multipart.cpp
-- hold the meshes of the cluster.
use drepobouncer.Prelude.{
  ℕ, suc, ◌+◌, ◌≤◌, ◌<◌, ◌≡◌, refl, sym, ap, ◌∙◌, Bool, true, List, [], ◌∷◌, ◌++◌, Option, none,
  some, map, length, length-append, All, count, count-append, if-cases, if◌then◌else◌, leb, ltb,
  ◌==◌, get_elem?-append, get_elem?-behind, ◌&&◌, append_assoc, append-nil, arith,
}
use drepobouncer.Multipart.Reindexed.{Shows, AllShow}
use drepobouncer.Multipart.Clusters.{
  Mesh, Mapping, Supermesh, Created, super_mesh, split, State, new_mesh, channels_with, merged,
  append_mesh, append_to_current, split_up, start_next, add_mesh, add_meshes, add_last,
  create_super_meshes,
}

-- There is a result, and the predicate holds of it.
abbrev pub Gives {ℓ} : {A : Type ℓ} → (A → Type 0) → Option A → Type 0
Gives P none = ⊥
Gives P (some a) = P a

Gives-map :
    {A B : Type 0} (P : A → Type 0) (Q : B → Type 0) (o : Option A) (k : A → B)
    → Gives P o
    → ((a : A) → P a → Q (k a))
    → Gives Q (elim o [ none ↦ none | some a ↦ some (k a) ])
Gives-map P Q none k h next = h
Gives-map P Q (some a) k h next = next a h

Gives-bind :
    {A B : Type 0} (P : A → Type 0) (Q : B → Type 0) (o : Option A) (k : A → Option B)
    → Gives P o
    → ((a : A) → P a → Gives Q (k a))
    → Gives Q (elim o [ none ↦ none | some a ↦ k a ])
Gives-bind P Q none k h next = absurd h
Gives-bind P Q (some a) k h next = next a h

-- The mappings of a supermesh cut its vertices and faces into the pieces of its meshes, in order, each with vertices; the indices are
-- the numbers of its vertices and of its faces.
pub data Tiles : List Mapping → List Mesh → ℕ → ℕ → Type 0 where
  no_tile : Tiles [] [] 0 0
  next_tile :
      {ms : List Mapping} {group : List Mesh} {v f : ℕ} (m : Mesh) (v' f' : ℕ)
      → 0 < length m.vertices
      → v' ≡ v + length m.vertices
      → f' ≡ f + length m.faces
      → Tiles ms group v f
      → Tiles
          (ms
            ++ record {
              shared_id = m.shared_id;
              vert_from = v;
              vert_to = v + length m.vertices;
              tri_from = f;
              tri_to = f + length m.faces;
            }
              ∷ [])
          (group ++ m ∷ [])
          v'
          f'

Shows-append : (vs ws f g : List ℕ) → Shows vs f g → Shows (vs ++ ws) f g
Shows-append vs ws [] [] h = tt
Shows-append vs ws [] (i ∷ g) h = h
Shows-append vs ws (j ∷ f) [] h = h
Shows-append vs ws (j ∷ f) (i ∷ g) h = (get_elem?-append vs ws j i h.0, Shows-append vs ws f g h.1)

AllShow-append :
    (vs ws : List ℕ) (fs gs : List (List ℕ)) → AllShow vs fs gs → AllShow (vs ++ ws) fs gs
AllShow-append vs ws [] [] h = tt
AllShow-append vs ws [] (g ∷ gs) h = h
AllShow-append vs ws (f ∷ fs) [] h = h
AllShow-append vs ws (f ∷ fs) (g ∷ gs) h =
    (Shows-append vs ws f g h.0, AllShow-append vs ws fs gs h.1)

Shows-behind :
    (vs ws f g : List ℕ) → Shows ws f g → Shows (vs ++ ws) (map (λ idx. length vs + idx) f) g
Shows-behind vs ws [] [] h = tt
Shows-behind vs ws [] (i ∷ g) h = h
Shows-behind vs ws (j ∷ f) [] h = h
Shows-behind vs ws (j ∷ f) (i ∷ g) h =
    (get_elem?-behind vs ws (length vs) j refl ∙ h.0, Shows-behind vs ws f g h.1)

AllShow-behind :
    (vs ws : List ℕ) (fs gs : List (List ℕ))
    → AllShow ws fs gs
    → AllShow (vs ++ ws) (map (map (λ idx. length vs + idx)) fs) gs
AllShow-behind vs ws [] [] h = tt
AllShow-behind vs ws [] (g ∷ gs) h = h
AllShow-behind vs ws (f ∷ fs) [] h = h
AllShow-behind vs ws (f ∷ fs) (g ∷ gs) h =
    (Shows-behind vs ws f g h.0, AllShow-behind vs ws fs gs h.1)

AllShow-both :
    (vs : List ℕ) (fs gs fs' gs' : List (List ℕ))
    → AllShow vs fs gs
    → AllShow vs fs' gs'
    → AllShow vs (fs ++ fs') (gs ++ gs')
AllShow-both vs [] [] fs' gs' h k = k
AllShow-both vs [] (g ∷ gs) fs' gs' h k = absurd h
AllShow-both vs (f ∷ fs) [] fs' gs' h k = absurd h
AllShow-both vs (f ∷ fs) (g ∷ gs) fs' gs' h k = (h.0, AllShow-both vs fs gs fs' gs' h.1 k)

length-map : {A B : Type 0} (f : A → B) (xs : List A) → length (map f xs) ≡ length xs
length-map f [] = refl
length-map f (x ∷ xs) = ap suc (length-map f xs)

-- `corners` are the vertices at the corners of the faces of a mesh.
module _ (max_vertex_count : ℕ) (corners : Mesh → List (List ℕ)) (channels : ℕ) where
  abbrev pub all_corners : List Mesh → List (List ℕ)
  all_corners [] = []
  all_corners (m ∷ meshes) = corners m ++ all_corners meshes

  -- A mesh as it should be: with vertices and faces, the number of channels of its cluster, and no face that uses
  -- a vertex that is not there.
  pub record IsWhole (m : Mesh) : Type 0 where
    pub has_vertices : 0 < length m.vertices
    pub has_faces : 0 < length m.faces
    pub same_channels : m.uv_channels ≡ channels
    pub has_corners : AllShow m.vertices m.faces (corners m)

  -- The supermesh is within the limit and shows the meshes of the group.
  pub record Packs (s : Supermesh) (group : List Mesh) : Type 0 where
    pub small : length s.vertices ≤ max_vertex_count
    pub shown : AllShow s.vertices s.faces (all_corners group)
    pub tiled : Tiles s.mesh_mapping group (length s.vertices) (length s.faces)

  -- What is created, and the meshes in it: a mesh is split where it is above the limit.
  pub data Holds : List Created → List Mesh → Type 0 where
    holds_none : Holds [] []
    holds_super_mesh :
        {created : List Created} {meshes : List Mesh} (s : Supermesh) (group : List Mesh)
        → Packs s group
        → Holds created meshes
        → Holds (created ++ super_mesh s ∷ []) (meshes ++ group)
    holds_split :
        {created : List Created} {meshes : List Mesh} (m : Mesh)
        → max_vertex_count < length m.vertices
        → Holds created meshes
        → Holds (created ++ split m ∷ []) (meshes ++ m ∷ [])

  corners-append :
      (group : List Mesh) (m : Mesh)
      → all_corners (group ++ m ∷ []) ≡ all_corners group ++ corners m
  corners-append [] m = append-nil (corners m)
  corners-append (n ∷ group) m =
      ap (◌++◌ (corners n)) (corners-append group m)
      ∙ sym (append_assoc (corners n) (all_corners group) (corners m))

  merged-Packs :
      (m : Mesh) (s : Supermesh) (group : List Mesh)
      → IsWhole m
      → Packs s group
      → length s.vertices + length m.vertices ≤ max_vertex_count
      → Packs (merged m s) (group ++ m ∷ [])
  merged-Packs m s group whole h le = record {
    small = omega (arith, length-append s.vertices m.vertices, le);
    shown = rw (corners-append group m) (
        AllShow-both (s.vertices ++ m.vertices) s.faces (all_corners group)
          (map (map (λ idx. length s.vertices + idx)) m.faces) (corners m)
          (AllShow-append s.vertices m.vertices s.faces (all_corners group) h.shown)
          (AllShow-behind s.vertices m.vertices m.faces (corners m) whole.has_corners));
    tiled =
        next_tile m _ _ whole.has_vertices (length-append s.vertices m.vertices)
          (length-append s.faces (map (map (λ idx. length s.vertices + idx)) m.faces)
            ∙ ap (◌+◌ (length s.faces)) (length-map (map (λ idx. length s.vertices + idx)) m.faces))
          h.tiled;
  }

  -- The supermesh takes the channels of the cluster.
  abbrev pub Takes : Supermesh → Type 0
  Takes s = (if s.uv_channels == 0 then channels else s.uv_channels) ≡ channels

  append_mesh-Packs :
      (m : Mesh) (s : Supermesh) (group : List Mesh)
      → IsWhole m
      → Packs s group
      → Takes s
      → length s.vertices + length m.vertices ≤ max_vertex_count
      → Gives (λ s1. Packs s1 (group ++ m ∷ []) × Takes s1) (append_mesh m s)
  unfolding append_mesh
  append_mesh-Packs m s group whole h takes le =
      let there : (ltb 0 (length m.vertices) && ltb 0 (length m.faces)) ≡ true =
        ground (arith, whole.has_vertices, whole.has_faces) in
      let same : channels_with m s ≡ channels = rw whole.same_channels takes in
      let equal : (channels_with m s == m.uv_channels) ≡ true =
        ground (arith, same, whole.same_channels) in
      rw there (
        rw equal (
          merged-Packs m s group whole h le,
          if-cases (λ n. n ≡ channels) (channels_with m s == 0) channels (channels_with m s)
              (λ _. refl) (λ _. same),
        ))

  -- The state of the loop, when it has the rest of all the meshes before it
  record IsRunning (all rest : List Mesh) (st : State) : Type 0 where
    group : List Mesh
    meshes : List Mesh
    packed : Packs st.current_supermesh group
    takes : Takes st.current_supermesh
    holds : Holds st.created meshes
    kept : (p : Mesh → Bool) → (count p meshes + count p group) + count p rest ≡ count p all

  new_mesh-Packs : Packs new_mesh []
  new_mesh-Packs = record { small = omega arith; shown = tt; tiled = no_tile }

  append_to_current-IsRunning :
      (all rest : List Mesh) (m : Mesh) (st : State)
      → IsWhole m
      → IsRunning all (m ∷ rest) st
      → length st.current_supermesh.vertices + length m.vertices ≤ max_vertex_count
      → Gives (IsRunning all rest) (append_to_current max_vertex_count m st)
  append_to_current-IsRunning all rest m st whole h le =
      Gives-map (λ s. Packs s (h.group ++ m ∷ []) × Takes s) (IsRunning all rest)
        (append_mesh m st.current_supermesh) _
        (append_mesh-Packs m st.current_supermesh h.group whole h.packed h.takes le)
        (λ s k. record {
          group = h.group ++ m ∷ [];
          meshes = h.meshes;
          packed = k.0;
          takes = k.1;
          holds = h.holds;
          kept = λ p. ground (arith, h.kept p, count-append p h.group (m ∷ []));
        })

  split_up-IsRunning :
      (all rest : List Mesh) (m : Mesh) (st : State)
      → IsRunning all (m ∷ rest) st
      → max_vertex_count < length m.vertices
      → IsRunning all rest (split_up max_vertex_count m st)
  split_up-IsRunning all rest m st h lt = record {
    group = h.group;
    meshes = h.meshes ++ m ∷ [];
    packed = h.packed;
    takes = h.takes;
    holds = holds_split m lt h.holds;
    kept = λ p. ground (arith, h.kept p, count-append p h.meshes (m ∷ []));
  }

  start_next-IsRunning :
      (all rest : List Mesh) (m : Mesh) (st : State)
      → IsWhole m
      → IsRunning all (m ∷ rest) st
      → length m.vertices ≤ max_vertex_count
      → Gives (IsRunning all rest) (start_next max_vertex_count m st)
  start_next-IsRunning all rest m st whole h le =
      Gives-map (λ s. Packs s (m ∷ []) × Takes s) (IsRunning all rest) (append_mesh m new_mesh) _
        (append_mesh-Packs m new_mesh [] whole new_mesh-Packs refl (omega (arith, le)))
        (λ s k. record {
          group = m ∷ [];
          meshes = h.meshes ++ h.group;
          packed = k.0;
          takes = k.1;
          holds = holds_super_mesh st.current_supermesh h.group h.packed h.holds;
          kept = λ p. ground (arith, h.kept p, count-append p h.meshes h.group);
        })

  add_mesh-IsRunning :
      (all rest : List Mesh) (m : Mesh) (st : State)
      → IsWhole m
      → IsRunning all (m ∷ rest) st
      → Gives (IsRunning all rest) (add_mesh max_vertex_count m st)
  unfolding add_mesh
  add_mesh-IsRunning all rest m st whole h =
      if-cases (Gives (IsRunning all rest))
        (leb (length st.current_supermesh.vertices + length m.vertices) max_vertex_count)
        (append_to_current max_vertex_count m st)
        (if ltb max_vertex_count (length m.vertices)
          then some (split_up max_vertex_count m st)
          else start_next max_vertex_count m st)
        (λ fits. append_to_current-IsRunning all rest m st whole h (ground (arith, fits)))
        (λ _.
          if-cases (Gives (IsRunning all rest)) (ltb max_vertex_count (length m.vertices))
            (some (split_up max_vertex_count m st)) (start_next max_vertex_count m st)
            (λ above. split_up-IsRunning all rest m st h (ground (arith, above)))
            (λ below. start_next-IsRunning all rest m st whole h (ground (arith, below))))

  add_meshes-IsRunning :
      (all rest : List Mesh) (st : State)
      → All IsWhole rest
      → IsRunning all rest st
      → Gives (IsRunning all []) (add_meshes max_vertex_count rest st)
  unfolding add_meshes
  add_meshes-IsRunning all [] st whole h = h
  add_meshes-IsRunning all (m ∷ rest) st whole h =
      Gives-bind (IsRunning all rest) (IsRunning all []) (add_mesh max_vertex_count m st)
        (add_meshes max_vertex_count rest) (add_mesh-IsRunning all rest m st whole.0 h)
        (λ st1 h1. add_meshes-IsRunning all rest st1 whole.1 h1)

  -- The meshes of the cluster are those in what is created, each as often.
  abbrev pub IsSorted : List Mesh → List Created → Type 0
  IsSorted all created =
      (meshes : List Mesh) × Holds created meshes
      × ((p : Mesh → Bool) → count p meshes ≡ count p all)

  Tiles-nil :
      {ms : List Mapping} {group : List Mesh} {v f : ℕ} → Tiles ms group v f → v ≡ 0 → group ≡ []
  Tiles-nil no_tile e = refl
  Tiles-nil (next_tile m v' f' positive ev ef t) e = absurd (omega (arith, positive, ev, e))

  add_last-IsSorted :
      (all : List Mesh) (st : State)
      → IsRunning all [] st
      → IsSorted all (add_last max_vertex_count st)
  add_last-IsSorted all st h =
      if-cases (IsSorted all) (ltb 0 (length st.current_supermesh.vertices))
        (st.created ++ super_mesh st.current_supermesh ∷ []) st.created
        (λ _. (
          h.meshes ++ h.group,
          holds_super_mesh st.current_supermesh h.group h.packed h.holds,
          λ p. ground (arith, h.kept p, count-append p h.meshes h.group),
        ))
        (λ empty.
          let e : h.group ≡ [] = Tiles-nil h.packed.tiled (ground (arith, empty)) in
          (h.meshes, h.holds, λ p. omega (arith, h.kept p, ap (count p) e)))

  -- Where each mesh of the cluster has vertices, faces, the same number of UV channels and no face that uses a vertex
  -- that is not there: no exception is thrown, each mesh is as often in what is created as in the cluster, only
  -- meshes above the limit are split, and each supermesh is within the limit, its mappings cut it into the meshes
  -- that it holds, and its faces show those of the meshes: at each index stands the vertex that the mesh has there.
  pub create_super_meshes_lem :
      (meshes : List Mesh)
      → All IsWhole meshes
      → Gives (IsSorted meshes) (create_super_meshes max_vertex_count meshes)
  unfolding create_super_meshes
  create_super_meshes_lem meshes whole =
      Gives-map (IsRunning meshes []) (IsSorted meshes) (add_meshes max_vertex_count meshes _) _
        (add_meshes-IsRunning meshes meshes _ whole (record {
          group = [];
          meshes = [];
          packed = new_mesh-Packs;
          takes = refl;
          holds = holds_none;
          kept = λ p. omega arith;
        }))
        (λ st h. add_last-IsSorted meshes st h)
