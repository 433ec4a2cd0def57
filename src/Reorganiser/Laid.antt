-- ===== src/Reorganiser/Laid.antt =====
-- The supermesh that MeshMapReorganiser of
-- bouncer/src/repo/manipulator/modelutility/repo_mesh_map_reorganiser.cpp takes, and its state between two meshes.
use drepobouncer.Prelude.{
  ℕ, ◌+◌, ◌-◌, ◌^◌, ◌≤◌, ◌<◌, ◌≡◌, sym, ap, ◌∙◌, true, false, List, [], ◌∷◌, ◌++◌, some, length,
  take, drop, get_elem?, All, take-drop, drop-drop, length-take, length-drop, arith,
}
use drepobouncer.Reorganiser.{Mapping, Face, Env, State}
use drepobouncer.Reorganiser.Drawn.{Draws, Opens}

module _ {V B : Type 0} (env : Env V B) where
  -- The limits are of machine words, and there is room for a face.
  pub record IsBounded (old : List V) : Type 0 where
    pub index_fits : env.max_vertices < 2 ^ 32
    pub vertices_fit : length old < 2 ^ 32
    pub some_face : 1 ≤ env.max_faces

  -- `read` reads the old vertices.
  abbrev pub Reads : List V → Type 0
  Reads old = (i : ℕ) → i < length old → get_elem? old i ≡ some (env.read i)

  -- A face of a mesh whose vertices are from v to w.
  abbrev pub InMesh : ℕ → ℕ → Face → Type 0
  InMesh v w g = (length g ≤ env.max_vertices) × All (λ i. (v ≤ i) × (i < w)) g

  -- The mappings of the meshes lie one behind the other from the vertex v on, and the faces are theirs.
  pub data IsLaid (n_vertices : ℕ) : ℕ → List (Mapping B) → List Face → Type 0 where
    no_more : {v : ℕ} → IsLaid n_vertices v [] []
    laid :
        {v : ℕ} {ms : List (Mapping B)} {rest : List Face} (m : Mapping B) (fs : List Face)
        → m.vert_from ≡ v
        → v < m.vert_to
        → m.vert_to ≤ n_vertices
        → m.tri_from + length fs ≡ m.tri_to
        → All (InMesh v m.vert_to) fs
        → IsLaid n_vertices m.vert_to ms rest
        → IsLaid n_vertices v (m ∷ ms) (fs ++ rest)

  -- The vertices of one mesh among the old ones that are left.
  abbrev pub region : List V → Mapping B → List V
  region old m = take (m.vert_to - m.vert_from) (drop m.vert_from old)

  pub region-left :
      (old : List V) (m : Mapping B)
      → m.vert_from ≤ m.vert_to
      → drop m.vert_from old ≡ region old m ++ drop m.vert_to old
  region-left old m le =
      let n = m.vert_to - m.vert_from in
      let to : m.vert_from + n ≡ m.vert_to = omega arith in
      sym (take-drop n (drop m.vert_from old))
      ∙ ap (◌++◌ (region old m)) (drop-drop m.vert_from n old ∙ ap (λ i. drop i old) to)

  pub length-region :
      (old : List V) (m : Mapping B)
      → m.vert_to ≤ length old
      → length (region old m) ≡ m.vert_to - m.vert_from
  length-region old m le =
      length-take (m.vert_to - m.vert_from) (drop m.vert_from old)
        (omega (arith, length-drop m.vert_from old))

  -- The vertices that are in place are `done`; behind them are the old ones from v on.
  pub record IsPlaced (old : List V) (v : ℕ) (done : List V) (s : State V B) : Type 0 where
    pub vertices_placed : s.new_vertices ≡ done ++ drop v old
    pub counted : length done ≡ s.total_vertices
    pub faces_counted : s.total_faces ≡ length s.new_faces

  -- A sub mesh is open.
  pub record IsOpen (done : List V) (gs : List Face) (s : State V B) : Type 0 where
    pub from : ℕ
    pub ends : from + s.sub_vertices ≡ s.total_vertices
    pub unfinished : s.finished ≡ false
    pub drawn : Opens env done from s.sub_vertices s.sub_faces s.new_mappings s.new_faces gs

  -- Between two meshes the last sub mesh is finished, or holds a vertex.
  pub data IsBetween (done : List V) (gs : List Face) (s : State V B) : Type 0 where
    closed :
        s.finished ≡ true
        → s.sub_vertices ≡ 0
        → Draws env done s.new_mappings s.new_faces gs
        → IsBetween done gs s
    still_open : IsOpen done gs s → 1 ≤ s.sub_vertices → IsBetween done gs s

  -- What a mesh leaves when its faces are drawn and its vertices, up to v, are in place.
  pub record IsNext (old : List V) (v : ℕ) (gs rest : List Face) (s : State V B) : Type 0 where
    pub done : List V
    pub placed : IsPlaced old v done s
    pub between : IsBetween done gs s
    pub rest_left : s.old_faces ≡ rest
