-- ===== src/MeshBuilder/Examples.antt =====
-- The theorems on meshes, applied to two triangles and an edge with numbers for points
-- (bouncer/src/repo/manipulator/modelconvertor/import/odaHelper/repo_mesh_builder.cpp).
use drepobouncer.Prelude.{
  ◌≤◌, ℕ, ◌≡◌, ◌+◌, ◌⊎◌, refl, not, List, [], ◌∷◌, none, some, arith, length, All, max,
}
use drepobouncer.Prelude.Map
use drepobouncer.MeshBuilder.{
  Face, MeshData, Builder, MeshNode, ok, thrown, has_uvs, add_face, extract_nodes, extract_meshes,
  mesh_node, sizes_match,
}
use drepobouncer.MeshBuilder.Shape.{IsValid}
use drepobouncer.MeshBuilder.Adding.{Handled, add_face_lem}
use drepobouncer.MeshBuilder.Extract.{Fits, Makes, IsNode, extract_nodes_lem, mixed_triangles_throw}

abbrev plain : Face ℕ ℕ ℕ
plain = record { vertices = 1 ∷ 2 ∷ 3 ∷ []; norm = 9; uvs = λ i. i; num_uvs = 0 }

abbrev textured : Face ℕ ℕ ℕ
textured = record plain { num_uvs = 3 }

abbrev edge : Face ℕ ℕ ℕ
edge = record plain { vertices = 4 ∷ 5 ∷ [] }

abbrev shift : ℕ → ℕ
shift v = v + 100

abbrev keep : ℕ → ℕ
keep x = x

-- The box is the largest point.
abbrev widen : ℕ → ℕ → ℕ
widen v box = max v box

abbrev no_meshes : Builder ℕ ℕ ℕ ℕ
no_meshes = record { current_mesh = none; meshes = [] }

no_meshes-IsValid : IsValid no_meshes
unfolding Map.lookup
no_meshes-IsValid = record { shaped = λ k m e. absurd (cc e); current = λ k e. absurd (cc e) }

-- The mesh of the triangle without texture coordinates.
abbrev one_triangle : MeshData ℕ ℕ ℕ ℕ
one_triangle = record {
  faces = (0 ∷ 1 ∷ 2 ∷ []) ∷ [];
  bounding_box = 103;
  vertices = 101 ∷ 102 ∷ 103 ∷ [];
  normals = 9 ∷ 9 ∷ 9 ∷ [];
  uvs = [];
  format = 769;
}

abbrev with_triangle : Builder ℕ ℕ ℕ ℕ
with_triangle = record { current_mesh = some 769; meshes = (769, one_triangle) ∷ [] }

add_face_lem_example :
    ((length plain.vertices ≡ 0) × (add_face shift widen 0 plain no_meshes ≡ thrown no_meshes))
    ⊎ ((1 ≤ length plain.vertices)
        × ((b' : Builder ℕ ℕ ℕ ℕ) × IsValid b' × Handled shift widen 0 plain no_meshes b' 769))
add_face_lem_example = add_face_lem shift widen 0 plain no_meshes no_meshes-IsValid (omega arith)

extract_nodes_lem_example :
    ((extract_nodes keep keep with_triangle.meshes ≡ none) × ¬ All Fits with_triangle.meshes)
    ⊎ ((ns : List (MeshNode ℕ ℕ ℕ)) × (extract_nodes keep keep with_triangle.meshes ≡ some ns)
        × All Fits with_triangle.meshes
        × Makes keep keep with_triangle.meshes ns
        × All IsNode ns)
extract_nodes_lem_example = extract_nodes_lem keep keep with_triangle.meshes

mixed : has_uvs textured ≡ not (has_uvs plain)
unfolding has_uvs
mixed = refl

mixed_triangles_throw_example :
    (b1 b2 : Builder ℕ ℕ ℕ ℕ) × (add_face shift widen 0 textured no_meshes ≡ ok b1)
    × (add_face shift widen 0 plain b1 ≡ ok b2)
    × (extract_meshes {V = ℕ} {N = ℕ} keep keep b2 ≡ none)
mixed_triangles_throw_example =
    mixed_triangles_throw shift widen 0 keep keep textured plain no_meshes no_meshes-IsValid refl
      refl mixed

abbrev triangle_node : MeshNode ℕ ℕ ℕ
triangle_node = record {
  vertices = 101 ∷ 102 ∷ 103 ∷ [];
  faces = (0 ∷ 1 ∷ 2 ∷ []) ∷ [];
  normals = 9 ∷ 9 ∷ 9 ∷ [];
  uv_channels = [];
}

extract_triangle :
    extract_meshes keep keep with_triangle
    ≡ some (triangle_node ∷ [], record with_triangle { meshes = [] })
unfolding extract_meshes extract_nodes sizes_match mesh_node
extract_triangle = refl
