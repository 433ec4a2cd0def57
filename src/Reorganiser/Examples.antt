-- ===== src/Reorganiser/Examples.antt =====
-- A supermesh of three meshes for
-- bouncer/src/repo/manipulator/modelutility/repo_mesh_map_reorganiser.cpp: the second exceeds the limits.
use drepobouncer.Prelude.{
  ℕ, zero, suc, ◌<◌, ◌≡◌, refl, sym, ap, ◌∙◌, List, [], ◌∷◌, ◌++◌, Option, none, some, length,
  get_elem?, reverse_onto, max, arith,
}
use drepobouncer.Reorganiser.{
  Mapping, Face, Env, State, is_large, new_mat_map_entry, needs_sub_mesh, add_small_mesh,
  complete_last, push_split, update_id_map_array, add_small_faces, open_sub_mesh, start_sub_mesh,
  close_sub_mesh, add_small_face, finish_sub_mesh, serialise, shift_face, shifted,
  update_bounding_boxes,
}
use drepobouncer.Reorganiser.Large.{
  large_round, finish_large, in_range, is_full, make_room, next_sub_mesh, push_face, re_index,
  re_index_face, resize_region, split_large_mesh, large_rounds,
}
use drepobouncer.Prelude.Map
use drepobouncer.Reorganiser.Perform.{
  perform_splitting, add_mappings, add_mapping, add_opened, finish_last, start,
}
use drepobouncer.Reorganiser.Drawn.{Draws}
use drepobouncer.Reorganiser.Laid.{IsBounded, Reads, IsLaid, no_more, laid}
use drepobouncer.Reorganiser.Splitting.{perform_splitting-Draws}
use drepobouncer.Reorganiser.Parallel.{serialise_all}
use drepobouncer.Reorganiser.ParallelKept.{Buffers, perform_splitting-Ids}
use drepobouncer.Reorganiser.Serialised.{indices, perform_splitting-indices}

abbrev old_vertices : List ℕ
old_vertices = 100 ∷ 101 ∷ 102 ∷ 103 ∷ 104 ∷ 105 ∷ 106 ∷ 107 ∷ 108 ∷ 109 ∷ 110 ∷ []

abbrev or_zero : Option ℕ → ℕ
or_zero none = 0
or_zero (some v) = v

abbrev env : Env ℕ ℕ
env = record {
  max_vertices = 4;
  max_faces = 2;
  read = λ i. or_zero (get_elem? old_vertices i);
  blank = 0;
  point = λ v. v;
  hull = max;
  no_box = 0;
  default_id = 0;
}

abbrev mapping : ℕ → ℕ → ℕ → ℕ → ℕ → Mapping ℕ
mapping id from to tri_from tri_to = record {
  box = id;
  mesh_id = id;
  shared_id = id;
  material_id = id;
  vert_from = from;
  vert_to = to;
  tri_from = tri_from;
  tri_to = tri_to;
}

abbrev mappings : List (Mapping ℕ)
mappings = mapping 1 0 3 0 1 ∷ mapping 2 3 8 1 4 ∷ mapping 3 8 11 4 5 ∷ []

abbrev first_faces : List Face
first_faces = (0 ∷ 1 ∷ 2 ∷ []) ∷ []

abbrev second_faces : List Face
second_faces = (3 ∷ 4 ∷ 5 ∷ []) ∷ (5 ∷ 6 ∷ 7 ∷ []) ∷ (3 ∷ 7 ∷ 4 ∷ []) ∷ []

abbrev third_faces : List Face
third_faces = (8 ∷ 9 ∷ 10 ∷ []) ∷ []

abbrev faces : List Face
faces = first_faces ++ (second_faces ++ (third_faces ++ []))

bounded : IsBounded env old_vertices
bounded = record { index_fits = omega arith; vertices_fit = omega arith; some_face = omega arith }

inside : (vs : List ℕ) (i : ℕ) → i < length vs → get_elem? vs i ≡ some (or_zero (get_elem? vs i))
inside [] i lt = absurd (omega arith)
inside (v ∷ vs) zero lt = refl
inside (v ∷ vs) (suc i) lt = inside vs i (omega arith)

reads : Reads env old_vertices
reads = inside old_vertices

is_laid : IsLaid env (length old_vertices) 0 mappings faces
is_laid =
    laid (mapping 1 0 3 0 1) first_faces refl (omega arith) (omega arith) refl (ground arith) (
      laid (mapping 2 3 8 1 4) second_faces refl (omega arith) (omega arith) refl (ground arith) (
        laid (mapping 3 8 11 4 5) third_faces refl (omega arith) (omega arith) refl (ground arith)
          no_more))

perform_splitting-Draws_example :
    (s : State ℕ ℕ) × (perform_splitting env old_vertices faces mappings ≡ some s)
    × Draws env s.new_vertices s.new_mappings s.new_faces (reverse_onto faces [])
perform_splitting-Draws_example =
    perform_splitting-Draws env old_vertices mappings faces bounded reads is_laid

abbrev or_start : Option (State ℕ ℕ) → State ℕ ℕ
or_start none = start env [] []
or_start (some s) = s

abbrev split : State ℕ ℕ
split = or_start (perform_splitting env old_vertices faces mappings)

is_split : perform_splitting env old_vertices faces mappings ≡ some split
is_split =
    let (s, e, drawn) =
      perform_splitting-Draws env old_vertices mappings faces bounded reads is_laid in
    e ∙ ap some (sym (ap or_start e))

-- The second mesh is cut in two, and two of its vertices are doubled.
split-vertices :
    split.new_vertices
    ≡ 100 ∷ 101 ∷ 102 ∷ 103 ∷ 104 ∷ 105 ∷ 105 ∷ 106 ∷ 107 ∷ 103 ∷ 107 ∷ 104 ∷ 108 ∷ 109 ∷ 110 ∷ []
unfolding perform_splitting add_mappings add_mapping add_opened finish_last is_large
    new_mat_map_entry needs_sub_mesh add_small_mesh complete_last push_split update_id_map_array
    add_small_faces open_sub_mesh start_sub_mesh close_sub_mesh add_small_face finish_sub_mesh
    serialise shift_face shifted update_bounding_boxes large_round finish_large in_range is_full
    make_room next_sub_mesh push_face re_index re_index_face resize_region split_large_mesh
    large_rounds Map.insert Map.lookup
split-vertices = refl

perform_splitting-Ids_example :
    (s : State ℕ ℕ) × (perform_splitting env old_vertices faces mappings ≡ some s)
    × (s.serialised_faces ≡ serialise_all s.new_faces)
    × Buffers env s.id_map_buf s.new_mappings
perform_splitting-Ids_example =
    perform_splitting-Ids env old_vertices mappings faces bounded reads is_laid

perform_splitting-indices_example : split.serialised_faces ≡ indices split.new_faces
perform_splitting-indices_example =
    perform_splitting-indices env old_vertices mappings faces split bounded reads is_laid
      (omega arith) is_split
