-- ===== src/Reorganiser/Perform.antt =====
-- performSplitting and the constructor of
-- bouncer/src/repo/manipulator/modelutility/repo_mesh_map_reorganiser.cpp.
use drepobouncer.Prelude.{suc, true, List, [], ◌∷◌, Option, none, some, ◌==◌, if◌then◌else◌, length}
use drepobouncer.Prelude.Map
use drepobouncer.Reorganiser.{
  Mapping, Face, Env, State, finish_sub_mesh, new_mat_map_entry, add_small_mesh, open_sub_mesh,
  needs_sub_mesh, is_large,
}
use drepobouncer.Reorganiser.Large.{split_large_mesh}

module _ {V B : Type 0} (env : Env V B) where
  abbrev pub after_large : Option (State V B) → Option (State V B)
  after_large none = none
  after_large (some s) = some (record s { id_map_idx = suc s.id_map_idx; finished = true })

  -- The mesh is added to the sub mesh that is open.
  unfoldable pub add_opened : Mapping B → State V B → Option (State V B)
  add_opened m s =
      if is_large env m
      then after_large
          (split_large_mesh env m (new_mat_map_entry env m s.total_vertices s.total_faces s))
      else some (add_small_mesh env m s)

  -- One round of the loop of performSplitting.
  unfoldable pub add_mapping : Mapping B → State V B → Option (State V B)
  add_mapping m s =
      let s1 : State V B = record s { split_map = Map.insert m.mesh_id [] s.split_map } in
      add_opened m (if needs_sub_mesh env m s1 then open_sub_mesh env s1 else s1)

  unfoldable pub add_mappings : List (Mapping B) → State V B → Option (State V B)
  add_mappings [] s = some s
  add_mappings (m ∷ ms) s = elim (add_mapping m s) [ none ↦ none | some s' ↦ add_mappings ms s' ]

  -- The test after the loop.
  unfoldable pub finish_last : State V B → State V B
  finish_last s =
      if s.sub_vertices == 0
      then s
      else record (finish_sub_mesh env s.bbox s.sub_vertices s.sub_faces s) { bbox = none }

  abbrev pub start : List V → List Face → State V B
  start vertices faces = record {
    old_faces = faces;
    new_vertices = vertices;
    new_faces = [];
    serialised_faces = [];
    id_map_buf = [];
    mat_map = [];
    split_map = [];
    new_mappings = [];
    id_map_idx = 0;
    sub_vertices = 0;
    sub_faces = 0;
    total_vertices = 0;
    total_faces = 0;
    finished = true;
    bbox = none;
  }

  abbrev pub finish_if : Option (State V B) → Option (State V B)
  finish_if none = none
  finish_if (some s) = some (finish_last s)

  -- performSplitting; `none` is the result false
  unfoldable pub perform_splitting : List V → List Face → List (Mapping B) → Option (State V B)
  perform_splitting vertices faces mappings =
      finish_if (add_mappings mappings (start vertices faces))

  -- The constructor: reMapSuccess and what is kept. A mesh without mappings is not remapped.
  unfoldable pub reorganise : List V → List Face → List (Mapping B) → Option (State V B)
  reorganise vertices faces mappings =
      if length mappings == 0 then none else perform_splitting vertices faces mappings
