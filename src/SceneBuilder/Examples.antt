-- ===== src/SceneBuilder/Examples.antt =====
-- The theorems on the scene builder, applied to two meshes with one textured material
-- (bouncer/src/repo/manipulator/modelutility/repo_scene_builder.cpp).
use drepobouncer.Prelude.{
  ◌+◌, true, false, refl, Option, arith, ℕ, ◌≤◌, ◌≡◌, ◌&&◌, ◌||◌, List, [], ◌∷◌, none, ◌==◌,
  if◌then◌else◌, All,
}
use drepobouncer.Prelude.Map
use drepobouncer.SceneBuilder.{
  Consumable, node, parents, Material, BuiltNode, Env, SceneBuilder, new_builder, add_parent,
  finalise, add_material_reference, add_nodes,
}
use drepobouncer.SceneBuilder.Async.{
  closed, write, close, notify, Entry, taken, Async, push_size, pushes, start, count, enqueue,
  dequeue, suspend, Steps, none, more,
}
use drepobouncer.SceneBuilder.Async.Messages.{total, sends, on_way, counted_size}
use drepobouncer.SceneBuilder.Async.Laws.{queue_size_lem, written_lem}
use drepobouncer.SceneBuilder.Async.Closing.{close_lem}
use drepobouncer.SceneBuilder.Links.{linked, add_parent_lem}
use drepobouncer.SceneBuilder.References.{Written, add_material_reference_lem, add_nodes-finalise}
use drepobouncer.SceneBuilder.Validity.{IsValid, new_builder-IsValid, add_nodes-IsValid}

abbrev brick : Material
brick = record { checksum = 77; texture_path = Option.some 5 }

abbrev wall : BuiltNode
wall = record {
  unique_id = 11;
  shared_id = 21;
  parent_ids = 20 ∷ [];
  rev_id = 0;
  material = Option.some brick;
  texture_id = Option.none;
}

abbrev floor : BuiltNode
floor = record wall { unique_id = 12; shared_id = 22 }

abbrev env : Env
env = record { revision_id = 1; created = λ i. i + 1000; opens = λ p. true }

abbrev both : List BuiltNode
both = wall ∷ floor ∷ []

abbrev waiting : SceneBuilder
waiting = record new_builder { parent_updates = (11, 20 ∷ []) ∷ [] }

add_parent_lem_example :
    linked (add_parent 11 22 waiting) 11 22 ≡ (11 == 11 && 22 == 22) || linked waiting 11 22
add_parent_lem_example = add_parent_lem 11 22 11 22 waiting

add_material_reference_lem_example :
    (unique uses : ℕ) × ((k : ℕ)
      → Map.lookup k (add_material_reference env brick 21 new_builder).material_to_unique_id ≡ (
          if 77 == k
          then Option.some (unique, uses)
          else Map.lookup k new_builder.material_to_unique_id))
    × (1 ≤ uses)
    × (uses ≤ 500000)
    × (linked (add_material_reference env brick 21 new_builder) unique 21 ≡ true)
add_material_reference_lem_example = add_material_reference_lem env brick 21 new_builder

add_nodes-finalise_example :
    ((finalise (add_nodes env both new_builder)).parent_updates ≡ [])
    × All
        (λ n. Written (finalise (add_nodes env both new_builder)).queue n.shared_id n.material)
        both
add_nodes-finalise_example = add_nodes-finalise env both new_builder

add_nodes-IsValid_example : IsValid (add_nodes env both new_builder)
add_nodes-IsValid_example = add_nodes-IsValid env both new_builder new_builder-IsValid

abbrev work : List Consumable
work = node wall ∷ parents 11 (21 ∷ []) ∷ []

abbrev size_of : ℕ → ℕ
size_of u = 50

abbrev update : Entry
update = (write (parents 11 (21 ∷ [])), 100)

-- The first node is queued, and the consumer has it.
abbrev half_way : Async
half_way = record (start size_of work) {
  queue_size = 50;
  held = taken (write (node wall), 50);
  todo = update ∷ (close, 0) ∷ [];
}

half_way-Steps : Steps 80 (start size_of work) half_way
unfolding pushes push_size
half_way-Steps =
    let zero : Async = record (start size_of work) { queue_size = 50; counted = true } in
    let one : Async = record zero {
      queue = (write (node wall), 50) ∷ [];
      todo = update ∷ (close, 0) ∷ [];
      counted = false;
    } in
    more _ one _
      (more _ zero one
        (more _ _ zero (none _) (
          count (start size_of work) (write (node wall), 50) one.todo refl refl refl refl
            (omega arith)))
        (enqueue zero (write (node wall), 50) one.todo refl refl))
      (dequeue one (write (node wall), 50) [] refl refl refl)

-- The update does not fit yet: the producer waits.
abbrev waits : Async
waits = record half_way { queue = (notify, 0) ∷ []; waiting = true }

waits-Steps : Steps 80 (start size_of work) waits
waits-Steps =
    more _ half_way waits half_way-Steps
      (suspend half_way update ((close, 0) ∷ []) refl refl refl refl (omega arith) (omega arith))

work-small : All (λ c. push_size size_of c ≤ 100) work
unfolding push_size
work-small = (omega arith, (omega arith, tt))

queue_size_lem_example :
    (waits.queue_size ≤ 100)
    × (waits.queue_size ≡ total (on_way waits) + counted_size waits.counted waits.todo)
queue_size_lem_example =
    queue_size_lem 80 100 size_of work waits (omega arith) work-small waits-Steps

written_lem_example :
    (rest : List Consumable) × (write (node wall) ∷ write (parents 11 (21 ∷ [])) ∷ close ∷ []
      ≡ sends rest)
    × (rest ≡ work)
written_lem_example = written_lem 80 size_of work waits waits-Steps

close_lem_example : (b : Async) × Steps 80 waits b × (b.status ≡ closed) × (b.written ≡ work)
close_lem_example = close_lem 80 size_of work waits waits-Steps refl
