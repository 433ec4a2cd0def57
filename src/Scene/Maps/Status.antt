-- ===== src/Scene/Maps/Status.antt =====
-- The status bits of a scene (bouncer/src/repo/core/model/collection/repo_scene.h) and what
-- addNodeToScene makes of orphans.
use drepobouncer.Prelude.{
  ℕ, Bool, true, false, ◌≡◌, refl, List, [], ◌∷◌, ◌==◌, ◌||◌, if◌then◌else◌, arith,
}
use drepobouncer.Prelude.Set
use drepobouncer.Prelude.Set.{contains-insert, contains-nil}
use drepobouncer.Scene.Node.{Node}
use drepobouncer.Scene.Graph.{default, Scene}
use drepobouncer.Scene.Maps.{
  ok, >>=-eq-ok, Collection, set_missing_texture, set_missing_nodes, is_missing_texture,
  is_missing_nodes, is_ok, is_orphan, add_node_to_maps, add_one, add_node_to_scene,
}

-- After a node was found missing the scene also reports a missing texture, though none was.
pub is_missing_texture-set_missing_nodes :
    (s : Scene)
    → (is_missing_nodes (set_missing_nodes s) ≡ true)
      × (is_missing_texture (set_missing_nodes s) ≡ true)
      × (is_missing_nodes (set_missing_texture s) ≡ is_missing_nodes s)
      × (is_ok (set_missing_nodes s) ≡ false)
unfolding is_missing_nodes is_missing_texture set_missing_nodes set_missing_texture is_ok
is_missing_texture-set_missing_nodes s = (ground arith, ground arith, ground arith, ground arith)

unfoldable pub any_orphan : (ℕ → Node) → List ℕ → Bool
any_orphan h [] = false
any_orphan h (a ∷ rest) = is_orphan (h a) || any_orphan h rest

-- The shared identifiers of the nodes that are no orphans.
unfoldable pub added_ids : (ℕ → Node) → List ℕ → List ℕ
added_ids h [] = []
added_ids h (a ∷ rest) =
    if is_orphan (h a) then added_ids h rest else (h a).shared_id ∷ added_ids h rest

-- One round: the heap stays, an orphan sets the bit, and every other node of the default graph is
-- noted as added.
record AddsOne (a : ℕ) (s s' : Scene) : Type 0 where
  same_heap : s'.heap ≡ s.heap
  missing : is_missing_nodes s' ≡ is_orphan (s.heap a) || is_missing_nodes s
  noted :
      (q : ℕ)
      → Set.contains q s'.new_added ≡ (
          if is_orphan (s.heap a)
          then Set.contains q s.new_added
          else if (s.heap a).shared_id == q
          then true
          else Set.contains q s.new_added)

add_one-AddsOne :
    (k : Collection) (a : ℕ) (s s' : Scene) → add_one default k a s ≡ ok s' → AddsOne a s s'
unfolding add_one add_node_to_maps is_missing_nodes set_missing_nodes
add_one-AddsOne k a s s' e = record {
  same_heap = ground arith;
  missing = ground arith;
  noted = λ q. ground (arith, contains-insert (s.heap a).shared_id q s.new_added);
}

-- If addNodeToScene on the default graph returns, nodes are reported missing exactly when they were
-- before or one of the nodes is an orphan, and the nodes noted as added are those noted before and
-- the nodes that are no orphans.
pub add_node_to_scene_notes :
    (k : Collection) (nodes : List ℕ) (s s' : Scene) (q : ℕ)
    → add_node_to_scene default nodes k s ≡ ok s'
    → (is_missing_nodes s' ≡ any_orphan s.heap nodes || is_missing_nodes s)
      × (Set.contains q s'.new_added
          ≡ (if Set.contains q (added_ids s.heap nodes) then true else Set.contains q s.new_added))
unfolding add_node_to_scene any_orphan added_ids Set.contains
add_node_to_scene_notes k [] s s' q e = let same : s ≡ s' = cc in rw (← same) (refl, refl)
add_node_to_scene_notes k (a ∷ rest) s s' q e =
    let (s1, e1, e2) = >>=-eq-ok (add_one default k a s) (add_node_to_scene default rest k) e in
    let one = add_one-AddsOne k a s s1 e1 in
    let all = add_node_to_scene_notes k rest s1 s' q e2 in
    let missing = one.missing in
    let noted = one.noted q in
    let (all_missing, all_noted) = rw one.same_heap at all in
    (ground (arith, missing, all_missing), ground (arith, noted, all_noted))
