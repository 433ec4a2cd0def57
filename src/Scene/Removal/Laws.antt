-- ===== src/Scene/Removal/Laws.antt =====
-- What removeNode of bouncer/src/repo/core/model/collection/repo_scene.cpp takes away and leaves.
use drepobouncer.Prelude.{
  ℕ, Bool, true, false, ◌≡◌, ◌↔◌, refl, ap, [], ◌∷◌, none, some, ◌==◌, if◌then◌else◌, arith, inl,
  inr, Bool-cases, Option-cases,
}
use drepobouncer.Prelude.Map
use drepobouncer.Prelude.Map.{lookup-erase, lookup-nil}
use drepobouncer.Prelude.Set
use drepobouncer.Prelude.Set.{contains-insert_all, contains-append, contains-nil}
use drepobouncer.Scene.Node.{Node, NodeType}
use drepobouncer.Scene.Graph.{
  GraphType, default, optimized, Graph, Scene, empty_graph, graph_of, get_node_by_shared_id,
  get_children_as_nodes,
}
use drepobouncer.Scene.Inherit.Children.{children_of}
use drepobouncer.Scene.Removal.{
  erase_from, unmap, forget, note_removed, remove_node, values, keys, clear_stash, reset_change_set,
}

record SameMaps (g g' : Graph) : Type 0 where
  nodes : g'.nodes_by_unique_id ≡ g.nodes_by_unique_id
  ids : g'.shared_id_to_unique_id ≡ g.shared_id_to_unique_id
  children : g'.parent_to_children ≡ g.parent_to_children

erase_from-SameMaps :
    (h : ℕ → Node) (k : NodeType) (a : ℕ) (g : Graph) → SameMaps g (erase_from h k a g)
unfolding erase_from
erase_from-SameMaps h NodeType.revision a g = record { nodes = refl; ids = refl; children = refl }
erase_from-SameMaps h _ a g = record { nodes = refl; ids = refl; children = refl }

graph-note_removed :
    (t : GraphType) (id a : ℕ) (s : Scene) → graph_of t (note_removed t id a s) ≡ graph_of t s
unfolding note_removed
graph-note_removed default id a s = ground arith
graph-note_removed optimized id a s = refl

graph-remove_node :
    (t : GraphType) (id a : ℕ) (s : Scene)
    → get_node_by_shared_id t id s ≡ some a
    → graph_of t (remove_node t id s) ≡ forget s.heap id a (graph_of t s)
unfolding remove_node
graph-remove_node default id a s e = rw (e, remove_node) (graph-note_removed default id a _)
graph-remove_node optimized id a s e = rw (e, remove_node) (graph-note_removed optimized id a _)

forget_lookups :
    (h : ℕ → Node) (id a k : ℕ) (g : Graph)
    → (Map.lookup k (forget h id a g).nodes_by_unique_id
        ≡ (if (h a).unique_id == k then none else Map.lookup k g.nodes_by_unique_id))
      × (Map.lookup k (forget h id a g).shared_id_to_unique_id
          ≡ (if id == k then none else Map.lookup k g.shared_id_to_unique_id))
      × (children_of (forget h id a g) k ≡ (if id == k then [] else children_of g k))
unfolding forget unmap
forget_lookups h id a k g =
    let same = erase_from-SameMaps h (h a).type a (unmap (h a).unique_id id g) in
    (
      rw same.nodes (lookup-erase (h a).unique_id k g.nodes_by_unique_id),
      rw same.ids (lookup-erase id k g.shared_id_to_unique_id),
      rw same.children (ground (arith, lookup-erase id k g.parent_to_children)),
    )

-- removeNode of a node that is found: its own identifiers and its own list of children are gone, and
-- every other identifier and every other list are as before, the lists that hold the node included.
pub remove_node_lookups :
    (t : GraphType) (id a k : ℕ) (s : Scene)
    → get_node_by_shared_id t id s ≡ some a
    → (Map.lookup k (graph_of t (remove_node t id s)).nodes_by_unique_id ≡ (
        if (s.heap a).unique_id == k then none else Map.lookup k (graph_of t s).nodes_by_unique_id))
      × (Map.lookup k (graph_of t (remove_node t id s)).shared_id_to_unique_id
          ≡ (if id == k then none else Map.lookup k (graph_of t s).shared_id_to_unique_id))
      × (get_children_as_nodes t k (remove_node t id s)
          ≡ (if id == k then [] else get_children_as_nodes t k s))
remove_node_lookups t id a k s e =
    rw (graph-remove_node t id a s e) (forget_lookups s.heap id a k (graph_of t s))

remove_node_missing :
    (t : GraphType) (id : ℕ) (s : Scene)
    → get_node_by_shared_id t id s ≡ none
    → remove_node t id s ≡ s
unfolding remove_node
remove_node_missing t id s e = rw (e, remove_node)

get_node_by_shared_id_missing :
    (t : GraphType) (id : ℕ) (s : Scene)
    → Map.lookup id (graph_of t s).shared_id_to_unique_id ≡ none
    → get_node_by_shared_id t id s ≡ none
unfolding get_node_by_shared_id
get_node_by_shared_id_missing t id s e = rw (e, get_node_by_shared_id)

gone :
    (t : GraphType) (id a : ℕ) (s : Scene)
    → get_node_by_shared_id t id s ≡ some a
    → get_node_by_shared_id t id (remove_node t id s) ≡ none
gone t id a s e =
    get_node_by_shared_id_missing t id (remove_node t id s)
      (ground (arith, remove_node_lookups t id a id s e))

-- A second removeNode of the same shared identifier does nothing, whether or not the first found a
-- node; so no node is deleted twice in this way.
pub remove_node_again :
    (t : GraphType) (id : ℕ) (s : Scene)
    → remove_node t id (remove_node t id s) ≡ remove_node t id s
remove_node_again t id s = elim (Option-cases (get_node_by_shared_id t id s)) [
  | inl e ↦ ap (remove_node t id) (remove_node_missing t id s e)
  | inr (a, e) ↦ remove_node_missing t id (remove_node t id s) (gone t id a s e)
]

contains-values :
    (m : Map.Map ℕ) (u a : ℕ) → Map.lookup u m ≡ some a → Set.contains a (values m) ≡ true
unfolding values Map.lookup Set.contains
contains-values [] u a e = cc
contains-values ((k, b) ∷ m) u a e = ground (arith, contains-values m u a)

contains-keys :
    (m : Map.Map ℕ) (k : ℕ)
    → (Set.contains k (keys m) ≡ true) ↔ ((u : ℕ) × (Map.lookup k m ≡ some u))
unfolding keys Map.lookup Set.contains
contains-keys [] k = (λ e. absurd (cc), λ x. absurd (cc x.1))
contains-keys ((j, b) ∷ m) k = elim (Bool-cases (j == k)) [
  | inl e ↦ rw e (λ _. (b, refl), λ _. refl)
  | inr e ↦ rw e (contains-keys m k)
]

-- clearStash deletes every node that the stash graph maps by its unique identifier and no other,
-- empties the stash graph, and leaves the default graph.
pub clear_stash_lem :
    (s : Scene) (u a b : ℕ)
    → Map.lookup u s.stash_graph.nodes_by_unique_id ≡ some a
    → (Set.contains a (clear_stash s).freed ≡ true)
      × (Set.contains b (clear_stash s).freed ≡ (
          if Set.contains b (values s.stash_graph.nodes_by_unique_id)
          then true
          else Set.contains b s.freed))
      × ((clear_stash s).stash_graph ≡ empty_graph)
      × ((clear_stash s).graph ≡ s.graph)
unfolding clear_stash
clear_stash_lem s u a b e = (
  ground (
    arith,
    contains-append a (values s.stash_graph.nodes_by_unique_id) s.freed,
    contains-values s.stash_graph.nodes_by_unique_id u a e,
  ),
  contains-append b (values s.stash_graph.nodes_by_unique_id) s.freed,
  refl,
  refl,
)

-- After resetChangeSet exactly the shared identifiers of the default graph count as added, nothing as
-- modified, and the scene is not revisioned.
pub reset_change_set_lem :
    (s : Scene) (k : ℕ)
    → ((Set.contains k (reset_change_set s).new_added ≡ true)
        ↔ ((u : ℕ) × (Map.lookup k s.graph.shared_id_to_unique_id ≡ some u)))
      × (Set.contains k (reset_change_set s).new_modified ≡ false)
      × (Set.contains k (reset_change_set s).new_removed ≡ false)
      × ((reset_change_set s).rev_node ≡ none)
      × ((reset_change_set s).un_revisioned ≡ true)
unfolding reset_change_set
reset_change_set_lem s k = (
  rw (contains-insert_all (keys s.graph.shared_id_to_unique_id) [] k, contains-nil k)
      (both (Set.contains k (keys s.graph.shared_id_to_unique_id))
        (contains-keys s.graph.shared_id_to_unique_id k)),
  contains-nil k,
  contains-nil k,
  refl,
  refl,
)
  where
    both : {B : Type 0} (b : Bool) → (b ≡ true) ↔ B → ((if b then true else false) ≡ true) ↔ B
    both true x = x
    both false x = x
