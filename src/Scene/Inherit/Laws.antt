-- ===== src/Scene/Inherit/Laws.antt =====
-- The two directions of a link agree: addInheritance and abandonChild of
-- bouncer/src/repo/core/model/collection/repo_scene.cpp.
use drepobouncer.Prelude.{
  ℕ, true, ◌≡◌, refl, ◌∙◌, List, [], ◌∷◌, Option, none, some, ◌==◌, if◌then◌else◌, arith,
}
use drepobouncer.Prelude.Set
use drepobouncer.Prelude.Set.{
  Distinct, Distinct-snoc, contains-insert, contains-insert_all, contains-erase, contains-append,
  contains-nil, insert-insert,
}
use drepobouncer.Scene.Node.{Node, add_parent, add_parents, remove_parent}
use drepobouncer.Scene.Graph.{GraphType, default, optimized, Graph, Scene, graph_of, update}
use drepobouncer.Scene.Inherit.{
  push_child, push_child_all, drop_child, add_inheritance, add_inheritances, abandon_child,
}
use drepobouncer.Scene.Inherit.Children.{
  children_of, IsConsistent, contains-push_child, nodes-push_child, Distinct-push_child,
  nodes-drop_child, contains-drop_child, Distinct-drop_child,
}

pub IsConsistent-push_child :
    (h : ℕ → Node) (q c : ℕ) (g : Graph)
    → IsConsistent h g
    → IsConsistent (update h c (add_parent q (h c))) (push_child q c g)
unfolding add_parent
IsConsistent-push_child h q c g v = record {
  sound = λ p d e.
      ground
        (arith, contains-push_child q c p d g, contains-insert q p (h c).parent_ids, v.sound p d);
  complete = λ u p d at e. ground (
    arith,
    contains-push_child q c p d g,
    contains-insert q p (h c).parent_ids,
    nodes-push_child q c g,
    v.complete u p d,
  );
  distinct = λ p. Distinct-push_child q c p g (v.distinct p);
}

IsConsistent-drop_child :
    (h : ℕ → Node) (q c : ℕ) (g : Graph)
    → IsConsistent h g
    → IsConsistent (update h c (remove_parent q (h c))) (drop_child q c g)
unfolding remove_parent
IsConsistent-drop_child h q c g v = record {
  sound = λ p d e. ground (
    arith,
    contains-drop_child q c p d g (v.distinct p),
    contains-erase q p (h c).parent_ids,
    v.sound p d,
  );
  complete = λ u p d at e. ground (
    arith,
    contains-drop_child q c p d g (v.distinct p),
    contains-erase q p (h c).parent_ids,
    nodes-drop_child q c g,
    v.complete u p d,
  );
  distinct = λ p. Distinct-drop_child q c p g (v.distinct p);
}

contains-push_child_all :
    (ids : List ℕ) (c p d : ℕ) (g : Graph)
    → Set.contains d (children_of (push_child_all ids c g) p) ≡ (
        if Set.contains p ids
        then (if c == d then true else Set.contains d (children_of g p))
        else Set.contains d (children_of g p))
unfolding Set.contains push_child_all
contains-push_child_all [] c p d g = refl
contains-push_child_all (q ∷ ids) c p d g =
    ground
      (arith, contains-push_child_all ids c p d (push_child q c g), contains-push_child q c p d g)

nodes-push_child_all :
    (ids : List ℕ) (c : ℕ) (g : Graph)
    → (push_child_all ids c g).nodes_by_unique_id ≡ g.nodes_by_unique_id
unfolding push_child_all
nodes-push_child_all [] c g = refl
nodes-push_child_all (q ∷ ids) c g =
    nodes-push_child_all ids c (push_child q c g) ∙ nodes-push_child q c g

Distinct-push_child_all :
    (ids : List ℕ) (c p : ℕ) (g : Graph)
    → Distinct (children_of g p)
    → Distinct (children_of (push_child_all ids c g) p)
unfolding push_child_all
Distinct-push_child_all [] c p g h = h
Distinct-push_child_all (q ∷ ids) c p g h =
    Distinct-push_child_all ids c p (push_child q c g) (Distinct-push_child q c p g h)

IsConsistent-push_child_all :
    (h : ℕ → Node) (ids : List ℕ) (c : ℕ) (g : Graph)
    → IsConsistent h g
    → IsConsistent (update h c (add_parents (Set.insert_all ids []) (h c))) (push_child_all ids c g)
unfolding add_parents
IsConsistent-push_child_all h ids c g v = record {
  sound = λ p d e. ground (
    arith,
    contains-push_child_all ids c p d g,
    contains-insert_all (Set.insert_all ids []) (h c).parent_ids p,
    contains-insert_all ids [] p,
    v.sound p d,
  );
  complete = λ u p d at e. ground (
    arith,
    contains-push_child_all ids c p d g,
    contains-insert_all (Set.insert_all ids []) (h c).parent_ids p,
    contains-insert_all ids [] p,
    contains-nil p,
    nodes-push_child_all ids c g,
    v.complete u p d,
  );
  distinct = λ p. Distinct-push_child_all ids c p g (v.distinct p);
}

-- addInheritance of one parent keeps the graph consistent, whichever of the two nodes is null.
pub add_inheritance-IsConsistent :
    (t : GraphType) (p c : Option ℕ) (s : Scene)
    → IsConsistent s.heap (graph_of t s)
    → IsConsistent (add_inheritance t p c s).heap (graph_of t (add_inheritance t p c s))
unfolding add_inheritance
add_inheritance-IsConsistent t none c s v = v
add_inheritance-IsConsistent t (some p) none s v = v
add_inheritance-IsConsistent default (some p) (some c) s v =
    IsConsistent-push_child s.heap (s.heap p).shared_id c s.graph v
add_inheritance-IsConsistent optimized (some p) (some c) s v =
    IsConsistent-push_child s.heap (s.heap p).shared_id c s.stash_graph v

-- addInheritance of a set of parents keeps the graph consistent.
pub add_inheritances-IsConsistent :
    (t : GraphType) (ps : List ℕ) (c : Option ℕ) (s : Scene)
    → IsConsistent s.heap (graph_of t s)
    → IsConsistent (add_inheritances t ps c s).heap (graph_of t (add_inheritances t ps c s))
unfolding add_inheritances
add_inheritances-IsConsistent t ps none s v = v
add_inheritances-IsConsistent default ps (some c) s v =
    IsConsistent-push_child_all s.heap _ c s.graph v
add_inheritances-IsConsistent optimized ps (some c) s v =
    IsConsistent-push_child_all s.heap _ c s.stash_graph v

-- abandonChild that modifies both nodes keeps the graph consistent.
pub abandon_child-IsConsistent :
    (t : GraphType) (parent : ℕ) (c : Option ℕ) (s : Scene)
    → IsConsistent s.heap (graph_of t s)
    → IsConsistent
        (abandon_child t parent c true true s).heap
        (graph_of t (abandon_child t parent c true true s))
unfolding abandon_child
abandon_child-IsConsistent t parent none s v = v
abandon_child-IsConsistent default parent (some c) s v =
    IsConsistent-drop_child s.heap parent c s.graph v
abandon_child-IsConsistent optimized parent (some c) s v =
    IsConsistent-drop_child s.heap parent c s.stash_graph v
