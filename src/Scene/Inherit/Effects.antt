-- ===== src/Scene/Inherit/Effects.antt =====
-- What addInheritance and abandonChild change, and what they leave
-- (bouncer/src/repo/core/model/collection/repo_scene.cpp).
use mathlib.Core.Path.{fun_ext}
use drepobouncer.Prelude.{
  ℕ, Bool, true, false, ◌≡◌, refl, ap, [], ◌∷◌, ◌++◌, some, ◌==◌, if◌then◌else◌, arith, inl, inr,
  Bool-cases, ==_refl, ==_iff,
}
use drepobouncer.Prelude.Set
use drepobouncer.Prelude.Set.{
  Distinct, contains-insert, contains-erase, contains-nil, insert-insert,
}
use drepobouncer.Scene.Node.{Node, add_parent, remove_parent}
use drepobouncer.Scene.Graph.{
  GraphType, default, optimized, Graph, Scene, graph_of, update, get_children_as_nodes,
}
use drepobouncer.Scene.Inherit.{push_child, add_inheritance, abandon_child, erase_first}
use drepobouncer.Scene.Inherit.Children.{
  children_of, children_of-push_child, contains-push_child, children_of-drop_child,
}

graph-add_inheritance :
    (t : GraphType) (p c : ℕ) (s : Scene)
    → graph_of t (add_inheritance t (some p) (some c) s)
      ≡ push_child (s.heap p).shared_id c (graph_of t s)
unfolding add_inheritance
graph-add_inheritance default p c s = refl
graph-add_inheritance optimized p c s = refl

heap-add_inheritance :
    (t : GraphType) (p c : ℕ) (s : Scene)
    → (add_inheritance t (some p) (some c) s).heap
      ≡ update s.heap c (add_parent (s.heap p).shared_id (s.heap c))
unfolding add_inheritance
heap-add_inheritance default p c s = refl
heap-add_inheritance optimized p c s = refl

-- addInheritance enters the child once in the list of its parent, appended if it was not there,
-- leaves the lists of all other parents, and makes exactly the parent's shared identifier a parent
-- of the child beside those that it had.
pub add_inheritance_links :
    (t : GraphType) (p c q : ℕ) (s : Scene)
    → (get_children_as_nodes t q (add_inheritance t (some p) (some c) s) ≡ (
        if (s.heap p).shared_id == q
        then (if Set.contains c (get_children_as_nodes t q s)
            then get_children_as_nodes t q s
            else get_children_as_nodes t q s ++ c ∷ [])
        else get_children_as_nodes t q s))
      × (Set.contains q ((add_inheritance t (some p) (some c) s).heap c).parent_ids
          ≡ (if (s.heap p).shared_id == q then true else Set.contains q (s.heap c).parent_ids))
add_inheritance_links t p c q s = (
  rw graph-add_inheritance (children_of-push_child (s.heap p).shared_id c q (graph_of t s)),
  rw heap-add_inheritance (
      unfold add_parent in
      ground (arith, contains-insert (s.heap p).shared_id q (s.heap c).parent_ids)),
)

push_child_old :
    (q c : ℕ) (g : Graph) → Set.contains c (children_of g q) ≡ true → push_child q c g ≡ g
unfolding push_child
push_child_old q c g e = ground (arith, contains-nil c)

push_child-push_child : (q c : ℕ) (g : Graph) → push_child q c (push_child q c g) ≡ push_child q c g
push_child-push_child q c g =
    push_child_old q c (push_child q c g) (ground (arith, contains-push_child q c q c g))

add_parent-add_parent : (q : ℕ) (n : Node) → add_parent q (add_parent q n) ≡ add_parent q n
unfolding add_parent
add_parent-add_parent q n = ap (λ ps. record n { parent_ids = ps }) (insert-insert q n.parent_ids)

shared_id-update :
    (h : ℕ → Node) (p c q : ℕ) → (update h c (add_parent q (h c)) p).shared_id ≡ (h p).shared_id
unfolding add_parent
shared_id-update h p c q = elim (Bool-cases (c == p)) [
  | inl e ↦ rw (e, (==_iff c p).0 e)
  | inr e ↦ rw e
]

update-update : (h : ℕ → Node) (c : ℕ) (m n : Node) → update (update h c m) c n ≡ update h c n
update-update h c m n = fun_ext λ a. ground arith

-- The second call writes and enters what is there already.
again :
    (s : Scene) (q q' c : ℕ) (g : Graph)
    → q' ≡ q
    → let h = update s.heap c (add_parent q (s.heap c)) in
      (push_child q' c (push_child q c g) ≡ push_child q c g)
      × (update h c (add_parent q' (h c)) ≡ h)
again s q q' c g e = (
  rw e (push_child-push_child q c g),
  rw (e, ==_refl c, add_parent-add_parent) (update-update s.heap c _ _),
)

-- Between nodes that already are parent and child addInheritance does nothing: a second call
-- changes no part of the scene.
pub add_inheritance_twice :
    (t : GraphType) (p c : ℕ) (s : Scene)
    → add_inheritance t (some p) (some c) (add_inheritance t (some p) (some c) s)
      ≡ add_inheritance t (some p) (some c) s
unfolding add_inheritance
add_inheritance_twice default p c s =
    let q = (s.heap p).shared_id in
    let e = again s q _ c s.graph (shared_id-update s.heap p c q) in
    λ i. record s { graph = e.0 i; heap = e.1 i }
add_inheritance_twice optimized p c s =
    let q = (s.heap p).shared_id in
    let e = again s q _ c s.stash_graph (shared_id-update s.heap p c q) in
    λ i. record s { stash_graph = e.0 i; heap = e.1 i }

-- abandonChild removes one occurrence of the child from the list of that parent when it is to
-- modify the parent, and the parent from the child's set when it is to modify the child; every
-- other list and every other parent of the child stays.
pub abandon_child_links :
    (t : GraphType) (parent c q : ℕ) (modify_parent modify_child : Bool) (s : Scene)
    → let s' = abandon_child t parent (some c) modify_parent modify_child s in
      let old = get_children_as_nodes t q s in
      (get_children_as_nodes t q s' ≡ (
        if modify_parent
        then (if parent == q then (if Set.contains c old then erase_first c old else old) else old)
        else old))
      × (Set.contains q (s'.heap c).parent_ids ≡ (
          if modify_child
          then (if parent == q then false else Set.contains q (s.heap c).parent_ids)
          else Set.contains q (s.heap c).parent_ids))
unfolding abandon_child remove_parent
abandon_child_links default parent c q true true s = (
  children_of-drop_child parent c q s.graph,
  ground (arith, contains-erase parent q (s.heap c).parent_ids),
)
abandon_child_links default parent c q true false s =
    (children_of-drop_child parent c q s.graph, refl)
abandon_child_links optimized parent c q true true s = (
  children_of-drop_child parent c q s.stash_graph,
  ground (arith, contains-erase parent q (s.heap c).parent_ids),
)
abandon_child_links optimized parent c q true false s =
    (children_of-drop_child parent c q s.stash_graph, refl)
abandon_child_links default parent c q false true s =
    (refl, ground (arith, contains-erase parent q (s.heap c).parent_ids))
abandon_child_links optimized parent c q false true s =
    (refl, ground (arith, contains-erase parent q (s.heap c).parent_ids))
abandon_child_links default parent c q false false s = (refl, refl)
abandon_child_links optimized parent c q false false s = (refl, refl)
