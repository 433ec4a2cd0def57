-- ===== src/Scene/Maps/Enter.antt =====
-- What addNodeToMaps of bouncer/src/repo/core/model/collection/repo_scene.cpp enters into a graph.
use drepobouncer.Prelude.{
  ℕ, true, false, ◌≡◌, refl, List, [], ◌∷◌, ◌++◌, some, ◌==◌, if◌then◌else◌, arith, inl, inr,
  Bool-cases,
}
use drepobouncer.Prelude.Map
use drepobouncer.Prelude.Map.{lookup-insert}
use drepobouncer.Prelude.Set
use drepobouncer.Prelude.Set.{
  Distinct, contains-insert, contains-append, contains-nil, Distinct-snoc,
}
use drepobouncer.Scene.Node.{Node}
use drepobouncer.Scene.Graph.{Graph, children_or_empty}
use drepobouncer.Scene.Inherit.Children.{children_of, IsConsistent}
use drepobouncer.Scene.Maps.{is_empty, add_to_parents, register, enter}

contains-is_empty : (ps : List ℕ) (p : ℕ) → is_empty ps ≡ true → Set.contains p ps ≡ false
unfolding is_empty Set.contains
contains-is_empty [] p e = refl
contains-is_empty (x ∷ ps) p e = cc

abbrev entry : Map.Map (List ℕ) → ℕ → List ℕ
entry m p = children_or_empty (Map.lookup p m)

abbrev pushed : ℕ → ℕ → Map.Map (List ℕ) → Map.Map (List ℕ)
pushed q a m = Map.insert q (entry m q ++ a ∷ []) m

entry-pushed :
    (q a p : ℕ) (m : Map.Map (List ℕ))
    → entry (pushed q a m) p ≡ (if q == p then entry m p ++ a ∷ [] else entry m p)
entry-pushed q a p m = ground (arith, lookup-insert q p (entry m q ++ a ∷ []) m)

contains-pushed :
    (q a p d : ℕ) (m : Map.Map (List ℕ))
    → Set.contains d (entry (pushed q a m) p) ≡ (
        if q == p
        then (if a == d then true else Set.contains d (entry m p))
        else Set.contains d (entry m p))
unfolding Set.contains
contains-pushed q a p d m =
    rw entry-pushed
      (elim (Bool-cases (q == p)) [ inl e ↦ rw (e, contains-append) (ground arith) | inr e ↦ rw e ])

contains-add_to_parents :
    (ps : List ℕ) (a p : ℕ) (m : Map.Map (List ℕ)) (d : ℕ)
    → Set.contains d (entry (add_to_parents ps a m) p) ≡ (
        if Set.contains p ps
        then (if a == d then true else Set.contains d (entry m p))
        else Set.contains d (entry m p))
unfolding Set.contains add_to_parents
contains-add_to_parents [] a p m d = refl
contains-add_to_parents (q ∷ ps) a p m d =
    ground (arith, contains-add_to_parents ps a p (pushed q a m) d, contains-pushed q a p d m)

Distinct-add_to_parents :
    (ps : List ℕ) (a p : ℕ) (m : Map.Map (List ℕ))
    → Distinct ps
    → Distinct (entry m p)
    → (Set.contains p ps ≡ true → Set.contains a (entry m p) ≡ false)
    → Distinct (entry (add_to_parents ps a m) p)
unfolding Set.contains add_to_parents
Distinct-add_to_parents [] a p m d h fresh = h
Distinct-add_to_parents (q ∷ ps) a p m d h fresh =
    Distinct-add_to_parents ps a p (pushed q a m) d.1
      (rw entry-pushed (elim (Bool-cases (q == p)) [
        | inl e ↦ rw e (Distinct-snoc a _ (fresh (rw e)) h)
        | inr e ↦ rw e h
      ]))
      (λ e. ground (arith, d, e, contains-pushed q a p a m, fresh))

-- addNodeToMaps makes the node the answer for its unique identifier, and its unique identifier the
-- answer for its shared one, and changes no other answer. It moves no node from or to a list but
-- those of its own parents.
pub enter_lookups :
    (h : ℕ → Node) (a : ℕ) (g g' : Graph) (k p d : ℕ)
    → enter h a g ≡ some g'
    → (Map.lookup k g'.nodes_by_unique_id
        ≡ (if (h a).unique_id == k then some a else Map.lookup k g.nodes_by_unique_id))
      × (Map.lookup k g'.shared_id_to_unique_id ≡ (
          if (h a).shared_id == k
          then some (h a).unique_id
          else Map.lookup k g.shared_id_to_unique_id))
      × (Set.contains d (children_of g' p) ≡ (
          if Set.contains p (h a).parent_ids
          then (if a == d then true else Set.contains d (children_of g p))
          else Set.contains d (children_of g p)))
unfolding enter register
enter_lookups h a g g' k p d e = (
  ground (arith, lookup-insert (h a).unique_id k a g.nodes_by_unique_id),
  ground (arith, lookup-insert (h a).shared_id k (h a).unique_id g.shared_id_to_unique_id),
  ground (
    arith,
    contains-add_to_parents (h a).parent_ids a p g.parent_to_children d,
    contains-is_empty (h a).parent_ids p,
  ),
)

add_to_parents_empty :
    (ps : List ℕ) (a : ℕ) (m : Map.Map (List ℕ)) → is_empty ps ≡ true → add_to_parents ps a m ≡ m
unfolding is_empty add_to_parents
add_to_parents_empty [] a m e = refl
add_to_parents_empty (p ∷ ps) a m e = cc

parent_to_children-enter :
    (h : ℕ → Node) (a : ℕ) (g g' : Graph)
    → enter h a g ≡ some g'
    → g'.parent_to_children ≡ add_to_parents (h a).parent_ids a g.parent_to_children
unfolding enter register
parent_to_children-enter h a g g' e =
    ground (arith, add_to_parents_empty (h a).parent_ids a g.parent_to_children)

-- Where addNodeToMaps of a node that is in no list of the graph yet, and whose set of parents is a set, does not
-- throw, a consistent graph stays consistent.
pub enter-IsConsistent :
    (h : ℕ → Node) (a : ℕ) (g g' : Graph)
    → IsConsistent h g
    → Distinct (h a).parent_ids
    → ((p : ℕ) → Set.contains a (children_of g p) ≡ false)
    → enter h a g ≡ some g'
    → IsConsistent h g'
enter-IsConsistent h a g g' v d fresh e = record {
  sound = λ p c m. ground (arith, enter_lookups h a g g' 0 p c, v.sound p c);
  complete = λ u p c at m. ground (arith, enter_lookups h a g g' u p c, v.complete u p c);
  distinct = λ p. rw (parent_to_children-enter h a g g' e) (
      Distinct-add_to_parents (h a).parent_ids a p g.parent_to_children d (v.distinct p)
        (λ _. fresh p));
}
