-- ===== src/Scene/Inherit/Children.antt =====
-- The lists of children under addInheritance and abandonChild of
-- bouncer/src/repo/core/model/collection/repo_scene.cpp.
use drepobouncer.Prelude.{
  ℕ, true, false, ◌≡◌, ◌≢◌, refl, List, [], ◌∷◌, ◌++◌, some, ◌==◌, if◌then◌else◌, arith, inl, inr,
  Bool-cases,
}
use drepobouncer.Prelude.Map
use drepobouncer.Prelude.Map.{lookup-insert}
use drepobouncer.Prelude.Set
use drepobouncer.Prelude.Set.{
  Distinct, Distinct-snoc, contains-insert, contains-insert_all, contains-erase, contains-append,
  contains-nil, insert-insert,
}
use drepobouncer.Scene.Node.{Node}
use drepobouncer.Scene.Graph.{Graph, children_or_empty}
use drepobouncer.Scene.Inherit.{erase_first, push_child, drop_child}

abbrev pub children_of : Graph → ℕ → List ℕ
children_of g p = children_or_empty (Map.lookup p g.parent_to_children)

-- In the graph: a child's node names its parent, a node's parents list it, and no list has a node twice.
pub record IsConsistent (h : ℕ → Node) (g : Graph) : Type 0 where
  pub sound :
      (p c : ℕ) → Set.contains c (children_of g p) ≡ true → Set.contains p (h c).parent_ids ≡ true
  pub complete :
      (u p c : ℕ)
      → Map.lookup u g.nodes_by_unique_id ≡ some c
      → Set.contains p (h c).parent_ids ≡ true
      → Set.contains c (children_of g p) ≡ true
  pub distinct : (p : ℕ) → Distinct (children_of g p)

pub children_of-push_child :
    (q c p : ℕ) (g : Graph)
    → children_of (push_child q c g) p ≡ (
        if q == p
        then (if Set.contains c (children_of g p)
            then children_of g p
            else children_of g p ++ c ∷ [])
        else children_of g p)
unfolding push_child
children_of-push_child q c p g = ground (
  arith,
  contains-nil c,
  lookup-insert q p (c ∷ []) g.parent_to_children,
  lookup-insert q p (children_of g q ++ c ∷ []) g.parent_to_children,
)

pub contains-push_child :
    (q c p d : ℕ) (g : Graph)
    → Set.contains d (children_of (push_child q c g) p) ≡ (
        if q == p
        then (if c == d then true else Set.contains d (children_of g p))
        else Set.contains d (children_of g p))
unfolding Set.contains
contains-push_child q c p d g = rw children_of-push_child (elim (Bool-cases (q == p)) [
  | inr e ↦ rw e
  | inl e ↦ elim (Bool-cases (Set.contains c (children_of g p))) [
    | inl old ↦ rw (e, old) (ground (arith, old))
    | inr new ↦ rw (e, new, contains-append) (ground arith)
  ]
])

contains-erase_first_ne :
    (c d : ℕ) (xs : List ℕ) → c ≢ d → Set.contains d (erase_first c xs) ≡ Set.contains d xs
unfolding Set.contains erase_first
contains-erase_first_ne c d [] n = refl
contains-erase_first_ne c d (x ∷ xs) n = ground (arith, contains-erase_first_ne c d xs n)

contains-erase_first :
    (c : ℕ) (xs : List ℕ) → Distinct xs → Set.contains c (erase_first c xs) ≡ false
unfolding Set.contains erase_first
contains-erase_first c [] h = refl
contains-erase_first c (x ∷ xs) h = ground (arith, contains-erase_first c xs h.1)

Distinct-erase_first : (c : ℕ) (xs : List ℕ) → Distinct xs → Distinct (erase_first c xs)
unfolding erase_first
Distinct-erase_first c [] h = tt
Distinct-erase_first c (x ∷ xs) h = elim (Bool-cases (x == c)) [
  | inl e ↦ rw e h.1
  | inr e ↦ rw e (ground (arith, contains-erase_first_ne c x xs), Distinct-erase_first c xs h.1)
]

pub nodes-push_child :
    (q c : ℕ) (g : Graph) → (push_child q c g).nodes_by_unique_id ≡ g.nodes_by_unique_id
unfolding push_child
nodes-push_child q c g = ground arith

pub Distinct-push_child :
    (q c p : ℕ) (g : Graph)
    → Distinct (children_of g p)
    → Distinct (children_of (push_child q c g) p)
Distinct-push_child q c p g h = rw children_of-push_child (elim (Bool-cases (q == p)) [
  | inr e ↦ rw e h
  | inl e ↦ elim (Bool-cases (Set.contains c (children_of g p))) [
    | inl old ↦ rw (e, old) h
    | inr new ↦ rw (e, new) (Distinct-snoc c _ new h)
  ]
])

pub children_of-drop_child :
    (q c p : ℕ) (g : Graph)
    → children_of (drop_child q c g) p ≡ (
        if q == p
        then (if Set.contains c (children_of g p)
            then erase_first c (children_of g p)
            else children_of g p)
        else children_of g p)
unfolding drop_child
children_of-drop_child q c p g = ground (
  arith,
  contains-nil c,
  lookup-insert q p (erase_first c (children_of g q)) g.parent_to_children,
)

pub nodes-drop_child :
    (q c : ℕ) (g : Graph) → (drop_child q c g).nodes_by_unique_id ≡ g.nodes_by_unique_id
unfolding drop_child
nodes-drop_child q c g = ground arith

pub contains-drop_child :
    (q c p d : ℕ) (g : Graph)
    → Distinct (children_of g p)
    → Set.contains d (children_of (drop_child q c g) p) ≡ (
        if q == p
        then (if c == d then false else Set.contains d (children_of g p))
        else Set.contains d (children_of g p))
contains-drop_child q c p d g h = rw children_of-drop_child (elim (Bool-cases (q == p)) [
  | inr e ↦ rw e
  | inl e ↦ elim (Bool-cases (Set.contains c (children_of g p))) [
    | inl old ↦
        rw (e, old)
          (ground (
            arith,
            contains-erase_first c (children_of g p) h,
            contains-erase_first_ne c d (children_of g p),
          ))
    | inr new ↦ rw (e, new) (ground (arith, new))
  ]
])

pub Distinct-drop_child :
    (q c p : ℕ) (g : Graph)
    → Distinct (children_of g p)
    → Distinct (children_of (drop_child q c g) p)
Distinct-drop_child q c p g h = rw children_of-drop_child (elim (Bool-cases (q == p)) [
  | inr e ↦ rw e h
  | inl e ↦ elim (Bool-cases (Set.contains c (children_of g p))) [
    | inl old ↦ rw (e, old) (Distinct-erase_first c _ h)
    | inr new ↦ rw (e, new) h
  ]
])
