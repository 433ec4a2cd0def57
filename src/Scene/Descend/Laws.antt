-- ===== src/Scene/Descend/Laws.antt =====
-- getAllDescendantsByType of bouncer/src/repo/core/model/collection/repo_scene.cpp against the
-- relation of descent.
use drepobouncer.Prelude.{
  ℕ, zero, suc, ◌<◌, Bool, true, false, ◌≡◌, ◌↔◌, ◌⊎◌, refl, List, [], ◌∷◌, ◌++◌, Option, some,
  ◌==◌, arith, inl, inr, Bool-cases, ==_iff, ==_refl, subst, sym, ◌∙◌,
}
use drepobouncer.Prelude.Set
use drepobouncer.Prelude.Set.{contains-append, contains-nil}
use drepobouncer.Scene.Node.{Node, NodeType, same_type}
use drepobouncer.Scene.Graph.{Graph}
use drepobouncer.Scene.Inherit.Children.{children_of}
use drepobouncer.Scene.Descend.{self_if, gather, get_all_descendants_by_type}

-- `Below h g id c`: the node c is a child of the shared identifier id, or of a node below it.
pub data Below (h : ℕ → Node) (g : Graph) : ℕ → ℕ → Type 0 where
  child : {id c : ℕ} → Set.contains c (children_of g id) ≡ true → Below h g id c
  deeper :
      {id c d : ℕ}
      → Set.contains c (children_of g id) ≡ true
      → Below h g (h c).shared_id d
      → Below h g id d

-- The result of a descent from id: a list of exactly the nodes of type k below it.
abbrev pub Descends : (ℕ → Node) → Graph → NodeType → ℕ → Option (List ℕ) → Type 0
Descends h g k id r =
    (l : List ℕ) × (r ≡ some l)
    × ((c : ℕ) → (Set.contains c l ≡ true) ↔ (Below h g id c × (same_type (h c).type k ≡ true)))

abbrev Parts : List ℕ → Bool → ℕ → List ℕ → ℕ → Type 0
Parts below b c after x =
    (Set.contains x below ≡ true) ⊎ (((b ≡ true) × (c ≡ x)) ⊎ (Set.contains x after ≡ true))

contains-Parts :
    (below : List ℕ) (b : Bool) (c : ℕ) (after : List ℕ) (x : ℕ)
    → (Set.contains x (below ++ (self_if b c ++ after)) ≡ true) ↔ Parts below b c after x
unfolding Set.contains
contains-Parts below true c after x = rw contains-append (elim (Bool-cases (Set.contains x below)) [
  | inl m ↦ rw m (λ _. inl refl, λ _. refl)
  | inr m ↦ rw m (elim (Bool-cases (c == x)) [
    | inl e ↦ rw e (λ _. inr (inl (refl, (==_iff c x).0 e)), λ _. refl)
    | inr e ↦ rw e (
      λ y. inr (inr y),
      elim [
        | inl y ↦ absurd (cc)
        | inr (inl y) ↦ absurd (ground (arith, y.1, e))
        | inr (inr y) ↦ y
      ],
    )
  ])
])
contains-Parts below false c after x =
    rw contains-append (elim (Bool-cases (Set.contains x below)) [
      | inl m ↦ rw m (λ _. inl refl, λ _. refl)
      | inr m ↦ rw m (
        λ y. inr (inr y),
        elim [ inl y ↦ absurd (cc) | inr (inl y) ↦ absurd (cc y.0) | inr (inr y) ↦ y ],
      )
    ])

module _ (h : ℕ → Node) (g : Graph) (k : NodeType) where
  -- x is one of the nodes cs or below one of them.
  abbrev Under : List ℕ → ℕ → Type 0
  Under cs x = (c : ℕ) × (Set.contains c cs ≡ true) × ((c ≡ x) ⊎ Below h g (h c).shared_id x)

  abbrev Holds : ℕ → Type 0
  Holds x = same_type (h x).type k ≡ true

  Under-Parts :
      (c : ℕ) (cs below after : List ℕ) (x : ℕ)
      → (Set.contains x below ≡ true) ↔ (Below h g (h c).shared_id x × Holds x)
      → (Set.contains x after ≡ true) ↔ (Under cs x × Holds x)
      → Parts below (same_type (h c).type k) c after x ↔ (Under (c ∷ cs) x × Holds x)
  unfolding Set.contains
  Under-Parts c cs below after x i1 i2 = (
    elim [
      | inl m ↦ ((c, rw (==_refl c), inr (i1.0 m).0), (i1.0 m).1)
      | inr (inl m) ↦ ((c, rw (==_refl c), inl m.1), subst Holds m.1 m.0)
      | inr (inr m) ↦ let u = i2.0 m in ((u.0.0, ground (arith, u.0.1), u.0.2), u.1)
    ],
    λ u. elim (Bool-cases (c == u.0.0)) [
      | inl e ↦ here u ((==_iff c u.0.0).0 e)
      | inr e ↦ inr (inr (i2.1 ((u.0.0, ground (arith, u.0.1, e), u.0.2), u.1)))
    ],
  )
    where
      here :
          (u : Under (c ∷ cs) x × Holds x)
          → c ≡ u.0.0
          → Parts below (same_type (h c).type k) c after x
      here u e = elim u.0.2 [
        | inl m ↦ inr (inl (subst Holds (sym m ∙ sym e) u.1, e ∙ m))
        | inr b ↦ inl (i1.1 (subst (λ d. Below h g (h d).shared_id x) (sym e) b, u.1))
      ]

  gather_lem :
      (descend : ℕ → Option (List ℕ)) (cs : List ℕ)
      → ((c : ℕ)
          → Set.contains c cs ≡ true
          → Descends h g k (h c).shared_id (descend (h c).shared_id))
      → (l : List ℕ) × (gather descend h k cs ≡ some l)
        × ((x : ℕ) → (Set.contains x l ≡ true) ↔ (Under cs x × Holds x))
  unfolding gather Set.contains
  gather_lem descend [] all = ([], refl, λ x. (λ e. absurd (cc), λ u. absurd (cc u.0.1)))
  gather_lem descend (c ∷ cs) all =
      let (below, e1, i1) = all c (rw (==_refl c)) in
      let (after, e2, i2) = gather_lem descend cs (λ d m. all d (ground (arith, m))) in
      (
        below ++ (self_if (same_type (h c).type k) c ++ after),
        rw (e1, e2),
        λ x.
            let p = contains-Parts below (same_type (h c).type k) c after x in
            let u = Under-Parts c cs below after x (i1 x) (i2 x) in
            (λ m. u.0 (p.0 m), λ m. p.1 (u.1 m)),
      )

-- getAllDescendantsByType in a graph with no cycle, that is where some rank falls from each shared
-- identifier to those of its children: with more fuel than the rank it returns, and its result has
-- exactly the nodes of that type below the identifier, whatever their depth.
pub get_all_descendants_by_type_lem :
    (h : ℕ → Node) (g : Graph) (k : NodeType) (rank : ℕ → ℕ)
    → ((id c : ℕ) → Set.contains c (children_of g id) ≡ true → rank (h c).shared_id < rank id)
    → (fuel id : ℕ) → rank id < fuel
    → Descends h g k id (get_all_descendants_by_type fuel h g k id)
unfolding get_all_descendants_by_type
get_all_descendants_by_type_lem h g k rank falls zero id enough = absurd (omega arith)
get_all_descendants_by_type_lem h g k rank falls (suc fuel) id enough =
    let (l, e, i) =
      gather_lem h g k (get_all_descendants_by_type fuel h g k) (children_of g id) (λ c m.
        get_all_descendants_by_type_lem h g k rank falls fuel (h c).shared_id
          (omega (arith, falls id c m))) in
    (l, e, λ x. (λ m. (below ((i x).0 m).0, ((i x).0 m).1), λ m. (i x).1 (under m.0, m.1)))
  where
    below : {x : ℕ} → Under h g k (children_of g id) x → Below h g id x
    below u = elim u.2 [ inl e ↦ subst (Below h g id) e (child u.1) | inr b ↦ deeper u.1 b ]

    under : {x : ℕ} → Below h g id x → Under h g k (children_of g id) x
    under (child m) = (_, m, inl refl)
    under (deeper m b) = (_, m, inr b)
