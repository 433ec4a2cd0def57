-- ===== src/SelectionTree/Traversing.antt =====
-- traversePtree of bouncer/src/repo/manipulator/modelutility/repo_maker_selection_tree.cpp ends, and notes each node
-- below the root.
use drepobouncer.Prelude.{
  ℕ, zero, suc, ◌<◌, ◌≡◌, ◌⊎◌, inl, inr, refl, sym, ◌∙◌, Bool, true, List, [], ◌∷◌, ◌++◌, Option,
  some, ==_refl, or_left, or_right, ◌||◌, ◌==◌, arith,
}
use drepobouncer.SelectionTree.{Env, Trees, Out, leave, traverse_children, traverse_ptree}
use drepobouncer.SelectionTree.Below.{
  among, Below, itself, under, Covers, Noted, OfAny, OfAny-Below, Below-OfAny, nothing-Covers,
  both-Covers,
}
use drepobouncer.SelectionTree.Leaving.{IsUnder, leave-Covers}

module _ (env : Env) where
  -- std::sort loses no child and adds none; and the nodes are a tree, in which a rank falls from a node to its
  -- children.
  pub record IsTree (rank : ℕ → ℕ) : Type 0 where
    pub sort_keeps :
        (p : ℕ → Bool) (ids : List ℕ) (id : ℕ) → among (env.sort p ids) id ≡ among ids id
    pub falls : (a c : ℕ) → among (env.entry a).children c ≡ true → rank c < rank a

  abbrev Succeeds : (ℕ → Type 0) → Trees → Option Out → Type 0
  Succeeds R s r = (o : Out) × (r ≡ some o) × Covers env R s o

  traverse_children-Succeeds :
      (call : ℕ → Trees → Option Out) (cs : List ℕ)
      → ((c : ℕ) → among cs c ≡ true → (s : Trees) → Succeeds (Below env c) s (call c s))
      → (s : Trees) → Succeeds (OfAny env cs) s (traverse_children env call cs s)
  unfolding traverse_children
  traverse_children-Succeeds call [] calls s = (_, refl, nothing-Covers env s)
  traverse_children-Succeeds call (c ∷ cs) calls s =
      let (o, e, h) = calls c (or_left (c == c) (among cs c) (==_refl c)) s in
      let (o', e', h') =
        traverse_children-Succeeds call cs (λ d m. calls d (or_right (c == d) (among cs d) m))
          o.trees in
      (
        record {
          has_hidden_children = o.has_hidden_children || o'.has_hidden_children;
          mesh_ids = o.mesh_ids ++ o'.mesh_ids;
          trees = o'.trees;
        },
        rw (traverse_children, e, e') refl,
        both-Covers env c cs s o o' h h',
      )

  sorted-IsUnder :
      (rank : ℕ → ℕ) (a : ℕ) (p : ℕ → Bool)
      → IsTree rank
      → IsUnder env a (OfAny env (env.sort p (env.entry a).children))
  sorted-IsUnder rank a p t = record {
    is_below = λ b r.
        OfAny-Below env a b (env.sort p (env.entry a).children)
          (λ c m. sym (t.sort_keeps p (env.entry a).children c) ∙ m) r;
    below_is = λ b h. under-sorted b h;
  }
    where
      under-sorted :
          (b : ℕ) → Below env a b → (a ≡ b) ⊎ OfAny env (env.sort p (env.entry a).children) b
      under-sorted _ itself = inl refl
      under-sorted b (under c m h) = inr (
          Below-OfAny env b c (env.sort p (env.entry a).children)
            (t.sort_keeps p (env.entry a).children c ∙ m) h)

  traverse_ptree-Succeeds :
      (rank : ℕ → ℕ) (fuel : ℕ) (path : List ℕ) (a : ℕ) (s : Trees)
      → IsTree rank
      → rank a < fuel
      → Succeeds (Below env a) s (traverse_ptree env fuel path a s)
  unfolding traverse_ptree
  traverse_ptree-Succeeds rank zero path a s t enough = absurd (omega arith)
  traverse_ptree-Succeeds rank (suc fuel) path a s t enough =
      let here = path ++ a ∷ [] in
      let by_space : ℕ → Bool = λ child. env.is_space (env.entry child).name in
      let cs = env.sort by_space (env.entry a).children in
      let (o, e, h) =
        traverse_children-Succeeds (traverse_ptree env fuel here) cs
          (λ c m s'.
            traverse_ptree-Succeeds rank fuel here c s' t (
              omega
                (arith, t.falls a c (sym (t.sort_keeps by_space (env.entry a).children c) ∙ m))))
          s in
      (
        leave env here a o,
        rw e refl,
        leave-Covers env a (OfAny env cs) s o here (sorted-IsUnder rank a by_space t) h,
      )

  -- Where the nodes are a tree: with fuel above the rank of the root, traversePtree ends. Then each node at and below
  -- the root has the state that it should: hidden if it is hidden by default or is a mesh of an IFC space, half
  -- hidden if it is not but a node below it is, and shown if no node at or below it is; and the meshes noted of
  -- it are those at and below it.
  pub traverse_ptree_lem :
      (rank : ℕ → ℕ) (fuel : ℕ) (root : ℕ) (s : Trees)
      → IsTree rank
      → rank root < fuel
      → (o : Out) × (traverse_ptree env fuel [] root s ≡ some o)
        × ((b : ℕ) → Below env root b → Noted env b o.trees)
  traverse_ptree_lem rank fuel root s t enough =
      let (o, e, h) = traverse_ptree-Succeeds rank fuel [] root s t enough in (o, e, h.noted)
