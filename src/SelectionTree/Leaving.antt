-- ===== src/SelectionTree/Leaving.antt =====
-- What traversePtree of bouncer/src/repo/manipulator/modelutility/repo_maker_selection_tree.cpp notes when it leaves
-- a node.
use drepobouncer.Prelude.{
  ℕ, ◌≡◌, ◌⊎◌, inl, inr, refl, sym, ◌∙◌, subst, Bool, true, false, ◌||◌, List, [], ◌∷◌, ◌++◌, ◌==◌,
  if◌then◌else◌, any-append, or-cases, or_left, or_right, Bool-cases, if-cases, ==_refl, ◌&&◌,
  arith,
}
use drepobouncer.Prelude.Map
use drepobouncer.SelectionTree.{
  show, hidden, half_hidden, Env, Trees, Out, mesh_at, hidden_at, toggle, leave,
}
use drepobouncer.SelectionTree.Below.{
  among, Below, itself, Shows, is_hidden, is_half, is_shown, Noted, Covers,
}

module _ (env : Env) where
  -- R are the nodes below a.
  pub record IsUnder (a : ℕ) (R : ℕ → Type 0) : Type 0 where
    pub is_below : (b : ℕ) → R b → Below env a b
    pub below_is : (b : ℕ) → Below env a b → (a ≡ b) ⊎ R b

  toggle-Shows :
      (a : ℕ) (R : ℕ → Type 0) (s : Trees) (o : Out)
      → IsUnder a R
      → Covers env R s o
      → Shows env a (toggle env a o.has_hidden_children)
  toggle-Shows a R s o u h = if-cases (Shows env a) (hidden_at env a) hidden _ is_hidden (λ visible.
      if-cases (Shows env a) o.has_hidden_children half_hidden show
        (λ some_hidden.
          let (b, r, hid) = h.found some_hidden in is_half visible b (u.is_below b r) hid)
        (λ none_hidden. is_shown (λ b below. elim (Bool-cases (hidden_at env b)) [
          | inr e ↦ e
          | inl e ↦ elim (u.below_is b below) [
            | inl same ↦ absurd (cc (e, visible, same))
            | inr r ↦ absurd (cc (none_hidden, h.none_missed b r e))
          ]
        ])))

  abbrev ids_with : ℕ → Out → List ℕ
  ids_with a o = if mesh_at env a then o.mesh_ids ++ a ∷ [] else o.mesh_ids

  among-ids_with :
      (a m : ℕ) (o : Out)
      → among (ids_with a o) m ≡ (among o.mesh_ids m || (mesh_at env a && (a == m)))
  among-ids_with a m o =
      if-cases (λ ids. among ids m ≡ (among o.mesh_ids m || (mesh_at env a && (a == m))))
        (mesh_at env a) (o.mesh_ids ++ a ∷ []) o.mesh_ids
        (λ e. ground (arith, e, any-append (λ i. i == m) o.mesh_ids (a ∷ [])))
        (λ e. ground (arith, e))

  and_both : (x y : Bool) → (x && y) ≡ true → (x ≡ true) × (y ≡ true)
  and_both true y h = (refl, h)
  and_both false y h = absurd (cc h)

  ids_with-are :
      (a : ℕ) (R : ℕ → Type 0) (s : Trees) (o : Out)
      → IsUnder a R
      → Covers env R s o
      → (m : ℕ) → among (ids_with a o) m ≡ true
      → Below env a m × (mesh_at env m ≡ true)
  ids_with-are a R s o u h m e =
      elim (or-cases (among o.mesh_ids m) (mesh_at env a && (a == m))
        (sym (among-ids_with a m o) ∙ e)) [
          | inl old ↦ (u.is_below m (h.are_meshes m old).0, (h.are_meshes m old).1)
          | inr new ↦
              let (mesh, same) = and_both (mesh_at env a) (a == m) new in
              subst (λ c. Below env a c × (mesh_at env c ≡ true)) (ground (arith, same))
                (itself, mesh)
        ]

  ids_with-all :
      (a : ℕ) (R : ℕ → Type 0) (s : Trees) (o : Out)
      → IsUnder a R
      → Covers env R s o
      → (m : ℕ) → Below env a m
      → mesh_at env m ≡ true
      → among (ids_with a o) m ≡ true
  ids_with-all a R s o u h m below e = among-ids_with a m o ∙ elim (u.below_is m below) [
    | inl same ↦
        or_right (among o.mesh_ids m) (mesh_at env a && (a == m)) (rw (same, e, ==_refl m) refl)
    | inr r ↦ or_left (among o.mesh_ids m) (mesh_at env a && (a == m)) (h.all_meshes m r e)
  ]

  leave-Noted :
      (a : ℕ) (R : ℕ → Type 0) (s : Trees) (o : Out) (path : List ℕ)
      → IsUnder a R
      → Covers env R s o
      → Noted env a (leave env path a o).trees
  unfolding leave
  leave-Noted a R s o path u h = record {
    state = toggle env a o.has_hidden_children;
    state_noted = Map.lookup-insert a a _ o.trees.toggle_state ∙ rw (==_refl a) refl;
    shows = toggle-Shows a R s o u h;
    meshes = ids_with a o;
    meshes_noted = Map.lookup-insert a a _ o.trees.id_to_meshes ∙ rw (==_refl a) refl;
    are_below = ids_with-are a R s o u h;
    all_listed = ids_with-all a R s o u h;
  }

  leave-keeps :
      (a b : ℕ) (o : Out) (path : List ℕ)
      → Noted env a (leave env path a o).trees
      → Noted env b o.trees
      → Noted env b (leave env path a o).trees
  unfolding leave
  leave-keeps a b o path here n = elim (Bool-cases (a == b)) [
    | inl same ↦ subst (λ c. Noted env c (leave env path a o).trees) (ground (arith, same)) here
    | inr other ↦ record {
      state = n.state;
      state_noted = Map.lookup-insert a b _ o.trees.toggle_state ∙ rw other n.state_noted;
      shows = n.shows;
      meshes = n.meshes;
      meshes_noted = Map.lookup-insert a b _ o.trees.id_to_meshes ∙ rw other n.meshes_noted;
      are_below = n.are_below;
      all_listed = n.all_listed;
    }
  ]

  pub leave-Covers :
      (a : ℕ) (R : ℕ → Type 0) (s : Trees) (o : Out) (path : List ℕ)
      → IsUnder a R
      → Covers env R s o
      → Covers env (Below env a) s (leave env path a o)
  unfolding leave
  leave-Covers a R s o path u h =
      let here = leave-Noted a R s o path u h in
      record {
        found = λ e. elim (or-cases (hidden_at env a) o.has_hidden_children e) [
          | inl hid ↦ (a, itself, hid)
          | inr below ↦ (let (b, r, hid) = h.found below in (b, u.is_below b r, hid))
        ];
        none_missed = λ b below e. elim (u.below_is b below) [
          | inl same ↦ or_left (hidden_at env a) o.has_hidden_children (rw same e)
          | inr r ↦ or_right (hidden_at env a) o.has_hidden_children (h.none_missed b r e)
        ];
        are_meshes = ids_with-are a R s o u h;
        all_meshes = ids_with-all a R s o u h;
        noted = λ b below. elim (u.below_is b below) [
          | inl same ↦ subst (λ c. Noted env c (leave env path a o).trees) same here
          | inr r ↦ leave-keeps a b o path here (h.noted b r)
        ];
        kept = λ b n. leave-keeps a b o path here (h.kept b n);
      }
