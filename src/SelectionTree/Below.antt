-- ===== src/SelectionTree/Below.antt =====
-- What traversePtree of bouncer/src/repo/manipulator/modelutility/repo_maker_selection_tree.cpp notes of the nodes
-- below a node.
use drepobouncer.Prelude.{
  ℕ, ◌≡◌, ◌⊎◌, inl, inr, sym, ◌∙◌, subst, Bool, true, false, ◌||◌, List, [], ◌∷◌, ◌++◌, some, ◌==◌,
  any, any-append, or-cases, or_left, or_right, Bool-cases, arith,
}
use drepobouncer.Prelude.Map
use drepobouncer.SelectionTree.{
  ToggleState, show, hidden, half_hidden, Env, Trees, Out, mesh_at, hidden_at,
}

abbrev pub among : List ℕ → ℕ → Bool
among ids id = any (λ i. i == id) ids

module _ (env : Env) where
  -- b is a or stands below it.
  pub data Below : ℕ → ℕ → Type 0 where
    itself : {a : ℕ} → Below a a
    under :
        {a b : ℕ} (child : ℕ)
        → among (env.entry a).children child ≡ true
        → Below child b
        → Below a b

  -- A node is hidden, or shows that one below it is, or is shown.
  pub data Shows (id : ℕ) : ToggleState → Type 0 where
    is_hidden : hidden_at env id ≡ true → Shows id hidden
    is_half :
        hidden_at env id ≡ false
        → (b : ℕ) → Below id b
        → hidden_at env b ≡ true
        → Shows id half_hidden
    is_shown : ((b : ℕ) → Below id b → hidden_at env b ≡ false) → Shows id show

  -- What is noted of a node: its state, and the meshes among it and the nodes below it.
  pub record Noted (id : ℕ) (s : Trees) : Type 0 where
    pub state : ToggleState
    pub state_noted : Map.lookup id s.toggle_state ≡ some state
    pub shows : Shows id state
    pub meshes : List ℕ
    pub meshes_noted : Map.lookup id s.id_to_meshes ≡ some meshes
    pub are_below : (m : ℕ) → among meshes m ≡ true → Below id m × (mesh_at env m ≡ true)
    pub all_listed : (m : ℕ) → Below id m → mesh_at env m ≡ true → among meshes m ≡ true

  -- A call that goes through the nodes of R
  pub record Covers (R : ℕ → Type 0) (s : Trees) (o : Out) : Type 0 where
    pub found : o.has_hidden_children ≡ true → (b : ℕ) × R b × (hidden_at env b ≡ true)
    pub none_missed : (b : ℕ) → R b → hidden_at env b ≡ true → o.has_hidden_children ≡ true
    pub are_meshes : (m : ℕ) → among o.mesh_ids m ≡ true → R m × (mesh_at env m ≡ true)
    pub all_meshes : (m : ℕ) → R m → mesh_at env m ≡ true → among o.mesh_ids m ≡ true
    pub noted : (b : ℕ) → R b → Noted b o.trees
    pub kept : (b : ℕ) → Noted b s → Noted b o.trees

  abbrev pub OfAny : List ℕ → ℕ → Type 0
  OfAny [] b = ⊥
  OfAny (child ∷ rest) b = Below child b ⊎ OfAny rest b

  pub OfAny-Below :
      (a b : ℕ) (cs : List ℕ)
      → ((c : ℕ) → among cs c ≡ true → among (env.entry a).children c ≡ true)
      → OfAny cs b
      → Below a b
  OfAny-Below a b [] known h = absurd h
  OfAny-Below a b (c ∷ cs) known (inl h) = under c (known c (ground arith)) h
  OfAny-Below a b (c ∷ cs) known (inr h) = OfAny-Below a b cs (λ d e. known d (ground (arith, e))) h

  pub Below-OfAny : (b c : ℕ) (cs : List ℕ) → among cs c ≡ true → Below c b → OfAny cs b
  Below-OfAny b c [] e h = absurd (cc e)
  Below-OfAny b c (d ∷ cs) e h = elim (Bool-cases (d == c)) [
    | inl same ↦ inl (subst (λ x. Below x b) (sym (ground (arith, same))) h)
    | inr other ↦ inr (Below-OfAny b c cs (ground (arith, e, other)) h)
  ]

  pub nothing-Covers :
      (s : Trees)
      → Covers (OfAny []) s (record { has_hidden_children = false; mesh_ids = []; trees = s })
  nothing-Covers s = record {
    found = λ e. absurd (cc e);
    none_missed = λ b h. absurd h;
    are_meshes = λ m e. absurd (cc e);
    all_meshes = λ m h. absurd h;
    noted = λ b h. absurd h;
    kept = λ b h. h;
  }

  pub both-Covers :
      (c : ℕ) (cs : List ℕ) (s : Trees) (o o' : Out)
      → Covers (Below c) s o
      → Covers (OfAny cs) o.trees o'
      → Covers (OfAny (c ∷ cs)) s (record {
        has_hidden_children = o.has_hidden_children || o'.has_hidden_children;
        mesh_ids = o.mesh_ids ++ o'.mesh_ids;
        trees = o'.trees;
      })
  both-Covers c cs s o o' h k = record {
    found = λ e. elim (or-cases o.has_hidden_children o'.has_hidden_children e) [
      | inl here ↦ (let (b, r, hid) = h.found here in (b, inl r, hid))
      | inr there ↦ (let (b, r, hid) = k.found there in (b, inr r, hid))
    ];
    none_missed = λ b r e. elim r [
      | inl here ↦ or_left o.has_hidden_children o'.has_hidden_children (h.none_missed b here e)
      | inr there ↦ or_right o.has_hidden_children o'.has_hidden_children (k.none_missed b there e)
    ];
    are_meshes = λ m e.
        elim (or-cases (among o.mesh_ids m) (among o'.mesh_ids m)
          (sym (any-append (λ i. i == m) o.mesh_ids o'.mesh_ids) ∙ e)) [
            | inl here ↦ (inl (h.are_meshes m here).0, (h.are_meshes m here).1)
            | inr there ↦ (inr (k.are_meshes m there).0, (k.are_meshes m there).1)
          ];
    all_meshes = λ m r e. any-append (λ i. i == m) o.mesh_ids o'.mesh_ids ∙ elim r [
      | inl here ↦ or_left (among o.mesh_ids m) (among o'.mesh_ids m) (h.all_meshes m here e)
      | inr there ↦ or_right (among o.mesh_ids m) (among o'.mesh_ids m) (k.all_meshes m there e)
    ];
    noted = λ b r. elim r [ inl here ↦ k.kept b (h.noted b here) | inr there ↦ k.noted b there ];
    kept = λ b n. k.kept b (h.kept b n);
  }
