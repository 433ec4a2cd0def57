-- ===== src/ClashScheduler/Remaining.antt =====
-- The pairs that are not scheduled yet, which the graph of
-- bouncer/src/repo/manipulator/modelutility/clashdetection/clash_scheduler.cpp stands for.
use drepobouncer.Prelude.{
  ℕ, ◌≡◌, refl, sym, ap, ◌∙◌, Bool, true, false, ◌&&◌, ◌||◌, not, List, [], ◌∷◌, ◌==◌,
  if◌then◌else◌, length, filter, any, filter_comm, if-cases, Bool-cases, inl, inr, ==_refl, arith,
}
use drepobouncer.ClashScheduler.{Edge, eq_edge, Scheduler, remove_edge, remove_node, remove}

abbrev pub touches : ℕ → Edge → Bool
touches i (a, b) = (i == a) || (i == b)

-- Each node has the remaining edges that touch it, in their order, and the nodes that have any are live.
pub record Stands (r : List Edge) (s : Scheduler) : Type 0 where
  pub edges_stand : (i : ℕ) → s.edges i ≡ filter (touches i) r
  pub nodes_stand : (i : ℕ) → any (λ j. j == i) s.all_nodes ≡ any (touches i) r

abbrev pub without : Edge → List Edge → List Edge
without e r = filter (λ x. not (eq_edge x e)) r

untouched-without :
    (i : ℕ) (e : Edge) (r : List Edge)
    → touches i e ≡ false
    → filter (touches i) (without e r) ≡ filter (touches i) r
untouched-without i e [] h = refl
untouched-without i e (x ∷ r) h = ground (arith, untouched-without i e r h)

untouched-any :
    (i : ℕ) (e : Edge) (r : List Edge)
    → touches i e ≡ false
    → any (touches i) (without e r) ≡ any (touches i) r
untouched-any i e [] h = refl
untouched-any i e (x ∷ r) h = ground (arith, untouched-any i e r h)

any-without :
    (i : ℕ) (e : Edge) (r : List Edge)
    → any (touches i) (without e r) ≡ true
    → any (touches i) r ≡ true
any-without i e [] h = h
any-without i e (x ∷ r) h = ground (arith, any-without i e r)

pub filter-any : (p : Edge → Bool) (r : List Edge) → (length (filter p r) == 0) ≡ not (any p r)
filter-any p [] = refl
filter-any p (x ∷ r) = ground (arith, filter-any p r)

any-filter-not :
    (i id : ℕ) (nodes : List ℕ)
    → any (λ j. j == i) (filter (λ j. not (j == id)) nodes)
      ≡ (if i == id then false else any (λ j. j == i) nodes)
any-filter-not i id [] = ground arith
any-filter-not i id (j ∷ nodes) = ground (arith, any-filter-not i id nodes)

remove_node-results : (id : ℕ) (s : Scheduler) → (remove_node id s).results ≡ s.results
remove_node-results id s =
    if-cases (λ s'. s'.results ≡ s.results) (length (s.edges id) == 0)
      (record s { all_nodes = filter (λ j. not (j == id)) s.all_nodes }) s (λ _. refl) (λ _. refl)

pub remove-results : (e : Edge) (s : Scheduler) → (remove e s).results ≡ s.results
unfolding remove
remove-results (a, b) s =
    remove_node-results b (remove_edge (a, b) b (remove_node a (remove_edge (a, b) a s)))
    ∙ remove_node-results a (remove_edge (a, b) a s)

-- One end of an edge that is removed
abbrev remove_end : Edge → ℕ → Scheduler → Scheduler
remove_end e id s = remove_node id (remove_edge e id s)

remove_end-edges :
    (e : Edge) (id i : ℕ) (s : Scheduler)
    → (remove_end e id s).edges i ≡ (if i == id then without e (s.edges id) else s.edges i)
remove_end-edges e id i s =
    let s1 = remove_edge e id s in
    if-cases (λ s'. s'.edges i ≡ (if i == id then without e (s.edges id) else s.edges i))
      (length (s1.edges id) == 0)
      (record s1 { all_nodes = filter (λ j. not (j == id)) s1.all_nodes }) s1 (λ _. refl)
      (λ _. refl)

remove_end-nodes :
    (e : Edge) (id i : ℕ) (s : Scheduler)
    → any (λ j. j == i) (remove_end e id s).all_nodes ≡ (
        if (i == id) && (length (without e (s.edges id)) == 0)
        then false
        else any (λ j. j == i) s.all_nodes)
remove_end-nodes e id i s =
    let s1 = remove_edge e id s in
    let here : (id == id) ≡ true = ==_refl id in
    if-cases
      (λ s'. any (λ j. j == i) s'.all_nodes ≡ (
        if (i == id) && (length (without e (s.edges id)) == 0)
        then false
        else any (λ j. j == i) s.all_nodes))
      (length (s1.edges id) == 0)
      (record s1 { all_nodes = filter (λ j. not (j == id)) s1.all_nodes }) s1
      (λ empty. ground (arith, empty, here, any-filter-not i id s.all_nodes))
      (λ more. ground (arith, more, here))

without-twice : (e : Edge) (r : List Edge) → without e (without e r) ≡ without e r
without-twice e [] = refl
without-twice e (x ∷ r) = ground (arith, without-twice e r)

remove-edges :
    (e : Edge) (i : ℕ) (s : Scheduler)
    → (remove e s).edges i ≡ (if touches i e then without e (s.edges i) else s.edges i)
unfolding remove
remove-edges (a, b) i s =
    let s1 = remove_end (a, b) a s in
    ground (
      arith,
      remove_end-edges (a, b) b i s1,
      remove_end-edges (a, b) a i s,
      remove_end-edges (a, b) a b s,
      without-twice (a, b) (s.edges i),
    )

remove-nodes :
    (e : Edge) (i : ℕ) (s : Scheduler)
    → any (λ j. j == i) (remove e s).all_nodes ≡ (
        if touches i e && (length (without e (s.edges i)) == 0)
        then false
        else any (λ j. j == i) s.all_nodes)
unfolding remove
remove-nodes (a, b) i s =
    let s1 = remove_end (a, b) a s in
    ground (
      arith,
      remove_end-nodes (a, b) b i s1,
      remove_end-nodes (a, b) a i s,
      remove_end-edges (a, b) a b s,
      remove_end-edges (a, b) a i s,
      without-twice (a, b) (s.edges i),
    )

nodes-left :
    (e : Edge) (i : ℕ) (r : List Edge) (s : Scheduler)
    → Stands r s
    → any (λ j. j == i) (remove e s).all_nodes ≡ (
        if touches i e && (length (without e (s.edges i)) == 0)
        then false
        else any (λ j. j == i) s.all_nodes)
    → any (λ j. j == i) (remove e s).all_nodes ≡ any (touches i) (without e r)
nodes-left e i r s h nodes =
    let left = filter-any (touches i) (without e r) in
    let same : without e (s.edges i) ≡ filter (touches i) (without e r) =
      ap (without e) (h.edges_stand i) ∙ filter_comm (λ x. not (eq_edge x e)) (touches i) r in
    let empty : (length (without e (s.edges i)) == 0) ≡ not (any (touches i) (without e r)) =
      ap (λ es. length es == 0) same ∙ left in
    ground (arith, nodes, empty, h.nodes_stand i, untouched-any i e r, any-without i e r)

pub remove-Stands :
    (e : Edge) (r : List Edge) (s : Scheduler) → Stands r s → Stands (without e r) (remove e s)
remove-Stands e r s h = record {
  edges_stand = λ i. elim (Bool-cases (touches i e)) [
    | inl t ↦
        remove-edges e i s
        ∙ rw (t, h.edges_stand i) (filter_comm (λ x. not (eq_edge x e)) (touches i) r)
    | inr t ↦ remove-edges e i s ∙ rw (t, h.edges_stand i) (sym (untouched-without i e r t))
  ];
  nodes_stand = λ i. nodes-left e i r s h (remove-nodes e i s);
}
