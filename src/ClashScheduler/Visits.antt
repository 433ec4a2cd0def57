-- ===== src/ClashScheduler/Visits.antt =====
-- A node that is popped in bouncer/src/repo/manipulator/modelutility/clashdetection/clash_scheduler.cpp: all its
-- edges are scheduled.
use drepobouncer.Prelude.{
  ℕ, suc, ◌+◌, ◌≤◌, ◌≡◌, subst, length-split, refl, sym, ap, ◌∙◌, Bool, true, false, ◌&&◌, not,
  List, [], ◌∷◌, ◌++◌, map, ◌==◌, length, All, All-map, filter, any, count, filter-agree,
  filter-filter, filter-whole, All-every, count-map, All-filter_self, append_assoc, append-nil,
  length-append, if-cases, arith,
}
use drepobouncer.ClashScheduler.{
  Edge, eq_edge, Scheduler, Other, Sorts, remove, other_of, edge_of, visit, process,
}
use drepobouncer.ClashScheduler.Blocks.{Takes, all_taken, take_block, All-count, count-not-filter}
use drepobouncer.ClashScheduler.Remaining.{touches, Stands, without, remove-Stands, remove-results}

-- Sorting permutes.
pub record Permutes (sorts : Sorts) : Type 0 where
  pub nodes_kept :
      (key : ℕ → ℕ) (p : ℕ → Bool) (xs : List ℕ) → count p (sorts.sort_nodes key xs) ≡ count p xs
  pub others_kept :
      (key : Other → ℕ) (p : Other → Bool) (xs : List Other)
      → count p (sorts.sort_others key xs) ≡ count p xs

count-agree :
    {A : Type 0} (p q : A → Bool) (xs : List A) → All (λ x. p x ≡ q x) xs → count p xs ≡ count q xs
count-agree p q [] h = refl
count-agree p q (x ∷ xs) h = ground (arith, h.0, count-agree p q xs h.1)

pub any-count : {A : Type 0} (p : A → Bool) (xs : List A) → any p xs ≡ not (count p xs == 0)
any-count p [] = refl
any-count p (x ∷ xs) = ground (arith, any-count p xs)

length-count : {A : Type 0} (xs : List A) → count (λ _. true) xs ≡ length xs
length-count [] = refl
length-count (x ∷ xs) = ap suc (length-count xs)

length-map : {A B : Type 0} (f : A → B) (xs : List A) → length (map f xs) ≡ length xs
length-map f [] = refl
length-map f (x ∷ xs) = ap suc (length-map f xs)

abbrev without_all : List Edge → List Edge → List Edge
without_all [] r = r
without_all (e ∷ es) r = without_all es (without e r)

abbrev among : List Edge → Edge → Bool
among es x = any (eq_edge x) es

without_all-filter : (es r : List Edge) → without_all es r ≡ filter (λ x. not (among es x)) r
without_all-filter [] r = sym (filter-whole r)
without_all-filter (e ∷ es) r =
    let both : Edge → Bool = λ x. not (eq_edge x e) && not (among es x) in
    let one : Edge → Bool = λ x. not (among (e ∷ es) x) in
    without_all-filter es (without e r)
    ∙ filter-filter (λ x. not (among es x)) (λ x. not (eq_edge x e)) r
    ∙ filter-agree both one r (All-every (λ x. both x ≡ one x) (λ x. ground arith) r)

-- The others of a node give its edges back.
edge_of-other_of : (n : ℕ) (e : Edge) → touches n e ≡ true → edge_of n (other_of n e) ≡ e
edge_of-other_of n (a, b) h = ground (arith, h)

count-others :
    (sorts : Sorts) (n : ℕ) (key : Other → ℕ) (es : List Edge) (p : Edge → Bool)
    → Permutes sorts
    → All (λ e. touches n e ≡ true) es
    → count p (map (edge_of n) (sorts.sort_others key (map (other_of n) es))) ≡ count p es
count-others sorts n key es p sorting h =
    count-map p (edge_of n) (sorts.sort_others key (map (other_of n) es))
    ∙ sorting.others_kept key (λ other. p (edge_of n other)) (map (other_of n) es)
    ∙ count-map (λ other. p (edge_of n other)) (other_of n) es
    ∙ count-agree (λ e. p (edge_of n (other_of n e))) p es
        (All-map (λ e. touches n e ≡ true) (λ e. p (edge_of n (other_of n e)) ≡ p e)
          (λ e t. ap p (edge_of-other_of n e t)) es h)

among-touching :
    (n : ℕ) (x : Edge) (r : List Edge) → among (filter (touches n) r) x ≡ (touches n x && among r x)
among-touching n (a, b) [] = ground arith
among-touching n (a, b) ((c, d) ∷ r) = ground (arith, among-touching n (a, b) r)

among_self : (r : List Edge) → All (λ x. among r x ≡ true) r
among_self [] = tt
among_self (y ∷ r) = (
  ground arith,
  All-map (λ x. among r x ≡ true) (λ x. among (y ∷ r) x ≡ true) (λ x h. ground (arith, h)) r
      (among_self r),
)

-- The node's edges are what is taken out of those that remain.
others-without :
    (n : ℕ) (es r : List Edge)
    → ((p : Edge → Bool) → count p es ≡ count p (filter (touches n) r))
    → without_all es r ≡ filter (λ x. not (touches n x)) r
others-without n es r same =
    let member : (x : Edge) → among r x ≡ true → not (among es x) ≡ not (touches n x) = λ x h.
      ground (
        arith,
        any-count (eq_edge x) es,
        any-count (eq_edge x) (filter (touches n) r),
        same (eq_edge x),
        among-touching n x r,
        h,
      ) in
    without_all-filter es r
    ∙ filter-agree (λ x. not (among es x)) (λ x. not (touches n x)) r
        (All-map (λ x. among r x ≡ true) (λ x. not (among es x) ≡ not (touches n x)) member r
          (among_self r))

-- The loop over the others
record Visited (es r : List Edge) (k : ℕ) (next : List ℕ) (s : Scheduler) (o : List ℕ × Scheduler)
    : Type 0 where
  stands : Stands (without_all es r) o.1
  added : o.1.results ≡ s.results ++ es
  queued : length o.0 ≡ length next + k

visit-Visited :
    (n : ℕ) (others : List Other) (next : List ℕ) (r : List Edge) (s : Scheduler)
    → Stands r s
    → Visited (map (edge_of n) others) r (length others) next s (visit n others next s)
unfolding visit
visit-Visited n [] next r s h = record {
  stands = h;
  added = sym (append-nil s.results);
  queued = omega arith;
}
visit-Visited n (other ∷ others) next r s h =
    let e = edge_of n other in
    let s1 : Scheduler = record s { results = s.results ++ e ∷ [] } in
    let v = visit-Visited n others (next ++ other.node ∷ []) (without e r) (remove e s1) (
      remove-Stands e r s1 (record { edges_stand = h.edges_stand; nodes_stand = h.nodes_stand })) in
    record {
      stands = v.stands;
      added =
          v.added
          ∙ ap (λ done. done ++ map (edge_of n) others) (remove-results e s1)
          ∙ append_assoc s.results (e ∷ []) (map (edge_of n) others);
      queued = omega (arith, v.queued, length-append next (other.node ∷ []));
    }

-- A node that is popped: each round takes the edges of one node out of the remaining ones.
pub record Processed (n : ℕ) (r : List Edge) (next : List ℕ) (s : Scheduler)
    (o : List ℕ × Scheduler) : Type 0 where
  pub left : List Edge
  pub stands : Stands left o.1
  pub no_longer : length left ≤ length r
  pub taken : (length (s.edges n) == 0) ≡ false → suc (length left) ≤ length r
  pub shorter : length o.0 + length left ≡ length next + length r
  pub out : List Edge
  pub added_last : o.1.results ≡ s.results ++ out
  pub takes : Takes left r out

pub process-Processed :
    (sorts : Sorts) (n : ℕ) (next : List ℕ) (r : List Edge) (s : Scheduler)
    → Permutes sorts
    → Stands r s
    → Processed n r next s (process sorts n next s)
unfolding process
process-Processed sorts n next r s sorting h =
    let key : Other → ℕ = λ other. length (s.edges other.node) in
    let others = sorts.sort_others key (map (other_of n) (s.edges n)) in
    let es = map (edge_of n) others in
    let touching : All (λ e. touches n e ≡ true) (s.edges n) =
      subst (All (λ e. touches n e ≡ true)) (sym (h.edges_stand n))
        (All-filter_self (touches n) r) in
    let same : (p : Edge → Bool) → count p es ≡ count p (filter (touches n) r) = λ p.
      count-others sorts n key (s.edges n) p sorting touching ∙ ap (count p) (h.edges_stand n) in
    let v = visit-Visited n others next r s h in
    let long : length others ≡ length (filter (touches n) r) =
      sym (length-map (edge_of n) others)
      ∙ sym (length-count es)
      ∙ same (λ _. true)
      ∙ length-count (filter (touches n) r) in
    let left' = filter (λ x. not (touches n x)) r in
    if-cases (Processed n r next s) (length (s.edges n) == 0) (next, s) (visit n others next s)
      (λ e. record {
        left = r;
        stands = h;
        no_longer = omega arith;
        taken = λ e'. absurd (cc (e, e'));
        shorter = refl;
        out = [];
        added_last = sym (append-nil s.results);
        takes = all_taken;
      })
      (λ _. record {
        left = left';
        stands =
            subst (λ l. Stands l (visit n others next s).1) (others-without n es r same) v.stands;
        no_longer = omega (arith, length-split (touches n) r);
        taken = λ some_edge.
            ground (arith, some_edge, ap length (h.edges_stand n), length-split (touches n) r);
        shorter = omega (arith, v.queued, long, length-split (touches n) r);
        out = es ++ [];
        added_last = v.added ∙ ap (◌++◌ s.results) (sym (append-nil es));
        takes =
            take_block n es
              (All-count (touches n) es
                (same (λ e. not (touches n e)) ∙ count-not-filter (touches n) r))
              same all_taken;
      })
