-- ===== src/ClashScheduler/Scheduling.antt =====
-- The loops of ClashSchedulerImpl in
-- bouncer/src/repo/manipulator/modelutility/clashdetection/clash_scheduler.cpp end, and schedule each pair once.
use drepobouncer.Prelude.{
  append-nil, append_assoc, subst, ◌++◌, List-cases, inl, inr, ℕ, zero, suc, ◌+◌, ◌≤◌, ◌≡◌, refl,
  sym, ap, ◌∙◌, true, false, not, List, [], ◌∷◌, Option, some, ◌==◌, length, any, ==_refl, arith,
}
use drepobouncer.ClashScheduler.{Edge, Scheduler, Sorts, process, drain, rounds}
use drepobouncer.ClashScheduler.Blocks.{Takes, all_taken, Takes-trans}
use drepobouncer.ClashScheduler.Remaining.{touches, Stands, filter-any}
use drepobouncer.ClashScheduler.Visits.{Permutes, process-Processed}

added_trans :
    (xs ys zs out out' : List Edge) → ys ≡ xs ++ out → zs ≡ ys ++ out' → zs ≡ xs ++ (out ++ out')
added_trans xs ys zs out out' e e' = e' ∙ ap (λ vs. vs ++ out') e ∙ append_assoc xs out out'

-- The inner loop ends.
record Drained (r : List Edge) (s : Scheduler) (o : Option Scheduler) : Type 0 where
  left : List Edge
  result : Scheduler
  succeeds : o ≡ some result
  stands : Stands left result
  no_longer : length left ≤ length r
  out : List Edge
  added_last : result.results ≡ s.results ++ out
  takes : Takes left r out

drain-Drained :
    (sorts : Sorts) (fuel : ℕ) (next : List ℕ) (r : List Edge) (s : Scheduler)
    → Permutes sorts
    → Stands r s
    → length next + length r ≤ fuel
    → Drained r s (drain sorts fuel (next, s))
unfolding drain
drain-Drained sorts zero [] r s sorting h enough = record {
  left = r;
  result = s;
  succeeds = refl;
  stands = h;
  no_longer = omega arith;
  out = [];
  added_last = sym (append-nil s.results);
  takes = all_taken;
}
drain-Drained sorts (suc fuel) [] r s sorting h enough = record {
  left = r;
  result = s;
  succeeds = refl;
  stands = h;
  no_longer = omega arith;
  out = [];
  added_last = sym (append-nil s.results);
  takes = all_taken;
}
drain-Drained sorts zero (n ∷ next) r s sorting h enough = absurd (omega arith)
drain-Drained sorts (suc fuel) (n ∷ next) r s sorting h enough =
    let (next', s') = process sorts n next s in
    let c = process-Processed sorts n next r s sorting h in
    let d = drain-Drained sorts fuel next' c.left s' sorting c.stands (omega (arith, c.shorter)) in
    record {
      left = d.left;
      result = d.result;
      succeeds = d.succeeds;
      stands = d.stands;
      no_longer = omega (arith, d.no_longer, c.no_longer);
      out = c.out ++ d.out;
      added_last =
          added_trans s.results s'.results d.result.results c.out d.out c.added_last d.added_last;
      takes = Takes-trans c.left d.left d.out r c.out c.takes d.takes;
    }

-- The first node of a round has an edge, so that a round takes one out.
pub record Rounded (r : List Edge) (s : Scheduler) (o : Option Scheduler) : Type 0 where
  pub result : Scheduler
  pub succeeds : o ≡ some result
  pub out : List Edge
  pub added_last : result.results ≡ s.results ++ out
  pub takes : Takes [] r out

no-node : (r : List Edge) (s : Scheduler) → Stands r s → s.all_nodes ≡ [] → r ≡ []
no-node [] s h e = refl
no-node ((a, b) ∷ r) s h e =
    absurd (ground (arith, ap (any (λ j. j == a)) e, h.nodes_stand a, ==_refl a))

node-edge :
    (n : ℕ) (rest : List ℕ) (r : List Edge) (s : Scheduler)
    → Stands r s
    → s.all_nodes ≡ n ∷ rest
    → (length (s.edges n) == 0) ≡ false
node-edge n rest r s h e =
    let first : any (λ j. j == n) s.all_nodes ≡ true =
      ap (any (λ j. j == n)) e ∙ ground (arith, ==_refl n) in
    ap (λ es. length es == 0) (h.edges_stand n)
    ∙ filter-any (touches n) r
    ∙ ap not (sym (h.nodes_stand n) ∙ first)

-- A round takes at least one pair out.
record Taken (r : List Edge) (s : Scheduler) (o : Option Scheduler) : Type 0 where
  drained : Drained r s o
  fewer : suc (length drained.left) ≤ length r

drain-Taken :
    (sorts : Sorts) (inner n : ℕ) (r : List Edge) (s : Scheduler)
    → Permutes sorts
    → Stands r s
    → (length (s.edges n) == 0) ≡ false
    → suc (length r) ≤ inner
    → Taken r s (drain sorts inner (n ∷ [], s))
unfolding drain
drain-Taken sorts zero n r s sorting h some_edge wide = absurd (omega arith)
drain-Taken sorts (suc inner) n r s sorting h some_edge wide =
    let (next', s') = process sorts n [] s in
    let c = process-Processed sorts n [] r s sorting h in
    let d = drain-Drained sorts inner next' c.left s' sorting c.stands (omega (arith, c.shorter)) in
    let fewer' = c.taken some_edge in
    record {
      drained = record {
        left = d.left;
        result = d.result;
        succeeds = d.succeeds;
        stands = d.stands;
        no_longer = omega (arith, d.no_longer, c.no_longer);
        out = c.out ++ d.out;
        added_last =
            added_trans s.results s'.results d.result.results c.out d.out c.added_last d.added_last;
        takes = Takes-trans c.left d.left d.out r c.out c.takes d.takes;
      };
      fewer = omega (arith, d.no_longer, fewer');
    }

rounds_end :
    (sorts : Sorts) (inner fuel : ℕ) (s : Scheduler)
    → s.all_nodes ≡ []
    → rounds sorts inner fuel s ≡ some s
unfolding rounds
rounds_end sorts inner zero s e = simp (rounds, e) refl
rounds_end sorts inner (suc fuel) s e = simp (rounds, e) refl

rounds_step :
    (sorts : Sorts) (inner fuel n : ℕ) (rest : List ℕ) (s s' : Scheduler)
    → s.all_nodes ≡ n ∷ rest
    → drain sorts inner (n ∷ [], s) ≡ some s'
    → rounds sorts inner (suc fuel) s ≡ rounds sorts inner fuel s'
unfolding rounds
rounds_step sorts inner fuel n rest s s' e d = simp (rounds, e, d) refl

pub rounds-Rounded :
    (sorts : Sorts) (inner fuel : ℕ) (r : List Edge) (s : Scheduler)
    → Permutes sorts
    → Stands r s
    → suc (length r) ≤ inner
    → length r ≤ fuel
    → Rounded r s (rounds sorts inner fuel s)
rounds-Rounded sorts inner zero r s sorting h wide enough = elim (List-cases s.all_nodes) [
  | inl e ↦ record {
    result = s;
    succeeds = rounds_end sorts inner zero s e;
    out = [];
    added_last = sym (append-nil s.results);
    takes = subst (λ r'. Takes [] r' []) (sym (no-node r s h e)) all_taken;
  }
  | inr (n, rest, e) ↦
      let d = drain-Taken sorts inner n r s sorting h (node-edge n rest r s h e) wide in
      absurd (omega (arith, d.fewer))
]
rounds-Rounded sorts inner (suc fuel) r s sorting h wide enough = elim (List-cases s.all_nodes) [
  | inl e ↦ record {
    result = s;
    succeeds = rounds_end sorts inner (suc fuel) s e;
    out = [];
    added_last = sym (append-nil s.results);
    takes = subst (λ r'. Takes [] r' []) (sym (no-node r s h e)) all_taken;
  }
  | inr (n, rest, e) ↦
      let t = drain-Taken sorts inner n r s sorting h (node-edge n rest r s h e) wide in
      let d = t.drained in
      let k =
        rounds-Rounded sorts inner fuel d.left d.result sorting d.stands (omega (arith, t.fewer))
          (omega (arith, t.fewer)) in
      record {
        result = k.result;
        succeeds = rounds_step sorts inner fuel n rest s d.result e d.succeeds ∙ k.succeeds;
        out = d.out ++ k.out;
        added_last =
            added_trans s.results d.result.results k.result.results d.out k.out d.added_last
              k.added_last;
        takes = Takes-trans d.left [] k.out r d.out d.takes k.takes;
      }
]
