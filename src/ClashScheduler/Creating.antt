-- ===== src/ClashScheduler/Creating.antt =====
-- createGraph and the whole of
-- bouncer/src/repo/manipulator/modelutility/clashdetection/clash_scheduler.cpp.
use drepobouncer.Prelude.{
  any-append, ℕ, suc, ◌≡◌, refl, sym, ap, ◌∙◌, Bool, true, false, ◌||◌, not, List, [], ◌∷◌, ◌++◌,
  some, ◌==◌, if◌then◌else◌, length, filter, any, count, append_assoc, append-nil, if-cases, arith,
}
use drepobouncer.ClashScheduler.{
  Edge, Scheduler, Sorts, set_edges, add_node, add_nodes, push_edge, push_edges, empty_scheduler,
  create_graph, sort_by_edges, schedule,
}
use drepobouncer.ClashScheduler.Blocks.{Blocks, Takes-count, Takes-Blocks}
use drepobouncer.ClashScheduler.Remaining.{touches, Stands}
use drepobouncer.ClashScheduler.Visits.{Permutes, any-count}
use drepobouncer.ClashScheduler.Scheduling.{rounds-Rounded}

add_node-any :
    (id i : ℕ) (nodes : List ℕ)
    → any (λ j. j == i) (add_node id nodes) ≡ ((i == id) || any (λ j. j == i) nodes)
add_node-any id i nodes = ground (arith, any-append (λ j. j == i) nodes (id ∷ []), found)
  where
    found : (any (λ j. j == id) nodes ≡ true) → id ≡ i → any (λ j. j == i) nodes ≡ true
    found h e = rw (sym e) h

add_nodes-any :
    (es : List Edge) (i : ℕ) (nodes : List ℕ)
    → any (λ j. j == i) (add_nodes es nodes) ≡ (any (λ j. j == i) nodes || any (touches i) es)
unfolding add_nodes
add_nodes-any [] i nodes = ground arith
add_nodes-any ((a, b) ∷ es) i nodes = ground (
  arith,
  add_nodes-any es i (add_node b (add_node a nodes)),
  add_node-any b i (add_node a nodes),
  add_node-any a i nodes,
)

push_edge-edges :
    (e : Edge) (i : ℕ) (s : Scheduler)
    → (push_edge e s).edges i ≡ (if touches i e then s.edges i ++ e ∷ [] else s.edges i)
unfolding push_edge
push_edge-edges (a, b) i s = ground arith

append-if :
    (b : Bool) (xs ys : List Edge) (e : Edge)
    → (if b then xs ++ e ∷ [] else xs) ++ ys ≡ xs ++ (if b then e ∷ ys else ys)
append-if true xs ys e = append_assoc xs (e ∷ []) ys
append-if false xs ys e = refl

push_edges-edges :
    (es : List Edge) (i : ℕ) (s : Scheduler)
    → (push_edges es s).edges i ≡ s.edges i ++ filter (touches i) es
unfolding push_edges
push_edges-edges [] i s = sym (append-nil (s.edges i))
push_edges-edges (e ∷ es) i s =
    push_edges-edges es i (push_edge e s)
    ∙ ap (λ es'. es' ++ filter (touches i) es) (push_edge-edges e i s)
    ∙ append-if (touches i e) (s.edges i) (filter (touches i) es) e

create_graph-Stands : (es : List Edge) → Stands es (create_graph es)
unfolding create_graph
create_graph-Stands es = record {
  edges_stand = λ i. push_edges-edges es i empty_scheduler;
  nodes_stand = λ i. add_nodes-any es i [];
}

push_edge-results : (e : Edge) (s : Scheduler) → (push_edge e s).results ≡ s.results
unfolding push_edge
push_edge-results e s =
    if-cases (λ s'. s'.results ≡ s.results) (e.0 == e.1) (set_edges e.0 (s.edges e.0 ++ e ∷ []) s) _
      (λ _. refl) (λ _. refl)

push_edges-results : (es : List Edge) (s : Scheduler) → (push_edges es s).results ≡ s.results
unfolding push_edges
push_edges-results [] s = refl
push_edges-results (e ∷ es) s = push_edges-results es (push_edge e s) ∙ push_edge-results e s

create_graph-results : (es : List Edge) → (create_graph es).results ≡ []
unfolding create_graph
create_graph-results es = push_edges-results es empty_scheduler

-- Whatever way the sorts order nodes of as many edges, as long as they permute: the loops end, and each pair is
-- scheduled as often as it is among the broad phase's results, a pair of a mesh with itself included. The
-- schedule is made of blocks: each has the pairs of one mesh, and no pair behind it is of that mesh.
pub schedule_lem :
    (sorts : Sorts) (es : List Edge)
    → Permutes sorts
    → (out : List Edge) × (schedule sorts es ≡ some out)
      × ((p : Edge → Bool) → count p out ≡ count p es)
      × Blocks out
unfolding schedule
schedule_lem sorts es sorting =
    let s = create_graph es in
    let c = create_graph-Stands es in
    let stands' : Stands es (sort_by_edges sorts s) = record {
      edges_stand = c.edges_stand;
      nodes_stand = λ i.
          any-count (λ j. j == i) (sort_by_edges sorts s).all_nodes
          ∙ ap (λ n. not (n == 0))
              (sorting.nodes_kept (λ j. length (s.edges j)) (λ j. j == i) s.all_nodes)
          ∙ sym (any-count (λ j. j == i) s.all_nodes)
          ∙ c.nodes_stand i;
    } in
    let k =
      rounds-Rounded sorts (suc (length es)) (length es) es (sort_by_edges sorts s) sorting stands'
        (omega arith) (omega arith) in
    let fresh : k.result.results ≡ k.out =
      k.added_last ∙ ap (λ done. done ++ k.out) (create_graph-results es) in
    (
      k.out,
      rw k.succeeds (ap some fresh),
      λ p. omega (arith, Takes-count [] p es k.out k.takes),
      Takes-Blocks es k.out k.takes,
    )
