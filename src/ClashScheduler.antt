-- ===== src/ClashScheduler.antt =====
-- The order in which pairs of meshes are tested for clashes: ClashSchedulerImpl and ClashScheduler of
-- bouncer/src/repo/manipulator/modelutility/clashdetection/clash_scheduler.{h,cpp}. A node is known by its id: the
-- code makes one node for each id.
pub mod Remaining
pub mod Blocks
pub mod Visits
pub mod Scheduling
pub mod Creating
mod Examples
use drepobouncer.Prelude.{
  ℕ, zero, suc, ◌+◌, Bool, true, false, ◌&&◌, ◌||◌, not, List, [], ◌∷◌, ◌++◌, Option, none, some,
  map, ◌==◌, if◌then◌else◌, length, filter, any,
}

abbrev pub Edge : Type 0
Edge = ℕ × ℕ

-- == of two pairs
abbrev pub eq_edge : Edge → Edge → Bool
eq_edge (a, b) (c, d) = (a == c) && (b == d)

-- The members; `edges` gives the edges of each node. allNodes is the list of nodes that are live.
pub record Scheduler : Type 0 where
  pub edges : ℕ → List Edge
  pub all_nodes : List ℕ
  pub results : List Edge

pub record Other : Type 0 where
  pub node : ℕ
  pub direction : Bool

-- std::ranges::sort by the number of edges, of nodes and of the others: the order of equal ones is open.
pub record Sorts : Type 0 where
  pub sort_nodes : (ℕ → ℕ) → List ℕ → List ℕ
  pub sort_others : (Other → ℕ) → List Other → List Other

abbrev pub set_edges : ℕ → List Edge → Scheduler → Scheduler
set_edges id es s = record s { edges = λ i. if i == id then es else s.edges i }

-- addNode; finding the id in the map is finding it among the nodes.
abbrev pub add_node : ℕ → List ℕ → List ℕ
add_node id nodes = if any (λ i. i == id) nodes then nodes else nodes ++ id ∷ []

unfoldable pub add_nodes : List Edge → List ℕ → List ℕ
add_nodes [] nodes = nodes
add_nodes (e ∷ es) nodes = add_nodes es (add_node e.1 (add_node e.0 nodes))

-- The body of the second loop of createGraph
unfoldable pub push_edge : Edge → Scheduler → Scheduler
push_edge e s =
    let s1 = set_edges e.0 (s.edges e.0 ++ e ∷ []) s in
    if e.0 == e.1 then s1 else set_edges e.1 (s1.edges e.1 ++ e ∷ []) s1

unfoldable pub push_edges : List Edge → Scheduler → Scheduler
push_edges [] s = s
push_edges (e ∷ es) s = push_edges es (push_edge e s)

abbrev pub empty_scheduler : Scheduler
empty_scheduler = record { edges = λ i. []; all_nodes = []; results = [] }

-- createGraph
unfoldable pub create_graph : List Edge → Scheduler
create_graph es = record (push_edges es empty_scheduler) { all_nodes = add_nodes es [] }

-- Node::remove, before its result is read
abbrev pub remove_edge : Edge → ℕ → Scheduler → Scheduler
remove_edge e id s = set_edges id (filter (λ x. not (eq_edge x e)) (s.edges id)) s

-- remove of a node, if Node::remove says that it has no edges left
abbrev pub remove_node : ℕ → Scheduler → Scheduler
remove_node id s =
    if length (s.edges id) == 0
    then record s { all_nodes = filter (λ i. not (i == id)) s.all_nodes }
    else s

-- remove of an edge
unfoldable pub remove : Edge → Scheduler → Scheduler
remove e s = remove_node e.1 (remove_edge e e.1 (remove_node e.0 (remove_edge e e.0 s)))

-- The loops over the edges of a node and over its others
abbrev pub other_of : ℕ → Edge → Other
other_of n e =
    if n == e.0
    then record { node = e.1; direction = true }
    else record { node = e.0; direction = false }

abbrev pub edge_of : ℕ → Other → Edge
edge_of n other = if other.direction then (n, other.node) else (other.node, n)

unfoldable pub visit : ℕ → List Other → List ℕ → Scheduler → List ℕ × Scheduler
visit n [] next s = (next, s)
visit n (other ∷ others) next s =
    let e = edge_of n other in
    visit n others (next ++ other.node ∷ []) (remove e (record s { results = s.results ++ e ∷ [] }))

module _ (sorts : Sorts) where
  -- The body of the inner loop, for a node that is popped
  unfoldable pub process : ℕ → List ℕ → Scheduler → List ℕ × Scheduler
  process n next s =
      if length (s.edges n) == 0
      then (next, s)
      else visit n
          (sorts.sort_others (λ other. length (s.edges other.node)) (map (other_of n) (s.edges n)))
          next s

  -- The inner loop, on fuel
  unfoldable pub drain : ℕ → List ℕ × Scheduler → Option Scheduler
  drain fuel ([], s) = some s
  drain zero (n ∷ next, s) = none
  drain (suc fuel) (n ∷ next, s) = drain fuel (process n next s)

  -- The outer loop, on fuel for its rounds and for the inner loop
  unfoldable pub rounds : ℕ → ℕ → Scheduler → Option Scheduler
  rounds inner zero s = elim s.all_nodes [ [] ↦ some s | n ∷ rest ↦ none ]
  rounds inner (suc fuel) s = elim s.all_nodes [
    | [] ↦ some s
    | n ∷ rest ↦ elim (drain inner (n ∷ [], s)) [ none ↦ none | some s' ↦ rounds inner fuel s' ]
  ]

  abbrev pub sort_by_edges : Scheduler → Scheduler
  sort_by_edges s = record s { all_nodes = sorts.sort_nodes (λ i. length (s.edges i)) s.all_nodes }

  abbrev pub results_of : Option Scheduler → Option (List Edge)
  results_of none = none
  results_of (some s) = some s.results

  -- ClashScheduler::_schedule over the constructor of ClashSchedulerImpl, with fuel for a round for each pair
  unfoldable pub schedule : List Edge → Option (List Edge)
  schedule es = results_of (rounds (suc (length es)) (length es) (sort_by_edges (create_graph es)))
