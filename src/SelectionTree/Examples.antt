-- ===== src/SelectionTree/Examples.antt =====
-- A tree of five nodes, one a mesh of an IFC space, for
-- bouncer/src/repo/manipulator/modelutility/repo_maker_selection_tree.cpp.
use drepobouncer.Prelude.{
  ℕ, ◌<◌, ◌≡◌, refl, ◌∙◌, Bool, true, false, not, ◌||◌, List, [], ◌∷◌, ◌++◌, Option, some, ◌==◌,
  if◌then◌else◌, any, map, none, ◌+◌, filter, any-append, arith,
}
use drepobouncer.Prelude.Map
use Prim.Native.String.{String}
use text.Mathlib.Text.{◌==◌ as str_eq}
use drepobouncer.Scene.Node.{NodeType, Node}
use drepobouncer.SelectionTree.Linking.{is_at, is_none, Links, link, at_or_nil, last_or}
use drepobouncer.SelectionTree.Read.{meta_in, AllHaveParents, parent_in, tree_nodes}
use drepobouncer.SelectionTree.Linked.{link_lem}
use drepobouncer.SelectionTree.{
  ToggleState, hidden, half_hidden, show, Entry, Env, Trees, Out, traverse_ptree, traverse_children,
  leave,
}
use drepobouncer.SelectionTree.Below.{Below, Noted, among}
use drepobouncer.SelectionTree.Traversing.{IsTree, traverse_ptree_lem}

abbrev spaces_first : (ℕ → Bool) → List ℕ → List ℕ
spaces_first p ids = filter p ids ++ filter (λ id. not (p id)) ids

any-filter-split :
    (q p : ℕ → Bool) (ids : List ℕ)
    → (any q (filter p ids) || any q (filter (λ id. not (p id)) ids)) ≡ any q ids
any-filter-split q p [] = refl
any-filter-split q p (id ∷ ids) = ground (arith, any-filter-split q p ids)

abbrev children_of : ℕ → List ℕ
children_of id = if id == 1 then 2 ∷ 3 ∷ [] else if id == 3 then 5 ∷ 4 ∷ [] else []

abbrev entry_of : ℕ → Entry
entry_of id = record {
  type = if (id == 1) || (id == 3) then NodeType.transformation else NodeType.mesh;
  name = if id == 4 then "Hall (IFC Space)" else "wall";
  shared_id = id;
  children = children_of id;
}

abbrev is_hall : String → Bool
is_hall name = str_eq name "Hall (IFC Space)"

abbrev env : Env
env = record {
  entry = entry_of;
  is_hidden_by_default = λ id. false;
  is_space = is_hall;
  sort = spaces_first;
}

abbrev rank : ℕ → ℕ
rank id = if id == 1 then 2 else if id == 3 then 1 else 0

children-falls : (a c : ℕ) → among (children_of a) c ≡ true → rank c < rank a
children-falls a c m = ground (arith, m)

is_tree : IsTree env rank
is_tree = record {
  sort_keeps = λ p ids id.
      any-append (λ i. i == id) (filter p ids) (filter (λ i. not (p i)) ids)
      ∙ any-filter-split (λ i. i == id) p ids;
  falls = children-falls;
}

abbrev empty : Trees
empty = record {
  path = [];
  toggle_state = [];
  id_to_path = [];
  id_to_meshes = [];
  id_to_name = [];
  id_map = [];
  hidden_nodes = [];
}

abbrev states_of : Option Out → List (ℕ × ToggleState)
states_of (some o) = o.trees.toggle_state
states_of _ = []

states :
    states_of (traverse_ptree env 3 [] 1 empty)
    ≡ (2, show) ∷ (4, hidden) ∷ (5, show) ∷ (3, half_hidden) ∷ (1, half_hidden) ∷ []
unfolding traverse_ptree traverse_children leave Map.insert
states = refl

traverse_ptree_lem_example :
    (o : Out) × (traverse_ptree env 3 [] 1 empty ≡ some o)
    × ((b : ℕ) → Below env 1 b → Noted env b o.trees)
traverse_ptree_lem_example = traverse_ptree_lem env rank 3 1 empty is_tree (omega arith)

abbrev node : ℕ → NodeType → List ℕ → Node
node id type parents = record {
  name = "node";
  unique_id = id;
  shared_id = id + 10;
  parent_ids = parents;
  rev_id = 0;
  type = type;
}

abbrev cursor : List Node
cursor =
    node 3 NodeType.mesh (11 ∷ [])
    ∷ node 1 NodeType.transformation []
    ∷ node 4 NodeType.metadata (11 ∷ 13 ∷ [])
    ∷ node 2 NodeType.mesh (11 ∷ [])
    ∷ []

-- The metadata of the cursor are at nodes of the tree.
have_parents : AllHaveParents cursor
have_parents = (((1, refl), ((3, refl), tt)), tt)

link_lem_example :
    (links : Links) × (link 0 cursor ≡ some links)
    × ((p : ℕ)
        → at_or_nil p links.children
          ≡ map
              (λ n. n.unique_id)
              (filter (λ n. is_at p (parent_in 0 cursor n)) (tree_nodes cursor)))
    × ((p : ℕ) → at_or_nil p links.meta ≡ meta_in cursor p)
    × (links.root ≡ last_or none (filter (λ n. is_none (parent_in 0 cursor n)) (tree_nodes cursor)))
link_lem_example = link_lem 0 cursor have_parents
