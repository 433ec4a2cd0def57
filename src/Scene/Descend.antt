-- ===== src/Scene/Descend.antt =====
-- Walking the graph: getChildrenNodesFiltered, filterNodesByType, getAllDescendantsByType,
-- getParentNodesFiltered and getTextureIDForMesh of
-- bouncer/src/repo/core/model/collection/repo_scene.cpp. The descent takes fuel; `none` means that
-- it ran out, where the program would recurse for ever.
pub mod Laws
use drepobouncer.Prelude.{
  ℕ, zero, suc, Bool, true, false, List, [], ◌∷◌, ◌++◌, Option, none, some, if◌then◌else◌,
}
use drepobouncer.Prelude.Map
use drepobouncer.Scene.Node.{Node, NodeType, material, texture, same_type}
use drepobouncer.Scene.Graph.{
  GraphType, Graph, Scene, graph_of, children_or_empty, get_children_as_nodes,
  get_node_by_shared_id,
}

-- filterNodesByType
unfoldable pub filter_nodes_by_type : (ℕ → Node) → NodeType → List ℕ → List ℕ
filter_nodes_by_type h k [] = []
filter_nodes_by_type h k (a ∷ rest) =
    let filtered = filter_nodes_by_type h k rest in
    if same_type (h a).type k then a ∷ filtered else filtered

-- getChildrenNodesFiltered
unfoldable pub get_children_nodes_filtered : GraphType → ℕ → NodeType → Scene → List ℕ
get_children_nodes_filtered t parent k s =
    filter_nodes_by_type s.heap k (get_children_as_nodes t parent s)

infixl 5 ◌>>=◌
abbrev pub ◌>>=◌ : Option (List ℕ) → (List ℕ → Option (List ℕ)) → Option (List ℕ)
none >>= f = none
some r >>= f = f r

abbrev pub self_if : Bool → ℕ → List ℕ
self_if true c = c ∷ []
self_if false c = []

-- The loop over the children, given the recursive call.
unfoldable pub gather : (ℕ → Option (List ℕ)) → (ℕ → Node) → NodeType → List ℕ → Option (List ℕ)
gather descend h k [] = some []
gather descend h k (c ∷ rest) = do
  below ← descend (h c).shared_id
  after ← gather descend h k rest
  some (below ++ (self_if (same_type (h c).type k) c ++ after))

-- getAllDescendantsByType
unfoldable pub get_all_descendants_by_type : ℕ → (ℕ → Node) → Graph → NodeType → ℕ → Option (List ℕ)
get_all_descendants_by_type zero h g k id = none
get_all_descendants_by_type (suc fuel) h g k id =
    gather (get_all_descendants_by_type fuel h g k) h k
      (children_or_empty (Map.lookup id g.parent_to_children))

unfoldable pub parents_of_type : GraphType → NodeType → Scene → List ℕ → List ℕ
parents_of_type t k s [] = []
parents_of_type t k s (id ∷ ids) =
    let rest = parents_of_type t k s ids in
    elim (get_node_by_shared_id t id s) [
      | none ↦ rest
      | some a ↦ if same_type (s.heap a).type k then a ∷ rest else rest
    ]

-- getParentNodesFiltered
unfoldable pub get_parent_nodes_filtered : GraphType → Option ℕ → NodeType → Scene → List ℕ
get_parent_nodes_filtered t none k s = []
get_parent_nodes_filtered t (some a) k s = parents_of_type t k s (s.heap a).parent_ids

-- The first texture among the children of the first material; `none` is the empty string.
unfoldable pub first_texture : GraphType → Scene → List ℕ → Option ℕ
first_texture t s [] = none
first_texture t s (m ∷ ms) = elim (get_children_nodes_filtered t (s.heap m).shared_id texture s) [
  | [] ↦ none
  | x ∷ xs ↦ some (s.heap x).unique_id
]

-- getTextureIDForMesh
unfoldable pub get_texture_id_for_mesh : GraphType → ℕ → Scene → Option ℕ
get_texture_id_for_mesh t shared_id s =
    first_texture t s (get_children_nodes_filtered t shared_id material s)
