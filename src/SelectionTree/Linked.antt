-- ===== src/SelectionTree/Linked.antt =====
-- The tree that generateSelectionTrees of
-- bouncer/src/repo/manipulator/modelutility/repo_maker_selection_tree.cpp links.
use drepobouncer.Prelude.{
  append-nil, append_assoc, sym, ◌==◌, if◌then◌else◌, Option-cases, inl, inr, filter-agree,
  All-every, All-map, ℕ, ◌≡◌, refl, ap, ◌∙◌, List, [], ◌∷◌, ◌++◌, Option, none, some, map, filter,
  All,
}
use drepobouncer.Prelude.Map
use drepobouncer.Prelude.Map.{Map}
use drepobouncer.Scene.Node.{Node}
use drepobouncer.SelectionTree.Read.{
  push-if, once_for_each, meta_at, meta_in, meta_at-index_of, is_metadata, tree_nodes, last_with,
  parent_in, HasParents, AllHaveParents, loaded-nodes, lookup-index_of, parent_of-index_of,
  load-All,
}
use drepobouncer.SelectionTree.Linking.{
  at_or_nil-insert, link_node, parent_of, is_at, is_none, empty_loaded, Links, link_nodes,
  link_metadata, link_all_metadata, at_or_nil, is_child_of, is_orphan, last_or, link_nodes-children,
  link_nodes-root, loaded, index_of, empty_links, link,
}

-- Each parent of the metadata is a node of the tree.
abbrev pub Found : Map ℕ → List ℕ → Type 0
Found by_shared_id parents =
    All (λ parent. (p : ℕ) × (Map.lookup parent by_shared_id ≡ some p)) parents

abbrev pub AllFound : Map ℕ → Map (List ℕ) → Type 0
AllFound by_shared_id entries = All (λ entry. Found by_shared_id entry.1) entries

module _ (default_id : ℕ) (by_shared_id : Map ℕ) where
  abbrev find : ℕ → Option ℕ
  find id = Map.lookup id by_shared_id

  -- Metadata is added at each node, and nothing else is changed.
  record Added (added : ℕ → List ℕ) (l : Links) (r : Option Links) : Type 0 where
    result : Links
    succeeds : r ≡ some result
    children_kept : result.children ≡ l.children
    root_kept : result.root ≡ l.root
    meta_added : (p : ℕ) → at_or_nil p result.meta ≡ at_or_nil p l.meta ++ added p

  link_metadata-Added :
      (id : ℕ) (parents : List ℕ) (l : Links)
      → Found by_shared_id parents
      → Added
          (λ p. once_for_each find p id parents)
          l
          (link_metadata default_id by_shared_id id parents l)
  unfolding link_metadata
  link_metadata-Added id [] l h = record {
    result = l;
    succeeds = refl;
    children_kept = refl;
    root_kept = refl;
    meta_added = λ p. sym (append-nil (at_or_nil p l.meta));
  }
  link_metadata-Added id (parent ∷ parents) l ((q, e), h) =
      let l1 : Links = record l { meta = Map.insert q (at_or_nil q l.meta ++ id ∷ []) l.meta } in
      let r = link_metadata-Added id parents l1 h in
      record {
        result = r.result;
        succeeds = rw (link_metadata, e) r.succeeds;
        children_kept = r.children_kept;
        root_kept = r.root_kept;
        meta_added = λ p.
            r.meta_added p
            ∙ ap (λ ids. ids ++ once_for_each find p id parents) (at_or_nil-insert q p id l.meta)
            ∙ push-if (q == p) (at_or_nil p l.meta) id (once_for_each find p id parents)
            ∙ ap
                (λ o.
                  at_or_nil p l.meta
                  ++ (if is_at p o
                      then id ∷ once_for_each find p id parents
                      else once_for_each find p id parents))
                (sym e);
      }

  link_all_metadata-Added :
      (entries : Map (List ℕ)) (l : Links)
      → AllFound by_shared_id entries
      → Added (λ p. meta_at find p entries) l (link_all_metadata default_id by_shared_id entries l)
  unfolding link_all_metadata
  link_all_metadata-Added [] l h = record {
    result = l;
    succeeds = refl;
    children_kept = refl;
    root_kept = refl;
    meta_added = λ p. sym (append-nil (at_or_nil p l.meta));
  }
  link_all_metadata-Added ((id, parents) ∷ rest) l h =
      let one = link_metadata-Added id parents l h.0 in
      let r = link_all_metadata-Added rest one.result h.1 in
      record {
        result = r.result;
        succeeds = rw (link_all_metadata, one.succeeds) r.succeeds;
        children_kept = r.children_kept ∙ one.children_kept;
        root_kept = r.root_kept ∙ one.root_kept;
        meta_added = λ p.
            r.meta_added p
            ∙ ap (λ ids. ids ++ meta_at find p rest) (one.meta_added p)
            ∙ append_assoc (at_or_nil p l.meta) (once_for_each find p id parents)
                (meta_at find p rest);
      }

link_nodes-meta :
    (default_id : ℕ) (by_shared_id : Map ℕ) (nodes : List Node) (l : Links)
    → (link_nodes default_id by_shared_id nodes l).meta ≡ l.meta
unfolding link_nodes link_node
link_nodes-meta default_id by_shared_id [] l = refl
link_nodes-meta default_id by_shared_id (n ∷ nodes) l =
    elim (Option-cases (parent_of default_id by_shared_id n)) [
      | inl e ↦
          link_nodes-meta default_id by_shared_id nodes (link_node default_id by_shared_id n l)
          ∙ rw (link_node, e) refl
      | inr (q, e) ↦
          link_nodes-meta default_id by_shared_id nodes (link_node default_id by_shared_id n l)
          ∙ rw (link_node, e) refl
    ]

-- Parents by what the map of the nodes finds, and by the nodes
metadata-Found :
    (cursor : List Node)
    → AllHaveParents cursor
    → AllFound (index_of cursor) (loaded cursor).metadata
metadata-Found cursor h =
    load-All (Found (index_of cursor)) cursor empty_loaded
      (All-map (HasParents cursor) (λ n. Found (index_of cursor) n.parent_ids)
        (λ n.
          All-map (λ parent. (p : ℕ) × (last_with parent none (tree_nodes cursor) ≡ some p))
            (λ parent. (p : ℕ) × (Map.lookup parent (index_of cursor) ≡ some p))
            (λ parent x. (x.0, lookup-index_of parent cursor ∙ x.1)) n.parent_ids)
        (filter (λ n. is_metadata n.type) cursor) h)
      tt

-- The tree_nodes are the meshes and transformations of the cursor, in its order. Where each parent of the metadata is the
-- shared id of one of them, the tree is linked: the children of each node are the tree nodes whose first parent is its
-- shared id, in the order of the cursor, and the root is the last tree node whose first parent is the shared id of
-- none. The metadata of a node are those that have it for a parent, once for each such parent, in the order of their
-- map. A tree node without parents counts as having the default id for its first; where several have one shared id,
-- the last of them is the parent.
pub link_lem :
    (default_id : ℕ) (cursor : List Node)
    → AllHaveParents cursor
    → (links : Links) × (link default_id cursor ≡ some links)
      × ((p : ℕ)
          → at_or_nil p links.children
            ≡ map
                (λ n. n.unique_id)
                (filter (λ n. is_at p (parent_in default_id cursor n)) (tree_nodes cursor)))
      × ((p : ℕ) → at_or_nil p links.meta ≡ meta_in cursor p)
      × (links.root
          ≡ last_or none
              (filter (λ n. is_none (parent_in default_id cursor n)) (tree_nodes cursor)))
unfolding link Map.lookup
link_lem default_id cursor h =
    let m = index_of cursor in
    let nodes = (loaded cursor).nodes in
    let r =
      link_all_metadata-Added default_id m (loaded cursor).metadata
        (link_nodes default_id m nodes empty_links) (metadata-Found cursor h) in
    (
      r.result,
      r.succeeds,
      λ p.
          ap (at_or_nil p) r.children_kept
          ∙ link_nodes-children default_id m nodes empty_links p
          ∙ ap (λ ns. map (λ n. n.unique_id) (filter (is_child_of default_id m p) ns))
              (loaded-nodes cursor)
          ∙ ap (map (λ n. n.unique_id)) (
              filter-agree (is_child_of default_id m p)
                (λ n. is_at p (parent_in default_id cursor n)) (tree_nodes cursor)
                (All-every
                  (λ n. is_child_of default_id m p n ≡ is_at p (parent_in default_id cursor n))
                  (λ n. ap (is_at p) (parent_of-index_of default_id cursor n))
                  (tree_nodes cursor))),
      λ p.
          r.meta_added p
          ∙ ap
              (λ (m : Map (List ℕ)).
                at_or_nil p m
                ++ meta_at (λ parent. Map.lookup parent (index_of cursor)) p
                    (loaded cursor).metadata)
              (link_nodes-meta default_id m nodes empty_links)
          ∙ meta_at-index_of cursor p,
      r.root_kept
          ∙ link_nodes-root default_id m nodes empty_links
          ∙ ap (λ ns. last_or none (filter (is_orphan default_id m) ns)) (loaded-nodes cursor)
          ∙ ap (last_or none) (
              filter-agree (is_orphan default_id m) (λ n. is_none (parent_in default_id cursor n))
                (tree_nodes cursor)
                (All-every (λ n. is_orphan default_id m n ≡ is_none (parent_in default_id cursor n))
                  (λ n. ap is_none (parent_of-index_of default_id cursor n)) (tree_nodes cursor))),
    )
