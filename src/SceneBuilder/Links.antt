-- ===== src/SceneBuilder/Links.antt =====
-- Which nodes become parents of which, in
-- bouncer/src/repo/manipulator/modelutility/repo_scene_builder.cpp.
use drepobouncer.Prelude.{
  ℕ, Bool, true, false, ◌&&◌, ◌||◌, ◌≡◌, refl, ◌∙◌, List, [], ◌∷◌, ◌++◌, Option, none, some, ltb,
  ◌==◌, arith, inl, inr, Bool-cases, length,
}
use drepobouncer.Prelude.Map
use drepobouncer.Prelude.Map.{Map, lookup-insert}
use drepobouncer.Prelude.Set
use drepobouncer.Prelude.Set.{contains-insert, contains-nil}
use drepobouncer.SceneBuilder.{
  Consumable, node, parents, SceneBuilder, commit, finalise, with_parent, commit_if_many,
  add_parent, updates_of,
}

-- The queue makes q a parent of the node u, by the node itself or by an update.
abbrev pub queue_links : List Consumable → ℕ → ℕ → Bool
queue_links [] u q = false
queue_links (node n ∷ rest) u q =
    (n.unique_id == u && Set.contains q n.parent_ids) || queue_links rest u q
queue_links (parents v ps ∷ rest) u q = (v == u && Set.contains q ps) || queue_links rest u q

-- So does an update that waits.
abbrev pub update_links : Map (List ℕ) → ℕ → ℕ → Bool
update_links [] u q = false
update_links ((v, ps) ∷ rest) u q = (v == u && Set.contains q ps) || update_links rest u q

abbrev pub linked : SceneBuilder → ℕ → ℕ → Bool
linked b u q = queue_links b.queue u q || update_links b.parent_updates u q

or_assoc : (a b c : Bool) → (a || b) || c ≡ a || (b || c)
or_assoc true b c = refl
or_assoc false b c = refl

pub queue_links-append :
    (xs ys : List Consumable) (u q : ℕ)
    → queue_links (xs ++ ys) u q ≡ queue_links xs u q || queue_links ys u q
queue_links-append [] ys u q = refl
queue_links-append (node n ∷ xs) ys u q = ground (arith, queue_links-append xs ys u q)
queue_links-append (parents v ps ∷ xs) ys u q = ground (arith, queue_links-append xs ys u q)

queue_links-updates_of :
    (m : Map (List ℕ)) (u q : ℕ) → queue_links (updates_of m) u q ≡ update_links m u q
unfolding updates_of
queue_links-updates_of [] u q = refl
queue_links-updates_of ((v, ps) ∷ m) u q = ground (arith, queue_links-updates_of m u q)

linked-commit : (b : SceneBuilder) (u q : ℕ) → linked (commit b) u q ≡ linked b u q
unfolding commit
linked-commit b u q = ground (
  arith,
  queue_links-append b.queue (updates_of b.parent_updates) u q,
  queue_links-updates_of b.parent_updates u q,
)

update_links-put :
    (u p v q : ℕ) (m : Map (List ℕ)) (found : Option (List ℕ))
    → Map.lookup u m ≡ found
    → update_links (Map.insert u (with_parent p found) m) v q
      ≡ (u == v && p == q) || update_links m v q
unfolding Map.insert Map.lookup with_parent Set.contains
update_links-put u p v q [] none h = ground arith
update_links-put u p v q [] (some qs) h = absurd (cc h)
update_links-put u p v q ((i, ps) ∷ m) none h = elim (Bool-cases (i == u)) [
  | inl e ↦ absurd (ground (arith, e, h))
  | inr e ↦ rw e (ground (arith, e, update_links-put u p v q m none (ground (arith, e, h))))
]
update_links-put u p v q ((i, ps) ∷ m) (some qs) h = elim (Bool-cases (i == u)) [
  | inl e ↦
      let same : ps ≡ qs = ground (arith, e, h) in
      rw (e, same) (ground (arith, e, contains-insert p q qs))
  | inr e ↦ rw e (ground (arith, e, update_links-put u p v q m (some qs) (ground (arith, e, h))))
]

linked-commit_if_many : (b : SceneBuilder) (u q : ℕ) → linked (commit_if_many b) u q ≡ linked b u q
unfolding commit_if_many
linked-commit_if_many b u q = elim (Bool-cases (ltb 10000 (length b.parent_updates))) [
  | inl e ↦ rw e (linked-commit b u q)
  | inr e ↦ rw e refl
]

-- addParent makes the parent one of the node's parents, in the queue or as a waiting update, and changes
-- no other link, whether or not it commits the waiting updates.
pub add_parent_lem :
    (u p v q : ℕ) (b : SceneBuilder)
    → linked (add_parent u p b) v q ≡ (u == v && p == q) || linked b v q
unfolding add_parent
add_parent_lem u p v q b =
    linked-commit_if_many _ v q
    ∙ ground (arith, update_links-put u p v q b.parent_updates (Map.lookup u b.parent_updates) refl)

-- finalise leaves no waiting update, and the queue alone then makes every link that the queue and the waiting
-- updates made before.
pub finalise_lem :
    (b : SceneBuilder) (u q : ℕ)
    → ((finalise b).parent_updates ≡ []) × (queue_links (finalise b).queue u q ≡ linked b u q)
unfolding finalise commit
finalise_lem b u q = (refl, ground (arith, linked-commit b u q))
