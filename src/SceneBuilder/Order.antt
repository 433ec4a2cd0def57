-- ===== src/SceneBuilder/Order.antt =====
-- The order of the writes of
-- bouncer/src/repo/manipulator/modelutility/repo_scene_builder.cpp: a node before what adds parents to it.
use drepobouncer.Prelude.{
  ℕ, Bool, true, false, ◌||◌, ◌≡◌, refl, List, [], ◌∷◌, ◌++◌, ◌==◌, arith, inl, inr, Bool-cases,
  All, All-map,
}
use drepobouncer.Prelude.Map
use drepobouncer.Prelude.Map.{Map, lookup-insert, lookup-nil}
use drepobouncer.Prelude.Set
use drepobouncer.SceneBuilder.{BuiltNode, Consumable, node, parents, updates_of}

-- The queue has the node.
abbrev pub inserted : List Consumable → ℕ → Bool
inserted [] u = false
inserted (node n ∷ rest) u = n.unique_id == u || inserted rest u
inserted (parents v ps ∷ rest) u = inserted rest u

-- Parents are added to nodes only that are seen or that stand before in the queue.
abbrev pub IsOrdered : List ℕ → List Consumable → Type 0
IsOrdered seen [] = Unit
IsOrdered seen (node n ∷ rest) = IsOrdered (n.unique_id ∷ seen) rest
IsOrdered seen (parents u ps ∷ rest) = (Set.contains u seen ≡ true) × IsOrdered seen rest

pub inserted-append :
    (xs ys : List Consumable) (u : ℕ) → inserted (xs ++ ys) u ≡ inserted xs u || inserted ys u
inserted-append [] ys u = refl
inserted-append (node n ∷ xs) ys u = ground (arith, inserted-append xs ys u)
inserted-append (parents v ps ∷ xs) ys u = inserted-append xs ys u

pub inserted-updates_of : (m : Map (List ℕ)) (u : ℕ) → inserted (updates_of m) u ≡ false
unfolding updates_of
inserted-updates_of [] u = refl
inserted-updates_of ((v, ps) ∷ m) u = inserted-updates_of m u

pub IsOrdered-node :
    (seen : List ℕ) (queue : List Consumable) (n : BuiltNode)
    → IsOrdered seen queue
    → IsOrdered seen (queue ++ node n ∷ [])
IsOrdered-node seen [] n h = tt
IsOrdered-node seen (node n' ∷ queue) n h = IsOrdered-node (n'.unique_id ∷ seen) queue n h
IsOrdered-node seen (parents u ps ∷ queue) n h = (h.0, IsOrdered-node seen queue n h.1)

pub IsOrdered-updates :
    (seen : List ℕ) (queue : List Consumable) (m : Map (List ℕ))
    → IsOrdered seen queue
    → All (λ (e : ℕ × List ℕ). Set.contains e.0 seen || inserted queue e.0 ≡ true) m
    → IsOrdered seen (queue ++ updates_of m)
unfolding updates_of Set.contains
IsOrdered-updates seen [] [] h k = tt
IsOrdered-updates seen [] ((u, ps) ∷ m) h k =
    (ground (arith, k.0), IsOrdered-updates seen [] m h k.1)
IsOrdered-updates seen (node n ∷ queue) m h k = IsOrdered-updates (n.unique_id ∷ seen) queue m h (
    All-map (λ (e : ℕ × List ℕ). Set.contains e.0 seen || inserted (node n ∷ queue) e.0 ≡ true)
      (λ (e : ℕ × List ℕ). Set.contains e.0 (n.unique_id ∷ seen) || inserted queue e.0 ≡ true)
      (λ e x. ground (arith, x)) m k)
IsOrdered-updates seen (parents u ps ∷ queue) m h k = (h.0, IsOrdered-updates seen queue m h.1 k)

pub All-insert :
    (P : ℕ → Type 0) (u : ℕ) (ps : List ℕ) (m : Map (List ℕ))
    → P u
    → All (λ (e : ℕ × List ℕ). P e.0) m
    → All (λ (e : ℕ × List ℕ). P e.0) (Map.insert u ps m)
unfolding Map.insert
All-insert P u ps [] h k = (h, tt)
All-insert P u ps ((i, qs) ∷ m) h k = elim (Bool-cases (i == u)) [
  | inl e ↦ rw e (h, k.1)
  | inr e ↦ rw e (k.0, All-insert P u ps m h k.1)
]
