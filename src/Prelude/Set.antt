-- ===== src/Prelude/Set.antt =====
-- std::set of identifiers: an ascending list.
use drepobouncer.Prelude.Tests.{◌==◌, ltb, if◌then◌else◌}
use Prim.Native.Nat.{ℕ}
use mathlib.Core.Path.{◌≡◌, refl}
use mathlib.Core.Bool.{Bool, true, false}
use mathlib.Core.List.{List, [], ◌∷◌, ◌++◌}
use native.Mathlib.Omega.{arith}

unfoldable pub contains : ℕ → List ℕ → Bool
contains x [] = false
contains x (y ∷ ys) = if y == x then true else contains x ys

unfoldable pub insert : ℕ → List ℕ → List ℕ
insert x [] = x ∷ []
insert x (y ∷ ys) = if x == y then y ∷ ys else if ltb x y then x ∷ y ∷ ys else y ∷ insert x ys

unfoldable pub erase : ℕ → List ℕ → List ℕ
erase x [] = []
erase x (y ∷ ys) = let rest = erase x ys in if y == x then rest else y ∷ rest

unfoldable pub insert_all : List ℕ → List ℕ → List ℕ
unfolding insert
insert_all [] s = s
insert_all (x ∷ xs) s = insert_all xs (insert x s)

pub contains-insert :
    (x y : ℕ) (s : List ℕ) → contains y (insert x s) ≡ (if x == y then true else contains y s)
unfolding contains insert
contains-insert x y [] = ground arith
contains-insert x y (z ∷ s) = ground (arith, contains-insert x y s)

pub contains-erase :
    (x y : ℕ) (s : List ℕ) → contains y (erase x s) ≡ (if x == y then false else contains y s)
unfolding contains erase
contains-erase x y [] = ground arith
contains-erase x y (z ∷ s) = ground (arith, contains-erase x y s)

pub contains-insert_all :
    (xs s : List ℕ) (y : ℕ)
    → contains y (insert_all xs s) ≡ (if contains y xs then true else contains y s)
unfolding contains insert_all
contains-insert_all [] s y = refl
contains-insert_all (x ∷ xs) s y =
    ground (arith, contains-insert_all xs (insert x s) y, contains-insert x y s)

pub contains-nil : (x : ℕ) → contains x [] ≡ false
unfolding contains
contains-nil x = refl

pub contains-append :
    (x : ℕ) (xs ys : List ℕ)
    → contains x (xs ++ ys) ≡ (if contains x xs then true else contains x ys)
unfolding contains
contains-append x [] ys = refl
contains-append x (y ∷ xs) ys = ground (arith, contains-append x xs ys)

-- A second insertion changes nothing.
pub insert-insert : (x : ℕ) (s : List ℕ) → insert x (insert x s) ≡ insert x s
unfolding insert
insert-insert x [] = ground arith
insert-insert x (y ∷ s) = ground (arith, insert-insert x s)

-- No element twice.
abbrev pub Distinct : List ℕ → Type 0
Distinct [] = Unit
Distinct (x ∷ xs) = (contains x xs ≡ false) × Distinct xs

pub Distinct-snoc :
    (x : ℕ) (xs : List ℕ) → contains x xs ≡ false → Distinct xs → Distinct (xs ++ x ∷ [])
unfolding contains
Distinct-snoc x [] e h = (refl, tt)
Distinct-snoc x (y ∷ xs) e h =
    (ground (arith, contains-append y xs (x ∷ [])), Distinct-snoc x xs (ground arith) h.1)

pub ruleset set_laws = (contains-nil, contains-insert, contains-erase, contains-insert_all)
