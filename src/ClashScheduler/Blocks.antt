-- ===== src/ClashScheduler/Blocks.antt =====
-- The blocks of pairs that bouncer/src/repo/manipulator/modelutility/clashdetection/clash_scheduler.h promises:
-- after each of them one mesh is not needed any more.
use drepobouncer.Prelude.{
  ℕ, ◌+◌, ◌≡◌, refl, Bool, true, not, List, [], ◌∷◌, ◌++◌, filter, count, count-append, count-split,
  All, append_assoc, arith,
}
use drepobouncer.ClashScheduler.{Edge}
use drepobouncer.ClashScheduler.Remaining.{touches}

-- Each block is of the pairs of one mesh, and no later pair is of that mesh.
pub data Blocks : List Edge → Type 0 where
  no_block : Blocks []
  block :
      {out : List Edge} (n : ℕ) (es : List Edge)
      → All (λ e. touches n e ≡ true) es
      → count (touches n) out ≡ 0
      → Blocks out
      → Blocks (es ++ out)

-- How the remaining pairs r are scheduled until r' remain.
pub data Takes (r' : List Edge) : List Edge → List Edge → Type 0 where
  all_taken : Takes r' r' []
  take_block :
      {r out : List Edge} (n : ℕ) (es : List Edge)
      → All (λ e. touches n e ≡ true) es
      → ((p : Edge → Bool) → count p es ≡ count p (filter (touches n) r))
      → Takes r' (filter (λ e. not (touches n e)) r) out
      → Takes r' r (es ++ out)

pub Takes-trans :
    (r1 r2 out' r out : List Edge) → Takes r1 r out → Takes r2 r1 out' → Takes r2 r (out ++ out')
Takes-trans r1 r2 out' r _ all_taken k = k
Takes-trans r1 r2 out' r _ (take_block {out = out} n es t same h) k =
    rw (append_assoc es out out')
      (take_block n es t same (Takes-trans r1 r2 out' (filter (λ e. not (touches n e)) r) out h k))

pub Takes-count :
    (r' : List Edge) (p : Edge → Bool) (r out : List Edge)
    → Takes r' r out
    → count p out + count p r' ≡ count p r
Takes-count r' p r _ all_taken = omega arith
Takes-count r' p r _ (take_block {out = out} n es t same h) =
    let rest = Takes-count r' p (filter (λ e. not (touches n e)) r) out h in
    omega (arith, count-append p es out, same p, rest, count-split p (touches n) r)

count-filter-not : (p : Edge → Bool) (r : List Edge) → count p (filter (λ e. not (p e)) r) ≡ 0
count-filter-not p [] = refl
count-filter-not p (e ∷ r) = ground (arith, count-filter-not p r)

pub Takes-Blocks : (r out : List Edge) → Takes [] r out → Blocks out
Takes-Blocks _ _ all_taken = no_block
Takes-Blocks r _ (take_block {out = out} n es t same h) =
    let left = filter (λ e. not (touches n e)) r in
    let rest = Takes-count [] (touches n) left out h in
    block n es t (omega (arith, rest, count-filter-not (touches n) r)) (Takes-Blocks left out h)

pub All-count :
    (p : Edge → Bool) (es : List Edge) → count (λ e. not (p e)) es ≡ 0 → All (λ e. p e ≡ true) es
All-count p [] h = tt
All-count p (e ∷ es) h = (ground (arith, h), All-count p es (ground (arith, h)))

pub count-not-filter : (p : Edge → Bool) (r : List Edge) → count (λ e. not (p e)) (filter p r) ≡ 0
count-not-filter p [] = refl
count-not-filter p (e ∷ r) = ground (arith, count-not-filter p r)
