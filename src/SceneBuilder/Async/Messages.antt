-- ===== src/SceneBuilder/Async/Messages.antt =====
-- The messages on their way through the queue of RepoSceneBuilder::AsyncImpl
-- (bouncer/src/repo/manipulator/modelutility/repo_scene_builder.cpp).
use drepobouncer.Prelude.{Bool, true, false, ℕ, ◌+◌, ◌≡◌, refl, ap, List, [], ◌∷◌, ◌++◌, arith}
use drepobouncer.SceneBuilder.{Consumable}
use drepobouncer.SceneBuilder.Async.{
  Message, write, close, notify, Entry, Held, nothing, taken, visiting, Async, pushes,
}

abbrev pub total : List Entry → ℕ
total [] = 0
total ((m, size) ∷ rest) = size + total rest

-- The messages but Notify, in order.
abbrev pub strip : List Entry → List Message
strip [] = []
strip ((write c, size) ∷ rest) = write c ∷ strip rest
strip ((close, size) ∷ rest) = close ∷ strip rest
strip ((notify, size) ∷ rest) = strip rest

abbrev pub sends : List Consumable → List Message
sends [] = close ∷ []
sends (c ∷ cs) = write c ∷ sends cs

-- What the consumer holds, without the size when that is subtracted
abbrev pub held_entries : Held → List Entry
held_entries nothing = []
held_entries (taken e) = e ∷ []
held_entries (visiting m) = (m, 0) ∷ []

-- The entries between the producer and the end of a visit
abbrev pub on_way : Async → List Entry
on_way a = held_entries a.held ++ a.queue

-- The size of the item that the producer has counted and not queued yet
abbrev pub counted_size : Bool → List Entry → ℕ
counted_size false todo = 0
counted_size true [] = 0
counted_size true (e ∷ todo) = e.1

pub total-append : (xs ys : List Entry) → total (xs ++ ys) ≡ total xs + total ys
total-append [] ys = omega arith
total-append ((m, size) ∷ xs) ys = omega (arith, total-append xs ys)

strip-append : (xs ys : List Entry) → strip (xs ++ ys) ≡ strip xs ++ strip ys
strip-append [] ys = refl
strip-append ((write c, size) ∷ xs) ys = ap (◌∷◌ (write c)) (strip-append xs ys)
strip-append ((close, size) ∷ xs) ys = ap (◌∷◌ close) (strip-append xs ys)
strip-append ((notify, size) ∷ xs) ys = strip-append xs ys

pub strip-pushes :
    (get_size : ℕ → ℕ) (work : List Consumable) → strip (pushes get_size work) ≡ sends work
unfolding pushes
strip-pushes get_size [] = refl
strip-pushes get_size (c ∷ work) = ap (◌∷◌ (write c)) (strip-pushes get_size work)

pub strip-notify : (xs ys : List Entry) → strip ((xs ++ (notify, 0) ∷ []) ++ ys) ≡ strip (xs ++ ys)
strip-notify [] ys = refl
strip-notify ((write c, size) ∷ xs) ys = ap (◌∷◌ (write c)) (strip-notify xs ys)
strip-notify ((close, size) ∷ xs) ys = ap (◌∷◌ close) (strip-notify xs ys)
strip-notify ((notify, size) ∷ xs) ys = strip-notify xs ys

pub sent_write :
    (c : Consumable) (s : List Message) (rest : List Consumable)
    → write c ∷ s ≡ sends rest
    → (rest' : List Consumable) × (rest ≡ c ∷ rest') × (s ≡ sends rest')
sent_write c s [] e = absurd (cc e)
sent_write c s (c' ∷ rest') e = (rest', cc e, cc e)

pub sent_close : (s : List Message) (rest : List Consumable) → close ∷ s ≡ sends rest → rest ≡ []
sent_close s [] e = refl
sent_close s (c ∷ rest) e = absurd (cc e)

pub strip_size :
    (m : Message) (size : ℕ) (rest : List Entry) → strip ((m, size) ∷ rest) ≡ strip ((m, 0) ∷ rest)
strip_size (write c) size rest = refl
strip_size close size rest = refl
strip_size notify size rest = refl
