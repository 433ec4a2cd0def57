-- ===== src/SceneBuilder/Async/Soundness.antt =====
-- An invariant of the producer and the consumer of RepoSceneBuilder::AsyncImpl
-- (bouncer/src/repo/manipulator/modelutility/repo_scene_builder.cpp).
use drepobouncer.Prelude.{
  subst, ℕ, ◌+◌, ◌≤◌, Bool, true, false, ◌≡◌, refl, sym, ap, ◌∙◌, List, [], ◌∷◌, ◌++◌, arith, All,
  append_assoc,
}
use drepobouncer.SceneBuilder.{Consumable}
use drepobouncer.SceneBuilder.Async.{
  Message, notify, Entry, Status, running, closed, failed, Held, Async, resume,
}
use drepobouncer.SceneBuilder.Async.Messages.{
  total, strip, sends, held_entries, on_way, counted_size, total-append, strip-notify,
}

-- An entry goes from the producer to the end of the queue.
pub moved :
    (held queue todo : List Entry) (e : Entry) (rest : List Entry)
    → todo ≡ e ∷ rest
    → (held ++ queue) ++ todo ≡ (held ++ (queue ++ e ∷ [])) ++ rest
moved held queue todo e rest d =
    ap (λ (x : List Entry). (held ++ queue) ++ x) d
    ∙ sym (append_assoc (held ++ queue) (e ∷ []) rest)
    ∙ ap (λ (x : List Entry). x ++ rest) (append_assoc held queue (e ∷ []))

pub notified :
    (held queue todo : List Entry)
    → strip ((held ++ queue) ++ todo) ≡ strip ((held ++ (queue ++ (notify, 0) ∷ [])) ++ todo)
notified held queue todo =
    sym (strip-notify (held ++ queue) todo)
    ∙ ap (λ (x : List Entry). strip (x ++ todo)) (append_assoc held queue ((notify, 0) ∷ []))

pub total-queued :
    (held queue : List Entry) (e : Entry)
    → total (held ++ (queue ++ e ∷ [])) ≡ total (held ++ queue) + e.1
total-queued held queue e = omega (
  arith,
  total-append held (queue ++ e ∷ []),
  total-append queue (e ∷ []),
  total-append held queue,
)

-- How far the writing is: what is left to be sent, all that is written, or some of it.
abbrev pub Progress : List Consumable → Status → List Consumable → List Message → Type 0
Progress work running written stream =
    (rest : List Consumable) × (stream ≡ sends rest) × (written ++ rest ≡ work)
Progress work closed written stream = written ≡ work
Progress work failed written stream = (rest : List Consumable) × (written ++ rest ≡ work)

-- An invariant of both threads.
pub record IsSound (limit : ℕ) (work : List Consumable) (a : Async) : Type 0 where
  pub sized : a.queue_size ≡ total (on_way a) + counted_size a.counted a.todo
  pub bounded : a.queue_size ≤ limit
  pub small : All (λ (e : Entry). e.1 ≤ limit) a.todo
  pub quiet : a.status ≡ running → a.thrown ≡ false
  pub ready :
      a.counted ≡ true
      → (a.waiting ≡ false) × ((e : Entry) × (rest : List Entry) × (a.todo ≡ e ∷ rest))
  pub stream : Progress work a.status a.written (strip (on_way a ++ a.todo))

module _ (threshold limit : ℕ) (work : List Consumable) where
  pub IsSound-resume :
      (s : Status) (a : Async)
      → a.status ≡ s
      → IsSound limit work a
      → IsSound limit work (resume s a)
  unfolding resume
  IsSound-resume running a e v = record {
    sized = v.sized;
    bounded = v.bounded;
    small = v.small;
    quiet = v.quiet;
    ready = λ c. (refl, (v.ready c).1);
    stream = v.stream;
  }
  IsSound-resume closed a e v = record {
    sized = v.sized;
    bounded = v.bounded;
    small = v.small;
    quiet = v.quiet;
    ready = λ c. (refl, (v.ready c).1);
    stream = v.stream;
  }
  IsSound-resume failed a e v = record {
    sized = v.sized;
    bounded = v.bounded;
    small = v.small;
    quiet = λ r. absurd (cc (sym r ∙ e));
    ready = v.ready;
    stream = v.stream;
  }

  pub nothing_counted :
      (a : Async) → IsSound limit work a → a.counted ≡ false → a.queue_size ≡ total (on_way a)
  nothing_counted a v c =
      let none_counted : counted_size a.counted a.todo ≡ 0 =
        ap (λ (x : Bool). counted_size x a.todo) c in
      omega (arith, v.sized, none_counted)

  -- What is on the way, while the consumer runs
  pub stream_running :
      (a : Async) (x : List Entry)
      → IsSound limit work a
      → a.status ≡ running
      → on_way a ≡ x
      → Progress work running a.written (strip (x ++ a.todo))
  stream_running a x v s q =
      subst (λ (x : List Entry). Progress work running a.written (strip (x ++ a.todo))) q
        (subst (λ (x : Status). Progress work x a.written (strip (on_way a ++ a.todo))) s v.stream)

  pub on_way_held : (a : Async) (h : Held) → a.held ≡ h → on_way a ≡ held_entries h ++ a.queue
  on_way_held a h e = ap (λ (x : Held). held_entries x ++ a.queue) e
