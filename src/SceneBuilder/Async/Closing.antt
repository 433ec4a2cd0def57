-- ===== src/SceneBuilder/Async/Closing.antt =====
-- The threads of RepoSceneBuilder::AsyncImpl can always go on to the end
-- (bouncer/src/repo/manipulator/modelutility/repo_scene_builder.cpp).
use drepobouncer.Prelude.{
  suc, ap₂, ◌≢◌, subst, ℕ, ◌+◌, ◌-◌, ◌≤◌, Bool, true, false, ◌≡◌, refl, sym, ap, ◌∙◌, List, [], ◌∷◌,
  ◌++◌, arith, inl, inr, ◌⊎◌, Bool-cases,
}
use drepobouncer.SceneBuilder.{Consumable}
use drepobouncer.SceneBuilder.Async.{
  Message, write, close, notify, Entry, Status, running, closed, Held, nothing, taken, visiting,
  Async, resume, start, Step, count, enqueue, time_out, dequeue, subtract, visit_write,
  visit_notify, visit_close, Steps, none, more, pushes,
}
use drepobouncer.SceneBuilder.Async.Messages.{
  total, strip, sends, held_entries, on_way, counted_size,
}
use drepobouncer.SceneBuilder.Async.Soundness.{Progress, IsSound, stream_running}
use drepobouncer.SceneBuilder.Async.Kept.{IsSound-Steps, Steps-IsSound}

nothing_sent : (rest : List Consumable) → [] ≢ sends rest
nothing_sent [] e = cc e
nothing_sent (c ∷ rest) e = cc e

Steps-trans :
    {threshold : ℕ} (a b c : Async)
    → Steps threshold a b
    → Steps threshold b c
    → Steps threshold a c
Steps-trans a _ _ s (none _) = s
Steps-trans a _ _ s (more b d c t u) = more a d c (Steps-trans a b d s t) u

module _ (threshold limit : ℕ) (work : List Consumable) (bound : threshold ≤ limit) where
  -- Between two entries, with these in the queue
  record IsIdle (queue todo : List Entry) (waiting : Bool) (a : Async) : Type 0 where
    sound : IsSound limit work a
    runs : a.status ≡ running
    idle : a.held ≡ nothing
    queued : a.queue ≡ queue
    left : a.todo ≡ todo
    uncounted : a.counted ≡ false
    waits : a.waiting ≡ waiting

  -- Some steps from a lead to a state where P holds, or to the end.
  record Leads (P : Async → Type 0) (a : Async) : Type 0 where
    last : Async
    steps : Steps threshold a last
    outcome : (last.status ≡ closed) ⊎ P last

  then-Leads :
      (P Q : Async → Type 0) (a : Async) → Leads P a → ((b : Async) → P b → Leads Q b) → Leads Q a
  then-Leads P Q a l next = elim l.outcome [
    | inl c ↦ record { last = l.last; steps = l.steps; outcome = inl c }
    | inr p ↦
        let m = next l.last p in
        record {
          last = m.last;
          steps = Steps-trans a l.last m.last l.steps m.steps;
          outcome = m.outcome;
        }
  ]

  one-Leads : (P : Async → Type 0) (a b : Async) → Step threshold a b → Leads P b → Leads P a
  one-Leads P a b s l = record {
    last = l.last;
    steps = Steps-trans a b l.last (more a a b (none a) s) l.steps;
    outcome = l.outcome;
  }

  here-Leads : (P : Async → Type 0) (a : Async) → P a → Leads P a
  here-Leads P a p = record { last = a; steps = none a; outcome = inr p }

  IsSound-after : (a b : Async) → IsSound limit work a → Step threshold a b → IsSound limit work b
  IsSound-after a b v s = IsSound-Steps threshold limit work a b bound v (more a a b (none a) s)

  -- The visit of a message ends.
  visit :
      (m : Message) (a : Async)
      → IsSound limit work a
      → a.status ≡ running
      → a.held ≡ visiting m
      → a.counted ≡ false
      → Leads (IsIdle a.queue a.todo a.waiting) a
  visit (write c) a v s h u =
      let b : Async = record a { written = a.written ++ c ∷ []; held = nothing } in
      let step : Step threshold a b = visit_write a c s h in
      one-Leads (IsIdle a.queue a.todo a.waiting) a b step (
        here-Leads (IsIdle a.queue a.todo a.waiting) b (record {
          sound = IsSound-after a b v step;
          runs = s;
          idle = refl;
          queued = refl;
          left = refl;
          uncounted = u;
          waits = refl;
        }))
  visit notify a v s h u =
      let b : Async = record a { block = suc a.block; held = nothing } in
      let step : Step threshold a b = visit_notify a s h in
      one-Leads (IsIdle a.queue a.todo a.waiting) a b step (
        here-Leads (IsIdle a.queue a.todo a.waiting) b (record {
          sound = IsSound-after a b v step;
          runs = s;
          idle = refl;
          queued = refl;
          left = refl;
          uncounted = u;
          waits = refl;
        }))
  visit close a v s h u =
      let b : Async = record a { status = closed; held = nothing } in
      record { last = b; steps = more a a b (none a) (visit_close a s h); outcome = inl refl }

  put_down :
      (h : Held) (a : Async)
      → IsSound limit work a
      → a.status ≡ running
      → a.held ≡ h
      → a.counted ≡ false
      → Leads (IsIdle a.queue a.todo a.waiting) a
  put_down nothing a v s h u = here-Leads (IsIdle a.queue a.todo a.waiting) a (record {
    sound = v;
    runs = s;
    idle = h;
    queued = refl;
    left = refl;
    uncounted = u;
    waits = refl;
  })
  put_down (taken (m, size)) a v s h u =
      let b : Async = record a { queue_size = a.queue_size - size; held = visiting m } in
      let step : Step threshold a b = subtract a m size s h in
      one-Leads (IsIdle a.queue a.todo a.waiting) a b step
        (visit m b (IsSound-after a b v step) s refl u)
  put_down (visiting m) a v s h u = visit m a v s h u

  -- The consumer takes the first entry, and visits it.
  take_first :
      (e : Entry) (rest todo : List Entry) (w : Bool) (a : Async)
      → IsIdle (e ∷ rest) todo w a
      → Leads (IsIdle rest todo w) a
  take_first e rest todo w a i =
      let b : Async = record a { queue = rest; held = taken e } in
      let step : Step threshold a b = dequeue a e rest i.runs i.idle i.queued in
      one-Leads (IsIdle rest todo w) a b step (
        then-Leads (IsIdle rest a.todo a.waiting) (IsIdle rest todo w) b
          (put_down (taken e) b (IsSound-after a b i.sound step) i.runs refl i.uncounted)
          (λ c j. here-Leads (IsIdle rest todo w) c (record {
            sound = j.sound;
            runs = j.runs;
            idle = j.idle;
            queued = j.queued;
            left = j.left ∙ i.left;
            uncounted = j.uncounted;
            waits = j.waits ∙ i.waits;
          })))

  drain :
      (queue todo : List Entry) (w : Bool) (a : Async)
      → IsIdle queue todo w a
      → Leads (IsIdle [] todo w) a
  drain [] todo w a i = here-Leads (IsIdle [] todo w) a i
  drain (e ∷ rest) todo w a i =
      then-Leads (IsIdle rest todo w) (IsIdle [] todo w) a (take_first e rest todo w a i)
        (drain rest todo w)

  -- No message is on the way.
  empty_way : (todo : List Entry) (w : Bool) (a : Async) → IsIdle [] todo w a → on_way a ≡ []
  empty_way todo w a i = ap₂ (λ (h : Held) (q : List Entry). held_entries h ++ q) i.idle i.queued

  nothing_left : (w : Bool) (a : Async) → ¬ IsIdle [] [] w a
  nothing_left w a i =
      let (rest, e, done) =
        stream_running threshold limit work a [] i.sound i.runs (empty_way [] w a i) in
      nothing_sent rest (sym (ap strip i.left) ∙ e)

  -- The producer pushes the first of what is left.
  push_first :
      (e : Entry) (rest : List Entry) (a : Async)
      → IsIdle [] (e ∷ rest) false a
      → Leads (IsIdle (e ∷ []) rest false) a
  push_first e rest a i =
      let size : a.queue_size ≡ 0 =
        i.sound.sized
        ∙ ap₂ (λ (x : List Entry) (c : Bool). total x + counted_size c a.todo)
            (empty_way (e ∷ rest) false a i) i.uncounted in
      let b : Async = record a { queue_size = a.queue_size + e.1; counted = true } in
      let c : Async = record b { queue = b.queue ++ e ∷ []; todo = rest; counted = false } in
      let one : Step threshold a b =
        count a e rest i.left i.uncounted i.waits (i.sound.quiet i.runs) (omega (arith, size)) in
      let two : Step threshold b c = enqueue b e rest i.left refl in
      one-Leads (IsIdle (e ∷ []) rest false) a b one (
        one-Leads (IsIdle (e ∷ []) rest false) b c two (
          here-Leads (IsIdle (e ∷ []) rest false) c (record {
            sound = IsSound-after b c (IsSound-after a b i.sound one) two;
            runs = i.runs;
            idle = i.idle;
            queued = ap (λ (x : List Entry). x ++ e ∷ []) i.queued;
            left = refl;
            uncounted = refl;
            waits = i.waits;
          })))

  work_off : (todo : List Entry) (a : Async) → IsIdle [] todo false a → Leads (λ _. ⊥) a
  work_off [] a i = absurd (nothing_left false a i)
  work_off (e ∷ rest) a i =
      then-Leads (IsIdle (e ∷ []) rest false) (λ _. ⊥) a (push_first e rest a i)
        (λ b j.
          then-Leads (IsIdle [] rest false) (λ _. ⊥) b (take_first e [] rest false b j)
            (work_off rest))

  -- The producer stops waiting.
  wake :
      (todo : List Entry) (w : Bool) (a : Async)
      → IsIdle [] todo w a
      → Leads (IsIdle [] todo false) a
  unfolding resume
  wake todo false a i = here-Leads (IsIdle [] todo false) a i
  wake todo true a i =
      let b : Async = record a { waiting = false } in
      let step : Step threshold a b =
        subst (λ (x : Status). Step threshold a (resume x a)) i.runs
          (time_out a i.waits (i.sound.quiet i.runs)) in
      one-Leads (IsIdle [] todo false) a b step (
        here-Leads (IsIdle [] todo false) b (record {
          sound = IsSound-after a b i.sound step;
          runs = i.runs;
          idle = i.idle;
          queued = i.queued;
          left = i.left;
          uncounted = i.uncounted;
          waits = refl;
        }))

  uncounted-Ends :
      (a : Async) → IsSound limit work a → a.status ≡ running → a.counted ≡ false → Leads (λ _. ⊥) a
  uncounted-Ends a v s u =
      then-Leads (IsIdle a.queue a.todo a.waiting) (λ _. ⊥) a (put_down a.held a v s refl u)
        (λ b i.
          then-Leads (IsIdle [] a.todo a.waiting) (λ _. ⊥) b (drain a.queue a.todo a.waiting b i)
            (λ c j.
              then-Leads (IsIdle [] a.todo false) (λ _. ⊥) c (wake a.todo a.waiting c j)
                (work_off a.todo)))

  running-Ends : (a : Async) → IsSound limit work a → a.status ≡ running → Leads (λ _. ⊥) a
  running-Ends a v s = elim (Bool-cases a.counted) [
    | inr u ↦ uncounted-Ends a v s u
    | inl k ↦
        let (w, (e, rest, d)) = v.ready k in
        let b : Async = record a { queue = a.queue ++ e ∷ []; todo = rest; counted = false } in
        let step : Step threshold a b = enqueue a e rest d k in
        one-Leads (λ _. ⊥) a b step (uncounted-Ends b (IsSound-after a b v step) s refl)
  ]

  last-closed :
      (a : Async)
      → IsSound limit work a
      → Leads (λ _. ⊥) a
      → (b : Async) × Steps threshold a b × (b.status ≡ closed) × (b.written ≡ work)
  last-closed a v l = elim l.outcome [
    | inl c ↦
        let w = IsSound-Steps threshold limit work a l.last bound v l.steps in
        (
          l.last,
          l.steps,
          c,
          subst
              (λ (x : Status).
                Progress work x l.last.written (strip (on_way l.last ++ l.last.todo)))
              c w.stream,
        )
    | inr never ↦ absurd never
  ]

-- The threads never block one another for good: whatever the work and the threshold, even if an item is larger than
-- that, from every state that they reach in which the consumer runs, a waiting producer and a full queue included,
-- they can go on to one in which the consumer has closed and all the work is written in order.
pub close_lem :
    (threshold : ℕ) (get_size : ℕ → ℕ) (work : List Consumable) (a : Async)
    → Steps threshold (start get_size work) a
    → a.status ≡ running
    → (b : Async) × Steps threshold a b × (b.status ≡ closed) × (b.written ≡ work)
close_lem threshold get_size work a steps s =
    let limit = threshold + total (pushes get_size work) in
    let v = Steps-IsSound threshold get_size work a steps in
    last-closed threshold limit work (omega arith) a v
      (running-Ends threshold limit work (omega arith) a v s)
