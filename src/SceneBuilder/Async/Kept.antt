-- ===== src/SceneBuilder/Async/Kept.antt =====
-- Each step of the threads of RepoSceneBuilder::AsyncImpl keeps the invariant
-- (bouncer/src/repo/manipulator/modelutility/repo_scene_builder.cpp).
use drepobouncer.Prelude.{
  subst, ℕ, ◌+◌, ◌-◌, ◌≤◌, true, false, ◌≡◌, refl, sym, ap, ap₂, ◌∙◌, List, [], ◌∷◌, ◌++◌, arith,
  All, append_assoc, append-nil,
}
use drepobouncer.SceneBuilder.{Consumable}
use drepobouncer.SceneBuilder.Async.{
  Message, write, close, notify, Entry, Status, nothing, taken, visiting, Async, push_size, pushes,
  start, Step, count, count_empty, enqueue, suspend, acquire, time_out, dequeue, subtract,
  visit_write, visit_fail, visit_notify, visit_close, Steps, none, more,
}
use drepobouncer.SceneBuilder.Async.Messages.{
  total, strip, held_entries, on_way, counted_size, strip-pushes, strip_size, sent_write,
  sent_close,
}
use drepobouncer.SceneBuilder.Async.Soundness.{
  moved, notified, total-queued, Progress, IsSound, IsSound-resume, nothing_counted, stream_running,
  on_way_held,
}

module _ (threshold limit : ℕ) (work : List Consumable) where
  count-IsSound :
      (a : Async) (e : Entry) (rest : List Entry)
      → threshold ≤ limit
      → IsSound limit work a
      → a.todo ≡ e ∷ rest
      → a.counted ≡ false
      → a.waiting ≡ false
      → a.queue_size ≤ threshold - e.1
      → IsSound limit work (record a { queue_size = a.queue_size + e.1; counted = true })
  count-IsSound a e rest t v d c w room =
      let small : All (λ (e : Entry). e.1 ≤ limit) (e ∷ rest) =
        subst (All (λ (e : Entry). e.1 ≤ limit)) d v.small in
      let size : counted_size true a.todo ≡ e.1 = ap (counted_size true) d in
      record {
        sized = omega (arith, nothing_counted threshold limit work a v c, size);
        bounded = omega (arith, small.0, room);
        small = v.small;
        quiet = v.quiet;
        ready = λ _. (w, (e, rest, d));
        stream = v.stream;
      }

  enqueue-IsSound :
      (a : Async) (e : Entry) (rest : List Entry)
      → IsSound limit work a
      → a.todo ≡ e ∷ rest
      → a.counted ≡ true
      → IsSound limit work (record a { queue = a.queue ++ e ∷ []; todo = rest; counted = false })
  enqueue-IsSound a e rest v d c =
      let small : All (λ (e : Entry). e.1 ≤ limit) (e ∷ rest) =
        subst (All (λ (e : Entry). e.1 ≤ limit)) d v.small in
      let size : counted_size a.counted a.todo ≡ e.1 = ap₂ counted_size c d in
      record {
        sized = omega (arith, total-queued (held_entries a.held) a.queue e, v.sized, size);
        bounded = v.bounded;
        small = small.1;
        quiet = v.quiet;
        ready = λ x. absurd (cc x);
        stream =
            subst (λ (x : List Entry). Progress work a.status a.written (strip x))
              (moved (held_entries a.held) a.queue a.todo e rest d) v.stream;
      }

  suspend-IsSound :
      (a : Async)
      → IsSound limit work a
      → a.counted ≡ false
      → IsSound limit work (record a { queue = a.queue ++ (notify, 0) ∷ []; waiting = true })
  suspend-IsSound a v c = record {
    sized = omega (arith, total-queued (held_entries a.held) a.queue (notify, 0), v.sized);
    bounded = v.bounded;
    small = v.small;
    quiet = v.quiet;
    ready = λ x. absurd (cc (sym x ∙ c));
    stream =
        subst (Progress work a.status a.written) (notified (held_entries a.held) a.queue a.todo)
          v.stream;
  }

  dequeue-IsSound :
      (a : Async) (e : Entry) (rest : List Entry)
      → IsSound limit work a
      → a.held ≡ nothing
      → a.queue ≡ e ∷ rest
      → IsSound limit work (record a { queue = rest; held = taken e })
  dequeue-IsSound a e rest v h q =
      let same : on_way a ≡ e ∷ rest = on_way_held threshold limit work a nothing h ∙ q in
      record {
        sized = v.sized ∙ ap (λ (x : List Entry). total x + counted_size a.counted a.todo) same;
        bounded = v.bounded;
        small = v.small;
        quiet = v.quiet;
        ready = v.ready;
        stream =
            subst (λ (x : List Entry). Progress work a.status a.written (strip (x ++ a.todo))) same
              v.stream;
      }

  subtract-IsSound :
      (a : Async) (m : Message) (size : ℕ)
      → IsSound limit work a
      → a.held ≡ taken (m, size)
      → IsSound limit work (record a { queue_size = a.queue_size - size; held = visiting m })
  subtract-IsSound a m size v h =
      let same : on_way a ≡ (m, size) ∷ a.queue =
        on_way_held threshold limit work a (taken (m, size)) h in
      let sizes : total (on_way a) ≡ size + total a.queue = ap total same in
      record {
        sized = omega (arith, v.sized, sizes);
        bounded = omega (arith, v.bounded);
        small = v.small;
        quiet = v.quiet;
        ready = v.ready;
        stream =
            subst (Progress work a.status a.written)
              (ap (λ (x : List Entry). strip (x ++ a.todo)) same
                ∙ strip_size m size (a.queue ++ a.todo))
              v.stream;
      }

  -- The size when a visit ends
  visited_size :
      (a : Async) (m : Message)
      → IsSound limit work a
      → a.held ≡ visiting m
      → a.queue_size ≡ total a.queue + counted_size a.counted a.todo
  visited_size a m v h =
      let sizes : total (on_way a) ≡ 0 + total a.queue =
        ap total (on_way_held threshold limit work a (visiting m) h) in
      omega (arith, v.sized, sizes)

  IsSound-Step :
      (a b : Async)
      → threshold ≤ limit
      → IsSound limit work a
      → Step threshold a b
      → IsSound limit work b
  IsSound-Step _ _ t v (count a e rest d c w n room) = count-IsSound a e rest t v d c w room
  IsSound-Step _ _ t v (count_empty a m rest d c w n) =
      let size : counted_size true a.todo ≡ 0 = ap (counted_size true) d in
      record {
        sized = omega (arith, nothing_counted threshold limit work a v c, size);
        bounded = v.bounded;
        small = v.small;
        quiet = v.quiet;
        ready = λ _. (w, ((m, 0), rest, d));
        stream = v.stream;
      }
  IsSound-Step _ _ t v (enqueue a e rest d c) = enqueue-IsSound a e rest v d c
  IsSound-Step _ _ t v (suspend a e rest d c w n some full) = suspend-IsSound a v c
  IsSound-Step _ _ t v (acquire a permits w n p) =
      IsSound-resume threshold limit work a.status (record a { block = permits }) refl
        (record {
          sized = v.sized;
          bounded = v.bounded;
          small = v.small;
          quiet = v.quiet;
          ready = v.ready;
          stream = v.stream;
        })
  IsSound-Step _ _ t v (time_out a w n) = IsSound-resume threshold limit work a.status a refl v
  IsSound-Step _ _ t v (dequeue a e rest s h q) = dequeue-IsSound a e rest v h q
  IsSound-Step _ _ t v (subtract a m size s h) = subtract-IsSound a m size v h
  IsSound-Step _ _ t v (visit_write a c s h) =
      let (rest, e, done) =
        stream_running threshold limit work a ((write c, 0) ∷ a.queue) v s
          (on_way_held threshold limit work a (visiting (write c)) h) in
      let (rest', e', e'') = sent_write c (strip (a.queue ++ a.todo)) rest e in
      record {
        sized = visited_size a (write c) v h;
        bounded = v.bounded;
        small = v.small;
        quiet = v.quiet;
        ready = v.ready;
        stream =
            subst
              (λ (x : Status). Progress work x (a.written ++ c ∷ []) (strip (a.queue ++ a.todo)))
              (sym s)
              (
                rest',
                e'',
                append_assoc a.written (c ∷ []) rest'
                    ∙ ap (λ (x : List Consumable). a.written ++ x) (sym e')
                    ∙ done,
              );
      }
  IsSound-Step _ _ t v (visit_fail a c s h) =
      let (rest, e, done) = stream_running threshold limit work a (on_way a) v s refl in
      record {
        sized = visited_size a (write c) v h;
        bounded = v.bounded;
        small = v.small;
        quiet = λ r. absurd (cc r);
        ready = v.ready;
        stream = (rest, done);
      }
  IsSound-Step _ _ t v (visit_notify a s h) = record {
    sized = visited_size a notify v h;
    bounded = v.bounded;
    small = v.small;
    quiet = v.quiet;
    ready = v.ready;
    stream =
        subst (λ (x : Status). Progress work x a.written (strip (a.queue ++ a.todo))) (sym s)
          (stream_running threshold limit work a ((notify, 0) ∷ a.queue) v s
            (on_way_held threshold limit work a (visiting notify) h));
  }
  IsSound-Step _ _ t v (visit_close a s h) =
      let (rest, e, done) =
        stream_running threshold limit work a ((close, 0) ∷ a.queue) v s
          (on_way_held threshold limit work a (visiting close) h) in
      record {
        sized = visited_size a close v h;
        bounded = v.bounded;
        small = v.small;
        quiet = λ r. absurd (cc r);
        ready = v.ready;
        stream =
            sym (append-nil a.written)
            ∙ ap (λ (x : List Consumable). a.written ++ x)
                (sym (sent_close (strip (a.queue ++ a.todo)) rest e))
            ∙ done;
      }

  pub IsSound-Steps :
      (a b : Async)
      → threshold ≤ limit
      → IsSound limit work a
      → Steps threshold a b
      → IsSound limit work b
  IsSound-Steps _ _ t v (none a) = v
  IsSound-Steps _ _ t v (more a b c steps step) =
      IsSound-Step b c t (IsSound-Steps a b t v steps) step

  pub pushes-small :
      (get_size : ℕ → ℕ) (cs : List Consumable)
      → All (λ c. push_size get_size c ≤ limit) cs
      → All (λ (e : Entry). e.1 ≤ limit) (pushes get_size cs)
  unfolding pushes
  pushes-small get_size [] h = (omega arith, tt)
  pushes-small get_size (c ∷ cs) h = (h.0, pushes-small get_size cs h.1)

  pub start-IsSound :
      (get_size : ℕ → ℕ)
      → All (λ (e : Entry). e.1 ≤ limit) (pushes get_size work)
      → IsSound limit work (start get_size work)
  start-IsSound get_size h = record {
    sized = refl;
    bounded = omega arith;
    small = h;
    quiet = λ e. refl;
    ready = λ c. absurd (cc c);
    stream = (work, strip-pushes get_size work, refl);
  }

-- No entry is larger than all together.
small_total :
    (limit : ℕ) (entries : List Entry)
    → total entries ≤ limit
    → All (λ (e : Entry). e.1 ≤ limit) entries
small_total limit [] h = tt
small_total limit ((m, size) ∷ entries) h = (omega arith, small_total limit entries (omega arith))

-- So the invariant holds in every run, for some limit.
pub Steps-IsSound :
    (threshold : ℕ) (get_size : ℕ → ℕ) (work : List Consumable) (a : Async)
    → Steps threshold (start get_size work) a
    → IsSound (threshold + total (pushes get_size work)) work a
Steps-IsSound threshold get_size work a steps =
    let limit = threshold + total (pushes get_size work) in
    IsSound-Steps threshold limit work (start get_size work) a (omega arith)
      (start-IsSound threshold limit work get_size
        (small_total limit (pushes get_size work) (omega arith)))
      steps
