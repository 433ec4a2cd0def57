-- ===== src/SceneBuilder/Async/Laws.antt =====
-- What the queue of RepoSceneBuilder::AsyncImpl guarantees
-- (bouncer/src/repo/manipulator/modelutility/repo_scene_builder.cpp).
use drepobouncer.Prelude.{ℕ, ◌+◌, ◌≤◌, ◌≡◌, List, ◌++◌, All}
use drepobouncer.SceneBuilder.{Consumable}
use drepobouncer.SceneBuilder.Async.{Async, push_size, start, Steps}
use drepobouncer.SceneBuilder.Async.Messages.{total, strip, on_way, counted_size}
use drepobouncer.SceneBuilder.Async.Soundness.{Progress}
use drepobouncer.SceneBuilder.Async.Kept.{IsSound-Steps, start-IsSound, Steps-IsSound, pushes-small}

-- The size that the queue counts never exceeds a limit that neither the threshold nor any single item exceeds. It
-- is the sum of the sizes of the entries in the queue, of the entry that the consumer has taken and not subtracted
-- yet, and of the item that the producer has counted and not queued yet.
pub queue_size_lem :
    (threshold limit : ℕ) (get_size : ℕ → ℕ) (work : List Consumable) (a : Async)
    → threshold ≤ limit
    → All (λ c. push_size get_size c ≤ limit) work
    → Steps threshold (start get_size work) a
    → (a.queue_size ≤ limit) × (a.queue_size ≡ total (on_way a) + counted_size a.counted a.todo)
queue_size_lem threshold limit get_size work a t h steps =
    let small = pushes-small threshold limit work get_size work h in
    let v =
      IsSound-Steps threshold limit work (start get_size work) a t
        (start-IsSound threshold limit work get_size small) steps in
    (v.bounded, v.sized)

-- Whatever the two threads' order: when the consumer has closed, it has written all the work, in order;
-- while it runs, what it wrote and what is on its way, with the consumer or in the queue or still to be pushed, are
-- the work; after an exception it has written a first part of the work.
pub written_lem :
    (threshold : ℕ) (get_size : ℕ → ℕ) (work : List Consumable) (a : Async)
    → Steps threshold (start get_size work) a
    → Progress work a.status a.written (strip (on_way a ++ a.todo))
written_lem threshold get_size work a steps = (Steps-IsSound threshold get_size work a steps).stream
