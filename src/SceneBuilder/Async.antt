-- ===== src/SceneBuilder/Async.antt =====
-- The two threads of RepoSceneBuilder::AsyncImpl in
-- bouncer/src/repo/manipulator/modelutility/repo_scene_builder.cpp, as steps of one state. The producer is in
-- push, for what `todo` lists; the consumer is in consumerFunction. The counting and the queueing of push are steps
-- of their own, and so are the taking, the counting and the visit of the consumer. The test of push and what follows
-- it are one step: the other thread can only lower the size in between. The queue
-- (spscqueue) and the semaphore are a list and a number; a number above one is out of the range of a
-- binary semaphore.
pub mod Messages
pub mod Soundness
pub mod Laws
pub mod Kept
pub mod Closing
use drepobouncer.Prelude.{
  ℕ, zero, suc, ◌+◌, ◌-◌, ◌≤◌, ◌<◌, Bool, true, false, ◌≡◌, List, [], ◌∷◌, ◌++◌,
}
use drepobouncer.SceneBuilder.{Consumable, node, parents}

-- What AsyncImpl::Consumables holds.
pub data Message : Type 0 where
  write : Consumable → Message
  close notify : Message

-- Consumable: a message and its size
abbrev pub Entry : Type 0
Entry = Message × ℕ

pub data Status : Type 0 where
  running closed failed : Status

-- What the consumer is at: nothing, an entry that it has taken off the queue, or one whose size it has subtracted.
pub data Held : Type 0 where
  nothing : Held
  taken : Entry → Held
  visiting : Message → Held

-- `block` is the semaphore; `counted` says that the first of `todo` is in queue_size and not in the queue yet,
-- `waiting` that the producer is in try_acquire_for, `thrown` that push has thrown the consumer's exception; `held`
-- is the consumer's variable, `written` what the bulk write context was given.
pub record Async : Type 0 where
  pub queue : List Entry
  pub queue_size : ℕ
  pub block : ℕ
  pub written : List Consumable
  pub status : Status
  pub held : Held
  pub todo : List Entry
  pub counted : Bool
  pub waiting : Bool
  pub thrown : Bool

-- AsyncImpl::push of a node or an update, with its size.
unfoldable pub push_size : (ℕ → ℕ) → Consumable → ℕ
push_size get_size (node n) = get_size n.unique_id
push_size get_size (parents u ps) = 100

-- The pushes of the work, and that of the destructor.
unfoldable pub pushes : (ℕ → ℕ) → List Consumable → List Entry
pushes get_size [] = (close, 0) ∷ []
pushes get_size (c ∷ work) = (write c, push_size get_size c) ∷ pushes get_size work

abbrev pub start : (ℕ → ℕ) → List Consumable → Async
start get_size work = record {
  queue = [];
  queue_size = 0;
  block = 0;
  written = [];
  status = running;
  held = nothing;
  todo = pushes get_size work;
  counted = false;
  waiting = false;
  thrown = false;
}

-- What follows try_acquire_for: the exception, or the next round of the loop.
unfoldable pub resume : Status → Async → Async
resume running a = record a { waiting = false }
resume closed a = record a { waiting = false }
resume failed a = record a { thrown = true }

pub data Step (threshold : ℕ) : Async → Async → Type 0 where
  -- The producer
  count :
      (a : Async) (e : Entry) (rest : List Entry)
      → a.todo ≡ e ∷ rest
      → a.counted ≡ false
      → a.waiting ≡ false
      → a.thrown ≡ false
      → a.queue_size ≤ threshold - e.1
      → Step threshold a (record a { queue_size = a.queue_size + e.1; counted = true })
  count_empty :
      (a : Async) (m : Message) (rest : List Entry)
      → a.todo ≡ (m, 0) ∷ rest
      → a.counted ≡ false
      → a.waiting ≡ false
      → a.thrown ≡ false
      → Step threshold a (record a { counted = true })
  enqueue :
      (a : Async) (e : Entry) (rest : List Entry)
      → a.todo ≡ e ∷ rest
      → a.counted ≡ true
      → Step threshold a (record a { queue = a.queue ++ e ∷ []; todo = rest; counted = false })
  suspend :
      (a : Async) (e : Entry) (rest : List Entry)
      → a.todo ≡ e ∷ rest
      → a.counted ≡ false
      → a.waiting ≡ false
      → a.thrown ≡ false
      → 0 < e.1
      → threshold - e.1 < a.queue_size
      → Step threshold a (record a { queue = a.queue ++ (notify, 0) ∷ []; waiting = true })
  acquire :
      (a : Async) (permits : ℕ)
      → a.waiting ≡ true
      → a.thrown ≡ false
      → a.block ≡ suc permits
      → Step threshold a (resume a.status (record a { block = permits }))
  time_out :
      (a : Async) → a.waiting ≡ true → a.thrown ≡ false → Step threshold a (resume a.status a)
  -- The consumer
  dequeue :
      (a : Async) (e : Entry) (rest : List Entry)
      → a.status ≡ running
      → a.held ≡ nothing
      → a.queue ≡ e ∷ rest
      → Step threshold a (record a { queue = rest; held = taken e })
  subtract :
      (a : Async) (m : Message) (size : ℕ)
      → a.status ≡ running
      → a.held ≡ taken (m, size)
      → Step threshold a (record a { queue_size = a.queue_size - size; held = visiting m })
  visit_write :
      (a : Async) (c : Consumable)
      → a.status ≡ running
      → a.held ≡ visiting (write c)
      → Step threshold a (record a { written = a.written ++ c ∷ []; held = nothing })
  -- The database throws.
  visit_fail :
      (a : Async) (c : Consumable)
      → a.status ≡ running
      → a.held ≡ visiting (write c)
      → Step threshold a (record a { status = failed; held = nothing })
  visit_notify :
      (a : Async)
      → a.status ≡ running
      → a.held ≡ visiting notify
      → Step threshold a (record a { block = suc a.block; held = nothing })
  visit_close :
      (a : Async)
      → a.status ≡ running
      → a.held ≡ visiting close
      → Step threshold a (record a { status = closed; held = nothing })

-- Any number of steps.
pub data Steps (threshold : ℕ) : Async → Async → Type 0 where
  none : (a : Async) → Steps threshold a a
  more : (a b c : Async) → Steps threshold a b → Step threshold b c → Steps threshold a c
