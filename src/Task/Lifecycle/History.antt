-- ===== src/Task/Lifecycle/History.antt =====
-- What may happen to one task, its children and its external events, in any order.
use nanos.Common.{
  ℕ, ◌+◌, ◌-◌, ◌^◌, ◌≤◌, ◌<◌, ◌≡◌, Bool, true, false, ◌&&◌, ◌==◌, if◌then◌else◌, List, [], ◌∷◌,
  ◌++◌,
}
use nanos.Task.Lifecycle.{
  Task, new_task, increase_removal_blocking_count, decrease_removal_blocking_count,
  increase_release_count, Effects, Turn, finishing, end_task, take_turn, decrease_events,
  child_deleted, does_not_need_to_block,
}

-- Where the body is: it runs; it is in a taskwait, behind the fast check; about to call
-- `markAsUnblocked`; blocked; or it has ended.
pub data Body : Type 0 where
  running checked unblocking blocked over : Body

-- The task with what the rest of the program knows of it: its body, the threads that go on after
-- a countdown, the children that are alive, the events that are not fulfilled, how often its accesses have
-- been released, how often it has been deleted, and whether it waits in the scheduler.
pub record State : Type 0 where
  pub task : Task
  pub delayed : Bool
  pub body : Body
  pub turns : List Turn
  pub children : ℕ
  pub events : ℕ
  pub released : ℕ
  pub disposed : ℕ
  pub queued : Bool

abbrev pub add_if : Bool → ℕ → ℕ
add_if b n = if b then n + 1 else n

-- A step, with the threads that go on besides.
abbrev pub apply : Effects → List Turn → State → State
apply e others s = record s {
  task = e.task;
  turns = e.next_turn ++ others;
  released = s.released + e.released;
  disposed = add_if e.disposed s.disposed;
  queued = if e.woken then true else s.queued;
}

abbrev pub init : Bool → State
init delayed = record {
  task = new_task delayed;
  delayed = delayed;
  body = running;
  turns = [];
  children = 0;
  events = 0;
  released = 0;
  disposed = 0;
  queued = false;
}

abbrev pub create : State → State
create s = record s { task = increase_removal_blocking_count s.task; children = s.children + 1 }

abbrev pub add : ℕ → State → State
add n s = record s { task = increase_release_count n s.task; events = s.events + n }

-- The fast check of a taskwait.
abbrev pub check : State → State
check s = record s { body = if does_not_need_to_block s.task then running else checked }

-- `markAsBlocked`: if the last child is gone meanwhile, the task goes on.
abbrev pub mark_as_blocked : State → State
mark_as_blocked s =
    let (k, done) = decrease_removal_blocking_count s.task in
    record s { task = k; body = if done then unblocking else blocked }

abbrev pub mark_as_unblocked : State → State
mark_as_unblocked s = record s { task = increase_removal_blocking_count s.task; body = running }

abbrev pub finish : State → State
finish s = record s { task = end_task s.task; body = over; turns = finishing ∷ s.turns }

-- What may happen to a task, in any order. The task itself creates children, adds events, waits and
-- ends; the children end and the events are fulfilled by others; and a thread that goes on after
-- a countdown takes its next step.
pub data Step (s : State) : State → Type 0 where
  create_child : s.body ≡ running → s.children + 2 < 2 ^ 32 → Step s (create s)
  add_events : (n : ℕ) → s.body ≡ running → s.events + n + 1 < 2 ^ 32 → Step s (add n s)
  fulfil_events :
      (n : ℕ)
      → n ≤ s.events
      → Step s (apply (decrease_events n s.task) s.turns (record s { events = s.events - n }))
  checks : s.body ≡ running → Step s (check s)
  blocks : s.body ≡ checked → Step s (mark_as_blocked s)
  resumes : s.queued ≡ true → Step s (record s { body = unblocking; queued = false })
  unblocks : s.body ≡ unblocking → Step s (mark_as_unblocked s)
  delete_child :
      0 < s.children
      → Step s (apply (child_deleted s.task) s.turns (record s { children = s.children - 1 }))
  end_body : s.body ≡ running → Step s (finish s)
  goes_on :
      (t : Turn) (before after : List Turn)
      → s.turns ≡ before ++ t ∷ after
      → Step s (apply (take_turn t s.task) (before ++ after) s)

pub data Reach (delayed : Bool) : State → Type 0 where
  start : Reach delayed (init delayed)
  next : {s t : State} → Reach delayed s → Step s t → Reach delayed t

-- The accesses can be released: the body has ended, no event is open, and with a wait clause no
-- child is alive.
abbrev pub can_release : State → Bool
can_release s =
    s.task.has_finished && s.events == 0 && (if s.delayed then s.children == 0 else true)
