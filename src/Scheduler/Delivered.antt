-- ===== src/Scheduler/Delivered.antt =====
-- No task is lost on its way to a thread that polls, and no slot is filled twice.
use nanos.Common.{
  ℕ, ◌+◌, ◌≡◌, ◌≤◌, refl, ap, Bool, false, Option, none, some, List, [], ◌∷◌, ◌++◌, ◌==◌,
  if◌then◌else◌, arith, count, min,
}
use nanos.Scheduler.{ReadyTask, ReadyTaskHint, take_data, get_replacement_task}
use nanos.Scheduler.ImmediateSuccessor as Immediate
use nanos.Scheduler.Naive as Naive
use nanos.Scheduler.Interface.{one, queued, kept, held}
use nanos.Scheduler.Bags.{all_given, kept-take_data, queued-append, ImmediateSuccessor-get}
use nanos.Scheduler.Wakeup.{remove, host_cpu}
use nanos.Scheduler.Polling.{
  PollingScheduler, get_task, set_task, unlocked_add, locked_add, is_slot, leave_loop,
  release_polling, request_polling, locked_request, offer_slot,
}
use nanos.Scheduler.Delivery.{
  System, advance, advance_locked, requested, polled, asked, Step, adds, locks, delivers, requests,
  polls, asks, Reach, start, next,
}

-- How often a CPU owns a task of a list, and whether it offers its slot.
module _ (cpu : ℕ) where
  abbrev pub owned : List (ℕ × ReadyTask) → ℕ
  owned [] = 0
  owned ((owner, t) ∷ rest) = (if cpu == owner then 1 else 0) + owned rest

  abbrev pub offered : Option ℕ → ℕ
  offered none = 0
  offered (some other) = if cpu == other then 1 else 0

  owned-append :
      (before after : List (ℕ × ReadyTask)) → owned (before ++ after) ≡ owned before + owned after
  owned-append [] after = omega arith
  owned-append (x ∷ before) after = omega (arith, owned-append before after)

  owned-take_data-other :
      (other : ℕ) (data' : List (ℕ × ReadyTask)) → owned (take_data other data').0 ≤ owned data'
  unfolding take_data
  owned-take_data-other other [] = omega arith
  owned-take_data-other other ((owner, t) ∷ rest) = ground (arith, owned-take_data-other other rest)

  take_data-owned :
      (data' : List (ℕ × ReadyTask)) (t : ReadyTask)
      → (take_data cpu data').1 ≡ some t
      → owned data' ≡ 1 + owned (take_data cpu data').0
  unfolding take_data
  take_data-owned [] t e = ground arith
  take_data-owned ((owner, u) ∷ rest) t e = ground (arith, take_data-owned rest t)

  take_data-unowned :
      (data' : List (ℕ × ReadyTask)) → owned data' ≡ 0 → (take_data cpu data').1 ≡ none
  unfolding take_data
  take_data-unowned [] e = refl
  take_data-unowned ((owner, u) ∷ rest) e = ground (arith, take_data-unowned rest)

  -- A CPU that polls has at most one of these: the slot that it offers, a task that is about to be put
  -- in its slot, and a task in it; a CPU that does not poll has none.
  pub record Single (y : System) : Type 0 where
    pub single :
        offered y.shared.polling_slot + owned y.shared.slots + owned y.delivering
        ≤ count cpu y.polling
    pub one_loop : count cpu y.polling ≤ 1

module _ (x : ℕ) where
  abbrev pub total : System → ℕ
  total y =
      all_given x y.answers
      + held x y.shared.scheduler
      + kept x y.shared.slots
      + kept x y.delivering
      + queued x y.locking

  kept-append :
      (before after : List (ℕ × ReadyTask))
      → kept x (before ++ after) ≡ kept x before + kept x after
  kept-append [] after = omega arith
  kept-append (a ∷ before) after = omega (arith, kept-append before after)

  advance-total :
      (t : ReadyTask) (place : Option ℕ) (hint : ReadyTaskHint) (y : System)
      → queued x y.accepted ≡ total y
      → let z = advance t (unlocked_add t place hint y.shared) y in (queued x z.accepted ≡ total z)
  unfolding unlocked_add Immediate.push_data
  advance-total t none hint y e = ground arith
  advance-total t (some cpu) hint y e = ground arith

  advance_locked-total :
      (t : ReadyTask) (hint : ReadyTaskHint) (d : Bool) (y : System)
      → queued x y.accepted ≡ one x t + total y
      → let z = advance_locked t (locked_add t hint d y.shared) y in (queued x z.accepted ≡ total z)
  unfolding locked_add Immediate.queue_task Immediate.push_task Naive.resume_idle
  advance_locked-total t hint d y e = ground arith

  requested-total : (cpu : ℕ) (y : System) → total (requested cpu y) ≡ total y
  unfolding request_polling locked_request offer_slot get_replacement_task
  requested-total cpu y = ground (arith, kept-take_data x cpu y.shared.scheduler.scheduler_data)

  polled-total :
      (cpu : ℕ) (t : ReadyTask) (y : System)
      → (get_task cpu y.shared).1 ≡ some t
      → total (polled cpu t y) ≡ total y
  unfolding get_task
  polled-total cpu t y e = ground (arith, e, kept-take_data x cpu y.shared.slots)

  asked-total : (cpu : ℕ) (d : Bool) (y : System) → total (asked cpu d y) ≡ total y
  asked-total cpu d y = omega (arith, ImmediateSuccessor-get x (host_cpu cpu) d y.shared.scheduler)

count-remove :
    (c cpu : ℕ) (cpus : List ℕ)
    → count c (remove cpu cpus) + (if c == cpu then min 1 (count c cpus) else 0) ≡ count c cpus
count-remove c cpu [] = ground arith
count-remove c cpu (d ∷ rest) = ground (arith, count-remove c cpu rest)

module _ (c : ℕ) where
  advance-Single :
      (t : ReadyTask) (place : Option ℕ) (hint : ReadyTaskHint) (y : System)
      → Single c y
      → Single c (advance t (unlocked_add t place hint y.shared) y)
  unfolding unlocked_add
  advance-Single t place hint y s = ground (arith, s.single, s.one_loop)

  advance_locked-Single :
      (t : ReadyTask) (hint : ReadyTaskHint) (d : Bool) (y : System)
      → Single c y
      → Single c (advance_locked t (locked_add t hint d y.shared) y)
  unfolding locked_add
  advance_locked-Single t hint d y s = ground (arith, s.single, s.one_loop)

  requested-Single :
      (cpu : ℕ) (y : System) → count cpu y.polling ≡ 0 → Single c y → Single c (requested cpu y)
  unfolding request_polling locked_request offer_slot get_replacement_task
  requested-Single cpu y e s = ground (arith, s.single, s.one_loop)

  polled-Single :
      (cpu : ℕ) (t : ReadyTask) (y : System)
      → (get_task cpu y.shared).1 ≡ some t
      → Single c y
      → Single c (polled cpu t y)
  unfolding get_task
  polled-Single cpu t y e s = ground (
    arith,
    s.single,
    s.one_loop,
    count-remove c cpu y.polling,
    owned-take_data-other c cpu y.shared.slots,
    take_data-owned c y.shared.slots t,
  )

  delivered-Single :
      (cpu : ℕ) (t : ReadyTask) (before after : List (ℕ × ReadyTask)) (y : System)
      → y.delivering ≡ before ++ (cpu, t) ∷ after
      → Single c y
      → Single c (record y { shared = set_task cpu t y.shared; delivering = before ++ after })
  unfolding set_task
  delivered-Single cpu t before after y e s = ground (
    arith,
    s.single,
    s.one_loop,
    owned-append c before ((cpu, t) ∷ after),
    owned-append c before after,
    ap (owned c) e,
  )

  Step-Single : {y z : System} → Step y z → Single c y → Single c z
  Step-Single {y} (adds t place hint) s = advance-Single t place hint y s
  Step-Single {y} (locks t hint d before after e) s =
      advance_locked-Single t hint d (record y { locking = before ++ after })
        (record { single = s.single; one_loop = s.one_loop })
  Step-Single {y} (delivers cpu t before after e) s = delivered-Single cpu t before after y e s
  Step-Single {y} (requests cpu e) s = requested-Single cpu y e s
  Step-Single {y} (polls cpu t e) s = polled-Single cpu t y e s
  Step-Single {y} (asks cpu d) s = record { single = s.single; one_loop = s.one_loop }

  Reach-Single : {idle_cpus : List Bool} {y : System} → Reach idle_cpus y → Single c y
  Reach-Single start = record { single = omega arith; one_loop = omega arith }
  Reach-Single (next r st) = Step-Single st (Reach-Single r)

-- A slot that is about to be filled is empty.
slot-empty :
    {idle_cpus : List Bool} {y : System} (cpu : ℕ) (t : ReadyTask)
    (before after : List (ℕ × ReadyTask))
    → Reach idle_cpus y
    → y.delivering ≡ before ++ (cpu, t) ∷ after
    → (take_data cpu y.shared.slots).1 ≡ none
slot-empty {y = y} cpu t before after r e =
    let s = Reach-Single cpu r in
    take_data-unowned cpu y.shared.slots (
      ground
        (arith, s.single, s.one_loop, owned-append cpu before ((cpu, t) ∷ after), ap (owned cpu) e))

-- While every CPU accepts work: a task that a thread is about to put in the slot of another is the task
-- that the other then finds there, since the slot is empty; and the other is polling, and offers its
-- slot to nobody else.
pub Reach-delivers :
    {idle_cpus : List Bool} {y : System} (cpu : ℕ) (t : ReadyTask)
    (before after : List (ℕ × ReadyTask))
    → Reach idle_cpus y
    → y.delivering ≡ before ++ (cpu, t) ∷ after
    → ((get_task cpu (set_task cpu t y.shared)).1 ≡ some t)
      × (count cpu y.polling ≡ 1)
      × (is_slot cpu y.shared.polling_slot ≡ false)
unfolding get_task set_task take_data
Reach-delivers {y = y} cpu t before after r e =
    let s = Reach-Single cpu r in
    ground (
      arith,
      s.single,
      s.one_loop,
      slot-empty cpu t before after r e,
      owned-append cpu before ((cpu, t) ∷ after),
      ap (owned cpu) e,
    )

module _ (x : ℕ) where
  delivered-total :
      {idle_cpus : List Bool} {y : System} (cpu : ℕ) (t : ReadyTask)
      (before after : List (ℕ × ReadyTask))
      → Reach idle_cpus y
      → y.delivering ≡ before ++ (cpu, t) ∷ after
      → total x (record y { shared = set_task cpu t y.shared; delivering = before ++ after })
        ≡ total x y
  unfolding set_task
  delivered-total {y = y} cpu t before after r e = ground (
    arith,
    slot-empty cpu t before after r e,
    kept-append x before ((cpu, t) ∷ after),
    kept-append x before after,
    ap (kept x) e,
  )

  -- Whatever the order of the steps of the threads, while every CPU accepts work: each task that is no
  -- taskloop has been accepted as often as it has been given to a thread, is in the scheduler, is
  -- in a slot, is about to be put in one, and waits for the lock, together.
  pub Reach-delivered :
      {idle_cpus : List Bool} {y : System} → Reach idle_cpus y → queued x y.accepted ≡ total x y
  Reach-delivered start = omega arith
  Reach-delivered (next {y} r (adds t place hint)) =
      advance-total x t place hint y (Reach-delivered r)
  Reach-delivered (next {y} r (locks t hint d before after e)) =
      advance_locked-total x t hint d (record y { locking = before ++ after })
        (omega (
          arith,
          Reach-delivered r,
          queued-append x before (t ∷ after),
          queued-append x before after,
          ap (queued x) e,
        ))
  Reach-delivered (next {y} r (delivers cpu t before after e)) =
      omega (arith, Reach-delivered r, delivered-total cpu t before after r e)
  Reach-delivered (next {y} r (requests cpu e)) =
      omega (arith, Reach-delivered r, requested-total x cpu y)
  Reach-delivered (next {y} r (polls cpu t e)) =
      omega (arith, Reach-delivered r, polled-total x cpu t y e)
  Reach-delivered (next {y} r (asks cpu d)) =
      omega (arith, Reach-delivered r, asked-total x cpu d y)

-- When a CPU stops accepting work after its thread has found a task in its slot and left the loop, and
-- the slot has been taken from `_pollingSlot`, then the thread returns no task: the one that it has found
-- is overwritten with the empty slot, and is in no queue, slot or answer.
pub leave_loop-loses :
    (cpu x : ℕ) (t : ReadyTask) (p : PollingScheduler)
    → (get_task cpu p).1 ≡ some t
    → is_slot cpu p.polling_slot ≡ false
    → owned cpu p.slots ≡ 1
    → let (p', answer) = leave_loop false false cpu (some t) (get_task cpu p).0 in
      (answer ≡ none)
      × (held x p'.scheduler + kept x p'.slots + one x t ≡ held x p.scheduler + kept x p.slots)
unfolding leave_loop get_task release_polling
leave_loop-loses cpu x t p e n o = ground (
  arith,
  n,
  kept-take_data x cpu p.slots,
  take_data-owned cpu p.slots t,
  take_data-unowned cpu (take_data cpu p.slots).0,
  kept-take_data x cpu (take_data cpu p.slots).0,
)
