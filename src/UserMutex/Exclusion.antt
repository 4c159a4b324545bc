-- ===== src/UserMutex/Exclusion.antt =====
-- Any number of tasks that lock and unlock one mutex, in any order of their steps.
use nanos.Common.{
  ℕ, min, ◌≤◌, ◌<◌, ◌≡◌, refl, Bool, true, false, Option, none, some, List, [], ◌∷◌, ◌++◌, length,
  length-append, if◌then◌else◌, arith, subst,
}
use mathlib.Core.List.{append-nil, append_assoc}
use nanos.UserMutex.{UserMutex, lock_or_queue, dequeue_or_unlock, lock_fast, dequeue_from}

-- What the user's pointer refers to, with the tasks that have acquired the mutex and not yet released
-- it, all that have ever been queued, and all that have ever been given the mutex out of the queue.
pub record State : Type 0 where
  pub handler : Option UserMutex
  pub owners : List ℕ
  pub queued : List ℕ
  pub handed_over : List ℕ

abbrev pub untouched : State
untouched = record { handler = none; owners = []; queued = []; handed_over = [] }

abbrev pub to_list : Option ℕ → List ℕ
to_list none = []
to_list (some task) = task ∷ []

abbrev pub is_locked : Option UserMutex → Bool
is_locked none = false
is_locked (some m) = m.user_mutex

abbrev pub waiting : Option UserMutex → List ℕ
waiting none = []
waiting (some m) = m.blocked_tasks

abbrev pub fast : ℕ → State → State
fast task s =
    let (m, acquired) = lock_fast s.handler in
    record s { handler = some m; owners = if acquired then task ∷ s.owners else s.owners }

abbrev pub slow : ℕ → UserMutex → State → State
slow task m s =
    let (m', acquired) = lock_or_queue task m in
    record s {
      handler = some m';
      owners = if acquired then task ∷ s.owners else s.owners;
      queued = if acquired then s.queued else s.queued ++ task ∷ [];
    }

abbrev pub unlock : List ℕ → UserMutex → State → State
unlock others m s =
    let (m', released) = dequeue_or_unlock m in
    record s {
      handler = some m';
      owners = to_list released ++ others;
      handed_over = s.handed_over ++ to_list released;
    }

-- A task may try the fast path at any time, and take the slow one once there is a mutex; only an owner
-- releases it.
pub data Step (s : State) : State → Type 0 where
  lock_first : (task : ℕ) → Step s (fast task s)
  lock_second : (task : ℕ) (m : UserMutex) → s.handler ≡ some m → Step s (slow task m s)
  release :
      (task : ℕ) (before after : List ℕ) (m : UserMutex)
      → s.owners ≡ before ++ task ∷ after
      → s.handler ≡ some m
      → Step s (unlock (before ++ after) m s)

pub data Reach : State → Type 0 where
  start : Reach untouched
  next : {s t : State} → Reach s → Step s t → Reach t

-- One owner if the mutex is locked, else none; nobody waits for a mutex that is not locked; and
-- the tasks leave the queue in the order in which they came.
pub record Held (handler : Option UserMutex) (owners queued handed_over : List ℕ) : Type 0 where
  pub one_owner : length owners ≡ (if is_locked handler then 1 else 0)
  pub wait_for_owner : 0 < length (waiting handler) → is_locked handler ≡ true
  pub in_order : queued ≡ handed_over ++ waiting handler

abbrev pub IsHeld : State → Type 0
IsHeld s = Held s.handler s.owners s.queued s.handed_over

module _ (task : ℕ) {qs hs : List ℕ} where
  fast-Held :
      (o : Option UserMutex) {os : List ℕ}
      → Held o os qs hs
      → Held (some (lock_fast o).0) (if (lock_fast o).1 then task ∷ os else os) qs hs
  unfolding lock_fast
  fast-Held none h = ground arith
  fast-Held (some m) h = ground arith

  slow-Held :
      (m : UserMutex) {os : List ℕ}
      → Held (some m) os qs hs
      → Held
          (some (lock_or_queue task m).0)
          (if (lock_or_queue task m).1 then task ∷ os else os)
          (if (lock_or_queue task m).1 then qs else qs ++ task ∷ [])
          hs
  unfolding lock_or_queue
  slow-Held m h = ground (arith, append_assoc hs m.blocked_tasks (task ∷ []))

  dequeue-Held :
      (before after bs : List ℕ) (m : UserMutex)
      → m.blocked_tasks ≡ bs
      → Held (some m) (before ++ task ∷ after) qs hs
      → Held
          (some (dequeue_from bs m).0)
          (to_list (dequeue_from bs m).1 ++ (before ++ after))
          qs
          (hs ++ to_list (dequeue_from bs m).1)
  unfolding dequeue_from
  dequeue-Held before after [] m e h =
      ground (arith, append-nil hs, length-append before after, length-append before (task ∷ after))
  dequeue-Held before after (b ∷ bs) m e h = ground (
    arith,
    append_assoc hs (b ∷ []) bs,
    length-append before after,
    length-append before (task ∷ after),
  )

Step-IsHeld : {s t : State} → Step s t → IsHeld s → IsHeld t
unfolding dequeue_or_unlock
Step-IsHeld {s} (lock_first task) h = fast-Held task s.handler h
Step-IsHeld {s} (lock_second task m e) h =
    slow-Held task m (subst (λ o. Held o s.owners s.queued s.handed_over) e h)
Step-IsHeld {s} (release task before after m o e) h =
    dequeue-Held task before after m.blocked_tasks m refl (
      subst (λ os. Held (some m) os s.queued s.handed_over) o
        (subst (λ k. Held k s.owners s.queued s.handed_over) e h))

pub Reach-IsHeld : {s : State} → Reach s → IsHeld s
Reach-IsHeld start = ground arith
Reach-IsHeld (next r st) = Step-IsHeld st (Reach-IsHeld r)

-- The tasks that have had to queue are given the mutex in the order in which they came: first those
-- that have already got it, then those that still wait.
pub Reach-in_order : {s : State} → Reach s → s.queued ≡ s.handed_over ++ waiting s.handler
Reach-in_order r = (Reach-IsHeld r).in_order

-- Whatever the order of the steps of the tasks, at most one task owns the mutex, one does exactly if
-- the mutex is locked, and one does if any task waits for it, so that a release will wake the next. Those that
-- have had to queue are given the mutex in the order in which they came.
pub Reach-owner :
    {s : State}
    → Reach s
    → (length s.owners ≡ (if is_locked s.handler then 1 else 0))
      × (min 1 (length (waiting s.handler)) ≤ length s.owners)
      × (s.queued ≡ s.handed_over ++ waiting s.handler)
Reach-owner r =
    let h = Reach-IsHeld r in
    (h.one_owner, ground (arith, h.one_owner, h.wait_for_owner), Reach-in_order r)
