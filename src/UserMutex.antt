-- ===== src/UserMutex.antt =====
-- The mutex of the user's critical sections: src/system/ompss/UserMutex.hpp and UserMutex.cpp. The
-- spin lock makes each of lockOrQueue and dequeueOrUnlock one step, and a task is a number.
pub mod Exclusion
mod Examples
use nanos.Common.{ℕ, Bool, true, false, Option, none, some, List, [], ◌∷◌, ◌++◌, if◌then◌else◌}

pub record UserMutex : Type 0 where
  pub user_mutex : Bool
  pub blocked_tasks : List ℕ

-- The constructor.
unfoldable pub new_mutex : Bool → UserMutex
new_mutex initial_state = record { user_mutex = initial_state; blocked_tasks = [] }

unfoldable pub try_lock : UserMutex → UserMutex × Bool
try_lock m = if m.user_mutex then (m, false) else (record m { user_mutex = true }, true)

unfoldable pub lock_or_queue : ℕ → UserMutex → UserMutex × Bool
unfolding try_lock
lock_or_queue task m =
    let (m', successful) = try_lock m in
    if successful
    then (m', true)
    else (record m' { blocked_tasks = m'.blocked_tasks ++ task ∷ [] }, false)

-- The first blocked task and the others, or an unlocked mutex.
unfoldable pub dequeue_from : List ℕ → UserMutex → UserMutex × Option ℕ
dequeue_from [] m = (record m { user_mutex = false }, none)
dequeue_from (task ∷ tasks) m = (record m { blocked_tasks = tasks }, some task)

unfoldable pub dequeue_or_unlock : UserMutex → UserMutex × Option ℕ
unfolding dequeue_from
dequeue_or_unlock m = dequeue_from m.blocked_tasks m

-- `nanos6_user_lock` up to its fast path: the thread whose compare-exchange finds no mutex installs a
-- locked one, any other tries to lock the one that is there.
unfoldable pub lock_fast : Option UserMutex → UserMutex × Bool
unfolding new_mutex try_lock
lock_fast none = (new_mutex true, true)
lock_fast (some m) = try_lock m
