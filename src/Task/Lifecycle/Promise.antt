-- ===== src/Task/Lifecycle/Promise.antt =====
-- When a task is released, deleted and woken up.
use nanos.Common.{ℕ, ◌≤◌, Bool, true, false, ◌&&◌, ◌==◌, if◌then◌else◌, arith, List, [], ◌∷◌}
use nanos.Task.Lifecycle.{
  Task, Turn, finishing, completing, counting, releasing, marking, disposing,
}
use nanos.Task.Lifecycle.History.{
  State, Body, running, checked, unblocking, blocked, over, Reach, can_release,
}
use nanos.Task.Lifecycle.Invariant.{Held}
use nanos.Task.Lifecycle.Kept.{Reach-Inv}

abbrev pub one : Bool → ℕ
one b = if b then 1 else 0

-- No thread goes on after a countdown.
abbrev pub is_quiet : List Turn → Bool
is_quiet [] = true
is_quiet (t ∷ ts) = false

abbrev pub is_blocked : Body → Bool
is_blocked blocked = true
is_blocked _ = false

-- `released` and `deleted` are at most, and in the end as often as, what the rest asks for.
abbrev Kept : (can quiet : Bool) → ℕ → Type 0
Kept can quiet n = (n ≤ one can) × (one (can && quiet) ≤ n)

abbrev ready : Task → Bool → (c e : ℕ) → Bool
ready k d c e = k.has_finished && e == 0 && (if d then c == 0 else true)

module _ (k : Task) (d : Bool) (c e r x : ℕ) (q : Bool) where
  Held-promise :
      (b : Body) (ts : List Turn)
      → Held b ts k d c e r x q
      → Kept (ready k d c e) (is_quiet ts) r
        × Kept (ready k d c e && c == 0) (is_quiet ts) x
        × Kept (is_blocked b && c == 0) (is_quiet ts) (one q)
  Held-promise running [] h = ground (arith, h)
  Held-promise checked [] h = ground (arith, h)
  Held-promise unblocking [] h = ground (arith, h)
  Held-promise blocked [] h = ground (arith, h)
  Held-promise over [] h = ground (arith, h)
  Held-promise blocked (disposing ∷ []) h = ground (arith, h)
  Held-promise over (finishing ∷ []) h = ground (arith, h)
  Held-promise over (completing ∷ []) h = ground (arith, h)
  Held-promise over (counting ∷ []) h = ground (arith, h)
  Held-promise over (releasing ∷ []) h = ground (arith, h)
  Held-promise over (marking ∷ []) h = ground (arith, h)
  Held-promise over (disposing ∷ []) h = ground (arith, h)
  Held-promise running (t ∷ []) h = absurd h
  Held-promise checked (t ∷ []) h = absurd h
  Held-promise unblocking (t ∷ []) h = absurd h
  Held-promise blocked (finishing ∷ []) h = absurd h
  Held-promise blocked (completing ∷ []) h = absurd h
  Held-promise blocked (counting ∷ []) h = absurd h
  Held-promise blocked (releasing ∷ []) h = absurd h
  Held-promise blocked (marking ∷ []) h = absurd h
  Held-promise b (t ∷ u ∷ ts) h = absurd h

-- Whatever the order of the atomic steps of the task, its children, its events and its waits, as long as
-- the children and events fit in the counters: the accesses of the task are released at most once, and
-- only if its body has ended, no event is open and, with a wait clause, no child is alive; the task is
-- deleted at most once, and only if moreover no child is alive; and both have happened when no thread is
-- on its way from a countdown any more.
pub Reach-released :
    {delayed : Bool} {s : State}
    → Reach delayed s
    → (s.released ≤ one (can_release s))
      × (one (can_release s && is_quiet s.turns) ≤ s.released)
      × (s.disposed ≤ one (can_release s && s.children == 0))
      × (one (can_release s && s.children == 0 && is_quiet s.turns) ≤ s.disposed)
Reach-released {s = s} r =
    let ((a, b), (c, d), q) =
      Held-promise s.task s.delayed s.children s.events s.released s.disposed s.queued s.body
        s.turns (Reach-Inv r).held in
    (a, b, c, ground (arith, d))
