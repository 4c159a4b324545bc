-- ===== src/Task/Lifecycle/Turns.antt =====
-- The steps of the body, and of a thread that goes on after a countdown.
use nanos.Common.{
  ℕ, ◌+◌, ◌^◌, ◌<◌, ◌≡◌, Bool, Bool-cases, inl, inr, true, false, ◌==◌, if◌then◌else◌, arith, List,
  [], ◌∷◌,
}
use nanos.Task.Counter.{decrease, increase_lem, decrease_lem}
use nanos.Task.Lifecycle.{
  Task, increase_removal_blocking_count, decrease_removal_blocking_count, increase_release_count,
  decrease_release_count, Effects, Turn, finishing, completing, counting, releasing, marking,
  disposing, end_task, take_turn, mark_as_finished, complete_delayed_release, dispose_or_unblock,
}
use nanos.Task.Lifecycle.History.{Body, running, checked, unblocking, blocked, over, add_if}
use nanos.Task.Lifecycle.Invariant.{Busy, Held}

module _ (k : Task) (d : Bool) (c e r x : ℕ) (q : Bool) (few_children : c + 1 < 2 ^ 32)
    (few_events : e + 1 < 2 ^ 32) where
  pub create-Held :
      (ts : List Turn)
      → c + 2 < 2 ^ 32
      → Held running ts k d c e r x q
      → Held running ts (increase_removal_blocking_count k) d (c + 1) e r x q
  unfolding increase_removal_blocking_count
  create-Held [] z h = ground (arith, h, z, increase_lem k.countdown_to_be_woken_up 1)
  create-Held (t ∷ []) z h = absurd h
  create-Held (t ∷ u ∷ ts) z h = absurd h

  pub add-Held :
      (n : ℕ) (ts : List Turn)
      → e + n + 1 < 2 ^ 32
      → Held running ts k d c e r x q
      → Held running ts (increase_release_count n k) d c (e + n) r x q
  unfolding increase_release_count
  add-Held n [] z h = ground (arith, h, z, increase_lem k.countdown_to_release n)
  add-Held n (t ∷ []) z h = absurd h
  add-Held n (t ∷ u ∷ ts) z h = absurd h

  pub check-Held :
      (b : Bool) (ts : List Turn)
      → Held running ts k d c e r x q
      → Held (if b then running else checked) ts k d c e r x q
  check-Held true ts h = h
  check-Held false [] h = h
  check-Held false (t ∷ []) h = absurd h
  check-Held false (t ∷ u ∷ ts) h = absurd h

  pub block-Held :
      (ts : List Turn)
      → Held checked ts k d c e r x q
      → let (k', done) = decrease_removal_blocking_count k in
        Held (if done then unblocking else blocked) ts k' d c e r x q
  unfolding decrease_removal_blocking_count
  block-Held [] h = elim (Bool-cases (decrease k.countdown_to_be_woken_up 1 == 0)) [
    | inl zero ↦ rw zero (ground (arith, h, zero, decrease_lem k.countdown_to_be_woken_up 1))
    | inr more ↦ rw more (ground (arith, h, more, decrease_lem k.countdown_to_be_woken_up 1))
  ]
  block-Held (t ∷ []) h = absurd h
  block-Held (t ∷ u ∷ ts) h = absurd h

  pub resume-Held :
      (b : Body) (ts : List Turn)
      → q ≡ true
      → Held b ts k d c e r x q
      → Held unblocking ts k d c e r x false
  resume-Held running [] w h = absurd (ground (arith, h, w))
  resume-Held checked [] w h = absurd (ground (arith, h, w))
  resume-Held unblocking [] w h = absurd (ground (arith, h, w))
  resume-Held blocked [] w h = ground (arith, h, w)
  resume-Held over [] w h = absurd (ground (arith, h, w))
  resume-Held running (t ∷ []) w h = absurd h
  resume-Held checked (t ∷ []) w h = absurd h
  resume-Held unblocking (t ∷ []) w h = absurd h
  resume-Held blocked (disposing ∷ []) w h = absurd (ground (arith, h, w))
  resume-Held blocked (finishing ∷ []) w h = absurd h
  resume-Held blocked (completing ∷ []) w h = absurd h
  resume-Held blocked (counting ∷ []) w h = absurd h
  resume-Held blocked (releasing ∷ []) w h = absurd h
  resume-Held blocked (marking ∷ []) w h = absurd h
  resume-Held over (finishing ∷ []) w h = absurd (ground (arith, h, w))
  resume-Held over (completing ∷ []) w h = absurd (ground (arith, h, w))
  resume-Held over (counting ∷ []) w h = absurd (ground (arith, h, w))
  resume-Held over (releasing ∷ []) w h = absurd (ground (arith, h, w))
  resume-Held over (marking ∷ []) w h = absurd (ground (arith, h, w))
  resume-Held over (disposing ∷ []) w h = absurd (ground (arith, h, w))
  resume-Held b (t ∷ u ∷ ts) w h = absurd h

  pub unblock-Held :
      (ts : List Turn)
      → Held unblocking ts k d c e r x q
      → Held running ts (increase_removal_blocking_count k) d c e r x q
  unfolding increase_removal_blocking_count
  unblock-Held [] h = ground (arith, h, increase_lem k.countdown_to_be_woken_up 1)
  unblock-Held (t ∷ []) h = absurd h
  unblock-Held (t ∷ u ∷ ts) h = absurd h

  pub finish-Held :
      (ts : List Turn)
      → Held running ts k d c e r x q
      → Held over (finishing ∷ ts) (end_task k) d c e r x q
  unfolding end_task
  finish-Held [] h = ground (arith, h)
  finish-Held (t ∷ []) h = absurd h
  finish-Held (t ∷ u ∷ ts) h = absurd h

  -- What a step of a thread leads to, if no other thread goes on.
  abbrev pub AfterTurn : Body → Effects → Type 0
  AfterTurn b f =
      Held b f.next_turn f.task d c e (r + f.released) (add_if f.disposed x)
        (if f.woken then true else q)

  pub turn-Held : (b : Body) (t : Turn) → Busy b t k d c e r x q → AfterTurn b (take_turn t k)
  unfolding take_turn mark_as_finished complete_delayed_release decrease_release_count
      decrease_removal_blocking_count dispose_or_unblock increase_removal_blocking_count
  turn-Held over finishing h = elim (Bool-cases k.wait_flag) [
    | inl waits ↦ elim (Bool-cases (decrease k.countdown_to_be_woken_up 1 == 0)) [
      | inl zero ↦
          rw (waits, zero)
            (ground (arith, h, waits, zero, decrease_lem k.countdown_to_be_woken_up 1))
      | inr more ↦
          rw (waits, more)
            (ground (arith, h, waits, more, decrease_lem k.countdown_to_be_woken_up 1))
    ]
    | inr free ↦ elim (Bool-cases (decrease k.countdown_to_release 1 == 0)) [
      | inl zero ↦
          rw (free, zero) (ground (arith, h, free, zero, decrease_lem k.countdown_to_release 1))
      | inr more ↦
          rw (free, more) (ground (arith, h, free, more, decrease_lem k.countdown_to_release 1))
    ]
  ]
  turn-Held over completing h = ground (arith, h, increase_lem k.countdown_to_be_woken_up 1)
  turn-Held over counting h = elim (Bool-cases (decrease k.countdown_to_release 1 == 0)) [
    | inl zero ↦ rw zero (ground (arith, h, zero, decrease_lem k.countdown_to_release 1))
    | inr more ↦ rw more (ground (arith, h, more, decrease_lem k.countdown_to_release 1))
  ]
  turn-Held over releasing h = ground (arith, h)
  turn-Held over marking h = elim (Bool-cases (decrease k.countdown_to_be_woken_up 1 == 0)) [
    | inl zero ↦ rw zero (ground (arith, h, zero, decrease_lem k.countdown_to_be_woken_up 1))
    | inr more ↦ rw more (ground (arith, h, more, decrease_lem k.countdown_to_be_woken_up 1))
  ]
  turn-Held over disposing h =
      let ended : k.has_finished ≡ true = ground (arith, h) in
      elim (Bool-cases k.wait_flag) [
        | inl waits ↦ rw (ended, waits) (ground (arith, h, waits))
        | inr free ↦ rw (ended, free) (ground (arith, h, free))
      ]
  turn-Held blocked disposing h =
      let runs : k.has_finished ≡ false = ground (arith, h) in rw runs (ground (arith, h))
  turn-Held blocked finishing h = absurd h
  turn-Held blocked completing h = absurd h
  turn-Held blocked counting h = absurd h
  turn-Held blocked releasing h = absurd h
  turn-Held blocked marking h = absurd h
  turn-Held running t h = absurd h
  turn-Held checked t h = absurd h
  turn-Held unblocking t h = absurd h
