-- ===== src/Task/Lifecycle/Invariant.antt =====
-- What holds of the counters of a task between any two steps.
use nanos.Common.{
  ℕ, ◌+◌, ◌-◌, ◌^◌, ◌≤◌, ◌<◌, ◌≡◌, Bool, Bool-cases, inl, inr, true, false, not, ◌&&◌, ◌==◌,
  if◌then◌else◌, arith, List, [], ◌∷◌, ◌++◌,
}
use nanos.Task.Counter.{decrease, decrease_lem}
use nanos.Task.Lifecycle.{
  Task, decrease_removal_blocking_count, decrease_release_count, Turn, finishing, completing,
  counting, releasing, marking, disposing, decrease_events, child_deleted,
}
use nanos.Task.Lifecycle.History.{State, Body, running, checked, unblocking, blocked, over}

-- The fields of a task.
abbrev pub Has : Task → (woken_up release : ℕ) (wait_flag finished : Bool) → Type 0
Has k woken_up release wait_flag finished =
    (k.countdown_to_be_woken_up ≡ woken_up)
    × (k.countdown_to_release ≡ release)
    × (k.wait_flag ≡ wait_flag)
    × (k.has_finished ≡ finished)

-- The accesses are not released, and the task is not deleted and not queued.
abbrev pub Untouched : (released disposed : ℕ) (queued : Bool) → Type 0
Untouched r x q = (r ≡ 0) × (x ≡ 0) × (q ≡ false)

-- Nobody goes on: `c` children, `e` events, `d` whether there is a wait clause.
abbrev pub Quiet : Body → Task → Bool → (c e r x : ℕ) → Bool → Type 0
Quiet running k d c e r x q = Has k (c + 1) (e + 1) d false × Untouched r x q
Quiet checked k d c e r x q = Has k (c + 1) (e + 1) d false × Untouched r x q
Quiet unblocking k d c e r x q = Has k 0 (e + 1) d false × (c ≡ 0) × Untouched r x q
Quiet blocked k d c e r x q = Has k c (e + 1) d false × (r ≡ 0) × (x ≡ 0) × (q ≡ (c == 0))
Quiet over k d c e r x q =
    Has k (if k.wait_flag then c else if e == 0 then c else c + 1)
      (if k.wait_flag then e + 1 else e) k.wait_flag true
    × (k.wait_flag && not d ≡ false)
    × (k.wait_flag && (c == 0) ≡ false)
    × ((if k.wait_flag then 0 else if d then c else 0) ≡ 0)
    × (r ≡ (if k.wait_flag then 0 else if e == 0 then 1 else 0))
    × (x ≡ (if k.wait_flag then 0 else if (e == 0) && (c == 0) then 1 else 0))
    × (q ≡ false)

-- One thread goes on.
abbrev pub Busy : Body → Turn → Task → Bool → (c e r x : ℕ) → Bool → Type 0
Busy running t k d c e r x q = ⊥
Busy checked t k d c e r x q = ⊥
Busy unblocking t k d c e r x q = ⊥
Busy blocked disposing k d c e r x q = Has k 0 (e + 1) d false × (c ≡ 0) × Untouched r x q
Busy over finishing k d c e r x q = Has k (c + 1) (e + 1) d true × Untouched r x q
Busy over completing k d c e r x q =
    Has k 0 (e + 1) true true × (d ≡ true) × (c ≡ 0) × Untouched r x q
Busy over counting k d c e r x q =
    Has k (c + 1) (e + 1) false true × (d ≡ true) × (c ≡ 0) × Untouched r x q
Busy over releasing k d c e r x q =
    Has k (c + 1) 0 false true × (e ≡ 0) × ((if d then c else 0) ≡ 0) × Untouched r x q
Busy over marking k d c e r x q =
    Has k (c + 1) 0 false true
    × (e ≡ 0)
    × ((if d then c else 0) ≡ 0)
    × (r ≡ 1)
    × (x ≡ 0)
    × (q ≡ false)
Busy over disposing k d c e r x q =
    Has k 0 (if k.wait_flag then e + 1 else 0) k.wait_flag true
    × (c ≡ 0)
    × ((if k.wait_flag then 0 else e) ≡ 0)
    × (k.wait_flag && not d ≡ false)
    × (r ≡ (if k.wait_flag then 0 else 1))
    × (x ≡ 0)
    × (q ≡ false)
Busy blocked finishing k d c e r x q = ⊥
Busy blocked completing k d c e r x q = ⊥
Busy blocked counting k d c e r x q = ⊥
Busy blocked releasing k d c e r x q = ⊥
Busy blocked marking k d c e r x q = ⊥

abbrev pub Held : Body → List Turn → Task → Bool → (c e r x : ℕ) → Bool → Type 0
Held b [] k d c e r x q = Quiet b k d c e r x q
Held b (t ∷ []) k d c e r x q = Busy b t k d c e r x q
Held b (t ∷ u ∷ ts) k d c e r x q = ⊥

pub record Inv (s : State) : Type 0 where
  pub few_children : s.children + 1 < 2 ^ 32
  pub few_events : s.events + 1 < 2 ^ 32
  pub held : Held s.body s.turns s.task s.delayed s.children s.events s.released s.disposed s.queued

module _ (k : Task) (d : Bool) (c e r x : ℕ) (q : Bool) (few_children : c + 1 < 2 ^ 32)
    (few_events : e + 1 < 2 ^ 32) where
  pub deleted-Held :
      (b : Body) (ts : List Turn)
      → 0 < c
      → Held b ts k d c e r x q
      → Held b ((child_deleted k).next_turn ++ ts) (child_deleted k).task d (c - 1) e r x q
  unfolding child_deleted decrease_removal_blocking_count
  deleted-Held running [] z h = ground (arith, h, z, decrease_lem k.countdown_to_be_woken_up 1)
  deleted-Held checked [] z h = ground (arith, h, z, decrease_lem k.countdown_to_be_woken_up 1)
  deleted-Held unblocking [] z h = absurd (ground (arith, h, z))
  deleted-Held blocked [] z h = elim (Bool-cases (decrease k.countdown_to_be_woken_up 1 == 0)) [
    | inl zero ↦ rw zero (ground (arith, h, z, zero, decrease_lem k.countdown_to_be_woken_up 1))
    | inr more ↦ rw more (ground (arith, h, z, more, decrease_lem k.countdown_to_be_woken_up 1))
  ]
  deleted-Held over [] z h = elim (Bool-cases (decrease k.countdown_to_be_woken_up 1 == 0)) [
    | inl zero ↦ rw zero (ground (arith, h, z, zero, decrease_lem k.countdown_to_be_woken_up 1))
    | inr more ↦ rw more (ground (arith, h, z, more, decrease_lem k.countdown_to_be_woken_up 1))
  ]
  deleted-Held blocked (disposing ∷ []) z h = absurd (ground (arith, h, z))
  deleted-Held over (finishing ∷ []) z h =
      ground (arith, h, z, decrease_lem k.countdown_to_be_woken_up 1)
  deleted-Held over (completing ∷ []) z h = absurd (ground (arith, h, z))
  deleted-Held over (counting ∷ []) z h = absurd (ground (arith, h, z))
  deleted-Held over (releasing ∷ []) z h =
      ground (arith, h, z, decrease_lem k.countdown_to_be_woken_up 1)
  deleted-Held over (marking ∷ []) z h =
      ground (arith, h, z, decrease_lem k.countdown_to_be_woken_up 1)
  deleted-Held over (disposing ∷ []) z h = absurd (ground (arith, h, z))
  deleted-Held running (t ∷ []) z h = absurd h
  deleted-Held checked (t ∷ []) z h = absurd h
  deleted-Held unblocking (t ∷ []) z h = absurd h
  deleted-Held blocked (finishing ∷ []) z h = absurd h
  deleted-Held blocked (completing ∷ []) z h = absurd h
  deleted-Held blocked (counting ∷ []) z h = absurd h
  deleted-Held blocked (releasing ∷ []) z h = absurd h
  deleted-Held blocked (marking ∷ []) z h = absurd h
  deleted-Held b (t ∷ u ∷ ts) z h = absurd h

  pub fulfilled-Held :
      (n : ℕ) (b : Body) (ts : List Turn)
      → n ≤ e
      → Held b ts k d c e r x q
      → Held b ((decrease_events n k).next_turn ++ ts) (decrease_events n k).task d c (e - n) r x q
  unfolding decrease_events decrease_release_count
  fulfilled-Held n running [] z h = ground (arith, h, z, decrease_lem k.countdown_to_release n)
  fulfilled-Held n checked [] z h = ground (arith, h, z, decrease_lem k.countdown_to_release n)
  fulfilled-Held n unblocking [] z h = ground (arith, h, z, decrease_lem k.countdown_to_release n)
  fulfilled-Held n blocked [] z h = elim (Bool-cases (decrease k.countdown_to_release n == 0)) [
    | inl zero ↦ rw zero (ground (arith, h, z, zero, decrease_lem k.countdown_to_release n))
    | inr more ↦ rw more (ground (arith, h, z, more, decrease_lem k.countdown_to_release n))
  ]
  fulfilled-Held n over [] z h = elim (Bool-cases (decrease k.countdown_to_release n == 0)) [
    | inl zero ↦ rw zero (ground (arith, h, z, zero, decrease_lem k.countdown_to_release n))
    | inr more ↦ rw more (ground (arith, h, z, more, decrease_lem k.countdown_to_release n))
  ]
  fulfilled-Held n blocked (disposing ∷ []) z h =
      ground (arith, h, z, decrease_lem k.countdown_to_release n)
  fulfilled-Held n over (finishing ∷ []) z h =
      ground (arith, h, z, decrease_lem k.countdown_to_release n)
  fulfilled-Held n over (completing ∷ []) z h =
      ground (arith, h, z, decrease_lem k.countdown_to_release n)
  fulfilled-Held n over (counting ∷ []) z h =
      ground (arith, h, z, decrease_lem k.countdown_to_release n)
  fulfilled-Held n over (releasing ∷ []) z h =
      ground (arith, h, z, decrease_lem k.countdown_to_release n)
  fulfilled-Held n over (marking ∷ []) z h =
      ground (arith, h, z, decrease_lem k.countdown_to_release n)
  fulfilled-Held n over (disposing ∷ []) z h =
      ground (arith, h, z, decrease_lem k.countdown_to_release n)
  fulfilled-Held n running (t ∷ []) z h = absurd h
  fulfilled-Held n checked (t ∷ []) z h = absurd h
  fulfilled-Held n unblocking (t ∷ []) z h = absurd h
  fulfilled-Held n blocked (finishing ∷ []) z h = absurd h
  fulfilled-Held n blocked (completing ∷ []) z h = absurd h
  fulfilled-Held n blocked (counting ∷ []) z h = absurd h
  fulfilled-Held n blocked (releasing ∷ []) z h = absurd h
  fulfilled-Held n blocked (marking ∷ []) z h = absurd h
  fulfilled-Held n b (t ∷ u ∷ ts) z h = absurd h
