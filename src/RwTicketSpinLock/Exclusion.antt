-- ===== src/RwTicketSpinLock/Exclusion.antt =====
-- Any number of readers and writers that use one lock, in any order of their steps.
use nanos.Common.{
  ℕ, suc, ◌+◌, ◌≤◌, ◌≡◌, subst, min, Bool, true, false, ltb, ◌==◌, if◌then◌else◌, arith,
}
use nanos.RwTicketSpinLock.{
  RwTicketSpinLock, new_lock, read_lock_first, read_unlock_first, unlock_readers, write_lock,
  write_unlock,
}

-- Where the thread is that owns the lock of the readers, if there is one: before it locks that of the
-- writer, behind that, before it unlocks it, or behind that.
pub data Phase : Type 0 where
  nobody : Phase
  locking : Phase
  entering : Phase
  unlocking : Phase
  leaving : Phase

-- The lock, and the readers and writers that have it.
pub record State : Type 0 where
  pub lock : RwTicketSpinLock
  pub phase : Phase
  pub reading : ℕ
  pub writing : ℕ

abbrev pub unused : State
unused = record { lock = new_lock; phase = nobody; reading = 0; writing = 0 }

abbrev pub begin_read : State → State
begin_read s =
    let (l, first) = read_lock_first s.lock in
    record s { lock = l; phase = if first then locking else entering }

abbrev pub begin_unread : ℕ → State → State
begin_unread others s =
    let (l, last) = read_unlock_first s.lock in
    record s { lock = l; phase = if last then unlocking else leaving; reading = others }

pub data Step (s : State) : State → Type 0 where
  begins : s.lock.readers_spin_lock ≡ false → Step s (begin_read s)
  locks :
      s.phase ≡ locking
      → s.lock.writer_spin_lock ≡ false
      → Step s (record s { lock = write_lock s.lock; phase = entering })
  enters :
      s.phase ≡ entering
      → Step s (record s { lock = unlock_readers s.lock; phase = nobody; reading = s.reading + 1 })
  ends :
      (others : ℕ)
      → s.lock.readers_spin_lock ≡ false
      → s.reading ≡ suc others
      → Step s (begin_unread others s)
  unlocks : s.phase ≡ unlocking → Step s (record s { lock = write_unlock s.lock; phase = leaving })
  leaves : s.phase ≡ leaving → Step s (record s { lock = unlock_readers s.lock; phase = nobody })
  writes :
      s.lock.writer_spin_lock ≡ false
      → Step s (record s { lock = write_lock s.lock; writing = s.writing + 1 })
  unwrites :
      (others : ℕ)
      → s.writing ≡ suc others
      → Step s (record s { lock = write_unlock s.lock; writing = others })

pub data Reach : State → Type 0 where
  start : Reach unused
  next : {s t : State} → Reach s → Step s t → Reach t

abbrev pub one : Bool → ℕ
one b = if b then 1 else 0

-- The readers that have been counted and have not yet got the lock.
abbrev pub coming : Phase → ℕ
coming nobody = 0
coming locking = 1
coming entering = 1
coming unlocking = 0
coming leaving = 0

-- Whether the readers own the lock of the writer.
abbrev pub readers_own : Phase → ℕ → Bool
readers_own nobody readers = ltb 0 readers
readers_own locking readers = false
readers_own entering readers = true
readers_own unlocking readers = true
readers_own leaving readers = ltb 0 readers

abbrev pub is_owned : Phase → Bool
is_owned nobody = false
is_owned locking = true
is_owned entering = true
is_owned unlocking = true
is_owned leaving = true

-- What a phase says of the readers that are counted.
abbrev pub counted_at : Phase → ℕ → Bool
counted_at nobody readers = true
counted_at locking readers = readers == 1
counted_at entering readers = true
counted_at unlocking readers = readers == 0
counted_at leaving readers = true

pub record Held (p : Phase) (l : RwTicketSpinLock) (reading writing : ℕ) : Type 0 where
  pub owned : l.readers_spin_lock ≡ is_owned p
  pub counted : l.readers ≡ reading + coming p
  pub phased : counted_at p l.readers ≡ true
  pub shared : writing + one (readers_own p l.readers) ≡ one l.writer_spin_lock

abbrev pub IsHeld : State → Type 0
IsHeld s = Held s.phase s.lock s.reading s.writing

module _ (l : RwTicketSpinLock) (r w : ℕ) where
  nobody_owns : (p : Phase) → l.readers_spin_lock ≡ false → Held p l r w → Held nobody l r w
  nobody_owns nobody free h = h
  nobody_owns locking free h = absurd (ground (arith, free, h.owned))
  nobody_owns entering free h = absurd (ground (arith, free, h.owned))
  nobody_owns unlocking free h = absurd (ground (arith, free, h.owned))
  nobody_owns leaving free h = absurd (ground (arith, free, h.owned))

  begin-Held :
      Held nobody l r w
      → Held (if (read_lock_first l).1 then locking else entering) (read_lock_first l).0 r w
  unfolding read_lock_first
  begin-Held h = ground (arith, h)

  end-Held :
      (others : ℕ)
      → r ≡ suc others
      → Held nobody l r w
      → Held
          (if (read_unlock_first l).1 then unlocking else leaving)
          (read_unlock_first l).0
          others
          w
  unfolding read_unlock_first
  end-Held others e h = ground (arith, e, h)

  lock-Held : l.writer_spin_lock ≡ false → Held locking l r w → Held entering (write_lock l) r w
  unfolding write_lock
  lock-Held free h = ground (arith, free, h)

  enter-Held : Held entering l r w → Held nobody (unlock_readers l) (r + 1) w
  unfolding unlock_readers
  enter-Held h = ground (arith, h)

  unlock-Held : Held unlocking l r w → Held leaving (write_unlock l) r w
  unfolding write_unlock
  unlock-Held h = ground (arith, h)

  leave-Held : Held leaving l r w → Held nobody (unlock_readers l) r w
  unfolding unlock_readers
  leave-Held h = ground (arith, h)

  write-Held :
      (p : Phase) → l.writer_spin_lock ≡ false → Held p l r w → Held p (write_lock l) r (w + 1)
  unfolding write_lock
  write-Held p free h = ground (arith, free, h)

  unwrite-Held :
      (p : Phase) (others : ℕ) → w ≡ suc others → Held p l r w → Held p (write_unlock l) r others
  unfolding write_unlock
  unwrite-Held p others e h = ground (arith, e, h)

at : (s : State) (p : Phase) → s.phase ≡ p → IsHeld s → Held p s.lock s.reading s.writing
at s p e h = subst (λ q. Held q s.lock s.reading s.writing) e h

Step-IsHeld : {s t : State} → Step s t → IsHeld s → IsHeld t
Step-IsHeld {s} (begins free) h =
    begin-Held s.lock s.reading s.writing (nobody_owns s.lock s.reading s.writing s.phase free h)
Step-IsHeld {s} (locks e free) h = lock-Held s.lock s.reading s.writing free (at s locking e h)
Step-IsHeld {s} (enters e) h = enter-Held s.lock s.reading s.writing (at s entering e h)
Step-IsHeld {s} (ends others free e) h =
    end-Held s.lock s.reading s.writing others e
      (nobody_owns s.lock s.reading s.writing s.phase free h)
Step-IsHeld {s} (unlocks e) h = unlock-Held s.lock s.reading s.writing (at s unlocking e h)
Step-IsHeld {s} (leaves e) h = leave-Held s.lock s.reading s.writing (at s leaving e h)
Step-IsHeld {s} (writes free) h = write-Held s.lock s.reading s.writing s.phase free h
Step-IsHeld {s} (unwrites others e) h = unwrite-Held s.lock s.reading s.writing s.phase others e h

Reach-IsHeld : {s : State} → Reach s → IsHeld s
Reach-IsHeld start = ground arith
Reach-IsHeld (next r st) = Step-IsHeld st (Reach-IsHeld r)

-- Whatever the order of the steps of the threads, there is at most one writer, and none while there is
-- a reader; and the lock of the writer is locked only while a writer or a reader has the lock, or a reader
-- is on its way in or out.
pub Reach-excluded :
    {s : State}
    → Reach s
    → (s.writing + min 1 s.reading ≤ 1)
      × (one s.lock.writer_spin_lock ≤ s.writing + s.reading + one (is_owned s.phase))
Reach-excluded {s} r = excluded s.phase s.lock s.reading s.writing (Reach-IsHeld r)
  where
    excluded :
        (p : Phase) (l : RwTicketSpinLock) (r w : ℕ)
        → Held p l r w
        → (w + min 1 r ≤ 1) × (one l.writer_spin_lock ≤ w + r + one (is_owned p))
    excluded p l r w h = ground (arith, h)
