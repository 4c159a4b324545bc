-- ===== src/RwTicketSpinLock/Examples.antt =====
-- Witness: a reader has the lock, and a second one is on its way in.
use nanos.Common.{◌≤◌, ◌+◌, refl, min}
use nanos.RwTicketSpinLock.{read_lock_first, write_lock, unlock_readers}
use nanos.RwTicketSpinLock.Exclusion.{
  State, entering, nobody, Reach, start, next, begins, locks, enters, unused, begin_read, one,
  is_owned, Reach-excluded,
}

abbrev one_locks : State
one_locks = record (begin_read unused) {
  lock = write_lock (begin_read unused).lock;
  phase = entering;
}

abbrev one_reads : State
one_reads = record one_locks { lock = unlock_readers one_locks.lock; phase = nobody; reading = 1 }

Reach-begin_read : Reach (begin_read one_reads)
unfolding read_lock_first write_lock unlock_readers
Reach-begin_read =
    next (next (next (next start (begins refl)) (locks refl refl)) (enters refl)) (begins refl)

Reach-excluded_example :
    ((begin_read one_reads).writing + min 1 (begin_read one_reads).reading ≤ 1)
    × (one (begin_read one_reads).lock.writer_spin_lock
        ≤ (begin_read one_reads).writing
          + (begin_read one_reads).reading
          + one (is_owned (begin_read one_reads).phase))
Reach-excluded_example = Reach-excluded Reach-begin_read
