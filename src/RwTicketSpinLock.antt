-- ===== src/RwTicketSpinLock.antt =====
-- The lock of readers and writers: src/lowlevel/RWTicketSpinLock.hpp. Of its two ticket locks it has whether
-- they are locked: TicketSpinLock shows that at most one thread owns each.
pub mod Exclusion
mod Examples
use nanos.Common.{ℕ, ◌+◌, ◌-◌, Bool, true, false, ◌==◌}

pub record RwTicketSpinLock : Type 0 where
  pub readers_spin_lock : Bool
  pub readers : ℕ
  pub writer_spin_lock : Bool

-- The constructor.
abbrev pub new_lock : RwTicketSpinLock
new_lock = record { readers_spin_lock = false; readers = 0; writer_spin_lock = false }

-- `readLock` up to its test, on a free lock of the readers: whether it has to lock that of the writer.
unfoldable pub read_lock_first : RwTicketSpinLock → RwTicketSpinLock × Bool
read_lock_first l =
    (record l { readers_spin_lock = true; readers = l.readers + 1 }, l.readers + 1 == 1)

-- `readUnlock` up to its test, on a free lock of the readers: whether it has to unlock that of the writer.
unfoldable pub read_unlock_first : RwTicketSpinLock → RwTicketSpinLock × Bool
read_unlock_first l =
    (record l { readers_spin_lock = true; readers = l.readers - 1 }, l.readers - 1 == 0)

-- The end of `readLock` and of `readUnlock`.
unfoldable pub unlock_readers : RwTicketSpinLock → RwTicketSpinLock
unlock_readers l = record l { readers_spin_lock = false }

-- `writeLock` on a free lock of the writer, also where the first reader calls it.
unfoldable pub write_lock : RwTicketSpinLock → RwTicketSpinLock
write_lock l = record l { writer_spin_lock = true }

-- `writeUnlock`, also where the last reader does it.
unfoldable pub write_unlock : RwTicketSpinLock → RwTicketSpinLock
write_unlock l = record l { writer_spin_lock = false }
