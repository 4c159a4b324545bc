-- ===== src/TicketSpinLock.antt =====
-- The ticket lock: src/lowlevel/TicketSpinLock.hpp, with its tickets of 16 bits. The owner that a debug
-- build keeps is left out.
pub mod Exclusion
mod Examples
use nanos.Common.{ℕ, ◌+◌, ◌%◌, ◌^◌, Bool, true, false, ◌==◌, if◌then◌else◌}

pub record TicketSpinLock : Type 0 where
  pub current_ticket : ℕ
  pub next_free_ticket : ℕ

-- The constructor.
abbrev pub new_lock : TicketSpinLock
new_lock = record { current_ticket = 0; next_free_ticket = 0 }

-- `lock` up to its loop: the ticket that it draws.
unfoldable pub draw_ticket : TicketSpinLock → TicketSpinLock × ℕ
draw_ticket l =
    (record l { next_free_ticket = (l.next_free_ticket + 1) % 2 ^ 16 }, l.next_free_ticket)

-- The loop of `lock` goes on until this holds.
unfoldable pub is_called : ℕ → TicketSpinLock → Bool
is_called ticket l = l.current_ticket == ticket

-- `tryLock` with the ticket and the current ticket that it has read, up to its compare-exchange.
unfoldable pub try_lock_after : (ticket current : ℕ) → TicketSpinLock → TicketSpinLock × Bool
try_lock_after ticket current l =
    if current == ticket
    then if l.next_free_ticket == ticket
      then (record l { next_free_ticket = (ticket + 1) % 2 ^ 16 }, true)
      else (l, false)
    else (l, false)

unfoldable pub unlock_ticket : TicketSpinLock → TicketSpinLock
unlock_ticket l = record l { current_ticket = (l.current_ticket + 1) % 2 ^ 16 }
