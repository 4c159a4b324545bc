-- ===== src/TicketSpinLock/Exclusion.antt =====
-- Any number of threads below 2 ^ 16 that use one ticket lock, in any order of their steps.
use mathlib.Core.List.{append-nil, append_assoc}
use nanos.Common.{
  Option, none, some, Bool, true, false, ℕ, ◌+◌, ◌%◌, ◌^◌, ◌≤◌, ◌<◌, ◌≡◌, refl, sym, ◌∙◌, ap, subst,
  min, Bool-cases, true, List, [], ◌∷◌, ◌++◌, length, length-append, inl, inr, ◌==◌, if◌then◌else◌,
  arith,
}
use nanos.TicketSpinLock.{
  TicketSpinLock, new_lock, draw_ticket, is_called, try_lock_after, unlock_ticket,
}

-- A call of `tryLock`: the ticket that it has read, how many tickets had been drawn by then, and the
-- current ticket, once it has read that.
pub record Attempt : Type 0 where
  pub thread : ℕ
  pub ticket : ℕ
  pub number : ℕ
  pub seen : Option ℕ

-- The lock, the threads that spin, each with its ticket and the earliest first, those that own the lock, all
-- that have ever drawn a ticket or been granted one by `tryLock`, all that have owned the lock, and
-- the calls of `tryLock` under way.
pub record State : Type 0 where
  pub lock : TicketSpinLock
  pub waiting : List (ℕ × ℕ)
  pub owners : List ℕ
  pub drawn : List ℕ
  pub granted : List ℕ
  pub trying : List Attempt

abbrev pub unused : State
unused = record {
  lock = new_lock;
  waiting = [];
  owners = [];
  drawn = [];
  granted = [];
  trying = [];
}

abbrev pub draw : ℕ → State → State
draw thread s =
    let (l, ticket) = draw_ticket s.lock in
    record s {
      lock = l;
      waiting = s.waiting ++ (thread, ticket) ∷ [];
      drawn = s.drawn ++ thread ∷ [];
    }

abbrev pub enter : ℕ → List (ℕ × ℕ) → State → State
enter thread others s = record s {
  waiting = others;
  owners = thread ∷ s.owners;
  granted = s.granted ++ thread ∷ [];
}

-- `tryLock` reads the next free ticket.
abbrev pub begin_try : ℕ → State → State
begin_try thread s = record s {
  trying =
      record {
        thread = thread;
        ticket = s.lock.next_free_ticket;
        number = length s.drawn;
        seen = none;
      }
      ∷ s.trying;
}

-- It then reads the current ticket.
abbrev pub look : Attempt → List Attempt → State → State
look a others s = record s { trying = record a { seen = some s.lock.current_ticket } ∷ others }

-- The test and the compare-exchange.
abbrev pub attempt : ℕ → ℕ → ℕ → List Attempt → State → State
attempt thread ticket current others s =
    let (l, successful) = try_lock_after ticket current s.lock in
    record {
      lock = l;
      waiting = s.waiting;
      owners = if successful then thread ∷ s.owners else s.owners;
      drawn = if successful then s.drawn ++ thread ∷ [] else s.drawn;
      granted = if successful then s.granted ++ thread ∷ [] else s.granted;
      trying = others;
    }

abbrev pub leave : List ℕ → State → State
leave others s = record s { lock = unlock_ticket s.lock; owners = others }

abbrev pub users : State → ℕ
users s = length s.owners + length s.waiting

-- A thread draws a ticket while fewer than 2 ^ 16 others use the lock; a thread that spins enters when its
-- ticket is called; an owner leaves. The three atomic operations of `tryLock` are three steps; the
-- last finds that fewer than 2 ^ 16 tickets have been drawn since the first.
pub data Step (s : State) : State → Type 0 where
  draws : (thread : ℕ) → users s + 1 < 2 ^ 16 → Step s (draw thread s)
  enters :
      (thread ticket : ℕ) (before after : List (ℕ × ℕ))
      → s.waiting ≡ before ++ (thread, ticket) ∷ after
      → is_called ticket s.lock ≡ true
      → Step s (enter thread (before ++ after) s)
  begins : (thread : ℕ) → Step s (begin_try thread s)
  looks :
      (a : Attempt) (before after : List Attempt)
      → s.trying ≡ before ++ a ∷ after
      → Step s (look a (before ++ after) s)
  attempts :
      (a : Attempt) (before after : List Attempt) (current : ℕ)
      → s.trying ≡ before ++ a ∷ after
      → a.seen ≡ some current
      → length s.drawn < a.number + 2 ^ 16
      → Step s (attempt a.thread a.ticket current (before ++ after) s)
  leaves :
      (thread : ℕ) (before after : List ℕ)
      → s.owners ≡ before ++ thread ∷ after
      → Step s (leave (before ++ after) s)

pub data Reach : State → Type 0 where
  start : Reach unused
  next : {s t : State} → Reach s → Step s t → Reach t

-- The tickets from a number on, one after the other.
abbrev Numbered : ℕ → List (ℕ × ℕ) → Type 0
Numbered from [] = Unit
Numbered from (w ∷ ws) = (w.1 ≡ from % 2 ^ 16) × Numbered (from + 1) ws

abbrev pub threads : List (ℕ × ℕ) → List ℕ
threads [] = []
threads (w ∷ ws) = w.0 ∷ threads ws

threads-append : (xs ys : List (ℕ × ℕ)) → threads (xs ++ ys) ≡ threads xs ++ threads ys
threads-append [] ys = refl
threads-append (x ∷ xs) ys = ap (λ ts. x.0 ∷ ts) (threads-append xs ys)

Numbered-append :
    (from : ℕ) (ws : List (ℕ × ℕ)) (w : ℕ × ℕ)
    → Numbered from ws
    → w.1 ≡ (from + length ws) % 2 ^ 16
    → Numbered from (ws ++ w ∷ [])
Numbered-append from [] w p e = (ground (arith, e), tt)
Numbered-append from (x ∷ ws) w (h, p) e =
    (h, Numbered-append (from + 1) ws w p (ground (arith, e)))

-- A ticket stands at its number.
Numbered-at :
    (from : ℕ) (before : List (ℕ × ℕ)) (w : ℕ × ℕ) (after : List (ℕ × ℕ))
    → Numbered from (before ++ w ∷ after)
    → w.1 ≡ (from + length before) % 2 ^ 16
Numbered-at from [] w after (h, p) = ground (arith, h)
Numbered-at from (x ∷ before) w after (h, p) =
    Numbered-at (from + 1) before w after p ∙ ground arith

-- `served` threads have left.
pub record Held (served : ℕ) (l : TicketSpinLock) (ws : List (ℕ × ℕ))
    (owners drawn granted : List ℕ) : Type 0 where
  pub now : l.current_ticket ≡ served % 2 ^ 16
  pub free : l.next_free_ticket ≡ (served + length owners + length ws) % 2 ^ 16
  pub one_owner : length owners ≤ 1
  pub few : length owners + length ws < 2 ^ 16
  pub numbered : Numbered (served + length owners) ws
  pub in_order : drawn ≡ granted ++ threads ws
  pub total : length drawn ≡ served + length owners + length ws

-- The current ticket that a call has read was called when so many threads had left and so many tickets had
-- been drawn.
abbrev Looked : ℕ → ℕ → ℕ → Option ℕ → Type 0
Looked served count number none = Unit
Looked served count number (some current) =
    (called : ℕ) × (then_drawn : ℕ) × (current ≡ called % 2 ^ 16)
    × (called ≤ served)
    × (then_drawn < called + 2 ^ 16)
    × (called ≤ then_drawn)
    × (number ≤ then_drawn)
    × (then_drawn ≤ count)

abbrev IsTrue : ℕ → ℕ → Attempt → Type 0
IsTrue served count a =
    (a.number ≤ count) × (a.ticket ≡ a.number % 2 ^ 16) × Looked served count a.number a.seen

abbrev AllTrue : ℕ → ℕ → List Attempt → Type 0
AllTrue served count [] = Unit
AllTrue served count (a ∷ xs) = IsTrue served count a × AllTrue served count xs

Looked-later :
    (served count served' count' number : ℕ) (o : Option ℕ)
    → served ≤ served'
    → count ≤ count'
    → Looked served count number o
    → Looked served' count' number o
Looked-later served count served' count' number none h k p = tt
Looked-later served count served' count' number (some current) h k
      (called, then_drawn, e, a, b, c, d, f) =
    (called, then_drawn, e, omega (arith, a, h), b, c, d, omega (arith, f, k))

AllTrue-later :
    (served count served' count' : ℕ) (xs : List Attempt)
    → served ≤ served'
    → count ≤ count'
    → AllTrue served count xs
    → AllTrue served' count' xs
AllTrue-later served count served' count' [] h k p = tt
AllTrue-later served count served' count' (a ∷ xs) h k ((n, t, l), p) = (
  (omega (arith, n, k), t, Looked-later served count served' count' a.number a.seen h k l),
  AllTrue-later served count served' count' xs h k p,
)

AllTrue-without :
    (served count : ℕ) (before : List Attempt) (a : Attempt) (after : List Attempt)
    → AllTrue served count (before ++ a ∷ after)
    → IsTrue served count a × AllTrue served count (before ++ after)
AllTrue-without served count [] a after (h, p) = (h, p)
AllTrue-without served count (b ∷ before) a after (h, p) =
    let (i, q) = AllTrue-without served count before a after p in (i, (h, q))

abbrev IsHeld : State → Type 0
IsHeld s =
    (served : ℕ) × Held served s.lock s.waiting s.owners s.drawn s.granted
    × AllTrue served (length s.drawn) s.trying

-- Only the number that is called has the ticket that is called.
called_first :
    (served ahead : ℕ) → ahead < 2 ^ 16 → served % 2 ^ 16 ≡ (served + ahead) % 2 ^ 16 → ahead ≡ 0
called_first served ahead h e = omega (arith, h, e)

module _ (served thread : ℕ) (l : TicketSpinLock) where
  draw-Held :
      (ws : List (ℕ × ℕ)) (os ds gs : List ℕ)
      → length os + length ws + 1 < 2 ^ 16
      → Held served l ws os ds gs
      → Held served
          (draw_ticket l).0
          (ws ++ (thread, (draw_ticket l).1) ∷ [])
          os
          (ds ++ thread ∷ [])
          gs
  unfolding draw_ticket
  draw-Held ws os ds gs room h = record {
    now = h.now;
    free = rw (length-append ws ((thread, l.next_free_ticket) ∷ [])) (omega (arith, h.free));
    one_owner = h.one_owner;
    few = rw (length-append ws ((thread, l.next_free_ticket) ∷ [])) (omega (arith, room));
    numbered =
        Numbered-append (served + length os) ws (thread, l.next_free_ticket) h.numbered h.free;
    in_order =
        ap (λ ts. ts ++ thread ∷ []) h.in_order
        ∙ append_assoc gs (threads ws) (thread ∷ [])
        ∙ ap (λ ts. gs ++ ts) (sym (threads-append ws ((thread, l.next_free_ticket) ∷ [])));
    total =
        rw (length-append ws ((thread, l.next_free_ticket) ∷ []), length-append ds (thread ∷ []))
          (omega (arith, h.total));
  }

  -- The first that waits enters.
  enter_first-Held :
      (ticket : ℕ) (after : List (ℕ × ℕ)) (ds gs : List ℕ)
      → Held served l ((thread, ticket) ∷ after) [] ds gs
      → Held served l after (thread ∷ []) ds (gs ++ thread ∷ [])
  enter_first-Held ticket after ds gs h = record {
    now = h.now;
    free = omega (arith, h.free);
    one_owner = omega arith;
    few = omega (arith, h.few);
    numbered = subst (λ n. Numbered n after) (omega arith) (h.numbered.1);
    in_order = h.in_order ∙ sym (append_assoc gs (thread ∷ []) (threads after));
    total = omega (arith, h.total);
  }

  only_first :
      (ticket : ℕ) (before after : List (ℕ × ℕ)) (os ds gs : List ℕ)
      → is_called ticket l ≡ true
      → Held served l (before ++ (thread, ticket) ∷ after) os ds gs
      → length os + length before ≡ 0
  unfolding is_called
  only_first ticket before after os ds gs called h =
      let at : ticket ≡ (served + length os + length before) % 2 ^ 16 =
        Numbered-at (served + length os) before (thread, ticket) after h.numbered in
      called_first served (length os + length before)
        (omega (arith, h.few, length-append before ((thread, ticket) ∷ after)))
        (sym h.now ∙ ground (arith, called) ∙ at ∙ omega arith)

  enter-Held :
      (ticket : ℕ) (before after : List (ℕ × ℕ)) (os ds gs : List ℕ)
      → is_called ticket l ≡ true
      → Held served l (before ++ (thread, ticket) ∷ after) os ds gs
      → Held served l (before ++ after) (thread ∷ os) ds (gs ++ thread ∷ [])
  enter-Held ticket [] after [] ds gs called h = enter_first-Held ticket after ds gs h
  enter-Held ticket [] after (o ∷ os) ds gs called h =
      absurd (omega (arith, only_first ticket [] after (o ∷ os) ds gs called h))
  enter-Held ticket (b ∷ before) after os ds gs called h =
      absurd (omega (arith, only_first ticket (b ∷ before) after os ds gs called h))

  take-Held :
      (ws : List (ℕ × ℕ)) (os ds gs : List ℕ)
      → length os + length ws ≡ 0
      → Held served l ws os ds gs
      → Held served
          (record l { next_free_ticket = (l.next_free_ticket + 1) % 2 ^ 16 })
          ws
          (thread ∷ os)
          (ds ++ thread ∷ [])
          (gs ++ thread ∷ [])
  take-Held [] [] ds gs e h = record {
    now = h.now;
    free = omega (arith, h.free);
    one_owner = omega arith;
    few = omega arith;
    numbered = tt;
    in_order =
        ap (λ ts. ts ++ thread ∷ []) (h.in_order ∙ append-nil gs)
        ∙ sym (append-nil (gs ++ thread ∷ []));
    total = rw (length-append ds (thread ∷ [])) (omega (arith, h.total));
  }
  take-Held [] (o ∷ os) ds gs e h = absurd (omega (arith, e))
  take-Held (w ∷ ws) os ds gs e h = absurd (omega (arith, e))

  attempt-Held :
      (number ticket current : ℕ) (ws : List (ℕ × ℕ)) (os ds gs : List ℕ)
      → number ≤ length ds
      → ticket ≡ number % 2 ^ 16
      → Looked served (length ds) number (some current)
      → length ds < number + 2 ^ 16
      → Held served l ws os ds gs
      → let (l', successful) = try_lock_after ticket current l in
        Held served l' ws
          (if successful then thread ∷ os else os)
          (if successful then ds ++ thread ∷ [] else ds)
          (if successful then gs ++ thread ∷ [] else gs)
  unfolding try_lock_after
  attempt-Held number ticket current ws os ds gs n t (called, then_drawn, e, a, b, c, d, f) recent
        h =
      elim (Bool-cases (current == ticket)) [
        | inr other ↦ rw other h
        | inl same ↦ elim (Bool-cases (l.next_free_ticket == ticket)) [
          | inr gone ↦ rw (same, gone) h
          | inl still ↦
              let first : called ≡ number =
                same_number called number then_drawn b c (omega (arith, recent, f)) d
                  (sym e ∙ ground (arith, same) ∙ t) in
              let last : length ds ≡ number =
                same_number (length ds) number (length ds) (omega arith) (omega arith) recent n
                  (ap (λ (k : ℕ). k % 2 ^ 16) h.total ∙ sym h.free ∙ ground (arith, still) ∙ t) in
              let next_ticket : ticket ≡ l.next_free_ticket = ground (arith, still) in
              rw (same, still, next_ticket)
                (take-Held ws os ds gs (omega (arith, first, last, a, h.total)) h)
        ]
      ]
    where
      same_number :
          (x y bound : ℕ)
          → bound < x + 2 ^ 16
          → x ≤ bound
          → bound < y + 2 ^ 16
          → y ≤ bound
          → x % 2 ^ 16 ≡ y % 2 ^ 16
          → x ≡ y
      same_number x y bound p q r s e = omega (arith, p, q, r, s, e)

  leave-Held :
      (ws : List (ℕ × ℕ)) (before after ds gs : List ℕ)
      → Held served l ws (before ++ thread ∷ after) ds gs
      → Held (served + 1) (unlock_ticket l) ws (before ++ after) ds gs
  unfolding unlock_ticket
  leave-Held ws [] [] ds gs h = record {
    now = omega (arith, h.now);
    free = omega (arith, h.free);
    one_owner = omega arith;
    few = omega (arith, h.few);
    numbered = subst (λ n. Numbered n ws) (omega arith) h.numbered;
    in_order = h.in_order;
    total = omega (arith, h.total);
  }
  leave-Held ws [] (o ∷ after) ds gs h = absurd (omega (arith, h.one_owner))
  leave-Held ws (b ∷ before) after ds gs h =
      absurd (omega (arith, h.one_owner, length-append before (thread ∷ after)))

Step-IsHeld : {s t : State} → Step s t → IsHeld s → IsHeld t
Step-IsHeld {s} (draws thread room) (served, h, p) = (
  served,
  draw-Held served thread s.lock s.waiting s.owners s.drawn s.granted room h,
  AllTrue-later served (length s.drawn) served (length (s.drawn ++ thread ∷ [])) s.trying
      (omega arith) (omega (arith, length-append s.drawn (thread ∷ []))) p,
)
Step-IsHeld {s} (enters thread ticket before after e called) (served, h, p) = (
  served,
  enter-Held served thread s.lock ticket before after s.owners s.drawn s.granted called
      (subst (λ ws. Held served s.lock ws s.owners s.drawn s.granted) e h),
  p,
)
Step-IsHeld {s} (begins thread) (served, h, p) =
    (served, h, ((omega arith, h.free ∙ ap (λ (k : ℕ). k % 2 ^ 16) (sym h.total), tt), p))
Step-IsHeld {s} (looks a before after e) (served, h, p) =
    let ((n, t, l), q) =
      AllTrue-without served (length s.drawn) before a after
        (subst (AllTrue served (length s.drawn)) e p) in
    (
      served,
      h,
      (
        (
          n,
          t,
          (
            served,
            length s.drawn,
            h.now,
            omega arith,
            omega (arith, h.total, h.few),
            omega (arith, h.total),
            n,
            omega arith,
          ),
        ),
        q,
      ),
    )
Step-IsHeld {s} (attempts a before after current e seen recent) (served, h, p) =
    let ((n, t, l), q) =
      AllTrue-without served (length s.drawn) before a after
        (subst (AllTrue served (length s.drawn)) e p) in
    (
      served,
      attempt-Held served a.thread s.lock a.number a.ticket current s.waiting s.owners s.drawn
          s.granted n t (subst (Looked served (length s.drawn) a.number) seen l) recent h,
      AllTrue-later served (length s.drawn) served
          (length (
            if (try_lock_after a.ticket current s.lock).1
            then s.drawn ++ a.thread ∷ []
            else s.drawn))
          (before ++ after) (omega arith)
          (longer (try_lock_after a.ticket current s.lock).1 s.drawn a.thread) q,
    )
  where
    longer :
        (b : Bool) (ds : List ℕ) (thread : ℕ)
        → length ds ≤ length (if b then ds ++ thread ∷ [] else ds)
    longer true ds thread = omega (arith, length-append ds (thread ∷ []))
    longer false ds thread = omega arith
Step-IsHeld {s} (leaves thread before after e) (served, h, p) = (
  served + 1,
  leave-Held served thread s.lock s.waiting before after s.drawn s.granted
      (subst (λ os. Held served s.lock s.waiting os s.drawn s.granted) e h),
  AllTrue-later served (length s.drawn) (served + 1) (length s.drawn) s.trying (omega arith)
      (omega arith) p,
)

Reach-IsHeld : {s : State} → Reach s → IsHeld s
Reach-IsHeld start = (
  0,
  record {
    now = refl;
    free = refl;
    one_owner = omega arith;
    few = omega arith;
    numbered = tt;
    in_order = refl;
    total = omega arith;
  },
  tt,
)
Reach-IsHeld (next r st) = Step-IsHeld st (Reach-IsHeld r)

-- How many of the threads that wait, the first or none, have the ticket that is called.
abbrev pub first_called : TicketSpinLock → List (ℕ × ℕ) → ℕ
first_called l [] = 0
first_called l (w ∷ ws) = if is_called w.1 l then 1 else 0

someone_next :
    (served : ℕ) (l : TicketSpinLock) (ws : List (ℕ × ℕ)) (os ds gs : List ℕ)
    → Held served l ws os ds gs
    → min 1 (length ws) ≤ length os + first_called l ws
unfolding is_called
someone_next served l [] os ds gs h = omega arith
someone_next served l (w ∷ ws) (o ∷ os) ds gs h = omega arith
someone_next served l (w ∷ ws) [] ds gs h = ground (arith, h.now, h.numbered.0)

-- Whatever the order of the steps of the threads, if fewer than 2 ^ 16 use the lock at a time and no call
-- of `tryLock` comes to its compare-exchange when 2 ^ 16 tickets have been drawn since it began:
-- at most one thread owns the lock; the threads get it in the order
-- in which they have drawn their tickets; and while nobody owns it, the ticket of the first thread that
-- waits is called, so that it can enter.
pub Reach-served :
    {s : State}
    → Reach s
    → (length s.owners ≤ 1)
      × (s.drawn ≡ s.granted ++ threads s.waiting)
      × (min 1 (length s.waiting) ≤ length s.owners + first_called s.lock s.waiting)
Reach-served {s} r =
    let (served, h, p) = Reach-IsHeld r in
    (h.one_owner, h.in_order, someone_next served s.lock s.waiting s.owners s.drawn s.granted h)
