-- ===== src/Task/Lifecycle/Kept.antt =====
-- Every step keeps the invariant.
use nanos.Common.{ℕ, ◌+◌, ◌≡◌, refl, sym, ap, Bool, false, arith, subst, List, [], ◌∷◌, ◌++◌}
use nanos.Task.Lifecycle.{
  Task, new_task, increase_removal_blocking_count, increase_release_count, Turn, take_turn,
  decrease_events, child_deleted, does_not_need_to_block,
}
use nanos.Task.Lifecycle.History.{
  State, Body, running, checked, unblocking, Step, create_child, add_events, fulfil_events, checks,
  blocks, resumes, unblocks, delete_child, end_body, goes_on, Reach, start, next,
}
use nanos.Task.Lifecycle.Invariant.{Busy, Held, Inv, deleted-Held, fulfilled-Held}
use nanos.Task.Lifecycle.Turns.{
  create-Held, add-Held, check-Held, block-Held, resume-Held, unblock-Held, finish-Held, turn-Held,
}

-- At most one thread goes on.
only_one :
    (b : Body) (before : List Turn) (t : Turn) (after : List Turn) (k : Task) (d : Bool)
    (c e r x : ℕ) (q : Bool)
    → Held b (before ++ t ∷ after) k d c e r x q
    → (before ++ after ≡ []) × Busy b t k d c e r x q
only_one b [] t [] k d c e r x q h = (refl, h)
only_one b [] t (u ∷ after) k d c e r x q h = absurd h
only_one b (u ∷ []) t after k d c e r x q h = absurd h
only_one b (u ∷ v ∷ before) t after k d c e r x q h = absurd h

add_nothing : (n : ℕ) → n + 0 ≡ n
add_nothing n = omega arith

append_nothing : (xs : List Turn) → xs ++ [] ≡ xs
append_nothing [] = refl
append_nothing (t ∷ xs) = ap (λ ys. t ∷ ys) (append_nothing xs)

-- The step that follows a countdown by another thread changes nothing else.
keeps_rest :
    (n : ℕ) (k : Task)
    → ((decrease_events n k).released ≡ 0)
      × ((decrease_events n k).disposed ≡ false)
      × ((decrease_events n k).woken ≡ false)
unfolding decrease_events
keeps_rest n k = ground arith

at_body :
    (s : State) (b : Body)
    → s.body ≡ b
    → Inv s
    → Held b s.turns s.task s.delayed s.children s.events s.released s.disposed s.queued
at_body s b e v =
    subst (λ b. Held b s.turns s.task s.delayed s.children s.events s.released s.disposed s.queued)
      e v.held

pub Step-Inv : {s t : State} → Step s t → Inv s → Inv t
unfolding child_deleted take_turn
Step-Inv {s} (create_child e z) v = record {
  few_children = omega (arith, z);
  few_events = v.few_events;
  held =
      subst
        (λ b.
          Held b s.turns (increase_removal_blocking_count s.task) s.delayed (s.children + 1)
            s.events s.released s.disposed s.queued)
        (sym e)
        (create-Held s.task s.delayed s.children s.events s.released s.disposed s.queued
          v.few_children v.few_events s.turns z (at_body s running e v));
}
Step-Inv {s} (add_events n e z) v = record {
  few_children = v.few_children;
  few_events = omega (arith, z);
  held =
      subst
        (λ b.
          Held b s.turns (increase_release_count n s.task) s.delayed s.children (s.events + n)
            s.released s.disposed s.queued)
        (sym e)
        (add-Held s.task s.delayed s.children s.events s.released s.disposed s.queued v.few_children
          v.few_events n s.turns z (at_body s running e v));
}
Step-Inv {s} (fulfil_events n z) v =
    let (e1, e2, e3) = keeps_rest n s.task in
    record {
      few_children = v.few_children;
      few_events = omega (arith, v.few_events);
      held =
          rw (e1, e2, e3, add_nothing s.released)
            (fulfilled-Held s.task s.delayed s.children s.events s.released s.disposed s.queued
              v.few_children v.few_events n s.body s.turns z v.held);
    }
Step-Inv {s} (checks e) v = record {
  few_children = v.few_children;
  few_events = v.few_events;
  held =
      check-Held s.task s.delayed s.children s.events s.released s.disposed s.queued v.few_children
        v.few_events (does_not_need_to_block s.task) s.turns (at_body s running e v);
}
Step-Inv {s} (blocks e) v = record {
  few_children = v.few_children;
  few_events = v.few_events;
  held =
      block-Held s.task s.delayed s.children s.events s.released s.disposed s.queued v.few_children
        v.few_events s.turns (at_body s checked e v);
}
Step-Inv {s} (resumes e) v = record {
  few_children = v.few_children;
  few_events = v.few_events;
  held =
      resume-Held s.task s.delayed s.children s.events s.released s.disposed s.queued v.few_children
        v.few_events s.body s.turns e v.held;
}
Step-Inv {s} (unblocks e) v = record {
  few_children = v.few_children;
  few_events = v.few_events;
  held =
      unblock-Held s.task s.delayed s.children s.events s.released s.disposed s.queued
        v.few_children v.few_events s.turns (at_body s unblocking e v);
}
Step-Inv {s} (delete_child z) v = record {
  few_children = omega (arith, v.few_children);
  few_events = v.few_events;
  held = rw (add_nothing s.released) (
      deleted-Held s.task s.delayed s.children s.events s.released s.disposed s.queued
        v.few_children v.few_events s.body s.turns z v.held);
}
Step-Inv {s} (end_body e) v = record {
  few_children = v.few_children;
  few_events = v.few_events;
  held =
      finish-Held s.task s.delayed s.children s.events s.released s.disposed s.queued v.few_children
        v.few_events s.turns (at_body s running e v);
}
Step-Inv {s} (goes_on t before after e) v =
    let (none_left, h) =
      only_one s.body before t after s.task s.delayed s.children s.events s.released s.disposed
        s.queued
        (subst
          (λ ts. Held s.body ts s.task s.delayed s.children s.events s.released s.disposed s.queued)
          e v.held) in
    record {
      few_children = v.few_children;
      few_events = v.few_events;
      held =
          rw (none_left, append_nothing (take_turn t s.task).next_turn)
            (turn-Held s.task s.delayed s.children s.events s.released s.disposed s.queued
              v.few_children v.few_events s.body t h);
    }

pub Reach-Inv : {delayed : Bool} {s : State} → Reach delayed s → Inv s
unfolding new_task
Reach-Inv {delayed} start = record {
  few_children = omega arith;
  few_events = omega arith;
  held = ground arith;
}
Reach-Inv (next r st) = Step-Inv st (Reach-Inv r)
