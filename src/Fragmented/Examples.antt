-- ===== src/Fragmented/Examples.antt =====
-- Witnesses: task 1 writes the region and task 2 reads it; task 1 completes its access, and what that
-- sends to task 2 is processed.
use nanos.Common.{ℕ, ◌≡◌, ◌⊎◌, refl, true, false, ◌&&◌, not, none, [], ◌∷◌, ◌++◌}
use nanos.AccessType.{write, read, reduction, is_read, is_concurrent, is_reduction}
use nanos.Fragmented.Access.{satisfied, access_type}
use nanos.Fragmented.Effects.{closes_previous_reduction, enforces_dependency}
use nanos.Fragmented.Changes.{
  UpdateOperation, next_operations, fragment_operations, propagate_to_next,
}
use nanos.Fragmented.Update.{finalize_access, apply_update_operation_on_access}
use nanos.Fragmented.Sent.{reading, writing, sharing, has, carried, number}
use nanos.Fragmented.Chain.{
  Declaration, Node, Reach, start, next, register_next, finalize, process, later, register_first,
  register_after, changed,
}
use nanos.Fragmented.Safety.{Reach-Separated, Reach-combined, Reach-once}
use nanos.Fragmented.Quiet.{all_let_pass, Reach-status}
use nanos.Fragmented.Ready.{Reach-ready}

-- All tasks are children of task 0.
abbrev parent : ℕ → ℕ
parent t = 0

abbrev writer : Declaration
writer = record {
  type = write;
  weak = false;
  task = 1;
  index = 9;
  no_cpus = false ∷ [];
  wait_flag = false;
  address = 0;
}

abbrev reader : Declaration
reader = record writer { type = read; task = 2 }

abbrev first : Node
first = register_first parent writer

abbrev written : Node
written = (register_after parent reader first).0

abbrev waiting : Node
waiting = (register_after parent reader first).1

abbrev finished : Node
finished = changed parent (finalize_access parent written.access written.owner) written

-- The reader, before its delayed operations are processed.
abbrev told : Node
told = record waiting {
  incoming = waiting.incoming ++ (finalize_access parent written.access written.owner).to_next;
}

Reach-told : Reach parent (finished ∷ told ∷ [])
Reach-told =
    next (next (start writer) (register_next reader first)) (finalize written (waiting ∷ []))

abbrev operation : UpdateOperation
operation = record {
  target = record { task = 2; object_type = access_type };
  make_read_satisfied = true;
  make_write_satisfied = true;
  make_concurrent_satisfied = true;
  make_topmost = true;
  make_top_level = false;
  set_reduction_info = true;
  reduction_info = none;
  reduction_cpu_set = [];
}

-- What the link has sent.
abbrev at_link : UpdateOperation
at_link = record operation {
  make_read_satisfied = false;
  make_write_satisfied = false;
  make_concurrent_satisfied = false;
  make_topmost = false;
  make_top_level = true;
  set_reduction_info = false;
}

test_told : told.incoming ≡ at_link ∷ operation ∷ []
unfolding finalize_access register_first register_after next_operations fragment_operations
    propagate_to_next
test_told = refl

abbrev processed : Node
processed =
    record (changed parent
      (apply_update_operation_on_access parent operation told.access told.owner) told) {
        incoming = at_link ∷ [];
      }

Reach-processed : Reach parent (finished ∷ processed ∷ [])
Reach-processed =
    next Reach-told (later finished (process told [] operation (at_link ∷ []) [] test_told))

abbrev quiet : Node
quiet =
    record (changed parent
      (apply_update_operation_on_access parent at_link processed.access processed.owner)
      processed) { incoming = [] }

Reach-quiet : Reach parent (finished ∷ quiet ∷ [])
Reach-quiet = next Reach-processed (later finished (process processed [] at_link [] [] refl))

processed-satisfied : satisfied processed.access ≡ true
unfolding finalize_access register_first register_after next_operations fragment_operations
    propagate_to_next satisfied apply_update_operation_on_access
processed-satisfied = refl

processed-reads : is_reduction processed.access.type ≡ false
unfolding finalize_access register_first register_after next_operations fragment_operations
    propagate_to_next apply_update_operation_on_access
processed-reads = refl

finished-quiet : finished.incoming ≡ []
unfolding register_first register_after
finished-quiet = refl

Reach-Separated_example :
    (finished.access.complete ≡ true)
    ⊎ ((is_read finished.access.type ≡ true) × (is_read processed.access.type ≡ true))
    ⊎ ((is_concurrent finished.access.type ≡ true) × (is_concurrent processed.access.type ≡ true))
Reach-Separated_example =
    Reach-Separated parent Reach-processed [] [] [] finished processed refl processed-satisfied
      processed-reads

Reach-once_example : (has reading told.access ≡ false) × (carried reading (at_link ∷ []) ≡ 0)
Reach-once_example =
    Reach-once parent Reach-told (finished ∷ []) [] told (at_link ∷ []) [] operation reading refl
      test_told refl

Reach-status_example :
    (quiet.access.read_satisfied ≡ all_let_pass reading (finished ∷ []))
    × (quiet.access.write_satisfied ≡ all_let_pass writing (finished ∷ []))
    × (quiet.access.concurrent_satisfied ≡ all_let_pass sharing (finished ∷ []))
Reach-status_example =
    Reach-status parent Reach-quiet (finished ∷ []) [] quiet refl (finished-quiet, (refl, tt))

Reach-ready_example :
    processed.owner.ready
    ≡ number (not processed.registering && not (enforces_dependency processed.access))
Reach-ready_example = Reach-ready parent Reach-processed (finished ∷ []) [] processed refl

-- Task 1 adds to the region in a reduction, and task 2 reads the sum.
abbrev adder : Declaration
adder = record writer { type = reduction; address = 5 }

abbrev adding : Node
adding = register_first parent adder

abbrev added : Node
added = (register_after parent reader adding).0

abbrev summing : Node
summing = (register_after parent reader adding).1

abbrev added_up : Node
added_up = changed parent (finalize_access parent added.access added.owner) added

abbrev asked : Node
asked = record summing {
  incoming = summing.incoming ++ (finalize_access parent added.access added.owner).to_next;
}

abbrev news : UpdateOperation
news = record at_link { set_reduction_info = true; reduction_info = adding.access.reduction_info }

abbrev result : UpdateOperation
result = record operation { set_reduction_info = false; reduction_cpu_set = false ∷ [] }

test_asked : asked.incoming ≡ news ∷ result ∷ []
unfolding finalize_access register_first register_after next_operations fragment_operations
    propagate_to_next
test_asked = refl

abbrev informed : Node
informed =
    record (changed parent (apply_update_operation_on_access parent news asked.access asked.owner)
      asked) { incoming = result ∷ [] }

abbrev combining : Node
combining =
    record (changed parent
      (apply_update_operation_on_access parent result informed.access informed.owner) informed) {
        incoming = [];
      }

Reach-combining : Reach parent (added_up ∷ combining ∷ [])
Reach-combining =
    next
      (next
        (next (next (start adder) (register_next reader adding)) (finalize added (summing ∷ [])))
        (later added_up (process asked [] news [] (result ∷ []) test_asked)))
      (later added_up (process informed [] result [] [] refl))

combining-closes : closes_previous_reduction combining.access ≡ true
unfolding finalize_access register_first register_after next_operations fragment_operations
    propagate_to_next apply_update_operation_on_access closes_previous_reduction
combining-closes = refl

Reach-combined_example : added_up.access.complete ≡ true
Reach-combined_example =
    Reach-combined parent Reach-combining [] [] [] added_up combining refl combining-closes
