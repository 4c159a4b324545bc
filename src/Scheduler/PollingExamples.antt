-- ===== src/Scheduler/PollingExamples.antt =====
-- Witnesses: CPU 1 polls, and task 6 is put in its slot.
use nanos.Common.{◌+◌, ◌≡◌, refl, Bool, false, none, some, List, [], ◌∷◌, count}
use nanos.Scheduler.{ReadyTask, host_device, no_hint, take_data, get_replacement_task, is_host}
use nanos.Scheduler.ImmediateSuccessor as Immediate
use nanos.Scheduler.Interface.{one, queued, kept, held, empty_scheduler}
use nanos.Scheduler.Polling.{
  PollingScheduler, get_task, set_task, unlocked_add, request_polling, locked_request, offer_slot,
  is_slot, leave_loop,
}
use nanos.Scheduler.Delivery.{
  System, advance, requested, polled, Reach, start, next, adds, delivers, requests, polls, initial,
}
use nanos.Scheduler.Delivered.{total, Reach-delivers, Reach-delivered, leave_loop-loses}

abbrev six : ReadyTask
six = record { id = 6; device_type = host_device; is_taskloop = false; priority = 0 }

abbrev two_cpus : List Bool
two_cpus = false ∷ false ∷ []

abbrev offering : System
offering = requested 1 (initial two_cpus)

abbrev on_its_way : System
on_its_way = advance six (unlocked_add six none no_hint offering.shared) offering

abbrev in_slot : System
in_slot = record on_its_way { shared = set_task 1 six on_its_way.shared; delivering = [] }

Reach-on_its_way : Reach two_cpus on_its_way
Reach-on_its_way = next (next start (requests 1 refl)) (adds six none no_hint)

on_its_way-delivering : on_its_way.delivering ≡ (1, six) ∷ []
unfolding unlocked_add request_polling locked_request offer_slot get_replacement_task take_data
    is_host Immediate.keeps
on_its_way-delivering = refl

in_slot-get_task : (get_task 1 in_slot.shared).1 ≡ some six
unfolding unlocked_add request_polling locked_request offer_slot get_replacement_task take_data
    is_host Immediate.keeps get_task set_task
in_slot-get_task = refl

Reach-delivers_example :
    ((get_task 1 (set_task 1 six on_its_way.shared)).1 ≡ some six)
    × (count 1 on_its_way.polling ≡ 1)
    × (is_slot 1 on_its_way.shared.polling_slot ≡ false)
Reach-delivers_example = Reach-delivers 1 six [] [] Reach-on_its_way on_its_way-delivering

Reach-polled : Reach two_cpus (polled 1 six in_slot)
Reach-polled =
    next (next Reach-on_its_way (delivers 1 six [] [] on_its_way-delivering))
      (polls 1 six in_slot-get_task)

Reach-delivered_example : queued 6 (polled 1 six in_slot).accepted ≡ total 6 (polled 1 six in_slot)
Reach-delivered_example = Reach-delivered 6 Reach-polled

abbrev filled : PollingScheduler
filled = record { scheduler = empty_scheduler two_cpus; polling_slot = none; slots = (1, six) ∷ [] }

leave_loop-loses_example :
    let (p', answer) = leave_loop false false 1 (some six) (get_task 1 filled).0 in
    (answer ≡ none)
    × (held 6 p'.scheduler + kept 6 p'.slots + one 6 six
        ≡ held 6 filled.scheduler + kept 6 filled.slots)
unfolding get_task take_data
leave_loop-loses_example = leave_loop-loses 1 6 six filled refl refl refl
