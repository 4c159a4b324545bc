-- ===== src/Discrete/Upgrade.antt =====
-- A task that accesses the same address twice: the upgrades of an access, in
-- src/dependencies/discrete/DataAccessImplementation.hpp, without the instrumentation but for the
-- one place where it reads through a pointer that may be null.
use nanos.Common.{Bool, true, false, ◌&&◌, ◌||◌, not, Option, none, some, ◌==◌, if◌then◌else◌}
use nanos.Discrete.Access.{
  Header, DataAccessType, read, readwrite, type_code, is_read, is_write, is_readwrite,
  is_concurrent, evaluate_satisfiability,
}

-- The access as it is left, what is pushed behind it, and the result of the call: false if the task
-- gets one more predecessor. The two failures end the program.
pub data Upgrade : Type 0 where
  upgraded : Header → Option Header → Bool → Upgrade
  fatal : Upgrade
  null_dereference : Upgrade

abbrev same_weakness : Bool → Bool → Bool
same_weakness true b = b
same_weakness false b = not b

unfoldable pub upgrade_same_type : Header → Bool → Upgrade
upgrade_same_type h new_weak =
    if same_weakness h.weak new_weak
    then upgraded h none true
    else upgraded (record h { weak = h.weak && new_weak }) none true

unfoldable pub upgrade_same_strength : Option Header → Header → DataAccessType → Upgrade
upgrade_same_strength previous h new_type =
    let satisfied = evaluate_satisfiability previous readwrite in
    if is_readwrite h.access_type
    then upgraded h none true
    else if is_write h.access_type
    then upgraded (record h { access_type = new_type }) none true
    else if h.satisfied
    then upgraded (record h { access_type = readwrite; satisfied = satisfied }) none satisfied
    else upgraded (record h { access_type = readwrite }) none true

-- The new access is weak, of the same task.
unfoldable pub upgrade_strong_with_weak : Header → DataAccessType → Upgrade
upgrade_strong_with_weak h new_type =
    let satisfied = evaluate_satisfiability (some h) new_type in
    if is_readwrite h.access_type
    then upgraded h none true
    else if is_write h.access_type
    then upgraded (record h { access_type = new_type }) none true
    else if is_read new_type
    then upgraded h none true
    else upgraded h
        (some (record {
          access_type = new_type;
          weak = true;
          satisfied = satisfied;
          originator = h.originator;
          reduction_info = 0;
        }))
        satisfied

-- The strong read takes the place of the weak access, which moves behind it. The source reports the
-- link from the effective previous access, which it does not test.
unfoldable pub upgrade_read_before_weak : Option Header → Header → Upgrade
upgrade_read_before_weak none h = null_dereference
upgrade_read_before_weak (some p) h =
    let satisfied = evaluate_satisfiability (some p) read in
    upgraded (record h { access_type = read; weak = false; satisfied = satisfied })
      (some (record {
        access_type = h.access_type;
        weak = true;
        satisfied = false;
        originator = h.originator;
        reduction_info = 0;
      }))
      satisfied

unfoldable pub upgrade_weak_with_strong : Option Header → Header → DataAccessType → Upgrade
unfolding upgrade_read_before_weak
upgrade_weak_with_strong previous h new_type =
    let satisfied = evaluate_satisfiability previous readwrite in
    if not (is_read new_type)
    then (if h.satisfied
        then upgraded (record h { access_type = readwrite; weak = false; satisfied = satisfied })
            none satisfied
        else upgraded (record h { access_type = readwrite; weak = false }) none true)
    else if is_read h.access_type
    then upgraded (record h { weak = false }) none h.satisfied
    else upgrade_read_before_weak previous h

-- `previous` is the effective previous access of `h`.
unfoldable pub upgrade_access : Option Header → Header → DataAccessType → Bool → Upgrade
unfolding upgrade_same_type upgrade_same_strength upgrade_strong_with_weak upgrade_weak_with_strong
upgrade_access previous h new_type new_weak =
    if is_concurrent h.access_type || is_concurrent new_type
    then fatal
    else if type_code h.access_type == type_code new_type
    then upgrade_same_type h new_weak
    else if same_weakness h.weak new_weak
    then upgrade_same_strength previous h new_type
    else if not h.weak
    then upgrade_strong_with_weak h new_type
    else upgrade_weak_with_strong previous h new_type
