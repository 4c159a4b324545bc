-- ===== src/Fragmented/Sent.antt =====
-- What an access without subaccesses sends to the next one, for each kind of satisfiability.
use nanos.Common.{
  ℕ, ◌+◌, ◌≡◌, Bool, true, false, ◌&&◌, ◌||◌, not, List, [], ◌∷◌, if◌then◌else◌, arith,
}
use nanos.AccessType.{is_read, is_concurrent}
use nanos.Fragmented.Access.{DataAccess, has_next, is_access}
use nanos.Fragmented.Effects.{Propagation, propagation_to_next, has_reduction_info, writes}
use nanos.Fragmented.Changes.{UpdateOperation}

-- Read, write and concurrent satisfiability, and the news about an earlier reduction.
pub data Kind : Type 0 where
  reading writing sharing reducing : Kind

abbrev pub has : Kind → DataAccess → Bool
has reading a = a.read_satisfied
has writing a = a.write_satisfied
has sharing a = a.concurrent_satisfied
has reducing a = a.received_reduction_info

abbrev pub carries : Kind → UpdateOperation → Bool
carries reading u = u.make_read_satisfied
carries writing u = u.make_write_satisfied
carries sharing u = u.make_concurrent_satisfied
carries reducing u = u.set_reduction_info

-- How many operations carry it.
abbrev pub carried : Kind → List UpdateOperation → ℕ
carried k [] = 0
carried k (u ∷ us) = (if carries k u then 1 else 0) + carried k us

abbrev pub number : Bool → ℕ
number b = if b then 1 else 0

-- A registered access without subaccesses, whose propagation is not inhibited.
pub record IsPlain (a : DataAccess) : Type 0 where
  pub of_task : is_access a.object_type ≡ true
  pub is_registered : a.registered ≡ true
  pub undivided : a.has_subaccesses ≡ false
  pub reads_pass : a.read_satisfiability_propagation_inhibited ≡ false
  pub sharing_passes : a.concurrent_satisfiability_propagation_inhibited ≡ false
  pub reductions_pass : a.reduction_info_propagation_inhibited ≡ false

-- What such an access sends once it has a next.
abbrev pub sends : Kind → DataAccess → Bool
sends reading a = a.read_satisfied && (is_read a.type || a.complete)
sends writing a = a.write_satisfied && a.complete
sends sharing a = a.concurrent_satisfied && (is_concurrent a.type || a.complete)
sends reducing a = has_reduction_info a && (not (writes a) || a.complete)

abbrev pub propagates : Kind → Propagation → Bool
propagates reading p = p.read_satisfiability
propagates writing p = p.write_satisfiability
propagates sharing p = p.concurrent_satisfiability
propagates reducing p = p.reduction_info

pub propagates-propagation_to_next :
    (k : Kind) (a : DataAccess)
    → IsPlain a
    → propagates k (propagation_to_next a) ≡ has_next a && sends k a
unfolding propagation_to_next
propagates-propagation_to_next reading a p = ground arith
propagates-propagation_to_next writing a p = ground arith
propagates-propagation_to_next sharing a p = ground arith
propagates-propagation_to_next reducing a p = ground arith
