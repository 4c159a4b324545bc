-- ===== src/Region/Fragments.antt =====
-- `DataAccessRegion::processIntersectingFragments`: the pieces that two overlapping regions cut out of
-- one another, in the order of the calls of the processors.
use nanos.Common.{
  ℕ, ◌+◌, ◌<◌, ◌≡◌, Bool, true, false, not, ◌&&◌, min, max, ltb, leb, if◌then◌else◌, List, [], ◌∷◌,
  ◌++◌, arith,
}
use nanos.Region.{DataAccessRegion, from_bounds, end_address}
use nanos.Region.Bytes.{Fits}

pub data Processor : Type 0 where
  this_only intersecting other_only : Processor

-- A call of a processor with a region.
pub record Fragment : Type 0 where
  pub processor : Processor
  pub region : DataAccessRegion

unfoldable pub left_fragments : (first_start second_start intersection_start : ℕ) → List Fragment
left_fragments a b start =
    if ltb a start
    then record { processor = this_only; region = from_bounds a start } ∷ []
    else if ltb b start
    then record { processor = other_only; region = from_bounds b start } ∷ []
    else []

unfoldable pub right_fragments : (first_end second_end intersection_end : ℕ) → List Fragment
right_fragments a b end =
    if ltb end a
    then record { processor = this_only; region = from_bounds end a } ∷ []
    else if ltb end b
    then record { processor = other_only; region = from_bounds end b } ∷ []
    else []

unfoldable pub process_intersecting_fragments : DataAccessRegion → DataAccessRegion → List Fragment
unfolding end_address left_fragments right_fragments from_bounds
process_intersecting_fragments r s =
    let start = max r.start_address s.start_address in
    let end = min (end_address r) (end_address s) in
    record { processor = intersecting; region = from_bounds start end }
    ∷ (left_fragments r.start_address s.start_address start
        ++ right_fragments (end_address r) (end_address s) end)

abbrev pub contains : DataAccessRegion → ℕ → Bool
contains r a = leb r.start_address a && ltb a (r.start_address + r.length)

abbrev pub same : Processor → Processor → Bool
same this_only this_only = true
same intersecting intersecting = true
same other_only other_only = true
same _ _ = false

-- How often a processor is called with a region that has the byte at `a`.
abbrev pub hits : Processor → List Fragment → ℕ → ℕ
hits p [] a = 0
hits p (f ∷ fs) a = (if same p f.processor && contains f.region a then 1 else 0) + hits p fs a

-- How often each processor must see a byte.
abbrev pub wanted : Processor → DataAccessRegion → DataAccessRegion → ℕ → Bool
wanted this_only r s a = contains r a && not (contains s a)
wanted intersecting r s a = contains r a && contains s a
wanted other_only r s a = contains s a && not (contains r a)

module _ (r s : DataAccessRegion) (f : Fits r) (g : Fits s)
    (h : max r.start_address s.start_address < min (end_address r) (end_address s)) (a : ℕ) where
  sees_this :
      hits this_only (process_intersecting_fragments r s) a
      ≡ (if wanted this_only r s a then 1 else 0)
  unfolding process_intersecting_fragments
  sees_this = ground arith

  sees_both :
      hits intersecting (process_intersecting_fragments r s) a
      ≡ (if wanted intersecting r s a then 1 else 0)
  unfolding process_intersecting_fragments
  sees_both = ground arith

  sees_other :
      hits other_only (process_intersecting_fragments r s) a
      ≡ (if wanted other_only r s a then 1 else 0)
  unfolding process_intersecting_fragments
  sees_other = ground arith

-- Two overlapping regions are cut up exactly: the first processor sees every byte of the first region
-- alone once, the second every byte of both once, the third every byte of the second alone once, and
-- none sees any other byte.
pub hits-process_intersecting_fragments :
    (p : Processor) (r s : DataAccessRegion)
    → Fits r
    → Fits s
    → max r.start_address s.start_address < min (end_address r) (end_address s)
    → (a : ℕ) → hits p (process_intersecting_fragments r s) a ≡ (if wanted p r s a then 1 else 0)
hits-process_intersecting_fragments this_only r s f g h a = sees_this r s f g h a
hits-process_intersecting_fragments intersecting r s f g h a = sees_both r s f g h a
hits-process_intersecting_fragments other_only r s f g h a = sees_other r s f g h a
