-- ===== src/Multidimensional/Rows.antt =====
-- The rows of a region of several dimensions, and the bytes that they cover.
use native.Mathlib.Nat.{
  div-one, div-eq_of_lt, mod-eq_of_lt, add-div_right, add-mod_right, add-mul-div_right,
  add-mul-mod_self_right, div-lt_iff_lt-mul,
}
use nanos.Common.{
  ℕ, zero, suc, ◌+◌, ◌-◌, ◌*◌, ◌/◌, ◌%◌, ◌≤◌, ◌<◌, ◌≡◌, sym, ◌∙◌, ap, Bool, Bool-cases, true, ◌&&◌,
  List, [], ◌∷◌, ◌++◌, inl, inr, ltb, leb, if◌then◌else◌, arith,
}
use nanos.Region.{DataAccessRegion}
use nanos.Region.Fragments.{contains}
use nanos.Multidimensional.{
  Dimension, is_continuous, get_stride, skip_next, for_rows, register_data_access,
}
use nanos.Multidimensional.Coordinates.{
  AreOrdered, Fit, difference_lem, Fit-row, AreSized-skip_next, AreOrdered-skip_next, Fit-skip_next,
  inside, AreSized, stride_positive, inside-lt, inside-skip_next,
}

abbrev one : Bool → ℕ
one b = if b then 1 else 0

-- How many of the regions contain a byte.
abbrev pub covering : List DataAccessRegion → ℕ → ℕ
covering [] a = 0
covering (r ∷ rs) a = one (contains r a) + covering rs a

covering-append :
    (rs ss : List DataAccessRegion) (a : ℕ) → covering (rs ++ ss) a ≡ covering rs a + covering ss a
covering-append [] ss a = omega arith
covering-append (r ∷ rs) ss a = omega (arith, covering-append rs ss a)

-- The first of the rows, and those after it.
split_row :
    (stride count from a : ℕ) (in_row : ℕ → Bool)
    → 0 < stride
    → ((o : ℕ) → in_row o ≡ true → o < stride)
    → one (leb from a && in_row (a - from))
        + one (
            leb (from + stride) a
            && (ltb ((a - (from + stride)) / stride) count
                && in_row ((a - (from + stride)) % stride)))
      ≡ one (leb from a && (ltb ((a - from) / stride) (suc count) && in_row ((a - from) % stride)))
split_row stride count from a in_row z bounded = elim (Bool-cases (ltb (a - from) stride)) [
  | inl less ↦
      rw
        (
          div-eq_of_lt {n = a - from} {m = stride} (ground (arith, less)),
          mod-eq_of_lt {n = a - from} {m = stride} (ground (arith, less)),
        )
        (ground (arith, less))
  | inr not_less ↦
      let o : ℕ = a - (from + stride) in
      let same : a - from ≡ o + stride = ground (arith, not_less, z) in
      rw (same, add-div_right o z, add-mod_right o stride)
        (ground (arith, bounded (o + stride), not_less, same))
]

-- The rows from an index on are those of the indices in a range.
shift :
    (stride start end base a : ℕ) (in_row : ℕ → Bool)
    → 0 < stride
    → one (
        leb (base + start * stride) a
        && (ltb ((a - (base + start * stride)) / stride) (end - start)
            && in_row ((a - (base + start * stride)) % stride)))
      ≡ one (
          leb base a
          && ((leb start ((a - base) / stride) && ltb ((a - base) / stride) end)
              && in_row ((a - base) % stride)))
shift stride start end base a in_row z = elim (Bool-cases (leb (base + start * stride) a)) [
  | inl reached ↦
      let o : ℕ = a - (base + start * stride) in
      let same : a - base ≡ o + start * stride = ground (arith, reached) in
      rw (same, add-mul-div_right o start z, add-mul-mod_self_right o start stride)
        (ground (arith, reached))
  | inr before ↦
      let early : base ≤ a → (a - base) / stride < start = λ h.
        (div-lt_iff_lt-mul {k = stride} {x = a - base} {y = start} z).1
          (ground (arith, before, h)) in
      ground (arith, before, early)
]

module _ (ds : List Dimension) (row : ℕ → List DataAccessRegion) (a : ℕ) (z : 0 < get_stride ds)
    (bounded : (o : ℕ) → inside ds o ≡ true → o < get_stride ds)
    (row_covers : (b : ℕ) → covering (row b) a ≡ one (leb b a && inside ds (a - b))) where
  covering-for_rows :
      (count from : ℕ)
      → covering (for_rows count (get_stride ds) row from) a
        ≡ one (
            leb from a
            && (ltb ((a - from) / get_stride ds) count && inside ds ((a - from) % get_stride ds)))
  unfolding for_rows
  covering-for_rows zero from = ground arith
  covering-for_rows (suc count) from =
      covering-append (row from) (for_rows count (get_stride ds) row (from + get_stride ds)) a
      ∙ rw (row_covers from, covering-for_rows count (from + get_stride ds))
          (split_row (get_stride ds) count from a (inside ds) z bounded)

-- The regions that are registered for a region of several dimensions contain each of its bytes exactly
-- once, and no other byte, if each dimension has a size, lies within it and does not end before it
-- starts, and the array fits in the address space.
pub covering-register_data_access :
    (d : Dimension) (others : List Dimension) (base a : ℕ)
    → AreSized (d ∷ others)
    → AreOrdered (d ∷ others)
    → Fit (d ∷ others)
    → covering (register_data_access d others base) a
      ≡ (if leb base a && inside (d ∷ others) (a - base) then 1 else 0)
unfolding register_data_access get_stride
covering-register_data_access d [] base a (z, e, s) (o, p) f =
    rw (difference_lem d.end d.start o (omega (arith, e, f)), div-one (a - base))
      (ground (arith, o))
covering-register_data_access d (next ∷ others) base a (z, e, s) (o, p) f =
    elim (Bool-cases (is_continuous next)) [
      | inl joined ↦ rw joined (
          covering-register_data_access (skip_next d next) others base a
            (AreSized-skip_next d next others (z, e, s)) (AreOrdered-skip_next d next others (o, p))
            (Fit-skip_next d next others f)
          ∙ ap (λ i. one (leb base a && i))
              (sym (inside-skip_next d next others (a - base) joined s)))
      | inr apart ↦ rw apart (
          covering-for_rows (next ∷ others) (register_data_access next others) a
            (stride_positive (next ∷ others) s) (λ o. inside-lt next others o s)
            (λ b. covering-register_data_access next others b a s p (Fit-row d (next ∷ others) z f))
            (d.end - d.start) (base + d.start * get_stride (next ∷ others))
          ∙ shift (get_stride (next ∷ others)) d.start d.end base a (inside (next ∷ others))
              (stride_positive (next ∷ others) s))
    ]
