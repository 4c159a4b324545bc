-- ===== src/Multidimensional/Coordinates.antt =====
-- The bytes of a region of several dimensions, by the coordinates of each byte.
use native.Mathlib.Nat.{
  div-div-eq-div-mul, mod-mod_of_dvd, le-div_iff_mul-le, div-lt_iff_lt-mul, mod-lt, mul_comm,
  mul_assoc, dvd-mul_left,
}
use nanos.Common.{
  ℕ, ◌*◌, ◌/◌, ◌%◌, ◌≤◌, ◌^◌, ◌-◌, ◌<◌, ◌≡◌, sym, ◌∙◌, ap, Bool, true, ◌&&◌, List, [], ◌∷◌, ltb,
  leb, arith,
}
use nanos.Multidimensional.{difference, Dimension, is_continuous, get_stride, skip_next}

-- A byte at an offset from the base is in the region, if each of its coordinates is in the range
-- of its dimension. What lies between two bytes with consecutive coordinates is the stride.
abbrev pub inside : List Dimension → ℕ → Bool
inside [] offset = true
inside (d ∷ others) offset =
    (leb d.start (offset / get_stride others) && ltb (offset / get_stride others) d.end)
    && inside others (offset % get_stride others)

-- The dimensions have a size and end within it.
abbrev pub AreSized : List Dimension → Type 0
AreSized [] = Unit
AreSized (d ∷ others) = (0 < d.size) × (d.end ≤ d.size) × AreSized others

-- No dimension ends before it starts.
abbrev pub AreOrdered : List Dimension → Type 0
AreOrdered [] = Unit
AreOrdered (d ∷ others) = (d.start ≤ d.end) × AreOrdered others

-- The array fits in the address space.
abbrev pub Fit : List Dimension → Type 0
Fit ds = get_stride ds < 2 ^ 64

pub difference_lem :
    (end start : ℕ) → start ≤ end → end < 2 ^ 64 → difference end start ≡ end - start
unfolding difference
difference_lem end start h f = omega (arith, h, f)

pub times_mono : (a b n : ℕ) → a ≤ b → a * n ≤ b * n
times_mono a b n h = grind arith

pub stride_positive : (ds : List Dimension) → AreSized ds → 0 < get_stride ds
unfolding get_stride
stride_positive [] s = omega arith
stride_positive (d ∷ others) (z, e, s) = grind (arith, stride_positive others s)

pub Fit-row : (d : Dimension) (others : List Dimension) → 0 < d.size → Fit (d ∷ others) → Fit others
unfolding get_stride
Fit-row d others z f = omega (arith, times_mono 1 d.size (get_stride others) z, f)

pub end-Fit :
    (d : Dimension) (others : List Dimension)
    → AreSized (d ∷ others)
    → Fit (d ∷ others)
    → d.end < 2 ^ 64
unfolding get_stride
end-Fit d others (z, e, s) f = omega (
  arith,
  times_mono 1 (get_stride others) d.size (stride_positive others s),
  mul_comm d.size (get_stride others),
  e,
  f,
)

pub AreSized-skip_next :
    (d next : Dimension) (others : List Dimension)
    → AreSized (d ∷ next ∷ others)
    → AreSized (skip_next d next ∷ others)
unfolding skip_next
AreSized-skip_next d next others (z, e, (z', e', s)) =
    (grind arith, times_mono d.end d.size next.size e, s)

pub AreOrdered-skip_next :
    (d next : Dimension) (others : List Dimension)
    → AreOrdered (d ∷ next ∷ others)
    → AreOrdered (skip_next d next ∷ others)
unfolding skip_next
AreOrdered-skip_next d next others (o, (o', p)) = (times_mono d.start d.end next.size o, p)

pub Fit-skip_next :
    (d next : Dimension) (others : List Dimension)
    → Fit (d ∷ next ∷ others)
    → Fit (skip_next d next ∷ others)
unfolding skip_next get_stride
Fit-skip_next d next others f = rw (mul_assoc d.size next.size (get_stride others)) f

-- A byte that is inside lies before the next one with the same inner coordinates.
pub inside-lt :
    (d : Dimension) (others : List Dimension) (offset : ℕ)
    → AreSized (d ∷ others)
    → inside (d ∷ others) offset ≡ true
    → offset < get_stride (d ∷ others)
unfolding get_stride
inside-lt d others offset (z, e, s) i =
    (div-lt_iff_lt-mul {k = get_stride others} {x = offset} {y = d.size}
        (stride_positive others s)).0
      (omega (
        arith,
        in_range d.start (offset / get_stride others) d.end
            (inside others (offset % get_stride others)) i,
        e,
      ))
  where
    in_range : (start i end : ℕ) (rest : Bool) → (leb start i && ltb i end) && rest ≡ true → i < end
    in_range start i end rest h = ground (arith, h)

-- A continuous dimension can be joined with the one around it.
pub inside-skip_next :
    (d next : Dimension) (others : List Dimension) (offset : ℕ)
    → is_continuous next ≡ true
    → AreSized (next ∷ others)
    → inside (d ∷ next ∷ others) offset ≡ inside (skip_next d next ∷ others) offset
unfolding is_continuous skip_next get_stride
inside-skip_next d next others offset c (z, e, s) =
    let outer : offset / (next.size * get_stride others) ≡ offset / get_stride others / next.size =
      ap (λ (k : ℕ). offset / k) (mul_comm next.size (get_stride others))
      ∙ sym (div-div-eq-div-mul offset (get_stride others) next.size) in
    let inner : offset % (next.size * get_stride others) % get_stride others
        ≡ offset % get_stride others =
      mod-mod_of_dvd (get_stride others) offset (dvd-mul_left (get_stride others) next.size) in
    let below : offset % (next.size * get_stride others) / get_stride others < next.size =
      (div-lt_iff_lt-mul {k = get_stride others} (stride_positive others s)).1
        (mod-lt offset (grind (arith, stride_positive others s))) in
    let lower =
      le-div_iff_mul-le {k = next.size} {x = d.start} {y = offset / get_stride others} z in
    let upper = div-lt_iff_lt-mul {k = next.size} {x = offset / get_stride others} {y = d.end} z in
    rw (outer, inner) (ground (arith, c, below, lower.0, lower.1, upper.0, upper.1))
