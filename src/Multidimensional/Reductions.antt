-- ===== src/Multidimensional/Reductions.antt =====
-- The calls that register a reduction over a region of several dimensions.
use nanos.Common.{
  ℕ, zero, suc, ◌+◌, ◌-◌, ◌*◌, ◌≡◌, refl, sym, ◌∙◌, Bool-cases, List, [], ◌∷◌, ◌++◌, inl, inr,
  length, length-append, arith,
}
use nanos.Multidimensional.{
  Dimension, is_continuous, get_stride, skip_next, for_rows, register_data_access,
  register_reduction_access,
}

-- All of the calls are for one address.
abbrev pub AllAt : ℕ → List (ℕ × Dimension) → Type 0
AllAt address [] = Unit
AllAt address (c ∷ cs) = (c.0 ≡ address) × AllAt address cs

AllAt-append :
    (address : ℕ) (xs ys : List (ℕ × Dimension))
    → AllAt address xs
    → AllAt address ys
    → AllAt address (xs ++ ys)
AllAt-append address [] ys p q = q
AllAt-append address (x ∷ xs) ys (e, p) q = (e, AllAt-append address xs ys p q)

AllAt-for_rows :
    (address stride : ℕ) (row : List (ℕ × Dimension))
    → AllAt address row
    → (count from : ℕ) → AllAt address (for_rows count stride (λ current. row) from)
unfolding for_rows
AllAt-for_rows address stride row p zero from = tt
AllAt-for_rows address stride row p (suc count) from =
    AllAt-append address row (for_rows count stride (λ current. row) (from + stride)) p
      (AllAt-for_rows address stride row p count (from + stride))

length-for_rows {ℓ} :
    {R : Type ℓ} (stride n : ℕ) (row : ℕ → List R)
    → ((b : ℕ) → length (row b) ≡ n)
    → (count from : ℕ) → length (for_rows count stride row from) ≡ count * n
unfolding for_rows
length-for_rows stride n row same zero from = omega arith
length-for_rows stride n row same (suc count) from =
    length-append (row from) (for_rows count stride row (from + stride))
    ∙ rw (same from, length-for_rows stride n row same count (from + stride)) (grind arith)

AllAt-register :
    (d : Dimension) (others : List Dimension) (base : ℕ)
    → AllAt base (register_reduction_access d others base)
unfolding register_reduction_access
AllAt-register d [] base = (refl, tt)
AllAt-register d (next ∷ others) base = elim (Bool-cases (is_continuous next)) [
  | inl joined ↦ rw joined (AllAt-register (skip_next d next) others base)
  | inr apart ↦ rw apart (
      AllAt-for_rows base (get_stride (next ∷ others)) (register_reduction_access next others base)
        (AllAt-register next others base) (d.end - d.start)
        (base + d.start * get_stride (next ∷ others)))
]

length-register :
    (d : Dimension) (others : List Dimension) (base from : ℕ)
    → length (register_reduction_access d others base) ≡ length (register_data_access d others from)
unfolding register_reduction_access register_data_access
length-register d [] base from = refl
length-register d (next ∷ others) base from =
    let stride = get_stride (next ∷ others) in
    elim (Bool-cases (is_continuous next)) [
      | inl joined ↦ rw joined (length-register (skip_next d next) others base from)
      | inr apart ↦ rw apart (
          length-for_rows stride (length (register_reduction_access next others base))
            (λ current. register_reduction_access next others base) (λ b. refl) (d.end - d.start)
            (base + d.start * stride)
          ∙ sym (
              length-for_rows stride (length (register_reduction_access next others base))
                (register_data_access next others) (λ b. sym (length-register next others base b))
                (d.end - d.start) (from + d.start * stride)))
    ]

-- A reduction over a region of several dimensions makes as many calls as any other access registers
-- regions, but all of them with the address of the array itself, whichever row they are for.
pub register_reduction_access-AllAt :
    (d : Dimension) (others : List Dimension) (base_address : ℕ)
    → (length (register_reduction_access d others base_address)
        ≡ length (register_data_access d others base_address))
      × AllAt base_address (register_reduction_access d others base_address)
register_reduction_access-AllAt d others base =
    (length-register d others base base, AllAt-register d others base)
