-- ===== src/RegionMap/Pieces.antt =====
-- What `fragmentByIntersection` makes of one node.
use nanos.Common.{
  ℕ, ◌≤◌, ◌<◌, ◌≡◌, refl, ◌∙◌, ap, Bool, Bool-cases, true, false, List, [], ◌∷◌, ◌++◌, ◌==◌, inl,
  inr, ltb, min, max, if◌then◌else◌, arith,
}
use nanos.Region.{DataAccessRegion, from_bounds, end_address}
use nanos.Region.Fragments.{
  Fragment, this_only, intersecting, other_only, process_intersecting_fragments, left_fragments,
  right_fragments,
}
use nanos.RegionMap.{
  Node, start_of, insert, erase, set_access_region, duplicate, fragment_steps,
  fragment_by_intersection,
}

left_fragments-this :
    (a b : ℕ)
    → ltb a b ≡ true
    → left_fragments a b (max a b) ≡ record { processor = this_only; region = from_bounds a b } ∷ []
unfolding left_fragments
left_fragments-this a b h = let e : max a b ≡ b = ground (arith, h) in rw (e, h) refl

left_fragments-other :
    (a b : ℕ)
    → ltb a b ≡ false
    → left_fragments a b (max a b)
      ≡ (if ltb b a then record { processor = other_only; region = from_bounds b a } ∷ [] else [])
unfolding left_fragments
left_fragments-other a b h =
    let e : max a b ≡ a = ground (arith, h) in
    let same : ltb a a ≡ false = ground arith in rw (e, same) refl

right_fragments-this :
    (a b : ℕ)
    → ltb b a ≡ true
    → right_fragments a b (min a b)
      ≡ record { processor = this_only; region = from_bounds b a } ∷ []
unfolding right_fragments
right_fragments-this a b h = let e : min a b ≡ b = ground (arith, h) in rw (e, h) refl

right_fragments-other :
    (a b : ℕ)
    → ltb b a ≡ false
    → right_fragments a b (min a b)
      ≡ (if ltb a b then record { processor = other_only; region = from_bounds a b } ∷ [] else [])
unfolding right_fragments
right_fragments-other a b h =
    let e : min a b ≡ a = ground (arith, h) in
    let same : ltb a a ≡ false = ground arith in rw (e, same) refl

module _ {A : Type 0} where
  abbrev pub AllBelow : ℕ → List (Node A) → Type 0
  AllBelow key [] = Unit
  AllBelow key (n ∷ rest) = (start_of n < key) × AllBelow key rest

  abbrev pub AllAfter : ℕ → List (Node A) → Type 0
  AllAfter key [] = Unit
  AllAfter key (n ∷ rest) = (key < start_of n) × AllAfter key rest

  pub AllBelow-weaken :
      (key higher : ℕ) (nodes : List (Node A))
      → key ≤ higher
      → AllBelow key nodes
      → AllBelow higher nodes
  AllBelow-weaken key higher [] h b = tt
  AllBelow-weaken key higher (n ∷ rest) h (l, b) =
      (omega (arith, h, l), AllBelow-weaken key higher rest h b)

  pub AllBelow-append :
      (key : ℕ) (xs ys : List (Node A))
      → AllBelow key xs
      → AllBelow key ys
      → AllBelow key (xs ++ ys)
  AllBelow-append key [] ys b c = c
  AllBelow-append key (n ∷ xs) ys (l, b) c = (l, AllBelow-append key xs ys b c)

  pub AllAfter-weaken :
      (key lower : ℕ) (nodes : List (Node A))
      → lower ≤ key
      → AllAfter key nodes
      → AllAfter lower nodes
  AllAfter-weaken key lower [] h b = tt
  AllAfter-weaken key lower (n ∷ rest) h (l, b) =
      (omega (arith, h, l), AllAfter-weaken key lower rest h b)

  pub insert-before :
      (m : Node A) (nodes : List (Node A))
      → AllAfter (start_of m) nodes
      → insert m nodes ≡ m ∷ nodes
  unfolding insert
  insert-before m [] a = refl
  insert-before m (n ∷ rest) (l, a) = rw less refl
    where
      less : ltb (start_of m) (start_of n) ≡ true
      less = ground (arith, l)

  pub insert-behind :
      (m : Node A) (xs ys : List (Node A))
      → AllBelow (start_of m) xs
      → insert m (xs ++ ys) ≡ xs ++ insert m ys
  unfolding insert
  insert-behind m [] ys b = refl
  insert-behind m (n ∷ xs) ys (l, b) =
      rw (not_less, other) (ap (λ nodes. n ∷ nodes) (insert-behind m xs ys b))
    where
      not_less : ltb (start_of m) (start_of n) ≡ false
      not_less = ground (arith, l)

      other : (start_of m == start_of n) ≡ false
      other = ground (arith, l)

  set_access_region-at :
      (region : DataAccessRegion) (before : List (Node A)) (n : Node A) (rest : List (Node A))
      → AllBelow (start_of n) before
      → set_access_region (start_of n) region (before ++ n ∷ rest)
        ≡ before ++ (record n { region = region }) ∷ rest
  unfolding set_access_region
  set_access_region-at region [] n rest b = ground arith
  set_access_region-at region (m ∷ before) n rest (l, b) =
      rw other (ap (λ nodes. m ∷ nodes) (set_access_region-at region before n rest b))
    where
      other : (start_of n == start_of m) ≡ false
      other = ground (arith, l)

  erase-at :
      (before : List (Node A)) (n : Node A) (rest : List (Node A))
      → AllBelow (start_of n) before
      → erase (start_of n) (before ++ n ∷ rest) ≡ before ++ rest
  unfolding erase
  erase-at [] n rest b = ground arith
  erase-at (m ∷ before) n rest (l, b) =
      rw other (ap (λ nodes. m ∷ nodes) (erase-at before n rest b))
    where
      other : (start_of n == start_of m) ≡ false
      other = ground (arith, l)

  -- The pieces of a node that a region overlaps: the part before the region, the common part unless it is
  -- removed, and the part behind the region.
  abbrev pub left_piece : (A → A) → DataAccessRegion → Node A → List (Node A)
  left_piece d r n =
      if ltb (start_of n) r.start_address
      then duplicate d (from_bounds (start_of n) r.start_address) n ∷ []
      else []

  abbrev pub common : DataAccessRegion → Node A → DataAccessRegion
  common r n =
      from_bounds (max (start_of n) r.start_address) (min (end_address n.region) (end_address r))

  abbrev pub middle_piece : Bool → DataAccessRegion → Node A → List (Node A)
  middle_piece remove r n = if remove then [] else (record n { region = common r n }) ∷ []

  abbrev pub right_piece : (A → A) → DataAccessRegion → Node A → List (Node A)
  right_piece d r n =
      if ltb (end_address r) (end_address n.region)
      then duplicate d (from_bounds (end_address r) (end_address n.region)) n ∷ []
      else []

  abbrev pub pieces : (A → A) → Bool → DataAccessRegion → Node A → List (Node A)
  pieces d remove r n = left_piece d r n ++ (middle_piece remove r n ++ right_piece d r n)

  abbrev pub place : List (Node A) → List (Node A) → List (Node A)
  place [] nodes = nodes
  place (p ∷ ps) nodes = place ps (insert p nodes)

  left_steps :
      (d : A → A) (remove : Bool) (r : DataAccessRegion) (n : Node A) (fs : List Fragment)
      (nodes : List (Node A))
      → fragment_steps d remove n
          (left_fragments (start_of n) r.start_address (max (start_of n) r.start_address) ++ fs)
          (nodes, true)
        ≡ fragment_steps d remove n fs (place (left_piece d r n) nodes, true)
  left_steps d remove r n fs nodes = elim (Bool-cases (ltb (start_of n) r.start_address)) [
    | inl less ↦ rw (left_fragments-this (start_of n) r.start_address less, less) refl
    | inr not_less ↦
        rw (left_fragments-other (start_of n) r.start_address not_less, not_less)
          (elim (Bool-cases (ltb r.start_address (start_of n))) [
            | inl more ↦ rw more refl
            | inr not_more ↦ rw not_more refl
          ])
  ]

  right_steps :
      (d : A → A) (remove : Bool) (r : DataAccessRegion) (n : Node A) (nodes : List (Node A))
      → fragment_steps d remove n
          (right_fragments
            (end_address n.region)
            (end_address r)
            (min (end_address n.region) (end_address r)))
          (nodes, true)
        ≡ place (right_piece d r n) nodes
  right_steps d remove r n nodes = elim (Bool-cases (ltb (end_address r) (end_address n.region))) [
    | inl more ↦ rw (right_fragments-this (end_address n.region) (end_address r) more, more) refl
    | inr not_more ↦
        rw (right_fragments-other (end_address n.region) (end_address r) not_more, not_more)
          (elim (Bool-cases (ltb (end_address n.region) (end_address r))) [
            | inl less ↦ rw less refl
            | inr not_less ↦ rw not_less refl
          ])
  ]

  -- The first step shrinks or removes the node.
  middle_step :
      (d : A → A) (remove : Bool) (r : DataAccessRegion) (n : Node A) (before rest : List (Node A))
      (fs : List Fragment)
      → AllBelow (start_of n) before
      → fragment_steps d remove n
          (record { processor = intersecting; region = common r n } ∷ fs)
          (before ++ n ∷ rest, false)
        ≡ fragment_steps d remove n fs (before ++ (middle_piece remove r n ++ rest), true)
  middle_step d true r n before rest fs b =
      ap (λ nodes. fragment_steps d true n fs (nodes, true)) (erase-at before n rest b)
  middle_step d false r n before rest fs b =
      ap (λ nodes. fragment_steps d false n fs (nodes, true))
        (set_access_region-at (common r n) before n rest b)

  pub fragment_by_intersection-place :
      (d : A → A) (remove : Bool) (r : DataAccessRegion) (n : Node A) (before rest : List (Node A))
      → AllBelow (start_of n) before
      → fragment_by_intersection d remove r n (before ++ n ∷ rest)
        ≡ place
            (right_piece d r n)
            (place (left_piece d r n) (before ++ (middle_piece remove r n ++ rest)))
  unfolding fragment_by_intersection process_intersecting_fragments
  fragment_by_intersection-place d remove r n before rest b =
      let right =
        right_fragments (end_address n.region) (end_address r)
          (min (end_address n.region) (end_address r)) in
      middle_step d remove r n before rest
        (left_fragments (start_of n) r.start_address (max (start_of n) r.start_address) ++ right) b
      ∙ left_steps d remove r n right (before ++ (middle_piece remove r n ++ rest))
      ∙ right_steps d remove r n
          (place (left_piece d r n) (before ++ (middle_piece remove r n ++ rest)))
