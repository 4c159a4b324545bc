-- ===== src/RegionMap/Gaps.antt =====
-- `processIntersectingAndMissing` handles every byte of a region once.
use nanos.Common.{
  ℕ, ◌+◌, ◌^◌, ◌≤◌, ◌<◌, ◌≡◌, refl, sym, ◌∙◌, ap, Bool, Bool-cases, true, false, ◌&&◌, ◌||◌, not,
  Option, none, some, List, [], ◌∷◌, ◌++◌, inl, inr, ltb, leb, if◌then◌else◌, arith,
}
use nanos.Region.{DataAccessRegion, from_bounds, end_address}
use nanos.Region.Bytes.{Fits}
use nanos.Region.Fragments.{contains}
use nanos.RegionMap.{
  Node, Visit, present, missing, start_of, lower_bound, step_back, seek, gap, visits_from,
  pass_over, visits,
}
use nanos.RegionMap.Traversal.{Disjoint, overlapping, overlapping-behind, Disjoint-step_back}

module _ {A : Type 0} where
  -- Without the nodes that end before a key.
  abbrev drop_ended : ℕ → List (Node A) → List (Node A)
  drop_ended key [] = []
  drop_ended key (n ∷ rest) =
      let later = drop_ended key rest in if leb (end_address n.region) key then later else n ∷ rest

  drop_ended-step_back :
      (key : ℕ) (previous : Option (Node A)) (from : ℕ) (n : Node A) (rest : List (Node A))
      → start_of n ≤ key
      → Disjoint from (step_back previous (n ∷ rest))
      → drop_ended key (step_back previous (n ∷ rest)) ≡ drop_ended key (n ∷ rest)
  drop_ended-step_back key none from n rest h d = refl
  drop_ended-step_back key (some p) from n rest h (b, l, f, (b', l', f', d)) =
      ap (λ o. if o then drop_ended key (n ∷ rest) else p ∷ n ∷ rest) ended
    where
      ended : leb (end_address p.region) key ≡ true
      ended = ground (arith, b', h)

  -- A node that starts at a key or later does not end before it.
  drop_ended-head :
      (key from : ℕ) (n : Node A) (rest : List (Node A))
      → key ≤ start_of n
      → Disjoint from (n ∷ rest)
      → drop_ended key (n ∷ rest) ≡ n ∷ rest
  unfolding end_address
  drop_ended-head key from n rest h (b, l, f, d) = rw after refl
    where
      after : leb (end_address n.region) key ≡ false
      after = ground (arith, h, l)

  pass_over_same :
      (key : ℕ) (n : Node A) (rest : List (Node A)) → pass_over key (n ∷ rest) (n ∷ rest) ≡ n ∷ rest
  pass_over_same key n rest = elim (Bool-cases (leb (end_address n.region) key)) [
    | inl ended ↦ rw ended refl
    | inr later ↦ rw later refl
  ]

  pass_over-step_back :
      (key : ℕ) (previous : Option (Node A)) (from : ℕ) (n : Node A) (rest : List (Node A))
      → key ≤ start_of n
      → Disjoint from (step_back previous (n ∷ rest))
      → pass_over key (n ∷ rest) (step_back previous (n ∷ rest))
        ≡ drop_ended key (step_back previous (n ∷ rest))
  pass_over-step_back key none from n rest h d =
      pass_over_same key n rest ∙ sym (drop_ended-head key from n rest h d)
  pass_over-step_back key (some p) from n rest h (b, l, f, d) =
      ap (λ nodes. if leb (end_address p.region) key then nodes else p ∷ n ∷ rest)
        (sym (drop_ended-head key (end_address p.region) n rest h d))

  pass_over-drop_ended :
      (key : ℕ) (previous : Option (Node A)) (from : ℕ) (nodes : List (Node A))
      → Disjoint from (step_back previous nodes)
      → pass_over key (lower_bound key nodes) (seek previous key nodes)
        ≡ drop_ended key (step_back previous nodes)
  unfolding lower_bound seek
  pass_over-drop_ended key none from [] d = refl
  pass_over-drop_ended key (some p) from [] d = refl
  pass_over-drop_ended key previous from (n ∷ rest) d =
      let (lower, d') = Disjoint-step_back previous from n rest d in
      elim (Bool-cases (ltb (start_of n) key)) [
        | inl less ↦ rw less (
            pass_over-drop_ended key (some n) lower rest d'
            ∙ sym (drop_ended-step_back key previous from n rest (ground (arith, less)) d))
        | inr not_less ↦ elim (Bool-cases (ltb key (start_of n))) [
          | inl more ↦
              rw (not_less, more)
                (pass_over-step_back key previous from n rest (ground (arith, more)) d)
          | inr not_more ↦
              rw (not_less, not_more)
                (pass_over_same key n rest
                  ∙ sym (drop_ended-head key lower n rest (ground (arith, not_less)) d')
                  ∙ sym
                      (drop_ended-step_back key previous from n rest (ground (arith, not_more)) d))
        ]
      ]

  abbrev pub covered : List (Node A) → ℕ → Bool
  covered [] a = false
  covered (n ∷ rest) a = contains n.region a || covered rest a

  -- How often a byte is missing, and the nodes that are present.
  abbrev pub missing_hits : List (Visit A) → ℕ → ℕ
  missing_hits [] a = 0
  missing_hits (present n ∷ rest) a = missing_hits rest a
  missing_hits (missing r ∷ rest) a = (if contains r a then 1 else 0) + missing_hits rest a

  abbrev pub presents : List (Visit A) → List (Node A)
  presents [] = []
  presents (present n ∷ rest) = n ∷ presents rest
  presents (missing r ∷ rest) = presents rest

  covered-before :
      (from : ℕ) (nodes : List (Node A)) (a : ℕ)
      → a < from
      → Disjoint from nodes
      → covered nodes a ≡ false
  unfolding end_address
  covered-before from [] a h d = refl
  covered-before from (n ∷ rest) a h (b, l, f, d) =
      let later = covered-before (end_address n.region) rest a (omega (arith, h, b)) d in
      ground (arith, h, b, later)

  -- The traversal has not come further than the end of the first node.
  abbrev Reaches : ℕ → List (Node A) → Type 0
  Reaches last_end [] = Unit
  Reaches last_end (n ∷ rest) = last_end ≤ end_address n.region

  Reaches-Disjoint :
      (last_end from : ℕ) (nodes : List (Node A))
      → last_end ≤ from
      → Disjoint from nodes
      → Reaches last_end nodes
  unfolding end_address
  Reaches-Disjoint last_end from [] h d = tt
  Reaches-Disjoint last_end from (n ∷ rest) h (b, l, f, d) = omega (arith, h, b)

  missing_hits-gap :
      (from to a : ℕ) (rest : List (Visit A))
      → to < 2 ^ 64
      → missing_hits (gap from to ++ rest) a
        ≡ (if leb from a && ltb a to then 1 else 0) + missing_hits rest a
  unfolding from_bounds
  missing_hits-gap from to a rest f = elim (Bool-cases (ltb from to)) [
    | inl less ↦ rw less (ground (arith, less, f))
    | inr not_less ↦ rw not_less (ground (arith, not_less))
  ]

missing_hits-last_gap :
    (A : Type 0) (from to a : ℕ)
    → to < 2 ^ 64
    → missing_hits (gap {A = A} from to) a ≡ (if leb from a && ltb a to then 1 else 0)
unfolding from_bounds
missing_hits-last_gap A from to a f = elim (Bool-cases (ltb from to)) [
  | inl less ↦ rw less (ground (arith, less, f))
  | inr not_less ↦ rw not_less (ground (arith, not_less))
]

module _ {A : Type 0} where
  missing_hits-visits_from :
      (r : DataAccessRegion) (last_end from a : ℕ) (nodes : List (Node A))
      → Fits r
      → Disjoint from nodes
      → Reaches last_end nodes
      → missing_hits (visits_from r last_end nodes) a
        ≡ (if leb last_end a && ltb a (end_address r) && not (covered nodes a) then 1 else 0)
  unfolding visits_from end_address
  missing_hits-visits_from r last_end from a [] g d h =
      ground (arith, missing_hits-last_gap A last_end (end_address r) a g)
  missing_hits-visits_from r last_end from a (n ∷ rest) g (b, l, f, d) h =
      let to = end_address n.region in
      let last = if leb to (end_address r) then to else end_address r in
      let reaches : last ≤ to = ground arith in
      let later =
        missing_hits-visits_from r last to a rest g d (Reaches-Disjoint last to rest reaches d) in
      let before_to : a < to → covered rest a ≡ false = λ k. covered-before to rest a k d in
      elim (Bool-cases (ltb (start_of n) (end_address r))) [
        | inl before ↦ rw before (
            missing_hits-gap last_end (start_of n) a (present n ∷ visits_from r last rest)
              (omega (arith, f))
            ∙ ground (arith, later, before_to, h, l, before))
        | inr behind ↦ rw behind (
            missing_hits-last_gap A last_end (end_address r) a g
            ∙ ground (arith, before_to, l, behind))
      ]

  -- The nodes that are given to the processor of nodes are those before the end of the region.
  abbrev until : ℕ → List (Node A) → List (Node A)
  until key [] = []
  until key (n ∷ rest) =
      let later = until key rest in if ltb (start_of n) key then n ∷ later else []

  presents-gap :
      (from to : ℕ) (rest : List (Visit A)) → presents (gap from to ++ rest) ≡ presents rest
  presents-gap from to rest = elim (Bool-cases (ltb from to)) [
    | inl less ↦ rw less refl
    | inr not_less ↦ rw not_less refl
  ]

  presents-last_gap : (from to : ℕ) → presents (gap {A = A} from to) ≡ []
  presents-last_gap from to = elim (Bool-cases (ltb from to)) [
    | inl less ↦ rw less refl
    | inr not_less ↦ rw not_less refl
  ]

  presents-visits_from :
      (r : DataAccessRegion) (last_end : ℕ) (nodes : List (Node A))
      → presents (visits_from r last_end nodes) ≡ until (end_address r) nodes
  unfolding visits_from
  presents-visits_from r last_end [] = presents-last_gap last_end (end_address r)
  presents-visits_from r last_end (n ∷ rest) =
      let to = end_address n.region in
      let last = if leb to (end_address r) then to else end_address r in
      elim (Bool-cases (ltb (start_of n) (end_address r))) [
        | inl before ↦ rw before (
            presents-gap last_end (start_of n) (present n ∷ visits_from r last rest)
            ∙ ap (λ nodes. n ∷ nodes) (presents-visits_from r last rest))
        | inr behind ↦ rw behind (presents-last_gap last_end (end_address r))
      ]

  until-overlapping :
      (r : DataAccessRegion) (from : ℕ) (nodes : List (Node A))
      → r.start_address ≤ from
      → Disjoint from nodes
      → until (end_address r) nodes ≡ overlapping r nodes
  unfolding end_address
  until-overlapping r from [] h d = refl
  until-overlapping r from (n ∷ rest) h (b, l, f, d) =
      let later = until-overlapping r (end_address n.region) rest (omega (arith, h, b)) d in
      let behind : end_address r ≤ end_address n.region → overlapping r rest ≡ [] =
        λ k. overlapping-behind r (end_address n.region) rest k d in
      ground (arith, later, behind, h, b, l)

  until-drop_ended :
      (r : DataAccessRegion) (from : ℕ) (nodes : List (Node A))
      → 0 < r.length
      → Disjoint from nodes
      → until (end_address r) (drop_ended r.start_address nodes) ≡ overlapping r nodes
  unfolding end_address
  until-drop_ended r from [] z d = refl
  until-drop_ended r from (n ∷ rest) z (b, l, f, d) =
      let later = until-drop_ended r (end_address n.region) rest z d in
      let behind : end_address r ≤ end_address n.region → overlapping r rest ≡ [] =
        λ h. overlapping-behind r (end_address n.region) rest h d in
      let inside = until-overlapping r (end_address n.region) rest in
      elim (Bool-cases (leb (end_address n.region) r.start_address)) [
        | inl ended ↦ rw ended (ground (arith, later, ended))
        | inr not_ended ↦
            rw not_ended (ground (arith, not_ended, behind, inside (ground (arith, not_ended)) d))
      ]

  covered-drop_ended :
      (key a : ℕ) (nodes : List (Node A))
      → key ≤ a
      → covered (drop_ended key nodes) a ≡ covered nodes a
  unfolding end_address
  covered-drop_ended key a [] h = refl
  covered-drop_ended key a (n ∷ rest) h =
      let later = covered-drop_ended key a rest h in
      elim (Bool-cases (leb (end_address n.region) key)) [
        | inl ended ↦ rw ended (ground (arith, ended, later, h))
        | inr not_ended ↦ rw not_ended refl
      ]

  Disjoint-drop_ended :
      (key from : ℕ) (nodes : List (Node A))
      → Disjoint from nodes
      → Reaches key (drop_ended key nodes) × ((lower : ℕ) × Disjoint lower (drop_ended key nodes))
  Disjoint-drop_ended key from [] d = (tt, (from, tt))
  Disjoint-drop_ended key from (n ∷ rest) (b, l, f, d) =
      elim (Bool-cases (leb (end_address n.region) key)) [
        | inl ended ↦ rw ended (Disjoint-drop_ended key (end_address n.region) rest d)
        | inr later ↦ rw later (ground (arith, later), (from, (b, l, f, d)))
      ]

-- `processIntersectingAndMissing`, if no processor stops it, gives the nodes that share a byte with the
-- region to one processor, each once and in order, and every byte of the region that is in no node
-- to the other, exactly once, and no other byte.
pub missing_hits-visits :
    {A : Type 0} (r : DataAccessRegion) (a : ℕ) (nodes : List (Node A))
    → 0 < r.length
    → Fits r
    → Disjoint 0 nodes
    → (presents (visits r nodes) ≡ overlapping r nodes)
      × (missing_hits (visits r nodes) a ≡ (if contains r a && not (covered nodes a) then 1 else 0))
unfolding visits end_address
missing_hits-visits r a [] z g d = (refl, ground arith)
missing_hits-visits r a (n ∷ rest) z g d =
    let suffix = drop_ended r.start_address (n ∷ rest) in
    let same : r.start_address ≤ a → covered suffix a ≡ covered (n ∷ rest) a =
      covered-drop_ended r.start_address a (n ∷ rest) in
    let (reaches, (lower, d')) = Disjoint-drop_ended r.start_address 0 (n ∷ rest) d in
    rw (pass_over-drop_ended r.start_address none 0 (n ∷ rest) d) (
      presents-visits_from r r.start_address suffix ∙ until-drop_ended r 0 (n ∷ rest) z d,
      missing_hits-visits_from r r.start_address lower a suffix g d' reaches ∙ ground (arith, same),
    )
