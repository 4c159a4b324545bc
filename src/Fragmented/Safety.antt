-- ===== src/Fragmented/Safety.antt =====
-- What holds of every chain that can be reached, whichever operations are still delayed.
use nanos.Common.{
  ℕ, ◌+◌, ◌≡◌, ◌⊎◌, Bool, true, false, List, [], ◌∷◌, ◌++◌, arith, ap, ◌∙◌, sym, subst, refl,
}
use nanos.AccessType.{is_read, is_concurrent, is_reduction}
use nanos.Fragmented.Access.{DataAccess, satisfied}
use nanos.Fragmented.Effects.{closes_previous_reduction}
use nanos.Fragmented.Changes.{UpdateOperation}
use nanos.Fragmented.Sent.{
  Kind, reading, writing, sharing, reducing, has, carries, carried, number, sends,
}
use nanos.Fragmented.Chain.{Node, Reach}
use nanos.Fragmented.Fed.{Source, Chained, carried_middle}
use nanos.Fragmented.Linked.{root, Reach-Chained}

-- The kinds of satisfiability proper.
abbrev is_satisfiability : Kind → Bool
is_satisfiability reducing = false
is_satisfiability _ = true

has-sends :
    (k : Kind) (a : DataAccess) → is_satisfiability k ≡ true → sends k a ≡ true → has k a ≡ true
has-sends reading a e h = ground arith
has-sends writing a e h = ground arith
has-sends sharing a e h = ground arith
has-sends reducing a e h = ground arith

source-has :
    (c : ℕ) (had source : Bool) → c + number had ≡ number source → had ≡ true → source ≡ true
source-has c had source e h = ground arith

-- Every part of a chain is chained to what stands before it.
pub Chained-drop :
    (front : List Node) (ns : List Node) (source : Source)
    → Chained source (front ++ ns)
    → (source' : Source) × Chained source' ns
Chained-drop [] ns source h = (source, h)
Chained-drop (m ∷ front) ns source h = Chained-drop front ns (λ k. sends k m.access) h.3

passed :
    (k : Kind) (front : List Node) (n : Node) (back : List Node) (source : Source)
    → is_satisfiability k ≡ true
    → Chained source (front ++ n ∷ back)
    → has k n.access ≡ true
    → source k ≡ true
passed k [] n back source e h t =
    source-has (carried k n.incoming) (has k n.access) (source k) (h.2 k) t
passed k (m ∷ front) n back source e h t =
    source-has (carried k m.incoming) (has k m.access) (source k) (h.2 k)
      (has-sends k m.access e (passed k front n back (λ k. sends k m.access) e h.3 t))

module _ (parent : ℕ → ℕ) {ns : List Node} (r : Reach parent ns) where
  -- What an access has, all accesses before it send.
  sends_before :
      (k : Kind) (front middle back : List Node) (a b : Node)
      → ns ≡ front ++ a ∷ (middle ++ b ∷ back)
      → is_satisfiability k ≡ true
      → has k b.access ≡ true
      → sends k a.access ≡ true
  sends_before k front middle back a b e s t =
      let (source, h) =
        Chained-drop front (a ∷ (middle ++ b ∷ back)) root
          (subst (Chained root) e (Reach-Chained parent r)) in
      passed k middle b back (λ k. sends k a.access) s h.3 t

separated :
    (a b : DataAccess)
    → (b.read_satisfied ≡ true → sends reading a ≡ true)
    → (b.write_satisfied ≡ true → sends writing a ≡ true)
    → (b.concurrent_satisfied ≡ true → sends sharing a ≡ true)
    → satisfied b ≡ true
    → is_reduction b.type ≡ false
    → (a.complete ≡ true)
      ⊎ ((is_read a.type ≡ true) × (is_read b.type ≡ true))
      ⊎ ((is_concurrent a.type ≡ true) × (is_concurrent b.type ≡ true))
unfolding satisfied
separated a b r w c s n = ground arith

-- Whatever the order in which the accesses to a region are registered and completed and the delayed
-- operations are processed: once an access that is no reduction is satisfied, each access before it
-- has been completed, or both only read, or both are concurrent.
pub Reach-Separated :
    (parent : ℕ → ℕ) {ns : List Node}
    → Reach parent ns
    → (front middle back : List Node) (a b : Node) → ns ≡ front ++ a ∷ (middle ++ b ∷ back)
    → satisfied b.access ≡ true
    → is_reduction b.access.type ≡ false
    → (a.access.complete ≡ true)
      ⊎ ((is_read a.access.type ≡ true) × (is_read b.access.type ≡ true))
      ⊎ ((is_concurrent a.access.type ≡ true) × (is_concurrent b.access.type ≡ true))
Reach-Separated parent r front middle back a b e s n =
    separated a.access b.access (sends_before parent r reading front middle back a b e refl)
      (sends_before parent r writing front middle back a b e refl)
      (sends_before parent r sharing front middle back a b e refl) s n

closed :
    (a b : DataAccess)
    → (b.write_satisfied ≡ true → sends writing a ≡ true)
    → closes_previous_reduction b ≡ true
    → a.complete ≡ true
unfolding closes_previous_reduction
closed a b w c = ground arith

-- The private copies of a reduction are combined only when every access before the one that combines
-- them has been completed.
pub Reach-combined :
    (parent : ℕ → ℕ) {ns : List Node}
    → Reach parent ns
    → (front middle back : List Node) (a b : Node) → ns ≡ front ++ a ∷ (middle ++ b ∷ back)
    → closes_previous_reduction b.access ≡ true
    → a.access.complete ≡ true
Reach-combined parent r front middle back a b e c =
    closed a.access b.access (sends_before parent r writing front middle back a b e refl) c

once :
    (c : ℕ) (carried_by had source : Bool)
    → number carried_by + c + number had ≡ number source
    → carried_by ≡ true
    → (had ≡ false) × (c ≡ 0)
once c carried_by had source e t = ground arith

-- Of read, write and concurrent satisfiability and of the information on a reduction, an operation that is
-- still to be processed brings only what the access does not have yet, and no other operation for
-- the access brings the same.
pub Reach-once :
    (parent : ℕ → ℕ) {ns : List Node}
    → Reach parent ns
    → (front back : List Node) (n : Node) (before after : List UpdateOperation)
      (u : UpdateOperation) (k : Kind)
    → ns ≡ front ++ n ∷ back
    → n.incoming ≡ before ++ u ∷ after
    → carries k u ≡ true
    → (has k n.access ≡ false) × (carried k (before ++ after) ≡ 0)
Reach-once parent r front back n before after u k e i t =
    let (source, h) =
      Chained-drop front (n ∷ back) root (subst (Chained root) e (Reach-Chained parent r)) in
    once (carried k (before ++ after)) (carries k u) (has k n.access) (source k)
      (ap (λ x. x + number (has k n.access))
          (sym (ap (carried k) i ∙ carried_middle k before after u))
        ∙ h.2 k)
      t
