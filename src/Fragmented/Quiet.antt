-- ===== src/Fragmented/Quiet.antt =====
-- A chain of which all operations have been processed: its status bits are those that a look at the
-- accesses before each one gives.
use nanos.Common.{
  ℕ, ◌+◌, ◌≡◌, Bool, true, false, ◌&&◌, ◌||◌, List, [], ◌∷◌, ◌++◌, arith, ap, subst, refl,
}
use nanos.AccessType.{is_read, is_concurrent}
use nanos.Fragmented.Access.{DataAccess}
use nanos.Fragmented.Sent.{Kind, reading, writing, sharing, reducing, has, carried, number, sends}
use nanos.Fragmented.Chain.{Node, Reach}
use nanos.Fragmented.Fed.{Source, Chained}
use nanos.Fragmented.Linked.{root, Reach-Chained}

-- No operation is delayed.
abbrev pub Quiet : List Node → Type 0
Quiet [] = Unit {0}
Quiet (n ∷ ns) = (n.incoming ≡ []) × Quiet ns

-- Whether an access lets those after it have a satisfiability that it has itself.
abbrev pub lets_pass : Kind → DataAccess → Bool
lets_pass reading a = is_read a.type || a.complete
lets_pass writing a = a.complete
lets_pass sharing a = is_concurrent a.type || a.complete
lets_pass reducing a = a.complete

abbrev pub all_let_pass : Kind → List Node → Bool
all_let_pass k [] = true
all_let_pass k (n ∷ ns) = lets_pass k n.access && all_let_pass k ns

abbrev is_satisfiability : Kind → Bool
is_satisfiability reducing = false
is_satisfiability _ = true

sends-lets_pass :
    (k : Kind) (a : DataAccess) → is_satisfiability k ≡ true → sends k a ≡ has k a && lets_pass k a
sends-lets_pass reading a e = refl
sends-lets_pass writing a e = refl
sends-lets_pass sharing a e = refl
sends-lets_pass reducing a e = ground arith

here : (c : ℕ) (had source : Bool) → c + number had ≡ number source → c ≡ 0 → had ≡ source && true
here c had source e z = ground arith

there :
    (c : ℕ) (had source sent lets rest has_later : Bool)
    → c + number had ≡ number source
    → c ≡ 0
    → sent ≡ had && lets
    → has_later ≡ sent && rest
    → has_later ≡ source && (lets && rest)
there c had source sent lets rest has_later e z s h = ground arith

has-all_let_pass :
    (k : Kind) (front : List Node) (n : Node) (back : List Node) (source : Source)
    → is_satisfiability k ≡ true
    → Quiet (front ++ n ∷ back)
    → Chained source (front ++ n ∷ back)
    → has k n.access ≡ source k && all_let_pass k front
has-all_let_pass k [] n back source e q h =
    here (carried k n.incoming) (has k n.access) (source k) (h.2 k) (ap (carried k) q.0)
has-all_let_pass k (m ∷ front) n back source e q h =
    there (carried k m.incoming) (has k m.access) (source k) (sends k m.access)
      (lets_pass k m.access) (all_let_pass k front) (has k n.access) (h.2 k) (ap (carried k) q.0)
      (sends-lets_pass k m.access e)
      (has-all_let_pass k front n back (λ j. sends j m.access) e q.1 h.3)

-- Once all delayed operations have been processed, an access is read satisfied exactly if each access
-- before it is a read or has been completed, write satisfied exactly if each of them has been
-- completed, and concurrent satisfied exactly if each of them is concurrent or has been completed.
pub Reach-status :
    (parent : ℕ → ℕ) {ns : List Node}
    → Reach parent ns
    → (front back : List Node) (n : Node) → ns ≡ front ++ n ∷ back
    → Quiet ns
    → (n.access.read_satisfied ≡ all_let_pass reading front)
      × (n.access.write_satisfied ≡ all_let_pass writing front)
      × (n.access.concurrent_satisfied ≡ all_let_pass sharing front)
Reach-status parent r front back n e q =
    let h = subst (Chained root) e (Reach-Chained parent r) in
    let q' = subst Quiet e q in
    (
      has-all_let_pass reading front n back root refl q' h,
      has-all_let_pass writing front n back root refl q' h,
      has-all_let_pass sharing front n back root refl q' h,
    )
