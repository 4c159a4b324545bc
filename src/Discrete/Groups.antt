-- ===== src/Discrete/Groups.antt =====
-- Which accesses may be satisfied together: reads, concurrent accesses, and reductions of one
-- operation form groups, and a satisfied access passes its satisfaction on inside its group.
use nanos.Common.{ℕ, ◌+◌, ◌≡◌, refl, Bool, true, false, Option, none, some, arith}
use nanos.Discrete.Access.{
  DataAccessType, no_access, read, write, readwrite, concurrent, commutative, reduction, Header,
  evaluate,
}

abbrev pub type_group : DataAccessType → ℕ → Option ℕ
type_group read info = some 0
type_group concurrent info = some 1
type_group reduction info = some (2 + info)
type_group _ info = none

-- The accesses that share a group may run at the same time.
abbrev pub group : Header → Option ℕ
group h = type_group h.access_type h.reduction_info

-- The types that the discrete system registers.
abbrev pub is_registered : DataAccessType → Bool
is_registered no_access = false
is_registered commutative = false
is_registered _ = true

abbrev pub Enabled : Option Header → Header → Type 0
Enabled previous h = evaluate previous h.access_type h.reduction_info ≡ true

-- An access after another is satisfied exactly if that one is, in the same group.
abbrev InGroupAfter : Header → ℕ → DataAccessType → ℕ → Type 0
InGroupAfter p k t info = (p.satisfied ≡ true) × (group p ≡ some k) × (type_group t info ≡ some k)

follows_reduction :
    (p : Header) (t : DataAccessType) (info : ℕ)
    → p.access_type ≡ t
    → evaluate (some p) reduction info ≡ true
    → (k : ℕ) × InGroupAfter p k reduction info
unfolding evaluate
follows_reduction p reduction info e h = (2 + info, (ground arith, ground arith, refl))
follows_reduction p read info e h = absurd (ground arith)
follows_reduction p _ info e h = absurd (ground arith)

follows :
    (p : Header) (t : DataAccessType) (info : ℕ)
    → is_registered t ≡ true
    → evaluate (some p) t info ≡ true
    → (k : ℕ) × InGroupAfter p k t info
unfolding evaluate
follows p no_access info r h = absurd (ground arith)
follows p commutative info r h = absurd (ground arith)
follows p read info r h = (0, (ground arith, ground arith, refl))
follows p write info r h = absurd (ground arith)
follows p readwrite info r h = absurd (ground arith)
follows p concurrent info r h = (1, (ground arith, ground arith, refl))
follows p reduction info r h = follows_reduction p p.access_type info refl h

abbrev pub Together : Header → Header → ℕ → Type 0
Together p h k = (p.satisfied ≡ true) × (group p ≡ some k) × (group h ≡ some k)

pub eval-group :
    (p h : Header)
    → is_registered h.access_type ≡ true
    → Enabled (some p) h
    → (k : ℕ) × Together p h k
eval-group p h r e = follows p h.access_type h.reduction_info r e

same_type :
    (k : ℕ) (s t : DataAccessType) (i j : ℕ) (p : Header)
    → p.access_type ≡ s
    → p.reduction_info ≡ i
    → p.satisfied ≡ true
    → type_group s i ≡ some k
    → type_group t j ≡ some k
    → evaluate (some p) t j ≡ true
unfolding evaluate
same_type k read read i j p e f sat g h = ground arith
same_type k read concurrent i j p e f sat g h = absurd (ground arith)
same_type k read reduction i j p e f sat g h = absurd (ground arith)
same_type k concurrent concurrent i j p e f sat g h = ground arith
same_type k concurrent read i j p e f sat g h = absurd (ground arith)
same_type k concurrent reduction i j p e f sat g h = absurd (ground arith)
same_type k reduction reduction i j p e f sat g h = ground arith
same_type k reduction read i j p e f sat g h = absurd (ground arith)
same_type k reduction concurrent i j p e f sat g h = absurd (ground arith)
same_type k _ _ i j p e f sat g h = absurd (ground arith)

pub group-eval :
    (p h : Header) (k : ℕ)
    → p.satisfied ≡ true
    → group p ≡ some k
    → group h ≡ some k
    → Enabled (some p) h
group-eval p h k s g e =
    same_type k p.access_type h.access_type p.reduction_info h.reduction_info p refl refl s g e

-- Nothing but the group of the next access matters.
pub eval-same_group :
    (previous : Option Header) (g h : Header) (k : ℕ)
    → is_registered g.access_type ≡ true
    → group g ≡ some k
    → group h ≡ some k
    → Enabled previous g
    → Enabled previous h
unfolding evaluate
eval-same_group none g h k r e f v = ground arith
eval-same_group (some p) g h k r e f v =
    let (j, t) = eval-group p g r v in group-eval p h j t.0 t.1 (ground arith)

pub eval-none : (h : Header) → Enabled none h
unfolding evaluate
eval-none h = ground arith
