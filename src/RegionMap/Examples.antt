-- ===== src/RegionMap/Examples.antt =====
-- The theorems on a map with two nodes of ten bytes, at 10 and at 30.
use nanos.Common.{ℕ, ◌≡◌, refl, ◌&&◌, not, none, some, List, [], ◌∷◌, if◌then◌else◌, arith}
use nanos.Region.{DataAccessRegion, end_address}
use nanos.Region.Fragments.{contains}
use nanos.RegionMap.{Node, insert, erase, set_access_region, intersecting_nodes, visits}
use nanos.RegionMap.Traversal.{Disjoint, overlapping, intersecting_nodes-overlapping}
use nanos.RegionMap.Gaps.{presents, missing_hits, covered, missing_hits-visits}
use nanos.RegionMap.Fragmentation.{IsCut}
use nanos.RegionMap.Refinement.{lookup}
use nanos.RegionMap.Tree.{AvlSet, fragment_intersecting_in, lookup-fragment_intersecting_in}
use nanos.RegionMap.Replacement.{replace, lookup-replace}

abbrev first : Node ℕ
first = record { region = record { start_address = 10; length = 10 }; contents = 1 }

abbrev second : Node ℕ
second = record { region = record { start_address = 30; length = 10 }; contents = 2 }

abbrev two_nodes : List (Node ℕ)
two_nodes = first ∷ second ∷ []

two_nodes-Disjoint : Disjoint 0 two_nodes
unfolding end_address
two_nodes-Disjoint =
    (omega arith, omega arith, omega arith, (omega arith, omega arith, omega arith, tt))

-- It ends in the second node, and starts in the first.
abbrev across : DataAccessRegion
across = record { start_address = 15; length = 20 }

intersecting_nodes-overlapping_example :
    intersecting_nodes across two_nodes ≡ overlapping across two_nodes
intersecting_nodes-overlapping_example =
    intersecting_nodes-overlapping across two_nodes (omega arith) (omega arith) two_nodes-Disjoint

-- Byte 25 is in no node.
missing_hits-visits_example :
    (presents (visits across two_nodes) ≡ overlapping across two_nodes)
    × (missing_hits (visits across two_nodes) 25
        ≡ (if contains across 25 && not (covered two_nodes 25) then 1 else 0))
missing_hits-visits_example =
    missing_hits-visits across 25 two_nodes (omega arith) (omega arith) two_nodes-Disjoint

-- A tree that is the list of its nodes.
abbrev listed : AvlSet ℕ
listed = record {
  Tree = List (Node ℕ);
  in_order = λ nodes. nodes;
  insert_node = insert;
  erase_node = erase;
  set_region = set_access_region;
  in_order-insert_node = λ n nodes. refl;
  in_order-erase_node = λ key nodes. refl;
  in_order-set_region = λ key region nodes. refl;
}

lookup-fragment_intersecting_in_example :
    (lookup (λ c. c) (fragment_intersecting_in listed (λ c. c) across two_nodes) 17
      ≡ lookup (λ c. c) two_nodes 17)
    × Disjoint 0 (fragment_intersecting_in listed (λ c. c) across two_nodes)
    × IsCut (λ c. c) across (fragment_intersecting_in listed (λ c. c) across two_nodes)
lookup-fragment_intersecting_in_example =
    lookup-fragment_intersecting_in listed (λ c. c) (λ c. c) across two_nodes 17 (λ c. refl)
      (omega arith) (omega arith) two_nodes-Disjoint

-- The end of the first node, with other contents.
abbrev tail : Node ℕ
tail = record { region = record { start_address = 12; length = 8 }; contents = 3 }

lookup-replace_example :
    (lookup (λ c. c) (replace listed 10 tail two_nodes) 15 ≡ (
      if contains tail.region 15
      then some 3
      else if contains first.region 15
      then none
      else lookup (λ c. c) two_nodes 15))
    × Disjoint 0 (replace listed 10 tail two_nodes)
unfolding end_address
lookup-replace_example =
    lookup-replace listed (λ c. c) tail first [] (second ∷ []) two_nodes 15 (omega arith)
      (omega arith) (omega arith) (omega arith) two_nodes-Disjoint refl
