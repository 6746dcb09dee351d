-- ===== src/Chain/Order.antt =====
-- The order of the tuples in a view (`sorted(set(..))` in `_add_tuples`).
use Prim.Native.Nat.{Ordering}
use pycoinnet.Prelude.{
  ◌≡◌, refl, ◌⊎◌, ◌↔◌, In, Bool, List, [], ◌∷◌, ◌++◌, arith, eq_of_compare_bytes, All, All-append,
  All-filter, All-map, filter, eq_of_parts, ◌≤ℤ◌, ◌<ℤ◌, ℤ,
}
use pycoinnet.Chain.{Node, compare_node, insert_node, sorted_set}

abbrev pub Above : ℤ → List Node → Type 0
Above i = All (λ n. i ≤ℤ n.index)

abbrev pub Sorted : List Node → Type 0
Sorted [] = Unit
Sorted (n ∷ ns) = Above n.index ns × Sorted ns

abbrev pub StrictlyAbove : ℤ → List Node → Type 0
StrictlyAbove i = All (λ n. i <ℤ n.index)

-- At most one tuple for an index.
abbrev pub Ascending : List Node → Type 0
Ascending [] = Unit
Ascending (n ∷ ns) = StrictlyAbove n.index ns × Ascending ns

eq_of_compare_node : (a b : Node) → compare_node a b ≡ Ordering.eq → a ≡ b
unfolding compare_node
eq_of_compare_node a b h =
    ground (arith, eq_of_compare_bytes a.hash b.hash, eq_of_parts a.index b.index)

insert-Above :
    (i : ℤ) (n : Node) (ns : List Node) → i ≤ℤ n.index → Above i ns → Above i (insert_node n ns)
unfolding insert_node
insert-Above i n [] h k = (h, k)
insert-Above i n (m ∷ ms) h k = ground (arith, insert-Above i n ms h k.1)

Above-trans : (i j : ℤ) (ns : List Node) → i ≤ℤ j → Above j ns → Above i ns
Above-trans i j ns h = All-map (λ m. j ≤ℤ m.index) (λ m. i ≤ℤ m.index) (λ m k. omega arith) ns

le_of_compare_lt : (n m : Node) → compare_node n m ≡ Ordering.lt → n.index ≤ℤ m.index
unfolding compare_node
le_of_compare_lt n m h = ground arith

le_of_compare_gt : (n m : Node) → compare_node n m ≡ Ordering.gt → m.index ≤ℤ n.index
unfolding compare_node
le_of_compare_gt n m h = ground arith

insert-Sorted : (n : Node) (ns : List Node) → Sorted ns → Sorted (insert_node n ns)
unfolding insert_node
insert-Sorted n [] h = (tt, tt)
insert-Sorted n (m ∷ ms) h = place (compare_node n m) refl (insert-Sorted n ms h.1)
  where
    place :
        (o : Ordering)
        → compare_node n m ≡ o
        → Sorted (insert_node n ms)
        → Sorted (elim o [
          | Ordering.lt ↦ n ∷ m ∷ ms
          | Ordering.eq ↦ m ∷ ms
          | Ordering.gt ↦ m ∷ insert_node n ms
        ])
    place Ordering.lt e rest =
        let lower = le_of_compare_lt n m e in ((lower, Above-trans n.index m.index ms lower h.0), h)
    place Ordering.eq e rest = h
    place Ordering.gt e rest = (insert-Above m.index n ms (le_of_compare_gt n m e) h.0, rest)

pub sorted_set-Sorted : (ns : List Node) → Sorted (sorted_set ns)
unfolding sorted_set
sorted_set-Sorted [] = tt
sorted_set-Sorted (n ∷ ns) = insert-Sorted n (sorted_set ns) (sorted_set-Sorted ns)

pub insert-StrictlyAbove :
    (n : Node) (ns : List Node) → StrictlyAbove n.index ns → insert_node n ns ≡ n ∷ ns
unfolding insert_node compare_node
insert-StrictlyAbove n [] h = refl
insert-StrictlyAbove n (m ∷ ms) h = ground arith

pub sorted_set-Ascending : (ns : List Node) → Ascending ns → sorted_set ns ≡ ns
unfolding sorted_set
sorted_set-Ascending [] h = refl
sorted_set-Ascending (n ∷ ns) h = rw (sorted_set-Ascending ns h.1) (insert-StrictlyAbove n ns h.0)

pub Ascending-filter : (p : Node → Bool) (ns : List Node) → Ascending ns → Ascending (filter p ns)
Ascending-filter p [] h = tt
Ascending-filter p (n ∷ ns) h =
    ground (arith, Ascending-filter p ns h.1, All-filter (λ m. n.index <ℤ m.index) p ns h.0)

pub Ascending-Sorted : (ns : List Node) → Ascending ns → Sorted ns
Ascending-Sorted [] h = tt
Ascending-Sorted (n ∷ ns) h = (
  All-map (λ m. n.index <ℤ m.index) (λ m. n.index ≤ℤ m.index) (λ m k. omega arith) ns h.0,
  Ascending-Sorted ns h.1,
)

insert-In : (a n : Node) (ns : List Node) → In a (insert_node n ns) → (a ≡ n) ⊎ In a ns
unfolding insert_node
insert-In a n [] h = h
insert-In a n (m ∷ ms) h = ground (arith, insert-In a n ms)

In-insert : (a n : Node) (ns : List Node) → (a ≡ n) ⊎ In a ns → In a (insert_node n ns)
unfolding insert_node
In-insert a n [] h = h
In-insert a n (m ∷ ms) h = ground (arith, In-insert a n ms, eq_of_compare_node n m)

-- The set holds what the list holds.
pub In-sorted_set : (a : Node) (ns : List Node) → In a (sorted_set ns) ↔ In a ns
unfolding sorted_set
In-sorted_set a [] = (λ h. h, λ h. h)
In-sorted_set a (n ∷ ns) = (
  λ h. ground (arith, insert-In a n (sorted_set ns), (In-sorted_set a ns).0),
  λ h. ground (arith, In-insert a n (sorted_set ns), (In-sorted_set a ns).1),
)

pub Ascending-append :
    (xs ys : List Node)
    → Ascending xs
    → Ascending ys
    → All (λ x. StrictlyAbove x.index ys) xs
    → Ascending (xs ++ ys)
Ascending-append [] ys a b h = b
Ascending-append (x ∷ xs) ys a b h =
    (All-append (λ m. x.index <ℤ m.index) xs ys a.0 h.0, Ascending-append xs ys a.1 b h.1)
