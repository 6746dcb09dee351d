-- ===== src/Chain/Search.antt =====
-- `tuple_for_index`: its binary search against what its docstring promises.
use pycoinnet.Prelude.{
  item_at-some, ℕ, zero, suc, ◌+◌, ◌-◌, ◌/◌, ◌≤◌, ◌<◌, ◌≡◌, ◌≢◌, refl, Bool-cases, inl, inr, some,
  List, [], ◌∷◌, arith, length, get_elem?, last_or, ok, ℤ, ltb_ℤ, ◌≤ℤ◌, ◌<ℤ◌, All, ◌∙◌, dec_lt,
  if◌then◌else◌, In, ap, sym,
}
use pycoinnet.Chain.{Node, View, genesis_tuple, bisect, item_before, tuple_for_index}
use pycoinnet.Chain.Order.{Above, Sorted}

pub get_elem?_of_lt :
    {A : Type 0} (xs : List A) (i : ℕ) → i < length xs → (x : A) × (get_elem? xs i ≡ some x)
get_elem?_of_lt [] i h = absurd (omega arith)
get_elem?_of_lt (x ∷ xs) zero h = (x, refl)
get_elem?_of_lt (x ∷ xs) (suc i) h = get_elem?_of_lt xs i (omega arith)

pub lt_of_get_elem? :
    {A : Type 0} (xs : List A) (i : ℕ) {x : A} → get_elem? xs i ≡ some x → i < length xs
lt_of_get_elem? [] i h = ground arith
lt_of_get_elem? (x ∷ xs) zero h = omega arith
lt_of_get_elem? (x ∷ xs) (suc i) h = omega (arith, lt_of_get_elem? xs i h)

get_elem?-Above :
    (i : ℤ) (ns : List Node) (j : ℕ) {m : Node}
    → Above i ns
    → get_elem? ns j ≡ some m
    → i ≤ℤ m.index
get_elem?-Above i [] j h e = ground arith
get_elem?-Above i (n ∷ ns) zero h e = ground arith
get_elem?-Above i (n ∷ ns) (suc j) h e = get_elem?-Above i ns j h.1 e

get_elem?-Sorted :
    (ns : List Node) (i j : ℕ) {n m : Node}
    → Sorted ns
    → get_elem? ns i ≡ some n
    → get_elem? ns j ≡ some m
    → i ≤ j
    → n.index ≤ℤ m.index
get_elem?-Sorted [] i j s p q h = ground arith
get_elem?-Sorted (x ∷ ns) zero zero s p q h = ground arith
get_elem?-Sorted (x ∷ ns) zero (suc j) {n} {m} s p q h =
    ground (arith, get_elem?-Above x.index ns j {m = m} s.0 q)
get_elem?-Sorted (x ∷ ns) (suc i) zero s p q h = absurd (omega arith)
get_elem?-Sorted (x ∷ ns) (suc i) (suc j) s p q h = get_elem?-Sorted ns i j s.1 p q (omega arith)

-- `k` parts the tuples into those up to the index and those past it.
pub record Parts (ns : List Node) (key : ℤ) (lo hi : ℕ) : Type 0 where
  pub before : (i : ℕ) (n : Node) → get_elem? ns i ≡ some n → i < lo → n.index ≤ℤ key
  pub after : (i : ℕ) (n : Node) → get_elem? ns i ≡ some n → hi ≤ i → key <ℤ n.index

bisect_step :
    (f : ℕ) (ns : List Node) (key : ℤ) (lo hi : ℕ) {n : Node}
    → lo < hi
    → get_elem? ns ((lo + hi) / 2) ≡ some n
    → bisect (suc f) ns key lo hi ≡ (
        if ltb_ℤ key n.index
        then bisect f ns key lo ((lo + hi) / 2)
        else bisect f ns key ((lo + hi) / 2 + 1) hi)
unfolding bisect
bisect_step f ns key lo hi h e = ground arith

bisect-Parts :
    (f : ℕ) (ns : List Node) (key : ℤ) (lo hi : ℕ)
    → Sorted ns
    → lo ≤ hi
    → hi ≤ length ns
    → hi ≤ lo + f
    → Parts ns key lo hi
    → (k : ℕ) × (bisect f ns key lo hi ≡ ok k) × (k ≤ length ns) × Parts ns key k k
unfolding bisect
bisect-Parts zero ns key lo hi s a b c p = (
  hi,
  ground arith,
  b,
  record { before = λ i n e l. p.before i n e (omega arith); after = p.after },
)
bisect-Parts (suc f) ns key lo hi s a b c p = elim (dec_lt lo hi) [
  | no done ↦ (
    hi,
    ground arith,
    b,
    record { before = λ i n e l. p.before i n e (omega arith); after = p.after },
  )
  | yes more ↦
      let mid = (lo + hi) / 2 in
      let (n, at) = get_elem?_of_lt ns mid (omega arith) in
      let step = bisect_step f ns key lo hi more at in
      elim (Bool-cases (ltb_ℤ key n.index)) [
        | inl past ↦
            let (k, e, le, parts) =
              bisect-Parts f ns key lo mid s (omega arith) (omega arith) (omega arith) (record {
                before = p.before;
                after = λ i m e l. ground (arith, get_elem?-Sorted ns mid i s at e);
              }) in
            (k, step ∙ rw past e, le, parts)
        | inr upto ↦
            let (k, e, le, parts) =
              bisect-Parts f ns key (mid + 1) hi s (omega arith) b (omega arith) (record {
                before = λ i m e l. ground (arith, get_elem?-Sorted ns i mid s e at);
                after = p.after;
              }) in
            (k, step ∙ rw upto e, le, parts)
      ]
]

-- What the docstring promises: the tuple with the largest index up to the given one.
pub record IsFloor (ns : List Node) (key : ℤ) (n : Node) : Type 0 where
  pub member : In n ns
  pub upto : n.index ≤ℤ key
  pub largest : (m : Node) → In m ns → m.index ≤ℤ key → m.index ≤ℤ n.index

get_elem?-In : {A : Type 0} (xs : List A) (i : ℕ) {x : A} → get_elem? xs i ≡ some x → In x xs
get_elem?-In [] i h = ground arith
get_elem?-In (x ∷ xs) zero h = ground arith
get_elem?-In (x ∷ xs) (suc i) h = inr (get_elem?-In xs i h)

In-get_elem? : {A : Type 0} (x : A) (xs : List A) → In x xs → (i : ℕ) × (get_elem? xs i ≡ some x)
In-get_elem? x [] h = elim h [ ]
In-get_elem? x (y ∷ xs) (inl e) = (0, ap some (sym e))
In-get_elem? x (y ∷ xs) (inr h) = let (i, e) = In-get_elem? x xs h in (suc i, e)

not_after :
    (ns : List Node) (key : ℤ) (k : ℕ)
    → Parts ns key k k
    → (i : ℕ) {n : Node} → get_elem? ns i ≡ some n
    → n.index ≤ℤ key
    → i < k
not_after ns key k parts i {n} e upto = elim (dec_lt i k) [
  | yes lt ↦ lt
  | no past ↦ absurd (omega (arith, parts.after i n e (omega arith)))
]

search :
    (v : View) (key : ℤ)
    → Sorted v.node_tuples
    → length v.node_tuples ≢ 0
    → (k : ℕ) × (tuple_for_index key v ≡ item_before v.node_tuples k)
      × (k ≤ length v.node_tuples)
      × Parts v.node_tuples key k k
unfolding tuple_for_index
search v key sorted nonempty =
    let ns = v.node_tuples in
    let (k, e, le, parts) =
      bisect-Parts (length ns) ns key 0 (length ns) sorted (omega arith) (omega arith) (omega arith)
        (record {
          before = λ i n e l. absurd (omega arith);
          after = λ i n e l. absurd (omega (arith, lt_of_get_elem? ns i e));
        }) in
    (k, ground (arith, e), le, parts)

item_before_at :
    (ns : List Node) (k : ℕ) {n : Node}
    → 0 < k
    → get_elem? ns (k - 1) ≡ some n
    → item_before ns k ≡ ok n
unfolding item_before
item_before_at ns zero h e = absurd (omega arith)
item_before_at ns (suc k) h e =
    item_at-some ns k (let same : k ≡ suc k - 1 = omega arith in rw same e)

get_elem?_last : (n : Node) (ns : List Node) → get_elem? (n ∷ ns) (length ns) ≡ some (last_or n ns)
get_elem?_last n [] = refl
get_elem?_last n (m ∷ ns) = get_elem?_last m ns

module _ (v : View) (key : ℤ) (sorted : Sorted v.node_tuples) where
  -- If a tuple of a sorted view lies at or below the index, the search returns without an error,
  -- and it returns the tuple with the largest such index.
  pub tuple_for_index-IsFloor :
      (m : Node)
      → In m v.node_tuples
      → m.index ≤ℤ key
      → (n : Node) × (tuple_for_index key v ≡ ok n) × IsFloor v.node_tuples key n
  tuple_for_index-IsFloor m member upto =
      let ns = v.node_tuples in
      let (j, at_j) = In-get_elem? m ns member in
      let inside = lt_of_get_elem? ns j at_j in
      let (k, found, le, parts) = search v key sorted (omega arith) in
      let j_lt : j < k = not_after ns key k parts j at_j upto in
      let (n, at_n) = get_elem?_of_lt ns (k - 1) (omega arith) in
      (
        n,
        found ∙ item_before_at ns k (omega arith) at_n,
        record {
          member = get_elem?-In ns (k - 1) at_n;
          upto = parts.before (k - 1) n at_n (omega arith);
          largest = λ p p_in p_upto.
              let (i, at_i) = In-get_elem? p ns p_in in
              let i_lt : i < k = not_after ns key k parts i at_i p_upto in
              get_elem?-Sorted ns i (k - 1) sorted at_i at_n (omega arith);
        },
      )

-- If every tuple of a sorted view lies past the index, the search wraps round and returns the
-- last tuple.
pub tuple_for_index_below :
    (v : View) (key : ℤ)
    → Sorted v.node_tuples
    → All (λ n. key <ℤ n.index) v.node_tuples
    → tuple_for_index key v ≡ ok (last_or genesis_tuple v.node_tuples)
tuple_for_index_below v key sorted above = below_of v.node_tuples refl
  where
    below_of :
        (ns : List Node)
        → v.node_tuples ≡ ns
        → tuple_for_index key v ≡ ok (last_or genesis_tuple ns)
    below_of [] e = unfold tuple_for_index in ground arith
    below_of (n ∷ ns) e =
        let (k, found, le, parts) = search v key sorted (rw e (omega arith)) in
        let head_past : key <ℤ n.index = (rw e at above).0 in
        let k_zero : k ≡ 0 = elim (dec_lt 0 k) [
          | no h ↦ omega arith
          | yes h ↦ absurd (omega (arith, parts.before 0 n (rw e refl) h))
        ] in
        found
        ∙ rw (k_zero, e)
            (unfold item_before in
              item_at-some (n ∷ ns) (suc (length ns) - 1) (
                let same : suc (length ns) - 1 ≡ length ns = omega arith in
                rw same (get_elem?_last n ns)))
