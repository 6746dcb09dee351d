-- ===== src/Chain/Index.antt =====
-- The dict `hash_to_index` beside the tuples, and `tuple_for_hash`.
use pycoinnet.Prelude.{
  Option, none, ◌≡◌, ◌≢◌, refl, sym, ◌∙◌, ap, ◌⊎◌, inl, inr, some, List, [], ◌∷◌, ◌++◌, arith, All,
  In, filter, All-filter, Bytes, bytes_eq, bytes_eq_iff, bytes_key, ok, ℤ, ◌<ℤ◌, Bool, Bool-cases,
  Option-cases, bytes_eq_ne, eq_of_parts,
}
use pycoinnet.Dict.{Dict, lookup, put, lookup-put}
use pycoinnet.Chain.{
  Node, View, hash_initial_block, genesis_tuple, note_hashes, add_tuples, set_tuples,
  tuple_for_index, tuple_for_hash,
}
use pycoinnet.Chain.Order.{Ascending, StrictlyAbove, sorted_set-Ascending, Ascending-Sorted}
use pycoinnet.Chain.Search.{tuple_for_index-IsFloor}

abbrev pub HashesDiffer : Node → List Node → Type 0
HashesDiffer n = All (λ m. n.hash ≢ m.hash)

abbrev pub DistinctHashes : List Node → Type 0
DistinctHashes [] = Unit
DistinctHashes (n ∷ ns) = HashesDiffer n ns × DistinctHashes ns

pub DistinctHashes-filter :
    (p : Node → Bool) (ns : List Node) → DistinctHashes ns → DistinctHashes (filter p ns)
DistinctHashes-filter p [] h = tt
DistinctHashes-filter p (n ∷ ns) h =
    ground (arith, DistinctHashes-filter p ns h.1, All-filter (λ m. n.hash ≢ m.hash) p ns h.0)

-- The view that `_set_tuples` builds from tuples in ascending order.
abbrev pub view_of : List Node → View
view_of ns = record { node_tuples = ns; hash_to_index = note_hashes ns [] }

pub set_tuples-Ascending : (ns : List Node) → Ascending ns → set_tuples ns ≡ view_of ns
unfolding set_tuples
set_tuples-Ascending ns h = rw (sorted_set-Ascending ns h, sorted_set-Ascending ns h)

note_hashes-append :
    (xs ys : List Node) (d : Dict Bytes ℤ)
    → note_hashes (xs ++ ys) d ≡ note_hashes ys (note_hashes xs d)
unfolding note_hashes
note_hashes-append [] ys d = refl
note_hashes-append (x ∷ xs) ys d = note_hashes-append xs ys (put x.hash x.index d)

-- Tuples past the end of an ascending view are appended.
pub add_tuples-Ascending :
    (ns new : List Node)
    → Ascending new
    → Ascending (ns ++ new)
    → add_tuples new (view_of ns) ≡ view_of (ns ++ new)
unfolding add_tuples
add_tuples-Ascending ns new h k =
    rw (sorted_set-Ascending new h, sorted_set-Ascending (ns ++ new) k, note_hashes-append)

lookup-note_hashes_other :
    (h : Bytes) (ns : List Node) (d : Dict Bytes ℤ)
    → All (λ m. h ≢ m.hash) ns
    → lookup h (note_hashes ns d) ≡ lookup h d
unfolding note_hashes
lookup-note_hashes_other h [] d a = refl
lookup-note_hashes_other h (n ∷ ns) d a =
    lookup-note_hashes_other h ns (put n.hash n.index d) a.1
    ∙ rw lookup-put (ground (arith, bytes_eq_iff n.hash h))

lookup-note_hashes :
    (n : Node) (ns : List Node) (d : Dict Bytes ℤ)
    → DistinctHashes ns
    → In n ns
    → lookup n.hash (note_hashes ns d) ≡ some n.index
unfolding note_hashes
lookup-note_hashes n [] d h k = elim k [ ]
lookup-note_hashes n (m ∷ ns) d h (inl e) = rw e (
    lookup-note_hashes_other m.hash ns (put m.hash m.index d) h.0
    ∙ rw lookup-put (ground (arith, bytes_eq_iff m.hash m.hash)))
lookup-note_hashes n (m ∷ ns) d h (inr k) = lookup-note_hashes n ns (put m.hash m.index d) h.1 k

-- A tuple of the view has the hash and the index.
abbrev pub Recorded : List Node → Bytes → ℤ → Type 0
Recorded ns h i = (n : Node) × In n ns × (n.hash ≡ h) × (n.index ≡ i)

lookup-Recorded :
    (h : Bytes) (i : ℤ) (ns : List Node) (d : Dict Bytes ℤ)
    → lookup h (note_hashes ns d) ≡ some i
    → Recorded ns h i ⊎ (lookup h d ≡ some i)
unfolding note_hashes
lookup-Recorded h i [] d e = inr e
lookup-Recorded h i (n ∷ ns) d e = elim (lookup-Recorded h i ns (put n.hash n.index d) e) [
  | inl (m, k, p, q) ↦ inl (m, inr k, p, q)
  | inr f ↦
      let g = sym (lookup-put n.hash h n.index d) ∙ f in
      elim (Bool-cases (bytes_eq n.hash h)) [
        | inl same ↦ inl (n, inl refl, (bytes_eq_iff n.hash h).0 same, ground arith)
        | inr other ↦ inr (ground arith)
      ]
]

-- The dict holds exactly the hashes of the tuples, each with the index of its tuple.
pub record IsConsistent (v : View) : Type 0 where
  pub ascending : Ascending v.node_tuples
  pub distinct : DistinctHashes v.node_tuples
  pub recorded : (n : Node) → In n v.node_tuples → lookup n.hash v.hash_to_index ≡ some n.index
  pub known : (h : Bytes) (i : ℤ) → lookup h v.hash_to_index ≡ some i → Recorded v.node_tuples h i

pub view_of-IsConsistent :
    (ns : List Node) → Ascending ns → DistinctHashes ns → IsConsistent (view_of ns)
view_of-IsConsistent ns a d = record {
  ascending = a;
  distinct = d;
  recorded = λ n k. lookup-note_hashes n ns [] d k;
  known = λ h i e. known_of h i (lookup-Recorded h i ns [] e);
}
  where
    known_of : (h : Bytes) (i : ℤ) → Recorded ns h i ⊎ (lookup h [] ≡ some i) → Recorded ns h i
    known_of h i (inl r) = r
    known_of h i (inr e) = unfold lookup in ground arith

StrictlyAbove-In : (i : ℤ) (ns : List Node) (m : Node) → StrictlyAbove i ns → In m ns → i <ℤ m.index
StrictlyAbove-In i [] m h k = elim k [ ]
StrictlyAbove-In i (n ∷ ns) m h (inl e) = rw e h.0
StrictlyAbove-In i (n ∷ ns) m h (inr k) = StrictlyAbove-In i ns m h.1 k

-- In ascending tuples an index has one tuple.
pub Ascending-unique :
    (ns : List Node) (m n : Node) → Ascending ns → In m ns → In n ns → m.index ≡ n.index → m ≡ n
Ascending-unique [] m n a p q e = elim p [ ]
Ascending-unique (x ∷ ns) m n a (inl p) (inl q) e = p ∙ sym q
Ascending-unique (x ∷ ns) m n a (inl p) (inr q) e =
    absurd (ground (arith, StrictlyAbove-In x.index ns n a.0 q, ap (λ (t : Node). t.index) p))
Ascending-unique (x ∷ ns) m n a (inr p) (inl q) e =
    absurd (ground (arith, StrictlyAbove-In x.index ns m a.0 p, ap (λ (t : Node). t.index) q))
Ascending-unique (x ∷ ns) m n a (inr p) (inr q) e = Ascending-unique ns m n a.1 p q e

module _ (v : View) (c : IsConsistent v) where
  -- In a consistent view `tuple_for_index` at the index of a tuple returns that tuple.
  pub tuple_for_index_self : (n : Node) → In n v.node_tuples → tuple_for_index n.index v ≡ ok n
  tuple_for_index_self n k =
      let (m, e, floor) =
        tuple_for_index-IsFloor v n.index (Ascending-Sorted v.node_tuples c.ascending) n k
          (omega arith) in
      e
      ∙ ap ok (
          Ascending-unique v.node_tuples m n c.ascending floor.member k (
            eq_of_parts m.index n.index
              (omega (arith, floor.upto, floor.largest n k (omega arith)))))

  -- `tuple_for_hash` finds every tuple of a consistent view by its hash, unless that is the
  -- initial hash.
  pub tuple_for_hash_found :
      (n : Node)
      → In n v.node_tuples
      → n.hash ≢ hash_initial_block
      → tuple_for_hash n.hash v ≡ ok (some n)
  unfolding tuple_for_hash
  tuple_for_hash_found n k other = rw (bytes_eq_ne other, c.recorded n k, tuple_for_index_self n k)

  -- Over a consistent view, what `tuple_for_hash` returns has the hash and lies in the view, unless
  -- the hash asked for is the initial one.
  pub tuple_for_hash_sound :
      (h : Bytes) {n : Node}
      → tuple_for_hash h v ≡ ok (some n)
      → h ≢ hash_initial_block
      → In n v.node_tuples × (n.hash ≡ h)
  unfolding tuple_for_hash
  tuple_for_hash_sound h {n} e other = elim (Option-cases (lookup h v.hash_to_index)) [
    | inl miss ↦ absurd (ground (arith, bytes_eq_ne other))
    | inr (i, hit) ↦
        let (m, k, p, q) = c.known h i hit in
        let found = tuple_for_index_self m k in
        let same : m ≡ n = ground (arith, bytes_eq_ne other, rw q at found) in rw (← same) (k, p)
  ]

  -- The lookup of a hash raises nothing.
  pub tuple_for_hash_total : (h : Bytes) → (o : Option Node) × (tuple_for_hash h v ≡ ok o)
  unfolding tuple_for_hash
  tuple_for_hash_total h = elim (Bool-cases (bytes_eq h hash_initial_block)) [
    | inl initial ↦ (some genesis_tuple, rw initial)
    | inr other ↦ elim (Option-cases (lookup h v.hash_to_index)) [
      | inl miss ↦ (none, rw (other, miss))
      | inr (i, hit) ↦
          let (m, k, p, q) = c.known h i hit in
          let found = tuple_for_index_self m k in
          (some m, rw (other, hit) (ground (arith, rw q at found)))
    ]
  ]
