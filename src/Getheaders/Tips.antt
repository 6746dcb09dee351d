-- ===== src/Getheaders/Tips.antt =====
-- Views whose blocks have indices from 0 on.
use mathlib.Core.Path.{subst}
use pycoinnet.Prelude.{
  ℕ, ◌+◌, ◌==◌, ◌≡◌, refl, sym, ap, ◌∙◌, ◌⊎◌, inl, inr, arith, false, Bool-cases, Option, none,
  some, List, [], ◌∷◌, length, bytes_eq, bytes_eq_iff, ok, ℤ, pos, negsuc, ◌+ℤ◌, ◌≤ℤ◌, ltb_ℤ, In,
  In-filter, In-append, append-In, Bytes, ◌≢◌, int_laws,
}
use pycoinnet.Chain.{
  Node, View, Header, hash_initial_block, genesis_tuple, last_block_tuple, last_block_index,
  parent_of, tuple_for_hash, winnow, halsies_indices, set_tuples, sorted_set,
  do_headers_improve_path,
}
use pycoinnet.Dict.{Dict}
use pycoinnet.Chain.Index.{IsConsistent, view_of, tuple_for_hash_sound}
use pycoinnet.Chain.Improve.{chain_tuples, kept_below, reorganised, improve_unknown}
use pycoinnet.Chain.Locator.{last_block_tuple-In}
use pycoinnet.Chain.Reorg.{Improved, TooShort, Broken, improve_outcomes, parent_of_total}

abbrev pub NonNegative : View → Type 0
NonNegative v = (n : Node) → In n v.node_tuples → pos 0 ≤ℤ n.index

pub tip_index :
    (v : View) (m : Node)
    → NonNegative v
    → In m v.node_tuples
    → (t : ℕ) × (last_block_index v ≡ pos t)
unfolding last_block_index
tip_index v m h i =
    at_least (last_block_tuple v).index (h (last_block_tuple v) (last_block_tuple-In v m i))
  where
    at_least : (i : ℤ) → pos 0 ≤ℤ i → (t : ℕ) × (i ≡ pos t)
    at_least (pos t) h = (t, refl)
    at_least (negsuc t) h = absurd (omega arith)

chain_tuples-NonNegative :
    (next : ℤ) (work : ℕ) (hs : List Header)
    → pos 0 ≤ℤ next
    → (n : Node) → In n (chain_tuples next work hs)
    → pos 0 ≤ℤ n.index
unfolding chain_tuples
chain_tuples-NonNegative next work [] h n i = elim i [ ]
chain_tuples-NonNegative next work (x ∷ xs) h n (inl e) = subst (λ m. pos 0 ≤ℤ m.index) (sym e) h
chain_tuples-NonNegative next work (x ∷ xs) h n (inr i) =
    chain_tuples-NonNegative (next +ℤ pos 1) (work + 1) xs (omega int_laws) n i

nonempty : (m : Node) (ns : List Node) → In m ns → (length ns == 0) ≡ false
nonempty m [] i = elim i [ ]
nonempty m (n ∷ ns) i = ground arith

parent_of_nonempty :
    (h : Header) (v : View) (m : Node)
    → In m v.node_tuples
    → parent_of h v ≡ tuple_for_hash h.previous_block_hash v
unfolding parent_of
parent_of_nonempty h v m i = rw (nonempty m v.node_tuples i) refl

ok_some : {a b : Node} → ok (some a) ≡ ok (some b) → a ≡ b
ok_some e = cc

-- A view without blocks, or with one.
abbrev pub EmptyOr : View → Type 0
EmptyOr v = (v.node_tuples ≡ []) ⊎ ((n : Node) × In n v.node_tuples)

pub empty_or : (v : View) → EmptyOr v
empty_or v = by_tuples v.node_tuples
  where
    by_tuples : (ns : List Node) → (ns ≡ []) ⊎ ((n : Node) × In n ns)
    by_tuples [] = inl refl
    by_tuples (n ∷ ns) = inr (n, inl refl)

parent_of_empty :
    (h : Header) (v : View) (p : Node)
    → v.node_tuples ≡ []
    → parent_of h v ≡ ok (some p)
    → p ≡ genesis_tuple
unfolding parent_of
parent_of_empty h v p n e = elim (Bool-cases (bytes_eq h.previous_block_hash hash_initial_block)) [
  | inl initial ↦ ok_some (sym e ∙ rw (parent_of, ap length n, initial) refl)
  | inr other ↦ absurd (ok_none (sym (rw (parent_of, ap length n, other) refl) ∙ e))
]
  where
    ok_none : ok none ≡ ok (some p) → ⊥
    ok_none q = cc

-- Without a block nothing is left of the view, which has none.
pub winnow_empty : (v : View) → v.node_tuples ≡ [] → winnow v ≡ ok (view_of [])
unfolding winnow halsies_indices last_block_index last_block_tuple set_tuples sorted_set
winnow_empty v e = of_tuples v.node_tuples v.hash_to_index e
  where
    of_tuples :
        (ns : List Node) (d : Dict Bytes ℤ)
        → ns ≡ []
        → winnow (record { node_tuples = ns; hash_to_index = d }) ≡ ok (view_of [])
    of_tuples ns d e = rw e refl

parent_index_nonempty :
    (h : Header) (v : View) (p m : Node)
    → IsConsistent v
    → NonNegative v
    → In m v.node_tuples
    → parent_of h v ≡ ok (some p)
    → pos 0 ≤ℤ p.index +ℤ pos 1
unfolding tuple_for_hash ◌+ℤ◌
parent_index_nonempty h v p m c nn i e =
    let known = sym (parent_of_nonempty h v m i) ∙ e in
    elim (Bool-cases (bytes_eq h.previous_block_hash hash_initial_block)) [
      | inl initial ↦
          let genesis : tuple_for_hash h.previous_block_hash v ≡ ok (some genesis_tuple) =
            rw (tuple_for_hash, initial) refl in
          subst (λ n. pos 0 ≤ℤ n.index +ℤ pos 1) (ok_some (sym genesis ∙ known)) (omega arith)
      | inr other ↦
          let differs : h.previous_block_hash ≢ hash_initial_block =
            λ q. cc (other, (bytes_eq_iff _ _).1 q) in
          let (j, same) = tuple_for_hash_sound v c h.previous_block_hash known differs in
          after p.index (nn p j)
    ]
  where
    after : (k : ℤ) → pos 0 ≤ℤ k → pos 0 ≤ℤ k +ℤ pos 1
    after k l = omega int_laws

parent_index :
    (h : Header) (v : View) (p : Node)
    → IsConsistent v
    → NonNegative v
    → parent_of h v ≡ ok (some p)
    → pos 0 ≤ℤ p.index +ℤ pos 1
unfolding ◌+ℤ◌
parent_index h v p c nn e = elim (empty_or v) [
  | inl empty ↦
      subst (λ n. pos 0 ≤ℤ n.index +ℤ pos 1) (sym (parent_of_empty h v p empty e)) (omega arith)
  | inr (m, i) ↦ parent_index_nonempty h v p m c nn i e
]

reorganised-NonNegative :
    (p : Node) (hs : List Header) (v : View)
    → NonNegative v
    → pos 0 ≤ℤ p.index +ℤ pos 1
    → NonNegative (view_of (reorganised p hs v))
unfolding reorganised
reorganised-NonNegative p hs v nn l n i =
    elim (In-append n (kept_below (p.index +ℤ pos 1) v.node_tuples) _ i) [
      | inl j ↦ nn n (In-filter (λ t. ltb_ℤ t.index (p.index +ℤ pos 1)) n v.node_tuples j).0
      | inr j ↦ chain_tuples-NonNegative (p.index +ℤ pos 1) p.work hs l n j
    ]

-- The first new block.
pub first_tuple : Node → Header → Node
first_tuple p h = record { index = p.index +ℤ pos 1; hash = h.hash; work = p.work + 1 }

first_tuple-In :
    (p : Node) (h : Header) (hs : List Header) (v : View)
    → In (first_tuple p h) (reorganised p (h ∷ hs) v)
unfolding reorganised chain_tuples first_tuple
first_tuple-In p h hs v =
    append-In _ (kept_below (p.index +ℤ pos 1) v.node_tuples) _ (inr (inl refl))

-- An improvement keeps the indices from 0 on.
pub improved_tip :
    (h : Header) (hs : List Header) (v : View) {r : Option ℤ} {v' : View}
    → IsConsistent v
    → NonNegative v
    → do_headers_improve_path (h ∷ hs) v ≡ ok (r, v')
    → NonNegative v' × EmptyOr v'
improved_tip h hs v {r} {v'} c nn e = after (parent_of_total h v c)
  where
    ok_view : {s : Option ℤ} {u : View} → do_headers_improve_path (h ∷ hs) v ≡ ok (s, u) → u ≡ v'
    ok_view q = cc

    of_known :
        (p : Node)
        → parent_of h v ≡ ok (some p)
        → Improved h hs v p ⊎ TooShort h hs v p ⊎ Broken h hs v p
        → NonNegative v' × EmptyOr v'
    of_known p q (inl k) =
        subst (λ u. NonNegative u × EmptyOr u) (ok_view k.2)
          (
            reorganised-NonNegative p (h ∷ hs) v nn (parent_index h v p c nn q),
            inr (first_tuple p h, first_tuple-In p h hs v),
          )
    of_known p q (inr (inl k)) =
        subst (λ u. NonNegative u × EmptyOr u) (ok_view k.2) (nn, empty_or v)
    of_known p q (inr (inr k)) = absurd (cc)

    after : (o : Option Node) × (parent_of h v ≡ ok o) → NonNegative v' × EmptyOr v'
    after (none, q) =
        subst (λ u. NonNegative u × EmptyOr u) (ok_view (improve_unknown h hs v q)) (nn, empty_or v)
    after (some p, q) = of_known p q (improve_outcomes h hs v p c.ascending q)
