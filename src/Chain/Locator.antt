-- ===== src/Chain/Locator.antt =====
-- `key_index_generator` and `block_locator_hashes`: the sample of hashes that a client sends with
-- getheaders.
use pycoinnet.Prelude.{
  last_or_snoc, ℕ, zero, suc, ◌-◌, ◌*◌, ◌<◌, ◌≡◌, refl, sym, ◌∙◌, ap, inl, inr, List, [], ◌∷◌, ◌++◌,
  arith, All, In, All-append, Bool-cases, if◌then◌else◌, Bytes, bytes_eq, bytes_eq_iff, ok, ℤ, pos,
  negsuc, pos_part, ◌-ℤ◌, ◌≤ℤ◌, ◌<ℤ◌, ltb_ℤ, leb, last_or, eq_of_parts,
}
use pycoinnet.Chain.{
  Node, View, last_block_tuple, last_block_index, key_indices_from, key_index_generator, append_new,
  locate, block_locator_hashes, tuple_for_index,
}
use pycoinnet.Chain.Order.{Sorted, Ascending, Ascending-Sorted}
use pycoinnet.Chain.Index.{Ascending-unique}
use pycoinnet.Chain.Search.{IsFloor, tuple_for_index-IsFloor}

-- The first key: the index, or 0 for an index below it.
abbrev pub top : ℤ → ℤ
top index = if ltb_ℤ (pos 0) index then index else pos 0

abbrev pub Descends : ℤ → List ℤ → Type 0
Descends i [] = Unit
Descends i (j ∷ js) = (j <ℤ i) × Descends j js

abbrev pub AreKeys : ℤ → List ℤ → Type 0
AreKeys index rest =
    Descends (top index) rest × All (λ i. pos 0 ≤ℤ i) rest × (last_or (top index) rest ≡ pos 0)

top_less : (index : ℤ) (step : ℕ) → pos 0 <ℤ index → 0 < step → top (index -ℤ pos step) <ℤ index
unfolding ◌-ℤ◌
top_less (pos n) step h k = ground arith
top_less (negsuc n) step h k = absurd (omega arith)

less_fuel :
    (index : ℤ) (step f : ℕ)
    → pos 0 <ℤ index
    → 0 < step
    → pos_part index < suc f
    → pos_part (index -ℤ pos step) < f
unfolding ◌-ℤ◌
less_fuel (pos n) step f h k l = ground arith
less_fuel (negsuc n) step f h k l = absurd (omega arith)

key_indices_from-AreKeys :
    (f : ℕ) (index : ℤ) (step count : ℕ)
    → pos_part index < f
    → 0 < step
    → (rest : List ℤ) × (key_indices_from f index step count ≡ ok (top index ∷ rest))
      × AreKeys index rest
unfolding key_indices_from
key_indices_from-AreKeys zero index step count h k = absurd (omega arith)
key_indices_from-AreKeys (suc f) index step count h k = elim (Bool-cases (ltb_ℤ (pos 0) index)) [
  | inr done ↦ ([], ground arith, (tt, tt, rw done))
  | inl more ↦
      let step' = if leb (count - 1) 0 then step * 2 else step in
      let count' = if leb (count - 1) 0 then 10 else count - 1 in
      let next = index -ℤ pos step in
      let positive : pos 0 <ℤ index = ground arith in
      let (rest, e, keys) =
        key_indices_from-AreKeys f next step' count' (less_fuel index step f positive k h)
          (ground arith) in
      (
        top next ∷ rest,
        ground (arith, e),
        (rw more (top_less index step positive k, keys.0), (ground arith, keys.1), keys.2),
      )
]

append_new_last : (d h : Bytes) (l : List Bytes) → last_or d (append_new l h) ≡ h
unfolding append_new
append_new_last d h [] = refl
append_new_last d h (x ∷ xs) = elim (Bool-cases (bytes_eq h (last_or x xs))) [
  | inl same ↦ rw same (sym ((bytes_eq_iff h (last_or x xs)).0 same))
  | inr other ↦ rw other (last_or_snoc x h xs)
]

append_new_head :
    (x h : Bytes) (xs : List Bytes) → (ys : List Bytes) × (append_new (x ∷ xs) h ≡ x ∷ ys)
unfolding append_new
append_new_head x h xs = ((if bytes_eq h (last_or x xs) then xs else xs ++ h ∷ []), ground arith)

append_new-All :
    (P : Bytes → Type 0) (h : Bytes) (l : List Bytes) → All P l → P h → All P (append_new l h)
unfolding append_new
append_new-All P h [] a k = (k, tt)
append_new-All P h (x ∷ xs) a k = ground (arith, All-append P (x ∷ xs) (h ∷ []) a (k, tt))

-- Some tuple of the view has the hash.
abbrev pub HasHash : View → Bytes → Type 0
HasHash v h = (n : Node) × In n v.node_tuples × (n.hash ≡ h)

last_or-In : (n : Node) (ns : List Node) → In (last_or n ns) (n ∷ ns)
last_or-In n [] = inl refl
last_or-In n (m ∷ ns) = inr (last_or-In m ns)

last_or_largest :
    (n : Node) (ns : List Node) (m : Node)
    → Sorted (n ∷ ns)
    → In m (n ∷ ns)
    → m.index ≤ℤ (last_or n ns).index
last_or_largest n [] m s (inl e) = rw e (omega arith)
last_or_largest n [] m s (inr h) = elim h [ ]
last_or_largest n (k ∷ ns) m s (inl e) =
    rw e (omega (arith, s.0.0, last_or_largest k ns k s.1 (inl refl)))
last_or_largest n (k ∷ ns) m s (inr h) = last_or_largest k ns m s.1 h

In-nonempty : (m : Node) (ns : List Node) → In m ns → (n : Node) × (t : List Node) × (ns ≡ n ∷ t)
In-nonempty m [] h = elim h [ ]
In-nonempty m (n ∷ ns) h = (n, ns, refl)

pub last_block_tuple-In :
    (v : View) (m : Node) → In m v.node_tuples → In (last_block_tuple v) v.node_tuples
unfolding last_block_tuple
last_block_tuple-In v m h = let (n, ns, e) = In-nonempty m v.node_tuples h in rw e (last_or-In n ns)

last_block_tuple_largest :
    (v : View)
    → Ascending v.node_tuples
    → (m : Node) → In m v.node_tuples
    → m.index ≤ℤ (last_block_tuple v).index
unfolding last_block_tuple
last_block_tuple_largest v a m h =
    let (n, ns, e) = In-nonempty m v.node_tuples h in
    rw e (last_or_largest n ns m (rw e at (Ascending-Sorted v.node_tuples a)) (rw e at h))

module _ (v : View) (a : Ascending v.node_tuples) (m : Node) (m_in : In m v.node_tuples)
    (low : m.index ≤ℤ pos 0) where
  -- The loop goes through, keeps the first hash, and ends with the hash for the last key.
  locate_loop :
      (is : List ℤ) (i : ℤ) (x : Bytes) (xs : List Bytes)
      → All (λ j. pos 0 ≤ℤ j) is
      → All (HasHash v) (x ∷ xs)
      → (b : Node) → IsFloor v.node_tuples i b
      → last_or x xs ≡ b.hash
      → (ys : List Bytes) × (locate v is (x ∷ xs) ≡ ok (x ∷ ys))
        × All (HasHash v) (x ∷ ys)
        × (b : Node) × IsFloor v.node_tuples (last_or i is) b
        × (last_or x ys ≡ b.hash)
  unfolding locate
  locate_loop [] i x xs p h b floor e = (xs, refl, h, b, floor, e)
  locate_loop (j ∷ is) i x xs p h b floor e =
      let (n, found, fl) =
        tuple_for_index-IsFloor v j (Ascending-Sorted v.node_tuples a) m m_in (omega arith) in
      let (ys, head) = append_new_head x n.hash xs in
      let has : HasHash v n.hash = (n, fl.member, refl) in
      let (zs, e', h', b', fl', last) =
        locate_loop is j x ys p.1 (rw head at (append_new-All (HasHash v) n.hash (x ∷ xs) h has)) n
          fl (rw head at (append_new_last x n.hash (x ∷ xs))) in
      (zs, rw (found, head) e', h', b', fl', last)

  -- The first key finds the tip.
  tip_found :
      (tuple_for_index (top (last_block_index v)) v ≡ ok (last_block_tuple v))
      × IsFloor v.node_tuples (top (last_block_index v)) (last_block_tuple v)
  unfolding last_block_index
  tip_found =
      let tip = last_block_tuple v in
      let tip_in = last_block_tuple-In v m m_in in
      let (n, found, fl) =
        tuple_for_index-IsFloor v (top tip.index) (Ascending-Sorted v.node_tuples a) tip tip_in
          (ground arith) in
      let above = last_block_tuple_largest v a n fl.member in
      let same : n ≡ tip = Ascending-unique v.node_tuples n tip a fl.member tip_in (
        eq_of_parts n.index tip.index
          (omega (arith, above, fl.largest tip tip_in (ground arith)))) in
      (found ∙ ap ok same, rw same at fl)

  -- Over an ascending view with a tuple at or below index 0, the locator is computed without an
  -- error: it begins with the hash of the tip, holds only hashes of the view, and ends with the
  -- hash of the tuple with the largest index up to 0.
  pub block_locator_hashes_lem :
      (ys : List Bytes) × (block_locator_hashes v ≡ ok ((last_block_tuple v).hash ∷ ys))
      × All (HasHash v) ((last_block_tuple v).hash ∷ ys)
      × (b : Node) × IsFloor v.node_tuples (pos 0) b
      × (last_or (last_block_tuple v).hash ys ≡ b.hash)
  unfolding block_locator_hashes key_index_generator locate append_new
  block_locator_hashes_lem =
      let index = last_block_index v in
      let tip = last_block_tuple v in
      let (rest, keys, are) =
        key_indices_from-AreKeys (suc (pos_part index)) index 1 10 (omega arith) (omega arith) in
      let has : HasHash v tip.hash = (tip, last_block_tuple-In v m m_in, refl) in
      let (ys, e, h, b, fl, last) =
        locate_loop rest (top index) tip.hash [] are.1 (has, tt) tip tip_found.1 refl in
      let (n, ns, full) = In-nonempty m v.node_tuples m_in in
      (ys, ground (arith, keys, tip_found.0, e, full), h, b, rw are.2 at fl, last)
