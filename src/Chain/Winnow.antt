-- ===== src/Chain/Winnow.antt =====
-- `_halsies_indices`, `winnow` and `rewind`: thinning out and cutting back the view.
use native.Mathlib.Nat.{div-add-mod, mul-suc}
use pycoinnet.Prelude.{
  All-map, ◌↔◌, ℕ, zero, suc, ◌+◌, ◌-◌, ◌*◌, ◌/◌, ◌%◌, ◌<◌, ◌≤◌, ◌≡◌, refl, sym, ◌∙◌, ap, inl, inr,
  List, [], ◌∷◌, arith, All, In, filter, filter-In, In-filter, Bool, true, ◌&&◌, Bool-cases,
  if◌then◌else◌, ◌==◌, ok, ℤ, pos, negsuc, ◌-ℤ◌, ◌≤ℤ◌, leb_ℤ, mod_ℤ, leb,
}
use pycoinnet.Chain.{
  Node, View, last_block_tuple, last_block_index, halsies_from, halsies_indices, has_index, winnow,
  rewind, set_tuples,
}
use pycoinnet.Chain.Order.{Ascending-filter}
use pycoinnet.Chain.Index.{
  DistinctHashes-filter, IsConsistent, view_of, view_of-IsConsistent, set_tuples-Ascending,
}
use pycoinnet.Chain.Locator.{last_block_tuple-In}

halsies_negative : (f k step count : ℕ) → halsies_from (suc f) (negsuc k) step count ≡ ok []
unfolding halsies_from
halsies_negative f k step count = ground arith

next_negative : (step : ℕ) → 0 < step → pos 0 -ℤ pos step ≡ negsuc (step - 1)
unfolding ◌-ℤ◌
next_negative step h = ground arith

next_positive : (n step : ℕ) → step ≤ n → pos n -ℤ pos step ≡ pos (n - step)
unfolding ◌-ℤ◌
next_positive n step h = ground arith

-- The test for a wider step, and one round of the loop.
abbrev widens : ℕ → ℕ → ℕ → Bool
widens n step count = leb (count - 1) 0 && mod_ℤ (pos (n - step)) (step * 2) == 0

halsies_round :
    (f n step count : ℕ)
    → step ≤ n
    → {rest : List ℤ}
    → (if widens n step count
        then halsies_from f (pos (n - step)) (step * 2) 2
        else halsies_from f (pos (n - step)) step (count - 1))
      ≡ ok rest
    → halsies_from (suc f) (pos n) step count ≡ ok (pos n ∷ rest)
unfolding halsies_from
halsies_round f n step count h e = ground (arith, e, next_positive n step h)

-- The indices from a multiple of the step size down: the first one and 0 are among them.
abbrev pub Halsies : ℕ → List ℤ → Type 0
Halsies n s = In (pos n) s × In (pos 0) s × All (λ i. (pos 0 ≤ℤ i) × (i ≤ℤ pos n)) s

Halsies-grow : (m n : ℕ) (s : List ℤ) → m ≤ n → Halsies m s → Halsies n (pos n ∷ s)
Halsies-grow m n s h k = (
  inl refl,
  inr k.1,
  (
    (omega arith, omega arith),
    All-map (λ i. (pos 0 ≤ℤ i) × (i ≤ℤ pos m)) (λ i. (pos 0 ≤ℤ i) × (i ≤ℤ pos n))
        (λ i a. (a.0, omega arith)) s k.2,
  ),
)

halsies_from_lem :
    (f n step q count : ℕ)
    → suc n < f
    → 0 < step
    → n ≡ step * q
    → (s : List ℤ) × (halsies_from f (pos n) step count ≡ ok s) × Halsies n s
halsies_from_lem zero n step q count h k e = absurd (omega arith)
halsies_from_lem (suc zero) n step q count h k e = absurd (omega arith)
halsies_from_lem (suc (suc f)) n step zero count h k e =
    let z : n ≡ 0 = omega arith in
    (
      pos n ∷ [],
      unfold halsies_from in
          rw (z, next_negative step k) (ground (arith, halsies_negative f (step - 1))),
      (inl refl, inl (ap pos (sym z)), ((omega arith, omega arith), tt)),
    )
halsies_from_lem (suc (suc f)) n step (suc q) count h k e =
    let product : n ≡ step * q + step = e ∙ mul-suc step q in
    let low : step ≤ n = omega arith in
    elim (Bool-cases (widens n step count)) [
      | inr keep ↦
          let (s, found, all) =
            halsies_from_lem (suc f) (n - step) step q (count - 1) (omega arith) k (omega arith) in
          (
            pos n ∷ s,
            halsies_round (suc f) n step count low (rw keep found),
            Halsies-grow (n - step) n s (omega arith) all,
          )
      | inl widen ↦
          let even : (n - step) % (step * 2) ≡ 0 = ground arith in
          let (s, found, all) =
            halsies_from_lem (suc f) (n - step) (step * 2) ((n - step) / (step * 2)) 2 (omega arith)
              (omega arith) (sym (omega (arith, div-add-mod (n - step) (step * 2)))) in
          (
            pos n ∷ s,
            halsies_round (suc f) n step count low (rw widen found),
            Halsies-grow (n - step) n s (omega arith) all,
          )
    ]

-- `_halsies_indices` ends, and it holds the index that it starts from, 0, and nothing outside.
pub halsies_indices_lem : (n : ℕ) → (s : List ℤ) × (halsies_indices (pos n) ≡ ok s) × Halsies n s
unfolding halsies_indices
halsies_indices_lem n =
    halsies_from_lem (suc (suc n)) n 1 n 2 (omega arith) (omega arith) (omega arith)

has_index-In : (i : ℤ) (s : List ℤ) → In i s → has_index s i ≡ true
unfolding has_index
has_index-In i [] h = elim h [ ]
has_index-In i (j ∷ js) h = ground (arith, has_index-In i js)

abbrev pub filtered : (ℤ → Bool) → View → View
filtered p v = view_of (filter (λ n. p n.index) v.node_tuples)

pub filtered-IsConsistent : (p : ℤ → Bool) (v : View) → IsConsistent v → IsConsistent (filtered p v)
filtered-IsConsistent p v c =
    let q = λ (n : Node). p n.index in
    view_of-IsConsistent (filter q v.node_tuples) (Ascending-filter q v.node_tuples c.ascending)
      (DistinctHashes-filter q v.node_tuples c.distinct)

-- A cut back of a consistent view is consistent, and holds exactly the tuples up to the index.
pub rewind-IsConsistent :
    (i : ℤ) (v : View)
    → IsConsistent v
    → IsConsistent (rewind i v)
      × ((n : Node) → In n (rewind i v).node_tuples ↔ (In n v.node_tuples × (n.index ≤ℤ i)))
unfolding rewind
rewind-IsConsistent i v c =
    let p = λ (n : Node). leb_ℤ n.index i in
    let shape : set_tuples (filter p v.node_tuples) ≡ filtered (λ j. leb_ℤ j i) v =
      set_tuples-Ascending (filter p v.node_tuples)
        (Ascending-filter p v.node_tuples c.ascending) in
    rw shape (
      filtered-IsConsistent (λ j. leb_ℤ j i) v c,
      λ n. (
        λ h. let (a, b) = In-filter p n v.node_tuples h in (a, ground arith),
        λ h. filter-In p n v.node_tuples h.0 (ground arith),
      ),
    )

-- A tip with an index from 0 on is a tuple of the view.
pub tip-In : (v : View) (t : ℕ) → last_block_index v ≡ pos t → In (last_block_tuple v) v.node_tuples
tip-In v t e = tip_of v.node_tuples refl
  where
    tip_of : (ns : List Node) → v.node_tuples ≡ ns → In (last_block_tuple v) v.node_tuples
    tip_of [] q = absurd (unfold last_block_index in ground arith)
    tip_of (n ∷ ns) q = last_block_tuple-In v n (rw q (inl refl))

-- Thinning out a consistent view whose tip has an index from 0 on ends; the result is
-- consistent, holds tuples of the view only, and keeps the tip and the tuple at index 0.
pub winnow-IsConsistent :
    (v : View) (t : ℕ)
    → IsConsistent v
    → last_block_index v ≡ pos t
    → (v' : View) × (winnow v ≡ ok v')
      × IsConsistent v'
      × ((n : Node) → In n v'.node_tuples → In n v.node_tuples)
      × In (last_block_tuple v) v'.node_tuples
      × ((n : Node) → In n v.node_tuples → n.index ≡ pos 0 → In n v'.node_tuples)
unfolding winnow
winnow-IsConsistent v t c e =
    let (keep, found, kept) = halsies_indices_lem t in
    let p = λ (n : Node). has_index keep n.index in
    let shape : set_tuples (filter p v.node_tuples) ≡ filtered (has_index keep) v =
      set_tuples-Ascending (filter p v.node_tuples)
        (Ascending-filter p v.node_tuples c.ascending) in
    let tip = last_block_tuple v in
    let tip_index : tip.index ≡ pos t = unfold last_block_index in e in
    (
      filtered (has_index keep) v,
      rw (e, found) (ap ok shape),
      filtered-IsConsistent (has_index keep) v c,
      λ n h. (In-filter p n v.node_tuples h).0,
      filter-In p tip v.node_tuples (tip-In v t e)
          (has_index-In tip.index keep (rw tip_index kept.0)),
      λ n h z. filter-In p n v.node_tuples h (has_index-In n.index keep (rw z kept.1)),
    )
