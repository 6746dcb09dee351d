-- ===== src/Merkle/Widths.antt =====
-- `level_widths`: how many nodes each level of the Merkle tree has, from the root down.
use pycoinnet.Prelude.{
  refl, ℕ, zero, suc, ◌+◌, ◌/◌, ◌<◌, ◌≡◌, List, [], ◌∷◌, ok, arith, Bool-cases, inl, inr, ltb,
  last_or,
}
use pycoinnet.Merkle.{widths_from, level_widths}

-- Each width is half of the next one, rounded up, and only the first one may be 1.
abbrev pub AreHalved : ℕ → List ℕ → Type 0
AreHalved w [] = Unit
AreHalved w (w' ∷ ws) = (w ≡ (w' + 1) / 2) × (1 < w') × AreHalved w' ws

widths_from_lem :
    (f count : ℕ) (acc : List ℕ)
    → count < f
    → 0 < count
    → AreHalved count acc
    → (ws : List ℕ) × (widths_from f count acc ≡ ok (1 ∷ ws))
      × AreHalved 1 ws
      × (last_or 1 ws ≡ last_or count acc)
unfolding widths_from
widths_from_lem zero count acc h k a = absurd (omega arith)
widths_from_lem (suc f) count acc h k a = elim (Bool-cases (ltb 1 count)) [
  | inr done ↦ let one : count ≡ 1 = ground arith in (acc, ground arith, rw one at a, rw one)
  | inl more ↦
      let (ws, e, halved, last) =
        widths_from_lem f ((count + 1) / 2) (count ∷ acc) (ground arith) (ground arith)
          (refl, ground arith, a) in
      (ws, ground (arith, e), halved, last)
]

-- For at least one transaction the loop ends: the root's level has one node, each level has half
-- as many nodes as the next one, rounded up, and the last level has one for each transaction.
pub level_widths_lem :
    (n : ℕ)
    → 0 < n
    → (ws : List ℕ) × (level_widths n ≡ ok (1 ∷ ws)) × AreHalved 1 ws × (last_or 1 ws ≡ n)
unfolding level_widths
level_widths_lem n h = widths_from_lem (suc n) n [] (omega arith) h tt
