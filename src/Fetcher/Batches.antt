-- ===== src/Fetcher/Batches.antt =====
-- The getdata messages of pycoinnet/peer/Fetcher.py.
use pycoinnet.Prelude.{
  ℕ, zero, suc, ◌≤◌, ◌<◌, ◌≡◌, refl, ◌∙◌, ap, arith, List, [], ◌∷◌, ◌++◌, append-nil, append_assoc,
  length, length-append, All, ok, leb, Bool-cases, inl, inr,
}
use pycoinnet.Inv.{InvItem}
use pycoinnet.Fetcher.{take_batch, getdata_loop}

pub concat : List (List InvItem) → List InvItem
concat [] = []
concat (b ∷ bs) = b ++ concat bs

abbrev pub IsBatch : List InvItem → Type 0
IsBatch b = (0 < length b) × (length b ≤ 50000)

take_batch_lem :
    (so_far : List InvItem) (x : InvItem) (q : List InvItem)
    → length so_far < 50000
    → ((take_batch so_far (x ∷ q)).0 ++ (take_batch so_far (x ∷ q)).1 ≡ so_far ++ x ∷ q)
      × IsBatch (take_batch so_far (x ∷ q)).0
      × (length (take_batch so_far (x ∷ q)).1 ≤ length q)
unfolding take_batch
take_batch_lem so_far x [] h = (
  append-nil (so_far ++ x ∷ []),
  (omega (arith, length-append so_far (x ∷ [])), omega (arith, length-append so_far (x ∷ []))),
  omega arith,
)
take_batch_lem so_far x (y ∷ q) h =
    let size = length-append so_far (x ∷ []) in
    elim (Bool-cases (leb 50000 (length (so_far ++ x ∷ [])))) [
      | inl full ↦ rw full (
        append_assoc so_far (x ∷ []) (y ∷ q),
        (omega (arith, size), omega (arith, size)),
        omega arith,
      )
      | inr open_batch ↦
          let (e, b, l) = take_batch_lem (so_far ++ x ∷ []) y q (ground (arith, size)) in
          rw open_batch (e ∙ append_assoc so_far (x ∷ []) (y ∷ q), b, omega arith)
    ]

getdata_loop_from :
    (f : ℕ) (q : List InvItem)
    → length q < f
    → (bs : List (List InvItem)) × (getdata_loop f q ≡ ok bs) × (concat bs ≡ q) × All IsBatch bs
unfolding getdata_loop concat
getdata_loop_from zero q h = absurd (omega arith)
getdata_loop_from (suc f) [] h = ([], refl, refl, tt)
getdata_loop_from (suc f) (x ∷ q) h =
    let (e, b, l) = take_batch_lem [] x q (omega arith) in
    let (bs, r, c, bounded) = getdata_loop_from f (take_batch [] (x ∷ q)).1 (omega arith) in
    (
      (take_batch [] (x ∷ q)).0 ∷ bs,
      rw r refl,
      ap (λ t. (take_batch [] (x ∷ q)).0 ++ t) c ∙ e,
      (b, bounded),
    )

-- However many requests are queued, the rounds come to an end, the getdata messages hold every
-- request once and in order, and each message holds from 1 to 50000 of them.
pub getdata_loop_lem :
    (q : List InvItem)
    → (bs : List (List InvItem)) × (getdata_loop (suc (length q)) q ≡ ok bs)
      × (concat bs ≡ q)
      × All IsBatch bs
getdata_loop_lem q = getdata_loop_from (suc (length q)) q (omega arith)
