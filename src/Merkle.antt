-- ===== src/Merkle.antt =====
-- `fixup_merkleblock` of pycoinnet/message.py: the check of a merkleblock message, which gives the
-- hashes of the transactions that match the filter. The hash function, pycoin's
-- `double_sha256`, is a parameter.
pub mod Widths
pub mod Soundness
pub mod Complete
mod Tests
use Prim.Native.Nat.{bit_and}
use pycoinnet.Prelude.{
  ℕ, zero, suc, ◌+◌, ◌-◌, ◌*◌, ◌/◌, ◌%◌, ◌^◌, Bool, true, false, not, List, [], ◌∷◌, ◌++◌, Bytes,
  bytes_eq, Result, ok, err, index_error, value_error, out_of_fuel, ◌>>=◌, length, item_at, ltb,
  ◌==◌, if◌then◌else◌,
}

-- The loop that fills `level_widths`, on fuel. The source appends and reverses at the end; here
-- the list is built from its end.
unfoldable pub widths_from : ℕ → ℕ → List ℕ → Result (List ℕ)
widths_from zero count acc = err out_of_fuel
widths_from (suc f) count acc = elim (ltb 1 count) [
  | true ↦ widths_from f ((count + 1) / 2) (count ∷ acc)
  | false ↦ ok (1 ∷ acc)
]

unfoldable pub level_widths : ℕ → Result (List ℕ)
unfolding widths_from
level_widths total_transactions = widths_from (suc total_transactions) total_transactions []

-- What `recurse` changes. `hashes` is in the order of the message: the source reverses it and
-- pops from the end.
pub record Walk : Type 0 where
  pub hashes : List Bytes
  pub flag_index : ℕ
  pub tx_acc : List Bytes

-- `flags[idx] & mask != 0`
unfoldable pub flag_at : List ℕ → ℕ → Result Bool
unfolding item_at
flag_at flags flag_index = do
  byte ← item_at flags (flag_index / 8)
  ok (not (bit_and byte (2 ^ (flag_index % 8)) == 0))

-- `hashes.pop()`
unfoldable pub pop_hash : Walk → Result (Bytes × Walk)
pop_hash s = elim s.hashes [ [] ↦ err index_error | h ∷ hs ↦ ok (h, record s { hashes = hs }) ]

module _ (double_sha256 : Bytes → Bytes) where
  -- The end of a node with both children.
  unfoldable pub join_children : Bytes → Bytes → Walk → Result (Bytes × Walk)
  join_children left right s =
      if bytes_eq left right then err value_error else ok (double_sha256 (left ++ right), s)

  -- A node with its flag on: the walk to the left, and the walk to the right if there is one.
  unfoldable pub walk_children :
      Bool
      → (Walk → Result (Bytes × Walk))
      → (Walk → Result (Bytes × Walk))
      → Walk
      → Result (Bytes × Walk)
  walk_children has_right walk_left walk_right s1 = do
    (left, s2) ← walk_left s1
    elim has_right [
      | false ↦ ok (double_sha256 (left ++ left), s2)
      | true ↦ (do (right, s3) ← walk_right s2; join_children left right s3)
    ]

  -- `below` is `level_widths[level_index + 1:]`.
  unfoldable pub recurse : List ℕ → List ℕ → ℕ → Walk → Result (Bytes × Walk)
  recurse flags [] node_index s = do
    flag ← flag_at flags s.flag_index
    (h, s2) ← pop_hash (record s { flag_index = s.flag_index + 1 })
    if flag then ok (h, record s2 { tx_acc = s2.tx_acc ++ h ∷ [] }) else ok (h, s2)
  recurse flags (width ∷ below) node_index s = do
    flag ← flag_at flags s.flag_index
    elim flag [
      | false ↦ pop_hash (record s { flag_index = s.flag_index + 1 })
      | true ↦
          walk_children (ltb (node_index * 2 + 1) width) (recurse flags below (node_index * 2))
            (recurse flags below (node_index * 2 + 1)) (record s { flag_index = s.flag_index + 1 })
    ]

pub record MerkleBlock : Type 0 where
  pub merkle_root : Bytes
  pub total_transactions : ℕ
  pub hashes : List Bytes
  pub flags : List ℕ

module _ (double_sha256 : Bytes → Bytes) where
  -- The checks after the walk; the result is `d["tx_hashes"]`.
  unfoldable pub check_walk : MerkleBlock → Bytes → Walk → Result (List Bytes)
  check_walk d left_hash s =
      if ltb 0 (length s.hashes)
      then err value_error
      else let idx = (s.flag_index - 1) / 8 in
        let r = (s.flag_index - 1) % 8 in
        if not (idx == length d.flags - 1) then err value_error else do
          last ← item_at d.flags idx
          if ltb (2 ^ (r + 1) - 1) last
              then err value_error
              else if bytes_eq left_hash d.merkle_root
              then ok s.tx_acc
              else err value_error

  unfoldable pub start_walk : MerkleBlock → List ℕ → Result (Bytes × Walk)
  start_walk d [] = err index_error
  start_walk d (width ∷ below) =
      recurse double_sha256 d.flags below 0
        (record { hashes = d.hashes; flag_index = 0; tx_acc = [] })

  unfoldable pub fixup_merkleblock : MerkleBlock → Result (List Bytes)
  unfolding start_walk
  fixup_merkleblock d = do
    widths ← level_widths d.total_transactions
    (left_hash, s) ← start_walk d widths
    check_walk d left_hash s
