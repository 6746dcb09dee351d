-- ===== src/Store.antt =====
-- pycoinnet/util/BlockChainStore.py: the hashes of the locked blocks in a file, 32 bytes each. The
-- file is a value, `none` where there is none; other errors of the file system are not modelled.
mod Tests
pub mod Reads
pub mod Writes
use pycoinnet.Prelude.{
  ℕ, zero, suc, ◌+◌, ◌-◌, ◌*◌, ◌==◌, ltb, leb, true, false, Option, none, some, List, [], ◌∷◌, ◌++◌,
  map, Bytes, length, take, drop, replicate, Result, ok, err, ◌>>=◌, out_of_fuel,
}

-- (the_hash, prev_hash, weight)
pub record BlockTuple : Type 0 where
  pub the_hash : Bytes
  pub prev_hash : Bytes
  pub weight : ℕ

pub record FakeHeader : Type 0 where
  pub h : Bytes
  pub previous_block_hash : Bytes

-- `while len(d) >= 32`, on fuel, with the last value of `prev_hash`.
unfoldable pub split_chunk : ℕ → Bytes → Bytes → Result (List BlockTuple × Bytes)
split_chunk zero d prev_hash = err out_of_fuel
split_chunk (suc f) d prev_hash = elim (leb 32 (length d)) [
  | false ↦ ok ([], prev_hash)
  | true ↦ (do
    (tuples, last_hash) ← split_chunk f (drop 32 d) (take 32 d)
    ok (record { the_hash = take 32 d; prev_hash = prev_hash; weight = 1 } ∷ tuples, last_hash))
]

-- The loop over reads of 16384 bytes, on fuel.
unfoldable pub read_chunks : ℕ → Bytes → Bytes → Result (List BlockTuple)
unfolding split_chunk
read_chunks zero file prev_hash = err out_of_fuel
read_chunks (suc f) file prev_hash = elim (length (take 16384 file) == 0) [
  | true ↦ ok []
  | false ↦ (do
    (tuples, last_hash) ← split_chunk (suc (length (take 16384 file))) (take 16384 file) prev_hash
    more ← read_chunks f (drop 16384 file) last_hash
    ok (tuples ++ more))
]

unfoldable pub block_tuple_iterator : Bytes → Option Bytes → Result (List BlockTuple)
unfolding read_chunks
block_tuple_iterator parent_to_0 none = ok []
block_tuple_iterator parent_to_0 (some file) = read_chunks (suc (length file)) file parent_to_0

unfoldable pub headers : Bytes → Option Bytes → Result (List FakeHeader)
headers parent_to_0 file = do
  tuples ← block_tuple_iterator parent_to_0 file
  ok (map (λ t. record { h = t.the_hash; previous_block_hash = t.prev_hash }) tuples)

-- A write at a position of the file; a gap before it is filled with zeros.
unfoldable pub write_at : ℕ → Bytes → Bytes → Bytes
write_at position [] file = file
write_at position (b ∷ bs) file =
    take position (file ++ replicate (position - length file) 0)
    ++ (b ∷ bs ++ drop (position + length (b ∷ bs)) file)

-- The loop of writes, each from where the one before ended.
unfoldable pub write_hashes : ℕ → List BlockTuple → Bytes → Bytes
unfolding write_at
write_hashes position [] file = file
write_hashes position (t ∷ ts) file =
    write_hashes (position + length t.the_hash) ts (write_at position t.the_hash file)

-- The file is made if it is not there.
unfoldable pub did_lock_to_index : List BlockTuple → ℕ → Option Bytes → Bytes
unfolding write_hashes
did_lock_to_index ts start_index none = write_hashes (start_index * 32) ts []
did_lock_to_index ts start_index (some file) = write_hashes (start_index * 32) ts file
