-- ===== src/Watcher.antt =====
-- pycoinnet/examples/blockwatcher.py, with the parts that it shares with pycoinnet/examples/Client.py:
-- which blocks are locked, which are written to disk and when, and the file with the last one
-- written. Directories are dicts from the names of files to their bytes; they can be written. The
-- block chain and the blocks are pycoin's: their lengths, ids and bytes are inputs.
mod Tests
pub mod Locking
pub mod Added
pub mod Left
pub mod Written
use pycoinnet.Prelude.{
  ℕ, zero, suc, ◌+◌, ◌-◌, ◌%◌, ◌≡◌, ltb, leb, ◌==◌, if◌then◌else◌, Bool, true, false, Option, none,
  some, List, [], ◌∷◌, ◌++◌, length, replicate, Bytes, bytes_key, codes, print_ℕ, print_ℤ, int_of,
  lines_of, universal_newlines, drop_last, ℤ, pos, ltb_ℤ, Result, ok, err, ◌>>=◌, attribute_error,
  Error, not, ◌&&◌,
}
use pycoinnet.Dict.{Dict, lookup, put, remove}
use pycoinnet.Inv.{InvItem, item_type_block}

-- The index to lock to, if there is one.
unfoldable pub block_chain_locker_callback : ℕ → ℕ → Option ℕ
block_chain_locker_callback total_length locked_length =
    if ltb 32 (total_length - locked_length)
    then some (total_length - total_length % 32 - 32)
    else none

-- `"%06d" % n`
unfoldable pub six_digits : ℕ → Bytes
six_digits n = let digits = print_ℕ n in replicate (6 - length digits) b'0' ++ digits

-- "block-%06d-%s.bin"
unfoldable pub block_path : ℕ → Bytes → Bytes
unfolding six_digits
block_path block_index id =
    codes "block-" ++ (six_digits block_index ++ b'-' ∷ (id ++ codes ".bin"))

-- The bytes go to a temporary file, which is then renamed.
unfoldable pub write_block_to_disk : ℕ → Bytes → Bytes → Dict Bytes Bytes → Dict Bytes Bytes
unfolding block_path
write_block_to_disk block_index id content files =
    let p = block_path block_index id in
    let tmp_path = p ++ codes ".tmp" in put p content (remove tmp_path (put tmp_path content files))

unfoldable pub update_last_processed_block : ℤ → Bytes
update_last_processed_block last_processed_block = print_ℤ last_processed_block ++ b'\n' ∷ []

-- `f.readline()`
unfoldable pub first_line : List Bytes → Bytes
first_line [] = []
first_line (l ∷ lines) = l

unfoldable pub or_zero : Result ℤ → ℤ
or_zero (err e) = pos 0
or_zero (ok n) = n

-- The file is missing, or a text.
unfoldable pub get_last_processed_block : Option Bytes → ℤ
unfolding first_line or_zero
get_last_processed_block none = pos 0
get_last_processed_block (some text) =
    or_zero (int_of (drop_last (first_line (lines_of (universal_newlines false text)))))

-- An item of `change_q`
pub data Verb : Type 0 where
  add remove_block other : Verb

pub record Change : Type 0 where
  pub verb : Verb
  pub block_hash : Bytes
  pub block_index : ℕ

-- A block with its index.
pub record Placed : Type 0 where
  pub hash : Bytes
  pub index : ℕ

-- The queue of blocks, the blocks written in order, and the file with the last one.
pub record Watch : Type 0 where
  pub block_q : List Placed
  pub written : List Placed
  pub last_file : Option Bytes

-- The loop that writes blocks: how many are left to write before it breaks off, and what it writes
-- and leaves.
unfoldable pub write_blocks : ℕ → ℕ → List Placed → List Placed × List Placed
write_blocks depth zero q = ([], q)
write_blocks depth (suc left) [] = ([], [])
write_blocks depth (suc left) (item ∷ q) =
    let (written, rest) = write_blocks depth left q in
    if ltb depth (length (item ∷ q)) then (item ∷ written, rest) else ([], item ∷ q)

unfoldable pub last_file_after : List Placed → Option Bytes → Option Bytes
unfolding update_last_processed_block
last_file_after [] file = file
last_file_after (item ∷ items) file =
    last_file_after items (some (update_last_processed_block (pos item.index)))

-- The part of the loop behind the queue of changes being empty and the blocks being buried.
unfoldable pub write_round : ℕ → Watch → Watch
unfolding write_blocks last_file_after
write_round depth s =
    let (written, rest) = write_blocks depth 100 s.block_q in
    record {
      block_q = rest;
      written = s.written ++ written;
      last_file = last_file_after written s.last_file;
    }

unfoldable pub queue_block : Change → Watch → Watch
queue_block change s = record s {
  block_q = s.block_q ++ record { hash = change.block_hash; index = change.block_index } ∷ [];
}

-- An iteration of `block_processor`, with whether more changes wait. An asyncio.Queue has no `pop`.
unfoldable pub process_change : ℕ → ℤ → Change → Bool → Watch → Result Watch
unfolding write_round queue_block
process_change depth last_processed_block change more s = elim change.verb [
  | remove_block ↦ err attribute_error
  | other ↦ ok s
  | add ↦
      if ltb_ℤ (pos change.block_index) last_processed_block
      then ok s
      else (let s1 = queue_block change s in
          if more
          then ok s1
          else if leb (length s1.block_q) depth
          then ok s1
          else ok (write_round depth s1))
]

-- The changes one after the other.
unfoldable pub block_processor : ℕ → ℤ → List (Change × Bool) → Watch → Result Watch
unfolding process_change
block_processor depth last_processed_block [] s = ok s
block_processor depth last_processed_block ((change, more) ∷ changes) s = do
  s1 ← process_change depth last_processed_block change more s
  block_processor depth last_processed_block changes s1

-- The block chain is a parameter, and what a fetch gives.
module _ {Chain Block : Type 0} (is_hash_known : Chain → Bytes → Bool) (fetch : InvItem → Block)
    (add_header : Block → Chain → Chain) where
  -- `new_block_fetcher` on the items that come out of its queue: what it fetches, the chain, and the
  -- exception that ends it, if one does. The end of a peer puts None into the queue.
  unfoldable pub new_block_fetcher :
      List (Option InvItem) → Chain → List InvItem × Chain × Option Error
  new_block_fetcher [] chain = ([], chain, none)
  new_block_fetcher (none ∷ items) chain = ([], chain, some attribute_error)
  new_block_fetcher (some inv_item ∷ items) chain =
      elim ((inv_item.item_type == item_type_block)
        && not (is_hash_known chain inv_item.the_data)) [
          | false ↦ new_block_fetcher items chain
          | true ↦
              (let (fetched, last, error) =
                  new_block_fetcher items (add_header (fetch inv_item) chain) in
                (inv_item ∷ fetched, last, error))
        ]
