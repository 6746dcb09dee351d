-- ===== src/Watcher/Tests.antt =====
-- A watcher that buries blocks under one other block.
use pycoinnet.Dict.{remove, put}
use pycoinnet.Prelude.{
  length, Bytes, ◌||◌, print_ℤ, bytes_eq, print_ℕ, ℕ, ◌≡◌, ◌≢◌, refl, arith, Bool, true, false,
  none, some, List, [], ◌∷◌, codes, pos, ok, err, attribute_error,
}
use pycoinnet.Inv.{InvItem, item_of}
use pycoinnet.Watcher.{
  block_chain_locker_callback, block_path, write_block_to_disk, Verb, add, remove_block, other,
  Change, Placed, Watch, block_processor, new_block_fetcher,
}
use pycoinnet.Watcher.Locking.{IsStep, block_chain_locker_callback-IsStep}
use pycoinnet.Watcher.Left.{left_after}
use pycoinnet.Watcher.Added.{added}
use pycoinnet.Watcher.Written.{Ran, block_processor-Ran}

locks : block_chain_locker_callback 100 32 ≡ some 64
unfolding block_chain_locker_callback
locks = refl

callback-IsStep : IsStep 100 32 (block_chain_locker_callback 100 32)
callback-IsStep = block_chain_locker_callback-IsStep 100 32 (omega arith)

named : block_path 42 (codes "ab") ≡ codes "block-000042-ab.bin"
unfolding block_path print_ℕ
named = refl

on_disk :
    write_block_to_disk 42 (codes "ab") (7 ∷ []) [] ≡ (codes "block-000042-ab.bin", 7 ∷ []) ∷ []
unfolding write_block_to_disk put remove bytes_eq print_ℕ
on_disk = refl

abbrev change : Verb → ℕ → Change
change verb n = record { verb = verb; block_hash = n ∷ []; block_index = n }

abbrev changes : List (Change × Bool)
changes =
    (change add 1, false)
    ∷ (change add 4, true)
    ∷ (change other 9, false)
    ∷ (change add 5, false)
    ∷ (change add 6, false)
    ∷ []

abbrev start : Watch
start = record { block_q = []; written = []; last_file = none }

abbrev placed : ℕ → Placed
placed n = record { hash = n ∷ []; index = n }

runs :
    block_processor 1 (pos 3) changes start
    ≡ ok (record {
      block_q = placed 6 ∷ [];
      written = placed 4 ∷ placed 5 ∷ [];
      last_file = some (codes "5\n");
    })
unfolding block_processor print_ℤ
runs = refl

-- A removal reads `block_q.pop`, which an asyncio.Queue does not have.
removal :
    block_processor 1 (pos 3) ((change remove_block 4, false) ∷ []) start ≡ err attribute_error
unfolding block_processor
removal = refl

block_processor-Ran_example :
    (s' : Watch) × (block_processor 1 (pos 3) changes start ≡ ok s')
    × Ran 1 (pos 3) start s' (added (pos 3) changes)
    × (length s'.block_q ≡ left_after 1 (pos 3) changes (length start.block_q))
block_processor-Ran_example =
    block_processor-Ran 1 (pos 3) changes start
      (add_ne, (add_ne, (other_ne, (add_ne, (add_ne, tt)))))
  where
    add_ne : add ≢ remove_block
    add_ne e = cc

    other_ne : other ≢ remove_block
    other_ne e = cc

abbrev block_7 : InvItem
block_7 = item_of 2 (7 ∷ [])

abbrev is_known : List Bytes → Bytes → Bool
is_known [] h = false
is_known (x ∷ chain) h = bytes_eq x h || is_known chain h

-- A transaction, a block twice, and a peer that is gone.
fetched :
    new_block_fetcher is_known
      (λ i. i.the_data)
      (λ block chain. block ∷ chain)
      (some (item_of 1 []) ∷ some block_7 ∷ some block_7 ∷ none ∷ some (item_of 2 []) ∷ [])
      []
    ≡ (block_7 ∷ [], (7 ∷ []) ∷ [], some attribute_error)
unfolding new_block_fetcher bytes_eq
fetched = refl
