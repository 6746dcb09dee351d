-- ===== src/Watcher/Left.antt =====
-- What `write_blocks` leaves in the queue, and which block the file names.
use mathlib.Core.Path.{subst}
use Prim.Native.Nat.{min}
use pycoinnet.Prelude.{
  ℕ, zero, suc, ◌+◌, ◌-◌, ◌≡◌, refl, sym, ap, ◌∙◌, arith, ltb, if◌then◌else◌, Bool, Option, some,
  Bytes, List, [], ◌∷◌, ◌++◌, append-nil, append_assoc, length, length-append, Bool-cases, inl, inr,
  ℤ, pos, ltb_ℤ,
}
use pycoinnet.Watcher.{
  add, remove_block, other, Change, Placed, Watch, write_blocks, last_file_after, write_round,
  queue_block, update_last_processed_block, get_last_processed_block,
}
use pycoinnet.Watcher.Locking.{get-update_last_processed_block}

-- How many blocks are left in a queue when blocks are written, at most a hundred.
pub write_blocks_left :
    (depth left : ℕ) (q : List Placed)
    → length (write_blocks depth left q).1 ≡ length q - min left (length q - depth)
unfolding write_blocks
write_blocks_left depth zero q = omega arith
write_blocks_left depth (suc left) [] = omega arith
write_blocks_left depth (suc left) (item ∷ q) = elim (Bool-cases (ltb depth (length (item ∷ q)))) [
  | inl e ↦ rw (write_blocks, e) (ground (arith, write_blocks_left depth left q))
  | inr e ↦ rw (write_blocks, e) (ground arith)
]

-- The blocks that a file names are the last ones written.
pub data Names : List Placed → Option Bytes → Option Bytes → Type 0 where
  unchanged : (file : Option Bytes) → Names [] file file
  names_last :
      (before : List Placed) (item : Placed) (file text : Option Bytes)
      → get_last_processed_block text ≡ pos item.index
      → Names (before ++ item ∷ []) file text

pub last_file-Names :
    (items : List Placed) (file : Option Bytes) → Names items file (last_file_after items file)
unfolding last_file_after
last_file-Names [] file = unchanged file
last_file-Names (item ∷ items) file =
    front (last_file-Names items (some (update_last_processed_block (pos item.index)))) refl
  where
    front :
        {xs : List Placed} {middle text : Option Bytes}
        → Names xs middle text
        → some (update_last_processed_block (pos item.index)) ≡ middle
        → Names (item ∷ xs) file text
    front (unchanged middle) e =
        names_last [] item file middle
          (ap get_last_processed_block (sym e) ∙ get-update_last_processed_block (pos item.index))
    front (names_last before x middle text k) e = names_last (item ∷ before) x file text k

pub Names-append :
    {xs ys : List Placed} {file middle text : Option Bytes}
    → Names xs file middle
    → Names ys middle text
    → Names (xs ++ ys) file text
Names-append {xs} {file = file} n (unchanged middle) =
    subst (λ l. Names l file middle) (sym (append-nil xs)) n
Names-append {xs} {file = file} n (names_last before item middle text k) =
    subst (λ l. Names l file text) (append_assoc xs before (item ∷ []))
      (names_last (xs ++ before) item file text k)

-- How many blocks a change leaves in a queue, of a number of them: one more for a block that is added,
-- and then, if no change waits, as many less as there are above `depth`, at most a hundred.
unfoldable pub left_step : ℕ → ℤ → Change → Bool → ℕ → ℕ
left_step depth lowest change more n = elim change.verb [
  | add ↦
      if ltb_ℤ (pos change.block_index) lowest
      then n
      else if more
      then n + 1
      else n + 1 - min 100 (n + 1 - depth)
  | remove_block ↦ n
  | other ↦ n
]

unfoldable pub left_after : ℕ → ℤ → List (Change × Bool) → ℕ → ℕ
unfolding left_step
left_after depth lowest [] n = n
left_after depth lowest ((change, more) ∷ changes) n =
    left_after depth lowest changes (left_step depth lowest change more n)

pub queued_left :
    (change : Change) (s : Watch) → length (queue_block change s).block_q ≡ length s.block_q + 1
unfolding queue_block
queued_left change s = omega (arith, length-append s.block_q (_ ∷ []))

pub round_left :
    (depth : ℕ) (s : Watch)
    → length (write_round depth s).block_q ≡ length s.block_q - min 100 (length s.block_q - depth)
unfolding write_round
round_left depth s = write_blocks_left depth 100 s.block_q
