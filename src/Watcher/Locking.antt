-- ===== src/Watcher/Locking.antt =====
-- How far the block chain is locked, and the file with the last block written.
use pycoinnet.Prelude.{
  ℕ, ◌+◌, ◌-◌, ◌%◌, ◌≤◌, ◌<◌, ◌≡◌, ap, ◌∙◌, arith, ltb, Option, none, some, Bytes, ◌++◌, [], ◌∷◌,
  Bool-cases, inl, inr, ℤ, print_ℤ, int_of, int_of-print_ℤ, print_ℤ-Lacks, ◌≢◌, lines_of, drop_last,
  Lacks, lines_of-line, universal_newlines-id, drop_last-snoc, All-append,
}
use pycoinnet.Watcher.{
  block_chain_locker_callback, update_last_processed_block, get_last_processed_block, first_line,
  or_zero,
}

-- What the callback may lock to.
abbrev pub IsStep : ℕ → ℕ → Option ℕ → Type 0
IsStep total locked none = total ≤ locked + 32
IsStep total locked (some i) =
    (locked + 32 < total)
    × (i % 32 ≡ 0)
    × (i + 32 ≤ total)
    × (total < i + 64)
    × (locked ≤ i + locked % 32)

-- When more than 32 blocks are unlocked, the chain is locked to a multiple of 32 that leaves between
-- 32 and 63 blocks unlocked, and that is not below the last multiple of 32 up to the locked length;
-- else nothing is locked.
pub block_chain_locker_callback-IsStep :
    (total_length locked_length : ℕ)
    → locked_length ≤ total_length
    → IsStep total_length locked_length (block_chain_locker_callback total_length locked_length)
unfolding block_chain_locker_callback
block_chain_locker_callback-IsStep total locked h = elim (Bool-cases (ltb 32 (total - locked))) [
  | inl e ↦
      let gap : locked + 32 < total = ground arith in
      rw (block_chain_locker_callback, e) (gap, omega arith, omega arith, omega arith, omega arith)
  | inr e ↦ rw (block_chain_locker_callback, e) (ground arith)
]

line_read :
    (text : Bytes)
    → Lacks b'\n' text
    → Lacks b'\r' text
    → get_last_processed_block (some (text ++ b'\n' ∷ [])) ≡ or_zero (int_of text)
unfolding get_last_processed_block first_line lines_of
line_read text h k =
    ap (λ t. or_zero (int_of (drop_last (first_line (lines_of t)))))
      (universal_newlines-id (text ++ b'\n' ∷ [])
        (All-append (λ x. x ≢ b'\r') text (b'\n' ∷ []) k (omega arith, tt)))
    ∙ ap (λ ls. or_zero (int_of (drop_last (first_line ls)))) (lines_of-line text [] h)
    ∙ ap (λ t. or_zero (int_of t)) (drop_last-snoc text b'\n')

-- The index of the last block written is read back from the file.
pub get-update_last_processed_block :
    (n : ℤ) → get_last_processed_block (some (update_last_processed_block n)) ≡ n
unfolding update_last_processed_block or_zero
get-update_last_processed_block n =
    line_read (print_ℤ n) (print_ℤ-Lacks b'\n' (inl (omega arith)) n)
      (print_ℤ-Lacks b'\r' (inl (omega arith)) n)
    ∙ ap or_zero (int_of-print_ℤ n)
