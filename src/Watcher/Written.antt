-- ===== src/Watcher/Written.antt =====
-- Which blocks `block_processor` writes.
use Prim.Native.Nat.{min}
use pycoinnet.Watcher.Added.{added, block_of, verb_cases, added_cons}
use pycoinnet.Watcher.Left.{
  Names, unchanged, last_file-Names, Names-append, left_step, left_after, queued_left, round_left,
}
use pycoinnet.Prelude.{
  ◌+◌, ◌-◌, ℕ, zero, suc, ◌≤◌, ◌≡◌, ◌≢◌, refl, sym, ap, ◌∙◌, ◌⊎◌, arith, ltb, leb, Bool, true,
  false, List, [], ◌∷◌, ◌++◌, append-nil, append_assoc, length, length-append, Bool-cases, inl, inr,
  All, ℤ, pos, ltb_ℤ, ok,
}
use mathlib.Core.Path.{subst}
use pycoinnet.Watcher.{
  remove_block, Change, Placed, Watch, write_blocks, write_round, queue_block, process_change,
  block_processor,
}

write_blocks_split :
    (depth left : ℕ) (q : List Placed)
    → (write_blocks depth left q).0 ++ (write_blocks depth left q).1 ≡ q
unfolding write_blocks
write_blocks_split depth zero q = refl
write_blocks_split depth (suc left) [] = refl
write_blocks_split depth (suc left) (item ∷ q) = elim (Bool-cases (ltb depth (length (item ∷ q)))) [
  | inl e ↦ rw (write_blocks, e) (ap (λ t. item ∷ t) (write_blocks_split depth left q))
  | inr e ↦ rw (write_blocks, e) refl
]

-- Blocks are written while more than `depth` of them are queued.
write_blocks_buried :
    (depth left : ℕ) (q : List Placed)
    → depth ≤ length q
    → depth ≤ length (write_blocks depth left q).1
unfolding write_blocks
write_blocks_buried depth zero q h = h
write_blocks_buried depth (suc left) [] h = h
write_blocks_buried depth (suc left) (item ∷ q) h =
    elim (Bool-cases (ltb depth (length (item ∷ q)))) [
      | inl e ↦ rw (write_blocks, e) (write_blocks_buried depth left q (ground arith))
      | inr e ↦ rw (write_blocks, e) h
    ]

module _ (depth : ℕ) (last_processed_block : ℤ) where
  -- What a run has done between two states, having taken up some blocks.
  pub record Ran (s s' : Watch) (blocks : List Placed) : Type 0 where
    pub now_written : List Placed
    pub in_order : now_written ++ s'.block_q ≡ s.block_q ++ blocks
    pub written_after : s'.written ≡ s.written ++ now_written
    pub file_names : Names now_written s.last_file s'.last_file
    pub buried : (now_written ≡ []) ⊎ (depth ≤ length s'.block_q)

  nothing-Ran : (s : Watch) → Ran s s []
  nothing-Ran s = record {
    now_written = [];
    in_order = sym (append-nil s.block_q);
    written_after = sym (append-nil s.written);
    file_names = unchanged s.last_file;
    buried = inl refl;
  }

  queued-Ran :
      (change : Change) (s : Watch)
      → Ran s
          (queue_block change s)
          (record { hash = change.block_hash; index = change.block_index } ∷ [])
  unfolding queue_block
  queued-Ran change s = record {
    now_written = [];
    in_order = refl;
    written_after = sym (append-nil s.written);
    file_names = unchanged s.last_file;
    buried = inl refl;
  }

  write-Ran : (s : Watch) → depth ≤ length s.block_q → Ran s (write_round depth s) []
  unfolding write_round
  write-Ran s h = record {
    now_written = (write_blocks depth 100 s.block_q).0;
    in_order = write_blocks_split depth 100 s.block_q ∙ sym (append-nil s.block_q);
    written_after = refl;
    file_names = last_file-Names (write_blocks depth 100 s.block_q).0 s.last_file;
    buried = inr (write_blocks_buried depth 100 s.block_q h);
  }

  longer : (xs ys : List Placed) → depth ≤ length xs → depth ≤ length (xs ++ ys)
  longer xs ys h = omega (arith, length-append xs ys)

  then-Ran :
      {s s1 s2 : Watch} {xs ys : List Placed} → Ran s s1 xs → Ran s1 s2 ys → Ran s s2 (xs ++ ys)
  then-Ran {s} {s1} {s2} {xs} {ys} r q = record {
    now_written = r.now_written ++ q.now_written;
    in_order =
        append_assoc r.now_written q.now_written s2.block_q
        ∙ ap (λ t. r.now_written ++ t) q.in_order
        ∙ sym (append_assoc r.now_written s1.block_q ys)
        ∙ ap (λ t. t ++ ys) r.in_order
        ∙ append_assoc s.block_q xs ys;
    written_after =
        q.written_after
        ∙ ap (λ t. t ++ q.now_written) r.written_after
        ∙ append_assoc s.written r.now_written q.now_written;
    file_names = Names-append r.file_names q.file_names;
    buried = either r.buried q.buried;
  }
    where
      either :
          (r.now_written ≡ []) ⊎ (depth ≤ length s1.block_q)
          → (q.now_written ≡ []) ⊎ (depth ≤ length s2.block_q)
          → (r.now_written ++ q.now_written ≡ []) ⊎ (depth ≤ length s2.block_q)
      either a (inr h) = inr h
      either (inl e) (inl f) = inl (rw (e, f) refl)
      either (inr h) (inl f) =
          inr (subst (λ l. depth ≤ length l) (sym (rw f at q.in_order)) (longer s1.block_q ys h))

module _ (depth : ℕ) (last_processed_block : ℤ) where
  queue_cases :
      (more : Bool) (s : Watch)
      → ((more ≡ true) ⊎ ((more ≡ false) × (leb (length s.block_q) depth ≡ true)))
        ⊎ ((more ≡ false) × (leb (length s.block_q) depth ≡ false))
  queue_cases true s = inl (inl refl)
  queue_cases false s = elim (Bool-cases (leb (length s.block_q) depth)) [
    | inl e ↦ inl (inr (refl, e))
    | inr e ↦ inr (refl, e)
  ]

  not_few : (q : List Placed) → leb (length q) depth ≡ false → depth ≤ length q
  not_few q e = ground arith

  few_left :
      (change : Change) (s : Watch)
      → leb (length (queue_block change s).block_q) depth ≡ true
      → length (queue_block change s).block_q
        ≡ length s.block_q + 1 - min 100 (length s.block_q + 1 - depth)
  few_left change s k = none_above (length s.block_q) (queued_left change s) k
    where
      none_above :
          {m : ℕ} (n : ℕ) → m ≡ n + 1 → leb m depth ≡ true → m ≡ n + 1 - min 100 (n + 1 - depth)
      none_above n e k = ground arith

  many_left :
      (change : Change) (s : Watch)
      → length (write_round depth (queue_block change s)).block_q
        ≡ length s.block_q + 1 - min 100 (length s.block_q + 1 - depth)
  many_left change s =
      round_left depth (queue_block change s)
      ∙ ap (λ n. n - min 100 (n - depth)) (queued_left change s)

  -- A change that is not a removal.
  step-Ran :
      (change : Change) (more : Bool) (s : Watch)
      → change.verb ≢ remove_block
      → (s1 : Watch) × (process_change depth last_processed_block change more s ≡ ok s1)
        × Ran depth last_processed_block s s1 (block_of last_processed_block change)
        × (length s1.block_q ≡ left_step depth last_processed_block change more (length s.block_q))
  unfolding process_change block_of left_step
  step-Ran change more s h = elim (verb_cases change.verb) [
    | inl e ↦ elim (Bool-cases (ltb_ℤ (pos change.block_index) last_processed_block)) [
      | inl b ↦ (
        s,
        rw (process_change, e, b) refl,
        rw (block_of, e, b) (nothing-Ran depth last_processed_block s),
        rw (left_step, e, b) refl,
      )
      | inr b ↦ elim (queue_cases more (queue_block change s)) [
        | inl (inl m) ↦ (
          queue_block change s,
          rw (process_change, e, b, m) refl,
          rw (block_of, e, b) (queued-Ran depth last_processed_block change s),
          rw (left_step, e, b, m) (queued_left change s),
        )
        | inl (inr (m, k)) ↦ (
          queue_block change s,
          rw (process_change, e, b, m, k) refl,
          rw (block_of, e, b) (queued-Ran depth last_processed_block change s),
          rw (left_step, e, b, m) (few_left change s k),
        )
        | inr (m, k) ↦ (
          write_round depth (queue_block change s),
          rw (process_change, e, b, m, k) refl,
          rw (block_of, e, b)
              (then-Ran depth last_processed_block (queued-Ran depth last_processed_block change s)
                (write-Ran depth last_processed_block (queue_block change s)
                  (not_few (queue_block change s).block_q k))),
          rw (left_step, e, b, m) (many_left change s),
        )
      ]
    ]
    | inr (inl e) ↦ absurd (h e)
    | inr (inr e) ↦ (
      s,
      rw (process_change, e) refl,
      rw (block_of, e) (nothing-Ran depth last_processed_block s),
      rw (left_step, e) refl,
    )
  ]

  -- Over changes without a removal `block_processor` writes blocks in the order in which the changes
  -- add them, each once and none below the last processed index: what it writes and what it then has
  -- in its queue are what was in the queue before and the blocks added. How many stay in the queue is
  -- known: a block that is added when no change waits makes it write as many as there are above `depth`,
  -- at most a hundred, and nothing else does. The file reads back as the index of the last block written,
  -- and is as before if none is; when it wrote any, at least `depth` blocks are behind the last one in the
  -- queue.
  pub block_processor-Ran :
      (changes : List (Change × Bool)) (s : Watch)
      → All (λ c. (c.0).verb ≢ remove_block) changes
      → (s' : Watch) × (block_processor depth last_processed_block changes s ≡ ok s')
        × Ran depth last_processed_block s s' (added last_processed_block changes)
        × (length s'.block_q ≡ left_after depth last_processed_block changes (length s.block_q))
  unfolding block_processor added left_after
  block_processor-Ran [] s h = (s, refl, nothing-Ran depth last_processed_block s, refl)
  block_processor-Ran ((change, more) ∷ changes) s h =
      let (s1, e, r, l) = step-Ran change more s h.0 in
      let (s2, f, q, m) = block_processor-Ran changes s1 h.1 in
      (
        s2,
        rw (block_processor, e) f,
        subst (Ran depth last_processed_block s s2)
            (sym (added_cons last_processed_block change more changes))
            (then-Ran depth last_processed_block r q),
        m ∙ ap (left_after depth last_processed_block changes) l,
      )
