-- ===== src/Store/Writes.antt =====
-- Writing hashes into the file of BlockChainStore, and reading after it.
use pycoinnet.Prelude.{
  ℕ, zero, suc, ◌+◌, ◌-◌, ◌*◌, ◌≤◌, ◌<◌, ◌≡◌, ◌⊎◌, inl, inr, refl, sym, ◌∙◌, ap, arith, Option,
  none, some, List, [], ◌∷◌, ◌++◌, append-nil, append_assoc, map, Bytes, length, length-append,
  length-take, take, drop, replicate, All-append, ok,
}
use pycoinnet.Store.{BlockTuple, block_tuple_iterator, write_at, write_hashes, did_lock_to_index}
use pycoinnet.Store.Reads.{
  joined, AreHashes, AreHashes-take, AreHashes-drop, chain, take-length-append, drop-length-append,
  joined-take-drop, length-joined, block_tuple_iterator_lem,
}

drop-nil : {A : Type 0} (n : ℕ) → drop {A = A} n [] ≡ []
drop-nil zero = refl
drop-nil (suc n) = refl

drop-drop : {A : Type 0} (m n : ℕ) (xs : List A) → drop n (drop m xs) ≡ drop (m + n) xs
drop-drop zero n xs = ap (λ k. drop k xs) (omega arith)
drop-drop (suc m) n [] = let e : suc m + n ≡ suc (m + n) = omega arith in rw e (drop-nil n)
drop-drop (suc m) n (x ∷ xs) =
    let e : suc m + n ≡ suc (m + n) = omega arith in rw e (drop-drop m n xs)

drop-append : (a z : Bytes) (n : ℕ) → drop (length a + n) (a ++ z) ≡ drop n z
drop-append a z n =
    sym (drop-drop (length a) n (a ++ z)) ∙ ap (drop n) (drop-length-append a z (length a) refl)

-- A write behind `a`.
write_at_lem :
    (a z h : Bytes) (n : ℕ)
    → length h ≡ n
    → 0 < n
    → write_at (length a) h (a ++ z) ≡ a ++ (h ++ drop n z)
unfolding write_at
write_at_lem a z [] n e p = absurd (omega arith)
write_at_lem a z (b ∷ bs) n e p =
    let kept : take (length a) ((a ++ z) ++ replicate (length a - length (a ++ z)) 0) ≡ a =
      ap (take (length a)) (append_assoc a z _)
      ∙ take-length-append a (z ++ replicate (length a - length (a ++ z)) 0) (length a) refl in
    let behind : drop (length a + length (b ∷ bs)) (a ++ z) ≡ drop n z =
      drop-append a z (length (b ∷ bs)) ∙ ap (λ k. drop k z) e in
    rw (kept, behind) refl

abbrev pub hashes : List BlockTuple → List Bytes
hashes ts = map (λ t. t.the_hash) ts

write_hashes_lem :
    (ts : List BlockTuple) (a z : Bytes)
    → AreHashes (hashes ts)
    → write_hashes (length a) ts (a ++ z) ≡ a ++ (joined (hashes ts) ++ drop (32 * length ts) z)
unfolding write_hashes joined
write_hashes_lem [] a z h = refl
write_hashes_lem (t ∷ ts) a z (e, h) =
    let size : length a + length t.the_hash ≡ length (a ++ t.the_hash) =
      sym (length-append a t.the_hash) in
    let next : (32 + 32 * length ts) ≡ 32 * length (t ∷ ts) = omega arith in
    ap (λ file. write_hashes (length a + length t.the_hash) ts file)
      (write_at_lem a z t.the_hash 32 e (omega arith) ∙ sym (append_assoc a t.the_hash (drop 32 z)))
    ∙ ap (λ n. write_hashes n ts ((a ++ t.the_hash) ++ drop 32 z)) size
    ∙ write_hashes_lem ts (a ++ t.the_hash) (drop 32 z) h
    ∙ append_assoc a t.the_hash (joined (hashes ts) ++ drop (32 * length ts) (drop 32 z))
    ∙ ap (λ r. a ++ (t.the_hash ++ (joined (hashes ts) ++ r)))
        (drop-drop 32 (32 * length ts) z ∙ ap (λ n. drop n z) next)
    ∙ ap (λ r. a ++ r)
        (sym (append_assoc t.the_hash (joined (hashes ts)) (drop (32 * length (t ∷ ts)) z)))

joined-append : (xs ys : List Bytes) → joined (xs ++ ys) ≡ joined xs ++ joined ys
unfolding joined
joined-append [] ys = refl
joined-append (x ∷ xs) ys =
    ap (λ t. x ++ t) (joined-append xs ys) ∙ sym (append_assoc x (joined xs) (joined ys))

drop-joined :
    (n : ℕ) (hs : List Bytes) → AreHashes hs → drop (32 * n) (joined hs) ≡ joined (drop n hs)
unfolding joined
drop-joined zero hs a = refl
drop-joined (suc n) [] a = let e : 32 * suc n ≡ suc (31 + 32 * n) = omega arith in rw e refl
drop-joined (suc n) (h ∷ hs) (e, a) =
    let size : 32 * suc n ≡ length h + 32 * n = omega (arith, e) in
    ap (λ k. drop k (h ++ joined hs)) size ∙ drop-append h (joined hs) (32 * n) ∙ drop-joined n hs a

-- The hashes after a write at an index.
abbrev pub spliced : List BlockTuple → ℕ → List Bytes → List Bytes
spliced ts start hs = take start hs ++ (hashes ts ++ drop (length ts) (drop start hs))

write_lem :
    (ts : List BlockTuple) (start : ℕ) (hs : List Bytes)
    → AreHashes hs
    → AreHashes (hashes ts)
    → start ≤ length hs
    → write_hashes (start * 32) ts (joined hs) ≡ joined (spliced ts start hs)
write_lem ts start hs a b s =
    let before = joined (take start hs) in
    let size : start * 32 ≡ length before =
      omega
        (arith, length-joined (take start hs) (AreHashes-take start hs a), length-take start hs) in
    ap (λ n. write_hashes n ts (joined hs)) size
    ∙ ap (write_hashes (length before) ts) (sym (joined-take-drop start hs))
    ∙ write_hashes_lem ts before (joined (drop start hs)) b
    ∙ ap (λ r. before ++ (joined (hashes ts) ++ r))
        (drop-joined (length ts) (drop start hs) (AreHashes-drop start hs a))
    ∙ ap (λ r. before ++ r) (sym (joined-append (hashes ts) (drop (length ts) (drop start hs))))
    ∙ sym (joined-append (take start hs) (hashes ts ++ drop (length ts) (drop start hs)))

abbrev pub Holds : Option Bytes → List Bytes → Type 0
Holds file hs = (file ≡ some (joined hs)) ⊎ ((file ≡ none) × (hs ≡ []))

-- If the file holds a list of 32-byte hashes, or is not there and the list is empty, then after
-- `did_lock_to_index` with tuples of 32-byte hashes at an index up to the length of the list, the
-- iterator gives the chain of the list in which the new hashes stand from that index on.
pub block_tuple_iterator-did_lock_to_index :
    (parent_to_0 : Bytes) (ts : List BlockTuple) (start : ℕ) (file : Option Bytes) (hs : List Bytes)
    → Holds file hs
    → AreHashes hs
    → AreHashes (hashes ts)
    → start ≤ length hs
    → block_tuple_iterator parent_to_0 (some (did_lock_to_index ts start file))
      ≡ ok (chain parent_to_0 (spliced ts start hs))
unfolding did_lock_to_index joined
block_tuple_iterator-did_lock_to_index parent_to_0 ts start file hs holds a b s =
    ap (λ r. block_tuple_iterator parent_to_0 (some r)) (written holds)
    ∙ block_tuple_iterator_lem parent_to_0 (spliced ts start hs) [] all_hashes (omega arith)
  where
    written : Holds file hs → did_lock_to_index ts start file ≡ joined (spliced ts start hs) ++ []
    written (inl e) =
        rw e (write_lem ts start hs a b s) ∙ sym (append-nil (joined (spliced ts start hs)))
    written (inr (e, none_yet)) =
        rw e (
          ap (λ hs. write_hashes (start * 32) ts (joined hs)) (sym none_yet)
          ∙ write_lem ts start hs a b s)
        ∙ sym (append-nil (joined (spliced ts start hs)))

    all_hashes : AreHashes (spliced ts start hs)
    all_hashes =
        All-append (λ h. length h ≡ 32) (take start hs)
          (hashes ts ++ drop (length ts) (drop start hs)) (AreHashes-take start hs a)
          (All-append (λ h. length h ≡ 32) (hashes ts) (drop (length ts) (drop start hs)) b
            (AreHashes-drop (length ts) (drop start hs) (AreHashes-drop start hs a)))
