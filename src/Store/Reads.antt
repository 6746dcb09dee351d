-- ===== src/Store/Reads.antt =====
-- Reading the file: the chain of the hashes that it holds.
use pycoinnet.Prelude.{
  ℕ, zero, suc, ◌*◌, ◌≤◌, ◌<◌, ◌==◌, leb, true, false, ◌≡◌, refl, sym, ◌∙◌, ap, arith, some, List,
  [], ◌∷◌, ◌++◌, append-nil, append_assoc, Bytes, length, length-append, take, drop, All,
  length-take, ok,
}
use native.Mathlib.Decide.{dec_lt}
use pycoinnet.Store.{BlockTuple, split_chunk, read_chunks, block_tuple_iterator}

-- The bytes of a list of hashes.
unfoldable pub joined : List Bytes → Bytes
joined [] = []
joined (h ∷ hs) = h ++ joined hs

abbrev pub AreHashes : List Bytes → Type 0
AreHashes = All (λ h. length h ≡ 32)

-- Each hash with the one before it.
unfoldable pub chain : Bytes → List Bytes → List BlockTuple
chain prev [] = []
chain prev (h ∷ hs) = record { the_hash = h; prev_hash = prev; weight = 1 } ∷ chain h hs

pub last_hash : Bytes → List Bytes → Bytes
last_hash prev [] = prev
last_hash prev (h ∷ hs) = last_hash h hs

pub take-length-append : (xs ys : Bytes) (n : ℕ) → length xs ≡ n → take n (xs ++ ys) ≡ xs
take-length-append [] ys zero h = refl
take-length-append [] ys (suc n) h = absurd (omega arith)
take-length-append (x ∷ xs) ys zero h = absurd (omega arith)
take-length-append (x ∷ xs) ys (suc n) h =
    ap (λ t. x ∷ t) (take-length-append xs ys n (omega arith))

pub drop-length-append : (xs ys : Bytes) (n : ℕ) → length xs ≡ n → drop n (xs ++ ys) ≡ ys
drop-length-append [] ys zero h = refl
drop-length-append [] ys (suc n) h = absurd (omega arith)
drop-length-append (x ∷ xs) ys zero h = absurd (omega arith)
drop-length-append (x ∷ xs) ys (suc n) h = drop-length-append xs ys n (omega arith)

pub length-joined : (hs : List Bytes) → AreHashes hs → length (joined hs) ≡ 32 * length hs
unfolding joined
length-joined [] a = refl
length-joined (h ∷ hs) (e, a) = omega (arith, length-append h (joined hs), length-joined hs a)

split_step :
    (f : ℕ) (d prev h rest : Bytes) {tuples : List BlockTuple} {last : Bytes}
    → leb 32 (length d) ≡ true
    → take 32 d ≡ h
    → drop 32 d ≡ rest
    → split_chunk f rest h ≡ ok (tuples, last)
    → split_chunk (suc f) d prev
      ≡ ok (record { the_hash = h; prev_hash = prev; weight = 1 } ∷ tuples, last)
unfolding split_chunk
split_step f d prev h rest e t r s = rw (split_chunk, e, t, r, s) refl

split_chunk_lem :
    (hs : List Bytes) (tail prev : Bytes) (f : ℕ)
    → AreHashes hs
    → length tail < 32
    → length hs < f
    → split_chunk f (joined hs ++ tail) prev ≡ ok (chain prev hs, last_hash prev hs)
unfolding split_chunk joined chain last_hash
split_chunk_lem hs tail prev zero a s l = absurd (omega arith)
split_chunk_lem [] tail prev (suc f) a s l = ground arith
split_chunk_lem (h ∷ hs) tail prev (suc f) (e, a) s l =
    let enough : leb 32 (length ((h ++ joined hs) ++ tail)) ≡ true =
      ground (arith, length-append h (joined hs), length-append (h ++ joined hs) tail) in
    let split = append_assoc h (joined hs) tail in
    split_step f ((h ++ joined hs) ++ tail) prev h (joined hs ++ tail) enough
      (ap (take 32) split ∙ take-length-append h (joined hs ++ tail) 32 e)
      (ap (drop 32) split ∙ drop-length-append h (joined hs ++ tail) 32 e)
      (split_chunk_lem hs tail h f a s (omega arith))

pub joined-take-drop :
    (n : ℕ) (hs : List Bytes) → joined (take n hs) ++ joined (drop n hs) ≡ joined hs
unfolding joined
joined-take-drop zero hs = refl
joined-take-drop (suc n) [] = refl
joined-take-drop (suc n) (h ∷ hs) =
    append_assoc h (joined (take n hs)) (joined (drop n hs))
    ∙ ap (λ t. h ++ t) (joined-take-drop n hs)

pub AreHashes-take : (n : ℕ) (hs : List Bytes) → AreHashes hs → AreHashes (take n hs)
AreHashes-take zero hs a = tt
AreHashes-take (suc n) [] a = tt
AreHashes-take (suc n) (h ∷ hs) (e, a) = (e, AreHashes-take n hs a)

pub AreHashes-drop : (n : ℕ) (hs : List Bytes) → AreHashes hs → AreHashes (drop n hs)
AreHashes-drop zero hs a = a
AreHashes-drop (suc n) [] a = tt
AreHashes-drop (suc n) (h ∷ hs) (_, a) = AreHashes-drop n hs a

chain-take-drop :
    (n : ℕ) (prev : Bytes) (hs : List Bytes)
    → chain prev (take n hs) ++ chain (last_hash prev (take n hs)) (drop n hs) ≡ chain prev hs
unfolding chain last_hash
chain-take-drop zero prev hs = refl
chain-take-drop (suc n) prev [] = refl
chain-take-drop (suc n) prev (h ∷ hs) =
    ap (λ t. record { the_hash = h; prev_hash = prev; weight = 1 } ∷ t) (chain-take-drop n h hs)

take_all : (n : ℕ) (xs : Bytes) → length xs ≤ n → (take n xs ≡ xs) × (drop n xs ≡ [])
take_all zero [] h = (refl, refl)
take_all zero (x ∷ xs) h = absurd (omega arith)
take_all (suc n) [] h = (refl, refl)
take_all (suc n) (x ∷ xs) h = let (t, d) = take_all n xs (omega arith) in (ap (λ r. x ∷ r) t, d)

read_step :
    (f : ℕ) (file prev last d rest : Bytes) {first more : List BlockTuple}
    → take 16384 file ≡ d
    → drop 16384 file ≡ rest
    → 0 < length d
    → split_chunk (suc (length d)) d prev ≡ ok (first, last)
    → read_chunks f rest last ≡ ok more
    → read_chunks (suc f) file prev ≡ ok (first ++ more)
unfolding read_chunks
read_step f file prev last d rest t r h s m =
    let some_read : (length d == 0) ≡ false = ground arith in
    rw (read_chunks, t, some_read, t, s, r, m) refl

read_end : (f : ℕ) (prev : Bytes) → 0 < f → read_chunks f [] prev ≡ ok []
unfolding read_chunks
read_end zero prev h = absurd (omega arith)
read_end (suc f) prev h = refl

split_rest :
    (tail prev : Bytes)
    → length tail < 32
    → split_chunk (suc (length tail)) tail prev ≡ ok ([], prev)
unfolding split_chunk
split_rest tail prev s = ground arith

-- The last chunk.
read_last :
    (f : ℕ) (hs : List Bytes) (tail prev : Bytes)
    → AreHashes hs
    → length tail < 32
    → length hs < 512
    → length (joined hs ++ tail) < suc f
    → read_chunks (suc f) (joined hs ++ tail) prev ≡ ok (chain prev hs)
unfolding joined chain
read_last f [] [] prev a s l b = read_end (suc f) prev (omega arith)
read_last f [] (t ∷ ts) prev a s l b =
    let (all, none_left) = take_all 16384 (t ∷ ts) (omega arith) in
    read_step f (t ∷ ts) prev prev (t ∷ ts) [] {first = []} {more = []} all none_left (omega arith)
      (split_rest (t ∷ ts) prev s) (read_end f prev (omega arith))
read_last f (h ∷ hs) tail prev a s l b =
    let file = joined (h ∷ hs) ++ tail in
    let size = length-append (joined (h ∷ hs)) tail in
    let joined_size = length-joined (h ∷ hs) a in
    let (all, none_left) = take_all 16384 file (omega (arith, size, joined_size)) in
    read_step f file prev (last_hash prev (h ∷ hs)) file [] {first = chain prev (h ∷ hs)}
      {more = []} all none_left (omega (arith, size, joined_size))
      (split_chunk_lem (h ∷ hs) tail prev (suc (length file)) a s
        (omega (arith, size, joined_size)))
      (read_end f (last_hash prev (h ∷ hs)) (omega (arith, size, joined_size)))
    ∙ ap ok (append-nil (chain prev (h ∷ hs)))

pub read_chunks_lem :
    (f : ℕ) (hs : List Bytes) (tail prev : Bytes)
    → AreHashes hs
    → length tail < 32
    → length (joined hs ++ tail) < f
    → read_chunks f (joined hs ++ tail) prev ≡ ok (chain prev hs)
read_chunks_lem zero hs tail prev a s b = absurd (omega arith)
read_chunks_lem (suc f) hs tail prev a s b = elim (dec_lt (length hs) 512) [
  | yes few ↦ read_last f hs tail prev a s few b
  | no many ↦
      let first = take 512 hs in
      let rest = drop 512 hs in
      let first_size : length (joined first) ≡ 16384 =
        omega (arith, length-joined first (AreHashes-take 512 hs a), length-take 512 hs) in
      let split : joined hs ++ tail ≡ joined first ++ (joined rest ++ tail) =
        ap (λ t. t ++ tail) (sym (joined-take-drop 512 hs))
        ∙ append_assoc (joined first) (joined rest) tail in
      let chunk =
        ap (take 16384) split
        ∙ take-length-append (joined first) (joined rest ++ tail) 16384 first_size in
      let left =
        ap (drop 16384) split
        ∙ drop-length-append (joined first) (joined rest ++ tail) 16384 first_size in
      read_step f (joined hs ++ tail) prev (last_hash prev first) (joined first)
        (joined rest ++ tail) {first = chain prev first} {more = chain (last_hash prev first) rest}
        chunk left (omega (arith, first_size)) (split_whole first prev (AreHashes-take 512 hs a))
        (read_chunks_lem f rest tail (last_hash prev first) (AreHashes-drop 512 hs a) s (
          omega (
            arith,
            ap length split,
            length-append (joined first) (joined rest ++ tail),
            first_size,
          )))
      ∙ ap ok (chain-take-drop 512 prev hs)
]
  where
    split_whole :
        (hs : List Bytes) (prev : Bytes)
        → AreHashes hs
        → split_chunk (suc (length (joined hs))) (joined hs) prev
          ≡ ok (chain prev hs, last_hash prev hs)
    split_whole hs prev a =
        ap (λ d. split_chunk (suc (length (joined hs))) d prev) (sym (append-nil (joined hs)))
        ∙ split_chunk_lem hs [] prev (suc (length (joined hs))) a (omega arith)
            (omega (arith, length-joined hs a))

-- A file of 32-byte hashes is read as their chain, each with the one before it as its parent and
-- with weight 1; bytes behind the last whole hash are passed over.
pub block_tuple_iterator_lem :
    (parent_to_0 : Bytes) (hs : List Bytes) (tail : Bytes)
    → AreHashes hs
    → length tail < 32
    → block_tuple_iterator parent_to_0 (some (joined hs ++ tail)) ≡ ok (chain parent_to_0 hs)
unfolding block_tuple_iterator
block_tuple_iterator_lem parent_to_0 hs tail a s =
    read_chunks_lem (suc (length (joined hs ++ tail))) hs tail parent_to_0 a s (omega arith)
