-- ===== src/Handlers/Headers.antt =====
-- The headers that BlockHandler sends to a peer.
use Prim.Native.Nat.{min}
use pycoinnet.Prelude.{
  ℕ, zero, suc, ◌+◌, ◌≤◌, ◌≡◌, ◌⊎◌, inl, inr, refl, arith, Option, none, some, Option-cases, List,
  [], ◌∷◌, length, get_elem?, Bytes, bytes_eq_self, replicate, bytes_key,
}
use mathlib.Core.Path.{subst}
use pycoinnet.Dict.{Dict, lookup}
use pycoinnet.Handlers.{headers_from, prep_headers}

module _ {Block Header : Type 0} (hash_for_index : ℕ → Option Bytes)
    (header_for_block : Block → Header) (block_store : Dict Bytes Block) where
  -- The header of the block that the chain has at an index, and an index with no such block.
  abbrev pub IsHeaderAt : ℕ → Header → Type 0
  IsHeaderAt i header =
      (h : Bytes) × (block : Block) × (hash_for_index i ≡ some h)
      × (lookup h block_store ≡ some block)
      × (header ≡ header_for_block block)

  abbrev pub HasNoBlock : ℕ → Type 0
  HasNoBlock i =
      (hash_for_index i ≡ none)
      ⊎ ((h : Bytes) × (hash_for_index i ≡ some h) × (lookup h block_store ≡ none))

  abbrev pub IsBeginning : ℕ → ℕ → List Header → Type 0
  IsBeginning left i hs =
      (length hs ≤ left)
      × ((j : ℕ) (header : Header) → get_elem? hs j ≡ some header → IsHeaderAt (i + j) header)
      × ((length hs ≡ left) ⊎ HasNoBlock (i + length hs))

  stop : (left i : ℕ) → HasNoBlock i → IsBeginning left i []
  stop left i h =
      (omega arith, (λ j header e. absurd (ground arith)), inr (subst HasNoBlock (omega arith) h))

  more :
      (left i : ℕ) (header : Header) (hs : List Header)
      → IsHeaderAt i header
      → IsBeginning left (i + 1) hs
      → IsBeginning (suc left) i (header ∷ hs)
  more left i header hs here (short, each, last) = (
    omega arith,
    each_one,
    elim last [
      | inl e ↦ inl (omega arith)
      | inr none_next ↦ inr (subst HasNoBlock (omega arith) none_next)
    ],
  )
    where
      each_one : (j : ℕ) (x : Header) → get_elem? (header ∷ hs) j ≡ some x → IsHeaderAt (i + j) x
      each_one zero x e =
          subst (λ k. IsHeaderAt k x) (omega arith) (subst (IsHeaderAt i) (some_inj e) here)
        where
          some_inj : {a b : Header} → some a ≡ some b → a ≡ b
          some_inj e = cc
      each_one (suc j) x e = subst (λ k. IsHeaderAt k x) (omega arith) (each j x e)

  headers_from_lem :
      (left i : ℕ)
      → IsBeginning left i (headers_from hash_for_index header_for_block left i block_store)
  unfolding headers_from
  headers_from_lem zero i = (omega arith, (λ j header e. absurd (ground arith)), inl refl)
  headers_from_lem (suc left) i = elim (Option-cases (hash_for_index i)) [
    | inl e ↦ rw (headers_from, e) (stop (suc left) i (inl e))
    | inr (h, e) ↦ elim (Option-cases (lookup h block_store)) [
      | inl n ↦ rw (headers_from, e, n) (stop (suc left) i (inr (h, e, n)))
      | inr (block, b) ↦
          rw (headers_from, e, b)
            (more left i (header_for_block block) _ (h, block, e, b, refl)
              (headers_from_lem left (i + 1)))
    ]
  ]

  -- The answer to a getheaders message with a zero `hash_stop` is the headers of the chain's first
  -- blocks, in order and without a gap: up to the length of the chain, 2000 headers, or the first
  -- block that the chain or the store does not have, whichever is the shortest.
  pub prep_headers_lem :
      (chain_length : ℕ)
      → IsBeginning
          (min 2000 chain_length)
          0
          (prep_headers hash_for_index header_for_block chain_length (replicate 32 0) block_store)
  unfolding prep_headers
  prep_headers_lem chain_length =
      rw (bytes_eq_self (replicate 32 0)) (headers_from_lem (min 2000 chain_length) 0)
