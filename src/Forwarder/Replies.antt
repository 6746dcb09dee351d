-- ===== src/Forwarder/Replies.antt =====
-- The replies of a peer to `_fetch_missing` of pycoinnet/peergroup/fast_forwarder.py.
use pycoinnet.Prelude.{◌+◌, ◌≡◌, refl, arith, Option, none, some, List, [], ◌∷◌, length, Bytes}
use pycoinnet.Forwarder.{Chain, Fetched, after_block, fetch_each}

-- The next reply is the end of the connection or the timeout.
pub data IsSilent {Block : Type 0} : List (Option Block) → Type 0 where
  no_reply : IsSilent []
  no_block : (rs : List (Option Block)) → IsSilent (none ∷ rs)

module _ {Block Op State : Type 0} (blockchain : Chain Block Op State) where
  -- The first replies are blocks that are added one after the other and bring no operations; the second
  -- list is what is then left of the replies.
  pub data Idle : List (Option Block) → State → List (Option Block) → State → Type 0 where
    here : (rs : List (Option Block)) (s : State) → Idle rs s rs s
    added :
        (block : Block) (rs rs1 : List (Option Block)) (s s1 s2 : State)
        → blockchain.add_headers (block ∷ []) s ≡ ([], s1)
        → Idle rs s1 rs1 s2
        → Idle (some block ∷ rs) s rs1 s2

  pub idle_append :
      {rs1 rs2 rs3 : List (Option Block)} {s1 s2 s3 : State}
      → Idle rs1 s1 rs2 s2
      → Idle rs2 s2 rs3 s3
      → Idle rs1 s1 rs3 s3
  idle_append (here rs s) j = j
  idle_append (added block rs rs1 s s1 s2 e i) j = added block rs _ s s1 _ e (idle_append i j)

  -- What the loop makes of the replies and the block chain. All the replies up to one that is no block
  -- bring no operations, or the first of them that does ends the loop.
  pub data Gained (replies : List (Option Block)) (s : State) : List Op × State → Type 0 where
    nothing :
        (rs : List (Option Block)) (s1 : State)
        → Idle replies s rs s1
        → IsSilent rs
        → Gained replies s ([], s1)
    something :
        (block : Block) (op : Op) (more : List Op) (rs : List (Option Block)) (s1 s2 : State)
        → Idle replies s (some block ∷ rs) s1
        → blockchain.add_headers (block ∷ []) s1 ≡ (op ∷ more, s2)
        → Gained replies s (op ∷ more, s2)

  pub later-Gained :
      {rs rs1 : List (Option Block)} {s s1 : State} {r : List Op × State}
      → Idle rs s rs1 s1
      → Gained rs1 s1 r
      → Gained rs s r
  later-Gained i (nothing rs s2 j q) = nothing rs s2 (idle_append i j) q
  later-Gained i (something block op more rs s2 s3 j e) =
      something block op more rs s2 s3 (idle_append i j) e

  -- What a call of `_fetch_missing` comes to.
  pub data Comes (replies : List (Option Block)) (s : State) (hs : List Bytes)
      (r : Fetched Block Op State) : Type 0 where
    raised :
        (rs : List (Option Block))
        → r.ops ≡ none
        → Idle replies s rs r.chain
        → IsSilent rs
        → Comes replies s hs r
    brought :
        (op : Op) (more : List Op)
        → r.ops ≡ some (op ∷ more)
        → Gained replies s (op ∷ more, r.chain)
        → Comes replies s hs r
    idled :
        r.ops ≡ some []
        → Idle replies s r.replies r.chain
        → length r.replies + length hs ≡ length replies
        → Comes replies s hs r

  pub fetch_each-Comes :
      (hs : List Bytes) (replies : List (Option Block)) (s : State)
      → Comes replies s hs (fetch_each blockchain hs replies s)
  unfolding fetch_each after_block
  fetch_each-Comes [] replies s = idled refl (here replies s) (ground arith)
  fetch_each-Comes (h ∷ hs) [] s = raised [] refl (here [] s) no_reply
  fetch_each-Comes (h ∷ hs) (none ∷ replies) s =
      raised (none ∷ replies) refl (here (none ∷ replies) s) (no_block replies)
  fetch_each-Comes (h ∷ hs) (some block ∷ replies) s =
      added_block (blockchain.add_headers (block ∷ []) s) refl (fetch_each-Comes hs replies)
    where
      added_block :
          (a : List Op × State)
          → blockchain.add_headers (block ∷ []) s ≡ a
          → ((s1 : State) → Comes replies s1 hs (fetch_each blockchain hs replies s1))
          → Comes
              (some block ∷ replies)
              s
              (h ∷ hs)
              (fetch_each blockchain (h ∷ hs) (some block ∷ replies) s)
      added_block (op ∷ more, s1) e rest =
          rw (fetch_each, e)
            (brought op more refl
              (something block op more replies s s1 (here (some block ∷ replies) s) e))
      added_block ([], s1) e rest = elim (rest s1) [
        | raised rs n i q ↦ rw (fetch_each, e) (raised rs n (added block replies rs s s1 _ e i) q)
        | brought op more n g ↦
            rw (fetch_each, e)
              (brought op more n
                (later-Gained (added block replies replies s s1 s1 e (here replies s1)) g))
        | idled n i l ↦
            rw (fetch_each, e) (idled n (added block replies _ s s1 _ e i) (ground (arith, l)))
      ]
