-- ===== src/Forwarder.antt =====
-- pycoinnet/peergroup/fast_forwarder.py. The block chain is a parameter, `Chain`: its length, the
-- parents that it misses (all of them when it is asked), and `add_headers`. What a peer sends is an input, and the rates that order
-- the queue are left out. A peer is a number.
pub mod Replies
pub mod Ends
pub mod Kept
mod Tests
use pycoinnet.Prelude.{
  ℕ, zero, suc, ltb, if◌then◌else◌, Option, none, some, List, [], ◌∷◌, ◌++◌, Bytes, Result, ok, err,
  out_of_fuel,
}
use pycoinnet.Inv.{InvItem, item_of, item_type_block}

pub record Chain (Block Op State : Type 0) : Type 0 where
  pub chain_length : State → ℕ
  pub missing_parents : State → List Bytes
  pub add_headers : List Block → State → List Op × State

-- What `_fetch_missing` comes to: the items asked for, the operations unless an exception ends it, the
-- block chain, and what the peer will still send.
pub record Fetched (Block Op State : Type 0) : Type 0 where
  pub asked : List InvItem
  pub ops : Option (List Op)
  pub chain : State
  pub replies : List (Option Block)

-- An entry of `peer_queue`.
pub record Entry : Type 0 where
  pub peer : ℕ
  pub lbi : ℕ

-- `if len(ops) > 0: break`, with what the rest of the loop comes to.
unfoldable pub after_block :
    {Block Op State : Type 0}
    → Bytes
    → List Op
    → State
    → List (Option Block)
    → Fetched Block Op State
    → Fetched Block Op State
after_block h [] s replies rest = record rest { asked = item_of item_type_block h ∷ rest.asked }
after_block h (op ∷ more) s replies rest = record {
  asked = item_of item_type_block h ∷ [];
  ops = some (op ∷ more);
  chain = s;
  replies = replies;
}

module _ {Block Op State : Type 0} (blockchain : Chain Block Op State) where
  -- The loop over the missing parents. A reply is a block, or `none` for the end of the connection or
  -- the timeout; without any reply the timeout comes.
  unfoldable pub fetch_each : List Bytes → List (Option Block) → State → Fetched Block Op State
  unfolding after_block
  fetch_each [] replies s = record { asked = []; ops = some []; chain = s; replies = replies }
  fetch_each (h ∷ hs) [] s = record {
    asked = item_of item_type_block h ∷ [];
    ops = none;
    chain = s;
    replies = [];
  }
  fetch_each (h ∷ hs) (none ∷ replies) s = record {
    asked = item_of item_type_block h ∷ [];
    ops = none;
    chain = s;
    replies = replies;
  }
  fetch_each (h ∷ hs) (some block ∷ replies) s =
      let (new_ops, s1) = blockchain.add_headers (block ∷ []) s in
      after_block h new_ops s1 replies (fetch_each hs replies s1)

  unfoldable pub fetch_missing : List (Option Block) → State → Fetched Block Op State
  unfolding fetch_each
  fetch_missing replies s = fetch_each (blockchain.missing_parents s) replies s

  -- `while len(ops) == 0`, on fuel. After an exception the operations are still none.
  unfoldable pub catch_up : ℕ → List Op → List (Option Block) → State → Result (List Op × State)
  unfolding fetch_missing
  catch_up f (op ∷ ops) replies s = ok (op ∷ ops, s)
  catch_up zero [] replies s = err out_of_fuel
  catch_up (suc f) [] replies s =
      let r = fetch_missing replies s in
      elim r.ops [ none ↦ ok ([], r.chain) | some ops ↦ catch_up f ops r.replies r.chain ]

  -- An iteration of `_run_ff` for the peer that comes out of the queue: the entry that is put back, and
  -- the block chain. The answer to getheaders is missing if the peer is gone or the time is over.
  unfoldable pub run_ff :
      ℕ → Entry → Option (List Block) → List (Option Block) → State → Result (Option Entry × State)
  unfolding catch_up
  run_ff f entry answer replies s =
      if ltb (blockchain.chain_length s) entry.lbi
      then elim answer [
        | none ↦ ok (none, s)
        | some headers ↦
            (let (ops, s1) = blockchain.add_headers headers s in
              elim (catch_up f ops replies s1) [
                | err e ↦ err e
                | ok ([], s2) ↦ ok (none, s2)
                | ok (op ∷ more, s2) ↦ ok (some entry, s2)
              ])
      ]
      else ok (none, s)

-- `add_peer`
abbrev pub add_peer : ℕ → ℕ → List Entry → List Entry
add_peer peer last_block_index peer_queue =
    peer_queue ++ record { peer = peer; lbi = last_block_index } ∷ []
