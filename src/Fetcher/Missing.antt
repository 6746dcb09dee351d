-- ===== src/Fetcher/Missing.antt =====
-- A merkleblock that is not followed by its transactions.
use pycoinnet.Prelude.{
  ℕ, ◌≡◌, ◌≢◌, ◌⊎◌, inl, inr, refl, sym, ap, ◌∙◌, ◌++◌, map, append-nil, append_assoc, bytes_eq,
  bytes_eq_iff, bytes_eq_self, Bool-cases, arith, Option, none, some, Option-cases, List, [], ◌∷◌,
  Bytes, nat_eq, ok, err, key_error, invalid_state,
}
use pycoinnet.Dict.{lookup, put, remove, lookup-remove, beq_self}
use pycoinnet.Inv.{InvItem, item_of, item_type_merkleblock, inv_item_key}
use pycoinnet.Fetcher.{
  Blob, Item, merkleblock_item, Message, tx, block, notfound, merkleblock, FetcherState, set_result,
  del_future, resolve, missing, collect_txs, give_up, fetch_loop, run_fetch_loop,
}

del_missing :
    (i : InvItem) (s : FetcherState) → lookup i s.futures ≡ none → del_future i s ≡ err key_error
unfolding del_future
del_missing i s h = ground arith

del_known :
    (i : InvItem) (s : FetcherState) {k : ℕ}
    → lookup i s.futures ≡ some k
    → del_future i s ≡ ok (record s { futures = remove i s.futures })
unfolding del_future
del_known i s h = ground arith

set_pending :
    (k : ℕ) (r : Option Item) (s : FetcherState)
    → lookup k s.outcomes ≡ none
    → set_result k r s ≡ ok (record s { outcomes = put k r s.outcomes })
unfolding set_result
set_pending k r s h = ground arith

set_done :
    (k : ℕ) (r : Option Item) (s : FetcherState) {q : Option Item}
    → lookup k s.outcomes ≡ some q
    → set_result k r s ≡ err invalid_state
unfolding set_result
set_done k r s h = ground arith

-- What the code does about missing transactions always raises.
pub give_up_fails :
    (i : InvItem) (item : Item) (m : Message) (s : FetcherState)
    → (give_up i (lookup i s.futures) item m s ≡ err key_error)
      ⊎ (give_up i (lookup i s.futures) item m s ≡ err invalid_state)
unfolding give_up resolve
give_up_fails i item m s = elim (Option-cases (lookup i s.futures)) [
  | inl unknown ↦ inl (rw (unknown, del_missing i s unknown) refl)
  | inr (k, known) ↦
      let s1 : FetcherState = record s { futures = remove i s.futures } in
      elim (Option-cases (lookup k s.outcomes)) [
        | inr (r, done) ↦ inr (rw (known, del_known i s known, set_done k none s1 done) refl)
        | inl pending ↦
            let s2 : FetcherState = record s {
              futures = remove i s.futures;
              outcomes = put k none s.outcomes;
            } in
            let e : lookup i s2.futures ≡ none =
              grind (arith, lookup-remove i i s.futures, beq_self i) in
            inl (
              rw (known, del_known i s known, set_pending k none s1 pending, del_missing i s2 e)
                refl)
      ]
]

-- The message is not a transaction with the hash.
abbrev pub IsNotTx : Bytes → Message → Type 0
IsNotTx h m = (t : Blob) → m ≡ tx t → t.hash ≢ h

collect_stops :
    (h : Bytes) (more : List Bytes) (m : Message) (rest : List Message) (txs : List Blob)
    → IsNotTx h m
    → collect_txs (h ∷ more) (m ∷ rest) txs ≡ missing txs m rest
unfolding collect_txs
collect_stops h more (tx t) rest txs n = elim (Bool-cases (bytes_eq t.hash h)) [
  | inl e ↦ absurd (n t refl ((bytes_eq_iff t.hash h).0 e))
  | inr e ↦ rw e refl
]
collect_stops h more (block b) rest txs n = refl
collect_stops h more (merkleblock header hashes) rest txs n = refl
collect_stops h more (notfound items) rest txs n = refl

-- Some of the transactions come, and then another message.
collect_some :
    (h : Bytes) (more : List Bytes) (m : Message) (rest : List Message) (come txs : List Blob)
    → IsNotTx h m
    → collect_txs (map (λ t. t.hash) come ++ h ∷ more) (map tx come ++ m ∷ rest) txs
      ≡ missing (txs ++ come) m rest
unfolding collect_txs
collect_some h more m rest [] txs n =
    collect_stops h more m rest txs n ∙ ap (λ l. missing l m rest) (sym (append-nil txs))
collect_some h more m rest (t ∷ come) txs n =
    rw (collect_txs, bytes_eq_self t.hash)
      (collect_some h more m rest come (txs ++ t ∷ []) n
        ∙ ap (λ l. missing l m rest) (append_assoc txs (t ∷ []) come))

-- A merkleblock that is followed by some of its transactions, in order, and then by a message that is
-- not the next one, ends the loop with an error, KeyError or InvalidStateError, whether it was asked for
-- or not.
pub run_fetch_loop_missing :
    (header : Blob) (come : List Blob) (h : Bytes) (more : List Bytes) (m : Message)
    (rest : List Message) (s : FetcherState)
    → IsNotTx h m
    → (run_fetch_loop
          (merkleblock header (map (λ t. t.hash) come ++ h ∷ more) ∷ (map tx come ++ m ∷ rest))
          s
        ≡ err key_error)
      ⊎ (run_fetch_loop
            (merkleblock header (map (λ t. t.hash) come ++ h ∷ more) ∷ (map tx come ++ m ∷ rest))
            s
          ≡ err invalid_state)
unfolding run_fetch_loop fetch_loop
run_fetch_loop_missing header come h more m rest s n =
    let c = collect_some h more m rest come [] n in
    elim (give_up_fails (item_of item_type_merkleblock header.hash) (merkleblock_item header come) m
      s) [
        | inl e ↦ inl (rw (run_fetch_loop, fetch_loop, c, e) refl)
        | inr e ↦ inr (rw (run_fetch_loop, fetch_loop, c, e) refl)
      ]
