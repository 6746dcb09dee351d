-- ===== src/Fetcher/Total.antt =====
-- The end of the loop of pycoinnet/peer/Fetcher.py over messages, and the futures of requests.
use pycoinnet.Prelude.{
  ℕ, zero, suc, ◌+◌, ◌≤◌, ◌<◌, ◌≡◌, ◌⊎◌, inl, inr, refl, arith, Option, none, some, Option-cases,
  List, [], ◌∷◌, ◌++◌, Bytes, bytes_eq, Bool-cases, length, nat_eq, Result, ok, err, ◌>>=◌,
  key_error, invalid_state,
}
use pycoinnet.Dict.{lookup, put, lookup-put, beq_self}
use pycoinnet.Inv.{
  InvItem, item_of, item_type_tx, item_type_block, item_type_merkleblock, inv_item_key,
}
use pycoinnet.Fetcher.{
  Blob, Item, tx_item, block_item, merkleblock_item, Message, tx, block, merkleblock, notfound,
  FetcherState, fetch, set_result, del_future, not_found, set_if_pending, resolve, complete,
  missing, ended, collect_txs, on_notfound, fetch_loop, run_fetch_loop,
}
use pycoinnet.Fetcher.Missing.{give_up_fails}

-- A return, or one of the two exceptions that the code may raise.
abbrev pub Ends : Result FetcherState → Type 0
Ends r = ((s' : FetcherState) × (r ≡ ok s')) ⊎ (r ≡ err key_error) ⊎ (r ≡ err invalid_state)

bind-Ends :
    (r : Result FetcherState) (k : FetcherState → Result FetcherState)
    → Ends r
    → ((s : FetcherState) → Ends (k s))
    → Ends (r >>= k)
bind-Ends r k (inl (s, e)) h = rw e (h s)
bind-Ends r k (inr (inl e)) h = rw e (inr (inl refl))
bind-Ends r k (inr (inr e)) h = rw e (inr (inr refl))

del_future-Ends : (i : InvItem) (s : FetcherState) → Ends (del_future i s)
unfolding del_future
del_future-Ends i s = elim (Option-cases (lookup i s.futures)) [
  | inl e ↦ rw (del_future, e) (inr (inl refl))
  | inr (k, e) ↦ rw (del_future, e) (inl (_, refl))
]

set_result-Ends : (k : ℕ) (r : Option Item) (s : FetcherState) → Ends (set_result k r s)
unfolding set_result
set_result-Ends k r s = elim (Option-cases (lookup k s.outcomes)) [
  | inl e ↦ rw (set_result, e) (inl (_, refl))
  | inr (q, e) ↦ rw (set_result, e) (inr (inr refl))
]

set_if_pending-Ends : (k : ℕ) (item : Item) (s : FetcherState) → Ends (set_if_pending k item s)
unfolding set_if_pending
set_if_pending-Ends k item s = elim (Option-cases (lookup k s.outcomes)) [
  | inl e ↦ rw (set_if_pending, e) (set_result-Ends k (some item) s)
  | inr (q, e) ↦ rw (set_if_pending, e) (inl (_, refl))
]

resolve-Ends :
    (i : InvItem) (future : Option ℕ) (item : Item) (s : FetcherState)
    → Ends (resolve i future item s)
unfolding resolve
resolve-Ends i none item s = inl (s, refl)
resolve-Ends i (some k) item s =
    bind-Ends (del_future i s) (set_if_pending k item) (del_future-Ends i s)
      (set_if_pending-Ends k item)

on_notfound-Ends : (items : List InvItem) (s : FetcherState) → Ends (on_notfound items s)
unfolding on_notfound not_found
on_notfound-Ends [] s = inl (s, refl)
on_notfound-Ends (i ∷ items) s =
    bind-Ends (not_found i s) (on_notfound items) (one (Option-cases (lookup i s.futures)))
      (on_notfound-Ends items)
  where
    one :
        (lookup i s.futures ≡ none) ⊎ ((k : ℕ) × (lookup i s.futures ≡ some k))
        → Ends (not_found i s)
    one (inl e) = rw (not_found, e) (inl (s, refl))
    one (inr (k, e)) =
        rw (not_found, e)
          (bind-Ends (del_future i s) (set_result k none) (del_future-Ends i s)
            (set_result-Ends k none))

collect_shorter :
    (hs : List Bytes) (ms : List Message) (acc : List Blob)
    → (collect_txs hs ms acc ≡ ended)
      ⊎ ((txs : List Blob) × (rest : List Message) × (collect_txs hs ms acc ≡ complete txs rest)
          × (length rest ≤ length ms))
      ⊎ ((txs : List Blob) × (m : Message) × (rest : List Message) × (collect_txs hs ms acc
            ≡ missing txs m rest))
unfolding collect_txs
collect_shorter [] ms acc = inr (inl (acc, ms, refl, omega arith))
collect_shorter (h ∷ hs) [] acc = inl refl
collect_shorter (h ∷ hs) (block b ∷ ms) acc = inr (inr (_, _, _, refl))
collect_shorter (h ∷ hs) (merkleblock b k ∷ ms) acc = inr (inr (_, _, _, refl))
collect_shorter (h ∷ hs) (notfound k ∷ ms) acc = inr (inr (_, _, _, refl))
collect_shorter (h ∷ hs) (tx t ∷ ms) acc = elim (Bool-cases (bytes_eq t.hash h)) [
  | inr other ↦ inr (inr (acc, tx t, ms, ground arith))
  | inl same ↦ elim (collect_shorter hs ms (acc ++ t ∷ [])) [
    | inl e ↦ inl (ground arith)
    | inr (inl (txs, rest, e, l)) ↦ inr (inl (txs, rest, ground arith, omega arith))
    | inr (inr (txs, m, rest, e)) ↦ inr (inr (txs, m, rest, ground arith))
  ]
]

loop-Ends :
    (f : ℕ) (ms : List Message) (s : FetcherState) → length ms < f → Ends (fetch_loop f ms s)
unfolding fetch_loop
loop-Ends zero ms s h = absurd (omega arith)
loop-Ends (suc f) [] s h = inl (s, refl)
loop-Ends (suc f) (tx t ∷ ms) s h =
    bind-Ends _ (fetch_loop f ms)
      (resolve-Ends _ (lookup (item_of item_type_tx t.hash) s.futures) (tx_item t) s)
      (λ s1. loop-Ends f ms s1 (omega arith))
loop-Ends (suc f) (block b ∷ ms) s h =
    bind-Ends _ (fetch_loop f ms)
      (resolve-Ends _ (lookup (item_of item_type_block b.hash) s.futures) (block_item b) s)
      (λ s1. loop-Ends f ms s1 (omega arith))
loop-Ends (suc f) (notfound items ∷ ms) s h =
    bind-Ends (on_notfound items s) (fetch_loop f ms) (on_notfound-Ends items s)
      (λ s1. loop-Ends f ms s1 (omega arith))
loop-Ends (suc f) (merkleblock header hs ∷ ms) s h =
    let i = item_of item_type_merkleblock header.hash in
    elim (collect_shorter hs ms []) [
      | inl e ↦ inl (s, rw (fetch_loop, e) refl)
      | inr (inl (txs, rest, e, l)) ↦
          rw (fetch_loop, e)
            (bind-Ends (resolve i (lookup i s.futures) (merkleblock_item header txs) s)
              (fetch_loop f rest)
              (resolve-Ends i (lookup i s.futures) (merkleblock_item header txs) s)
              (λ s1. loop-Ends f rest s1 (omega arith)))
      | inr (inr (txs, m, rest, e)) ↦ elim (give_up_fails i (merkleblock_item header txs) m s) [
        | inl failed ↦ inr (inl (rw (fetch_loop, e, failed) refl))
        | inr failed ↦ inr (inr (rw (fetch_loop, e, failed) refl))
      ]
    ]

-- The loop ends on all messages: it returns, or it raises KeyError or InvalidStateError.
pub run_fetch_loop_total : (ms : List Message) (s : FetcherState) → Ends (run_fetch_loop ms s)
unfolding run_fetch_loop
run_fetch_loop_total ms s = loop-Ends (suc (length ms)) ms s (omega arith)

fetch_known :
    (i : InvItem) (s : FetcherState) {k : ℕ} → lookup i s.futures ≡ some k → fetch i s ≡ (k, s)
unfolding fetch
fetch_known i s h = rw (fetch, h) refl

abbrev requested : InvItem → FetcherState → FetcherState
requested i s = record {
  request_q = s.request_q ++ i ∷ [];
  futures = put i s.next_future s.futures;
  outcomes = s.outcomes;
  next_future = s.next_future + 1;
}

fetch_new :
    (i : InvItem) (s : FetcherState)
    → lookup i s.futures ≡ none
    → fetch i s ≡ (s.next_future, requested i s)
unfolding fetch
fetch_new i s h = rw (fetch, h) refl

-- A second fetch of an item before an answer waits for the same future, and asks the peer no
-- second time; the table has that future for the item.
pub fetch_shared :
    (i : InvItem) (s : FetcherState)
    → (fetch i (fetch i s).1 ≡ fetch i s) × (lookup i (fetch i s).1.futures ≡ some (fetch i s).0)
fetch_shared i s = elim (Option-cases (lookup i s.futures)) [
  | inl new ↦
      let entry : lookup i (requested i s).futures ≡ some s.next_future =
        grind (arith, lookup-put i i s.next_future s.futures, beq_self i) in
      rw (fetch_new i s new) (fetch_known i (requested i s) entry, entry)
  | inr (k, known) ↦ rw (fetch_known i s known) (fetch_known i s known, known)
]
