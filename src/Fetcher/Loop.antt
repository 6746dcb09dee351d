-- ===== src/Fetcher/Loop.antt =====
-- The loop of pycoinnet/peer/Fetcher.py over messages, and the futures that it answers.
use mathlib.Core.Path.{subst}
use pycoinnet.Prelude.{
  ℕ, zero, suc, ◌≡◌, inl, inr, refl, sym, ◌∙◌, ap, arith, List, [], ◌∷◌, ◌++◌, map, append_assoc,
  append-nil, Bytes, bytes_eq, bytes_eq_iff, In, append-In, Result, ok, ◌>>=◌, >>=-eq-ok,
  Bool-cases, length,
}
use pycoinnet.Dict.{lookup}
use pycoinnet.Inv.{
  InvItem, item_of, item_type_tx, item_type_block, item_type_merkleblock, inv_item_key,
}
use pycoinnet.Fetcher.{
  Blob, Item, tx_item, block_item, merkleblock_item, Message, tx, block, merkleblock, notfound,
  FetcherState, resolve, Collected, complete, missing, ended, collect_txs, on_notfound, give_up,
  fetch_loop, run_fetch_loop,
}
use pycoinnet.Fetcher.Answers.{
  Evolves, unchanged, then_Evolves, resolve-Evolves, on_notfound-Evolves,
}
use pycoinnet.Fetcher.Missing.{give_up_fails}

-- The object came in a message; the transactions of a merkleblock are those that its message names.
abbrev pub Came : List Message → Item → Type 0
Came ms (tx_item t) = In (tx t) ms
Came ms (block_item b) = In (block b) ms
Came ms (merkleblock_item header txs) = In (merkleblock header (map (λ t. t.hash) txs)) ms

collect_complete :
    (hs : List Bytes) (ms rest : List Message) (acc txs : List Blob)
    → collect_txs hs ms acc ≡ complete txs rest
    → (new : List Blob) × (txs ≡ acc ++ new)
      × (map (λ t. t.hash) new ≡ hs)
      × (ms ≡ map tx new ++ rest)
unfolding collect_txs
collect_complete [] ms rest acc txs e = ([], grind (arith, append-nil acc), refl, ground arith)
collect_complete (h ∷ hs) [] rest acc txs e = absurd (ground arith)
collect_complete (h ∷ hs) (tx t ∷ ms) rest acc txs e = elim (Bool-cases (bytes_eq t.hash h)) [
  | inr other ↦ absurd (ground arith)
  | inl same ↦
      let (new, a, b, c) = collect_complete hs ms rest (acc ++ t ∷ []) txs (ground arith) in
      (
        t ∷ new,
        a ∙ append_assoc acc (t ∷ []) new,
        ap (λ x. x ∷ map (λ u. u.hash) new) ((bytes_eq_iff t.hash h).0 same) ∙ ap (λ x. h ∷ x) b,
        ap (λ x. tx t ∷ x) c,
      )
]
collect_complete (h ∷ hs) (block b ∷ ms) rest acc txs e = absurd (ground arith)
collect_complete (h ∷ hs) (merkleblock b k ∷ ms) rest acc txs e = absurd (ground arith)
collect_complete (h ∷ hs) (notfound k ∷ ms) rest acc txs e = absurd (ground arith)

module _ (all : List Message) where
  Came-whole :
      (header : Blob) (hs : List Bytes) (new : List Blob)
      → map (λ t. t.hash) new ≡ hs
      → In (merkleblock header hs) all
      → Came all (merkleblock_item header new)
  Came-whole header hs new e k = subst (λ x. In (merkleblock header x) all) (sym e) k

  loop-Evolves :
      (f : ℕ) (ms : List Message) (s : FetcherState) {s' : FetcherState}
      → ((m : Message) → In m ms → In m all)
      → fetch_loop f ms s ≡ ok s'
      → Evolves (Came all) s s'
  unfolding fetch_loop
  loop-Evolves zero ms s sub e = absurd (ground arith)
  loop-Evolves (suc f) [] s sub e =
      subst (Evolves (Came all) s) (grind arith) (unchanged (Came all) s)
  loop-Evolves (suc f) (tx t ∷ ms) s sub e =
      let i = item_of item_type_tx t.hash in
      let (s1, first, rest) = >>=-eq-ok (resolve i (lookup i s.futures) (tx_item t) s) _ e in
      then_Evolves (Came all)
        (resolve-Evolves (Came all) i (lookup i s.futures) (tx_item t) s refl refl
          (sub (tx t) (inl refl)) first)
        (loop-Evolves f ms s1 (λ m k. sub m (inr k)) rest)
  loop-Evolves (suc f) (block b ∷ ms) s sub e =
      let i = item_of item_type_block b.hash in
      let (s1, first, rest) = >>=-eq-ok (resolve i (lookup i s.futures) (block_item b) s) _ e in
      then_Evolves (Came all)
        (resolve-Evolves (Came all) i (lookup i s.futures) (block_item b) s refl refl
          (sub (block b) (inl refl)) first)
        (loop-Evolves f ms s1 (λ m k. sub m (inr k)) rest)
  loop-Evolves (suc f) (notfound items ∷ ms) s sub e =
      let (s1, first, rest) = >>=-eq-ok (on_notfound items s) _ e in
      then_Evolves (Came all) (on_notfound-Evolves (Came all) items s first)
        (loop-Evolves f ms s1 (λ m k. sub m (inr k)) rest)
  loop-Evolves (suc f) (merkleblock header hs ∷ ms) s {s'} sub e =
      after (λ ms s s'. loop-Evolves f ms s) (collect_txs hs ms []) refl e
    where
      i : InvItem
      i = item_of item_type_merkleblock header.hash

      after :
          ((ms : List Message) (s s' : FetcherState)
            → ((m : Message) → In m ms → In m all)
            → fetch_loop f ms s ≡ ok s'
            → Evolves (Came all) s s')
          → (c : Collected) → collect_txs hs ms [] ≡ c
          → elim c as (λ _. Result FetcherState) [
            | ended ↦ ok s
            | complete txs rest ↦ (do
              s1 ← resolve i (lookup i s.futures) (merkleblock_item header txs) s
              fetch_loop f rest s1)
            | missing txs m rest ↦ (do
              s1 ← give_up i (lookup i s.futures) (merkleblock_item header txs) m s
              fetch_loop f rest s1)
          ]
            ≡ ok s'
          → Evolves (Came all) s s'
      after later ended c e = subst (Evolves (Came all) s) (grind arith) (unchanged (Came all) s)
      after later (complete txs rest) c e =
          let (new, a, b, d) = collect_complete hs ms rest [] txs c in
          let (s1, first, more) =
            >>=-eq-ok (resolve i (lookup i s.futures) (merkleblock_item header txs) s) _ e in
          then_Evolves (Came all)
            (resolve-Evolves (Came all) i (lookup i s.futures) (merkleblock_item header txs) s refl
              refl
              (Came-whole header hs txs (ap (map (λ t. t.hash)) a ∙ b)
                (sub (merkleblock header hs) (inl refl)))
              first)
            (later rest s1 s'
              (λ m k. sub m (inr (subst (In m) (sym d) (append-In m (map tx new) rest (inr k)))))
              more)
      after later (missing txs m rest) c e =
          elim (give_up_fails i (merkleblock_item header txs) m s) [
            | inl failed ↦ absurd (grind arith)
            | inr failed ↦ absurd (grind arith)
          ]

-- Whatever messages come, as long as the loop does not raise: a future that has a result keeps it;
-- a new result of an object is given to the future of the request with the object's type and hash,
-- and the object came in a message, a merkleblock with the transactions that its message names; and
-- no request enters the table.
pub run_fetch_loop-Evolves :
    (ms : List Message) (s : FetcherState) {s' : FetcherState}
    → run_fetch_loop ms s ≡ ok s'
    → Evolves (Came ms) s s'
unfolding run_fetch_loop
run_fetch_loop-Evolves ms s e = loop-Evolves ms (suc (length ms)) ms s (λ m k. k) e
