-- ===== src/Fetcher/Answers.antt =====
-- The answers to a fetch of pycoinnet/peer/Fetcher.py.
use pycoinnet.Prelude.{
  ℕ, ◌==◌, ==_iff, ◌≡◌, ◌⊎◌, inl, inr, sym, ◌∙◌, ap, arith, Option, none, some, Option-cases, List,
  [], ◌∷◌, nat_eq, ok, ◌>>=◌, >>=-eq-ok, Bool-cases,
}
use mathlib.Core.Path.{subst}
use pycoinnet.Dict.{Dict, lookup, put, remove, lookup-put, lookup-remove}
use pycoinnet.Inv.{
  InvItem, item_of, item_type_tx, item_type_block, item_type_merkleblock, inv_item_key, inv_item_eq,
}
use pycoinnet.Fetcher.{
  Item, tx_item, block_item, merkleblock_item, FetcherState, set_result, del_future, not_found,
  set_if_pending, resolve, on_notfound,
}

-- The request that an object answers.
abbrev pub inv_of : Item → InvItem
inv_of (tx_item t) = item_of item_type_tx t.hash
inv_of (block_item b) = item_of item_type_block b.hash
inv_of (merkleblock_item header txs) = item_of item_type_merkleblock header.hash

-- How the state changes while objects of `P` come in.
pub record Evolves (P : Item → Type 0) (s s' : FetcherState) : Type 0 where
  -- A future gets a result once.
  pub kept :
      (k : ℕ) {r : Option Item} → lookup k s.outcomes ≡ some r → lookup k s'.outcomes ≡ some r
  -- A new object answers the request that the future stands for.
  pub answers :
      (k : ℕ) {item : Item}
      → lookup k s'.outcomes ≡ some (some item)
      → (lookup k s.outcomes ≡ some (some item))
        ⊎ ((lookup (inv_of item) s.futures ≡ some k) × P item)
  -- Futures leave the table, and none comes in.
  pub entries : (i : InvItem) {k : ℕ} → lookup i s'.futures ≡ some k → lookup i s.futures ≡ some k

module _ (P : Item → Type 0) where
  pub unchanged : (s : FetcherState) → Evolves P s s
  unchanged s = record { kept = λ k e. e; answers = λ k e. inl e; entries = λ i e. e }

  pub then_Evolves : {a b c : FetcherState} → Evolves P a b → Evolves P b c → Evolves P a c
  then_Evolves x y = record {
    kept = λ k e. y.kept k (x.kept k e);
    answers = λ k e. elim (y.answers k e) [
      | inl old ↦ x.answers k old
      | inr (h, p) ↦ inr (x.entries _ h, p)
    ];
    entries = λ i e. x.entries i (y.entries i e);
  }

  del_future_lem :
      (i : InvItem) (s : FetcherState) {s' : FetcherState}
      → del_future i s ≡ ok s'
      → (s'.futures ≡ remove i s.futures) × (s'.outcomes ≡ s.outcomes)
  unfolding del_future
  del_future_lem i s e = ground arith

  set_result_lem :
      (k : ℕ) (r : Option Item) (s : FetcherState) {s' : FetcherState}
      → set_result k r s ≡ ok s'
      → (s'.futures ≡ s.futures) × (lookup k s.outcomes ≡ none) × (s'.outcomes ≡ put k r s.outcomes)
  unfolding set_result
  set_result_lem k r s e = ground arith

  put_kept :
      (k j : ℕ) (r : Option Item) (o : Dict ℕ (Option Item)) {q : Option Item}
      → lookup k o ≡ none
      → lookup j o ≡ some q
      → lookup j (put k r o) ≡ some q
  put_kept k j r o h e = grind (arith, lookup-put k j r o, ==_iff k j)

  put_new :
      (k j : ℕ) (r : Option Item) (o : Dict ℕ (Option Item)) {q : Option Item}
      → lookup j (put k r o) ≡ some q
      → (lookup j o ≡ some q) ⊎ ((k ≡ j) × (r ≡ q))
  put_new k j r o e = elim (Bool-cases (k == j)) [
    | inl same ↦ inr ((==_iff k j).0 same, grind (arith, lookup-put k j r o))
    | inr other ↦ inl (grind (arith, lookup-put k j r o))
  ]

  entry_kept :
      (i j : InvItem) (d : Dict InvItem ℕ) {k : ℕ}
      → lookup j (remove i d) ≡ some k
      → lookup j d ≡ some k
  entry_kept i j d e = elim (Bool-cases (inv_item_eq i j)) [
    | inl same ↦ absurd (grind (arith, lookup-remove i j d))
    | inr other ↦ grind (arith, lookup-remove i j d)
  ]

  -- The future of a request is taken out of the table and given its result.
  answered :
      (i : InvItem) (k : ℕ) (r : Option Item) (s : FetcherState) {s1 s' : FetcherState}
      → lookup i s.futures ≡ some k
      → ((item : Item) → r ≡ some item → (inv_of item ≡ i) × P item)
      → del_future i s ≡ ok s1
      → set_result k r s1 ≡ ok s'
      → Evolves P s s'
  answered i k r s {s1} {s'} h p d e =
      let (f1, o1) = del_future_lem i s d in
      let (f2, pending, o2) = set_result_lem k r s1 e in
      let o : s'.outcomes ≡ put k r s.outcomes = o2 ∙ ap (put k r) o1 in
      let waiting : lookup k s.outcomes ≡ none = sym (ap (lookup k) o1) ∙ pending in
      record {
        kept = λ j q. ap (lookup j) o ∙ put_kept k j r s.outcomes waiting q;
        answers = λ j {item} q. elim (put_new k j r s.outcomes (sym (ap (lookup j) o) ∙ q)) [
          | inl old ↦ inl old
          | inr (same, new) ↦
              let (name, source) = p item new in
              inr (ap (λ t. lookup t s.futures) name ∙ h ∙ ap some same, source)
        ];
        entries = λ j q. entry_kept i j s.futures (sym (ap (lookup j) (f2 ∙ f1)) ∙ q);
      }

  deleted :
      (i : InvItem) (s : FetcherState) {s1 : FetcherState} → del_future i s ≡ ok s1 → Evolves P s s1
  deleted i s {s1} d =
      let (f1, o1) = del_future_lem i s d in
      record {
        kept = λ j q. ap (lookup j) o1 ∙ q;
        answers = λ j q. inl (sym (ap (lookup j) o1) ∙ q);
        entries = λ j q. entry_kept i j s.futures (sym (ap (lookup j) f1) ∙ q);
      }

  set_if_pending_lem :
      (k : ℕ) (item : Item) (s : FetcherState) {s' : FetcherState}
      → set_if_pending k item s ≡ ok s'
      → (set_result k (some item) s ≡ ok s') ⊎ (s' ≡ s)
  unfolding set_if_pending
  set_if_pending_lem k item s e = elim (Option-cases (lookup k s.outcomes)) [
    | inl pending ↦ inl (grind arith)
    | inr (r, done) ↦ inr (grind arith)
  ]

  not_found-Evolves :
      (i : InvItem) (s : FetcherState) {s' : FetcherState} → not_found i s ≡ ok s' → Evolves P s s'
  unfolding not_found
  not_found-Evolves i s {s'} e = elim (Option-cases (lookup i s.futures)) [
    | inl unknown ↦ subst (Evolves P s) (grind arith) (unchanged s)
    | inr (k, known) ↦
        let found : (del_future i s >>= set_result k none) ≡ ok s' = grind arith in
        let (s1, d, rest) = >>=-eq-ok (del_future i s) (set_result k none) found in
        answered i k none s known (λ x q. absurd (grind arith)) d rest
  ]

  pub resolve-Evolves :
      (i : InvItem) (future : Option ℕ) (item : Item) (s : FetcherState) {s' : FetcherState}
      → lookup i s.futures ≡ future
      → inv_of item ≡ i
      → P item
      → resolve i future item s ≡ ok s'
      → Evolves P s s'
  unfolding resolve
  resolve-Evolves i none item s h n p e = subst (Evolves P s) (ok_inj e) (unchanged s)
    where
      ok_inj : {a b : FetcherState} → ok a ≡ ok b → a ≡ b
      ok_inj e = cc
  resolve-Evolves i (some k) item s {s'} h n p e =
      let (s1, d, rest) = >>=-eq-ok (del_future i s) _ e in
      elim (set_if_pending_lem k item s1 rest) [
        | inl set ↦
            answered i k (some item) s h
              (λ x q.
                let same : item ≡ x = some_inj q in (ap inv_of (sym same) ∙ n, subst P same p))
              d set
        | inr same ↦ subst (Evolves P s) (sym same) (deleted i s d)
      ]
    where
      some_inj : {a b : Item} → some a ≡ some b → a ≡ b
      some_inj e = cc

  pub on_notfound-Evolves :
      (items : List InvItem) (s : FetcherState) {s' : FetcherState}
      → on_notfound items s ≡ ok s'
      → Evolves P s s'
  unfolding on_notfound
  on_notfound-Evolves [] s e = subst (Evolves P s) (ok_inj e) (unchanged s)
    where
      ok_inj : {a b : FetcherState} → ok a ≡ ok b → a ≡ b
      ok_inj e = cc
  on_notfound-Evolves (i ∷ items) s e =
      let (s1, first, rest) = >>=-eq-ok (not_found i s) _ e in
      then_Evolves (not_found-Evolves i s first) (on_notfound-Evolves items s1 rest)
