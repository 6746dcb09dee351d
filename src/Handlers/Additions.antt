-- ===== src/Handlers/Additions.antt =====
-- Items added to a store.
use pycoinnet.Prelude.{
  ℕ, ◌≡◌, ◌⊎◌, inl, inr, refl, ◌∙◌, none, some, Option-cases, Bytes, bytes_eq_self, bytes_key,
}
use pycoinnet.Dict.{Dict, lookup, put, lookup-put}
use pycoinnet.Inv.{item_of, item_type_block, item_type_tx}
use pycoinnet.Collector.{InvCollector, advertise_item}
use pycoinnet.Handlers.{add_tx, add_block}

module _ {Object : Type 0} (hash : Object → Bytes) (x : Object) (store : Dict Bytes Object)
    (c : InvCollector) where
  -- What adding an object does: nothing if the store has its hash, and else it is stored and
  -- advertised under that hash; a second addition changes nothing.
  abbrev pub IsAddition :
      ℕ → (Object → Dict Bytes Object × InvCollector → Dict Bytes Object × InvCollector) → Type 0
  IsAddition item_type add =
      (((old : Object) × (lookup (hash x) store ≡ some old) × (add x (store, c) ≡ (store, c)))
        ⊎ ((lookup (hash x) store ≡ none)
            × (lookup (hash x) (add x (store, c)).0 ≡ some x)
            × ((add x (store, c)).1 ≡ advertise_item (item_of item_type (hash x)) c)))
      × (add x (add x (store, c)) ≡ add x (store, c))

  stored : lookup (hash x) (put (hash x) x store) ≡ some x
  stored = lookup-put (hash x) (hash x) x store ∙ rw (bytes_eq_self (hash x)) refl

  addition :
      (item_type : ℕ)
      (add : Object → Dict Bytes Object × InvCollector → Dict Bytes Object × InvCollector)
      → ((st : Dict Bytes Object) (k : InvCollector) (old : Object)
          → lookup (hash x) st ≡ some old
          → add x (st, k) ≡ (st, k))
      → (lookup (hash x) store ≡ none
          → add x (store, c)
            ≡ (put (hash x) x store, advertise_item (item_of item_type (hash x)) c))
      → IsAddition item_type add
  addition item_type add known new = elim (Option-cases (lookup (hash x) store)) [
    | inr (old, e) ↦
        (inl (old, e, known store c old e), rw (known store c old e) (known store c old e))
    | inl e ↦ (
      inr (e, rw (new e) stored, rw (new e) refl),
      rw (new e)
          (known (put (hash x) x store) (advertise_item (item_of item_type (hash x)) c) x stored),
    )
  ]

  -- `add_block` leaves the store and the advertisements alone if the store has the block's hash; else
  -- it stores the block and advertises it; adding the block again does nothing.
  pub add_block_lem : IsAddition item_type_block (add_block hash)
  unfolding add_block
  add_block_lem =
      addition item_type_block (add_block hash) (λ st k old e. rw (add_block, e) refl)
        (λ e. rw (add_block, e) refl)

  -- `add_tx` leaves the store and the advertisements alone if the store has the transaction's hash;
  -- else it stores the transaction and advertises it; adding it again does nothing.
  pub add_tx_lem : IsAddition item_type_tx (add_tx hash)
  unfolding add_tx
  add_tx_lem =
      addition item_type_tx (add_tx hash) (λ st k old e. rw (add_tx, e) refl)
        (λ e. rw (add_tx, e) refl)
