-- ===== src/Handlers/Watch.antt =====
-- The tasks of the handlers that watch a queue of new items.
use pycoinnet.Prelude.{
  ℕ, zero, suc, ◌≡◌, refl, sym, ap, ◌∙◌, ◌==◌, Bool-cases, inl, inr, Option, Option-cases, none,
  some, List, [], ◌∷◌, ◌++◌, filter, get_elem?, bytes_key, nat_eq, attribute_error, ok, err,
  key_error,
}
use pycoinnet.Dict.{lookup}
use pycoinnet.Inv.{InvItem}
use pycoinnet.Collector.{InvCollector, put_all, on_end}
use pycoinnet.Handlers.{watch_items}

-- A task that has met None has raised, whatever comes behind.
watch_items-none :
    (item_type : ℕ) (q more : List (Option InvItem))
    → watch_items item_type ((q ++ none ∷ []) ++ more)
      ≡ ((watch_items item_type q).0, some attribute_error)
unfolding watch_items
watch_items-none item_type [] more = refl
watch_items-none item_type (none ∷ q) more = refl
watch_items-none item_type (some inv_item ∷ q) more =
    elim (Bool-cases (inv_item.item_type == item_type)) [
      | inl e ↦ rw (watch_items, e, watch_items-none item_type q more) refl
      | inr e ↦ rw (watch_items, e, watch_items-none item_type q more) refl
    ]

-- The items of a type that come before the first None.
pub announced : ℕ → List (Option InvItem) → List InvItem
announced item_type [] = []
announced item_type (none ∷ q) = []
announced item_type (some inv_item ∷ q) =
    filter (λ i. i.item_type == item_type) (inv_item ∷ []) ++ announced item_type q

watch_items-announced :
    (item_type : ℕ) (q : List (Option InvItem))
    → (watch_items item_type q).0 ≡ announced item_type q
unfolding watch_items announced
watch_items-announced item_type [] = refl
watch_items-announced item_type (none ∷ q) = refl
watch_items-announced item_type (some inv_item ∷ q) =
    elim (Bool-cases (inv_item.item_type == item_type)) [
      | inl e ↦ rw (watch_items, e, watch_items-announced item_type q) refl
      | inr e ↦ rw (watch_items, e, watch_items-announced item_type q) refl
    ]

put_all-elem :
    (qs : List (List (Option InvItem))) (i : ℕ) {q : List (Option InvItem)}
    → get_elem? (put_all none qs) i ≡ some q
    → (before : List (Option InvItem)) × (get_elem? qs i ≡ some before) × (before ++ none ∷ [] ≡ q)
put_all-elem [] i e = absurd (cc e)
put_all-elem (x ∷ qs) zero e = (x, refl, some_inj e)
  where
    some_inj : {a b : List (Option InvItem)} → some a ≡ some b → a ≡ b
    some_inj h = cc
put_all-elem (x ∷ qs) (suc i) e = put_all-elem qs i e

on_end-queues :
    (peer : ℕ) (c c1 : InvCollector)
    → on_end peer c ≡ ok c1
    → c1.inv_item_queues ≡ put_all none c.inv_item_queues
unfolding on_end
on_end-queues peer c c1 e = elim (Option-cases (lookup peer c.fetchers_by_peer)) [
  | inl n ↦ absurd (raised (rw (on_end, n) at e))
  | inr (u, n) ↦ ap (λ k. k.inv_item_queues) (sym (ok_inj (rw (on_end, n) at e)))
]
  where
    raised : err key_error ≡ ok c1 → ⊥
    raised h = cc

    ok_inj : {a b : InvCollector} → ok a ≡ ok b → a ≡ b
    ok_inj h = cc

-- When a peer is gone, the task behind each queue of new items fetches those of its type that were put
-- into the queue before, and raises AttributeError: nothing that is announced later, by any peer, is
-- fetched.
pub watch_items-on_end :
    (peer item_type i : ℕ) (c c1 : InvCollector) (q : List (Option InvItem))
    → on_end peer c ≡ ok c1
    → get_elem? c1.inv_item_queues i ≡ some q
    → (before : List (Option InvItem)) × (get_elem? c.inv_item_queues i ≡ some before)
      × ((later : List (Option InvItem))
          → watch_items item_type (q ++ later) ≡ (announced item_type before, some attribute_error))
watch_items-on_end peer item_type i c c1 q e at_i =
    let (before, e1, e2) =
      put_all-elem c.inv_item_queues i
        (ap (λ qs. get_elem? qs i) (sym (on_end-queues peer c c1 e)) ∙ at_i) in
    (
      before,
      e1,
      λ later.
          ap (λ s. watch_items item_type (s ++ later)) (sym e2)
          ∙ watch_items-none item_type before later
          ∙ ap (λ l. (l, some attribute_error)) (watch_items-announced item_type before),
    )
