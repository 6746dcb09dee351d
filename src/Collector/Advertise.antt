-- ===== src/Collector/Advertise.antt =====
-- Advertisements of pycoinnet/peergroup/InvCollector.py.
use pycoinnet.Prelude.{
  ℕ, ◌==◌, ◌≡◌, inl, inr, refl, sym, ap, ◌∙◌, ◌↔◌, true, false, arith, Option-cases, none, some,
  List, [], ◌∷◌, ◌++◌, map, Bool, Bool-cases, bytes_key, nat_eq, filter,
}
use pycoinnet.Dict.{Dict, lookup}
use pycoinnet.Inv.{InvItem}
use pycoinnet.Collector.{InvCollector, advertise_item, advertise_round, is_news_to}

lookup-map :
    (peer : ℕ) (f : List InvItem → List InvItem) (d : Dict ℕ (List InvItem)) {q : List InvItem}
    → lookup peer d ≡ some q
    → lookup peer (map (λ e. (e.0, f e.1)) d) ≡ some (f q)
unfolding lookup
lookup-map peer f [] h = absurd (ground arith)
lookup-map peer f ((j, v) ∷ d) h = elim (Bool-cases (j == peer)) [
  | inl e ↦ grind arith
  | inr e ↦ grind (arith, lookup-map peer f d)
]

round_lem :
    (peer : ℕ) (c : InvCollector) {q : List InvItem}
    → lookup peer c.advertise_queues ≡ some q
    → (advertise_round peer c).0 ≡ filter (is_news_to peer c) q
unfolding advertise_round
round_lem peer c h = rw (advertise_round, h) refl

-- The peer stands in the table of those that announced the item.
abbrev pub HasAnnounced : ℕ → InvCollector → InvItem → Type 0
HasAnnounced peer c inv_item =
    (peers : Dict ℕ ℕ) × (lookup inv_item.the_data c.inv_item_db ≡ some peers)
    × (time : ℕ) × (lookup peer peers ≡ some time)

-- A test that tells the items that the peer has not announced.
abbrev pub TellsNews : ℕ → InvCollector → (InvItem → Bool) → Type 0
TellsNews peer c p = (x : InvItem) → (p x ≡ true) ↔ ¬ (HasAnnounced peer c x)

is_news_to-TellsNews : (peer : ℕ) (c : InvCollector) → TellsNews peer c (is_news_to peer c)
unfolding is_news_to
is_news_to-TellsNews peer c x = elim (Option-cases (lookup x.the_data c.inv_item_db)) [
  | inl e ↦ (λ t (peers, f, time, k). none_some (sym e ∙ f), λ n. rw (is_news_to, e) refl)
  | inr (peers, e) ↦ elim (Option-cases (lookup peer peers)) [
    | inl g ↦ (
      λ t (ps, f, time, k). none_some (sym g ∙ ap (lookup peer) (same_peers (sym e ∙ f)) ∙ k),
      λ n. rw (is_news_to, e, g) refl,
    )
    | inr (time, g) ↦
        (λ t. absurd (false_true (rw (is_news_to, e, g) at t)), λ n. absurd (n (peers, e, time, g)))
  ]
]
  where
    none_some : {A : Type 0} {a : A} → none ≡ some a → ⊥
    none_some q = cc

    same_peers : {a b : Dict ℕ ℕ} → some a ≡ some b → a ≡ b
    same_peers q = cc

    false_true : false ≡ true → ⊥
    false_true q = cc

-- The next inv message to a peer, after an item is advertised, holds what waited for the peer and
-- then the item, in this order, without the items that the peer has announced itself and with all
-- others.
pub advertise_round-advertise_item :
    (peer : ℕ) (inv_item : InvItem) (c : InvCollector) (q : List InvItem)
    → lookup peer c.advertise_queues ≡ some q
    → (p : InvItem → Bool) × TellsNews peer c p
      × ((advertise_round peer (advertise_item inv_item c)).0 ≡ filter p (q ++ inv_item ∷ []))
unfolding advertise_item is_news_to
advertise_round-advertise_item peer inv_item c q h = (
  is_news_to peer c,
  is_news_to-TellsNews peer c,
  round_lem peer (advertise_item inv_item c)
      (lookup-map peer (λ q. q ++ inv_item ∷ []) c.advertise_queues h),
)
