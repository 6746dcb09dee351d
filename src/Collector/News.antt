-- ===== src/Collector/News.antt =====
-- Inv messages: what the queues of new items get, and what is noted about the peer.
use pycoinnet.Prelude.{
  ℕ, ◌≡◌, inl, inr, refl, sym, ◌∙◌, ap, Option, none, some, Option-cases, List, [], ◌∷◌, ◌++◌,
  append-nil, append_assoc, map, Bool, true, false, ◌||◌, Bool-cases, if◌then◌else◌, Bytes,
  bytes_eq, bytes_eq_iff, bytes_eq_self, bytes_key, nat_eq, ok,
}
use pycoinnet.Dict.{Dict, lookup, put, lookup-put}
use pycoinnet.Inv.{InvItem}
use pycoinnet.Collector.{
  InvCollector, put_all, note_new, note_peer, offer_peer, register_inv_item, on_inv,
}

abbrev pub is_known : InvCollector → Bytes → Bool
is_known c h = elim (lookup h c.inv_item_db) [ none ↦ false | some _ ↦ true ]

-- The items that are new, each once, where `known` tells the hashes seen before.
pub news : (Bytes → Bool) → List InvItem → List InvItem
news known [] = []
news known (x ∷ xs) =
    let later = news known xs in
    let rest = news (λ h. bytes_eq x.the_data h || known h) xs in
    if known x.the_data then later else x ∷ rest

record Registered (x : InvItem) (c c' : InvCollector) : Type 0 where
  queues :
      c'.inv_item_queues
      ≡ (if is_known c x.the_data then c.inv_item_queues else put_all (some x) c.inv_item_queues)
  knows : (h : Bytes) → is_known c' h ≡ bytes_eq x.the_data h || is_known c h

offer_db :
    (h : Bytes) (peer : ℕ) (c : InvCollector)
    → ((offer_peer h peer c).inv_item_db ≡ c.inv_item_db)
      × ((offer_peer h peer c).inv_item_queues ≡ c.inv_item_queues)
unfolding offer_peer
offer_db h peer c = elim (Option-cases (lookup h c.inv_item_peers_q)) [
  | inl e ↦ rw (offer_peer, e) (refl, refl)
  | inr (q, e) ↦ rw (offer_peer, e) (refl, refl)
]

note_new_known :
    (x : InvItem) (c : InvCollector) {v : Dict ℕ ℕ}
    → lookup x.the_data c.inv_item_db ≡ some v
    → note_new x c ≡ c
unfolding note_new
note_new_known x c e = rw (note_new, e) refl

note_new_fresh :
    (x : InvItem) (c : InvCollector)
    → lookup x.the_data c.inv_item_db ≡ none
    → note_new x c ≡ record c {
      inv_item_db = put x.the_data [] c.inv_item_db;
      inv_item_queues = put_all (some x) c.inv_item_queues;
    }
unfolding note_new
note_new_fresh x c e = rw (note_new, e) refl

twice : (a b : Bool) → a || (a || b) ≡ a || b
twice true b = refl
twice false b = refl

note_peer_lem :
    (h : Bytes) (peer now : ℕ) (c : InvCollector) {v : Dict ℕ ℕ}
    → lookup h c.inv_item_db ≡ some v
    → note_peer h peer now c ≡ ok (record c { inv_item_db = put h (put peer now v) c.inv_item_db })
unfolding note_peer
note_peer_lem h peer now c e = rw (note_peer, e) refl

known_after :
    (x : InvItem) (db : Dict Bytes (Dict ℕ ℕ)) (v : Dict ℕ ℕ) (h : Bytes)
    → (elim (lookup h (put x.the_data v db)) as (λ _. Bool) [ none ↦ false | some _ ↦ true ])
      ≡ bytes_eq x.the_data h
        || (elim (lookup h db) as (λ _. Bool) [ none ↦ false | some _ ↦ true ])
known_after x db v h = elim (Bool-cases (bytes_eq x.the_data h)) [
  | inl e ↦ rw (lookup-put x.the_data h v db, e) refl
  | inr e ↦ rw (lookup-put x.the_data h v db, e) refl
]

register_lem :
    (x : InvItem) (peer now : ℕ) (c : InvCollector)
    → (c' : InvCollector) × (register_inv_item x peer now c ≡ ok c') × Registered x c c'
unfolding register_inv_item
register_lem x peer now c = elim (Option-cases (lookup x.the_data c.inv_item_db)) [
  | inr (peers, e) ↦
      let c1 : InvCollector = record c {
        inv_item_db = put x.the_data (put peer now peers) c.inv_item_db;
      } in
      let (db, qs) = offer_db x.the_data peer c1 in
      (
        offer_peer x.the_data peer c1,
        rw (note_new_known x c e, note_peer_lem x.the_data peer now c e) refl,
        record {
          queues = qs ∙ rw (is_known, e) refl;
          knows =
              λ h. rw (is_known, db, is_known) (known_after x c.inv_item_db (put peer now peers) h);
        },
      )
  | inl e ↦
      let db0 : Dict Bytes (Dict ℕ ℕ) = put x.the_data [] c.inv_item_db in
      let c0 : InvCollector = record c {
        inv_item_db = db0;
        inv_item_queues = put_all (some x) c.inv_item_queues;
      } in
      let e0 : lookup x.the_data db0 ≡ some [] =
        lookup-put x.the_data x.the_data [] c.inv_item_db ∙ rw (bytes_eq_self x.the_data) refl in
      let c1 : InvCollector = record c0 { inv_item_db = put x.the_data (put peer now []) db0 } in
      let (db, qs) = offer_db x.the_data peer c1 in
      (
        offer_peer x.the_data peer c1,
        rw (note_new_fresh x c e, note_peer_lem x.the_data peer now c0 e0) refl,
        record {
          queues = qs ∙ rw (is_known, e) refl;
          knows = λ h.
              rw (is_known, db, is_known)
                (known_after x db0 (put peer now []) h
                  ∙ ap (λ t. bytes_eq x.the_data h || t) (known_after x c.inv_item_db [] h)
                  ∙ twice (bytes_eq x.the_data h) _);
        },
      )
]

nothing_new :
    (c : InvCollector) (x h : Bytes)
    → is_known c x ≡ true
    → (bytes_eq x h || is_known c h) ≡ is_known c h
nothing_new c x h e = elim (Bool-cases (bytes_eq x h)) [
  | inl same ↦
      let k : is_known c h ≡ true = sym (ap (is_known c) ((bytes_eq_iff x h).0 same)) ∙ e in
      rw same (sym k)
  | inr other ↦ rw other refl
]

queue_nothing : (qs : List (List (Option InvItem))) → qs ≡ map (λ q. q ++ []) qs
queue_nothing [] = refl
queue_nothing (q ∷ qs) =
    ap (λ t. t ∷ qs) (sym (append-nil q)) ∙ ap (λ t. (q ++ []) ∷ t) (queue_nothing qs)

queue_more :
    (x : InvItem) (xs : List InvItem) (qs : List (List (Option InvItem)))
    → map (λ q. q ++ map some xs) (put_all (some x) qs) ≡ map (λ q. q ++ map some (x ∷ xs)) qs
queue_more x xs [] = refl
queue_more x xs (q ∷ qs) =
    ap (λ t. t ∷ map (λ q. q ++ map some xs) (put_all (some x) qs))
      (append_assoc q (some x ∷ []) (map some xs))
    ∙ ap (λ t. (q ++ map some (x ∷ xs)) ∷ t) (queue_more x xs qs)

-- An inv message is noted without an error, and every queue of new items gets those of the message
-- that were not known before, each once and in order.
pub on_inv_lem :
    (items : List InvItem) (peer now : ℕ) (c : InvCollector)
    → (c' : InvCollector) × (on_inv items peer now c ≡ ok c')
      × (c'.inv_item_queues ≡ map (λ q. q ++ map some (news (is_known c) items)) c.inv_item_queues)
unfolding on_inv news
on_inv_lem [] peer now c = (c, refl, queue_nothing c.inv_item_queues)
on_inv_lem (x ∷ items) peer now c =
    let (c1, e1, r) = register_lem x peer now c in
    let (c', e2, q) = on_inv_lem items peer now c1 in
    let same : is_known c1 ≡ (λ h. bytes_eq x.the_data h || is_known c h) = λ i h. r.knows h i in
    (
      c',
      rw e1 e2,
      elim (Bool-cases (is_known c x.the_data)) [
        | inr new ↦
            q
            ∙ rw (new, r.queues, new, same)
                (queue_more x (news (λ h. bytes_eq x.the_data h || is_known c h) items)
                  c.inv_item_queues)
        | inl old ↦
            let again : is_known c1 ≡ is_known c =
              λ i h. (r.knows h ∙ nothing_new c x.the_data h old) i in
            q ∙ rw (old, r.queues, old, again) refl
      ],
    )
