-- ===== src/Blockfetcher/Picks.antt =====
-- The inner loop that collects items: what every step of it keeps holds of its result.
use pycoinnet.Prelude.{
  ℕ, ◌<◌, leb, ltb, ◌||◌, ◌≡◌, refl, sym, arith, Bool, true, false, Bool-cases, inl, inr, List, [],
  ◌∷◌, ◌++◌, length,
}
use mathlib.Core.Path.{subst}
use pycoinnet.Blockfetcher.{Item, Loop, Picked, is_barred, pick}

module _ (last_block_index : ℕ) (l : Loop) where
  -- What the loop collects when it stops after an item.
  abbrev pub stops : List Item → Item → Bool
  stops to_try item = leb l.per_loop (length to_try) || ltb last_block_index item.block_index

  abbrev pub picked : List Item → List Item → List Item → Picked
  picked to_try to_not_try queue = record {
    items_to_try = to_try;
    items_to_not_try = to_not_try;
    queue = queue;
  }

  module _ (item : Item) (queue to_try to_not_try : List Item) where
    pub pick_barred_last :
        is_barred last_block_index l.missing item ≡ true
        → stops to_try item ≡ true
        → pick last_block_index l (item ∷ queue) to_try to_not_try
          ≡ picked to_try (to_not_try ++ item ∷ []) queue
    unfolding pick
    pick_barred_last e s = rw (pick, e, s) refl

    pub pick_barred :
        is_barred last_block_index l.missing item ≡ true
        → stops to_try item ≡ false
        → pick last_block_index l (item ∷ queue) to_try to_not_try
          ≡ pick last_block_index l queue to_try (to_not_try ++ item ∷ [])
    unfolding pick
    pick_barred e s = rw (pick, e, s) refl

    pub pick_open_last :
        is_barred last_block_index l.missing item ≡ false
        → stops (to_try ++ item ∷ []) item ≡ true
        → pick last_block_index l (item ∷ queue) to_try to_not_try
          ≡ picked (to_try ++ item ∷ []) to_not_try queue
    unfolding pick
    pick_open_last e s = rw (pick, e, s) refl

    pub pick_open :
        is_barred last_block_index l.missing item ≡ false
        → stops (to_try ++ item ∷ []) item ≡ false
        → pick last_block_index l (item ∷ queue) to_try to_not_try
          ≡ pick last_block_index l queue (to_try ++ item ∷ []) to_not_try
    unfolding pick
    pick_open e s = rw (pick, e, s) refl

  abbrev pub Holds : (List Item → List Item → List Item → Type 0) → Picked → Type 0
  Holds P p = P p.items_to_try p.items_to_not_try p.queue

  module _ (P : List Item → List Item → List Item → Type 0)
      (bar : (item : Item) (queue to_try to_not_try : List Item)
        → is_barred last_block_index l.missing item ≡ true
        → P to_try to_not_try (item ∷ queue)
        → P to_try (to_not_try ++ item ∷ []) queue)
      (take_one : (item : Item) (queue to_try to_not_try : List Item)
        → is_barred last_block_index l.missing item ≡ false
        → length to_try < l.per_loop
        → P to_try to_not_try (item ∷ queue)
        → P (to_try ++ item ∷ []) to_not_try queue) where
    room :
        (to_try : List Item) (item : Item) → stops to_try item ≡ false → length to_try < l.per_loop
    room to_try item s = ground arith

    pub pick-keeps :
        (queue to_try to_not_try : List Item)
        → length to_try < l.per_loop
        → P to_try to_not_try queue
        → Holds P (pick last_block_index l queue to_try to_not_try)
    unfolding pick
    pick-keeps [] t n h p = p
    pick-keeps (item ∷ queue) t n h p =
        elim (Bool-cases (is_barred last_block_index l.missing item)) [
          | inl e ↦ elim (Bool-cases (stops t item)) [
            | inl s ↦
                subst (Holds P) (sym (pick_barred_last item queue t n e s)) (bar item queue t n e p)
            | inr s ↦
                subst (Holds P) (sym (pick_barred item queue t n e s))
                  (pick-keeps queue t (n ++ item ∷ []) h (bar item queue t n e p))
          ]
          | inr e ↦ elim (Bool-cases (stops (t ++ item ∷ []) item)) [
            | inl s ↦
                subst (Holds P) (sym (pick_open_last item queue t n e s))
                  (take_one item queue t n e h p)
            | inr s ↦ subst (Holds P) (sym (pick_open item queue t n e s)) (
                pick-keeps queue (t ++ item ∷ []) n (room (t ++ item ∷ []) item s)
                  (take_one item queue t n e h p))
          ]
        ]
