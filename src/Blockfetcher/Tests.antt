-- ===== src/Blockfetcher/Tests.antt =====
-- A queue of three blocks and a peer that has two of them.
use pycoinnet.Prelude.{
  bytes_eq, ℕ, ◌≤◌, ◌≡◌, ◌==◌, refl, arith, true, false, List, [], ◌∷◌, ◌++◌, length, In, inl, inr,
}
use pycoinnet.Inv.{item_of}
use pycoinnet.Blockfetcher.{
  Item, new_loop, Seen, get_block_future, pick, asked_for, fetch_round, grown, is_in, is_barred,
}
use pycoinnet.Blockfetcher.Counts.{at_start, asked_for-InBounds, InBounds}
use pycoinnet.Blockfetcher.Conserved.{bag_of, finished, fetch_round-bag_of}
use pycoinnet.Blockfetcher.Asked.{asked_for-pick}
use pycoinnet.Blockfetcher.Order.{IsOrdered}
use pycoinnet.Blockfetcher.OpenCount.{open_count}
use pycoinnet.Blockfetcher.Ties.{HasNoTies}
use pycoinnet.Blockfetcher.Progress.{fetch_rounds, fetch_rounds_exhaust}

abbrev block : ℕ → Item
block n = record { block_index = n; inv_item = item_of 2 (n ∷ []); future = n }

abbrev queue : List Item
queue = block 1 ∷ block 2 ∷ block 9 ∷ []

-- The first block is not given, and then the second one is.
abbrev silent : Seen
silent = record {
  done_at_start = λ f. false;
  done_at_end = λ f. false;
  is_pending = true;
  is_fast = false;
}

abbrev quick : Seen
quick = record {
  done_at_start = λ f. false;
  done_at_end = λ f. f == 2;
  is_pending = false;
  is_fast = true;
}

queued : get_block_future (2 ∷ []) 2 2 (block 1 ∷ block 9 ∷ []) ≡ queue
unfolding get_block_future
queued = refl

counts : (grown 1 ≡ 2) × (grown 3 ≡ 4) × (grown 8 ≡ 12) × (grown 1000 ≡ 1400)
unfolding grown
counts = (refl, refl, refl, refl)

two_rounds : (fetch_rounds 5 (silent ∷ quick ∷ []) (queue, new_loop)).0 ≡ block 1 ∷ block 9 ∷ []
unfolding fetch_rounds fetch_round is_in bytes_eq
two_rounds = refl

asked-block : In (block 1) (asked_for silent (pick 5 new_loop queue [] []).items_to_try)
unfolding asked_for pick is_in
asked-block = inl refl

asked_for-pick_example : (1 ≤ 5) × (is_in (block 1) [] ≡ false) × (false ≡ false)
asked_for-pick_example = asked_for-pick 5 new_loop silent queue (block 1) (omega arith) asked-block

asked_for-InBounds_example :
    (1 ≤ 1)
    × (1 ≤ 1000)
    × (length (asked_for silent (pick 5 new_loop queue [] []).items_to_try) ≤ 1)
asked_for-InBounds_example = asked_for-InBounds 5 new_loop silent queue at_start

no_ties : HasNoTies queue
no_ties n = ground arith

fetch_round-bag_of_example :
    (bag_of queue
      ≡ bag_of (
          (fetch_round 5 quick (queue, new_loop)).0
          ++ finished quick (pick 5 new_loop queue [] []).items_to_try))
    × HasNoTies (fetch_round 5 quick (queue, new_loop)).0
fetch_round-bag_of_example =
    fetch_round-bag_of 5 new_loop quick queue no_ties (omega arith) (λ f e. absurd (cc e))

one-InBounds : InBounds 1
unfolding InBounds
one-InBounds = (omega arith, omega arith)

in_order : IsOrdered queue
unfolding IsOrdered
in_order = ((omega arith, (omega arith, tt)), ((omega arith, tt), (tt, tt)))

few : open_count 5 [] queue ≤ 2
unfolding open_count is_in
few = omega arith

nine_left : In (block 9) (fetch_rounds 5 (silent ∷ quick ∷ []) (queue, new_loop)).0
unfolding fetch_rounds fetch_round is_in bytes_eq
nine_left = inr (inl refl)

fetch_rounds_exhaust_example :
    (is_barred 5 ((fetch_rounds 5 (silent ∷ quick ∷ []) (queue, new_loop)).1).missing (block 9)
      ≡ true)
    × HasNoTies (fetch_rounds 5 (silent ∷ quick ∷ []) (queue, new_loop)).0
fetch_rounds_exhaust_example =
    fetch_rounds_exhaust 5 (silent ∷ quick ∷ []) queue new_loop one-InBounds in_order no_ties few
      (block 9) nine_left
