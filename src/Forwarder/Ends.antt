-- ===== src/Forwarder/Ends.antt =====
-- The loop of `_run_ff` in pycoinnet/peergroup/fast_forwarder.py over the missing parents.
use pycoinnet.Prelude.{
  ℕ, zero, suc, ◌<◌, ◌≡◌, refl, ap, ◌∙◌, ◌⊎◌, inl, inr, arith, Option, none, some, List, [], ◌∷◌,
  length, Bytes, ok, err, out_of_fuel,
}
use pycoinnet.Forwarder.Replies.{
  Idle, here, IsSilent, Gained, nothing, raised, brought, idled, idle_append, later-Gained,
  fetch_each-Comes,
}
use pycoinnet.Forwarder.{Chain, Fetched, fetch_each, fetch_missing, catch_up}

module _ {Block Op State : Type 0} (blockchain : Chain Block Op State) where
  module _ (replies : List (Option Block)) (s : State) where
    round_raised :
        (f : ℕ)
        → (fetch_missing blockchain replies s).ops ≡ none
        → catch_up blockchain (suc f) [] replies s
          ≡ ok ([], (fetch_missing blockchain replies s).chain)
    unfolding catch_up
    round_raised f e = rw (catch_up, e) refl

    round_next :
        (f : ℕ) {ops : List Op}
        → (fetch_missing blockchain replies s).ops ≡ some ops
        → catch_up blockchain (suc f) [] replies s
          ≡ catch_up blockchain f ops
              (fetch_missing blockchain replies s).replies
              (fetch_missing blockchain replies s).chain
    unfolding catch_up
    round_next f e = rw (catch_up, e) refl

    brought_stop :
        (f : ℕ) (op : Op) (more : List Op)
        → catch_up blockchain f (op ∷ more) replies s ≡ ok (op ∷ more, s)
    unfolding catch_up
    brought_stop zero op more = refl
    brought_stop (suc f) op more = refl

    nothing_missing :
        blockchain.missing_parents s ≡ []
        → fetch_missing blockchain replies s
          ≡ record { asked = []; ops = some []; chain = s; replies = replies }
    unfolding fetch_missing fetch_each
    nothing_missing e = rw (fetch_missing, e) refl

    -- Without missing parents a round changes nothing.
    round_spins :
        (f : ℕ)
        → blockchain.missing_parents s ≡ []
        → catch_up blockchain f [] replies s ≡ err out_of_fuel
    unfolding catch_up
    round_spins zero e = refl
    round_spins (suc f) e =
        ap
          (λ r. elim r.ops [
            | none ↦ ok ([], r.chain)
            | some ops ↦ catch_up blockchain f ops r.replies r.chain
          ])
          (nothing_missing e)
        ∙ round_spins f e

  abbrev Ends : List (Option Block) → State → Type 0
  Ends replies s =
      (r : List Op × State) × Gained blockchain replies s r
      × ((f : ℕ) → length replies < f → catch_up blockchain f [] replies s ≡ ok r)

  -- Blocks that bring nothing lead to a chain that misses no parent, and then the loop goes on for ever.
  abbrev Spins : List (Option Block) → State → Type 0
  Spins replies s =
      (rs : List (Option Block)) × (s1 : State) × Idle blockchain replies s rs s1
      × (blockchain.missing_parents s1 ≡ [])
      × ((f : ℕ) → catch_up blockchain f [] replies s ≡ err out_of_fuel)

  -- A round that gives `r` before the loop ends, or goes on, in the rest of its rounds.
  module _ (replies : List (Option Block)) (s : State) where
    abbrev next : Fetched Block Op State
    next = fetch_missing blockchain replies s

    raised-Ends :
        (rs : List (Option Block))
        → next.ops ≡ none
        → Idle blockchain replies s rs next.chain
        → IsSilent rs
        → Ends replies s
    raised-Ends rs e i q = (([], next.chain), nothing rs next.chain i q, each)
      where
        each :
            (f : ℕ) → length replies < f → catch_up blockchain f [] replies s ≡ ok ([], next.chain)
        each zero h = absurd (omega arith)
        each (suc f) h = round_raised replies s f e

    brought-Ends :
        (op : Op) (more : List Op)
        → next.ops ≡ some (op ∷ more)
        → Gained blockchain replies s (op ∷ more, next.chain)
        → Ends replies s
    brought-Ends op more e g = ((op ∷ more, next.chain), g, each)
      where
        each :
            (f : ℕ)
            → length replies < f
            → catch_up blockchain f [] replies s ≡ ok (op ∷ more, next.chain)
        each zero h = absurd (omega arith)
        each (suc f) h = round_next replies s f e ∙ brought_stop next.replies next.chain f op more

    later-Ends :
        next.ops ≡ some []
        → Idle blockchain replies s next.replies next.chain
        → length next.replies < length replies
        → Ends next.replies next.chain
        → Ends replies s
    later-Ends e i shorter (r, g, later) = (r, later-Gained blockchain i g, each)
      where
        each : (f : ℕ) → length replies < f → catch_up blockchain f [] replies s ≡ ok r
        each zero h = absurd (omega arith)
        each (suc f) h = round_next replies s f e ∙ later f (omega arith)

    later-Spins :
        next.ops ≡ some []
        → Idle blockchain replies s next.replies next.chain
        → Spins next.replies next.chain
        → Spins replies s
    unfolding catch_up
    later-Spins e i (rs, s1, j, m, later) = (rs, s1, idle_append blockchain i j, m, each)
      where
        each : (f : ℕ) → catch_up blockchain f [] replies s ≡ err out_of_fuel
        each zero = refl
        each (suc f) = round_next replies s f e ∙ later f

  catch_up-Ends :
      (n : ℕ) (replies : List (Option Block)) (s : State)
      → length replies < n
      → Ends replies s ⊎ Spins replies s
  unfolding fetch_missing
  catch_up-Ends zero replies s h = absurd (omega arith)
  catch_up-Ends (suc n) replies s h =
      by_parents (blockchain.missing_parents s) refl (catch_up-Ends n)
    where
      by_parents :
          (hs : List Bytes)
          → blockchain.missing_parents s ≡ hs
          → ((replies1 : List (Option Block)) (s1 : State)
              → length replies1 < n
              → Ends replies1 s1 ⊎ Spins replies1 s1)
          → Ends replies s ⊎ Spins replies s
      by_parents [] e more = inr (replies, s, here replies s, e, λ f. round_spins replies s f e)
      by_parents (p ∷ hs) e more =
          elim (fetch_each-Comes blockchain (blockchain.missing_parents s) replies s) [
            | raised rs r i q ↦ inl (raised-Ends replies s rs r i q)
            | brought op ops r g ↦ inl (brought-Ends replies s op ops r g)
            | idled r i l ↦
                (let shorter : length (next replies s).replies < length replies =
                    omega (arith, l, ap length e) in
                  elim (more (next replies s).replies (next replies s).chain
                    (omega (arith, shorter))) [
                      | inl x ↦ inl (later-Ends replies s r i shorter x)
                      | inr x ↦ inr (later-Spins replies s r i x)
                    ])
          ]

  -- The loop over the missing parents ends, with a round for each reply of the peer and one more, or
  -- the blocks that it added brought no operations and led to a chain that misses no parent: then no
  -- number of rounds is enough.
  pub catch_up_ends :
      (replies : List (Option Block)) (s : State)
      → ((r : List Op × State) × Gained blockchain replies s r
          × ((f : ℕ) → length replies < f → catch_up blockchain f [] replies s ≡ ok r))
        ⊎ ((rs : List (Option Block)) × (s1 : State) × Idle blockchain replies s rs s1
            × (blockchain.missing_parents s1 ≡ [])
            × ((f : ℕ) → catch_up blockchain f [] replies s ≡ err out_of_fuel))
  catch_up_ends replies s = catch_up-Ends (suc (length replies)) replies s (omega arith)
