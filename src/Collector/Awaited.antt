-- ===== src/Collector/Awaited.antt =====
-- An iteration of the loop of `fetch` in pycoinnet/peergroup/InvCollector.py.
use pycoinnet.Prelude.{
  ℕ, ◌≡◌, refl, sym, ap, ◌∙◌, inl, inr, true, false, Bool-cases, Option, Option-cases, none, some,
  List, [], ◌∷◌, nat_eq, In,
}
use pycoinnet.Dict.{Dict, lookup}
use pycoinnet.Collector.Waiting.{
  Given, requested, answered, Waiting, Turn, going, returned, unbound_timer, ask_next, task_of,
  is_true, first_true, on_recent, on_others, recent_result, on_done, fetch_turn,
}

false-true : false ≡ true → ⊥
false-true e = cc

-- What an iteration comes to, with the tasks that are done.
module _ {Object : Type 0} where
  pub data Outcome (done : Dict ℕ (Given Object)) (asked : Waiting) : Turn Object → Type 0 where
    unbound : asked.timer_future ≡ none → Outcome done asked unbound_timer
    timed_out :
        (timer : ℕ) (r : Given Object) (w : Waiting)
        → asked.timer_future ≡ some timer
        → lookup timer done ≡ some r
        → w.most_recent_fetcher ≡ task_of r
        → Outcome done asked (going w)
    not_found :
        (timer fetcher : ℕ) (w : Waiting)
        → asked.timer_future ≡ some timer
        → asked.most_recent_fetcher ≡ some fetcher
        → lookup fetcher done ≡ some (answered none)
        → w.most_recent_fetcher ≡ none
        → Outcome done asked (going w)
    nothing_given :
        (timer : ℕ) (w : Waiting)
        → asked.timer_future ≡ some timer
        → w.most_recent_fetcher ≡ asked.most_recent_fetcher
        → ((t : ℕ) (r : Given Object) → In (t, r) done → is_true r ≡ false)
        → Outcome done asked (going w)
    found :
        (timer t : ℕ) (r : Given Object)
        → asked.timer_future ≡ some timer
        → In (t, r) done
        → is_true r ≡ true
        → Outcome done asked (returned r)

  lookup-In :
      (t : ℕ) (done : Dict ℕ (Given Object)) {r : Given Object}
      → lookup t done ≡ some r
      → In (t, r) done
  unfolding lookup
  lookup-In t [] e = absurd (cc e)
  lookup-In t ((u, s) ∷ done) {r} e = elim (Bool-cases (nat_eq.beq u t)) [
    | inl h ↦ inl (pair_eq ((nat_eq.beq_iff u t).0 h) (some_inj (rw h at e)))
    | inr h ↦ inr (lookup-In t done (rw h at e))
  ]
    where
      some_inj : {x y : Given Object} → some x ≡ some y → x ≡ y
      some_inj p = cc

      pair_eq :
          {x y : ℕ} {a b : Given Object} → x ≡ y → a ≡ b → ◌≡◌ {A = ℕ × Given Object} (y, b) (x, a)
      pair_eq p q = λ i. (sym p i, sym q i)

  FirstTrue : Dict ℕ (Given Object) → Option (Given Object) → Type 0
  FirstTrue done none = (t : ℕ) (r : Given Object) → In (t, r) done → is_true r ≡ false
  FirstTrue done (some r) = (t : ℕ) × In (t, r) done × (is_true r ≡ true)

  first_true-FirstTrue : (done : Dict ℕ (Given Object)) → FirstTrue done (first_true done)
  unfolding first_true FirstTrue
  first_true-FirstTrue [] = λ t r h. absurd h
  first_true-FirstTrue ((u, s) ∷ done) = elim (Bool-cases (is_true s)) [
    | inl h ↦ rw (first_true, h) (u, inl refl, h)
    | inr h ↦ rw (first_true, h) (later h (first_true done) (first_true-FirstTrue done))
  ]
    where
      later :
          is_true s ≡ false
          → (f : Option (Given Object)) → FirstTrue done f
          → FirstTrue ((u, s) ∷ done) f
      later h none more =
          λ t r i. elim i [ inl e ↦ ap (λ p. is_true p.1) e ∙ h | inr j ↦ more t r j ]
      later h (some r) (t, i, e) = (t, inr i, e)

  -- Only None is not true.
  is_true-none : (r : Given Object) → is_true r ≡ false → r ≡ answered none
  unfolding is_true
  is_true-none (requested t) e = absurd (false-true (sym e))
  is_true-none (answered none) e = refl
  is_true-none (answered (some o)) e = absurd (false-true (sym e))

  module _ (done : Dict ℕ (Given Object)) (asked : Waiting) (timer : ℕ)
      (known : asked.timer_future ≡ some timer) where
    recent_fetcher :
        (m : Option ℕ) {r : Given Object}
        → recent_result m done ≡ some r
        → (fetcher : ℕ) × (m ≡ some fetcher) × (lookup fetcher done ≡ some r)
    unfolding recent_result
    recent_fetcher none e = absurd (cc e)
    recent_fetcher (some fetcher) e = (fetcher, refl, e)

    on_others-Outcome :
        (w : Waiting)
        → w.most_recent_fetcher ≡ asked.most_recent_fetcher
        → Outcome done asked (on_others done w)
    unfolding on_others FirstTrue
    on_others-Outcome w same = by_first (first_true done) refl (first_true-FirstTrue done)
      where
        by_first :
            (f : Option (Given Object))
            → first_true done ≡ f
            → FirstTrue done f
            → Outcome done asked (on_others done w)
        by_first none e h = rw (on_others, e) (nothing_given timer w known same h)
        by_first (some r) e (t, i, h) = rw (on_others, e) (found timer t r known i h)

    on_recent-Outcome :
        (r : Given Object) (fresh : ℕ) (pending : List ℕ)
        → recent_result asked.most_recent_fetcher done ≡ some r
        → Outcome done asked (on_recent r timer fresh pending)
    unfolding on_recent
    on_recent-Outcome r fresh pending e =
        let (fetcher, m, l) = recent_fetcher asked.most_recent_fetcher e in
        elim (Bool-cases (is_true r)) [
          | inl h ↦ rw (on_recent, h) (found timer fetcher r known (lookup-In fetcher done l) h)
          | inr h ↦
              rw (on_recent, h)
                (not_found timer fetcher _ known m (l ∙ ap some (is_true-none r h)) refl)
        ]

    on_done-Outcome : (fresh : ℕ) → Outcome done asked (on_done timer done fresh asked)
    unfolding on_done
    on_done-Outcome fresh = elim (Option-cases (lookup timer done)) [
      | inl n ↦ elim (Option-cases (recent_result asked.most_recent_fetcher done)) [
        | inl m ↦ rw (on_done, n, m) (on_others-Outcome _ refl)
        | inr (r, m) ↦ rw (on_done, n, m) (on_recent-Outcome r fresh _ m)
      ]
      | inr (r, n) ↦ rw (on_done, n) (timed_out timer r _ known n refl)
    ]

  -- An iteration of the loop raises UnboundLocalError if there is no timer, and only then. Else it
  -- returns what one of the tasks that are done gave, and not None, or it goes on: if the timer is done,
  -- with the fetcher that it gave as the most recent one; if the most recent fetcher gave None, without
  -- one; and if every task that is done gave None, with the same one.
  pub fetch_turn-Outcome :
      (made : Option (ℕ × ℕ)) (done : Dict ℕ (Given Object)) (fresh : ℕ) (w : Waiting)
      → Outcome done (ask_next made w) (fetch_turn made done fresh w)
  unfolding fetch_turn
  fetch_turn-Outcome made done fresh w = by_timer (ask_next made w).timer_future refl
    where
      by_timer :
          (timer : Option ℕ)
          → (ask_next made w).timer_future ≡ timer
          → Outcome done (ask_next made w) (fetch_turn made done fresh w)
      by_timer none e = rw (fetch_turn, e) (unbound e)
      by_timer (some timer) e =
          rw (fetch_turn, e) (on_done-Outcome done (ask_next made w) timer e fresh)
