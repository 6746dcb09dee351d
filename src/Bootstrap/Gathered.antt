-- ===== src/Bootstrap/Gathered.antt =====
-- What the tasks of dnsbootstrap have gathered when nothing is left to do, and which of them still wait.
use pycoinnet.Bootstrap.Crew.{crew-run_events}
use pycoinnet.Prelude.{
  ℕ, zero, suc, ◌+◌, append_assoc, ◌≡◌, refl, sym, ap, ◌∙◌, arith, Option, none, some, List, [],
  ◌∷◌, ◌++◌, map, length, replicate, ℤ,
}
use pycoinnet.Bootstrap.{
  HostPort, bootstrap_superpeer_addresses, distinct_pairs, Crowd, Event, put, get, finish,
  new_crowd, on_put, on_get, taken_out, tuples_of, on_finish, on_event, run_events,
}

-- What some tuples weigh together. Lists that weigh the same by every weight are the same up to order.
abbrev pub weight : {A : Type 0} → (A → ℕ) → List A → ℕ
weight f [] = 0
weight f (x ∷ xs) = f x + weight f xs

weight-append :
    {A : Type 0} (f : A → ℕ) (xs ys : List A) → weight f (xs ++ ys) ≡ weight f xs + weight f ys
weight-append f [] ys = omega arith
weight-append f (x ∷ xs) ys = omega (arith, weight-append f xs ys)

-- The superpeers that the names resolve to, each name's once.
pub superpeers : List (Option (List HostPort)) → List HostPort
unfolding distinct_pairs
superpeers [] = []
superpeers (none ∷ hs) = superpeers hs
superpeers (some r ∷ hs) = distinct_pairs [] r ++ superpeers hs

module _ {Address : Type 0} (talk : HostPort → List (ℕ × Address)) where
  -- What all superpeers answer, one after the other.
  pub answers : List HostPort → List (ℤ × Address)
  answers [] = []
  answers (p ∷ ps) = tuples_of talk p ++ answers ps

  -- A weight of the tuples, and one of None.
  module _ (f : ℤ × Address → ℕ) (z : ℕ) where
    item : Option HostPort → ℕ
    item none = z
    item (some p) = weight f (tuples_of talk p)

    abbrev mass : Crowd Address → ℕ
    mass c =
        weight item c.coming
        + weight item c.queue
        + weight item (map some c.talking)
        + weight item (replicate c.stopped none)
        + weight f c.found

    mass-on_put :
        (coming : List (Option HostPort)) (c : Crowd Address)
        → c.coming ≡ coming
        → mass (on_put coming c) ≡ mass c
    unfolding on_put
    mass-on_put [] c e = refl
    mass-on_put (p ∷ coming) c e =
        omega (arith, weight-append item c.queue (p ∷ []), ap (weight item) e)

    mass-on_get :
        (n : ℕ) (queue : List (Option HostPort)) (c : Crowd Address)
        → c.queue ≡ queue
        → mass (on_get n queue c) ≡ mass c
    unfolding on_get item
    mass-on_get zero queue c e = refl
    mass-on_get (suc n) [] c e = refl
    mass-on_get (suc n) (none ∷ queue) c e = omega (arith, ap (weight item) e)
    mass-on_get (suc n) (some p ∷ queue) c e = omega (arith, ap (weight item) e)

    -- A talk and the others weigh as much as all.
    TakenOut : List HostPort → Option (HostPort × List HostPort) → Type 0
    TakenOut ps none = Unit {0}
    TakenOut ps (some (p, rest)) =
        weight item (map some ps) ≡ item (some p) + weight item (map some rest)

    taken_out-TakenOut : (i : ℕ) (ps : List HostPort) → TakenOut ps (taken_out i ps)
    unfolding taken_out TakenOut
    taken_out-TakenOut i [] = tt
    taken_out-TakenOut zero (p ∷ ps) = refl
    taken_out-TakenOut (suc i) (p ∷ ps) = later (taken_out i ps) refl (taken_out-TakenOut i ps)
      where
        later :
            (t : Option (HostPort × List HostPort))
            → taken_out i ps ≡ t
            → TakenOut ps t
            → TakenOut (p ∷ ps) (taken_out (suc i) (p ∷ ps))
        later none e h = rw (taken_out, e) tt
        later (some (q, rest)) e h = rw (taken_out, e) (omega (arith, h))

    mass-on_finish :
        (t : Option (HostPort × List HostPort)) (c : Crowd Address)
        → TakenOut c.talking t
        → mass (on_finish talk t c) ≡ mass c
    unfolding on_finish TakenOut item
    mass-on_finish none c h = refl
    mass-on_finish (some (p, rest)) c h =
        omega (arith, weight-append f c.found (tuples_of talk p), h)

    mass-run_events : (es : List Event) (c : Crowd Address) → mass (run_events talk es c) ≡ mass c
    unfolding run_events on_event
    mass-run_events [] c = refl
    mass-run_events (put ∷ es) c =
        mass-run_events es (on_event talk put c) ∙ mass-on_put c.coming c refl
    mass-run_events (get ∷ es) c =
        mass-run_events es (on_event talk get c) ∙ mass-on_get c.waiting c.queue c refl
    mass-run_events (finish i ∷ es) c =
        mass-run_events es (on_event talk (finish i) c)
        ∙ mass-on_finish (taken_out i c.talking) c (taken_out-TakenOut i c.talking)

    weight-sources :
        (hs : List (Option (List HostPort)))
        → weight item (bootstrap_superpeer_addresses hs) ≡ weight f (answers (superpeers hs)) + z
    unfolding bootstrap_superpeer_addresses superpeers answers item
    weight-sources [] = omega arith
    weight-sources (none ∷ hs) = weight-sources hs
    weight-sources (some r ∷ hs) = omega (
      arith,
      weight-append item (map some (distinct_pairs [] r)) (bootstrap_superpeer_addresses hs),
      weight-some (distinct_pairs [] r),
      weight-sources hs,
      ap (weight f) (answers-append (distinct_pairs [] r) (superpeers hs)),
      weight-append f (answers (distinct_pairs [] r)) (answers (superpeers hs)),
    )
      where
        weight-some : (ps : List HostPort) → weight item (map some ps) ≡ weight f (answers ps)
        weight-some [] = refl
        weight-some (p ∷ ps) =
            omega (arith, weight-some ps, weight-append f (tuples_of talk p) (answers ps))

        answers-append : (ps qs : List HostPort) → answers (ps ++ qs) ≡ answers ps ++ answers qs
        answers-append [] qs = refl
        answers-append (p ∷ ps) qs =
            ap (λ l. tuples_of talk p ++ l) (answers-append ps qs)
            ∙ sym (append_assoc (tuples_of talk p) (answers ps) (answers qs))

  -- What is found at the end, and what each task that stopped took.
  mass_end :
      (f : ℤ × Address → ℕ) (z : ℕ) (es : List Event) (tasks : ℕ)
      (hs : List (Option (List HostPort)))
      → (run_events talk es (new_crowd tasks hs)).coming ≡ []
      → (run_events talk es (new_crowd tasks hs)).queue ≡ []
      → (run_events talk es (new_crowd tasks hs)).talking ≡ []
      → weight (item f z) (replicate (run_events talk es (new_crowd tasks hs)).stopped none)
          + weight f (run_events talk es (new_crowd tasks hs)).found
        ≡ weight f (answers (superpeers hs)) + z
  mass_end f z es tasks hs c q t = omega (
    arith,
    mass-run_events f z es (new_crowd tasks hs),
    weight-sources f z hs,
    ap (weight (item f z)) c,
    ap (weight (item f z)) q,
    ap (λ l. weight (item f z) (map some l)) t,
  )

  weight-no_nones : (f : ℤ × Address → ℕ) (n : ℕ) → weight (item f 0) (replicate n none) ≡ 0
  unfolding item
  weight-no_nones f zero = refl
  weight-no_nones f (suc n) = omega (arith, weight-no_nones f n)

  weight-nones : (f : ℤ × Address → ℕ) (n : ℕ) → weight (item f 1) (replicate n none) ≡ n
  unfolding item
  weight-nones f zero = refl
  weight-nones f (suc n) = omega (arith, weight-nones f n)

  no_weight : (xs : List (ℤ × Address)) → weight (λ x. 0) xs ≡ 0
  no_weight [] = refl
  no_weight (x ∷ xs) = omega (arith, no_weight xs)

  -- In whatever order the tasks run: when all that the names resolve to has been put into the queue and
  -- taken out of it, and no task talks to a superpeer, the tuples found are those that all superpeers
  -- answered, up to order (by every weight they weigh the same), one task has stopped, and all others
  -- wait for the queue.
  pub run_events_lem :
      (es : List Event) (tasks : ℕ) (hs : List (Option (List HostPort)))
      → (run_events talk es (new_crowd tasks hs)).coming ≡ []
      → (run_events talk es (new_crowd tasks hs)).queue ≡ []
      → (run_events talk es (new_crowd tasks hs)).talking ≡ []
      → ((f : ℤ × Address → ℕ)
          → weight f (run_events talk es (new_crowd tasks hs)).found
            ≡ weight f (answers (superpeers hs)))
        × ((run_events talk es (new_crowd tasks hs)).stopped ≡ 1)
        × ((run_events talk es (new_crowd tasks hs)).waiting + 1 ≡ tasks)
  run_events_lem es tasks hs c q t = (
    gathered,
    stopped_one,
    omega (arith, crew-run_events talk es (new_crowd tasks hs), ap length t, stopped_one),
  )
    where
      gathered :
          (f : ℤ × Address → ℕ)
          → weight f (run_events talk es (new_crowd tasks hs)).found
            ≡ weight f (answers (superpeers hs))
      gathered f = omega (
        arith,
        mass_end f 0 es tasks hs c q t,
        weight-no_nones f (run_events talk es (new_crowd tasks hs)).stopped,
      )

      stopped_one : (run_events talk es (new_crowd tasks hs)).stopped ≡ 1
      stopped_one = omega (
        arith,
        mass_end (λ x. 0) 1 es tasks hs c q t,
        weight-nones (λ x. 0) (run_events talk es (new_crowd tasks hs)).stopped,
        no_weight (run_events talk es (new_crowd tasks hs)).found,
        no_weight (answers (superpeers hs)),
      )
