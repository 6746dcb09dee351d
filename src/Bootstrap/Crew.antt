-- ===== src/Bootstrap/Crew.antt =====
-- The tasks that share the queue of pycoinnet/helpers/dnsbootstrap.py: each waits, talks or has stopped.
use pycoinnet.Prelude.{
  ℕ, zero, suc, ◌+◌, ◌≡◌, refl, ap, ◌∙◌, arith, Option, none, some, List, [], ◌∷◌, length,
}
use pycoinnet.Bootstrap.{
  HostPort, Crowd, Event, put, get, finish, on_put, on_get, taken_out, on_finish, on_event,
  run_events,
}

module _ {Address : Type 0} (talk : HostPort → List (ℕ × Address)) where
  -- The tasks do not change in number.
  abbrev pub crew : Crowd Address → ℕ
  crew c = c.waiting + length c.talking + c.stopped

  crew-on_get :
      (n : ℕ) (queue : List (Option HostPort)) (c : Crowd Address)
      → c.waiting ≡ n
      → crew (on_get n queue c) ≡ crew c
  unfolding on_get
  crew-on_get zero queue c e = refl
  crew-on_get (suc n) [] c e = refl
  crew-on_get (suc n) (none ∷ queue) c e = omega (arith, e)
  crew-on_get (suc n) (some p ∷ queue) c e = omega (arith, e)

  OneLess : List HostPort → Option (HostPort × List HostPort) → Type 0
  OneLess ps none = Unit {0}
  OneLess ps (some (p, rest)) = length ps ≡ suc (length rest)

  taken_out-OneLess : (i : ℕ) (ps : List HostPort) → OneLess ps (taken_out i ps)
  unfolding taken_out OneLess
  taken_out-OneLess i [] = tt
  taken_out-OneLess zero (p ∷ ps) = refl
  taken_out-OneLess (suc i) (p ∷ ps) = later (taken_out i ps) refl (taken_out-OneLess i ps)
    where
      later :
          (t : Option (HostPort × List HostPort))
          → taken_out i ps ≡ t
          → OneLess ps t
          → OneLess (p ∷ ps) (taken_out (suc i) (p ∷ ps))
      later none e h = rw (taken_out, e) tt
      later (some (q, rest)) e h = rw (taken_out, e) (ap suc h)

  crew-on_finish :
      (t : Option (HostPort × List HostPort)) (c : Crowd Address)
      → OneLess c.talking t
      → crew (on_finish talk t c) ≡ crew c
  unfolding on_finish OneLess
  crew-on_finish none c h = refl
  crew-on_finish (some (p, rest)) c h = omega (arith, h)

  crew-on_put :
      (coming : List (Option HostPort)) (c : Crowd Address) → crew (on_put coming c) ≡ crew c
  unfolding on_put
  crew-on_put [] c = refl
  crew-on_put (p ∷ coming) c = refl

  pub crew-run_events : (es : List Event) (c : Crowd Address) → crew (run_events talk es c) ≡ crew c
  unfolding run_events on_event
  crew-run_events [] c = refl
  crew-run_events (put ∷ es) c = crew-run_events es (on_event talk put c) ∙ crew-on_put c.coming c
  crew-run_events (get ∷ es) c =
      crew-run_events es (on_event talk get c) ∙ crew-on_get c.waiting c.queue c refl
  crew-run_events (finish i ∷ es) c =
      crew-run_events es (on_event talk (finish i) c)
      ∙ crew-on_finish (taken_out i c.talking) c (taken_out-OneLess i c.talking)
