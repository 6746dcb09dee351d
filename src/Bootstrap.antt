-- ===== src/Bootstrap.antt =====
-- pycoinnet/helpers/dnsbootstrap.py. What the names resolve to is an input, and so is the order in which
-- the tasks run; what a superpeer answers is a parameter, `talk`: the dates and addresses, or nothing if
-- it cannot be reached.
pub mod Gathered
pub mod Crew
mod Tests
use pycoinnet.Prelude.{
  ℕ, zero, suc, ◌==◌, ◌&&◌, ◌||◌, Bool, true, false, if◌then◌else◌, Option, none, some, List, [],
  ◌∷◌, ◌++◌, map, Bytes, bytes_eq, ℤ, pos, negsuc,
}

abbrev pub HostPort : Type 0
HostPort = Bytes × ℕ

unfoldable pub is_seen : HostPort → List HostPort → Bool
is_seen p [] = false
is_seen p (q ∷ qs) = (bytes_eq p.0 q.0 && (p.1 == q.1)) || is_seen p qs

-- `set(t[-1][:2] for t in r)`, in the order of the first occurrences; that of a set is any.
unfoldable pub distinct_pairs : List HostPort → List HostPort → List HostPort
unfolding is_seen
distinct_pairs seen [] = []
distinct_pairs seen (p ∷ ps) =
    let rest = distinct_pairs (p ∷ seen) ps in if is_seen p seen then rest else p ∷ rest

-- What `bootstrap_superpeer_addresses` puts into the queue, where `none` is None. A name that cannot be
-- resolved gives nothing.
unfoldable pub bootstrap_superpeer_addresses :
    List (Option (List HostPort)) → List (Option HostPort)
unfolding distinct_pairs
bootstrap_superpeer_addresses [] = none ∷ []
bootstrap_superpeer_addresses (none ∷ hs) = bootstrap_superpeer_addresses hs
bootstrap_superpeer_addresses (some r ∷ hs) =
    map some (distinct_pairs [] r) ++ bootstrap_superpeer_addresses hs

-- The tasks that connect to superpeers: how many wait for the queue, the superpeers of those that talk
-- to one, and how many have stopped. `coming` is still to be put into the queue.
pub record Crowd (Address : Type 0) : Type 0 where
  pub coming : List (Option HostPort)
  pub queue : List (Option HostPort)
  pub waiting : ℕ
  pub talking : List HostPort
  pub stopped : ℕ
  pub found : List (ℤ × Address)

-- A name is resolved, a task takes what is in front of the queue, or the task with the talk of that
-- number finishes it.
pub data Event : Type 0 where
  put : Event
  get : Event
  finish : ℕ → Event

abbrev pub new_crowd : {Address : Type 0} → ℕ → List (Option (List HostPort)) → Crowd Address
new_crowd tasks hs = record {
  coming = bootstrap_superpeer_addresses hs;
  queue = [];
  waiting = tasks;
  talking = [];
  stopped = 0;
  found = [];
}

unfoldable pub on_put : {Address : Type 0} → List (Option HostPort) → Crowd Address → Crowd Address
on_put [] c = c
on_put (p ∷ coming) c = record c { coming = coming; queue = c.queue ++ p ∷ [] }

-- `pair = yield from superpeer_ip_queue.get()`
unfoldable pub on_get :
    {Address : Type 0} → ℕ → List (Option HostPort) → Crowd Address → Crowd Address
on_get zero queue c = c
on_get (suc n) [] c = c
on_get (suc n) (none ∷ queue) c = record c { queue = queue; waiting = n; stopped = suc c.stopped }
on_get (suc n) (some pair ∷ queue) c = record c {
  queue = queue;
  waiting = n;
  talking = pair ∷ c.talking;
}

unfoldable pub taken_out : ℕ → List HostPort → Option (HostPort × List HostPort)
taken_out i [] = none
taken_out zero (p ∷ ps) = some (p, ps)
taken_out (suc i) (p ∷ ps) = elim (taken_out i ps) [
  | none ↦ none
  | some (q, rest) ↦ some (q, p ∷ rest)
]

unfoldable pub minus : ℕ → ℤ
minus zero = pos 0
minus (suc n) = negsuc n

module _ {Address : Type 0} (talk : HostPort → List (ℕ × Address)) where
  -- `(-da[0], da[1])` for each of the answers
  unfoldable pub tuples_of : HostPort → List (ℤ × Address)
  unfolding minus
  tuples_of pair = map (λ da. (minus da.0, da.1)) (talk pair)

  unfoldable pub on_finish : Option (HostPort × List HostPort) → Crowd Address → Crowd Address
  unfolding tuples_of
  on_finish none c = c
  on_finish (some (pair, talking)) c = record c {
    waiting = suc c.waiting;
    talking = talking;
    found = c.found ++ tuples_of pair;
  }

  unfoldable pub on_event : Event → Crowd Address → Crowd Address
  unfolding on_put on_get on_finish taken_out
  on_event put c = on_put c.coming c
  on_event get c = on_get c.waiting c.queue c
  on_event (finish i) c = on_finish (taken_out i c.talking) c

  unfoldable pub run_events : List Event → Crowd Address → Crowd Address
  unfolding on_event
  run_events [] c = c
  run_events (e ∷ es) c = run_events es (on_event e c)
