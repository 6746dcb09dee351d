-- ===== src/Collector/Waiting.antt =====
-- The loop of `fetch` in pycoinnet/peergroup/InvCollector.py that waits for fetchers and timers. Tasks are
-- numbers; which are made, and which are done when, is an input.
use pycoinnet.Prelude.{
  ℕ, ◌==◌, not, if◌then◌else◌, ◌||◌, Bool, true, false, Option, none, some, List, [], ◌∷◌, filter,
  nat_eq,
}
use pycoinnet.Dict.{Dict, lookup}

-- What a task gives: a timer the task of the fetcher that it asked, and a fetcher the object, or None.
pub data Given (Object : Type 0) : Type 0 where
  requested : ℕ → Given Object
  answered : Option Object → Given Object

pub record Waiting : Type 0 where
  pub most_recent_fetcher : Option ℕ
  pub timer_future : Option ℕ
  pub pending_fetchers : List ℕ

pub data Turn (Object : Type 0) : Type 0 where
  going : Waiting → Turn Object
  returned : Given Object → Turn Object
  unbound_timer : Turn Object

abbrev pub new_waiting : Waiting
new_waiting = record { most_recent_fetcher = none; timer_future = none; pending_fetchers = [] }

-- `if most_recent_fetcher is None and q.qsize() > 0`, with the tasks made if the queue has a peer.
unfoldable pub ask_next : Option (ℕ × ℕ) → Waiting → Waiting
ask_next made w = elim w.most_recent_fetcher [
  | some _ ↦ w
  | none ↦ elim made [
    | none ↦ w
    | some (fetcher, timer) ↦ record w {
      most_recent_fetcher = some fetcher;
      timer_future = some timer;
    }
  ]
]

unfoldable pub is_task_in : ℕ → List ℕ → Bool
is_task_in t [] = false
is_task_in t (x ∷ xs) = (x == t) || is_task_in t xs

abbrev pub add_task : ℕ → List ℕ → List ℕ
add_task t ts = if is_task_in t ts then ts else t ∷ ts

-- `futures`
unfoldable pub futures_of : ℕ → Waiting → List ℕ
unfolding is_task_in
futures_of timer w = elim w.most_recent_fetcher [
  | none ↦ add_task timer w.pending_fetchers
  | some fetcher ↦ add_task fetcher (add_task timer w.pending_fetchers)
]

module _ {Object : Type 0} where
  unfoldable pub is_done : Dict ℕ (Given Object) → ℕ → Bool
  is_done done t = elim (lookup t done) [ none ↦ false | some _ ↦ true ]

  -- `timer_future.result()`, as a task
  unfoldable pub task_of : Given Object → Option ℕ
  task_of (requested t) = some t
  task_of (answered r) = none

  -- `if r: return r`; a task is true.
  unfoldable pub is_true : Given Object → Bool
  is_true (requested t) = true
  is_true (answered none) = false
  is_true (answered (some r)) = true

  unfoldable pub first_true : Dict ℕ (Given Object) → Option (Given Object)
  unfolding is_true
  first_true [] = none
  first_true ((t, r) ∷ done) = let rest = first_true done in if is_true r then some r else rest

  -- The most recent fetcher gave this, and `fresh` is the timer that is made if it is None.
  unfoldable pub on_recent : Given Object → ℕ → ℕ → List ℕ → Turn Object
  unfolding is_true
  on_recent r timer fresh pending =
      if is_true r
      then returned r
      else going (record {
        most_recent_fetcher = none;
        timer_future = some fresh;
        pending_fetchers = filter (λ t. not (t == timer)) pending;
      })

  unfoldable pub on_others : Dict ℕ (Given Object) → Waiting → Turn Object
  unfolding first_true
  on_others done w = elim (first_true done) [ none ↦ going w | some r ↦ returned r ]

  -- The result of the most recent fetcher, if it is done.
  unfoldable pub recent_result : Option ℕ → Dict ℕ (Given Object) → Option (Given Object)
  recent_result none done = none
  recent_result (some fetcher) done = lookup fetcher done

  -- What follows `asyncio.wait`, with these tasks done.
  unfoldable pub on_done : ℕ → Dict ℕ (Given Object) → ℕ → Waiting → Turn Object
  unfolding on_recent on_others recent_result futures_of is_done task_of
  on_done timer done fresh w =
      let pending = filter (λ t. not (is_done done t)) (futures_of timer w) in
      elim (lookup timer done) [
        | some r ↦ going (record {
          most_recent_fetcher = task_of r;
          timer_future = some fresh;
          pending_fetchers = pending;
        })
        | none ↦ elim (recent_result w.most_recent_fetcher done) [
          | some r ↦ on_recent r timer fresh pending
          | none ↦ on_others done (record w { pending_fetchers = pending })
        ]
      ]

  -- An iteration of the loop.
  unfoldable pub fetch_turn : Option (ℕ × ℕ) → Dict ℕ (Given Object) → ℕ → Waiting → Turn Object
  unfolding ask_next on_done
  fetch_turn made done fresh w =
      let asked = ask_next made w in
      elim asked.timer_future [ none ↦ unbound_timer | some timer ↦ on_done timer done fresh asked ]
