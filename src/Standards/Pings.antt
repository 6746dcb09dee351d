-- ===== src/Standards/Pings.antt =====
-- When the ping task drops the connection.
use mathlib.Core.Path.{subst}
use pycoinnet.Prelude.{
  true, sym, ℕ, ◌+◌, ◌==◌, ==_iff, ◌≤◌, ◌≡◌, ◌≢◌, ◌⊎◌, inl, inr, refl, ap, arith, leb, leb→le,
  Bool-cases, List, [], ◌∷◌, ◌++◌, In, All,
}
use pycoinnet.Standards.{
  PingState, waiting, pinging, stopped, Arrival, nothing, pong, another, end_of_stream, Tick,
  send_ping, connection_lost, on_silence, on_pong, on_another, ping_step, ping_task,
}

module _ (rate timeout : ℕ) where
  -- The ticks show no answer to a nonce up to a silent one at the end of its time.
  pub record Expired (nonce end_time : ℕ) (ts : List Tick) : Type 0 where
    pub before : List Tick
    pub last : Tick
    pub after : List Tick
    pub split : ts ≡ before ++ last ∷ after
    pub unanswered : All (λ t. t.arrived ≢ pong nonce) before
    pub silent : last.arrived ≡ nothing
    pub late : end_time ≤ last.now

  -- The state of the task after some ticks.
  pub state_after : List Tick → PingState → PingState
  state_after [] s = s
  state_after (t ∷ ts) s = state_after ts (ping_step rate timeout t s).0

  -- Somewhere in the ticks, at a silent one, the task sends a ping that is not answered in time.
  pub record Unanswered (s : PingState) (ts : List Tick) : Type 0 where
    pub before : List Tick
    pub ping : Tick
    pub after : List Tick
    pub split : ts ≡ before ++ ping ∷ after
    pub silent : ping.arrived ≡ nothing
    pub sent : In (send_ping ping.nonce) (ping_step rate timeout ping (state_after before s)).1
    pub expired : Expired ping.nonce (ping.now + timeout) after

  later_Unanswered :
      (t : Tick) (ts : List Tick) (s s1 : PingState)
      → (ping_step rate timeout t s).0 ≡ s1
      → Unanswered s1 ts
      → Unanswered s (t ∷ ts)
  unfolding state_after
  later_Unanswered t ts s s1 e u = record {
    before = t ∷ u.before;
    ping = u.ping;
    after = u.after;
    split = ap (λ x. t ∷ x) u.split;
    silent = u.silent;
    sent =
        subst
          (λ r.
            In (send_ping (u.ping).nonce)
              (ping_step rate timeout u.ping (state_after u.before r)).1)
          (sym e) u.sent;
    expired = u.expired;
  }

  later_Expired :
      (t : Tick) (ts : List Tick) (n e : ℕ)
      → t.arrived ≢ pong n
      → Expired n e ts
      → Expired n e (t ∷ ts)
  later_Expired t ts n e h x = record {
    before = t ∷ x.before;
    last = x.last;
    after = x.after;
    split = ap (λ y. t ∷ y) x.split;
    unanswered = (h, x.unanswered);
    silent = x.silent;
    late = x.late;
  }

  -- What a drop of the connection shows, by the state before it.
  Reason : PingState → List Tick → Type 0
  Reason (waiting since) ts = Unanswered (waiting since) ts
  Reason (pinging nonce end_time) ts =
      Expired nonce end_time ts ⊎ Unanswered (pinging nonce end_time) ts
  Reason stopped ts = ⊥

  abbrev tick : ℕ → Arrival → ℕ → Tick
  tick now arrived nonce = record { now = now; arrived = arrived; nonce = nonce }

  either_later :
      (t : Tick) (ts : List Tick) (n e : ℕ)
      → t.arrived ≢ pong n
      → (ping_step rate timeout t (pinging n e)).0 ≡ pinging n e
      → Expired n e ts ⊎ Unanswered (pinging n e) ts
      → Expired n e (t ∷ ts) ⊎ Unanswered (pinging n e) (t ∷ ts)
  either_later t ts n e h k (inl x) = inl (later_Expired t ts n e h x)
  either_later t ts n e h k (inr u) = inr (later_Unanswered t ts _ _ k u)

  module _ (now nonce : ℕ) (ts : List Tick)
      (rest : (s : PingState)
        → In connection_lost (ping_task rate timeout ts s)
        → Reason s ts) where
    at_silence :
        (s : PingState)
        → In connection_lost (ping_task rate timeout (tick now nothing nonce ∷ ts) s)
        → Reason s (tick now nothing nonce ∷ ts)
    unfolding ping_task ping_step on_silence Reason state_after
    at_silence stopped k = rest stopped k
    at_silence (waiting since) k = elim (Bool-cases (leb (since + rate) now)) [
      | inr e ↦
          later_Unanswered (tick now nothing nonce) ts (waiting since) (waiting since)
            (rw (ping_step, on_silence, e) refl) (rest (waiting since) (rw e at k))
      | inl e ↦ pinged e (rw e at k)
    ]
      where
        pinged :
            leb (since + rate) now ≡ true
            → In connection_lost
                (send_ping nonce ∷ ping_task rate timeout ts (pinging nonce (now + timeout)))
            → Unanswered (waiting since) (tick now nothing nonce ∷ ts)
        pinged due (inl e) = absurd (ground arith)
        pinged due (inr k) = elim (rest (pinging nonce (now + timeout)) k) [
          | inr u ↦
              later_Unanswered (tick now nothing nonce) ts (waiting since)
                (pinging nonce (now + timeout)) (rw (ping_step, on_silence, due) refl) u
          | inl x ↦ record {
            before = [];
            ping = tick now nothing nonce;
            after = ts;
            split = refl;
            silent = refl;
            sent = rw (ping_step, on_silence, due) (inl refl);
            expired = x;
          }
        ]
    at_silence (pinging n end_time) k = elim (Bool-cases (leb end_time now)) [
      | inr e ↦
          either_later (tick now nothing nonce) ts n end_time (λ x. ground arith)
            (rw (ping_step, on_silence, e) refl) (rest (pinging n end_time) (rw e at k))
      | inl e ↦ inl (record {
        before = [];
        last = tick now nothing nonce;
        after = ts;
        split = refl;
        unanswered = tt;
        silent = refl;
        late = leb→le end_time now e;
      })
    ]

    at_pong :
        (p : ℕ) (s : PingState)
        → In connection_lost (ping_task rate timeout (tick now (pong p) nonce ∷ ts) s)
        → Reason s (tick now (pong p) nonce ∷ ts)
    unfolding ping_task ping_step on_pong Reason
    at_pong p stopped k = rest stopped k
    at_pong p (waiting since) k =
        later_Unanswered (tick now (pong p) nonce) ts (waiting since) (waiting now) refl
          (rest (waiting now) k)
    at_pong p (pinging n end_time) k = elim (Bool-cases (p == n)) [
      | inl e ↦ inr (
          later_Unanswered (tick now (pong p) nonce) ts (pinging n end_time) (waiting now)
            (rw (ping_step, on_pong, e) refl) (rest (waiting now) (rw e at k)))
      | inr e ↦
          either_later (tick now (pong p) nonce) ts n end_time (λ x. grind (arith, ==_iff p n))
            (rw (ping_step, on_pong, e) refl) (rest (pinging n end_time) (rw e at k))
    ]

    at_another :
        (s : PingState)
        → In connection_lost (ping_task rate timeout (tick now another nonce ∷ ts) s)
        → Reason s (tick now another nonce ∷ ts)
    unfolding ping_task ping_step on_another Reason
    at_another stopped k = rest stopped k
    at_another (waiting since) k =
        later_Unanswered (tick now another nonce) ts (waiting since) (waiting now) refl
          (rest (waiting now) k)
    at_another (pinging n end_time) k =
        either_later (tick now another nonce) ts n end_time (λ x. ground arith) refl
          (rest (pinging n end_time) k)

    at_end :
        (s : PingState)
        → In connection_lost (ping_task rate timeout (tick now end_of_stream nonce ∷ ts) s)
        → Reason s (tick now end_of_stream nonce ∷ ts)
    unfolding ping_task ping_step Reason
    at_end s k = absurd (rest stopped k)

  at_arrival :
      (now nonce : ℕ) (ts : List Tick)
      → ((s : PingState) → In connection_lost (ping_task rate timeout ts s) → Reason s ts)
      → (s : PingState) (a : Arrival)
      → In connection_lost (ping_task rate timeout (tick now a nonce ∷ ts) s)
      → Reason s (tick now a nonce ∷ ts)
  at_arrival now nonce ts rest s nothing k = at_silence now nonce ts rest s k
  at_arrival now nonce ts rest s (pong p) k = at_pong now nonce ts rest p s k
  at_arrival now nonce ts rest s another k = at_another now nonce ts rest s k
  at_arrival now nonce ts rest s end_of_stream k = at_end now nonce ts rest s k

  reason :
      (ts : List Tick) (s : PingState)
      → In connection_lost (ping_task rate timeout ts s)
      → Reason s ts
  unfolding ping_task
  reason [] s k = elim k [ ]
  reason (t ∷ ts) s k = at_arrival t.now t.nonce ts (reason ts) s t.arrived k

  -- The ping task, started while it waits for a message, drops the connection only if it sent a ping
  -- at a moment with no message, and no pong with the nonce of the ping arrived from then on until a
  -- moment with no message when its time had passed.
  pub ping_task_lem :
      (ts : List Tick) (since : ℕ)
      → In connection_lost (ping_task rate timeout ts (waiting since))
      → Unanswered (waiting since) ts
  unfolding Reason
  ping_task_lem ts since k = reason ts (waiting since) k
