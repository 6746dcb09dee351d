-- ===== src/Standards.antt =====
-- pycoinnet/helpers/standards.py: the handshake, and the tasks that send and answer pings.
mod Tests
pub mod Pings
pub mod Handshake
pub mod Version
pub mod Requests
use pycoinnet.Prelude.{
  ℕ, ◌+◌, ◌==◌, leb, if◌then◌else◌, Option, none, some, List, [], ◌∷◌, ◌++◌, Bool, true, false,
  Result, ok, err, ◌>>=◌, eof_error, protocol_error,
}

-- The messages that the handshake tells apart, with the data of a version message.
pub data Greeting (Data : Type 0) : Type 0 where
  version : Data → Greeting Data
  verack : Greeting Data
  other_message : Greeting Data

-- What `initial_handshake` sends, and its result, on the messages that the peer sends until its end.
unfoldable pub initial_handshake :
    {Data : Type 0} → Data → List (Greeting Data) → List (Greeting Data) × Result Data
initial_handshake parameters [] = (version parameters ∷ [], err eof_error)
initial_handshake parameters (version d ∷ []) = (version parameters ∷ verack ∷ [], err eof_error)
initial_handshake parameters (version d ∷ verack ∷ ms) = (version parameters ∷ verack ∷ [], ok d)
initial_handshake parameters (version d ∷ version e ∷ ms) =
    (version parameters ∷ verack ∷ [], err protocol_error)
initial_handshake parameters (version d ∷ other_message ∷ ms) =
    (version parameters ∷ verack ∷ [], err protocol_error)
initial_handshake parameters (verack ∷ ms) = (version parameters ∷ [], err protocol_error)
initial_handshake parameters (other_message ∷ ms) = (version parameters ∷ [], err protocol_error)

-- What the ping task waits for: any message, from a time on, or the pong to a nonce, until a time.
pub data PingState : Type 0 where
  waiting : ℕ → PingState
  pinging : ℕ → ℕ → PingState
  stopped : PingState

pub data Arrival : Type 0 where
  nothing : Arrival
  pong : ℕ → Arrival
  another : Arrival
  end_of_stream : Arrival

-- A moment at which the task may run: the time, what arrived, and the nonce that `os.urandom` would
-- give.
pub record Tick : Type 0 where
  pub now : ℕ
  pub arrived : Arrival
  pub nonce : ℕ

pub data PingAction : Type 0 where
  send_ping : ℕ → PingAction
  connection_lost : PingAction

module _ (heartbeat_rate missing_pong_disconnect_timeout : ℕ) where
  -- The wait timed out, or it goes on.
  unfoldable pub on_silence : Tick → PingState → PingState × List PingAction
  on_silence t (waiting since) =
      if leb (since + heartbeat_rate) t.now
      then (pinging t.nonce (t.now + missing_pong_disconnect_timeout), send_ping t.nonce ∷ [])
      else (waiting since, [])
  on_silence t (pinging nonce end_time) =
      if leb end_time t.now then (stopped, connection_lost ∷ []) else (pinging nonce end_time, [])
  on_silence t stopped = (stopped, [])

  unfoldable pub on_pong : ℕ → ℕ → PingState → PingState
  on_pong now answer (waiting since) = waiting now
  on_pong now answer (pinging nonce end_time) =
      if answer == nonce then waiting now else pinging nonce end_time
  on_pong now answer stopped = stopped

  unfoldable pub on_another : ℕ → PingState → PingState
  on_another now (waiting since) = waiting now
  on_another now (pinging nonce end_time) = pinging nonce end_time
  on_another now stopped = stopped

  unfoldable pub ping_step : Tick → PingState → PingState × List PingAction
  unfolding on_silence on_pong on_another
  ping_step t s = elim t.arrived [
    | nothing ↦ on_silence t s
    | pong answer ↦ (on_pong t.now answer s, [])
    | another ↦ (on_another t.now s, [])
    | end_of_stream ↦ (stopped, [])
  ]

  -- `ping_task`
  unfoldable pub ping_task : List Tick → PingState → List PingAction
  unfolding ping_step
  ping_task [] s = []
  ping_task (t ∷ ts) s = (ping_step t s).1 ++ ping_task ts (ping_step t s).0

-- `pong_task`, which its filter gives the nonces of the ping messages only: the nonces of the pongs.
unfoldable pub pong_task : List ℕ → List ℕ
pong_task [] = []
pong_task (nonce ∷ nonces) = nonce ∷ pong_task nonces
