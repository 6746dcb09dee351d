-- ===== src/Standards/Tests.antt =====
-- The theorems on the tasks and the messages of Standards at sample inputs.
use pycoinnet.Dict.{lookup, Dict}
use pycoinnet.Address.{ipv4}
use pycoinnet.Message.{Atom, number, object, Value, rows, pack_from_data}
use pycoinnet.Standards.Version.{
  or_else, Field, VersionArguments, version_data_for_peer, pack_from_data-version_data_for_peer,
  written, version_atoms,
}
use pycoinnet.Standards.Requests.{do_get_headers, get_headers_hashes, get_date_address_tuples}
use pycoinnet.Prelude.{
  none, some, Bytes, codes, Result, ◌>>=◌, out_of_fuel, false, bytes_eq, bytes_key, ℕ, ◌≡◌, refl,
  inl, inr, List, [], ◌∷◌, ok, err, In,
}
use pycoinnet.Standards.{
  waiting, nothing, pong, another, Tick, send_ping, connection_lost, ping_task,
}
use pycoinnet.Standards.Pings.{Unanswered, ping_task_lem}

-- A message, a ping after 60 seconds, the pong to an older ping, and the end of the time.
abbrev ticks : List Tick
ticks =
    record { now = 10; arrived = another; nonce = 0 }
    ∷ record { now = 70; arrived = nothing; nonce = 5 }
    ∷ record { now = 100; arrived = pong 4; nonce = 0 }
    ∷ record { now = 130; arrived = nothing; nonce = 0 }
    ∷ []

run : ping_task 60 60 ticks (waiting 0) ≡ send_ping 5 ∷ connection_lost ∷ []
unfolding ping_task
run = refl

dropped : In connection_lost (ping_task 60 60 ticks (waiting 0))
unfolding ping_task
dropped = inr (inl refl)

ping_task_lem_example : Unanswered 60 60 (waiting 0) ticks
ping_task_lem_example = ping_task_lem 60 60 ticks 0 dropped

abbrev arrivals : List (Bytes × Dict Bytes (Value ℕ))
arrivals =
    (codes "pong", [])
    ∷ (
      codes "headers",
      (codes "headers", rows ((object 5 ∷ number 0 ∷ []) ∷ (object 6 ∷ number 2 ∷ []) ∷ [])) ∷ [],
    )
    ∷ []

headers_answered : (do_get_headers (1 ∷ 2 ∷ []) 0 arrivals).1 ≡ ok (object 5 ∷ object 6 ∷ [])
unfolding do_get_headers bytes_eq lookup
headers_answered = refl

hashes_answered : (get_headers_hashes 3 arrivals).1 ≡ ok (object 5 ∷ object 6 ∷ [])
unfolding get_headers_hashes bytes_eq lookup
hashes_answered = refl

addresses_awaited : (get_date_address_tuples arrivals).1 ≡ err out_of_fuel
unfolding get_date_address_tuples bytes_eq
addresses_awaited = refl

abbrev arguments : VersionArguments
arguments = record {
  remote_ip = codes "10.0.0.1";
  remote_port = 8333;
  version = 60000;
  local_ip = codes "127.0.0.1";
  local_port = 6111;
  last_block_index = 7;
  nonce = some 0;
  subversion = codes "/Notoshi/";
  timestamp = none;
  want_relay = false;
  random = 11;
  now = 12;
}

-- A streamer that writes numbers only.
abbrev numbers_only : Bytes → List (Atom Field) → Result Bytes
numbers_only letters (number n ∷ []) = ok (n ∷ [])
numbers_only letters _ = ok []

version_bytes :
    (version_data_for_peer (λ t. ok (ipv4 1)) arguments >>= λ d.
    pack_from_data numbers_only (codes "version") d)
    ≡ ok (70001 ∷ 1 ∷ 12 ∷ 11 ∷ 7 ∷ [])
unfolding written version_atoms or_else
version_bytes =
    pack_from_data-version_data_for_peer (λ t. ok (ipv4 1)) numbers_only arguments (ipv4 1) (ipv4 1)
      refl refl
