-- ===== src/Peer/State.antt =====
-- The state of a connection: what asyncio calls on a BitcoinPeerProtocol, and what `send_msg`
-- writes. A future that is set twice raises InvalidStateError.
use pycoinnet.Prelude.{
  ltb, ◌^◌, struct_error, >>=-eq-ok, ℕ, ◌+◌, ◌≡◌, refl, Bool, true, false, List, [], ◌∷◌, ◌++◌,
  Bytes, Result, ok, err, invalid_state, attribute_error, assertion_error, ◌>>=◌, length,
  length-append, arith, if◌then◌else◌,
}
use pycoinnet.Peer.{packet}

pub record PeerState : Type 0 where
  -- connection_made_future and connection_lost_future are done
  pub made : Bool
  pub lost : Bool
  -- what was fed to the reader, and whether its end was
  pub fed : Bytes
  pub eof : Bool
  -- what was written to the transport
  pub written : Bytes
  pub is_writable : Bool
  pub bytes_read : ℕ
  pub bytes_writ : ℕ

-- `__init__`
abbrev pub new_peer : PeerState
new_peer = record {
  made = false;
  lost = false;
  fed = [];
  eof = false;
  written = [];
  is_writable = false;
  bytes_read = 0;
  bytes_writ = 0;
}

pub data Event : Type 0 where
  connection_made connection_lost pause_writing resume_writing : Event
  data_received : Bytes → Event
  send_msg : Bytes → Bytes → Event

module _ (double_sha256 : Bytes → Bytes) (magic_header : Bytes) where
  -- `struct.pack` has no room for the length of a payload from 2 ** 32 bytes on. Before
  -- `connection_made` there is no reader and no transport, and a use of them raises. A reader that was
  -- fed its end takes no more data.
  unfoldable pub handle : Event → PeerState → Result PeerState
  handle connection_made s =
      if s.made then err invalid_state else ok (record s { made = true; is_writable = true })
  handle connection_lost s =
      if s.lost
      then err invalid_state
      else if s.made
      then ok (record s { lost = true; eof = true })
      else err attribute_error
  handle (data_received bytes) s =
      if s.made
      then (if s.eof
          then err assertion_error
          else ok (record s { bytes_read = s.bytes_read + length bytes; fed = s.fed ++ bytes }))
      else err attribute_error
  handle pause_writing s = ok (record s { is_writable = false })
  handle resume_writing s = ok (record s { is_writable = true })
  handle (send_msg message_type message_data) s =
      let p = packet double_sha256 magic_header message_type message_data in
      if ltb (length message_data) (2 ^ 32)
      then (if s.made
          then ok (record s { bytes_writ = s.bytes_writ + length p; written = s.written ++ p })
          else err attribute_error)
      else err struct_error

  unfoldable pub run_events : List Event → PeerState → Result PeerState
  run_events [] s = ok s
  run_events (e ∷ es) s = do s' ← handle e s; run_events es s'

  -- The counters are the lengths of what went through, and the end of the stream is fed when
  -- the connection is lost, which happens after it is made.
  pub record IsCounted (s : PeerState) : Type 0 where
    pub read : s.bytes_read ≡ length s.fed
    pub writ : s.bytes_writ ≡ length s.written
    pub ended : s.eof ≡ s.lost
    pub started : s.lost ≡ true → s.made ≡ true

  handle-IsCounted :
      (e : Event) (s : PeerState) {s' : PeerState} → IsCounted s → handle e s ≡ ok s' → IsCounted s'
  unfolding handle
  handle-IsCounted connection_made s c h = ground arith
  handle-IsCounted connection_lost s c h = ground arith
  handle-IsCounted pause_writing s c h = ground arith
  handle-IsCounted resume_writing s c h = ground arith
  handle-IsCounted (data_received bytes) s c h = ground (arith, length-append s.fed bytes)
  handle-IsCounted (send_msg n d) s c h =
      ground (arith, length-append s.written (packet double_sha256 magic_header n d))

  run_events_from :
      (es : List Event) (s : PeerState) {s' : PeerState}
      → IsCounted s
      → run_events es s ≡ ok s'
      → IsCounted s'
  unfolding run_events
  run_events_from [] s c h = ground arith
  run_events_from (e ∷ es) s c h =
      let (s1, first, rest) = >>=-eq-ok (handle e s) _ h in
      run_events_from es s1 (handle-IsCounted e s c first) rest

  -- Whatever happens on a new connection, as long as nothing raises, `bytes_read` and
  -- `bytes_writ` count what was fed to the reader and what was written to the transport, and the
  -- reader has been given its end exactly when the connection is lost, which it only is after it
  -- was made.
  pub run_events-IsCounted :
      (es : List Event) {s : PeerState} → run_events es new_peer ≡ ok s → IsCounted s
  run_events-IsCounted es h =
      run_events_from es new_peer
        (record { read = refl; writ = refl; ended = refl; started = λ e. cc }) h
