-- ===== src/Standards/Handshake.antt =====
-- When the handshake succeeds.
use pycoinnet.Prelude.{
  ◌≡◌, ◌⊎◌, inl, inr, refl, arith, List, [], ◌∷◌, ok, err, eof_error, protocol_error,
}
use pycoinnet.Standards.{Greeting, version, verack, other_message, initial_handshake}

module _ {Data : Type 0} (parameters : Data) where
  -- The handshake returns the data of the peer's version message exactly if the peer's first two
  -- messages are that version message and a verack; in every other case it raises EOFError or
  -- BitcoinProtocolError.
  pub initial_handshake_lem :
      (ms : List (Greeting Data))
      → ((d : Data) × (rest : List (Greeting Data)) × (ms ≡ version d ∷ verack ∷ rest)
          × ((initial_handshake parameters ms).1 ≡ ok d))
        ⊎ (((d : Data) (rest : List (Greeting Data)) → ms ≡ version d ∷ verack ∷ rest → ⊥)
            × (((initial_handshake parameters ms).1 ≡ err eof_error)
                ⊎ ((initial_handshake parameters ms).1 ≡ err protocol_error)))
  unfolding initial_handshake
  initial_handshake_lem [] = inr ((λ d r e. ground arith), inl refl)
  initial_handshake_lem (version d ∷ []) = inr ((λ d r e. ground arith), inl refl)
  initial_handshake_lem (version d ∷ verack ∷ ms) = inl (d, ms, refl, refl)
  initial_handshake_lem (version d ∷ version e ∷ ms) = inr ((λ d r e. ground arith), inr refl)
  initial_handshake_lem (version d ∷ other_message ∷ ms) = inr ((λ d r e. ground arith), inr refl)
  initial_handshake_lem (verack ∷ ms) = inr ((λ d r e. ground arith), inr refl)
  initial_handshake_lem (other_message ∷ ms) = inr ((λ d r e. ground arith), inr refl)
