-- ===== src/Standards/Requests.antt =====
-- The requests of pycoinnet/helpers/standards.py: what is sent, and the result on the messages that the
-- peer sends. A queue with a filter on names never gets the end of the stream, so that without an answer
-- the task waits for ever.
use pycoinnet.Prelude.{
  if◌then◌else◌, List, [], ◌∷◌, map, Bytes, bytes_eq, bytes_key, codes, Result, ok, err, ◌>>=◌,
  out_of_fuel, type_error, value_error,
}
use pycoinnet.Dict.{Dict}
use pycoinnet.Message.{Atom, number, object, Value, atom, rows, value_of}

module _ {A : Type 0} where
  -- `yield from next_message()` with a filter on one name
  unfoldable pub next_of :
      Bytes → List (Bytes × Dict Bytes (Value A)) → Result (Dict Bytes (Value A))
  next_of name [] = err out_of_fuel
  next_of name ((message_name, message) ∷ more) =
      let rest = next_of name more in if bytes_eq message_name name then ok message else rest

  unfoldable pub get_date_address_tuples :
      List (Bytes × Dict Bytes (Value A)) → (Bytes × Dict Bytes (Value A)) × Result (Value A)
  unfolding next_of value_of
  get_date_address_tuples arrivals = (
    (codes "getaddr", []),
    next_of (codes "addr") arrivals >>= value_of (codes "date_address_tuples"),
  )

  -- `[bh for bh, t in data["headers"]]`
  unfoldable pub first_of_pairs : List (List (Atom A)) → Result (List (Atom A))
  first_of_pairs [] = ok []
  first_of_pairs ((bh ∷ t ∷ []) ∷ vs) = do headers ← first_of_pairs vs; ok (bh ∷ headers)
  first_of_pairs ([] ∷ vs) = err value_error
  first_of_pairs ((bh ∷ []) ∷ vs) = err value_error
  first_of_pairs ((bh ∷ t ∷ u ∷ more) ∷ vs) = err value_error

  unfoldable pub headers_of : Value A → Result (List (Atom A))
  unfolding first_of_pairs
  headers_of (atom a) = err type_error
  headers_of (rows vs) = first_of_pairs vs

  unfoldable pub do_get_headers :
      List A
      → A
      → List (Bytes × Dict Bytes (Value A))
      → (Bytes × Dict Bytes (Value A)) × Result (List (Atom A))
  unfolding next_of value_of headers_of
  do_get_headers block_locator_hashes hash_stop arrivals = (
    (
      codes "getheaders",
      (codes "version", atom (number 1))
          ∷ (codes "hashes", rows (map (λ h. object h ∷ []) block_locator_hashes))
          ∷ (codes "hash_stop", atom (object hash_stop))
          ∷ [],
    ),
    next_of (codes "headers") arrivals >>= λ message.
        (value_of (codes "headers") message >>= headers_of),
  )

  unfoldable pub get_headers_hashes :
      A
      → List (Bytes × Dict Bytes (Value A))
      → (Bytes × Dict Bytes (Value A)) × Result (List (Atom A))
  unfolding next_of value_of headers_of
  get_headers_hashes until_block_hash arrivals =
      let hashes = until_block_hash ∷ [] in
      (
        (
          codes "getheaders",
          (codes "version", atom (number 1))
              ∷ (codes "hashes", rows (map (λ h. object h ∷ []) hashes))
              ∷ (codes "hash_stop", atom (object until_block_hash))
              ∷ [],
        ),
        next_of (codes "headers") arrivals >>= λ message.
            (value_of (codes "headers") message >>= headers_of),
      )
