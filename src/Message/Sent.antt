-- ===== src/Message/Sent.antt =====
-- `send_msg` of pycoinnet/peer/BitcoinPeerProtocol.py, from the fields of a message to the bytes on the
-- connection, and its other end.
use mathlib.Core.Path.{subst}
use pycoinnet.Prelude.{
  ℕ, ◌≡◌, ◌≢◌, ◌≤◌, refl, sym, ap, ◌∙◌, inl, inr, arith, ◌==◌, leb, not, ◌&&◌, Bool, true, false,
  Bool-cases, some, List, [], ◌∷◌, ◌++◌, append-nil, map, length, Bytes, bytes_eq, bytes_eq_iff,
  bytes_key, split_on, All, Result, ok, ◌>>=◌,
}
use pycoinnet.Dict.{Dict, lookup}
use pycoinnet.Peer.{max_message_size, is_utf8, packet}
use pycoinnet.Peer.Frame.{parse_next_message-packet}
use pycoinnet.Peer.Stream.{read_message}
use pycoinnet.Message.{
  Atom, Value, message_structures, pack_from_data, names_and_types, words, fixup, parse_from_data,
}
use pycoinnet.Message.ReadBack.{ReadsBack}
use pycoinnet.Message.Packed.{IsRead, parse_from_data-pack_from_data}

no_zero : Bytes → Bool
no_zero [] = true
no_zero (b ∷ s) = not (b == 0) && no_zero s

is_name : Bytes → Bool
unfolding no_zero
is_name name = leb (length name) 12 && (no_zero name && is_utf8 name)

are_names : Dict Bytes Bytes → Bool
unfolding is_name
are_names [] = true
are_names ((name, the_struct) ∷ d) = is_name name && are_names d

and-true : {a b : Bool} → a && b ≡ true → (a ≡ true) × (b ≡ true)
and-true {a = true} e = (refl, e)
and-true {a = false} e = absurd (cc e)

no_zero-All : (s : Bytes) → no_zero s ≡ true → All (λ b. b ≢ 0) s
unfolding no_zero
no_zero-All [] e = tt
no_zero-All (b ∷ s) e = let (h, t) = and-true e in (ne b h, no_zero-All s t)
  where
    ne : (x : ℕ) → not (x == 0) ≡ true → x ≢ 0
    ne x h = ground arith

name_parts :
    (name : Bytes)
    → is_name name ≡ true
    → (length name ≤ 12) × (no_zero name ≡ true) × (is_utf8 name ≡ true)
unfolding is_name
name_parts name e =
    let (short, rest) = and-true {a = leb (length name) 12} e in
    let (text, utf8) = and-true {a = no_zero name} rest in (ground (arith, short), text, utf8)

lookup-is_name :
    (k : Bytes) {v : Bytes} (d : Dict Bytes Bytes)
    → are_names d ≡ true
    → lookup k d ≡ some v
    → is_name k ≡ true
unfolding lookup are_names
lookup-is_name k [] a e = absurd (cc e)
lookup-is_name k ((j, w) ∷ d) a e = elim (Bool-cases (bytes_eq j k)) [
  | inl t ↦ subst (λ x. is_name x ≡ true) ((bytes_eq_iff j k).0 t) (and-true a).0
  | inr t ↦ lookup-is_name k d (and-true a).1 (rw t at e)
]

checked : are_names message_structures ≡ true
unfolding are_names is_utf8 bytes_eq
checked = refl

module _ {A : Type 0} (stream_struct : Bytes → List (Atom A) → Result Bytes)
    (double_sha256 : Bytes → Bytes) (magic_header : Bytes) where
  -- What `send_msg` writes to the transport.
  unfoldable pub send_msg : Bytes → Dict Bytes (Value A) → Result Bytes
  send_msg message_name kwargs = do
    message_data ← pack_from_data stream_struct message_name kwargs
    ok (packet double_sha256 magic_header message_name message_data)

  module _ (digest : (b : Bytes) → 4 ≤ length (double_sha256 b))
      (parse_as_dict : List Bytes → Bytes → Bytes → Result (Dict Bytes (Value A) × Bytes))
      (reads : ReadsBack stream_struct parse_as_dict) (bytes_of merkle_root : A → Bytes) where
    -- What `send_msg` writes for a message is read at the other end, and what follows is left: the
    -- fields of its structure, in order, with the values that were sent, and then its fixup; for a
    -- payload within the limit, and a streamer that reads back what it writes.
    pub read_message-send_msg :
        (message_name : Bytes) (kwargs : Dict Bytes (Value A)) (message_data out rest : Bytes)
        → pack_from_data stream_struct message_name kwargs ≡ ok message_data
        → length message_data ≤ max_message_size
        → send_msg message_name kwargs ≡ ok out
        → (the_struct : Bytes) × (names : List Bytes) × (types : Bytes) × (d : Dict Bytes (Value A))
          × (lookup message_name message_structures ≡ some the_struct)
          × (names_and_types (map (split_on b':') (words the_struct)) ≡ ok (names, types))
          × (read_message double_sha256 magic_header
                (parse_from_data parse_as_dict bytes_of merkle_root double_sha256)
                (out ++ rest)
              ≡ fixup parse_as_dict bytes_of merkle_root double_sha256 message_name d []
                >>= λ message. ok ((message_name, message), rest))
          × IsRead stream_struct parse_as_dict reads kwargs names d
    unfolding send_msg read_message is_name
    read_message-send_msg message_name kwargs message_data out rest e small sent =
        let (the_struct, names, types, d, known, n, p, r) =
          parse_from_data-pack_from_data stream_struct parse_as_dict reads kwargs bytes_of
            merkle_root double_sha256 message_name message_data [] e in
        let (short, text, utf8) =
          name_parts message_name (lookup-is_name message_name message_structures checked known) in
        let out_eq : packet double_sha256 magic_header message_name message_data ≡ out =
          inj (rw (send_msg, e) at sent) in
        (
          the_struct,
          names,
          types,
          d,
          known,
          n,
          ap
                (λ o.
                  read_message double_sha256 magic_header
                    (parse_from_data parse_as_dict bytes_of merkle_root double_sha256) (o ++ rest))
                (sym out_eq)
              ∙ rw
                  (
                    read_message,
                    parse_next_message-packet double_sha256 magic_header digest message_name
                        message_data rest short (no_zero-All message_name text) utf8 small,
                    sym (append-nil message_data),
                    p,
                  )
                  refl,
          r,
        )
      where
        inj : {x y : Bytes} → ok x ≡ ok y → x ≡ y
        inj e = cc
