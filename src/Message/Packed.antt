-- ===== src/Message/Packed.antt =====
-- Packing and parsing of messages, one after the other.
use mathlib.Core.Path.{subst}
use pycoinnet.Prelude.{
  ℕ, ◌≡◌, ◌≢◌, refl, sym, ap, ◌∙◌, inl, inr, arith, ◌==◌, false, Option-cases, some, List, [], ◌∷◌,
  ◌++◌, append_assoc, map, length, Bytes, bytes_key, codes, split_on, drop_last-snoc, item_at,
  Lacks, All, Result, ok, err, >>=-eq-ok, Error, key_error,
}
use pycoinnet.Dict.{Dict, lookup}
use pycoinnet.Message.{
  Atom, number, Value, atom, rows, message_structures, value_of, pack_rows, pack_array, pack_atom,
  pack_field, pack_fields, pack_struct, pack_from_data, words, names_and_types, make_parser, fixup,
  parse_from_data,
}
use pycoinnet.Message.ReadBack.{AreRows, ReadsBack}
use pycoinnet.Message.Fields.{
  IsType, letter, array, IsField, pairs_of, structure_fields, words-split,
}

ok_inj : {x y : Bytes} → ok x ≡ ok y → x ≡ y
ok_inj e = cc

err_ok : {e : Error} {x : Bytes} → err e ≡ ok x → ⊥
err_ok e = cc

found :
    {V : Type 0} (name : Bytes) (d : Dict Bytes V) {v : V}
    → value_of name d ≡ ok v
    → lookup name d ≡ some v
unfolding value_of
found {V} name d {v} e = elim (Option-cases (lookup name d)) [
  | inl n ↦ absurd (err_value (rw (value_of, n) at e))
  | inr (w, n) ↦ n ∙ ap some (ok_value (rw (value_of, n) at e))
]
  where
    err_value : err key_error ≡ ok v → ⊥
    err_value e = cc

    ok_value : {w : V} → ok w ≡ ok v → w ≡ v
    ok_value e = cc

module _ {A : Type 0} (stream_struct : Bytes → List (Atom A) → Result Bytes) where
  pack_rows-AreRows :
      (u : Bytes) (vs : List (List (Atom A))) {body : Bytes}
      → pack_rows stream_struct u vs ≡ ok body
      → AreRows stream_struct u vs body
  unfolding pack_rows AreRows
  pack_rows-AreRows u [] e = cc
  pack_rows-AreRows u (v ∷ vs) e =
      let (out, e1, k) = >>=-eq-ok (stream_struct u v) _ e in
      let (rest, e2, l) = >>=-eq-ok (pack_rows stream_struct u vs) _ k in
      (out, rest, e1, pack_rows-AreRows u vs e2, sym (ok_inj l))

  letter_step :
      (c : ℕ) (v : Value A)
      → c ≢ b'['
      → pack_field stream_struct (c ∷ []) v ≡ pack_atom stream_struct (c ∷ []) v
  unfolding pack_field item_at
  letter_step c v ne = rw (pack_field, other ne) refl
    where
      other : {x : ℕ} → x ≢ b'[' → (x == b'[') ≡ false
      other h = ground arith

  array_step :
      (u : Bytes) (v : Value A)
      → pack_field stream_struct (b'[' ∷ (u ++ b']' ∷ [])) v ≡ pack_array stream_struct u v
  unfolding pack_field item_at
  array_step u v = ap (λ t. pack_array stream_struct t v) (drop_last-snoc u b']')

  module _ (parse_as_dict : List Bytes → Bytes → Bytes → Result (Dict Bytes (Value A) × Bytes))
      (reads : ReadsBack stream_struct parse_as_dict) where
    letter_back :
        (c : ℕ) (v : Value A) (out : Bytes)
        → c ≢ b'['
        → pack_atom stream_struct (c ∷ []) v ≡ ok out
        → (name : Bytes) (names : List Bytes) (types s rest : Bytes) (d : Dict Bytes (Value A))
        → parse_as_dict names types s ≡ ok (d, rest)
        → parse_as_dict (name ∷ names) (c ∷ types) (out ++ s) ≡ ok ((name, v) ∷ d, rest)
    unfolding pack_atom
    letter_back c (atom a) out ne e = reads.reads_letter c a out ne e
    letter_back c (rows vs) out ne e = absurd (err_ok e)

    array_back :
        (u : Bytes) (v : Value A) (out : Bytes)
        → Lacks b']' u
        → pack_array stream_struct u v ≡ ok out
        → (name : Bytes) (names : List Bytes) (types s rest : Bytes) (d : Dict Bytes (Value A))
        → parse_as_dict names types s ≡ ok (d, rest)
        → parse_as_dict (name ∷ names) (b'[' ∷ (u ++ b']' ∷ []) ++ types) (out ++ s)
          ≡ ok ((name, v) ∷ d, rest)
    unfolding pack_array
    array_back u (atom a) out free e name names types s rest d k = absurd (err_ok e)
    array_back u (rows vs) out free e name names types s rest d k =
        let (count, e1, f) = >>=-eq-ok (stream_struct (codes "I") (number (length vs) ∷ [])) _ e in
        let (body, e2, g) = >>=-eq-ok (pack_rows stream_struct u vs) _ f in
        ap (λ o. parse_as_dict (name ∷ names) (b'[' ∷ (u ++ b']' ∷ []) ++ types) (o ++ s))
          (sym (ok_inj g))
        ∙ ap (λ o. parse_as_dict (name ∷ names) (b'[' ∷ (u ++ b']' ∷ []) ++ types) o)
            (append_assoc count body s)
        ∙ ap (λ t. parse_as_dict (name ∷ names) (b'[' ∷ t) (count ++ (body ++ s)))
            (append_assoc u (b']' ∷ []) types)
        ∙ reads.reads_array u vs count body free e1 (pack_rows-AreRows u vs e2) name names types s
            rest d k

    -- A field that is packed is read back.
    field_back :
        (type : Bytes) (v : Value A) (out : Bytes)
        → IsType type
        → pack_field stream_struct type v ≡ ok out
        → (name : Bytes) (names : List Bytes) (types s rest : Bytes) (d : Dict Bytes (Value A))
        → parse_as_dict names types s ≡ ok (d, rest)
        → parse_as_dict (name ∷ names) (type ++ types) (out ++ s) ≡ ok ((name, v) ∷ d, rest)
    field_back type v out (letter c ne) e = letter_back c v out ne (sym (letter_step c v ne) ∙ e)
    field_back type v out (array u free) e = array_back u v out free (sym (array_step u v) ∙ e)

    -- What is read of some fields: their names in order, with the values that were packed.
    pub record IsRead (kwargs : Dict Bytes (Value A)) (names : List Bytes)
        (d : Dict Bytes (Value A)) : Type 0 where
      pub in_order : map (λ e. e.0) d ≡ names
      pub same_values : All (λ e. lookup (e.0) kwargs ≡ some (e.1)) d

    module _ (kwargs : Dict Bytes (Value A)) where
      abbrev Back : List (List Bytes) → Bytes → Bytes → Type 0
      Back pairs out tail =
          (names : List Bytes) × (types : Bytes) × (d : Dict Bytes (Value A)) × (names_and_types
              pairs
            ≡ ok (names, types))
          × (parse_as_dict names types (out ++ tail) ≡ ok (d, tail))
          × IsRead kwargs names d

      cons-Back :
          (name type : Bytes) (pairs : List (List Bytes)) (out tail : Bytes)
          → IsType type
          → ((rest : Bytes)
              → pack_fields stream_struct pairs kwargs ≡ ok rest
              → Back pairs rest tail)
          → pack_fields stream_struct ((name ∷ type ∷ []) ∷ pairs) kwargs ≡ ok out
          → Back ((name ∷ type ∷ []) ∷ pairs) out tail
      unfolding pack_fields names_and_types item_at
      cons-Back name type pairs out tail t back e =
          let (v, e1, f) = >>=-eq-ok (value_of name kwargs) _ e in
          let (field, e2, g) = >>=-eq-ok (pack_field stream_struct type v) _ f in
          let (rest, e3, h) = >>=-eq-ok (pack_fields stream_struct pairs kwargs) _ g in
          let (names, types, d, n, p, r) = back rest e3 in
          (
            name ∷ names,
            type ++ types,
            (name, v) ∷ d,
            rw n refl,
            ap (λ o. parse_as_dict (name ∷ names) (type ++ types) (o ++ tail)) (sym (ok_inj h))
                ∙ ap (parse_as_dict (name ∷ names) (type ++ types)) (append_assoc field rest tail)
                ∙ field_back type v field t e2 name names types (rest ++ tail) tail d p,
            record {
              in_order = ap (λ l. name ∷ l) r.in_order;
              same_values = (found name kwargs e1, r.same_values);
            },
          )

      fields-Back :
          (pairs : List (List Bytes)) (out tail : Bytes)
          → All IsField pairs
          → pack_fields stream_struct pairs kwargs ≡ ok out
          → Back pairs out tail
      unfolding pack_fields names_and_types
      fields-Back [] out tail a e = (
        [],
        [],
        [],
        refl,
        ap (λ o. parse_as_dict [] [] (o ++ tail)) (sym (ok_inj e)) ∙ reads.reads_nothing tail,
        record { in_order = refl; same_values = tt },
      )
      fields-Back (parts ∷ pairs) out tail a e =
          let f = a.0 in
          subst (λ p. Back (p ∷ pairs) out tail) (sym f.parts_are)
            (cons-Back f.name f.type pairs out tail f.typed
              (λ rest. fields-Back pairs rest tail (a.1))
              (subst (λ p. pack_fields stream_struct (p ∷ pairs) kwargs ≡ ok out) f.parts_are e))

      abbrev Parsed : Bytes → Bytes → Bytes → Type 0
      Parsed the_struct out tail =
          (names : List Bytes) × (types : Bytes) × (d : Dict Bytes (Value A)) × (names_and_types
              (map (split_on b':') (words the_struct))
            ≡ ok (names, types))
          × (make_parser parse_as_dict the_struct (out ++ tail) ≡ ok (d, tail))
          × IsRead kwargs names d

      struct_back :
          (message_name the_struct out tail : Bytes)
          → lookup message_name message_structures ≡ some the_struct
          → pack_struct stream_struct the_struct kwargs ≡ ok out
          → Parsed the_struct out tail
      unfolding pack_struct make_parser words split_on names_and_types
      struct_back message_name [] out tail known e = (
        [],
        [],
        [],
        refl,
        ap (λ o. parse_as_dict [] [] (o ++ tail)) (sym (ok_inj e)) ∙ reads.reads_nothing tail,
        record { in_order = refl; same_values = tt },
      )
      struct_back message_name (c ∷ s) out tail known e =
          let fields = structure_fields message_name c s known in
          let (names, types, d, n, p, r) = fields-Back (pairs_of (c ∷ s)) out tail fields e in
          let same : names_and_types (map (split_on b':') (words (c ∷ s))) ≡ ok (names, types) =
            ap (λ ws. names_and_types (map (split_on b':') ws))
              (words-split (split_on b' ' (c ∷ s)) fields)
            ∙ n in
          (names, types, d, same, rw (make_parser, same) p, r)

      -- What `pack_from_data` writes, and then anything, is read by the parser of that message as the
      -- fields of its structure, in order, with the values that were packed, and what follows is left;
      -- the streamer of pycoin reads back what it writes.
      make_parser-pack_from_data :
          (message_name out tail : Bytes)
          → pack_from_data stream_struct message_name kwargs ≡ ok out
          → (the_struct : Bytes) × (lookup message_name message_structures ≡ some the_struct)
            × Parsed the_struct out tail
      unfolding pack_from_data
      make_parser-pack_from_data message_name out tail e =
          let (the_struct, e1, f) = >>=-eq-ok (value_of message_name message_structures) _ e in
          let known = found message_name message_structures e1 in
          (the_struct, known, struct_back message_name the_struct out tail known f)

      -- The same for `parse_from_data`, which then calls the fixup of the message, if it has one.
      pub parse_from_data-pack_from_data :
          (bytes_of merkle_root : A → Bytes) (double_sha256 : Bytes → Bytes)
          (message_name out tail : Bytes)
          → pack_from_data stream_struct message_name kwargs ≡ ok out
          → (the_struct : Bytes) × (names : List Bytes) × (types : Bytes) × (d : Dict Bytes
              (Value A))
            × (lookup message_name message_structures ≡ some the_struct)
            × (names_and_types (map (split_on b':') (words the_struct)) ≡ ok (names, types))
            × (parse_from_data parse_as_dict bytes_of merkle_root double_sha256 message_name
                  (out ++ tail)
                ≡ fixup parse_as_dict bytes_of merkle_root double_sha256 message_name d tail)
            × IsRead kwargs names d
      unfolding parse_from_data
      parse_from_data-pack_from_data bytes_of merkle_root double_sha256 message_name out tail e =
          let (the_struct, known, parsed) = make_parser-pack_from_data message_name out tail e in
          let (names, types, d, n, p, r) = parsed in
          (the_struct, names, types, d, known, n, rw (parse_from_data, known, p) refl, r)
