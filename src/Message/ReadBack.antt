-- ===== src/Message/ReadBack.antt =====
-- The streamer of pycoin, as pycoinnet/message.py uses it.
use pycoinnet.Prelude.{ℕ, ◌≡◌, ◌≢◌, List, [], ◌∷◌, ◌++◌, length, Bytes, codes, Lacks, Result, ok}
use pycoinnet.Dict.{Dict}
use pycoinnet.Message.{Atom, number, Value, atom, rows}

module _ {A : Type 0} (stream_struct : Bytes → List (Atom A) → Result Bytes) where
  -- The bytes of some rows, one after the other.
  unfoldable pub AreRows : Bytes → List (List (Atom A)) → Bytes → Type 0
  AreRows u [] body = body ≡ []
  AreRows u (v ∷ vs) body =
      (out : Bytes) × (rest : Bytes) × (stream_struct u v ≡ ok out)
      × AreRows u vs rest
      × (body ≡ out ++ rest)

  -- What pycoin's streamer is documented to do: `parse_as_dict` reads the fields one after the other,
  -- a letter as `stream_struct` writes it, and an array as a count and that many rows.
  pub record ReadsBack
      (parse_as_dict : List Bytes → Bytes → Bytes → Result (Dict Bytes (Value A) × Bytes))
      : Type 0 where
    pub reads_nothing : (s : Bytes) → parse_as_dict [] [] s ≡ ok ([], s)
    pub reads_letter :
        (c : ℕ) (a : Atom A) (out : Bytes)
        → c ≢ b'['
        → stream_struct (c ∷ []) (a ∷ []) ≡ ok out
        → (name : Bytes) (names : List Bytes) (types s rest : Bytes) (d : Dict Bytes (Value A))
        → parse_as_dict names types s ≡ ok (d, rest)
        → parse_as_dict (name ∷ names) (c ∷ types) (out ++ s) ≡ ok ((name, atom a) ∷ d, rest)
    pub reads_array :
        (u : Bytes) (vs : List (List (Atom A))) (count body : Bytes)
        → Lacks b']' u
        → stream_struct (codes "I") (number (length vs) ∷ []) ≡ ok count
        → AreRows u vs body
        → (name : Bytes) (names : List Bytes) (types s rest : Bytes) (d : Dict Bytes (Value A))
        → parse_as_dict names types s ≡ ok (d, rest)
        → parse_as_dict (name ∷ names) (b'[' ∷ (u ++ b']' ∷ types)) (count ++ (body ++ s))
          ≡ ok ((name, rows vs) ∷ d, rest)
