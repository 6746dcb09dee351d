-- ===== src/Message/Streamer.antt =====
-- A small streamer that meets what the theorems ask of pycoin's: each atom is two bytes, whether it is
-- an object, and its number, whatever its letter.
use pycoinnet.Prelude.{
  ℕ, zero, suc, ◌≡◌, ◌≢◌, refl, sym, ap, ◌∙◌, arith, ◌==◌, if◌then◌else◌, false, List, [], ◌∷◌,
  ◌++◌, append-nil, append_assoc, length, Bytes, bytes_key, Lacks, Result, ok, err, ◌>>=◌,
  >>=-eq-ok, type_error, value_error,
}
use pycoinnet.Dict.{Dict}
use pycoinnet.Message.{Atom, number, object, Value, atom, rows}
use pycoinnet.Message.ReadBack.{AreRows, ReadsBack}

write_atom : Atom ℕ → Bytes
write_atom (number n) = 0 ∷ n ∷ []
write_atom (object n) = 1 ∷ n ∷ []

-- A row has as many atoms as its format has letters.
unfoldable pub stream_row : Bytes → List (Atom ℕ) → Result Bytes
unfolding write_atom
stream_row [] [] = ok []
stream_row (c ∷ u) (a ∷ v) = do out ← stream_row u v; ok (write_atom a ++ out)
stream_row [] (a ∷ v) = err type_error
stream_row (c ∷ u) [] = err type_error

read_atom : Bytes → Result (Atom ℕ × Bytes)
read_atom [] = err value_error
read_atom (t ∷ []) = err value_error
read_atom (t ∷ n ∷ s) = ok (if t == 0 then number n else object n, s)

read_row : Bytes → Bytes → Result (List (Atom ℕ) × Bytes)
unfolding read_atom
read_row [] s = ok ([], s)
read_row (c ∷ u) s = do (a, s1) ← read_atom s; (v, s2) ← read_row u s1; ok (a ∷ v, s2)

read_rows : ℕ → Bytes → Bytes → Result (List (List (Atom ℕ)) × Bytes)
unfolding read_row
read_rows zero u s = ok ([], s)
read_rows (suc n) u s = do (v, s1) ← read_row u s; (vs, s2) ← read_rows n u s1; ok (v ∷ vs, s2)

until_end : Bytes → Bytes × Bytes
until_end [] = ([], [])
until_end (x ∷ s) = let (u, t) = until_end s in if x == b']' then ([], s) else (x ∷ u, t)

read_array : Bytes × Bytes → Bytes → Result (Value ℕ × Bytes × Bytes)
unfolding read_rows
read_array (u, types) [] = err value_error
read_array (u, types) (t ∷ []) = err value_error
read_array (u, types) (t ∷ n ∷ s) = do (vs, rest) ← read_rows n u s; ok (rows vs, types, rest)

read_field : Bytes → Bytes → Result (Value ℕ × Bytes × Bytes)
unfolding read_array until_end
read_field [] s = err value_error
read_field (c ∷ types) s =
    if c == b'['
    then read_array (until_end types) s
    else read_atom s >>= λ (a, rest). ok (atom a, types, rest)

unfoldable pub read_dict : List Bytes → Bytes → Bytes → Result (Dict Bytes (Value ℕ) × Bytes)
unfolding read_field
read_dict [] types s = ok ([], s)
read_dict (name ∷ names) types s = do
  (v, types1, s1) ← read_field types s
  (d, rest) ← read_dict names types1 s1
  ok ((name, v) ∷ d, rest)

inj : {x y : Bytes} → ok x ≡ ok y → x ≡ y
inj e = cc

read_atom-write_atom : (a : Atom ℕ) (s : Bytes) → read_atom (write_atom a ++ s) ≡ ok (a, s)
unfolding read_atom write_atom
read_atom-write_atom (number n) s = refl
read_atom-write_atom (object n) s = refl

none_ok : {out : Bytes} → err type_error ≡ ok out → ⊥
none_ok e = cc

read_row-stream_row :
    (u : Bytes) (v : List (Atom ℕ)) {out : Bytes} (s : Bytes)
    → stream_row u v ≡ ok out
    → read_row u (out ++ s) ≡ ok (v, s)
unfolding stream_row read_row
read_row-stream_row [] [] s e = ap (λ o. ok ([], o ++ s)) (sym (inj e))
read_row-stream_row [] (a ∷ v) s e = absurd (none_ok e)
read_row-stream_row (c ∷ u) [] s e = absurd (none_ok e)
read_row-stream_row (c ∷ u) (a ∷ v) s e =
    let (out, e1, k) = >>=-eq-ok (stream_row u v) _ e in
    ap (λ o. read_row (c ∷ u) (o ++ s)) (sym (inj k))
    ∙ ap (read_row (c ∷ u)) (append_assoc (write_atom a) out s)
    ∙ rw (read_row, read_atom-write_atom a (out ++ s), read_row-stream_row u v s e1) refl

read_rows-AreRows :
    (u : Bytes) (vs : List (List (Atom ℕ))) (body s : Bytes)
    → AreRows stream_row u vs body
    → read_rows (length vs) u (body ++ s) ≡ ok (vs, s)
unfolding read_rows AreRows
read_rows-AreRows u [] body s e = ap (λ b. ok ([], b ++ s)) e
read_rows-AreRows u (v ∷ vs) body s (out, rest, e, more, b) =
    ap (λ o. read_rows (suc (length vs)) u (o ++ s)) b
    ∙ ap (read_rows (suc (length vs)) u) (append_assoc out rest s)
    ∙ rw (read_rows, read_row-stream_row u v (rest ++ s) e, read_rows-AreRows u vs rest s more) refl

until_end-Lacks : (u types : Bytes) → Lacks b']' u → until_end (u ++ b']' ∷ types) ≡ (u, types)
unfolding until_end
until_end-Lacks [] types free = refl
until_end-Lacks (x ∷ u) types free =
    rw (until_end, until_end-Lacks u types (free.1), other (free.0)) refl
  where
    other : {x : ℕ} → x ≢ b']' → (x == b']') ≡ false
    other h = ground arith

pub stream_row-ReadsBack : ReadsBack stream_row read_dict
unfolding stream_row read_dict read_field read_array
stream_row-ReadsBack = record {
  reads_nothing = λ s. refl;
  reads_letter = λ c a out ne e name names types s rest d k.
      ap (λ o. read_dict (name ∷ names) (c ∷ types) (o ++ s)) (sym (inj e))
      ∙ letter c a ne name names types s rest d k;
  reads_array = λ u vs count body free e more name names types s rest d k.
      ap (λ o. read_dict (name ∷ names) (b'[' ∷ (u ++ b']' ∷ types)) (o ++ (body ++ s)))
        (sym (inj e))
      ∙ array u vs body free more name names types s rest d k;
}
  where
    other : {x : ℕ} → x ≢ b'[' → (x == b'[') ≡ false
    other h = ground arith

    letter :
        (c : ℕ) (a : Atom ℕ)
        → c ≢ b'['
        → (name : Bytes) (names : List Bytes) (types s rest : Bytes) (d : Dict Bytes (Value ℕ))
        → read_dict names types s ≡ ok (d, rest)
        → read_dict (name ∷ names) (c ∷ types) ((write_atom a ++ []) ++ s)
          ≡ ok ((name, atom a) ∷ d, rest)
    letter c a ne name names types s rest d k =
        ap (λ o. read_dict (name ∷ names) (c ∷ types) (o ++ s)) (append-nil (write_atom a))
        ∙ rw (read_dict, read_field, other ne, read_atom-write_atom a s, k) refl

    array :
        (u : Bytes) (vs : List (List (Atom ℕ))) (body : Bytes)
        → Lacks b']' u
        → AreRows stream_row u vs body
        → (name : Bytes) (names : List Bytes) (types s rest : Bytes) (d : Dict Bytes (Value ℕ))
        → read_dict names types s ≡ ok (d, rest)
        → read_dict (name ∷ names) (b'[' ∷ (u ++ b']' ∷ types)) (0 ∷ length vs ∷ (body ++ s))
          ≡ ok ((name, rows vs) ∷ d, rest)
    array u vs body free more name names types s rest d k =
        rw
          (
            read_dict,
            read_field,
            until_end-Lacks u types free,
            read_array,
            read_rows-AreRows u vs body s more,
            k,
          )
          refl
