-- ===== src/Message/Fields.antt =====
-- The structure strings: each field has a name, and a type of one letter or an array of such.
use mathlib.Core.Path.{subst}
use pycoinnet.Prelude.{
  ℕ, ◌≡◌, ◌≢◌, refl, sym, ap, inl, inr, arith, ◌==◌, ==_iff, not, ◌&&◌, Bool, true, false,
  Bool-cases, some, List, [], ◌∷◌, ◌++◌, map, length, filter, Bytes, bytes_eq, bytes_eq_iff,
  bytes_key, split_on, drop_last, Lacks, All,
}
use pycoinnet.Dict.{Dict, lookup}
use pycoinnet.Message.{message_structures}

-- A type of one letter, or an array.
pub data IsType : Bytes → Type 0 where
  letter : (c : ℕ) → c ≢ b'[' → IsType (c ∷ [])
  array : (u : Bytes) → Lacks b']' u → IsType (b'[' ∷ (u ++ b']' ∷ []))

pub record IsField (parts : List Bytes) : Type 0 where
  pub name : Bytes
  pub type : Bytes
  pub parts_are : parts ≡ name ∷ type ∷ []
  pub typed : IsType type

lacks : ℕ → Bytes → Bool
lacks c [] = true
lacks c (x ∷ s) = not (x == c) && lacks c s

is_array : Bytes → Bool
unfolding lacks
is_array s = bytes_eq (drop_last s ++ b']' ∷ []) s && lacks b']' (drop_last s)

is_type : Bytes → Bool
unfolding is_array
is_type [] = false
is_type (c ∷ []) = not (c == b'[')
is_type (c ∷ d ∷ s) = (c == b'[') && is_array (d ∷ s)

is_field : List Bytes → Bool
unfolding is_type
is_field [] = false
is_field (name ∷ []) = false
is_field (name ∷ type ∷ []) = is_type type
is_field (name ∷ type ∷ more ∷ parts) = false

are_fields : List (List Bytes) → Bool
unfolding is_field
are_fields [] = true
are_fields (parts ∷ more) = is_field parts && are_fields more

abbrev pub pairs_of : Bytes → List (List Bytes)
pairs_of the_struct = map (split_on b':') (split_on b' ' the_struct)

-- A structure is empty or lists fields.
is_structure : Bytes → Bool
unfolding are_fields
is_structure [] = true
is_structure (c ∷ s) = are_fields (pairs_of (c ∷ s))

and-true : {a b : Bool} → a && b ≡ true → (a ≡ true) × (b ≡ true)
and-true {a = true} e = (refl, e)
and-true {a = false} e = absurd (cc e)

lacks-Lacks : (c : ℕ) (s : Bytes) → lacks c s ≡ true → Lacks c s
unfolding lacks
lacks-Lacks c [] e = tt
lacks-Lacks c (x ∷ s) e =
    let both : (not (x == c) ≡ true) × (lacks c s ≡ true) = and-true e in
    (ne x (both.0), lacks-Lacks c s (both.1))
  where
    ne : (x : ℕ) → not (x == c) ≡ true → x ≢ c
    ne x h = ground arith

is_type-IsType : (t : Bytes) → is_type t ≡ true → IsType t
unfolding is_type is_array
is_type-IsType [] e = absurd (cc e)
is_type-IsType (c ∷ []) e = letter c (ground arith)
is_type-IsType (c ∷ d ∷ s) e =
    let (first, rest) = and-true e in
    let (ends, no_end) = and-true rest in
    subst IsType
      (λ i.
        sym ((==_iff c b'[').0 first) i
        ∷ (bytes_eq_iff (drop_last (d ∷ s) ++ b']' ∷ []) (d ∷ s)).0 ends i)
      (array (drop_last (d ∷ s)) (lacks-Lacks b']' (drop_last (d ∷ s)) no_end))

is_field-IsField : (parts : List Bytes) → is_field parts ≡ true → IsField parts
unfolding is_field
is_field-IsField [] e = absurd (cc e)
is_field-IsField (name ∷ []) e = absurd (cc e)
is_field-IsField (name ∷ type ∷ []) e = record {
  name = name;
  type = type;
  parts_are = refl;
  typed = is_type-IsType type e;
}
is_field-IsField (name ∷ type ∷ more ∷ parts) e = absurd (cc e)

are_fields-All : (pairs : List (List Bytes)) → are_fields pairs ≡ true → All IsField pairs
unfolding are_fields
are_fields-All [] e = tt
are_fields-All (parts ∷ more) e =
    let (a, b) = and-true e in (is_field-IsField parts a, are_fields-All more b)

are_structures : Dict Bytes Bytes → Bool
unfolding is_structure
are_structures [] = true
are_structures ((name, the_struct) ∷ d) = is_structure the_struct && are_structures d

lookup-is_structure :
    (k : Bytes) {v : Bytes} (d : Dict Bytes Bytes)
    → are_structures d ≡ true
    → lookup k d ≡ some v
    → is_structure v ≡ true
unfolding lookup are_structures
lookup-is_structure k [] a e = absurd (cc e)
lookup-is_structure k ((j, w) ∷ d) a e = elim (Bool-cases (bytes_eq j k)) [
  | inl t ↦ subst (λ x. is_structure x ≡ true) (some_inj (rw t at e)) (and-true a).0
  | inr t ↦ lookup-is_structure k d (and-true a).1 (rw t at e)
]
  where
    some_inj : {x y : Bytes} → some x ≡ some y → x ≡ y
    some_inj e = cc

checked : are_structures message_structures ≡ true
unfolding are_structures split_on drop_last bytes_eq
checked = refl

-- Every structure of `message_structures` but the empty one lists fields.
pub structure_fields :
    (message_name : Bytes) (c : ℕ) (s : Bytes)
    → lookup message_name message_structures ≡ some (c ∷ s)
    → All IsField (pairs_of (c ∷ s))
unfolding is_structure
structure_fields message_name c s e =
    are_fields-All (pairs_of (c ∷ s))
      (lookup-is_structure message_name message_structures checked e)

-- No field is empty, so that splitting at white space gives the same fields as splitting at each
-- space.
pub words-split :
    (ws : List Bytes)
    → All IsField (map (split_on b':') ws)
    → filter (λ w. not (length w == 0)) ws ≡ ws
unfolding split_on
words-split [] a = refl
words-split (w ∷ ws) a = rw (nonempty w (a.0)) (ap (λ t. w ∷ t) (words-split ws a.1))
  where
    cons_ne : {x y : Bytes} → ([] ∷ []) ≡ x ∷ y ∷ [] → ⊥
    cons_ne e = cc

    nonempty : (w : Bytes) → IsField (split_on b':' w) → not (length w == 0) ≡ true
    nonempty [] f = absurd (cons_ne f.parts_are)
    nonempty (c ∷ w) f = ground arith
