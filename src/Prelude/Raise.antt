-- ===== src/Prelude/Raise.antt =====
-- What Python code returns or raises. `out_of_fuel` is the model's own: a loop on fuel that did
-- not end.
use Prim.Native.Nat.{ℕ}
use mathlib.Core.Path.{◌≡◌}
use mathlib.Core.List.{List}
use mathlib.Core.Option.{none, some}
use native.Mathlib.Omega.{arith}
use pycoinnet.Prelude.Lists.{get_elem?}

pub data Error : Type 0 where
  index_error key_error value_error type_error eof_error protocol_error assertion_error
        invalid_state :
      Error
  zero_division struct_error attribute_error out_of_fuel : Error

pub data Result {ℓ} (R : Type ℓ) : Type ℓ where
  err : Error → Result R
  ok : R → Result R

infixl 5 ◌>>=◌
abbrev pub ◌>>=◌ {ℓ κ} : {R : Type ℓ} {S : Type κ} → Result R → (R → Result S) → Result S
err raised >>= next = err raised
ok returned >>= next = next returned

-- `l[i]` in range, and IndexError past the end.
unfoldable pub item_at {ℓ} : {A : Type ℓ} → List A → ℕ → Result A
item_at xs i = elim (get_elem? xs i) [ none ↦ err index_error | some x ↦ ok x ]

pub item_at-some :
    {A : Type 0} (xs : List A) (i : ℕ) {x : A} → get_elem? xs i ≡ some x → item_at xs i ≡ ok x
unfolding item_at
item_at-some xs i h = ground arith

-- What a successful bind went through.
pub >>=-eq-ok {ℓ κ} :
    {R : Type ℓ} {S : Type κ} (first : Result R) (next : R → Result S) {s : S}
    → (first >>= next) ≡ ok s
    → (r : R) × (first ≡ ok r) × (next r ≡ ok s)
>>=-eq-ok (err raised) next e = cc
>>=-eq-ok (ok returned) next e = (returned, (λ i. ok returned), e)
