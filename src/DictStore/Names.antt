-- ===== src/DictStore/Names.antt =====
-- The names of the files.
use mathlib.Core.List.{reverse, reverse-cons, reverse-reverse}
use mathlib.Core.Path.{subst}
use Prim.Native.Nat.{◌/◌, ◌%◌}
use pycoinnet.Prelude.{
  ℕ, ◌<◌, ◌≡◌, refl, sym, ap, ◌∙◌, arith, some, [], ◌∷◌, ◌++◌, false, Bytes, bytes_eq, bytes_eq_iff,
  Bool-cases, inl, inr, All, All-append, bytes_eq_ne, drop, length, ok,
}
use pycoinnet.DictStore.{hex_digit, hexlify, digit_value, unhexlify, path_for_hash}

abbrev pub AreBytes : Bytes → Type 0
AreBytes = All (λ b. b < 256)

digit_value-hex_digit : (d : ℕ) → d < 16 → digit_value (hex_digit d) ≡ some d
unfolding digit_value
digit_value-hex_digit d h = ground arith

pub unhexlify-hexlify : (bs : Bytes) → AreBytes bs → unhexlify (hexlify bs) ≡ ok bs
unfolding unhexlify hexlify
unhexlify-hexlify [] h = refl
unhexlify-hexlify (b ∷ bs) h =
    rw
      (
        unhexlify,
        digit_value-hex_digit (b / 16) (omega arith),
        digit_value-hex_digit (b % 16) (omega arith),
        unhexlify-hexlify bs h.1,
      )
      (ap (λ n. ok (n ∷ bs)) (omega arith))

reverse-AreBytes : (bs : Bytes) → AreBytes bs → AreBytes (reverse bs)
reverse-AreBytes [] h = tt
reverse-AreBytes (b ∷ bs) h =
    subst AreBytes (sym (reverse-cons b bs))
      (All-append (λ x. x < 256) (reverse bs) (b ∷ []) (reverse-AreBytes bs h.1) (h.0, tt))

drop-prefix : (prefix s : Bytes) → drop (length prefix) (prefix ++ s) ≡ s
drop-prefix [] s = refl
drop-prefix (c ∷ prefix) s = drop-prefix prefix s

-- What pycoin's `b2h_rev` is documented to give: the hexadecimal digits of the bytes in reverse.
abbrev pub WritesHex : (Bytes → Bytes) → Type 0
WritesHex b2h_rev = (key : Bytes) → b2h_rev key ≡ hexlify (reverse key)

module _ (prefix : Bytes) (b2h_rev : Bytes → Bytes) (writes_hex : WritesHex b2h_rev) where
  -- The digits in a file's name give the key back, as `__iter__` reads them.
  pub unhexlify-path :
      (key : Bytes)
      → AreBytes key
      → unhexlify (drop (length prefix) (path_for_hash prefix b2h_rev key)) ≡ ok (reverse key)
  unfolding path_for_hash
  unhexlify-path key h =
      ap unhexlify (drop-prefix prefix (b2h_rev key) ∙ writes_hex key)
      ∙ unhexlify-hexlify (reverse key) (reverse-AreBytes key h)

  same_key :
      (k j : Bytes)
      → AreBytes k
      → AreBytes j
      → path_for_hash prefix b2h_rev k ≡ path_for_hash prefix b2h_rev j
      → k ≡ j
  same_key k j hk hj e =
      sym (reverse-reverse k)
      ∙ ap reverse (
          ok_inj (
            sym (unhexlify-path k hk)
            ∙ ap (λ p. unhexlify (drop (length prefix) p)) e
            ∙ unhexlify-path j hj))
      ∙ reverse-reverse j
    where
      ok_inj : {a b : Bytes} → ok a ≡ ok b → a ≡ b
      ok_inj e = cc

  -- Two keys have the same file when they are the same key.
  pub path_test :
      (k j : Bytes)
      → AreBytes k
      → AreBytes j
      → bytes_eq (path_for_hash prefix b2h_rev k) (path_for_hash prefix b2h_rev j) ≡ bytes_eq k j
  path_test k j hk hj = elim (Bool-cases (bytes_eq k j)) [
    | inl e ↦
        rw e ((bytes_eq_iff _ _).1 (ap (path_for_hash prefix b2h_rev) ((bytes_eq_iff k j).0 e)))
    | inr e ↦ rw e (bytes_eq_ne (λ p. differ e (same_key k j hk hj p)))
  ]
    where
      differ : bytes_eq k j ≡ false → k ≡ j → ⊥
      differ e p = cc (e, (bytes_eq_iff k j).1 p)
