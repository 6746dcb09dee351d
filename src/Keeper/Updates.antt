-- ===== src/Keeper/Updates.antt =====
-- What additions and failed connections leave in the data base.
use pycoinnet.Prelude.{
  ℕ, if◌then◌else◌, ◌≡◌, refl, sym, ap, ◌∙◌, arith, Option, none, some, Option-cases, List, [], ◌∷◌,
  ℤ, pos, negsuc, ◌≤ℤ◌, eq_ℤ, All, ok, err, key_error, inl, inr, Bool-cases,
}
use pycoinnet.Dict.{Dict, lookup, remove, lookup-put, lookup-remove, beq_self}
use pycoinnet.Keeper.{
  HostPort, host_port_eq, host_port_eq_iff, host_port_key, AddressDb, get_or_else, max_ℤ,
  add_address, add_addresses, remove_address, refused, connect_to_remote, save,
}

-- The later one of a time that may be known and another one.
later_of : ℤ → Option ℤ → ℤ
later_of timestamp none = timestamp
later_of timestamp (some old) = max_ℤ timestamp old

-- The newest time of an address in a list of entries, and one known before.
pub newest : HostPort → List (ℤ × HostPort) → Option ℤ → Option ℤ
unfolding later_of
newest key [] known = known
newest key ((timestamp, k) ∷ more) known =
    newest key more (if host_port_eq k key then some (later_of timestamp known) else known)

max_self : (a : ℤ) → max_ℤ a a ≡ a
max_self a = ground arith

max_zero : (a b : ℤ) → pos 0 ≤ℤ a → max_ℤ a (if eq_ℤ b (pos 0) then a else b) ≡ max_ℤ a b
max_zero (pos n) (pos m) h = ground arith
max_zero (pos n) (negsuc m) h = ground arith
max_zero (negsuc n) b h = absurd (omega arith)

-- Time 0 counts as unknown in the source, which makes no difference to a time that is not negative.
added_time :
    (key : HostPort) (timestamp : ℤ) (d : Dict HostPort ℤ)
    → pos 0 ≤ℤ timestamp
    → max_ℤ timestamp (get_or_else key timestamp d) ≡ later_of timestamp (lookup key d)
unfolding get_or_else later_of
added_time key timestamp d h = elim (Option-cases (lookup key d)) [
  | inl e ↦ rw (get_or_else, e) (max_self timestamp)
  | inr (old, e) ↦ rw (get_or_else, e) (max_zero timestamp old h)
]

add_address_lem :
    (key k : HostPort) (timestamp : ℤ) (db : AddressDb)
    → pos 0 ≤ℤ timestamp
    → lookup key (add_address k timestamp db).addresses ≡ (
        if host_port_eq k key
        then some (later_of timestamp (lookup key db.addresses))
        else lookup key db.addresses)
unfolding add_address
add_address_lem key k timestamp db h =
    lookup-put k key _ db.addresses ∙ elim (Bool-cases (host_port_eq k key)) [
      | inl e ↦ rw e (
          ap some (
            ap (λ j. max_ℤ timestamp (get_or_else j timestamp db.addresses))
              ((host_port_eq_iff k key).0 e)
            ∙ added_time key timestamp db.addresses h))
      | inr e ↦ rw e refl
    ]

-- After an addr message each address has the newest of the times that it had before and that the
-- message gives it, when those are not negative; an address in neither is not in the data base.
pub add_addresses_lem :
    (key : HostPort) (entries : List (ℤ × HostPort)) (db : AddressDb)
    → All (λ entry. pos 0 ≤ℤ entry.0) entries
    → lookup key (add_addresses entries db).addresses ≡ newest key entries (lookup key db.addresses)
unfolding add_addresses newest
add_addresses_lem key [] db h = refl
add_addresses_lem key ((timestamp, k) ∷ more) db h =
    add_addresses_lem key more (add_address k timestamp db) h.1
    ∙ ap (newest key more) (add_address_lem key k timestamp db h.0)

refused_unknown :
    (key : HostPort) (db : AddressDb) (file : Option (List ℕ))
    → lookup key db.addresses ≡ none
    → connect_to_remote key refused (db, file) ≡ err key_error
unfolding connect_to_remote remove_address
refused_unknown key db file e = rw (connect_to_remote, remove_address, e) refl

refused_known :
    (key : HostPort) (db : AddressDb) (file : Option (List ℕ)) {old : ℤ}
    → lookup key db.addresses ≡ some old
    → (file1 : Option (List ℕ)) × (connect_to_remote key refused (db, file)
        ≡ ok (record db { addresses = remove key db.addresses }, file1))
unfolding connect_to_remote remove_address
refused_known key db file e = (
  save (record db { addresses = remove key db.addresses }) file,
  rw (connect_to_remote, remove_address, e) refl,
)

-- Two tasks that drew the same address and both fail to connect: the second one's removal raises
-- KeyError.
pub refused_twice :
    (key : HostPort) (db db1 : AddressDb) (file file1 : Option (List ℕ))
    → connect_to_remote key refused (db, file) ≡ ok (db1, file1)
    → connect_to_remote key refused (db1, file1) ≡ err key_error
refused_twice key db db1 file file1 h = elim (Option-cases (lookup key db.addresses)) [
  | inl e ↦ absurd (err_ok (sym (refused_unknown key db file e) ∙ h))
  | inr (old, e) ↦
      let (file2, k) = refused_known key db file e in
      refused_unknown key db1 file1 (
        ap (λ s. lookup key (s.0).addresses) (sym (ok_inj (sym k ∙ h)))
        ∙ lookup-remove key key db.addresses
        ∙ rw (beq_self key) refl)
]
  where
    err_ok : {R : Type 0} {r : R} → err key_error ≡ ok r → ⊥
    err_ok e = cc

    ok_inj : {p q : AddressDb × Option (List ℕ)} → ok p ≡ ok q → p ≡ q
    ok_inj e = cc
