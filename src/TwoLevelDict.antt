-- ===== src/TwoLevelDict.antt =====
-- pycoinnet/util/TwoLevelDict.py: a dict in two levels, where `rotate` drops what was not touched.
pub mod Reads
pub mod Keys
mod Tests
use pycoinnet.Prelude.{
  ℕ, ◌+◌, ◌≡◌, Option, some, none, List, [], ◌++◌, map, Eq, Result, ok, err, key_error, length,
}
use pycoinnet.Dict.{Dict, lookup, put, remove}

pub record TwoLevelDict {ℓ κ} (K : Type ℓ) (V : Type κ) : Type (ℓ ⊔ κ) where
  pub dict : Dict K V
  pub old_dict : Dict K V

module _ {ℓ} {K V : Type ℓ} ⦃e : Eq K⦄ where
  unfoldable pub set_item : K → V → TwoLevelDict K V → TwoLevelDict K V
  set_item key v d = record d { dict = put key v d.dict }

  -- `self.dict.__getitem__(key)`, beside the object as the method leaves it.
  unfoldable pub read_first : K → TwoLevelDict K V → Result (V × TwoLevelDict K V)
  read_first key d = elim (lookup key d.dict) [ none ↦ err key_error | some v ↦ ok (v, d) ]

  unfoldable pub get_item : K → TwoLevelDict K V → Result (V × TwoLevelDict K V)
  unfolding read_first
  get_item key d = elim (lookup key d.old_dict) [
    | none ↦ read_first key d
    | some v ↦ read_first key (record { dict = put key v d.dict; old_dict = remove key d.old_dict })
  ]

  -- `if key in d: d.__delitem__(key)` for both levels.
  unfoldable pub delete_item : K → TwoLevelDict K V → TwoLevelDict K V
  delete_item key d = record { dict = remove key d.dict; old_dict = remove key d.old_dict }

  unfoldable pub rotate : TwoLevelDict K V → TwoLevelDict K V
  rotate d = record { dict = []; old_dict = d.dict }

module _ {ℓ} {K V : Type ℓ} where
  unfoldable pub len : TwoLevelDict K V → ℕ
  len d = length d.dict + length d.old_dict

  unfoldable pub iter : TwoLevelDict K V → List K
  iter d = map (λ p. p.0) d.dict ++ map (λ p. p.0) d.old_dict
