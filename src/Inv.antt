-- ===== src/Inv.antt =====
-- pycoinnet/InvItem.py: the name of a transaction or a block.
use pycoinnet.Prelude.{
  ℕ, ◌==◌, ==_iff, ◌≡◌, refl, true, Bool, ◌&&◌, ◌↔◌, ap, ◌∙◌, arith, Bytes, bytes_eq, bytes_eq_iff,
  Eq, Result, ok, ◌>>=◌,
}

pub record InvItem : Type 0 where
  pub item_type : ℕ
  pub the_data : Bytes

abbrev pub item_type_tx : ℕ
item_type_tx = 1

abbrev pub item_type_block : ℕ
item_type_block = 2

abbrev pub item_type_merkleblock : ℕ
item_type_merkleblock = 3

-- `__eq__` between two InvItem objects.
abbrev pub inv_item_eq : InvItem → InvItem → Bool
inv_item_eq a b = (a.item_type == b.item_type) && bytes_eq a.the_data b.the_data

abbrev pub item_of : ℕ → Bytes → InvItem
item_of item_type the_data = record { item_type = item_type; the_data = the_data }

pub inv_item_eq_iff : (a b : InvItem) → (inv_item_eq a b ≡ true) ↔ (a ≡ b)
inv_item_eq_iff a b = (to_eq, of_eq)
  where
    to_eq : inv_item_eq a b ≡ true → a ≡ b
    to_eq e =
        ap (λ n. item_of n a.the_data) ((==_iff a.item_type b.item_type).0 (ground arith))
        ∙ ap (item_of b.item_type) ((bytes_eq_iff a.the_data b.the_data).0 (ground arith))

    of_eq : a ≡ b → inv_item_eq a b ≡ true
    of_eq e = rw e (
        ground (
          arith,
          (==_iff b.item_type b.item_type).1 refl,
          (bytes_eq_iff b.the_data b.the_data).1 refl,
        ))

instance abbrev pub inv_item_key : Eq InvItem
inv_item_key = record { beq = inv_item_eq; beq_iff = inv_item_eq_iff }

-- `stream_struct("L#", ...)` and `parse_struct("L#", f)` are pycoin's.
module _ (stream_struct : ℕ → Bytes → Result Bytes) where
  unfoldable pub stream : InvItem → Result Bytes
  stream i = stream_struct i.item_type i.the_data

module _ (parse_struct : Bytes → Result (ℕ × Bytes)) where
  unfoldable pub parse : Bytes → Result InvItem
  parse f = do (item_type, the_data) ← parse_struct f; ok (item_of item_type the_data)
