-- ===== src/TwoLevelDict/Reads.antt =====
-- The reads of a TwoLevelDict.
use pycoinnet.Prelude.{
  ◌≡◌, ◌≢◌, refl, ◌⊎◌, inl, inr, Option, some, none, Option-cases, Eq, ok, err, key_error, arith,
}
use pycoinnet.Dict.{lookup, put, remove, lookup-put, lookup-remove, beq_self}
use pycoinnet.TwoLevelDict.{TwoLevelDict, set_item, get_item, delete_item, rotate}

module _ {ℓ} {K V : Type ℓ} ⦃e : Eq K⦄ where
  -- The value of a key: that of the first level, or that of the second.
  unfoldable pub value_at : TwoLevelDict K V → K → Option V
  value_at d k = elim (lookup k d.dict) [ some v ↦ some v | none ↦ lookup k d.old_dict ]

  -- No key is in both levels.
  abbrev pub AreDisjoint : TwoLevelDict K V → Type ℓ
  AreDisjoint d = (k : K) (v w : V) → lookup k d.dict ≡ some v → lookup k d.old_dict ≢ some w

  module _ (d : TwoLevelDict K V) (key : K) where
    only_old : (w : V) → AreDisjoint d → lookup key d.old_dict ≡ some w → lookup key d.dict ≡ none
    only_old w disjoint hit = elim (Option-cases (lookup key d.dict)) [
      | inl absent ↦ absent
      | inr (v, found) ↦ absurd (disjoint key v w found hit)
    ]

    -- Where no key is in both levels, a read returns the value of the key or raises KeyError, it
    -- leaves the value of every key as it was, and no key is in both levels after it.
    pub get_item_lem :
        AreDisjoint d
        → ((v : V) × (d' : TwoLevelDict K V) × (value_at d key ≡ some v)
            × (get_item key d ≡ ok (v, d'))
            × ((k : K) → value_at d' k ≡ value_at d k)
            × AreDisjoint d'
            × (lookup key d'.dict ≡ some v))
          ⊎ ((value_at d key ≡ none) × (get_item key d ≡ err key_error))
    unfolding get_item value_at
    get_item_lem disjoint = elim (Option-cases (lookup key d.old_dict)) [
      | inl miss ↦ elim (Option-cases (lookup key d.dict)) [
        | inl absent ↦ inr (ground arith, ground arith)
        | inr (v, found) ↦ inl (v, d, ground arith, ground arith, λ k. refl, disjoint, found)
      ]
      | inr (v, hit) ↦
          let d' : TwoLevelDict K V = record {
            dict = put key v d.dict;
            old_dict = remove key d.old_dict;
          } in
          let absent = only_old v disjoint hit in
          let placed = lookup-put key key v d.dict in
          inl (
            v,
            d',
            ground (arith, absent),
            ground (arith, beq_self key, placed),
            λ k. ground (
              arith,
              absent,
              e.beq_iff key k,
              lookup-put key k v d.dict,
              lookup-remove key k d.old_dict,
            ),
            λ k x y. ground (
              arith,
              disjoint k x y,
              e.beq_iff key k,
              lookup-put key k v d.dict,
              lookup-remove key k d.old_dict,
            ),
            ground (arith, beq_self key, placed),
          )
    ]

    -- A write to a key that is still in the second level does not show: the next read returns
    -- the old value, and it overwrites the new one.
    pub get_item-set_item_stale :
        (old new : V)
        → lookup key d.old_dict ≡ some old
        → (d' : TwoLevelDict K V) × (get_item key (set_item key new d) ≡ ok (old, d'))
          × (value_at d' key ≡ some old)
    unfolding get_item set_item value_at
    get_item-set_item_stale old new hit = (
      record { dict = put key old (put key new d.dict); old_dict = remove key d.old_dict },
      ground (arith, beq_self key, lookup-put key key old (put key new d.dict)),
      ground (arith, beq_self key, lookup-put key key old (put key new d.dict)),
    )

    -- Any other write is what the next read returns.
    pub get_item-set_item :
        (new : V)
        → lookup key d.old_dict ≡ none
        → (d' : TwoLevelDict K V) × (get_item key (set_item key new d) ≡ ok (new, d'))
    unfolding get_item set_item
    get_item-set_item new miss =
        (set_item key new d, ground (arith, beq_self key, lookup-put key key new d.dict))

    -- A deleted key is gone from both levels, whether it was there or not, and every other key
    -- keeps its value.
    pub delete_item_lem :
        (get_item key (delete_item key d) ≡ err key_error)
        × ((k : K) → key ≢ k → value_at (delete_item key d) k ≡ value_at d k)
    unfolding get_item delete_item value_at
    delete_item_lem = (
      ground (arith, beq_self key, lookup-remove key key d.dict, lookup-remove key key d.old_dict),
      λ k ne.
          ground
            (arith, e.beq_iff key k, lookup-remove key k d.dict, lookup-remove key k d.old_dict),
    )

    read_is_touched :
        {v : V} {d' : TwoLevelDict K V} → get_item key d ≡ ok (v, d') → lookup key d'.dict ≡ some v
    unfolding get_item
    read_is_touched h = ground arith

    -- A key that was read just before a `rotate` outlives it, with its value; a second `rotate`
    -- with no read or write in between drops every key.
    pub rotate_lem :
        {v : V} {d' : TwoLevelDict K V}
        → get_item key d ≡ ok (v, d')
        → (value_at (rotate d') key ≡ some v)
          × ((k : K) → get_item k (rotate (rotate d')) ≡ err key_error)
    unfolding get_item rotate value_at lookup
    rotate_lem {v} {d'} h = (read_is_touched h, λ k. refl)
