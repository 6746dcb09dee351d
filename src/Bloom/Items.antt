-- ===== src/Bloom/Items.antt =====
-- Items of the filter of pycoinnet/bloom.py, and the bits that they set.
use native.Mathlib.Nat.{mod-mod, mod-lt}
use pycoinnet.Prelude.{
  ℕ, suc, zero, ◌+◌, ◌*◌, ◌%◌, ◌≤◌, ◌<◌, ◌≡◌, ◌↔◌, ◌⊎◌, inl, inr, refl, sym, ◌∙◌, ap, arith, Bool,
  true, ==_iff, value_error, List, [], ◌∷◌, Bytes, In, Result, ok, err, ◌>>=◌, All, replicate,
  length-replicate,
}
use mathlib.Core.Path.{subst}
use native.Mathlib.Decide.{dec_lt, ℕ_discrete}
use pycoinnet.Bloom.{BloomFilter, new_filter, check_bit, item_hash, add_hashes, add_item}
use pycoinnet.Bloom.Filter.{IsWellFormed, IsGrown, bit, reduce_lem, set_bit_lem, check_bit_lem}

-- The position is one of an item's, for the hash indices from `i` on.
abbrev pub IsHit : BloomFilter → Bytes → ℕ → ℕ → ℕ → Type 0
IsHit f item i left w = (k : ℕ) × (i ≤ k) × (k < i + left) × (item_hash item k f % f.bit_count ≡ w)

-- The test that a peer makes for an item: all its bits are set.
abbrev pub IsMatch : Bytes → BloomFilter → Type 0
IsMatch item f = (k : ℕ) → k < f.hash_function_count → check_bit (item_hash item k f) f ≡ ok true

same_hash :
    (item : Bytes) (k : ℕ) {f f' : BloomFilter}
    → IsGrown f f'
    → item_hash item k f' ≡ item_hash item k f
unfolding item_hash
same_hash item k g = rw g.same_tweak refl

same_position :
    (item : Bytes) (k : ℕ) {f f' : BloomFilter}
    → IsGrown f f'
    → item_hash item k f' % f'.bit_count ≡ item_hash item k f % f.bit_count
same_position item k g = rw (same_hash item k g, g.same_count) refl

abbrev pub IsAdded : BloomFilter → BloomFilter → (ℕ → Type 0) → Type 0
IsAdded f f' P =
    IsWellFormed f'
    × IsGrown f f'
    × ((w : ℕ) → w < f.bit_count → (bit f' w ≡ 1) ↔ ((bit f w ≡ 1) ⊎ P w))

first_or_later :
    (f f1 f' : BloomFilter) (item : Bytes) (left i w q : ℕ)
    → IsGrown f f1
    → q ≡ item_hash item i f % f.bit_count
    → (bit f1 w ≡ 1) ↔ ((bit f w ≡ 1) ⊎ (q ≡ w))
    → (bit f' w ≡ 1) ↔ ((bit f1 w ≡ 1) ⊎ IsHit f1 item (i + 1) left w)
    → (bit f' w ≡ 1) ↔ ((bit f w ≡ 1) ⊎ IsHit f item i (suc left) w)
first_or_later f f1 f' item left i w q g eq one later = (
  (λ e. elim (later.0 e) [
    | inr (k, a, b, h) ↦ inr (k, omega arith, omega arith, sym (same_position item k g) ∙ h)
    | inl e1 ↦ elim (one.0 e1) [
      | inl e0 ↦ inl e0
      | inr h ↦ inr (i, omega arith, omega arith, sym eq ∙ h)
    ]
  ]),
  (λ o. elim o [
    | inl e0 ↦ later.1 (inl (one.1 (inl e0)))
    | inr (k, a, b, h) ↦ elim (ℕ_discrete i k) [
      | yes e ↦
          later.1 (inl (one.1 (inr (eq ∙ (ap (λ t. item_hash item t f % f.bit_count) e ∙ h)))))
      | no ne ↦ later.1 (inr (k, omega arith, omega arith, same_position item k g ∙ h))
    ]
  ]),
)

add_hashes_lem :
    (left i : ℕ) (item : Bytes) (f : BloomFilter)
    → IsWellFormed f
    → (f' : BloomFilter) × (add_hashes left i item f ≡ ok f') × IsAdded f f' (IsHit f item i left)
unfolding add_hashes
add_hashes_lem zero i item f wf = (
  f,
  refl,
  (
    wf,
    record { same_count = refl; same_functions = refl; same_tweak = refl },
    λ w h. ((λ e. inl e), (λ o. elim o [ inl e ↦ e | inr (k, a, b, e) ↦ absurd (omega arith) ])),
  ),
)
add_hashes_lem (suc left) i item f wf =
    let v = item_hash item i f % f.bit_count in
    let (f1, e1, wf1, g1, one) = set_bit_lem f wf v in
    let (f', e2, (wf2, g2, later)) = add_hashes_lem left (i + 1) item f1 wf1 in
    (
      f',
      rw (reduce_lem f wf (item_hash item i f), e1) e2,
      (
        wf2,
        record {
          same_count = g2.same_count ∙ g1.same_count;
          same_functions = g2.same_functions ∙ g1.same_functions;
          same_tweak = g2.same_tweak ∙ g1.same_tweak;
        },
        λ w h.
            first_or_later f f1 f' item left i w (v % f.bit_count) g1
              (mod-mod (item_hash item i f) f.bit_count) (one w h)
              (later w (omega (arith, g1.same_count))),
      ),
    )

-- Adding an item to a well-formed filter never raises, and it sets exactly the bits of the item's
-- hashes, one for each hash function.
pub add_item_lem :
    (item : Bytes) (f : BloomFilter)
    → IsWellFormed f
    → (f' : BloomFilter) × (add_item item f ≡ ok f')
      × IsAdded f f' (IsHit f item 0 f.hash_function_count)
unfolding add_item
add_item_lem item f wf = add_hashes_lem f.hash_function_count 0 item f wf

unfoldable pub add_items : List Bytes → BloomFilter → Result BloomFilter
add_items [] f = ok f
add_items (item ∷ items) f = do f' ← add_item item f; add_items items f'

bits-IsMatch :
    (item : Bytes) (f : BloomFilter)
    → IsWellFormed f
    → ((k : ℕ) → k < f.hash_function_count → bit f (item_hash item k f % f.bit_count) ≡ 1)
    → IsMatch item f
bits-IsMatch item f wf h k less =
    check_bit_lem f wf (item_hash item k f) ∙ ap ok ((==_iff _ _).1 (h k less))

IsMatch-bits :
    (item : Bytes) (f : BloomFilter)
    → IsWellFormed f
    → IsMatch item f
    → (k : ℕ) → k < f.hash_function_count
    → bit f (item_hash item k f % f.bit_count) ≡ 1
IsMatch-bits item f wf m k less =
    (==_iff _ _).0 (ok_inj (sym (check_bit_lem f wf (item_hash item k f)) ∙ m k less))
  where
    ok_inj : {a b : Bool} → ok a ≡ ok b → a ≡ b
    ok_inj e = cc

module _ (f f' : BloomFilter) (wf : IsWellFormed f) {P : ℕ → Type 0} (added : IsAdded f f' P) where
  -- Bits are never cleared.
  kept-IsMatch : (item : Bytes) → IsMatch item f → IsMatch item f'
  kept-IsMatch item m =
      let (wf', g, bits) = added in
      bits-IsMatch item f' wf' (λ k less. rw (same_position item k g) (
        (bits (item_hash item k f % f.bit_count) (mod-lt (item_hash item k f) wf.some_bits)).1
          (inl (IsMatch-bits item f wf m k (omega (arith, g.same_functions))))))

new-IsMatch :
    (item : Bytes) (f f' : BloomFilter)
    → IsWellFormed f
    → IsAdded f f' (IsHit f item 0 f.hash_function_count)
    → IsMatch item f'
new-IsMatch item f f' wf added =
    let (wf', g, bits) = added in
    bits-IsMatch item f' wf' (λ k less. rw (same_position item k g) (
      (bits (item_hash item k f % f.bit_count) (mod-lt (item_hash item k f) wf.some_bits)).1
        (inr (k, omega arith, omega (arith, g.same_functions), refl))))

add_items_kept :
    (items : List Bytes) (item : Bytes) (f : BloomFilter)
    → IsWellFormed f
    → IsMatch item f
    → {f' : BloomFilter} → add_items items f ≡ ok f'
    → IsMatch item f'
unfolding add_items
add_items_kept [] item f wf m e = subst (IsMatch item) (ok_inj e) m
  where
    ok_inj : {a b : BloomFilter} → ok a ≡ ok b → a ≡ b
    ok_inj e = cc
add_items_kept (x ∷ items) item f wf m {f'} e =
    let (f1, e1, added) = add_item_lem x f wf in
    add_items_kept items item f1 added.0 (kept-IsMatch f f1 wf added item m)
      (sym (ap (λ r. r >>= add_items items) e1) ∙ e)

-- No false negatives: items added to a well-formed filter, in any number and order, all match it
-- in the end, and adding them never raises.
pub add_items-IsMatch :
    (items : List Bytes) (f : BloomFilter)
    → IsWellFormed f
    → (f' : BloomFilter) × (add_items items f ≡ ok f')
      × IsWellFormed f'
      × ((item : Bytes) → In item items → IsMatch item f')
unfolding add_items
add_items-IsMatch [] f wf = (f, refl, wf, λ item k. elim k [ ])
add_items-IsMatch (x ∷ items) f wf =
    let (f1, e1, added) = add_item_lem x f wf in
    let (f', e2, wf', all_match) = add_items-IsMatch items f1 added.0 in
    (
      f',
      rw e1 e2,
      wf',
      λ item k. elim k [
        | inl e ↦
            add_items_kept items item f1 added.0
              (subst (λ t. IsMatch t f1) (sym e) (new-IsMatch x f f1 wf added)) e2
        | inr later ↦ all_match item later
      ],
    )

All-replicate : (n : ℕ) → All (λ (b : ℕ). b < 256) (replicate n 0)
All-replicate zero = tt
All-replicate (suc n) = (omega arith, All-replicate n)

-- A new filter of 1 to 36000 bytes is well formed; beyond that size ValueError is raised.
pub new_filter_lem :
    (size count tweak : ℕ)
    → 0 < size
    → ((f : BloomFilter) × (new_filter size count tweak ≡ ok f) × IsWellFormed f × (size ≤ 36000))
      ⊎ ((new_filter size count tweak ≡ err value_error) × (36000 < size))
unfolding new_filter
new_filter_lem size count tweak h =
    let no_bits : BloomFilter = record {
      filter_bytes = replicate size 0;
      bit_count = 8 * size;
      hash_function_count = count;
      tweak = tweak;
    } in
    elim (dec_lt 36000 size) [
      | yes big ↦ inr (ground arith, big)
      | no fits ↦ inl (
        no_bits,
        ground arith,
        record {
          counted = omega (arith, length-replicate {A = ℕ} size 0);
          bytes = All-replicate size;
          some_bits = omega arith;
        },
        omega arith,
      )
    ]
