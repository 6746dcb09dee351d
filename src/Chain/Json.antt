-- ===== src/Chain/Json.antt =====
-- `as_json` and `from_json` of BlockChainView. JSON and the texts of hashes are the library's and
-- pycoin's, and parameters.
use mathlib.Core.Path.{subst}
use pycoinnet.Prelude.{
  In, Option-cases, inl, inr, none, some, bytes_key, ℕ, ◌≡◌, refl, sym, ap, ◌∙◌, List, [], ◌∷◌, map,
  Bytes, Result, ok, ◌>>=◌, ℤ,
}
use pycoinnet.Chain.{Node, View, set_tuples}
use pycoinnet.Chain.Index.{view_of, set_tuples-Ascending, IsConsistent, view_of-IsConsistent}
use pycoinnet.Dict.{lookup}

-- A list of the three elements of a tuple, with the hash as a text.
abbrev pub Row : Type 0
Row = ℤ × Bytes × ℕ

-- The index of a hash is the same in consistent views with the same tuples.
same_index :
    (v w : View)
    → w.node_tuples ≡ v.node_tuples
    → IsConsistent v
    → IsConsistent w
    → (h : Bytes) → lookup h w.hash_to_index ≡ lookup h v.hash_to_index
same_index v w same c d h = elim (Option-cases (lookup h v.hash_to_index)) [
  | inr (i, e) ↦
      (let (n, k, p, q) = c.known h i e in
        found v w d i n p q (subst (λ ns. In n ns) (sym same) k) ∙ sym e)
  | inl e ↦ elim (Option-cases (lookup h w.hash_to_index)) [
    | inl f ↦ f ∙ sym e
    | inr (i, f) ↦
        (let (n, k, p, q) = d.known h i f in
          absurd (none_some (sym e ∙ found w v c i n p q (subst (λ ns. In n ns) same k))))
  ]
]
  where
    found :
        (v w : View)
        → IsConsistent w
        → (i : ℤ) (n : Node) → n.hash ≡ h
        → n.index ≡ i
        → In n w.node_tuples
        → lookup h w.hash_to_index ≡ some i
    found v w d i n p q k = ap (λ x. lookup x w.hash_to_index) (sym p) ∙ d.recorded n k ∙ ap some q

    none_some : {i : ℤ} → none ≡ some i → ⊥
    none_some e = cc

module _ {Text : Type 0} (dumps : List Row → Text) (b2h_rev : Bytes → Bytes) where
  unfoldable pub as_json : View → Text
  as_json v = dumps (map (λ t. (t.index, b2h_rev t.hash, t.work)) v.node_tuples)

module _ (h2b_rev : Bytes → Result Bytes) where
  unfoldable pub from_tuple : Row → Result Node
  from_tuple (index, text, work) = do
    hash ← h2b_rev text
    ok (record { index = index; hash = hash; work = work })

  unfoldable pub from_tuples : List Row → Result (List Node)
  unfolding from_tuple
  from_tuples [] = ok []
  from_tuples (t ∷ ts) = do node ← from_tuple t; nodes ← from_tuples ts; ok (node ∷ nodes)

  unfoldable pub from_json : {Text : Type 0} → (Text → Result (List Row)) → Text → Result View
  unfolding from_tuples
  from_json loads the_json = do ts ← loads the_json; nodes ← from_tuples ts; ok (set_tuples nodes)

module _ {Text : Type 0} (dumps : List Row → Text) (loads : Text → Result (List Row))
    (b2h_rev : Bytes → Bytes) (h2b_rev : Bytes → Result Bytes) where
  from_tuples-map :
      (ns : List Node)
      → ((n : Node) → In n ns → h2b_rev (b2h_rev n.hash) ≡ ok n.hash)
      → from_tuples h2b_rev (map (λ t. (t.index, b2h_rev t.hash, t.work)) ns) ≡ ok ns
  unfolding from_tuples from_tuple
  from_tuples-map [] back = refl
  from_tuples-map (n ∷ ns) back =
      rw (from_tuples, from_tuple, back n (inl refl), from_tuples-map ns (λ m k. back m (inr k)))
        refl

  -- What a view writes is read back as a view with the same tuples, which is consistent and knows the
  -- same hashes with the same indices, if the view is consistent, and JSON and the texts of its hashes
  -- are read back as they were written.
  pub from_json-as_json :
      (v : View)
      → IsConsistent v
      → ((rows : List Row) → loads (dumps rows) ≡ ok rows)
      → ((n : Node) → In n v.node_tuples → h2b_rev (b2h_rev n.hash) ≡ ok n.hash)
      → (w : View) × (from_json h2b_rev loads (as_json dumps b2h_rev v) ≡ ok w)
        × (w.node_tuples ≡ v.node_tuples)
        × IsConsistent w
        × ((h : Bytes) → lookup h w.hash_to_index ≡ lookup h v.hash_to_index)
  unfolding from_json as_json
  from_json-as_json v c json_back back =
      let w = view_of v.node_tuples in
      let d : IsConsistent w = view_of-IsConsistent v.node_tuples c.ascending c.distinct in
      (
        w,
        rw
            (
              from_json,
              as_json,
              json_back (map (λ t. (t.index, b2h_rev t.hash, t.work)) v.node_tuples),
              from_tuples-map v.node_tuples back,
            )
            (ap ok (set_tuples-Ascending v.node_tuples c.ascending)),
        refl,
        d,
        λ h. same_index v w refl c d h,
      )
