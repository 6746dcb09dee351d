-- ===== src/Chain/Reorg.antt =====
-- The outcomes of `do_headers_improve_path`, and the view that it leaves.
use pycoinnet.Prelude.{
  index_error, ◌≢◌, ℕ, ◌+◌, ◌≤◌, ◌<◌, ◌≡◌, ◌≢◌, refl, ◌⊎◌, inl, inr, Option, some, none, List, [],
  ◌∷◌, ◌++◌, arith, All, filter, All-filter, All-append, Bytes, bytes_eq, Bool, ok, err,
  value_error, ℤ, pos, ◌+ℤ◌, ltb_ℤ, length, dec_lt, ℕ_discrete, if◌then◌else◌,
}
use pycoinnet.Chain.{
  Node, View, Header, hash_initial_block, genesis_tuple, last_block_tuple, parent_of,
  do_headers_improve_path,
}
use pycoinnet.Chain.Order.{Ascending}
use pycoinnet.Chain.Index.{
  DistinctHashes, view_of, IsConsistent, view_of-IsConsistent, tuple_for_hash_total,
}
use pycoinnet.Chain.Improve.{
  Linked, Linked-cases, chain_tuples, reorganised, reorganised-Ascending, kept_below, last_work,
  last_or-append, improve_unknown, improve_broken, improve_too_short, improve_longer,
}

-- What becomes of headers whose first one extends the tuple `p`.
module _ (h : Header) (hs : List Header) (v : View) (p : Node) where
  abbrev pub Improved : Type 0
  Improved =
      Linked p.hash (h ∷ hs)
      × ((last_block_tuple v).work < p.work + length (h ∷ hs))
      × (do_headers_improve_path (h ∷ hs) v
          ≡ ok (some (p.index +ℤ pos 1), view_of (reorganised p (h ∷ hs) v)))

  abbrev pub TooShort : Type 0
  TooShort =
      Linked p.hash (h ∷ hs)
      × (p.work + length (h ∷ hs) ≤ (last_block_tuple v).work)
      × (do_headers_improve_path (h ∷ hs) v ≡ ok (none, v))

  abbrev pub Broken : Type 0
  Broken = (¬ Linked p.hash (h ∷ hs)) × (do_headers_improve_path (h ∷ hs) v ≡ err value_error)

  -- Over an ascending view, where the first header extends a known tuple: headers that link up
  -- and give more work than the tip replace all tuples from the first new index on by their own;
  -- headers that link up and give no more work change nothing and give False; headers that do
  -- not link up raise ValueError.
  pub improve_outcomes :
      Ascending v.node_tuples → parent_of h v ≡ ok (some p) → Improved ⊎ TooShort ⊎ Broken
  improve_outcomes a parent = elim (Linked-cases p.hash (h ∷ hs)) [
    | inr broken ↦ inr (inr (broken, improve_broken h hs v p parent broken))
    | inl l ↦ elim (dec_lt (last_block_tuple v).work (p.work + length (h ∷ hs))) [
      | yes lt ↦ inl (l, lt, improve_longer h hs v p parent a l lt)
      | no ge ↦ inr (inl (l, omega arith, improve_too_short h hs v p parent l (omega arith)))
    ]
  ]

-- The tip after a reorganisation has the work of the tuple extended and of all the headers.
pub tip_work :
    (h : Header) (hs : List Header) (v : View) (p : Node)
    → (last_block_tuple (view_of (reorganised p (h ∷ hs) v))).work ≡ p.work + length (h ∷ hs)
unfolding last_block_tuple reorganised chain_tuples
tip_work h hs v p =
    let start = p.index +ℤ pos 1 in
    let first : Node = record { index = start; hash = h.hash; work = p.work + 1 } in
    rw
      (last_or-append genesis_tuple first (kept_below start v.node_tuples)
        (chain_tuples (start +ℤ pos 1) (p.work + 1) hs))
      (omega (arith, last_work (start +ℤ pos 1) (p.work + 1) hs first refl))

-- The headers bring hashes that differ from one another and from those of the view.
abbrev pub AreFresh : List Node → List Header → Type 0
AreFresh ns [] = Unit
AreFresh ns (h ∷ hs) =
    All (λ n. n.hash ≢ h.hash) ns × All (λ x. h.hash ≢ x.hash) hs × AreFresh ns hs

chain_tuples-differ :
    (hash : Bytes) (next : ℤ) (work : ℕ) (hs : List Header)
    → All (λ x. hash ≢ x.hash) hs
    → All (λ m. hash ≢ m.hash) (chain_tuples next work hs)
unfolding chain_tuples
chain_tuples-differ hash next work [] a = tt
chain_tuples-differ hash next work (x ∷ xs) a =
    (a.0, chain_tuples-differ hash (next +ℤ pos 1) (work + 1) xs a.1)

chain_tuples-DistinctHashes :
    (ns : List Node) (next : ℤ) (work : ℕ) (hs : List Header)
    → AreFresh ns hs
    → DistinctHashes (chain_tuples next work hs)
unfolding chain_tuples
chain_tuples-DistinctHashes ns next work [] f = tt
chain_tuples-DistinctHashes ns next work (x ∷ xs) f = (
  chain_tuples-differ x.hash (next +ℤ pos 1) (work + 1) xs f.1,
  chain_tuples-DistinctHashes ns (next +ℤ pos 1) (work + 1) xs f.2,
)

AreFresh-tail :
    (n : Node) (ns : List Node) (hs : List Header)
    → AreFresh (n ∷ ns) hs
    → All (λ x. n.hash ≢ x.hash) hs × AreFresh ns hs
AreFresh-tail n ns [] f = (tt, tt)
AreFresh-tail n ns (x ∷ xs) f =
    let (a, b) = AreFresh-tail n ns xs f.2 in ((f.0.0, a), (f.0.1, f.1, b))

DistinctHashes-append :
    (ns : List Node) (next : ℤ) (work : ℕ) (hs : List Header) (p : Node → Bool)
    → DistinctHashes ns
    → AreFresh ns hs
    → DistinctHashes (filter p ns ++ chain_tuples next work hs)
DistinctHashes-append [] next work hs p d f = chain_tuples-DistinctHashes [] next work hs f
DistinctHashes-append (n ∷ ns) next work hs p d f =
    let (a, b) = AreFresh-tail n ns hs f in
    ground (
      arith,
      DistinctHashes-append ns next work hs p d.1 b,
      All-append (λ m. n.hash ≢ m.hash) (filter p ns) (chain_tuples next work hs)
          (All-filter (λ m. n.hash ≢ m.hash) p ns d.0) (chain_tuples-differ n.hash next work hs a),
    )

-- A consistent view always tells whether it has the parent: the search raises nothing.
pub parent_of_total :
    (h : Header) (v : View) → IsConsistent v → (o : Option Node) × (parent_of h v ≡ ok o)
unfolding parent_of
parent_of_total h v c =
    let (o, e) = tuple_for_hash_total v c h.previous_block_hash in
    elim (ℕ_discrete (length v.node_tuples) 0) [
      | yes empty ↦ (
        (if bytes_eq h.previous_block_hash hash_initial_block then some genesis_tuple else none),
        ground arith,
      )
      | no full ↦ (o, ground (arith, e))
    ]

-- With a header `do_headers_improve_path` returns, or it raises ValueError.
pub improve_cons_total :
    (h : Header) (hs : List Header) (v : View)
    → IsConsistent v
    → ((r : Option ℤ × View) × (do_headers_improve_path (h ∷ hs) v ≡ ok r))
      ⊎ (do_headers_improve_path (h ∷ hs) v ≡ err value_error)
improve_cons_total h hs v c = total_of (parent_of_total h v c)
  where
    outcome_of :
        (p : Node)
        → Improved h hs v p ⊎ TooShort h hs v p ⊎ Broken h hs v p
        → ((r : Option ℤ × View) × (do_headers_improve_path (h ∷ hs) v ≡ ok r))
          ⊎ (do_headers_improve_path (h ∷ hs) v ≡ err value_error)
    outcome_of p (inl i) = inl (_, i.2)
    outcome_of p (inr (inl t)) = inl (_, t.2)
    outcome_of p (inr (inr b)) = inr b.1

    total_of :
        (o : Option Node) × (parent_of h v ≡ ok o)
        → ((r : Option ℤ × View) × (do_headers_improve_path (h ∷ hs) v ≡ ok r))
          ⊎ (do_headers_improve_path (h ∷ hs) v ≡ err value_error)
    total_of (none, q) = inl (_, improve_unknown h hs v q)
    total_of (some p, q) = outcome_of p (improve_outcomes h hs v p c.ascending q)

-- From a consistent view `do_headers_improve_path` raises IndexError on an empty list of headers; on any
-- other list it returns, or it raises ValueError, and no other error leaves it.
pub improve_total :
    (headers : List Header) (v : View)
    → IsConsistent v
    → ((headers ≡ []) × (do_headers_improve_path headers v ≡ err index_error))
      ⊎ ((headers ≢ [])
          × (((r : Option ℤ × View) × (do_headers_improve_path headers v ≡ ok r))
              ⊎ (do_headers_improve_path headers v ≡ err value_error)))
unfolding do_headers_improve_path
improve_total [] v c = inl (refl, refl)
improve_total (h ∷ hs) v c = inr (λ e. absurd (cc e), improve_cons_total h hs v c)

improved_view :
    (h : Header) (hs : List Header) (v : View) (p : Node)
    → IsConsistent v
    → AreFresh v.node_tuples (h ∷ hs)
    → IsConsistent (view_of (reorganised p (h ∷ hs) v))
improved_view h hs v p c f =
    let start = p.index +ℤ pos 1 in
    view_of-IsConsistent (reorganised p (h ∷ hs) v) (reorganised-Ascending p (h ∷ hs) v c.ascending)
      (unfold reorganised in
        DistinctHashes-append v.node_tuples start p.work (h ∷ hs) (λ t. ltb_ℤ t.index start)
          c.distinct f)

-- A consistent view stays consistent, whatever the headers are, if their hashes are new.
pub improve-IsConsistent :
    (h : Header) (hs : List Header) (v : View) {r : Option ℤ} {v' : View}
    → IsConsistent v
    → AreFresh v.node_tuples (h ∷ hs)
    → do_headers_improve_path (h ∷ hs) v ≡ ok (r, v')
    → IsConsistent v'
improve-IsConsistent h hs v {r} {v'} c f e = after (parent_of_total h v c)
  where
    ok_view : {s : Option ℤ} {u : View} → do_headers_improve_path (h ∷ hs) v ≡ ok (s, u) → u ≡ v'
    ok_view q = cc

    after_known :
        (p : Node) → Improved h hs v p ⊎ TooShort h hs v p ⊎ Broken h hs v p → IsConsistent v'
    after_known p (inl i) = rw (← ok_view i.2) (improved_view h hs v p c f)
    after_known p (inr (inl t)) = rw (← ok_view t.2) c
    after_known p (inr (inr b)) = absurd (cc)

    after : (o : Option Node) × (parent_of h v ≡ ok o) → IsConsistent v'
    after (none, q) = rw (← ok_view (improve_unknown h hs v q)) c
    after (some p, q) = after_known p (improve_outcomes h hs v p c.ascending q)
