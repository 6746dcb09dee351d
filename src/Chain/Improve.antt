-- ===== src/Chain/Improve.antt =====
-- `do_headers_improve_path`: when it reorganises the view, and to what.
use pycoinnet.Prelude.{
  ℕ, ◌+◌, ◌≤◌, ◌<◌, ◌≡◌, refl, ◌⊎◌, inl, inr, some, none, List, [], ◌∷◌, ◌++◌, arith, All, filter,
  All-map, Bytes, bytes_eq, bytes_eq_iff, ok, err, value_error, ℤ, pos, ◌+ℤ◌, +ℤ_parts, ◌<ℤ◌, ltb_ℤ,
  Bool-cases, length, last_or,
}
use pycoinnet.Chain.{
  Node, View, Header, last_block_tuple, link, parent_of, do_headers_improve_path, set_tuples,
  add_tuples,
}
use pycoinnet.Chain.Order.{Ascending, StrictlyAbove, Ascending-filter, Ascending-append}
use pycoinnet.Chain.Index.{view_of, set_tuples-Ascending, add_tuples-Ascending}

-- Each header names the hash before it.
abbrev pub Linked : Bytes → List Header → Type 0
Linked h [] = Unit
Linked h (x ∷ xs) = (x.previous_block_hash ≡ h) × Linked x.hash xs

-- The tuples of headers from an index and a work on.
unfoldable pub chain_tuples : ℤ → ℕ → List Header → List Node
chain_tuples next work [] = []
chain_tuples next work (h ∷ hs) =
    record { index = next; hash = h.hash; work = work + 1 }
    ∷ chain_tuples (next +ℤ pos 1) (work + 1) hs

pub link-Linked :
    (hs : List Header) (next : ℤ) (h : Bytes) (work : ℕ)
    → Linked h hs
    → link hs next h work ≡ ok (chain_tuples next work hs, work + length hs)
unfolding link chain_tuples
link-Linked [] next h work l = ground arith
link-Linked (x ∷ xs) next h work l = ground (
  arith,
  bytes_eq_iff x.previous_block_hash h,
  link-Linked xs (next +ℤ pos 1) x.hash (work + 1) l.1,
)

-- A break in the chain raises, wherever it stands.
pub link_broken :
    (hs : List Header) (next : ℤ) (h : Bytes) (work : ℕ)
    → ¬ Linked h hs
    → link hs next h work ≡ err value_error
unfolding link
link_broken [] next h work broken = absurd (broken tt)
link_broken (x ∷ xs) next h work broken = elim (Bool-cases (bytes_eq x.previous_block_hash h)) [
  | inr e ↦ rw e
  | inl e ↦ rw (
    e,
    link_broken xs (next +ℤ pos 1) x.hash (work + 1)
        (λ l. broken ((bytes_eq_iff x.previous_block_hash h).0 e, l)),
  )
]

pub Linked-cases : (h : Bytes) (hs : List Header) → Linked h hs ⊎ (¬ Linked h hs)
Linked-cases h [] = inl tt
Linked-cases h (x ∷ xs) = elim (Bool-cases (bytes_eq x.previous_block_hash h)) [
  | inr e ↦ inr (λ l. ground (arith, bytes_eq_iff x.previous_block_hash h, l.0))
  | inl e ↦ elim (Linked-cases x.hash xs) [
    | inl l ↦ inl ((bytes_eq_iff x.previous_block_hash h).0 e, l)
    | inr broken ↦ inr (λ l. broken l.1)
  ]
]

chain_tuples-above :
    (i next : ℤ) (work : ℕ) (hs : List Header)
    → i <ℤ next
    → StrictlyAbove i (chain_tuples next work hs)
unfolding chain_tuples
chain_tuples-above i next work [] h = tt
chain_tuples-above i next work (x ∷ xs) h =
    (h, chain_tuples-above i (next +ℤ pos 1) (work + 1) xs (omega (arith, +ℤ_parts next (pos 1))))

chain_tuples-Ascending :
    (next : ℤ) (work : ℕ) (hs : List Header) → Ascending (chain_tuples next work hs)
unfolding chain_tuples
chain_tuples-Ascending next work [] = tt
chain_tuples-Ascending next work (x ∷ xs) = (
  chain_tuples-above next (next +ℤ pos 1) (work + 1) xs (omega (arith, +ℤ_parts next (pos 1))),
  chain_tuples-Ascending (next +ℤ pos 1) (work + 1) xs,
)

-- The tuples after the reorganisation: those below the first new index, then the new ones.
abbrev pub kept_below : ℤ → List Node → List Node
kept_below start = filter (λ t. ltb_ℤ t.index start)

unfoldable pub reorganised : Node → List Header → View → List Node
reorganised p hs v =
    let start = p.index +ℤ pos 1 in kept_below start v.node_tuples ++ chain_tuples start p.work hs

kept_below_bound : (start : ℤ) (ns : List Node) → All (λ n. n.index <ℤ start) (kept_below start ns)
kept_below_bound start [] = tt
kept_below_bound start (n ∷ ns) = ground (arith, kept_below_bound start ns)

pub reorganised-Ascending :
    (p : Node) (hs : List Header) (v : View)
    → Ascending v.node_tuples
    → Ascending (reorganised p hs v)
unfolding reorganised
reorganised-Ascending p hs v a =
    let start = p.index +ℤ pos 1 in
    Ascending-append (kept_below start v.node_tuples) (chain_tuples start p.work hs)
      (Ascending-filter (λ t. ltb_ℤ t.index start) v.node_tuples a)
      (chain_tuples-Ascending start p.work hs)
      (All-map (λ n. n.index <ℤ start) (λ n. StrictlyAbove n.index (chain_tuples start p.work hs))
        (λ n h. chain_tuples-above n.index start p.work hs h) (kept_below start v.node_tuples)
        (kept_below_bound start v.node_tuples))

-- The view that an improvement leads to.
extend_view :
    (p : Node) (hs : List Header) (v : View)
    → Ascending v.node_tuples
    → (let start = p.index +ℤ pos 1 in
        add_tuples (chain_tuples start p.work hs) (set_tuples (kept_below start v.node_tuples)))
      ≡ view_of (reorganised p hs v)
unfolding reorganised
extend_view p hs v a =
    let start = p.index +ℤ pos 1 in
    rw
      (set_tuples-Ascending (kept_below start v.node_tuples)
        (Ascending-filter (λ t. ltb_ℤ t.index start) v.node_tuples a))
      (add_tuples-Ascending (kept_below start v.node_tuples) (chain_tuples start p.work hs)
        (chain_tuples-Ascending start p.work hs)
        (unfold reorganised in reorganised-Ascending p hs v a))

-- The tip's work after an improvement.
pub last_work :
    (next : ℤ) (work : ℕ) (hs : List Header) (d : Node)
    → d.work ≡ work
    → (last_or d (chain_tuples next work hs)).work ≡ work + length hs
unfolding chain_tuples
last_work next work [] d e = omega arith
last_work next work (x ∷ xs) d e = omega (
  arith,
  last_work (next +ℤ pos 1) (work + 1) xs (record { index = next; hash = x.hash; work = work + 1 })
      refl,
)

pub last_or-append : (d n : Node) (xs ys : List Node) → last_or d (xs ++ n ∷ ys) ≡ last_or n ys
last_or-append d n [] ys = refl
last_or-append d n (x ∷ xs) ys = last_or-append x n xs ys

module _ (h : Header) (hs : List Header) (v : View) where
  -- Where no known block is the parent of the first header, the result is False.
  pub improve_unknown : parent_of h v ≡ ok none → do_headers_improve_path (h ∷ hs) v ≡ ok (none, v)
  unfolding do_headers_improve_path
  improve_unknown e = ground (arith, e)

  module _ (p : Node) (parent : parent_of h v ≡ ok (some p)) where
    -- Headers that do not link up raise ValueError.
    pub improve_broken :
        ¬ Linked p.hash (h ∷ hs) → do_headers_improve_path (h ∷ hs) v ≡ err value_error
    unfolding do_headers_improve_path
    improve_broken broken =
        rw (parent, link_broken (h ∷ hs) (p.index +ℤ pos 1) p.hash p.work broken)

    -- Headers that link up but give no more work than the tip has change nothing.
    pub improve_too_short :
        Linked p.hash (h ∷ hs)
        → p.work + length (h ∷ hs) ≤ (last_block_tuple v).work
        → do_headers_improve_path (h ∷ hs) v ≡ ok (none, v)
    unfolding do_headers_improve_path
    improve_too_short l le =
        rw (parent, link-Linked (h ∷ hs) (p.index +ℤ pos 1) p.hash p.work l) (ground arith)

    -- Headers that link up and give more work reorganise the view.
    pub improve_longer :
        Ascending v.node_tuples
        → Linked p.hash (h ∷ hs)
        → (last_block_tuple v).work < p.work + length (h ∷ hs)
        → do_headers_improve_path (h ∷ hs) v
          ≡ ok (some (p.index +ℤ pos 1), view_of (reorganised p (h ∷ hs) v))
    unfolding do_headers_improve_path
    improve_longer a l lt =
        rw
          (
            parent,
            link-Linked (h ∷ hs) (p.index +ℤ pos 1) p.hash p.work l,
            ← extend_view p (h ∷ hs) v a,
          )
          (ground arith)
