-- ===== src/Spv/Feed.antt =====
-- `handle_reorg` and `feed_blocks` of pycoinnet/examples/spvclient.py behind an improvement of the view.
use mathlib.Core.Path.{subst₂}
use pycoinnet.Prelude.{
  true, false, ℕ, ◌+◌, ◌≡◌, refl, ◌⊎◌, inl, inr, Bool, Option, Bool-cases, none, some, List, [],
  ◌∷◌, ◌++◌, ok, ℤ, pos, ◌+ℤ◌, In, append-In, All, All-map,
}
use pycoinnet.Chain.{Node, View, Header, parent_of, do_headers_improve_path}
use pycoinnet.Chain.Index.{IsConsistent, view_of}
use pycoinnet.Chain.Improve.{chain_tuples, kept_below, reorganised, improve_unknown}
use pycoinnet.Chain.Reorg.{Improved, TooShort, Broken, improve_outcomes, parent_of_total}
use pycoinnet.Spv.{BlockFuture, fetched, header_only, handle_reorg, feed_blocks}

All-self : (ns : List Node) → All (λ n. In n ns) ns
All-self [] = tt
All-self (n ∷ ns) =
    (inl refl, All-map (λ x. In x ns) (λ x. In x (n ∷ ns)) (λ x i. inr i) ns (All-self ns))

-- What comes out of a reorganisation for each header, from an index on: a block with that index, where a
-- tuple of the view has the index and the hash of the header. It is the block that was fetched by the
-- hash if the filter takes the header, and else the one made of the header alone.
module _ {Block : Type 0} (result : BlockFuture → Option Block) (filter_f : ℤ → Header → Bool)
    (v : View) where
  pub record IsBlockOf (next : ℤ) (h : Header) (b : Block × ℤ) : Type 0 where
    pub node : Node
    pub member : In node v.node_tuples
    pub same_hash : node.hash ≡ h.hash
    pub node_index : node.index ≡ next
    pub block_index : b.1 ≡ next
    pub is_right :
        ((filter_f next h ≡ true) × (result (fetched h.hash next) ≡ some (b.0)))
        ⊎ ((filter_f next h ≡ false) × (result (header_only h) ≡ some (b.0)))

  pub AreBlocksOf : ℤ → List Header → List (Block × ℤ) → Type 0
  AreBlocksOf next [] [] = Unit
  AreBlocksOf next [] (b ∷ bs) = ⊥
  AreBlocksOf next (h ∷ hs) [] = ⊥
  AreBlocksOf next (h ∷ hs) (b ∷ bs) = IsBlockOf next h b × AreBlocksOf (next +ℤ pos 1) hs bs

module _ {Block : Type 0} (result : BlockFuture → Option Block) (filter_f : ℤ → Header → Bool)
    (all_done : (future : BlockFuture) → (block : Block) × (result future ≡ some block)) where
  abbrev pub AllFed : View → ℤ → List Header → Type 0
  AllFed v next hs =
      AreBlocksOf result filter_f v next hs (feed_blocks result (handle_reorg filter_f next hs)).0
      × ((feed_blocks result (handle_reorg filter_f next hs)).1 ≡ [])

  fed_one :
      (v : View) (next : ℤ) (work : ℕ) (h : Header) (hs : List Header)
      → In (record { index = next; hash = h.hash; work = work + 1 }) v.node_tuples
      → AllFed v (next +ℤ pos 1) hs
      → AllFed v next (h ∷ hs)
  unfolding feed_blocks handle_reorg AreBlocksOf
  fed_one v next work h hs i (rest, left) = elim (Bool-cases (filter_f next h)) [
    | inl e ↦
        (let (block, d) = all_done (fetched h.hash next) in
          (
            rw (handle_reorg, e, feed_blocks, d) (placed block (inl (e, d)), rest),
            rw (handle_reorg, e, feed_blocks, d) left,
          ))
    | inr e ↦
        (let (block, d) = all_done (header_only h) in
          (
            rw (handle_reorg, e, feed_blocks, d) (placed block (inr (e, d)), rest),
            rw (handle_reorg, e, feed_blocks, d) left,
          ))
  ]
    where
      placed :
          (block : Block)
          → ((filter_f next h ≡ true) × (result (fetched h.hash next) ≡ some block))
            ⊎ ((filter_f next h ≡ false) × (result (header_only h) ≡ some block))
          → IsBlockOf result filter_f v next h (block, next)
      placed block right = record {
        node = record { index = next; hash = h.hash; work = work + 1 };
        member = i;
        same_hash = refl;
        node_index = refl;
        block_index = refl;
        is_right = right;
      }

  tuples-AllFed :
      (v : View) (next : ℤ) (work : ℕ) (hs : List Header)
      → All (λ n. In n v.node_tuples) (chain_tuples next work hs)
      → AllFed v next hs
  unfolding chain_tuples feed_blocks handle_reorg AreBlocksOf
  tuples-AllFed v next work [] a = (tt, refl)
  tuples-AllFed v next work (h ∷ hs) a =
      fed_one v next work h hs a.0 (tuples-AllFed v (next +ℤ pos 1) (work + 1) hs a.1)

  improved-AllFed :
      (h : Header) (hs : List Header) (v : View) (p : Node)
      → AllFed (view_of (reorganised p (h ∷ hs) v)) (p.index +ℤ pos 1) (h ∷ hs)
  unfolding reorganised
  improved-AllFed h hs v p =
      let start = p.index +ℤ pos 1 in
      let new = chain_tuples start p.work (h ∷ hs) in
      tuples-AllFed (view_of (kept_below start v.node_tuples ++ new)) start p.work (h ∷ hs) (
        All-map (λ n. In n new) (λ n. In n (kept_below start v.node_tuples ++ new))
          (λ n i. append-In n (kept_below start v.node_tuples) new (inr i)) new (All-self new))

  -- When headers improve a consistent view and all futures have their blocks, `feed_blocks` puts out one
  -- block for each header, in order, and nothing is left. Each has the index that a tuple of the improved
  -- view has with the hash of the header. It is the block that was fetched by this hash if the filter
  -- takes the header, and else the one made of the header alone.
  pub feed_blocks-handle_reorg :
      (h : Header) (hs : List Header) (v v' : View) (i : ℤ)
      → IsConsistent v
      → do_headers_improve_path (h ∷ hs) v ≡ ok (some i, v')
      → AllFed v' i (h ∷ hs)
  feed_blocks-handle_reorg h hs v v' i c e = after (parent_of_total h v c)
    where
      same :
          {j : ℤ} {u : View}
          → do_headers_improve_path (h ∷ hs) v ≡ ok (some j, u)
          → (j ≡ i) × (u ≡ v')
      same q = (cc, cc)

      no_index : {u : View} → do_headers_improve_path (h ∷ hs) v ≡ ok (none, u) → ⊥
      no_index q = cc

      of_known :
          (p : Node)
          → Improved h hs v p ⊎ TooShort h hs v p ⊎ Broken h hs v p
          → AllFed v' i (h ∷ hs)
      of_known p (inl k) =
          let (j, u) = same k.2 in
          subst₂ (λ x y. AllFed y x (h ∷ hs)) j u (improved-AllFed h hs v p)
      of_known p (inr (inl k)) = absurd (no_index k.2)
      of_known p (inr (inr k)) = absurd (cc)

      after : (o : Option Node) × (parent_of h v ≡ ok o) → AllFed v' i (h ∷ hs)
      after (none, q) = absurd (no_index (improve_unknown h hs v q))
      after (some p, q) = of_known p (improve_outcomes h hs v p c.ascending q)
