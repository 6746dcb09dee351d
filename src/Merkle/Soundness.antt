-- ===== src/Merkle/Soundness.antt =====
-- The check of a merkleblock, and the hashes that lie under a Merkle root.
use mathlib.Core.Path.{subst₂}
use pycoinnet.Prelude.{
  last_or, if◌then◌else◌, ℕ, zero, suc, ◌+◌, ◌*◌, ◌<◌, ◌≡◌, refl, sym, ◌∙◌, ◌⊎◌, inl, inr, Bool,
  true, false, List, [], ◌∷◌, ◌++◌, append_assoc, append-nil, All, All-append, All-map, Bytes,
  bytes_eq_iff, Result, ok, ◌>>=◌, >>=-eq-ok, length, ltb, arith,
}
use pycoinnet.Merkle.{
  walk_children, Walk, flag_at, pop_hash, recurse, join_children, MerkleBlock, check_walk,
  start_walk, fixup_merkleblock, level_widths,
}
use pycoinnet.Merkle.Widths.{AreHalved, level_widths_lem}

module _ (double_sha256 : Bytes → Bytes) where
  -- `t` is a leaf of a hash tree of the given depth with the root `h`.
  abbrev pub Under : ℕ → Bytes → Bytes → Type 0
  Under zero t h = t ≡ h
  Under (suc d) t h =
      (left : Bytes) × (right : Bytes) × (h ≡ double_sha256 (left ++ right))
      × (Under d t left ⊎ Under d t right)

  -- What a walk below a node gives.
  pub record Walked (d : ℕ) (s : Walk) (h : Bytes) (s' : Walk) : Type 0 where
    pub found : List Bytes
    pub used : List Bytes
    pub tx_acc : s'.tx_acc ≡ s.tx_acc ++ found
    pub hashes : s.hashes ≡ used ++ s'.hashes
    pub under : All (λ t. Under d t h) found
    pub flags : s.flag_index < s'.flag_index

  popped :
      {s s' : Walk} {h : Bytes}
      → pop_hash s ≡ ok (h, s')
      → (s.hashes ≡ h ∷ s'.hashes) × (s'.flag_index ≡ s.flag_index) × (s'.tx_acc ≡ s.tx_acc)
  unfolding pop_hash
  popped e = ground arith

  abbrev next : Walk → Walk
  next s = record s { flag_index = s.flag_index + 1 }

  -- A node with its flag off.
  pruned :
      (d : ℕ) (s : Walk) {s' : Walk} {h : Bytes} → pop_hash (next s) ≡ ok (h, s') → Walked d s h s'
  pruned d s {s'} {h} e =
      let (hashes, index, acc) = popped e in
      record {
        found = [];
        used = h ∷ [];
        tx_acc = rw append-nil acc;
        hashes = hashes;
        under = tt;
        flags = omega arith;
      }

  leaf_end :
      (flag : Bool) (s s2 s' : Walk) (p h : Bytes)
      → pop_hash (next s) ≡ ok (p, s2)
      → if◌then◌else◌ {A = Result (Bytes × Walk)} flag
          (ok (p, record s2 { tx_acc = s2.tx_acc ++ p ∷ [] }))
          (ok (p, s2))
        ≡ ok (h, s')
      → Walked 0 s h s'
  leaf_end false s s2 s' p h e q = pruned 0 s (ground arith)
  leaf_end true s s2 s' p h e q =
      let (hashes, index, acc) = popped e in
      record {
        found = h ∷ [];
        used = h ∷ [];
        tx_acc = ground arith;
        hashes = ground arith;
        under = (refl, tt);
        flags = ground arith;
      }

  leaf_walk :
      (flags : List ℕ) (node : ℕ) (s s' : Walk) (h : Bytes)
      → recurse double_sha256 flags [] node s ≡ ok (h, s')
      → Walked 0 s h s'
  unfolding recurse
  leaf_walk flags node s s' h e =
      let (flag, _, e1) = >>=-eq-ok (flag_at flags s.flag_index) _ e in
      let (r, e2, e3) = >>=-eq-ok (pop_hash (next s)) _ e1 in leaf_end flag s r.1 s' r.0 h e2 e3

  -- Two walks below a node, one after the other.
  joined :
      (d : ℕ) (s s2 s3 : Walk) (left right : Bytes)
      → Walked d (next s) left s2
      → Walked d s2 right s3
      → Walked (suc d) s (double_sha256 (left ++ right)) s3
  joined d s s2 s3 left right a b = record {
    found = a.found ++ b.found;
    used = a.used ++ b.used;
    tx_acc = b.tx_acc ∙ rw a.tx_acc (append_assoc s.tx_acc a.found b.found);
    hashes = a.hashes ∙ rw b.hashes (sym (append_assoc a.used b.used s3.hashes));
    under =
        All-append (λ t. Under (suc d) t (double_sha256 (left ++ right))) a.found b.found
          (All-map (λ t. Under d t left) _ (λ t k. (left, right, refl, inl k)) a.found a.under)
          (All-map (λ t. Under d t right) _ (λ t k. (left, right, refl, inr k)) b.found b.under);
    flags = omega (arith, a.flags, b.flags);
  }

  single :
      (d : ℕ) (s s2 : Walk) (left : Bytes)
      → Walked d (next s) left s2
      → Walked (suc d) s (double_sha256 (left ++ left)) s2
  single d s s2 left a = record {
    found = a.found;
    used = a.used;
    tx_acc = a.tx_acc;
    hashes = a.hashes;
    under = All-map (λ t. Under d t left) _ (λ t k. (left, left, refl, inl k)) a.found a.under;
    flags = omega (arith, a.flags);
  }

  join_end :
      (left right : Bytes) {s s' : Walk} {h : Bytes}
      → join_children double_sha256 left right s ≡ ok (h, s')
      → (double_sha256 (left ++ right) ≡ h) × (s ≡ s')
  unfolding join_children
  join_end left right e = ground arith

  abbrev Sound : ℕ → (Walk → Result (Bytes × Walk)) → Type 0
  Sound d w = (s s' : Walk) (h : Bytes) → w s ≡ ok (h, s') → Walked d s h s'

  moved :
      {d : ℕ} {s s1 s2 : Walk} {h1 h2 : Bytes}
      → h1 ≡ h2
      → s1 ≡ s2
      → Walked d s h1 s1
      → Walked d s h2 s2
  moved {d} {s} p q w = subst₂ (λ h t. Walked d s h t) p q w

  ok_pair :
      {a b : Bytes} {s t : Walk}
      → ◌≡◌ {A = Result (Bytes × Walk)} (ok (a, s)) (ok (b, t))
      → (a ≡ b) × (s ≡ t)
  ok_pair e = ground arith

  children_end :
      (d : ℕ) (has_right : Bool) (left right : Walk → Result (Bytes × Walk))
      → Sound d left
      → Sound d right
      → (s s' : Walk) (h : Bytes)
      → walk_children double_sha256 has_right left right (next s) ≡ ok (h, s')
      → Walked (suc d) s h s'
  unfolding walk_children
  children_end d false left right l r s s' h e =
      let ((p, s2), e2, e3) = >>=-eq-ok (left (next s)) _ e in
      let a = l (next s) s2 p e2 in
      let (root, same) = ok_pair e3 in moved root same (single d s s2 p a)
  children_end d true left right l r s s' h e =
      let ((p, s2), e2, e3) = >>=-eq-ok (left (next s)) _ e in
      let ((q, s3), e4, e5) = >>=-eq-ok (right s2) _ e3 in
      let (root, same) = join_end p q e5 in
      moved root same (joined d s s2 s3 p q (l (next s) s2 p e2) (r s2 s3 q e4))

  node_end :
      (d : ℕ) (flag has_right : Bool) (left right : Walk → Result (Bytes × Walk))
      → Sound d left
      → Sound d right
      → (s s' : Walk) (h : Bytes)
      → elim flag [
        | true ↦ walk_children double_sha256 has_right left right (next s)
        | false ↦ pop_hash (next s)
      ]
        ≡ ok (h, s')
      → Walked (suc d) s h s'
  node_end d false has_right left right l r s s' h e = pruned (suc d) s e
  node_end d true has_right left right l r s s' h e =
      children_end d has_right left right l r s s' h e

  -- The walk is sound at every depth.
  pub recurse-Sound :
      (flags below : List ℕ) (node : ℕ)
      → Sound (length below) (recurse double_sha256 flags below node)
  unfolding recurse
  recurse-Sound flags [] node s s' h e = leaf_walk flags node s s' h e
  recurse-Sound flags (width ∷ below) node s s' h e =
      let (flag, _, e1) = >>=-eq-ok (flag_at flags s.flag_index) _ e in
      node_end (length below) flag (ltb (node * 2 + 1) width)
        (recurse double_sha256 flags below (node * 2))
        (recurse double_sha256 flags below (node * 2 + 1)) (recurse-Sound flags below (node * 2))
        (recurse-Sound flags below (node * 2 + 1)) s s' h e1

checks :
    (double_sha256 : Bytes → Bytes) (d : MerkleBlock) (left : Bytes) (s : Walk) {txs : List Bytes}
    → check_walk double_sha256 d left s ≡ ok txs
    → (left ≡ d.merkle_root) × (s.tx_acc ≡ txs)
unfolding check_walk
checks double_sha256 d left s e = ground (arith, bytes_eq_iff left d.merkle_root)

-- If the check passes, every hash that it returns lies under the Merkle root of the header, at
-- the depth of the transactions, which is the number of halvings from the number of transactions
-- down to one.
pub fixup_merkleblock-Under :
    (double_sha256 : Bytes → Bytes) (d : MerkleBlock) {txs : List Bytes}
    → 0 < d.total_transactions
    → fixup_merkleblock double_sha256 d ≡ ok txs
    → (ws : List ℕ) × (level_widths d.total_transactions ≡ ok (1 ∷ ws))
      × AreHalved 1 ws
      × (last_or 1 ws ≡ d.total_transactions)
      × All (λ t. Under double_sha256 (length ws) t d.merkle_root) txs
unfolding fixup_merkleblock
fixup_merkleblock-Under double_sha256 d {txs} h e =
    let (ws, found, halved, last) = level_widths_lem d.total_transactions h in
    let walked_from : (start_walk double_sha256 d (1 ∷ ws) >>= λ p.
    check_walk double_sha256 d p.0 p.1)
        ≡ ok txs =
      rw found at e in
    let (r, walked, checked) = >>=-eq-ok (start_walk double_sha256 d (1 ∷ ws)) _ walked_from in
    let w = recurse-Sound double_sha256 d.flags ws 0 _ r.1 r.0 walked in
    let (root, txs_found) = checks double_sha256 d r.0 r.1 checked in
    (
      ws,
      found,
      halved,
      last,
      subst₂ (λ l t. All (λ x. Under double_sha256 (length ws) x t) l) (sym w.tx_acc ∙ txs_found)
          root w.under,
    )
