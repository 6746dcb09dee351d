-- ===== src/Merkle/Complete.antt =====
-- The check of a merkleblock on one that is made for a block as BIP 37 says. The maker is a description
-- of the format, not code of pycoinnet.
use mathlib.Core.Path.{ap₂}
use pycoinnet.Prelude.{
  ℕ, suc, ◌+◌, ◌-◌, ◌*◌, ◌/◌, ◌%◌, ◌^◌, ◌<◌, ◌≤◌, ◌≡◌, ◌≢◌, refl, sym, ◌∙◌, ap, Bool, true, false,
  ◌||◌, List, [], ◌∷◌, ◌++◌, append_assoc, append-nil, Bytes, bytes_eq_self, bytes_eq_ne, ok,
  item_at, length, length-append, arith, if◌then◌else◌, Bool-cases, inl, inr,
}
use pycoinnet.Merkle.{
  Walk, flag_at, pop_hash, recurse, walk_children, join_children, MerkleBlock, check_walk,
  fixup_merkleblock, level_widths,
}

-- The transactions of a block as a hash tree: a leaf has the hash of a transaction and whether
-- it matches the filter, and a last node without a partner is joined with itself.
pub data Tree : Type 0 where
  leaf : Bytes → Bool → Tree
  single : Tree → Tree
  both : Tree → Tree → Tree

unfoldable pub has_match : Tree → Bool
has_match (leaf h m) = m
has_match (single t) = has_match t
has_match (both l r) = has_match l || has_match r

unfoldable pub matches : Tree → List Bytes
matches (leaf h m) = if m then h ∷ [] else []
matches (single t) = matches t
matches (both l r) = matches l ++ matches r

-- The flag bits, one for each node that is visited.
unfoldable pub flag_bits : Tree → List Bool
unfolding has_match
flag_bits (leaf h m) = m ∷ []
flag_bits (single t) = let below = flag_bits t in if has_match t then true ∷ below else false ∷ []
flag_bits (both l r) =
    let below = flag_bits l ++ flag_bits r in
    if has_match (both l r) then true ∷ below else false ∷ []

-- The tree has the widths of the levels below a node.
abbrev pub Fits : List ℕ → ℕ → Tree → Type 0
Fits [] node (leaf h m) = Unit
Fits [] node (single t) = ⊥
Fits [] node (both l r) = ⊥
Fits (width ∷ below) node (leaf h m) = ⊥
Fits (width ∷ below) node (single t) = (width ≤ node * 2 + 1) × Fits below (node * 2) t
Fits (width ∷ below) node (both l r) =
    (node * 2 + 1 < width) × Fits below (node * 2) l × Fits below (node * 2 + 1) r

-- The bits stand in the flag bytes from an index on.
abbrev pub FlagsAt : List ℕ → ℕ → List Bool → Type 0
FlagsAt flags i [] = Unit
FlagsAt flags i (b ∷ bs) = (flag_at flags i ≡ ok b) × FlagsAt flags (i + 1) bs

FlagsAt-append :
    (flags : List ℕ) (i : ℕ) (xs ys : List Bool)
    → FlagsAt flags i (xs ++ ys)
    → FlagsAt flags i xs × FlagsAt flags (i + length xs) ys
FlagsAt-append flags i [] ys h = (tt, (let e : i ≡ i + 0 = omega arith in rw (← e) h))
FlagsAt-append flags i (x ∷ xs) ys h =
    let (a, b) = FlagsAt-append flags (i + 1) xs ys h.1 in
    let e : i + 1 + length xs ≡ i + suc (length xs) = omega arith in ((h.0, a), (rw e at b))

no_matches : (t : Tree) → has_match t ≡ false → matches t ≡ []
unfolding has_match matches
no_matches (leaf h m) e = ground arith
no_matches (single t) e = no_matches t e
no_matches (both l r) e = ground (arith, no_matches l, no_matches r)

module _ (double_sha256 : Bytes → Bytes) where
  unfoldable pub root : Tree → Bytes
  root (leaf h m) = h
  root (single t) = double_sha256 (root t ++ root t)
  root (both l r) = double_sha256 (root l ++ root r)

  -- The hashes: a leaf, or the root of a part with no match.
  unfoldable pub sent_hashes : Tree → List Bytes
  unfolding has_match root
  sent_hashes (leaf h m) = h ∷ []
  sent_hashes (single t) =
      let below = sent_hashes t in if has_match t then below else root (single t) ∷ []
  sent_hashes (both l r) =
      let below = sent_hashes l ++ sent_hashes r in
      if has_match (both l r) then below else root (both l r) ∷ []

  -- No node has two children with one hash.
  abbrev pub HasNoTwins : Tree → Type 0
  HasNoTwins (leaf h m) = Unit
  HasNoTwins (single t) = HasNoTwins t
  HasNoTwins (both l r) = (root l ≢ root r) × HasNoTwins l × HasNoTwins r

  abbrev after : Tree → List Bytes → Walk → Walk
  after t rest s = record {
    hashes = rest;
    flag_index = s.flag_index + length (flag_bits t);
    tx_acc = s.tx_acc ++ matches t;
  }

  abbrev walked : List Bytes → ℕ → List Bytes → Walk
  walked hashes flag_index tx_acc = record {
    hashes = hashes;
    flag_index = flag_index;
    tx_acc = tx_acc;
  }

  run_leaf :
      (flags : List ℕ) (node : ℕ) (h : Bytes) (m : Bool) (rest : List Bytes) (s : Walk)
      → flag_at flags s.flag_index ≡ ok m
      → s.hashes ≡ h ∷ rest
      → recurse double_sha256 flags [] node s
        ≡ ok (h, walked rest (s.flag_index + 1) (s.tx_acc ++ (if m then h ∷ [] else [])))
  unfolding recurse pop_hash
  run_leaf flags node h true rest s b e = rw (b, e)
  run_leaf flags node h false rest s b e = rw (b, e, append-nil)

  run_pruned :
      (flags below : List ℕ) (width node : ℕ) (h : Bytes) (rest : List Bytes) (s : Walk)
      → flag_at flags s.flag_index ≡ ok false
      → s.hashes ≡ h ∷ rest
      → recurse double_sha256 flags (width ∷ below) node s
        ≡ ok (h, walked rest (s.flag_index + 1) (s.tx_acc ++ []))
  unfolding recurse pop_hash
  run_pruned flags below width node h rest s b e = rw (b, append-nil) (ground (arith, e))

  run_single :
      (flags below : List ℕ) (width node : ℕ) (left : Bytes) (s s' : Walk)
      → flag_at flags s.flag_index ≡ ok true
      → width ≤ node * 2 + 1
      → recurse double_sha256 flags below (node * 2) (walked s.hashes (s.flag_index + 1) s.tx_acc)
        ≡ ok (left, s')
      → recurse double_sha256 flags (width ∷ below) node s ≡ ok (double_sha256 (left ++ left), s')
  unfolding recurse walk_children
  run_single flags below width node left s s' b f e = rw b (ground (arith, e))

  run_both :
      (flags below : List ℕ) (width node : ℕ) (left right : Bytes) (s s' s'' : Walk)
      → flag_at flags s.flag_index ≡ ok true
      → node * 2 + 1 < width
      → left ≢ right
      → recurse double_sha256 flags below (node * 2) (walked s.hashes (s.flag_index + 1) s.tx_acc)
        ≡ ok (left, s')
      → recurse double_sha256 flags below (node * 2 + 1) s' ≡ ok (right, s'')
      → recurse double_sha256 flags (width ∷ below) node s ≡ ok (double_sha256 (left ++ right), s'')
  unfolding recurse walk_children join_children
  run_both flags below width node left right s s' s'' b f w e1 e2 =
      rw b (ground (arith, e1, e2, bytes_eq_ne w))

  recurse_complete :
      (flags below : List ℕ) (node : ℕ) (t : Tree) (rest : List Bytes) (s : Walk)
      → Fits below node t
      → HasNoTwins t
      → FlagsAt flags s.flag_index (flag_bits t)
      → s.hashes ≡ sent_hashes t ++ rest
      → recurse double_sha256 flags below node s ≡ ok (root t, after t rest s)
  unfolding flag_bits sent_hashes matches
  recurse_complete flags [] node (leaf h m) rest s f w b e = run_leaf flags node h m rest s b.0 e
  recurse_complete flags [] node (single t) rest s f w b e = elim f [ ]
  recurse_complete flags [] node (both l r) rest s f w b e = elim f [ ]
  recurse_complete flags (width ∷ below) node (leaf h m) rest s f w b e = elim f [ ]
  recurse_complete flags (width ∷ below) node (single t) rest s f w b e =
      elim (Bool-cases (has_match t)) [
        | inr off ↦
            rw (off, no_matches t off)
              (run_pruned flags below width node (root (single t)) rest s (rw off at b).0
                (rw off at e))
        | inl on ↦
            let bits = rw on at b in
            let s1 = walked s.hashes (s.flag_index + 1) s.tx_acc in
            let index : s.flag_index + 1 + length (flag_bits t)
                ≡ s.flag_index + suc (length (flag_bits t)) =
              omega arith in
            run_single flags below width node (root t) s (after (single t) rest s) bits.0 f.0 (
              recurse_complete flags below (node * 2) t rest s1 f.1 w bits.1 (rw on at e)
              ∙ rw on (ap (λ (i : ℕ). ok (root t, walked rest i (s.tx_acc ++ matches t))) index))
      ]
  recurse_complete flags (width ∷ below) node (both l r) rest s f w b e =
      elim (Bool-cases (has_match l || has_match r)) [
        | inr off ↦
            rw (off, no_matches (both l r) off)
              (run_pruned flags below width node (root (both l r)) rest s (rw off at b).0
                (rw off at e))
        | inl on ↦
            let s1 = walked s.hashes (s.flag_index + 1) s.tx_acc in
            let bits = rw on at b in
            let (left_bits, right_bits) =
              FlagsAt-append flags (s.flag_index + 1) (flag_bits l) (flag_bits r) bits.1 in
            let s2 = after l (sent_hashes r ++ rest) s1 in
            let index : s.flag_index + 1 + length (flag_bits l) + length (flag_bits r)
                ≡ s.flag_index + suc (length (flag_bits l ++ flag_bits r)) =
              omega (arith, length-append (flag_bits l) (flag_bits r)) in
            run_both flags below width node (root l) (root r) s s2 (after (both l r) rest s) bits.0
              f.0 w.0
              (recurse_complete flags below (node * 2) l (sent_hashes r ++ rest) s1 f.1 w.1
                left_bits (rw on at e ∙ append_assoc (sent_hashes l) (sent_hashes r) rest))
              (recurse_complete flags below (node * 2 + 1) r rest s2 f.2 w.2 right_bits refl
                ∙ rw on (
                    ap₂ (λ (i : ℕ) (acc : List Bytes). ok (root r, walked rest i acc)) index
                      (append_assoc s.tx_acc (matches l) (matches r))))
      ]

-- The flag bytes hold the bits, use no byte more than they need, and end in zeros.
pub record ArePacked (flags : List ℕ) (bits : List Bool) : Type 0 where
  pub bits_at : FlagsAt flags 0 bits
  pub used : (length bits - 1) / 8 ≡ length flags - 1
  pub last : ℕ
  pub last_at : item_at flags ((length bits - 1) / 8) ≡ ok last
  pub padding : last < 2 ^ ((length bits - 1) % 8 + 1)

-- The message for a hash tree.
pub record IsMessageFor (double_sha256 : Bytes → Bytes) (t : Tree) (d : MerkleBlock) : Type 0 where
  pub below : List ℕ
  pub widths : level_widths d.total_transactions ≡ ok (1 ∷ below)
  pub fits : Fits below 0 t
  pub twins : HasNoTwins double_sha256 t
  pub packed : ArePacked d.flags (flag_bits t)
  pub hashes : d.hashes ≡ sent_hashes double_sha256 t
  pub merkle_root : d.merkle_root ≡ root double_sha256 t

-- The checks after a walk that took all hashes and all flags.
checks_pass :
    (double_sha256 : Bytes → Bytes) (d : MerkleBlock) (left : Bytes) (s : Walk) (n last : ℕ)
    → s.flag_index ≡ n
    → s.hashes ≡ []
    → (n - 1) / 8 ≡ length d.flags - 1
    → item_at d.flags ((n - 1) / 8) ≡ ok last
    → last < 2 ^ ((n - 1) % 8 + 1)
    → left ≡ d.merkle_root
    → check_walk double_sha256 d left s ≡ ok s.tx_acc
unfolding check_walk
checks_pass double_sha256 d left s n last i h u a p r =
    rw (i, h, a, r, bytes_eq_self d.merkle_root) (ground arith)

-- The message for a hash tree passes the check, and the check returns exactly the transactions
-- that match, in the order of the block.
pub fixup_merkleblock_complete :
    (double_sha256 : Bytes → Bytes) (t : Tree) (d : MerkleBlock)
    → IsMessageFor double_sha256 t d
    → fixup_merkleblock double_sha256 d ≡ ok (matches t)
unfolding fixup_merkleblock
fixup_merkleblock_complete double_sha256 t d m =
    let start : Walk = record { hashes = d.hashes; flag_index = 0; tx_acc = [] } in
    let walk =
      recurse_complete double_sha256 d.flags m.below 0 t [] start m.fits m.twins m.packed.bits_at
        (m.hashes ∙ sym (append-nil (sent_hashes double_sha256 t))) in
    rw (m.widths, walk)
      (checks_pass double_sha256 d (root double_sha256 t) (after double_sha256 t [] start)
        (length (flag_bits t)) m.packed.last (omega arith) refl m.packed.used m.packed.last_at
        m.packed.padding (sym m.merkle_root))
