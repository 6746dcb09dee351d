-- ===== src/Merkle/Tests.antt =====
-- The check of a merkleblock at a block of three transactions, under a sample hash function.
use pycoinnet.Prelude.{
  ℕ, ◌≡◌, refl, true, false, List, [], ◌∷◌, All, Bytes, bytes_eq, ok, err, value_error, index_error,
  item_at, length, last_or, arith,
}
use pycoinnet.Merkle.{
  flag_at, pop_hash, recurse, walk_children, join_children, MerkleBlock, check_walk,
  fixup_merkleblock, level_widths,
}
use pycoinnet.Merkle.Widths.{AreHalved}
use pycoinnet.Merkle.Soundness.{Under, fixup_merkleblock-Under}
use pycoinnet.Merkle.Complete.{
  Tree, leaf, single, both, has_match, matches, flag_bits, root, sent_hashes, IsMessageFor,
  fixup_merkleblock_complete,
}

program : Unit {0}
unfolding bytes_eq item_at flag_at pop_hash recurse walk_children join_children check_walk
    fixup_merkleblock level_widths has_match matches flag_bits root sent_hashes
program = tt

abbrev sample_hash : Bytes → Bytes
sample_hash b = 7 ∷ b

abbrev tree : Tree
tree = both (both (leaf (1 ∷ []) false) (leaf (2 ∷ []) true)) (single (leaf (3 ∷ []) false))

abbrev message : MerkleBlock
message = record {
  merkle_root = 7 ∷ 7 ∷ 1 ∷ 2 ∷ 7 ∷ 3 ∷ 3 ∷ [];
  total_transactions = 3;
  hashes = (1 ∷ []) ∷ (2 ∷ []) ∷ (7 ∷ 3 ∷ 3 ∷ []) ∷ [];
  flags = 11 ∷ [];
}

accepted : fixup_merkleblock sample_hash message ≡ ok ((2 ∷ []) ∷ [])
unfolding program
accepted = refl

wrong_root : fixup_merkleblock sample_hash (record message { merkle_root = [] }) ≡ err value_error
unfolding program
wrong_root = refl

unused_flags : fixup_merkleblock sample_hash (record message { flags = 43 ∷ [] }) ≡ err value_error
unfolding program
unused_flags = refl

missing_hash :
    fixup_merkleblock sample_hash (record message { hashes = (1 ∷ []) ∷ [] }) ≡ err index_error
unfolding program
missing_hash = refl

fixup_merkleblock-Under_example :
    (ws : List ℕ) × (level_widths 3 ≡ ok (1 ∷ ws))
    × AreHalved 1 ws
    × (last_or 1 ws ≡ 3)
    × All (λ t. Under sample_hash (length ws) t message.merkle_root) ((2 ∷ []) ∷ [])
fixup_merkleblock-Under_example = fixup_merkleblock-Under sample_hash message (omega arith) accepted

message-IsMessageFor : IsMessageFor sample_hash tree message
unfolding program
message-IsMessageFor = record {
  below = 2 ∷ 3 ∷ [];
  widths = refl;
  fits = (omega arith, (omega arith, tt, tt), (omega arith, tt));
  twins = (λ e. ground arith, (λ e. ground arith, tt, tt), tt);
  packed = record {
    bits_at = (refl, (refl, (refl, (refl, (refl, tt)))));
    used = refl;
    last = 11;
    last_at = refl;
    padding = omega arith;
  };
  hashes = refl;
  merkle_root = refl;
}

fixup_merkleblock_complete_example : fixup_merkleblock sample_hash message ≡ ok (matches tree)
fixup_merkleblock_complete_example =
    fixup_merkleblock_complete sample_hash tree message message-IsMessageFor
