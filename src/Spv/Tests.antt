-- ===== src/Spv/Tests.antt =====
-- A reorganisation of two headers over a view of two blocks.
use pycoinnet.Dict.{put, lookup}
use pycoinnet.Prelude.{
  ◌+ℤ◌, bytes_eq, ℕ, ◌+◌, ◌≡◌, refl, arith, Bool, false, ltb, negsuc, Option, some, List, [], ◌∷◌,
  Bytes, ℤ, pos, ok,
}
use pycoinnet.Chain.{
  last_block_index, compare_node, insert_node, set_tuples, sorted_set, add_tuples, last_block_tuple,
  tuple_for_index, note_hashes, tuple_for_hash, Node, View, Header, do_headers_improve_path,
}
use pycoinnet.Chain.Index.{view_of, IsConsistent, view_of-IsConsistent}
use pycoinnet.Spv.{
  BlockFuture, fetched, header_only, run_peer, send_version, filterload, add_to_getheaders,
  add_to_blockfetcher, add_to_inv_collector,
}
use pycoinnet.Spv.Feed.{AllFed, feed_blocks-handle_reorg}

abbrev node : ℕ → Node
node i = record { index = pos i; hash = (i + 100) ∷ []; work = i + 1 }

abbrev view : View
view = view_of (node 0 ∷ node 1 ∷ [])

view-IsConsistent : IsConsistent view
view-IsConsistent =
    view_of-IsConsistent (node 0 ∷ node 1 ∷ []) (omega arith) ((λ e. ground arith, tt), (tt, tt))

abbrev header : ℕ → ℕ → Header
header hash previous = record { hash = hash ∷ []; previous_block_hash = previous ∷ [] }

abbrev two_headers : List Header
two_headers = header 111 100 ∷ header 112 111 ∷ []

abbrev late : ℤ → Header → Bool
late (pos i) h = ltb 1 i
late (negsuc i) h = false

abbrev improved : View
improved = view_of (
    node 0
    ∷ record { index = pos 1; hash = 111 ∷ []; work = 2 }
    ∷ record { index = pos 2; hash = 112 ∷ []; work = 3 }
    ∷ [])

improves : do_headers_improve_path two_headers view ≡ ok (some (pos 1), improved)
unfolding do_headers_improve_path tuple_for_hash bytes_eq lookup note_hashes put tuple_for_index
    last_block_tuple ◌+ℤ◌ add_tuples sorted_set set_tuples insert_node compare_node
improves = refl

-- The block of a future is named by its hash.
abbrev result : BlockFuture → Option Bytes
result (fetched the_hash i) = some the_hash
result (header_only h) = some h.hash

done : (future : BlockFuture) → (block : Bytes) × (result future ≡ some block)
done (fetched the_hash i) = (the_hash, refl)
done (header_only h) = (h.hash, refl)

feed_blocks-handle_reorg_example : AllFed result late done improved (pos 1) two_headers
feed_blocks-handle_reorg_example =
    feed_blocks-handle_reorg result late done (header 111 100) (header 112 111 ∷ []) view improved
      (pos 1) view-IsConsistent improves

greeted :
    run_peer (some (1 ∷ [], 2, 3)) 7 view
    ≡ send_version (pos 1)
      ∷ filterload (1 ∷ []) 2 3 0
      ∷ add_to_getheaders 7
      ∷ add_to_blockfetcher 7
      ∷ add_to_inv_collector
      ∷ []
unfolding run_peer last_block_index
greeted = refl
