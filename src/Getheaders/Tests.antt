-- ===== src/Getheaders/Tests.antt =====
-- A view of two blocks, and a peer that is ahead.
use pycoinnet.Prelude.{
  bytes_eq, compare_bytes, ◌+ℤ◌, ◌-ℤ◌, bytes_eq, ◌-ℤ◌, ℕ, ◌+◌, ◌≡◌, refl, true, some, [], ◌∷◌, pos,
  ok, err, value_error, Result,
}
use pycoinnet.Dict.{lookup, put}
use pycoinnet.Chain.{
  hash_initial_block, Node, View, Header, compare_node, insert_node, sorted_set, note_hashes,
  add_tuples, set_tuples, last_block_tuple, last_block_index, tuple_for_index, tuple_for_hash,
  halsies_indices, winnow, key_index_generator, block_locator_hashes, parent_of,
  do_headers_improve_path,
}
use pycoinnet.Chain.Index.{view_of}
use pycoinnet.Getheaders.{is_ahead, headers_answer, end_of_stream, run_ff, nothing_done}
use pycoinnet.Getheaders.Outcomes.{ready}

abbrev node : ℕ → Node
node i = record { index = pos i; hash = (i + 100) ∷ []; work = i + 1 }

abbrev view : View
view = view_of (node 0 ∷ node 1 ∷ [])

program : Unit {0}
unfolding run_ff bytes_eq compare_bytes ◌+ℤ◌ ◌-ℤ◌ lookup put compare_node insert_node sorted_set
    note_hashes add_tuples set_tuples last_block_tuple last_block_index tuple_for_index
    tuple_for_hash halsies_indices winnow key_index_generator block_locator_hashes parent_of
    do_headers_improve_path is_ahead
program = tt

abbrev header : ℕ → ℕ → Header
header hash previous = record { hash = hash ∷ []; previous_block_hash = previous ∷ [] }

abbrev no_block : Header → Result Header
no_block h = err value_error

-- A header that forks off below the tip improves nothing, and the callback is called with 0.
not_improved :
    run_ff no_block (pos 9) (headers_answer (header 111 100 ∷ [])) (ready view)
    ≡ ok (record {
      state = ready view;
      is_put_back = true;
      callback = some (pos 0, header 111 100 ∷ []);
    })
unfolding program
not_improved = refl

lost : run_ff no_block (pos 9) end_of_stream (ready view) ≡ ok (nothing_done (ready view))
unfolding program
lost = refl

up_to_date : run_ff no_block (pos 1) end_of_stream (ready view) ≡ ok (nothing_done (ready view))
unfolding program
up_to_date = refl

-- A peer leaves the genesis block out when the view is empty, and it is fetched.
from_nothing :
    run_ff
      (λ h. ok (record { hash = 100 ∷ []; previous_block_hash = hash_initial_block }))
      (pos 9)
      (headers_answer (header 101 100 ∷ []))
      (ready (view_of []))
    ≡ ok (record {
      state = ready view;
      is_put_back = true;
      callback = some (
        pos 0,
        record { hash = 100 ∷ []; previous_block_hash = hash_initial_block } ∷ header 101 100 ∷ [],
      );
    })
unfolding program
from_nothing = refl
