-- ===== src/Chain/Tests.antt =====
-- Tests of the view after tests/util/test_BlockChainView.py, and the theorems at sample inputs.
use mathlib.Core.List.{reverse, reverse-reverse}
use pycoinnet.Chain.Json.{as_json, from_json, from_json-as_json}
use pycoinnet.Prelude.{
  index_error, ◌≢◌, ap, ℕ, ◌+◌, ◌≡◌, refl, ◌⊎◌, inl, Option, some, none, List, [], ◌∷◌, arith, All,
  In, Bytes, bytes_key, ok, err, value_error, ℤ, pos, ◌+ℤ◌, ◌-ℤ◌, last_or, bytes_eq, compare_bytes,
}
use pycoinnet.Chain.{
  Node, View, Header, compare_node, insert_node, sorted_set, note_hashes, add_tuples, set_tuples,
  last_block_tuple, last_block_index, tuple_for_index, tuple_for_hash, halsies_indices, winnow,
  rewind, key_index_generator, block_locator_hashes, parent_of, do_headers_improve_path,
}
use pycoinnet.Dict.{lookup, put}
use pycoinnet.Chain.Search.{IsFloor, tuple_for_index-IsFloor}
use pycoinnet.Chain.Index.{IsConsistent, view_of, view_of-IsConsistent}
use pycoinnet.Chain.Reorg.{
  Improved, TooShort, Broken, improve_outcomes, improve_total, AreFresh, improve-IsConsistent,
}
use pycoinnet.Chain.Locator.{HasHash, block_locator_hashes_lem}
use pycoinnet.Chain.Winnow.{winnow-IsConsistent}

program : Unit {0}
unfolding bytes_eq compare_bytes ◌+ℤ◌ ◌-ℤ◌ lookup put compare_node insert_node sorted_set
    note_hashes add_tuples set_tuples last_block_tuple last_block_index tuple_for_index
    tuple_for_hash halsies_indices winnow rewind key_index_generator block_locator_hashes parent_of
    do_headers_improve_path
program = tt

-- test_halsies
halsies_ten : halsies_indices (pos 10) ≡ ok (pos 10 ∷ pos 9 ∷ pos 8 ∷ pos 6 ∷ pos 4 ∷ pos 0 ∷ [])
unfolding program
halsies_ten = refl

halsies_five : halsies_indices (pos 5) ≡ ok (pos 5 ∷ pos 4 ∷ pos 3 ∷ pos 2 ∷ pos 0 ∷ [])
unfolding program
halsies_five = refl

abbrev node : ℕ → Node
node i = record { index = pos i; hash = (i + 100) ∷ []; work = i + 1 }

abbrev tuples : List Node
tuples = node 0 ∷ node 1 ∷ node 3 ∷ []

abbrev view : View
view = view_of tuples

view-IsConsistent : IsConsistent view
view-IsConsistent =
    view_of-IsConsistent tuples (omega arith)
      ((λ e. ground arith, (λ e. ground arith, tt)), ((λ e. ground arith, tt), (tt, tt)))

set_tuples_sorts : set_tuples (node 3 ∷ node 0 ∷ node 1 ∷ node 0 ∷ []) ≡ view
unfolding program
set_tuples_sorts = refl

tuple_for_index-IsFloor_example :
    (n : Node) × (tuple_for_index (pos 2) view ≡ ok n) × IsFloor tuples (pos 2) n
tuple_for_index-IsFloor_example =
    tuple_for_index-IsFloor view (pos 2) (omega arith) (node 0) (inl refl) (omega arith)

locator : block_locator_hashes view ≡ ok ((103 ∷ []) ∷ (101 ∷ []) ∷ (100 ∷ []) ∷ [])
unfolding program
locator = refl

abbrev header : ℕ → ℕ → Header
header h previous = record { hash = h ∷ []; previous_block_hash = previous ∷ [] }

abbrev longer : List Header
longer = header 202 101 ∷ header 203 202 ∷ header 204 203 ∷ []

-- A branch from index 1 on replaces the tuple at index 3.
reorganisation :
    do_headers_improve_path longer view
    ≡ ok (
      some (pos 2),
      view_of (
          node 0
          ∷ node 1
          ∷ record { index = pos 2; hash = 202 ∷ []; work = 3 }
          ∷ record { index = pos 3; hash = 203 ∷ []; work = 4 }
          ∷ record { index = pos 4; hash = 204 ∷ []; work = 5 }
          ∷ []),
    )
unfolding program
reorganisation = refl

too_short : do_headers_improve_path (header 202 101 ∷ []) view ≡ ok (none, view)
unfolding program
too_short = refl

broken : do_headers_improve_path (header 202 101 ∷ header 204 203 ∷ []) view ≡ err value_error
unfolding program
broken = refl

longer_parent : parent_of (header 202 101) view ≡ ok (some (node 1))
unfolding program
longer_parent = refl

abbrev rest : List Header
rest = header 203 202 ∷ header 204 203 ∷ []

improve_outcomes_example :
    Improved (header 202 101) rest view (node 1)
    ⊎ TooShort (header 202 101) rest view (node 1)
    ⊎ Broken (header 202 101) rest view (node 1)
improve_outcomes_example =
    improve_outcomes (header 202 101) rest view (node 1) (omega arith) longer_parent

improve_total_example :
    ((longer ≡ []) × (do_headers_improve_path longer view ≡ err index_error))
    ⊎ ((longer ≢ [])
        × (((r : Option ℤ × View) × (do_headers_improve_path longer view ≡ ok r))
            ⊎ (do_headers_improve_path longer view ≡ err value_error)))
improve_total_example = improve_total longer view view-IsConsistent

fresh : AreFresh tuples longer
fresh = (
  (λ e. ground arith, (λ e. ground arith, (λ e. ground arith, tt))),
  (λ e. ground arith, (λ e. ground arith, tt)),
  (
    (λ e. ground arith, (λ e. ground arith, (λ e. ground arith, tt))),
    (λ e. ground arith, tt),
    ((λ e. ground arith, (λ e. ground arith, (λ e. ground arith, tt))), tt, tt),
  ),
)

improve-IsConsistent_example : IsConsistent (
    view_of (
      node 0
      ∷ node 1
      ∷ record { index = pos 2; hash = 202 ∷ []; work = 3 }
      ∷ record { index = pos 3; hash = 203 ∷ []; work = 4 }
      ∷ record { index = pos 4; hash = 204 ∷ []; work = 5 }
      ∷ []))
improve-IsConsistent_example =
    improve-IsConsistent (header 202 101) rest view view-IsConsistent fresh reorganisation

block_locator_hashes_lem_example :
    (ys : List Bytes) × (block_locator_hashes view ≡ ok ((last_block_tuple view).hash ∷ ys))
    × All (HasHash view) ((last_block_tuple view).hash ∷ ys)
    × (b : Node) × IsFloor tuples (pos 0) b
    × (last_or (last_block_tuple view).hash ys ≡ b.hash)
block_locator_hashes_lem_example =
    block_locator_hashes_lem view (omega arith) (node 0) (inl refl) (omega arith)

tip_index : last_block_index view ≡ pos 3
unfolding program
tip_index = refl

winnowed-IsConsistent :
    (v' : View) × (winnow view ≡ ok v')
    × IsConsistent v'
    × ((n : Node) → In n v'.node_tuples → In n tuples)
    × In (last_block_tuple view) v'.node_tuples
    × ((n : Node) → In n tuples → n.index ≡ pos 0 → In n v'.node_tuples)
winnowed-IsConsistent = winnow-IsConsistent view 3 view-IsConsistent tip_index

-- JSON that is its rows, and hashes written in reverse.
from_json-as_json_example :
    (w : View) × (from_json (λ h. ok (reverse h)) ok (as_json (λ rows. rows) reverse view) ≡ ok w)
    × (w.node_tuples ≡ tuples)
    × IsConsistent w
    × ((h : Bytes) → lookup h w.hash_to_index ≡ lookup h view.hash_to_index)
from_json-as_json_example =
    from_json-as_json (λ rows. rows) ok reverse (λ h. ok (reverse h)) view view-IsConsistent
      (λ rows. refl) (λ n k. ap ok (reverse-reverse n.hash))
