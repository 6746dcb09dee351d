-- ===== src/Chain.antt =====
-- pycoinnet/util/BlockChainView.py: the view of the block chain that a client keeps, as a sorted
-- list of tuples (index, hash, total_work), which may be thinned out.
pub mod Order
pub mod Search
pub mod Index
pub mod Improve
pub mod Reorg
pub mod Locator
pub mod Winnow
pub mod Json
mod Tests
use Prim.Native.Nat.{compare, Ordering}
use pycoinnet.Prelude.{
  item_at, ℕ, zero, suc, ◌+◌, ◌-◌, ◌*◌, ◌/◌, Bool, true, false, ◌&&◌, ◌||◌, Option, none, some,
  List, [], ◌∷◌, ◌++◌, arith, Bytes, bytes_eq, compare_bytes, then_compare, bytes_key, replicate,
  get_elem?, length, last_or, filter, Result, ok, err, index_error, value_error, out_of_fuel, ◌>>=◌,
  ℤ, pos, negsuc, ◌+ℤ◌, ◌-ℤ◌, ltb_ℤ, leb_ℤ, eq_ℤ, compare_ℤ, mod_ℤ, pos_part, leb, ltb, ◌==◌,
  if◌then◌else◌,
}
use pycoinnet.Dict.{Dict, lookup, put}

-- A node tuple (index, hash, total_work). The index -1 is the parent of the first block.
pub record Node : Type 0 where
  pub index : ℤ
  pub hash : Bytes
  pub work : ℕ

-- HASH_INITIAL_BLOCK
abbrev pub hash_initial_block : Bytes
hash_initial_block = replicate 32 0

-- GENESIS_TUPLE
abbrev pub genesis_tuple : Node
genesis_tuple = record { index = negsuc 0; hash = hash_initial_block; work = 0 }

-- Python's order on the tuples.
unfoldable pub compare_node : Node → Node → Ordering
compare_node a b =
    then_compare (compare_ℤ a.index b.index)
      (then_compare (compare_bytes a.hash b.hash) (compare a.work b.work))

unfoldable pub insert_node : Node → List Node → List Node
insert_node n [] = n ∷ []
insert_node n (m ∷ ms) =
    let rest = insert_node n ms in
    elim (compare_node n m) [
      | Ordering.lt ↦ n ∷ m ∷ ms
      | Ordering.eq ↦ m ∷ ms
      | Ordering.gt ↦ m ∷ rest
    ]

-- sorted(set(l))
unfoldable pub sorted_set : List Node → List Node
sorted_set [] = []
sorted_set (n ∷ ns) = insert_node n (sorted_set ns)

pub record View : Type 0 where
  pub node_tuples : List Node
  pub hash_to_index : Dict Bytes ℤ

abbrev pub empty_view : View
empty_view = record { node_tuples = []; hash_to_index = [] }

unfoldable pub note_hashes : List Node → Dict Bytes ℤ → Dict Bytes ℤ
note_hashes [] d = d
note_hashes (n ∷ ns) d = note_hashes ns (put n.hash n.index d)

-- The set `nt` has no order in Python; here it is walked in ascending order, which matters only
-- where two tuples share a hash.
unfoldable pub add_tuples : List Node → View → View
add_tuples ns v =
    let nt = sorted_set ns in
    record {
      node_tuples = sorted_set (v.node_tuples ++ nt);
      hash_to_index = note_hashes nt v.hash_to_index;
    }

unfoldable pub set_tuples : List Node → View
unfolding add_tuples
set_tuples ns = add_tuples ns empty_view

unfoldable pub last_block_tuple : View → Node
last_block_tuple v = last_or genesis_tuple v.node_tuples

unfoldable pub last_block_index : View → ℤ
unfolding last_block_tuple
last_block_index v = (last_block_tuple v).index

-- The loop of `tuple_for_index`, on fuel; it gives the last value of `hi`.
unfoldable pub bisect : ℕ → List Node → ℤ → ℕ → ℕ → Result ℕ
unfolding item_at
bisect zero ns index lo hi = if ltb lo hi then err out_of_fuel else ok hi
bisect (suc f) ns index lo hi = elim (ltb lo hi) [
  | false ↦ ok hi
  | true ↦ do
    n ← item_at ns ((lo + hi) / 2)
    elim (ltb_ℤ index n.index) [
      | true ↦ bisect f ns index lo ((lo + hi) / 2)
      | false ↦ bisect f ns index ((lo + hi) / 2 + 1) hi
    ]
]

-- `node_tuples[hi - 1]`: at hi = 0 Python's index -1 is the last element.
unfoldable pub item_before : List Node → ℕ → Result Node
unfolding item_at
item_before ns zero = item_at ns (length ns - 1)
item_before ns (suc i) = item_at ns i

unfoldable pub tuple_for_index : ℤ → View → Result Node
unfolding bisect item_before
tuple_for_index index v =
    let ns = v.node_tuples in
    if length ns == 0
    then ok genesis_tuple
    else do hi ← bisect (length ns) ns index 0 (length ns); item_before ns hi

unfoldable pub tuple_for_hash : Bytes → View → Result (Option Node)
tuple_for_hash h v =
    if bytes_eq h hash_initial_block
    then ok (some genesis_tuple)
    else elim (lookup h v.hash_to_index) [
      | none ↦ ok none
      | some i ↦ (do n ← tuple_for_index i v; ok (some n))
    ]

-- The loop of `key_index_generator`, on fuel.
unfoldable pub key_indices_from : ℕ → ℤ → ℕ → ℕ → Result (List ℤ)
key_indices_from zero index step_size count = err out_of_fuel
key_indices_from (suc f) index step_size count = elim (ltb_ℤ (pos 0) index) [
  | false ↦ ok (pos 0 ∷ [])
  | true ↦ do
    let reset = leb (count - 1) 0
    rest ←
        key_indices_from f (index -ℤ pos step_size) (if reset then step_size * 2 else step_size)
          (if reset then 10 else count - 1)
    ok (index ∷ rest)
]

unfoldable pub key_index_generator : View → Result (List ℤ)
unfolding key_indices_from last_block_index
key_index_generator v =
    let index = last_block_index v in key_indices_from (suc (pos_part index)) index 1 10

-- `if len(l) == 0 or the_hash != l[-1]: l.append(the_hash)`
unfoldable pub append_new : List Bytes → Bytes → List Bytes
append_new [] h = h ∷ []
append_new (x ∷ xs) h = if bytes_eq h (last_or x xs) then x ∷ xs else x ∷ xs ++ h ∷ []

unfoldable pub locate : View → List ℤ → List Bytes → Result (List Bytes)
locate v [] l = ok l
locate v (i ∷ is) l = do n ← tuple_for_index i v; locate v is (append_new l n.hash)

unfoldable pub block_locator_hashes : View → Result (List Bytes)
unfolding locate append_new
block_locator_hashes v =
    if length v.node_tuples == 0
    then ok (hash_initial_block ∷ [])
    else do is ← key_index_generator v; locate v is []

-- The loop of `_halsies_indices`, on fuel. `count` is tested by `<= 0` only, so it may stop at 0.
unfoldable pub halsies_from : ℕ → ℤ → ℕ → ℕ → Result (List ℤ)
halsies_from zero index step_size count = err out_of_fuel
halsies_from (suc f) index step_size count = elim (leb_ℤ (pos 0) index) [
  | false ↦ ok []
  | true ↦ do
    let widen = leb (count - 1) 0 && mod_ℤ (index -ℤ pos step_size) (step_size * 2) == 0
    rest ←
        halsies_from f (index -ℤ pos step_size) (if widen then step_size * 2 else step_size)
          (if widen then 2 else count - 1)
    ok (index ∷ rest)
]

unfoldable pub halsies_indices : ℤ → Result (List ℤ)
unfolding halsies_from
halsies_indices index = halsies_from (suc (suc (pos_part index))) index 1 2

-- `i in s`
unfoldable pub has_index : List ℤ → ℤ → Bool
has_index [] i = false
has_index (j ∷ js) i = eq_ℤ j i || has_index js i

unfoldable pub winnow : View → Result View
unfolding has_index
winnow v = do
  keep ← halsies_indices (last_block_index v)
  ok (set_tuples (filter (λ n. has_index keep n.index) v.node_tuples))

unfoldable pub rewind : ℤ → View → View
rewind new_block_index v = set_tuples (filter (λ n. leb_ℤ n.index new_block_index) v.node_tuples)

pub record Header : Type 0 where
  pub hash : Bytes
  pub previous_block_hash : Bytes

-- The loop over the headers: `next` is idx + new_start_idx. It gives the new tuples and the work.
unfoldable pub link : List Header → ℤ → Bytes → ℕ → Result (List Node × ℕ)
link [] next expected_prior_hash total_work = ok ([], total_work)
link (h ∷ hs) next expected_prior_hash total_work =
    if bytes_eq h.previous_block_hash expected_prior_hash
    then (do
      (tuples, work) ← link hs (next +ℤ pos 1) h.hash (total_work + 1)
      ok (record { index = next; hash = h.hash; work = total_work + 1 } ∷ tuples, work))
    else err value_error

-- The node that the headers extend; `none` is `return False`.
unfoldable pub parent_of : Header → View → Result (Option Node)
parent_of h v =
    if length v.node_tuples == 0
    then (if bytes_eq h.previous_block_hash hash_initial_block
        then ok (some genesis_tuple)
        else ok none)
    else tuple_for_hash h.previous_block_hash v

-- Headers that link up to `the_tuple`, or a raise.
unfoldable pub extend : List Header → Node → View → Result (Option ℤ × View)
unfolding link
extend headers the_tuple v = do
  (tuples, total_work) ← link headers (the_tuple.index +ℤ pos 1) the_tuple.hash the_tuple.work
  if leb total_work (last_block_tuple v).work
      then ok (none, v)
      else ok (
        some (the_tuple.index +ℤ pos 1),
        add_tuples tuples
            (set_tuples (filter (λ t. ltb_ℤ t.index (the_tuple.index +ℤ pos 1)) v.node_tuples)),
      )

-- The result beside the new state: `none` is False, `some i` the index to rewind to.
unfoldable pub do_headers_improve_path : List Header → View → Result (Option ℤ × View)
unfolding extend parent_of
do_headers_improve_path [] v = err index_error
do_headers_improve_path (h ∷ hs) v = do
  parent ← parent_of h v
  elim parent [ none ↦ ok (none, v) | some the_tuple ↦ extend (h ∷ hs) the_tuple v ]
