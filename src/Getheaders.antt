-- ===== src/Getheaders.antt =====
-- pycoinnet/peergroup/getheaders.py: an iteration of the loop that asks a peer for headers. The peer
-- that comes out of the queue, its answer, and the block that it gives for a missing header are
-- inputs; the rates that order the queue are not modelled.
pub mod Tips
pub mod Outcomes
mod Tests
use pycoinnet.Prelude.{
  ℕ, ◌-◌, ◌≡◌, Bool, true, false, Option, none, some, List, [], ◌∷◌, ◌++◌, length, Bytes, bytes_eq,
  item_at, Result, ok, err, ◌>>=◌, ℤ, pos, ◌-ℤ◌, ltb_ℤ, if◌then◌else◌,
}
use pycoinnet.Chain.{
  View, Header, hash_initial_block, last_block_index, block_locator_hashes, winnow,
  do_headers_improve_path,
}

-- What `do_get_headers` gives or raises.
pub data Answer : Type 0 where
  headers_answer : List Header → Answer
  end_of_stream timed_out : Answer

pub record Ff : Type 0 where
  pub view : View
  pub reorg_headers : List Header

-- The state after an iteration, whether the peer is put back into the queue, and the arguments of the
-- callback if it is called.
pub record Iteration : Type 0 where
  pub state : Ff
  pub is_put_back : Bool
  pub callback : Option (ℤ × List Header)

abbrev pub nothing_done : Ff → Iteration
nothing_done s = record { state = s; is_put_back = false; callback = none }

-- `lbi - blockchain_view.last_block_index() > 0`
unfoldable pub is_ahead : ℤ → View → Bool
is_ahead lbi v = ltb_ℤ (pos 0) (lbi -ℤ last_block_index v)

-- The block number as the callback uses it: False counts as 0.
abbrev pub number_of : Option ℤ → ℤ
number_of none = pos 0
number_of (some i) = i

-- `do_headers_improve_path` returns False or an index and never None, so the branch for None is not
-- taken.
unfoldable pub improve : List Header → Ff → Result Iteration
improve headers s =
    let reorg_headers = s.reorg_headers ++ headers in
    do_headers_improve_path reorg_headers s.view >>= λ improved. winnow (improved.1) >>= λ v.
    ok (record {
      state = record { view = v; reorg_headers = [] };
      is_put_back = true;
      callback = some (number_of (improved.0), reorg_headers);
    })

-- The genesis block, that the peer leaves out, in front of the headers.
unfoldable pub with_missing :
    (Header → Result Header) → List Bytes → List Header → Result (List Header)
with_missing fetch_missing locator headers = item_at locator (length locator - 1) >>= λ last.
    if bytes_eq last hash_initial_block
    then (item_at headers 0 >>= λ first. fetch_missing first >>= λ extra. ok (extra ∷ headers))
    else ok headers

unfoldable pub on_answer : (Header → Result Header) → List Bytes → Answer → Ff → Result Iteration
unfolding improve with_missing
on_answer fetch_missing locator (headers_answer headers) s =
    with_missing fetch_missing locator headers >>= λ all. improve all s
on_answer fetch_missing locator end_of_stream s = ok (nothing_done s)
on_answer fetch_missing locator timed_out s = ok (nothing_done s)

unfoldable pub run_ff : (Header → Result Header) → ℤ → Answer → Ff → Result Iteration
unfolding on_answer is_ahead
run_ff fetch_missing lbi answer s =
    let asked =
      block_locator_hashes s.view >>= λ locator. on_answer fetch_missing locator answer s in
    if is_ahead lbi s.view then asked else ok (nothing_done s)
