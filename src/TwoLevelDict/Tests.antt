-- ===== src/TwoLevelDict/Tests.antt =====
-- The theorems on TwoLevelDict at sample inputs.
use pycoinnet.TwoLevelDict.Keys.{
  Op, write, read, turn, apply, answer, reads, expected, state_at, reads-expected,
}
use pycoinnet.Prelude.{List, ℕ, ◌≡◌, refl, [], ◌∷◌, nat_eq, ok, err, key_error}
use pycoinnet.Dict.{lookup, put, remove}
use pycoinnet.TwoLevelDict.{TwoLevelDict, set_item, get_item, delete_item, rotate, len, iter}
use pycoinnet.TwoLevelDict.Reads.{value_at}

program : Unit {0}
unfolding lookup put remove set_item get_item delete_item rotate len iter value_at
program = tt

abbrev sample : TwoLevelDict ℕ ℕ
sample = record { dict = (1, 10) ∷ []; old_dict = (2, 20) ∷ [] }

-- A key that is in both levels is counted and listed twice.
listed_twice : (len (set_item 2 21 sample) ≡ 3) × (iter (set_item 2 21 sample) ≡ 1 ∷ 2 ∷ 2 ∷ [])
unfolding program
listed_twice = (refl, refl)

-- A hidden write, a rotation that the reads outlive, and two with no read.
abbrev ops : List (Op ℕ ℕ)
ops = write 2 21 ∷ read 2 ∷ turn ∷ write 1 11 ∷ read 2 ∷ read 1 ∷ turn ∷ turn ∷ read 2 ∷ []

reads-expected_example : reads 2 ops sample ≡ expected 2 ops (state_at 2 sample)
reads-expected_example = reads-expected 2 ops sample

reads_two : reads 2 ops sample ≡ ok 20 ∷ ok 20 ∷ err key_error ∷ []
unfolding program reads apply answer
reads_two = refl
