-- ===== src/Murmur/Tests.antt =====
-- `murmur3` at published test vectors of MurmurHash3_x86_32.
use pycoinnet.Prelude.{◌≡◌, refl, [], ◌∷◌, arith}
use pycoinnet.Murmur.{murmur3}
use pycoinnet.Murmur.Reference.{reference_murmur3, murmur3-reference}

no_data : murmur3 [] 1 ≡ 0x514e28b7
unfolding murmur3
no_data = refl

hello : murmur3 (104 ∷ 101 ∷ 108 ∷ 108 ∷ 111 ∷ []) 0 ≡ 0x248bfa47
unfolding murmur3
hello = refl

murmur3-reference_example :
    murmur3 (104 ∷ 101 ∷ 108 ∷ 108 ∷ 111 ∷ []) 0
    ≡ reference_murmur3 (104 ∷ 101 ∷ 108 ∷ 108 ∷ 111 ∷ []) 0
murmur3-reference_example =
    murmur3-reference (104 ∷ 101 ∷ 108 ∷ 108 ∷ 111 ∷ []) 0
      (omega arith, (omega arith, (omega arith, (omega arith, (omega arith, tt)))))
