-- ===== src/Watcher/Added.antt =====
-- The blocks that changes of the block chain add.
use pycoinnet.Prelude.{
  ◌≡◌, refl, ◌⊎◌, if◌then◌else◌, Bool, List, [], ◌∷◌, ◌++◌, Bool-cases, inl, inr, ℤ, pos, ltb_ℤ,
}
use pycoinnet.Watcher.{Verb, add, remove_block, other, Change, Placed}

-- The blocks of the changes that add one at or above an index.
unfoldable pub added : ℤ → List (Change × Bool) → List Placed
added last [] = []
added last ((change, more) ∷ changes) =
    let rest = added last changes in
    elim change.verb [
      | add ↦
          if ltb_ℤ (pos change.block_index) last
          then rest
          else record { hash = change.block_hash; index = change.block_index } ∷ rest
      | remove_block ↦ rest
      | other ↦ rest
    ]

-- The blocks of one change.
unfoldable pub block_of : ℤ → Change → List Placed
block_of last change = elim change.verb [
  | add ↦
      if ltb_ℤ (pos change.block_index) last
      then []
      else record { hash = change.block_hash; index = change.block_index } ∷ []
  | remove_block ↦ []
  | other ↦ []
]

pub verb_cases : (v : Verb) → (v ≡ add) ⊎ (v ≡ remove_block) ⊎ (v ≡ other)
verb_cases add = inl refl
verb_cases remove_block = inr (inl refl)
verb_cases other = inr (inr refl)

pub added_cons :
    (last : ℤ) (change : Change) (more : Bool) (changes : List (Change × Bool))
    → added last ((change, more) ∷ changes) ≡ block_of last change ++ added last changes
unfolding added block_of
added_cons last change more changes = elim (verb_cases change.verb) [
  | inl e ↦ elim (Bool-cases (ltb_ℤ (pos change.block_index) last)) [
    | inl b ↦ rw (added, block_of, e, b) refl
    | inr b ↦ rw (added, block_of, e, b) refl
  ]
  | inr (inl e) ↦ rw (added, block_of, e) refl
  | inr (inr e) ↦ rw (added, block_of, e) refl
]
