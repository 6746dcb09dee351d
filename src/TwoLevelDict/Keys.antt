-- ===== src/TwoLevelDict/Keys.antt =====
-- A TwoLevelDict as each of its keys sees it: a machine of four states.
use pycoinnet.Prelude.{
  ◌≡◌, refl, ap, ◌∙◌, inl, inr, Bool-cases, if◌then◌else◌, Option, some, none, Option-cases, List,
  [], ◌∷◌, ◌++◌, Eq, Result, ok, err, key_error, ◌>>=◌, arith,
}
use pycoinnet.Dict.{lookup, lookup-put, lookup-remove, beq_self}
use pycoinnet.TwoLevelDict.{TwoLevelDict, set_item, get_item, delete_item, rotate}

pub data Op {ℓ} (K V : Type ℓ) : Type ℓ where
  write : K → V → Op K V
  read : K → Op K V
  delete : K → Op K V
  turn : Op K V

-- A key is in the first level, in the second, or in both, which hides the newer value.
pub data KeyState {ℓ} (V : Type ℓ) : Type ℓ where
  absent : KeyState V
  fresh : V → KeyState V
  stale : V → KeyState V
  shadowed : V → V → KeyState V

module _ {ℓ} {V : Type ℓ} where
  abbrev pub state_of : Option V → Option V → KeyState V
  state_of none none = absent
  state_of (some v) none = fresh v
  state_of none (some w) = stale w
  state_of (some v) (some w) = shadowed w v

  -- A write shows unless the key is in the second level.
  pub written : V → KeyState V → KeyState V
  written v absent = fresh v
  written v (fresh w) = fresh v
  written v (stale w) = shadowed w v
  written v (shadowed w x) = shadowed w v

  pub touched : KeyState V → KeyState V
  touched absent = absent
  touched (fresh w) = fresh w
  touched (stale w) = fresh w
  touched (shadowed w x) = fresh w

  pub aged : KeyState V → KeyState V
  aged absent = absent
  aged (fresh w) = stale w
  aged (stale w) = absent
  aged (shadowed w x) = stale x

  pub says : KeyState V → Result V
  says absent = err key_error
  says (fresh w) = ok w
  says (stale w) = ok w
  says (shadowed w x) = ok w

module _ {ℓ} {K V : Type ℓ} ⦃e : Eq K⦄ where
  -- The object after an operation; a read that raises KeyError leaves it as it is.
  unfoldable pub apply : Op K V → TwoLevelDict K V → TwoLevelDict K V
  apply (write j v) d = set_item j v d
  apply (read j) d = elim (get_item j d) [ err _ ↦ d | ok (v, d') ↦ d' ]
  apply (delete j) d = delete_item j d
  apply turn d = rotate d

  -- What an operation returns, if it is a read of the key.
  unfoldable pub answer : K → Op K V → TwoLevelDict K V → List (Result V)
  answer k (write j v) d = []
  answer k (read j) d = if e.beq j k then (get_item j d >>= λ (v, d'). ok v) ∷ [] else []
  answer k (delete j) d = []
  answer k turn d = []

  -- What the reads of a key return in a run.
  unfoldable pub reads : K → List (Op K V) → TwoLevelDict K V → List (Result V)
  unfolding answer apply
  reads k [] d = []
  reads k (o ∷ ops) d = answer k o d ++ reads k ops (apply o d)

  -- What happens to the state of a key.
  pub next_state : K → Op K V → KeyState V → KeyState V
  next_state k (write j v) s = if e.beq j k then written v s else s
  next_state k (read j) s = if e.beq j k then touched s else s
  next_state k (delete j) s = if e.beq j k then absent else s
  next_state k turn s = aged s

  pub expected : K → List (Op K V) → KeyState V → List (Result V)
  expected k [] s = []
  expected k (read j ∷ ops) s =
      (if e.beq j k then says s ∷ [] else []) ++ expected k ops (next_state k (read j) s)
  expected k (write j v ∷ ops) s = expected k ops (next_state k (write j v) s)
  expected k (delete j ∷ ops) s = expected k ops (next_state k (delete j) s)
  expected k (turn ∷ ops) s = expected k ops (next_state k turn s)

  abbrev pub state_at : K → TwoLevelDict K V → KeyState V
  state_at k d = state_of (lookup k d.dict) (lookup k d.old_dict)

  state-read :
      (j k : K) (d : TwoLevelDict K V)
      → state_at k (apply (read j) d) ≡ (if e.beq j k then touched (state_at k d) else state_at k d)
  unfolding apply get_item touched
  state-read j k d = elim (Option-cases (lookup j d.old_dict)) [
    | inl o ↦ elim (Option-cases (lookup j d.dict)) [
      | inl n ↦ ground (arith, e.beq_iff j k)
      | inr (v, n) ↦ ground (arith, e.beq_iff j k)
    ]
    | inr (w, o) ↦ ground (
      arith,
      e.beq_iff j k,
      beq_self j,
      lookup-put j j w d.dict,
      lookup-put j k w d.dict,
      lookup-remove j k d.old_dict,
    )
  ]

  state-write :
      (j k : K) (v : V) (d : TwoLevelDict K V)
      → state_at k (set_item j v d) ≡ (if e.beq j k then written v (state_at k d) else state_at k d)
  unfolding set_item written
  state-write j k v d = ground (arith, lookup-put j k v d.dict)

  state-delete :
      (j k : K) (d : TwoLevelDict K V)
      → state_at k (delete_item j d) ≡ (if e.beq j k then absent else state_at k d)
  unfolding delete_item
  state-delete j k d = ground (arith, lookup-remove j k d.dict, lookup-remove j k d.old_dict)

  state-rotate : (k : K) (d : TwoLevelDict K V) → state_at k (rotate d) ≡ aged (state_at k d)
  unfolding rotate aged lookup
  state-rotate k d = ground arith

  state-apply :
      (k : K) (o : Op K V) (d : TwoLevelDict K V)
      → state_at k (apply o d) ≡ next_state k o (state_at k d)
  unfolding apply next_state
  state-apply k (write j v) d = state-write j k v d
  state-apply k (read j) d = state-read j k d
  state-apply k (delete j) d = state-delete j k d
  state-apply k turn d = state-rotate k d

  answer-says :
      (k : K) (d : TwoLevelDict K V) → (get_item k d >>= λ (v, d'). ok v) ≡ says (state_at k d)
  unfolding get_item says
  answer-says k d = elim (Option-cases (lookup k d.old_dict)) [
    | inl o ↦ ground arith
    | inr (w, o) ↦ ground (arith, beq_self k, lookup-put k k w d.dict)
  ]

  answer-read :
      (j k : K) (d : TwoLevelDict K V)
      → answer k (read j) d ≡ (if e.beq j k then says (state_at k d) ∷ [] else [])
  unfolding answer
  answer-read j k d = elim (Bool-cases (e.beq j k)) [
    | inl same ↦ rw same (
        ap (λ r. r ∷ [])
          (ap (λ i. get_item i d >>= (λ (v, d'). ok v)) ((e.beq_iff j k).0 same) ∙ answer-says k d))
    | inr other ↦ rw other refl
  ]

  -- The reads of a key in a run return what a machine for that key alone says: a key in the first level
  -- is moved to the second by a rotation and dropped by the next one, unless a read in between moves it
  -- back; a write replaces the value, but while the key is in the second level it does not show, and
  -- the next read drops it in favour of the old value.
  pub reads-expected :
      (k : K) (ops : List (Op K V)) (d : TwoLevelDict K V)
      → reads k ops d ≡ expected k ops (state_at k d)
  unfolding reads expected answer
  reads-expected k [] d = refl
  reads-expected k (write j v ∷ ops) d =
      reads-expected k ops (apply (write j v) d) ∙ ap (expected k ops) (state-apply k (write j v) d)
  reads-expected k (delete j ∷ ops) d =
      reads-expected k ops (apply (delete j) d) ∙ ap (expected k ops) (state-apply k (delete j) d)
  reads-expected k (turn ∷ ops) d =
      reads-expected k ops (apply turn d) ∙ ap (expected k ops) (state-apply k turn d)
  reads-expected k (read j ∷ ops) d =
      ap (λ l. l ++ reads k ops (apply (read j) d)) (answer-read j k d)
      ∙ ap (λ l. (if e.beq j k then says (state_at k d) ∷ [] else []) ++ l)
          (reads-expected k ops (apply (read j) d) ∙ ap (expected k ops) (state-apply k (read j) d))
