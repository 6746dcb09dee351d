-- ===== src/Dict.antt =====
-- Python's `dict` as an association list without repeated keys: `put` replaces the value of a
-- key in place, and a new key goes to the end.
use mathlib.Core.Path.{subst}
use pycoinnet.Prelude.{
  ◌≡◌, refl, sym, ◌∙◌, inl, inr, Bool-cases, true, false, Option, none, some, List, [], ◌∷◌, ◌++◌,
  Eq, All, arith, if◌then◌else◌,
}

abbrev pub Dict {ℓ κ} : Type ℓ → Type κ → Type (ℓ ⊔ κ)
Dict K V = List (K × V)

module _ {ℓ κ} {K : Type ℓ} {V : Type κ} ⦃e : Eq K⦄ where
  -- d.get(k)
  unfoldable pub lookup : K → Dict K V → Option V
  lookup k [] = none
  lookup k ((j, v) ∷ d) = let rest = lookup k d in if e.beq j k then some v else rest

  -- d[k] = v
  unfoldable pub put : K → V → Dict K V → Dict K V
  put k v [] = (k, v) ∷ []
  put k v ((j, w) ∷ d) = let rest = put k v d in if e.beq j k then (k, v) ∷ d else (j, w) ∷ rest

  -- d.pop(k, None)
  unfoldable pub remove : K → Dict K V → Dict K V
  remove k [] = []
  remove k ((j, w) ∷ d) = let rest = remove k d in if e.beq j k then rest else (j, w) ∷ rest

  pub lookup-put :
      (k j : K) (v : V) (d : Dict K V)
      → lookup j (put k v d) ≡ (if e.beq k j then some v else lookup j d)
  unfolding lookup put
  lookup-put k j v [] = refl
  lookup-put k j v ((i, w) ∷ d) =
      ground (arith, e.beq_iff k j, e.beq_iff i k, e.beq_iff i j, lookup-put k j v d)

  pub lookup-remove :
      (k j : K) (d : Dict K V) → lookup j (remove k d) ≡ (if e.beq k j then none else lookup j d)
  unfolding lookup remove
  lookup-remove k j [] = ground arith
  lookup-remove k j ((i, w) ∷ d) =
      ground (arith, e.beq_iff k j, e.beq_iff i k, e.beq_iff i j, lookup-remove k j d)

pub beq_self {ℓ} : {K : Type ℓ} ⦃e : Eq K⦄ (k : K) → e.beq k k ≡ true
beq_self ⦃e⦄ k = (e.beq_iff k k).1 refl

pub ne_swap {ℓ} : {K : Type ℓ} ⦃e : Eq K⦄ (k j : K) → e.beq j k ≡ false → e.beq k j ≡ false
ne_swap ⦃e⦄ k j t = ground (arith, e.beq_iff k j, e.beq_iff j k)

module _ {ℓ κ} {K : Type ℓ} {V : Type κ} ⦃e : Eq K⦄ where
  -- No key stands twice.
  abbrev pub Distinct : Dict K V → Type (ℓ ⊔ κ)
  Distinct [] = Unit
  Distinct ((k, v) ∷ d) = (lookup k d ≡ none) × Distinct d

  absent_cons :
      (k j : K) (w : V) (d : Dict K V)
      → lookup k ((j, w) ∷ d) ≡ none
      → (e.beq j k ≡ false) × (lookup k d ≡ none)
  unfolding lookup
  absent_cons k j w d h = elim (Bool-cases (e.beq j k)) [
    | inl t ↦ absurd (some_none (sym (rw t refl) ∙ h))
    | inr t ↦ (t, sym (rw t refl) ∙ h)
  ]
    where
      some_none : some w ≡ none → ⊥
      some_none = cc

  pub put-absent : (k : K) (v : V) (d : Dict K V) → lookup k d ≡ none → put k v d ≡ d ++ (k, v) ∷ []
  unfolding put
  put-absent k v [] h = refl
  put-absent k v ((j, w) ∷ d) h =
      let (t, absent) = absent_cons k j w d h in rw (t, put-absent k v d absent) refl

  pub Distinct-put : (k : K) (v : V) (d : Dict K V) → Distinct d → Distinct (put k v d)
  unfolding put lookup
  Distinct-put k v [] h = (refl, h)
  Distinct-put k v ((j, w) ∷ d) h = elim (Bool-cases (e.beq j k)) [
    | inl t ↦ rw (Distinct, t) (subst (λ i. lookup i d ≡ none) ((e.beq_iff j k).0 t) (h.0), h.1)
    | inr t ↦
        rw (Distinct, t) (lookup-put k j v d ∙ rw (ne_swap k j t) (h.0), Distinct-put k v d h.1)
  ]

  pub Distinct-remove : (k : K) (d : Dict K V) → Distinct d → Distinct (remove k d)
  unfolding remove
  Distinct-remove k [] h = h
  Distinct-remove k ((j, w) ∷ d) h = elim (Bool-cases (e.beq j k)) [
    | inl t ↦ rw (Distinct, t) (Distinct-remove k d h.1)
    | inr t ↦
        rw (Distinct, t) (lookup-remove k j d ∙ rw (ne_swap k j t) (h.0), Distinct-remove k d h.1)
  ]

  -- Keys that are not in a dict are not in it after a write to another key.
  pub put-absent-All :
      (k : K) (v : V) (old d : Dict K V)
      → All (λ entry. lookup (entry.0) old ≡ none) d
      → lookup k d ≡ none
      → All (λ entry. lookup (entry.0) (put k v old) ≡ none) d
  put-absent-All k v old [] a h = tt
  put-absent-All k v old ((j, w) ∷ d) a h =
      let (t, absent) = absent_cons k j w d h in
      (lookup-put k j v old ∙ rw (ne_swap k j t) (a.0), put-absent-All k v old d a.1 absent)
