-- ===== src/Handlers/Getdata.antt =====
-- The answer of the handlers to a getdata message.
use pycoinnet.Prelude.{
  ℕ, ◌==◌, ==_iff, ◌≡◌, ◌⊎◌, inl, inr, refl, ◌∙◌, ap, arith, none, some, Option-cases, List, [],
  ◌∷◌, map, length, true, false, Bool-cases, Bytes, bytes_key, In,
}
use pycoinnet.Dict.{Dict, lookup}
use pycoinnet.Inv.{InvItem}
use pycoinnet.Handlers.{notfound, object, sort_items, answer_getdata}

module _ {Object : Type 0} (item_type : ℕ) (store : Dict Bytes Object) where
  abbrev pub IsAsked : InvItem → List InvItem → Type 0
  IsAsked x xs = In x xs × (x.item_type ≡ item_type)

  later : (x y : InvItem) (ys : List InvItem) → IsAsked x ys → IsAsked x (y ∷ ys)
  later x y ys (k, t) = (inr k, t)

  module _ (y : InvItem) (ys : List InvItem) where
    skipped :
        (y.item_type == item_type) ≡ false
        → sort_items item_type store (y ∷ ys) ≡ sort_items item_type store ys
    unfolding sort_items
    skipped e = rw e refl

    absent :
        (y.item_type == item_type) ≡ true
        → lookup y.the_data store ≡ none
        → sort_items item_type store (y ∷ ys)
          ≡ (y ∷ (sort_items item_type store ys).0, (sort_items item_type store ys).1)
    unfolding sort_items
    absent e h = rw (e, h) refl

    present :
        {o : Object}
        → (y.item_type == item_type) ≡ true
        → lookup y.the_data store ≡ some o
        → sort_items item_type store (y ∷ ys)
          ≡ ((sort_items item_type store ys).0, o ∷ (sort_items item_type store ys).1)
    unfolding sort_items
    present e h = rw (e, h) refl

  sort_items_lem :
      (xs : List InvItem) (x : InvItem)
      → IsAsked x xs
      → ((o : Object) × (lookup x.the_data store ≡ some o) × In o (sort_items item_type store xs).1)
        ⊎ ((lookup x.the_data store ≡ none) × In x (sort_items item_type store xs).0)
  sort_items_lem [] x (k, t) = elim k [ ]
  sort_items_lem (y ∷ ys) x (k, t) = elim (Bool-cases (y.item_type == item_type)) [
    | inr e ↦ rw (skipped y ys e) (elim k [
      | inl same ↦ absurd (grind (arith, ap (λ z. z.item_type) same, ==_iff y.item_type item_type))
      | inr there ↦ sort_items_lem ys x (there, t)
    ])
    | inl e ↦ elim (Option-cases (lookup y.the_data store)) [
      | inl h ↦ rw (absent y ys e h) (elim k [
        | inl same ↦ inr (ap (λ z. lookup z.the_data store) same ∙ h, inl same)
        | inr there ↦ elim (sort_items_lem ys x (there, t)) [
          | inl found ↦ inl found
          | inr (q, m) ↦ inr (q, inr m)
        ]
      ])
      | inr (o, h) ↦ rw (present y ys e h) (elim k [
        | inl same ↦ inl (o, ap (λ z. lookup z.the_data store) same ∙ h, inl refl)
        | inr there ↦ elim (sort_items_lem ys x (there, t)) [
          | inl (p, q, m) ↦ inl (p, q, inr m)
          | inr missing ↦ inr missing
        ]
      ])
    ]
  ]

In-map : {A B : Type 0} (f : A → B) (a : A) (xs : List A) → In a xs → In (f a) (map f xs)
In-map f a [] k = elim k [ ]
In-map f a (x ∷ xs) (inl e) = inl (ap f e)
In-map f a (x ∷ xs) (inr k) = inr (In-map f a xs k)

answer_shape :
    {Object : Type 0} (Header : Type 0) (item_type : ℕ) (store : Dict Bytes Object)
    (items : List InvItem)
    → ((answer_getdata {Header = Header} item_type store items
          ≡ map object (sort_items item_type store items).1)
        × (length (sort_items item_type store items).0 ≡ 0))
      ⊎ (answer_getdata {Header = Header} item_type store items
          ≡ notfound (sort_items item_type store items).0
            ∷ map object (sort_items item_type store items).1)
unfolding answer_getdata
answer_shape Header item_type store items =
    elim (Bool-cases (length (sort_items item_type store items).0 == 0)) [
      | inl e ↦ inl (rw e refl, (==_iff _ 0).0 e)
      | inr e ↦ inr (rw e refl)
    ]

nothing-In : {A : Type 0} (a : A) (xs : List A) → length xs ≡ 0 → In a xs → In a []
nothing-In a [] h k = k
nothing-In a (x ∷ xs) h k = absurd (omega arith)

-- Every item of the wanted type in a getdata message is answered: with its object if the store has
-- one, and in a notfound message otherwise.
pub answer_getdata_lem :
    {Object : Type 0} (Header : Type 0) (item_type : ℕ) (store : Dict Bytes Object)
    (items : List InvItem) (x : InvItem)
    → In x items
    → x.item_type ≡ item_type
    → ((o : Object) × (lookup x.the_data store ≡ some o)
        × In (object o) (answer_getdata {Header = Header} item_type store items))
      ⊎ ((lookup x.the_data store ≡ none)
          × (ns : List InvItem) × In
              (notfound ns)
              (answer_getdata {Header = Header} item_type store items)
          × In x ns)
answer_getdata_lem Header item_type store items x k t =
    elim (answer_shape Header item_type store items) [
      | inl (shape, empty) ↦ elim (sort_items_lem item_type store items x (k, t)) [
        | inl (o, h, m) ↦
            inl (o, h, rw shape (In-map object o (sort_items item_type store items).1 m))
        | inr (h, m) ↦ elim (nothing-In x (sort_items item_type store items).0 empty m) [ ]
      ]
      | inr shape ↦ elim (sort_items_lem item_type store items x (k, t)) [
        | inl (o, h, m) ↦
            inl (o, h, rw shape (inr (In-map object o (sort_items item_type store items).1 m)))
        | inr (h, m) ↦ inr (h, (sort_items item_type store items).0, rw shape (inl refl), m)
      ]
    ]
