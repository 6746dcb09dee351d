-- ===== src/DictStore/Refinement.antt =====
-- The directory of files of pycoinnet/util/DictStoreSimple.py beside a mapping.
use mathlib.Core.Path.{subst, subst₂}
use pycoinnet.Prelude.{
  ◌⊎◌, ◌≡◌, refl, sym, ◌∙◌, if◌then◌else◌, Option, none, some, List, [], ◌∷◌, true, false, Bytes,
  bytes_eq, bytes_key, inl, inr, All, ok, err, Result, Error, key_error,
}
use pycoinnet.Dict.{Dict, lookup, put, remove, lookup-put, lookup-remove}
use pycoinnet.DictStore.{path_for_hash, set_item, get_item, del_item}
use pycoinnet.DictStore.Names.{AreBytes, WritesHex, path_test}

pub data Op (V : Type 0) : Type 0 where
  set_op : Bytes → V → Op V
  get_op : Bytes → Op V
  del_op : Bytes → Op V

pub data Reply (V : Type 0) : Type 0 where
  done : Reply V
  value : V → Reply V
  raised : Error → Reply V

-- The operations on a mapping, which is a function from the keys.
abbrev pub Mapping : Type 0 → Type 0
Mapping V = Bytes → Option V

module _ {V : Type 0} where
  update : Bytes → Option V → Mapping V → Mapping V
  update key o m j = if bytes_eq key j then o else m j

  answer : Option V → Reply V
  answer none = raised key_error
  answer (some v) = value v

  pub spec_step : Op V → Mapping V → Mapping V × Reply V
  unfolding update answer
  spec_step (set_op key v) m = (update key (some v) m, done)
  spec_step (get_op key) m = (m, answer (m key))
  spec_step (del_op key) m = elim (m key) [
    | none ↦ (m, raised key_error)
    | some v ↦ (update key none m, done)
  ]

  abbrev pub op_key : Op V → Bytes
  op_key (set_op key v) = key
  op_key (get_op key) = key
  op_key (del_op key) = key

-- A run of operations from a state, with their replies.
module _ {S V : Type 0} (step : Op V → S → S × Reply V) where
  unfoldable pub run : List (Op V) → S → S × List (Reply V)
  run [] s = (s, [])
  run (op ∷ ops) s =
      let (s1, reply) = step op s in let (s2, replies) = run ops s1 in (s2, reply ∷ replies)

module _ (prefix : Bytes) (b2h_rev : Bytes → Bytes) {V : Type 0} (parse_f : Bytes → Result V)
    (stream_f : V → Bytes × Option Error) where
  set_reply : Dict Bytes Bytes × Result (Unit {0}) → Dict Bytes Bytes × Reply V
  set_reply (files, ok u) = (files, done)
  set_reply (files, err e) = (files, raised e)

  get_reply : Dict Bytes Bytes → Result V → Dict Bytes Bytes × Reply V
  get_reply files (ok v) = (files, value v)
  get_reply files (err e) = (files, raised e)

  del_reply : Dict Bytes Bytes → Result (Dict Bytes Bytes) → Dict Bytes Bytes × Reply V
  del_reply files (ok files1) = (files1, done)
  del_reply files (err e) = (files, raised e)

  -- The operations of the source.
  pub store_step : Op V → Dict Bytes Bytes → Dict Bytes Bytes × Reply V
  unfolding set_reply get_reply del_reply
  store_step (set_op key v) files = set_reply (set_item prefix b2h_rev parse_f stream_f key v files)
  store_step (get_op key) files =
      get_reply files (get_item prefix b2h_rev parse_f stream_f key files)
  store_step (del_op key) files = del_reply files (del_item prefix b2h_rev key files)

  -- A file and the value that it holds, or neither.
  Holds : Option Bytes → Option V → Type 0
  Holds none none = Unit
  Holds none (some v) = ⊥
  Holds (some content) none = ⊥
  Holds (some content) (some v) = parse_f content ≡ ok v

  -- The directory has the file of a key when the mapping has its value.
  pub Represents : Dict Bytes Bytes → Mapping V → Type 0
  unfolding Holds
  Represents files m =
      (key : Bytes) → AreBytes key → Holds (lookup (path_for_hash prefix b2h_rev key) files) (m key)

  pub nothing-Represents : Represents [] (λ key. none)
  unfolding Represents Holds lookup
  nothing-Represents key h = tt

  module _ (writes_hex : WritesHex b2h_rev)
      (reads_back : (v : V) → (parse_f ((stream_f v).0) ≡ ok v) × ((stream_f v).1 ≡ none)) where
    Represents-put :
        (key content : Bytes) (v : V) (files : Dict Bytes Bytes) (m : Mapping V)
        → AreBytes key
        → parse_f content ≡ ok v
        → Represents files m
        → Represents (put (path_for_hash prefix b2h_rev key) content files) (update key (some v) m)
    unfolding Represents update Holds
    Represents-put key content v files m hk e r j hj =
        subst (λ o. Holds o (if bytes_eq key j then some v else m j))
          (sym (
            lookup-put (path_for_hash prefix b2h_rev key) (path_for_hash prefix b2h_rev j) content
              files
            ∙ rw (path_test prefix b2h_rev writes_hex key j hk hj) refl))
          (elim (bytes_eq key j)
            as (λ b.
              Holds (if b then some content else lookup (path_for_hash prefix b2h_rev j) files)
                (if b then some v else m j)) [ true ↦ e | false ↦ r j hj ])

    Represents-remove :
        (key : Bytes) (files : Dict Bytes Bytes) (m : Mapping V)
        → AreBytes key
        → Represents files m
        → Represents (remove (path_for_hash prefix b2h_rev key) files) (update key none m)
    unfolding Represents update Holds
    Represents-remove key files m hk r j hj =
        subst (λ o. Holds o (if bytes_eq key j then none else m j))
          (sym (
            lookup-remove (path_for_hash prefix b2h_rev key) (path_for_hash prefix b2h_rev j) files
            ∙ rw (path_test prefix b2h_rev writes_hex key j hk hj) refl))
          (elim (bytes_eq key j)
            as (λ b.
              Holds (if b then none else lookup (path_for_hash prefix b2h_rev j) files)
                (if b then none else m j)) [ true ↦ tt | false ↦ r j hj ])

    -- A step on the directory and a step on the mapping, from states that correspond.
    Agree : Dict Bytes Bytes × Reply V → Mapping V × Reply V → Type 0
    Agree (files, reply) (m, wanted) = Represents files m × (reply ≡ wanted)

    set_agrees :
        (key : Bytes) (v : V) (files : Dict Bytes Bytes) (m : Mapping V)
        → AreBytes key
        → Represents files m
        → Agree (store_step (set_op key v) files) (spec_step (set_op key v) m)
    unfolding store_step spec_step set_item set_reply Agree
    set_agrees key v files m hk r =
        subst (λ p. Agree p (spec_step (set_op key v) m)) (sym written)
          (Represents-put key ((stream_f v).0) v files m hk (reads_back v).0 r, refl)
      where
        written :
            store_step (set_op key v) files
            ≡ (put (path_for_hash prefix b2h_rev key) ((stream_f v).0) files, done)
        written = rw (set_item, (reads_back v).1) refl

    at-Agree :
        {p p' : Dict Bytes Bytes × Reply V} {q q' : Mapping V × Reply V}
        → p ≡ p'
        → q ≡ q'
        → Agree p' q'
        → Agree p q
    at-Agree e f a = subst₂ Agree (sym e) (sym f) a

    Both : Option Bytes → Option V → Type 0
    Both o w =
        ((o ≡ none) × (w ≡ none))
        ⊎ ((content : Bytes) × (v : V) × (o ≡ some content)
            × (w ≡ some v)
            × (parse_f content ≡ ok v))

    Holds-Both : (o : Option Bytes) (w : Option V) → Holds o w → Both o w
    unfolding Holds Both
    Holds-Both none none h = inl (refl, refl)
    Holds-Both none (some v) h = elim h [ ]
    Holds-Both (some content) none h = elim h [ ]
    Holds-Both (some content) (some v) h = inr (content, v, refl, refl, h)

    get_agrees :
        (key : Bytes) (files : Dict Bytes Bytes) (m : Mapping V)
        → Represents files m
        → Both (lookup (path_for_hash prefix b2h_rev key) files) (m key)
        → Agree (store_step (get_op key) files) (spec_step (get_op key) m)
    unfolding store_step spec_step get_item get_reply Agree answer Both
    get_agrees key files m r (inl (e, f)) =
        at-Agree {p' = (files, raised key_error)} {q' = (m, raised key_error)}
          (rw (get_item, e) refl) (rw f refl) (r, refl)
    get_agrees key files m r (inr (content, v, e, f, k)) =
        at-Agree {p' = (files, value v)} {q' = (m, value v)} (rw (get_item, e, k) refl) (rw f refl)
          (r, refl)

    del_agrees :
        (key : Bytes) (files : Dict Bytes Bytes) (m : Mapping V)
        → AreBytes key
        → Represents files m
        → Both (lookup (path_for_hash prefix b2h_rev key) files) (m key)
        → Agree (store_step (del_op key) files) (spec_step (del_op key) m)
    unfolding store_step spec_step del_item del_reply Agree Both
    del_agrees key files m hk r (inl (e, f)) =
        at-Agree {p' = (files, raised key_error)} {q' = (m, raised key_error)}
          (rw (del_item, e) refl) (rw (spec_step, f) refl) (r, refl)
    del_agrees key files m hk r (inr (content, v, e, f, k)) =
        at-Agree {p' = (remove (path_for_hash prefix b2h_rev key) files, done)}
          {q' = (update key none m, done)} (rw (del_item, e) refl) (rw (spec_step, f) refl)
          (Represents-remove key files m hk r, refl)

    step_agrees :
        (op : Op V) (files : Dict Bytes Bytes) (m : Mapping V)
        → AreBytes (op_key op)
        → Represents files m
        → Agree (store_step op files) (spec_step op m)
    unfolding Represents
    step_agrees (set_op key v) files m hk r = set_agrees key v files m hk r
    step_agrees (get_op key) files m hk r = get_agrees key files m r (Holds-Both _ _ (r key hk))
    step_agrees (del_op key) files m hk r = del_agrees key files m hk r (Holds-Both _ _ (r key hk))

    -- A run of gets, sets and deletes of keys that are byte strings, over a directory that represents
    -- a mapping, gives the replies that the mapping gives, KeyErrors included, and leaves a directory
    -- that represents the mapping after the run. It holds of `b2h_rev` that writes the reverse in
    -- hexadecimal, and of a `parse_f` that reads back what `stream_f` writes.
    pub run_refines :
        (ops : List (Op V)) (files : Dict Bytes Bytes) (m : Mapping V)
        → All (λ op. AreBytes (op_key op)) ops
        → Represents files m
        → Represents (run store_step ops files).0 (run spec_step ops m).0
          × ((run store_step ops files).1 ≡ (run spec_step ops m).1)
    unfolding run Agree
    run_refines [] files m h r = (r, refl)
    run_refines (op ∷ ops) files m h r =
        let (r1, same) = step_agrees op files m h.0 r in
        let (r2, rest) = run_refines ops ((store_step op files).0) ((spec_step op m).0) h.1 r1 in
        (r2, λ i. same i ∷ rest i)
