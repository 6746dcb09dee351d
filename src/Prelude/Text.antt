-- ===== src/Prelude/Text.antt =====
-- Python's texts as lists of character codes: literals, `split`, the lines of a file, `l[:-1]`.
use Prim.Native.Nat.{ℕ}
use Prim.Native.Char.{code}
use Prim.Native.String.{String}
use mathlib.Core.Path.{◌≡◌, refl, ap}
use mathlib.Core.Logic.{◌≢◌}
use mathlib.Core.Bool.{Bool, true, false}
use mathlib.Core.List.{List, [], ◌∷◌, ◌++◌}
use native.Mathlib.Omega.{arith}
use pycoinnet.Prelude.Tests.{◌==◌, if◌then◌else◌}
use pycoinnet.Prelude.ByteString.{Bytes}
use pycoinnet.Prelude.Decimal.{Lacks}

abbrev pub codes : String → Bytes
codes String.[] = []
codes (String.◌∷◌ letter text) = code letter ∷ codes text

-- A code in front of the first of some texts.
unfoldable pub onto_first : ℕ → List Bytes → List Bytes
onto_first c [] = (c ∷ []) ∷ []
onto_first c (t ∷ ts) = (c ∷ t) ∷ ts

-- `text.split(sep)` for a separator of one character
unfoldable pub split_on : ℕ → Bytes → List Bytes
unfolding onto_first
split_on sep [] = [] ∷ []
split_on sep (c ∷ s) =
    let parts = split_on sep s in if c == sep then [] ∷ parts else onto_first c parts

-- The lines of a text, each with its line feed.
unfoldable pub lines_of : Bytes → List Bytes
unfolding onto_first
lines_of [] = []
lines_of (c ∷ s) =
    let lines = lines_of s in if c == b'\n' then (b'\n' ∷ []) ∷ lines else onto_first c lines

-- A carriage return, and one with a line feed after it, is read as a line feed; the first argument
-- says that the code before was a carriage return.
unfoldable pub universal_newlines : Bool → Bytes → Bytes
universal_newlines after_cr [] = []
universal_newlines after_cr (c ∷ s) =
    let behind_cr = universal_newlines true s in
    let behind = universal_newlines false s in
    if c == b'\r'
    then b'\n' ∷ behind_cr
    else if c == b'\n'
    then (if after_cr then behind else b'\n' ∷ behind)
    else c ∷ behind

-- `text[:-1]`
unfoldable pub drop_last : Bytes → Bytes
drop_last [] = []
drop_last (c ∷ []) = []
drop_last (c ∷ d ∷ s) = c ∷ drop_last (d ∷ s)

==_ne : {a b : ℕ} → a ≢ b → (a == b) ≡ false
==_ne h = ground arith

pub split_on-part :
    (sep : ℕ) (part s : Bytes)
    → Lacks sep part
    → split_on sep (part ++ sep ∷ s) ≡ part ∷ split_on sep s
unfolding split_on onto_first
split_on-part sep [] s h = ground (arith, split_on)
split_on-part sep (c ∷ part) s h = rw (==_ne h.0, split_on-part sep part s h.1) refl

pub split_on-last : (sep : ℕ) (part : Bytes) → Lacks sep part → split_on sep part ≡ part ∷ []
unfolding split_on onto_first
split_on-last sep [] h = refl
split_on-last sep (c ∷ part) h = rw (==_ne h.0, split_on-last sep part h.1) refl

pub lines_of-line :
    (line s : Bytes)
    → Lacks b'\n' line
    → lines_of (line ++ b'\n' ∷ s) ≡ (line ++ b'\n' ∷ []) ∷ lines_of s
unfolding lines_of onto_first
lines_of-line [] s h = refl
lines_of-line (c ∷ line) s h = rw (==_ne h.0, lines_of-line line s h.1) refl

pub universal_newlines-id : (s : Bytes) → Lacks b'\r' s → universal_newlines false s ≡ s
unfolding universal_newlines
universal_newlines-id [] h = refl
universal_newlines-id (c ∷ s) h = ground (arith, ==_ne h.0, universal_newlines-id s h.1)

pub drop_last-snoc : (s : Bytes) (c : ℕ) → drop_last (s ++ c ∷ []) ≡ s
unfolding drop_last
drop_last-snoc [] c = refl
drop_last-snoc (x ∷ []) c = refl
drop_last-snoc (x ∷ y ∷ s) c = ap (λ t. x ∷ t) (drop_last-snoc (y ∷ s) c)
