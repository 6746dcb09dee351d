-- ===== src/Keeper/Saved.antt =====
-- The file of addresses, written and read.
use pycoinnet.Prelude.{
  print_ℤ-Lacks, ℕ, ◌<◌, ◌≤◌, ◌≡◌, ◌≢◌, refl, sym, ap, ◌∙◌, arith, Option, none, some, List, [],
  ◌∷◌, ◌++◌, append-nil, append_assoc, length, Bytes, ℤ, print_ℤ, int_of-print_ℤ, split_on,
  lines_of, Lacks, split_on-part, split_on-last, lines_of-line, universal_newlines-id,
  drop_last-snoc, All, All-append, ok, inl, inr,
}
use mathlib.Core.Path.{subst}
use pycoinnet.Dict.{Dict, lookup, put, Distinct, put-absent, put-absent-All}
use pycoinnet.Keeper.{
  HostPort, host_port_key, AddressDb, entry_of, load_lines, load_addresses, after_lines,
  print_entry, print_all, save,
}

-- No character of the host separates fields or lines.
pub record IsPlain (host : Bytes) : Type 0 where
  pub no_slash : Lacks b'/' host
  pub no_line_feed : Lacks b'\n' host
  pub no_return : Lacks b'\r' host

abbrev pub ArePlain : Dict HostPort ℤ → Type 0
ArePlain = All (λ entry. IsPlain (entry.0).host)

-- A line without its line feed.
line : HostPort × ℤ → Bytes
line (key, timestamp) = print_ℤ timestamp ++ b'/' ∷ (key.host ++ b'/' ∷ print_ℤ key.port)

print_entry-line :
    (entry : HostPort × ℤ) (s : Bytes) → print_entry entry ++ s ≡ line entry ++ b'\n' ∷ s
unfolding print_entry line
print_entry-line (key, timestamp) s = simp append_assoc

line-Lacks :
    (c : ℕ) → c < b'-' → (entry : HostPort × ℤ) → Lacks c (entry.0).host → Lacks c (line entry)
unfolding line
line-Lacks c h (key, timestamp) a =
    All-append (λ x. x ≢ c) (print_ℤ timestamp) _ (print_ℤ-Lacks c (inl h) timestamp)
      (
        omega arith,
        All-append (λ x. x ≢ c) key.host _ a (omega arith, print_ℤ-Lacks c (inl h) key.port),
      )

entry_of-line :
    (entry : HostPort × ℤ)
    → Lacks b'/' (entry.0).host
    → entry_of (split_on b'/' (line entry)) ≡ ok entry
unfolding line entry_of
entry_of-line (key, timestamp) p =
    ap entry_of (
      split_on-part b'/' (print_ℤ timestamp) _ (print_ℤ-Lacks b'/' (inr refl) timestamp)
      ∙ ap (λ t. print_ℤ timestamp ∷ t)
          (split_on-part b'/' key.host _ p
            ∙ ap (λ t. key.host ∷ t)
                (split_on-last b'/' (print_ℤ key.port) (print_ℤ-Lacks b'/' (inr refl) key.port))))
    ∙ rw (entry_of, int_of-print_ℤ timestamp, int_of-print_ℤ key.port) refl

print_all-no_return : (d : Dict HostPort ℤ) → ArePlain d → Lacks b'\r' (print_all d)
unfolding print_all
print_all-no_return [] a = tt
print_all-no_return (entry ∷ d) a =
    subst (Lacks b'\r') (sym (print_entry-line entry (print_all d))) (
      All-append (λ x. x ≢ b'\r') (line entry) _
        (line-Lacks b'\r' (omega arith) entry (a.0).no_return)
        (omega arith, print_all-no_return d a.1))

lines_of-print_all :
    (entry : HostPort × ℤ) (d : Dict HostPort ℤ)
    → IsPlain (entry.0).host
    → lines_of (print_all (entry ∷ d)) ≡ (line entry ++ b'\n' ∷ []) ∷ lines_of (print_all d)
unfolding print_all
lines_of-print_all entry d p =
    ap lines_of (print_entry-line entry (print_all d))
    ∙ lines_of-line (line entry) (print_all d) (line-Lacks b'\n' (omega arith) entry p.no_line_feed)

-- None of the keys is in a dict.
AreNew : Dict HostPort ℤ → Dict HostPort ℤ → Type 0
AreNew old = All (λ entry. lookup (entry.0) old ≡ none)

load_line_step :
    (entry : HostPort × ℤ) (lines : List Bytes) (old : Dict HostPort ℤ)
    → IsPlain (entry.0).host
    → load_lines ((line entry ++ b'\n' ∷ []) ∷ lines) old
      ≡ load_lines lines (put (entry.0) (entry.1) old)
unfolding load_lines
load_line_step entry lines old p =
    rw (load_lines, drop_last-snoc (line entry) b'\n', entry_of-line entry p.no_slash) refl

load_lines-print_all :
    (d old : Dict HostPort ℤ)
    → Distinct d
    → AreNew old d
    → ArePlain d
    → load_lines (lines_of (print_all d)) old ≡ (old ++ d, none)
unfolding AreNew print_all load_lines lines_of
load_lines-print_all [] old h n p = ap (λ l. (l, none)) (sym (append-nil old))
load_lines-print_all (entry ∷ d) old h n p =
    ap (λ ls. (load_lines ls old)) (lines_of-print_all entry d p.0)
    ∙ load_line_step entry _ old p.0
    ∙ load_lines-print_all d (put (entry.0) (entry.1) old) h.1
        (put-absent-All (entry.0) (entry.1) old d n.1 h.0) p.1
    ∙ ap (λ l. (l ++ d, none)) (put-absent (entry.0) (entry.1) old n.0)
    ∙ ap (λ l. (l, none)) (append_assoc old (entry ∷ []) d)

new_to_empty : (d : Dict HostPort ℤ) → AreNew [] d
unfolding AreNew lookup
new_to_empty [] = tt
new_to_empty (entry ∷ d) = (refl, new_to_empty d)

load_text :
    (text : Bytes) (d : Dict HostPort ℤ)
    → Lacks b'\r' text
    → load_lines (lines_of text) [] ≡ (d, none)
    → load_addresses (some text) ≡ d
unfolding load_addresses after_lines
load_text text d h e =
    ap (λ t. after_lines (load_lines (lines_of t) [])) (universal_newlines-id text h)
    ∙ ap after_lines e

save_enough :
    (db : AddressDb) (file : Option Bytes)
    → 2 ≤ length db.addresses
    → save db file ≡ some (print_all db.addresses)
unfolding save
save_enough db file enough = ground arith

-- The file that `save` writes is read back as the addresses it was written from, in their order,
-- when there are two at least, no address stands twice, and no host has a slash or an end of line.
pub load_addresses-save :
    (db : AddressDb) (file : Option Bytes)
    → 2 ≤ length db.addresses
    → Distinct db.addresses
    → ArePlain db.addresses
    → load_addresses (save db file) ≡ db.addresses
load_addresses-save db file enough h p =
    ap load_addresses (save_enough db file enough)
    ∙ load_text (print_all db.addresses) db.addresses (print_all-no_return db.addresses p)
        (load_lines-print_all db.addresses [] h (new_to_empty db.addresses) p)
