-- ===== src/Backup/Names.antt =====
-- The names of the backups: the pattern of the restoring takes them, runs with different version numbers give
-- different names, and sorting keeps each name.
use mpcium.Base.{
  ℕ, ◌≡◌, refl, ap, ◌∙◌, true, ◌&&◌, ◌||◌, some, List, [], ◌∷◌, ◌++◌, length, select, Str, codes,
  str_eq, str_eq_refl, Dict, lookup, contains, contains-select, append_cancel, arith, Bool-cases,
  inl, inr, length-append,
}
use mpcium.Text.Decimal.{print_decimal, print_decimal-injective}
use mpcium.Backup.{backup_name}
use mpcium.Backup.Restore.{
  starts_with, ends_with, is_backup_name, insert_sorted, sort_strings, names_of,
  sorted_encrypted_backups,
}

-- Texts of one length in front of something can be taken off.
append_injective :
    (s s' t t' : Str) → length s ≡ length s' → s ++ t ≡ s' ++ t' → (s ≡ s') × (t ≡ t')
append_injective [] [] t t' l e = (refl, e)
append_injective [] (c ∷ s') t t' l e = ground arith
append_injective (c ∷ s) [] t t' l e = ground arith
append_injective (c ∷ s) (d ∷ s') t t' l e =
    let rest = append_injective s s' t t' (ground arith) (cc) in ground arith

append_suffix_injective : (s s' t : Str) → s ++ t ≡ s' ++ t → s ≡ s'
append_suffix_injective s s' t e =
    (append_injective s s' t t (omega (arith, length-append s t, length-append s' t, ap length e))
      e).0

pub backup_name-injective :
    (node_id now now' : Str) (v v' : ℕ)
    → length now ≡ length now'
    → backup_name node_id now v ≡ backup_name node_id now' v'
    → v ≡ v'
unfolding backup_name
backup_name-injective node_id now now' v v' l e =
    let after_node =
      append_cancel (codes "-") _ _
        (append_cancel node_id _ _ (append_cancel (codes "backup-") _ _ e)) in
    let after_now = append_cancel (codes "-") _ _ (append_injective now now' _ _ l after_node).1 in
    print_decimal-injective v v' (append_suffix_injective _ _ (codes ".enc") after_now)

starts_with-append : (p s : Str) → starts_with p (p ++ s) ≡ true
unfolding starts_with
starts_with-append [] s = refl
starts_with-append (c ∷ p) s = ground (arith, starts_with-append p s)

ends_with_self : (p : Str) → ends_with p p ≡ true
unfolding ends_with
ends_with_self [] = str_eq_refl []
ends_with_self (c ∷ p) = rw (str_eq_refl (c ∷ p)) refl

ends_with-append : (p s t : Str) → ends_with p t ≡ true → ends_with p (s ++ t) ≡ true
unfolding ends_with
ends_with-append p [] t h = h
ends_with-append p (c ∷ s) t h = ground (arith, ends_with-append p s t h)

pub backup_name-is_backup_name :
    (node_id now : Str) (v : ℕ) → is_backup_name (backup_name node_id now v) ≡ true
unfolding is_backup_name backup_name
backup_name-is_backup_name node_id now v =
    let suffix = codes ".enc" in
    rw
      (starts_with-append (codes "backup-")
        (node_id ++ (codes "-" ++ (now ++ (codes "-" ++ (print_decimal v ++ suffix))))))
      (ends_with-append suffix node_id _ (
        ends_with-append suffix (codes "-") _ (
          ends_with-append suffix now _ (
            ends_with-append suffix (codes "-") _
              (ends_with-append suffix (print_decimal v) suffix (ends_with_self suffix))))))

contains-insert_sorted :
    (s x : Str) (ss : List Str) → contains (insert_sorted s ss) x ≡ (str_eq s x || contains ss x)
unfolding contains insert_sorted
contains-insert_sorted s x [] = refl
contains-insert_sorted s x (t ∷ ts) = ground (arith, contains-insert_sorted s x ts)

contains-sort_strings : (x : Str) (ss : List Str) → contains (sort_strings ss) x ≡ contains ss x
unfolding contains sort_strings
contains-sort_strings x [] = refl
contains-sort_strings x (s ∷ ss) =
    contains-insert_sorted s x (sort_strings ss)
    ∙ ap (λ b. str_eq s x || b) (contains-sort_strings x ss)

-- A name is restored if and only if it is in the directory and has the pattern.
pub contains-sorted_encrypted_backups :
    (x : Str) (dir : Dict Str)
    → contains (sorted_encrypted_backups dir) x ≡ (is_backup_name x && contains (names_of dir) x)
unfolding sorted_encrypted_backups
contains-sorted_encrypted_backups x dir =
    contains-sort_strings x (select is_backup_name (names_of dir))
    ∙ contains-select is_backup_name x (names_of dir)

-- The names of a directory are those under which it has a file.
pub contains-names_of :
    (x : Str) (dir : Dict Str)
    → contains (names_of dir) x ≡ true
    → (c : Str) × (lookup x dir ≡ some c)
unfolding contains lookup
contains-names_of x [] h = cc
contains-names_of x ((k, v) ∷ dir) h = elim (Bool-cases (str_eq k x)) [
  | inl e ↦ (v, rw e refl)
  | inr e ↦ let rest = contains-names_of x dir (ground arith) in (rest.0, rw e rest.1)
]

pub lookup-names_of :
    (x c : Str) (dir : Dict Str) → lookup x dir ≡ some c → contains (names_of dir) x ≡ true
unfolding contains lookup
lookup-names_of x c [] h = cc
lookup-names_of x c ((k, v) ∷ dir) h = ground (arith, lookup-names_of x c dir)
