-- ===== src/Backup/Broken.antt =====
-- A backup whose writing breaks off in the header, and the restoring after it.
use mpcium.Base.{
  ℕ, zero, suc, ◌+◌, ◌%◌, ◌^◌, ◌<◌, ◌≤◌, ◌≡◌, refl, sym, ap, ◌∙◌, Bool, true, false, not, ◌||◌,
  if◌then◌else◌, ltb, ◌==◌, some, List, [], ◌∷◌, length, take, drop, Str, str_eq, str_eq_iff,
  str_eq_refl, Dict, lookup, insert, lookup-insert, contains, Outcome, ok, err, ◌>>=◌, fail_if,
  Bool-cases, Outcome-cases, inl, inr, arith,
}
use mpcium.Encryption.{encrypt_aes_gcm}
use mpcium.Backup.{
  Library, Badger, Executor, Run, Error, VersionInfo, cut_at, magic, backup_name, backup_file,
  new_meta, load_version_info, write_backup, execute_dump, execute, short_read, bad_magic,
  open_failed,
}
use mpcium.Backup.Restore.{
  Restoring, is_backup_name, read_full, open_backup, load_encrypted_backup, load_file, load_files,
  restore_all_backups_encrypted, sorted_encrypted_backups,
}
use mpcium.Backup.Names.{
  contains-sorted_encrypted_backups, lookup-names_of, backup_name-is_backup_name,
}

-- An error.
abbrev pub Fails {ℓ} : {A : Type ℓ} → Outcome Error A → Type ℓ
Fails {A = A} r = (e : Error) × ◌≡◌ {A = Outcome Error A} r (err e)

length-take-le : (n : ℕ) (s : Str) → length (take n s) ≤ n
length-take-le zero s = omega arith
length-take-le (suc n) [] = omega arith
length-take-le (suc n) (c ∷ s) = omega (arith, length-take-le n s)

length-drop-short : (n m : ℕ) (s : Str) → length s < n + m → n ≤ length s → length (drop n s) < m
length-drop-short zero m s h l = omega arith
length-drop-short (suc n) m [] h l = omega arith
length-drop-short (suc n) m (c ∷ s) h l = length-drop-short n m s (omega arith) (omega arith)

ok-ne-err {ℓ} : {A : Type ℓ} (a : A) (e : Error) → ◌≡◌ {A = Outcome Error A} (ok a) (err e) → ⊥
ok-ne-err a e h = cc

-- A failing step after two tests.
guarded-Fails {ℓ κ} :
    {A : Type ℓ} {C : Type κ} (a b : Bool) (e e' : Error) (m : Outcome Error A)
    (g : A → Outcome Error C)
    → Fails m
    → Fails (fail_if (not a) e >>= λ _. fail_if (not b) e' >>= λ _. m >>= g)
guarded-Fails false b e e' m g f = (e, refl)
guarded-Fails true false e e' m g f = (e', refl)
guarded-Fails true true e e' m g (error, f) = (error, rw f refl)

-- A file that is shorter than its header.
open_backup_short :
    (lib : Library) (x : Executor) (s : Str) → length s < 17 → Fails (open_backup lib x s)
unfolding open_backup read_full
open_backup_short lib x s h = elim (Bool-cases (ltb (length s) 13)) [
  | inl short ↦ (short_read, rw (open_backup, short) refl)
  | inr long ↦ elim (Bool-cases (str_eq (take 13 s) magic)) [
    | inr other ↦ (bad_magic, rw (open_backup, long, other) refl)
    | inl same ↦
        let short : ltb (length (drop 13 s)) 4 ≡ true =
          let shorter = length-drop-short 13 4 s (omega arith) (ground arith) in ground arith in
        (short_read, rw (open_backup, long, same, short) refl)
  ]
]

module _ (lib : Library) (B : Badger) (x : Executor) (r : Restoring) (dir : Dict Str) where
  load_file_short :
      (name s : Str) (e : B.Db)
      → lookup name dir ≡ some s
      → length s < 17
      → Fails (load_file lib x B r dir name e)
  unfolding load_file load_encrypted_backup
  load_file_short name s e found h = elim (Bool-cases (r.opens name)) [
    | inl opens ↦ let (error, o) = open_backup_short lib x s h in (error, rw (opens, found, o) refl)
    | inr closed ↦ (open_failed, rw closed refl)
  ]

  load_files_short :
      (name : Str) (names : List Str)
      → ((e : B.Db) → Fails (load_file lib x B r dir name e))
      → contains names name ≡ true
      → (e : B.Db) → Fails (load_files lib x B r dir names e)
  unfolding load_files contains
  load_files_short name [] f m e = cc
  load_files_short name (n ∷ names) f m e = elim (Outcome-cases (load_file lib x B r dir n e)) [
    | inr (error, step) ↦ (error, rw (load_files, step) refl)
    | inl (e1, step) ↦ elim (Bool-cases (str_eq n name)) [
      | inl same ↦
          let (error, wrong) = f e in
          let as_name : n ≡ name = (str_eq_iff n name).0 same in
          absurd
            (ok-ne-err e1 error (sym step ∙ ap (λ t. load_file lib x B r dir t e) as_name ∙ wrong))
      | inr other ↦
          let (error, rest) = load_files_short name names f (ground (arith, m)) e1 in
          (error, rw (load_files, step) rest)
    ]
  ]

  restore_short :
      (name s : Str) (e : B.Db)
      → is_backup_name name ≡ true
      → lookup name dir ≡ some s
      → length s < 17
      → Fails (restore_all_backups_encrypted lib x B r dir e)
  unfolding restore_all_backups_encrypted
  restore_short name s e b found h =
      let listed =
        contains-sorted_encrypted_backups name dir
        ∙ rw (b, lookup-names_of name s dir found) refl in
      guarded-Fails r.makes_dir r.opens_db _ _
        (load_files lib x B r dir (sorted_encrypted_backups dir) e) _
        (load_files_short name (sorted_encrypted_backups dir)
          (λ d. load_file_short name s d found h) listed e)

-- Where Execute has something to write and breaks off within the first 16 bytes of the file, the half-written
-- file stays: whatever its calls give, every restoring of the directory fails.
pub restore-execute_cut :
    (lib : Library) (B : Badger) (x : Executor) (run : Run) (db : B.Db) (dir : Dict Str)
    (info : VersionInfo) (plain ct nonce : Str) (next n : ℕ) (r : Restoring) (e : B.Db)
    → load_version_info lib run dir ≡ ok info
    → B.backup db info.since ≡ some (plain, next)
    → (length plain == 0 || next == info.since) ≡ false
    → encrypt_aes_gcm lib.aead run.nonce plain x.key ≡ ok (ct, nonce)
    → run.file ≡ cut_at n
    → n < 17
    → Fails (restore_all_backups_encrypted lib x B r (execute lib B x run db dir).0 e)
unfolding execute execute_dump write_backup
restore-execute_cut lib B x run db dir info plain ct nonce next n r e loaded dumped more sealed cut
      small =
    let version = (info.version + 1) % 2 ^ 64 in
    let name = backup_name x.node_id run.now version in
    let meta = new_meta lib x run nonce info.since next in
    let content =
      if ltb 4294967295 (length (lib.marshal_meta meta)) then magic else backup_file lib meta ct in
    let left : (execute lib B x run db dir).0 ≡ insert name (take n content) dir =
      rw (execute, loaded, dumped, execute_dump, more, sealed, write_backup, cut) refl in
    let found : lookup name (insert name (take n content) dir) ≡ some (take n content) =
      lookup-insert name name (take n content) dir ∙ rw (str_eq_refl name) refl in
    rw left (
      restore_short lib B x r (insert name (take n content) dir) name (take n content) e
        (backup_name-is_backup_name x.node_id run.now version) found
        (omega (arith, small, length-take-le n content)))
