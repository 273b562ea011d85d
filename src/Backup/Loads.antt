-- ===== src/Backup/Loads.antt =====
-- Loading the files of a backed directory one after another.
use mpcium.Base.{
  ◌≡◌, refl, sym, ap, ◌∙◌, true, ◌&&◌, some, List, [], ◌∷◌, Str, str_eq, str_eq_iff, str_eq_refl,
  Dict, lookup, contains, Outcome, ok, Bool-cases, inl, inr, ◌⊎◌, arith,
}
use mpcium.Backup.{Library, Badger, Executor, Error}
use mpcium.Backup.Restore.{
  Restoring, is_backup_name, open_backup, load_encrypted_backup, load_file, load_files, names_of,
  sorted_encrypted_backups, restore_all_backups_encrypted,
}
use mpcium.Backup.Names.{contains-sorted_encrypted_backups, contains-names_of, lookup-names_of}
use mpcium.Backup.Steps.{Contains}

-- A restoring in which every call but the loading works.
pub record IsWorking (r : Restoring) : Type 0 where
  pub makes_dir : r.makes_dir ≡ true
  pub opens_db : r.opens_db ≡ true
  pub opens : (name : Str) → r.opens name ≡ true
  pub closes : r.closes ≡ true

module _ (lib : Library) (B : Badger) (x : Executor) (P : B.Entry → Type 0) (r : Restoring)
    (w : IsWorking r) (dir : Dict Str)
    (sealed : (name content : Str)
      → lookup name dir ≡ some content
      → is_backup_name name ≡ true
      → Contains lib B x content P) where
  -- What loading some files into a database gives.
  pub record Loaded (names : List Str) (e e' : B.Db) : Type 0 where
    pub kept : (y : B.Entry) → B.Holds e y → B.Holds e' y
    pub loaded :
        (name content plain : Str)
        → contains names name ≡ true
        → lookup name dir ≡ some content
        → open_backup lib x content ≡ ok plain
        → (y : B.Entry) → B.Dumped plain y
        → B.Holds e' y
    pub only : (y : B.Entry) → B.Holds e' y → B.Holds e y ⊎ P y

  load_file-sealed :
      (name content : Str) (e : B.Db)
      → lookup name dir ≡ some content
      → (c : Contains lib B x content P)
      → (e' : B.Db) × (load_file lib x B r dir name e ≡ ok e') × (B.load e c.plain ≡ some e')
  unfolding load_file load_encrypted_backup
  load_file-sealed name content e found c =
      let (e', l) = c.loads e in (e', rw (w.opens name, found, c.opened, l) refl, l)

  ok-injective : (s t : Str) → ◌≡◌ {A = Outcome Error Str} (ok s) (ok t) → s ≡ t
  ok-injective s t e = cc

  -- What a file restores to is determined by its name.
  same_plain :
      (m n s t p q : Str)
      → m ≡ n
      → lookup m dir ≡ some s
      → lookup n dir ≡ some t
      → open_backup lib x s ≡ ok p
      → open_backup lib x t ≡ ok q
      → q ≡ p
  same_plain m n s t p q e f g o o' =
      let same : s ≡ t = cc in ok-injective q p (sym o' ∙ ap (open_backup lib x) (sym same) ∙ o)

  load_files-Loaded :
      (names : List Str)
      → ((name : Str)
          → contains names name ≡ true
          → (is_backup_name name ≡ true) × (content : Str) × (lookup name dir ≡ some content))
      → (e : B.Db) → (e' : B.Db) × (load_files lib x B r dir names e ≡ ok e') × Loaded names e e'
  unfolding load_files contains
  load_files-Loaded [] h e =
      (e, refl, record { kept = λ y q. q; loaded = λ n c p m. cc; only = λ y q. inl q })
  load_files-Loaded (name ∷ names) h e =
      let (b, content, found) = h name (rw (str_eq_refl name) refl) in
      let c = sealed name content found b in
      let (e1, step, load) = load_file-sealed name content e found c in
      let (e', rest, l) = load_files-Loaded names (λ n m. h n (ground (arith, m))) e1 in
      (
        e',
        rw (load_files, step) rest,
        record {
          kept = λ y q. l.kept y ((B.load-Holds e e1 c.plain load y).0 q);
          loaded = λ n t p m f o y d. elim (Bool-cases (str_eq name n)) [
            | inl same ↦ l.kept y (
                (B.load-Holds e e1 c.plain load y).1 (
                  rw
                    (← same_plain name n content t c.plain p ((str_eq_iff name n).0 same) found f
                      c.opened o)
                    d))
            | inr other ↦ l.loaded n t p (ground (arith, m)) f o y d
          ];
          only = λ y q. elim (l.only y q) [
            | inr p ↦ inr p
            | inl q1 ↦ elim ((B.load-Holds e e1 c.plain load y).2 q1) [
              | inl q0 ↦ inl q0
              | inr d ↦ inr (c.dumped y d)
            ]
          ];
        },
      )

  -- RestoreAllBackupsEncrypted loads each backup of the directory.
  pub restore-Loaded :
      (e : B.Db)
      → (e' : B.Db) × (restore_all_backups_encrypted lib x B r dir e ≡ ok e')
        × Loaded (sorted_encrypted_backups dir) e e'
  unfolding restore_all_backups_encrypted
  restore-Loaded e =
      let (e', loads, l) = load_files-Loaded (sorted_encrypted_backups dir) listed e in
      (e', rw (w.makes_dir, w.opens_db, loads, w.closes) refl, l)
    where
      listed :
          (name : Str)
          → contains (sorted_encrypted_backups dir) name ≡ true
          → (is_backup_name name ≡ true) × (content : Str) × (lookup name dir ≡ some content)
      listed name m =
          let both : (is_backup_name name && contains (names_of dir) name) ≡ true =
            sym (contains-sorted_encrypted_backups name dir) ∙ m in
          let (content, found) = contains-names_of name dir (ground (arith, both)) in
          (ground (arith, both), content, found)

  pub listed-lookup :
      (name content : Str)
      → is_backup_name name ≡ true
      → lookup name dir ≡ some content
      → contains (sorted_encrypted_backups dir) name ≡ true
  listed-lookup name content b f =
      contains-sorted_encrypted_backups name dir ∙ rw (b, lookup-names_of name content dir f) refl
