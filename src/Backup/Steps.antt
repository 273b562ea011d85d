-- ===== src/Backup/Steps.antt =====
-- What a directory of backups keeps from run to run of Execute.
use mpcium.Base.{
  ℕ, ◌+◌, ◌<◌, ◌≤◌, ◌≡◌, ◌≢◌, refl, sym, ap, ◌∙◌, true, false, some, length, Str, str_eq,
  str_eq_iff, Dict, lookup, insert, lookup-insert, ok, Bool-cases, inl, inr, arith,
}
use mpcium.Backup.{
  Library, Badger, Executor, Run, Error, Written, not_opened, cut_at, all_written, VersionInfo,
  Done, magic, latest_version, backup_file, backup_name, write_file, new_meta, load_version_info,
  save_version_info, write_backup, execute_dump, execute, failed_to, meta_too_large, saved, skipped,
  encryption_failed, backup_failed,
}
use mpcium.Backup.Restore.{is_backup_name, load_encrypted_backup, open_backup, or_load_failed}
use mpcium.Backup.Names.{backup_name-injective}

-- A file that is not left half-written.
abbrev pub IsWhole : Written → Type 0
IsWhole not_opened = Unit
IsWhole (cut_at n) = ⊥
IsWhole all_written = Unit

-- A run that leaves no file half-written; formats of the time have 19 bytes, nonces the cipher's size.
pub record IsClean (lib : Library) (x : Executor) (run : Run) : Type 0 where
  pub timed : length run.now ≡ 19
  pub random : Str
  pub nonce_given : run.nonce ≡ some random
  pub nonce_sized : length random ≡ lib.aead.nonce_size
  pub meta_small :
      (since next : ℕ)
      → length (lib.marshal_meta (new_meta lib x run random since next)) < 4294967296
  pub file_whole : IsWhole run.file
  pub version_file_whole : IsWhole run.version_file

module _ (lib : Library) (B : Badger) (x : Executor) where
  -- The content restores to a dump with what `D` says of its entries.
  pub record Contains (content : Str) (D : B.Entry → Type 0) : Type 0 where
    pub plain : Str
    pub opened : open_backup lib x content ≡ ok plain
    pub loads : (e : B.Db) → (e' : B.Db) × (B.load e plain ≡ some e')
    pub dumped : (y : B.Entry) → B.Dumped plain y → D y

  -- A backup with a number up to `v` in the directory has the entry.
  pub record Covers (dir : Dict Str) (v : ℕ) (y : B.Entry) : Type 0 where
    pub number : ℕ
    pub now : Str
    pub timed : length now ≡ 19
    pub numbered : number ≤ v
    pub content : Str
    pub found : lookup (backup_name x.node_id now number) dir ≡ some content
    pub plain : Str
    pub opened : open_backup lib x content ≡ ok plain
    pub dumped : B.Dumped plain y

  -- After n runs on the databases so far, of whose entries `P` holds.
  pub record IsBacked (P : B.Entry → Type 0) (n : ℕ) (db : B.Db) (dir : Dict Str) : Type 0 where
    pub sealed :
        (name content : Str)
        → lookup name dir ≡ some content
        → is_backup_name name ≡ true
        → Contains content P
    pub version : ℕ
    pub since : ℕ
    pub loaded :
        (run : Run)
        → run.readable ≡ true
        → (i : VersionInfo) × (load_version_info lib run dir ≡ ok i)
          × (i.version ≡ version)
          × (i.since ≡ since)
    pub counted : version ≤ n
    pub since-le : since ≤ B.max_version db
    pub covered : (y : B.Entry) → B.Holds db y → B.version y ≤ since → Covers dir version y

str_eq-ne : (s t : Str) → s ≢ t → str_eq s t ≡ false
str_eq-ne s t h = elim (Bool-cases (str_eq s t)) [
  | inl e ↦ absurd (h ((str_eq_iff s t).0 e))
  | inr e ↦ e
]

pub latest_version-not_backup : is_backup_name latest_version ≡ false
unfolding is_backup_name mpcium.Backup.Restore.starts_with
latest_version-not_backup = refl

pub latest_version-ne :
    (name : Str) → is_backup_name name ≡ true → str_eq latest_version name ≡ false
latest_version-ne name h =
    str_eq-ne latest_version name
      (λ e. let b = ap is_backup_name e in let c = latest_version-not_backup in cc)

-- A backup does not touch the version file.
pub load_version_info-insert :
    (lib : Library) (run : Run) (name content : Str) (dir : Dict Str)
    → is_backup_name name ≡ true
    → load_version_info lib run (insert name content dir) ≡ load_version_info lib run dir
unfolding load_version_info
load_version_info-insert lib run name content dir h =
    let other : str_eq name latest_version ≡ false =
      str_eq-ne name latest_version
        (λ e. let b = ap is_backup_name e in let c = latest_version-not_backup in cc) in
    rw (lookup-insert name latest_version content dir, other) refl

module _ (lib : Library) (B : Badger) (x : Executor) (dir : Dict Str) where
  pub Covers-mono :
      (v w : ℕ) (y : B.Entry) → v ≤ w → Covers lib B x dir v y → Covers lib B x dir w y
  Covers-mono v w y h c = record {
    number = c.number;
    now = c.now;
    timed = c.timed;
    numbered = omega (arith, c.numbered);
    content = c.content;
    found = c.found;
    plain = c.plain;
    opened = c.opened;
    dumped = c.dumped;
  }

  -- A new file under another name hides no backup.
  pub Covers-insert :
      (v : ℕ) (y : B.Entry) (name content : Str)
      → ((now : Str) (i : ℕ)
          → length now ≡ 19
          → i ≤ v
          → str_eq name (backup_name x.node_id now i) ≡ false)
      → Covers lib B x dir v y
      → Covers lib B x (insert name content dir) v y
  Covers-insert v y name content other c = record {
    number = c.number;
    now = c.now;
    timed = c.timed;
    numbered = c.numbered;
    content = c.content;
    found =
        lookup-insert name (backup_name x.node_id c.now c.number) content dir
        ∙ rw (other c.now c.number c.timed c.numbered) c.found;
    plain = c.plain;
    opened = c.opened;
    dumped = c.dumped;
  }

  pub newer_name :
      (v : ℕ) (now now' : Str) (i : ℕ)
      → length now ≡ 19
      → length now' ≡ 19
      → i ≤ v
      → str_eq (backup_name x.node_id now (v + 1)) (backup_name x.node_id now' i) ≡ false
  newer_name v now now' i l l' h =
      str_eq-ne _ _
        (λ e. omega (arith, h, backup_name-injective x.node_id now now' (v + 1) i (l ∙ sym l') e))

  module _ (P : B.Entry → Type 0) where
    pub sealed-insert :
        (name content : Str)
        → (is_backup_name name ≡ true → Contains lib B x content P)
        → ((n c : Str) → lookup n dir ≡ some c → is_backup_name n ≡ true → Contains lib B x c P)
        → (n c : Str) → lookup n (insert name content dir) ≡ some c
        → is_backup_name n ≡ true
        → Contains lib B x c P
    sealed-insert name content new old n c found b = elim (Bool-cases (str_eq name n)) [
      | inl e ↦
          let same : name ≡ n = (str_eq_iff name n).0 e in
          let eq : content ≡ c = ground (arith, lookup-insert name n content dir) in
          rw (← eq) (new (rw same b))
      | inr e ↦ old n c (ground (arith, lookup-insert name n content dir)) b
    ]
