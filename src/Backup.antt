-- ===== src/Backup.antt =====
-- The encrypted, incremental backups of pkg/kvstore/badger_backup.go.
pub mod Format
pub mod Restore
mod Names
mod Steps
mod Runs
mod Loads
pub mod History
pub mod Broken
pub mod Samples
mod Examples
use mpcium.Base.{
  ℕ, zero, suc, ◌+◌, ◌*◌, ◌/◌, ◌%◌, ◌^◌, ◌<◌, ◌≤◌, ◌≡◌, Bool, true, false, not, ◌&&◌, ◌||◌,
  if◌then◌else◌, ◌==◌, ltb, leb, Option, none, some, List, [], ◌∷◌, ◌++◌, map, length, take, drop,
  select, Str, codes, str_eq, Dict, lookup, insert, Outcome, ok, err, ◌>>=◌, fail_if, ◌⊎◌,
}
use mpcium.Encryption
use mpcium.Encryption.{Aead, encrypt_aes_gcm, decrypt_aes_gcm}
use mpcium.Text.Decimal.{print_decimal}
use mpcium.Text.Endian.{big_endian_32, read_big_endian_32}

-- BadgerBackupMeta
pub record Meta : Type 0 where
  pub algo : Str
  pub nonce_b64 : Str
  pub created_at : Str
  pub since : ℕ
  pub next_since : ℕ
  pub encryption_key_id : Str

-- BadgerBackupVersionInfo
pub record VersionInfo : Type 0 where
  pub version : ℕ
  pub since : ℕ
  pub updated_at : Str

-- AES-GCM, base64, SHA-256 as a key's id, and encoding/json on the two records: what is encoded is
-- read back.
pub record Library : Type 0 where
  pub aead : Aead
  pub encode_base64 : Str → Str
  pub decode_base64 : Str → Option Str
  pub decode-encode_base64 : (s : Str) → decode_base64 (encode_base64 s) ≡ some s
  pub key_id : Str → Str
  pub marshal_meta : Meta → Str
  pub unmarshal_meta : Str → Option Meta
  pub unmarshal-marshal_meta : (m : Meta) → unmarshal_meta (marshal_meta m) ≡ some m
  pub marshal_info : VersionInfo → Str
  pub unmarshal_info : Str → Option VersionInfo
  pub unmarshal-marshal_info : (i : VersionInfo) → unmarshal_info (marshal_info i) ≡ some i

-- BadgerDB, as its documentation has it. A database holds entries, each with the version that its
-- transaction gave it, deletions included. Backup dumps the entries newer than a version and gives the
-- version of the last one dumped; Load adds the entries of a dump.
pub record Badger : Type 1 where
  pub Db : Type 0
  pub Entry : Type 0
  pub version : Entry → ℕ
  pub max_version : Db → ℕ
  pub Holds : Db → Entry → Type 0
  pub Dumped : Str → Entry → Type 0
  pub backup : Db → ℕ → Option (Str × ℕ)
  pub load : Db → Str → Option Db
  pub positive : (d : Db) (x : Entry) → Holds d x → 0 < version x
  pub version-le : (d : Db) (x : Entry) → Holds d x → version x ≤ max_version d
  pub dumps :
      (d : Db) (since next : ℕ) (dump : Str)
      → backup d since ≡ some (dump, next)
      → (x : Entry) → Holds d x
      → since < version x
      → Dumped dump x × (version x ≤ next)
  pub dumps_only :
      (d : Db) (since next : ℕ) (dump : Str)
      → backup d since ≡ some (dump, next)
      → (x : Entry) → Dumped dump x
      → Holds d x
  pub next-le :
      (d : Db) (since next : ℕ) (dump : Str)
      → backup d since ≡ some (dump, next)
      → next ≤ max_version d
  pub nothing_dumped : (x : Entry) → Dumped [] x → ⊥
  pub loads :
      (d : Db) (since next : ℕ) (dump : Str)
      → backup d since ≡ some (dump, next)
      → (e : Db) → (e' : Db) × (load e dump ≡ some e')
  pub load-Holds :
      (e e' : Db) (dump : Str)
      → load e dump ≡ some e'
      → (x : Entry)
      → (Holds e x → Holds e' x)
        × (Dumped dump x → Holds e' x)
        × (Holds e' x → Holds e x ⊎ Dumped dump x)

-- The fields NodeID and BackupEncryptionKey.
pub record Executor : Type 0 where
  pub node_id : Str
  pub key : Str

pub data Error : Type 0 where
  unreadable_info bad_info backup_failed create_failed write_failed meta_too_large short_read
        bad_magic bad_meta bad_nonce load_failed open_failed mkdir_failed open_db_failed
        close_failed :
      Error
  encryption_failed decryption_failed : Encryption.Error → Error

-- How far a file is written: not even opened, broken off after some bytes, or to the end.
pub data Written : Type 0 where
  not_opened all_written : Written
  cut_at : ℕ → Written

-- What the calls of a run of Execute give: the two formats of the time, the time of
-- SaveVersionInfo, whether the version file is readable, the nonce, and the two files' writing.
pub record Run : Type 0 where
  pub now : Str
  pub created_at : Str
  pub updated_at : Str
  pub readable : Bool
  pub nonce : Option Str
  pub file : Written
  pub version_file : Written

abbrev pub magic : Str
magic = codes "MPCIUM_BACKUP"

abbrev pub latest_version : Str
latest_version = codes "latest.version"

-- A file after an attempt to create it with a content.
unfoldable pub write_file : Str → Str → Written → Dict Str → Dict Str
write_file name content not_opened dir = dir
write_file name content (cut_at n) dir = insert name (take n content) dir
write_file name content all_written dir = insert name content dir

-- The name of a backup.
unfoldable pub backup_name : Str → Str → ℕ → Str
backup_name node_id now version =
    codes "backup-"
    ++ (node_id ++ (codes "-" ++ (now ++ (codes "-" ++ (print_decimal version ++ codes ".enc")))))

-- LoadVersionInfo
unfoldable pub load_version_info : Library → Run → Dict Str → Outcome Error VersionInfo
load_version_info lib run dir =
    if run.readable
    then elim (lookup latest_version dir) [
      | none ↦ ok (record { version = 0; since = 0; updated_at = run.updated_at })
      | some text ↦ elim (lib.unmarshal_info text) [ none ↦ err bad_info | some info ↦ ok info ]
    ]
    else err unreadable_info

-- SaveVersionInfo, whose error is only printed.
unfoldable pub save_version_info : Library → Run → ℕ → ℕ → Dict Str → Dict Str
unfolding write_file
save_version_info lib run counter since dir =
    write_file latest_version
      (lib.marshal_info (record { version = counter; since = since; updated_at = run.updated_at }))
      run.version_file dir

unfoldable pub new_meta : Library → Executor → Run → Str → ℕ → ℕ → Meta
new_meta lib x run nonce since next_since = record {
  algo = codes "AES-256-GCM";
  nonce_b64 = lib.encode_base64 nonce;
  created_at = run.created_at;
  since = since;
  next_since = next_since;
  encryption_key_id = take 16 (lib.key_id x.key);
}

-- The bytes of a backup.
unfoldable pub backup_file : Library → Meta → Str → Str
unfolding big_endian_32
backup_file lib meta ct =
    let meta_json = lib.marshal_meta meta in
    magic ++ (big_endian_32 (length meta_json) ++ (meta_json ++ ct))

pub data Done : Type 0 where
  skipped saved : Done

abbrev pub failed_to :
    Written → Dict Str → Dict Str × Outcome Error Done → Dict Str × Outcome Error Done
failed_to not_opened dir r = (dir, err create_failed)
failed_to (cut_at n) dir r = (dir, err write_failed)
failed_to all_written dir r = r

-- The end of Execute, from `os.Create` on.
unfoldable pub write_backup :
    Library → Executor → Run → ℕ → ℕ → Meta → Str → Dict Str → Dict Str × Outcome Error Done
unfolding write_file backup_file save_version_info backup_name
write_backup lib x run version next_since meta ct dir =
    let too_large = ltb 4294967295 (length (lib.marshal_meta meta)) in
    let content = if too_large then magic else backup_file lib meta ct in
    let dir' = write_file (backup_name x.node_id run.now version) content run.file dir in
    failed_to run.file dir' (
      if too_large
      then (dir', err meta_too_large)
      else (save_version_info lib run version next_since dir', ok saved))

module _ (lib : Library) (B : Badger) (x : Executor) where
  -- Execute once Backup has given a dump.
  unfoldable pub execute_dump : Run → ℕ → ℕ → Str → ℕ → Dict Str → Dict Str × Outcome Error Done
  execute_dump run version since plain next_since dir =
      if length plain == 0 || next_since == since
      then (dir, ok skipped)
      else elim (encrypt_aes_gcm lib.aead run.nonce plain x.key) [
        | err e ↦ (dir, err (encryption_failed e))
        | ok c ↦
            write_backup lib x run ((version + 1) % 2 ^ 64) next_since
              (new_meta lib x run c.1 since next_since) c.0 dir
      ]

  -- Execute
  unfoldable pub execute : Run → B.Db → Dict Str → Dict Str × Outcome Error Done
  unfolding load_version_info
  execute run db dir = elim (load_version_info lib run dir) [
    | err e ↦ (dir, err e)
    | ok info ↦ elim (B.backup db info.since) [
      | none ↦ (dir, err backup_failed)
      | some (plain, next_since) ↦ execute_dump run info.version info.since plain next_since dir
    ]
  ]
