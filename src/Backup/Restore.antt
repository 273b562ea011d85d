-- ===== src/Backup/Restore.antt =====
-- Restoring: SortedEncryptedBackups, RestoreAllBackupsEncrypted and loadEncryptedBackup.
use mpcium.Base.{
  ℕ, Bool, true, false, not, ◌&&◌, if◌then◌else◌, ltb, ◌==◌, Option, none, some, List, [], ◌∷◌,
  length, take, drop, select, Str, codes, str_eq, Dict, lookup, Outcome, ok, err, ◌>>=◌, fail_if,
}
use mpcium.Encryption.{decrypt_aes_gcm}
use mpcium.Backup.{
  Library, Badger, Executor, Error, short_read, bad_magic, bad_meta, bad_nonce, load_failed,
  open_failed, mkdir_failed, open_db_failed, close_failed, decryption_failed, magic,
}
use mpcium.Text.Endian.{read_big_endian_32}

-- What the calls of a restoring give.
pub record Restoring : Type 0 where
  pub makes_dir : Bool
  pub opens_db : Bool
  pub opens : Str → Bool
  pub closes : Bool

unfoldable pub starts_with : Str → Str → Bool
starts_with [] s = true
starts_with (c ∷ p) [] = false
starts_with (c ∷ p) (d ∷ s) = (c == d) && starts_with p s

-- The name ends in a suffix after some first bytes.
unfoldable pub ends_with : Str → Str → Bool
ends_with p [] = str_eq p []
ends_with p (d ∷ s) = let rest = ends_with p s in if str_eq p (d ∷ s) then true else rest

-- The pattern "backup-*.enc" on a name in the directory.
unfoldable pub is_backup_name : Str → Bool
unfolding starts_with ends_with
is_backup_name name = starts_with (codes "backup-") name && ends_with (codes ".enc") (drop 7 name)

-- `s <= t` on strings
unfoldable pub str_le : Str → Str → Bool
str_le [] t = true
str_le (a ∷ s) [] = false
str_le (a ∷ s) (b ∷ t) =
    let rest = str_le s t in if ltb a b then true else if a == b then rest else false

unfoldable pub insert_sorted : Str → List Str → List Str
unfolding str_le
insert_sorted s [] = s ∷ []
insert_sorted s (t ∷ ts) =
    let rest = insert_sorted s ts in if str_le s t then s ∷ t ∷ ts else t ∷ rest

-- sort.Strings
unfoldable pub sort_strings : List Str → List Str
unfolding insert_sorted
sort_strings [] = []
sort_strings (s ∷ ss) = insert_sorted s (sort_strings ss)

abbrev pub names_of : Dict Str → List Str
names_of [] = []
names_of ((k, v) ∷ d) = k ∷ names_of d

-- SortedEncryptedBackups
unfoldable pub sorted_encrypted_backups : Dict Str → List Str
unfolding sort_strings is_backup_name
sorted_encrypted_backups dir = sort_strings (select is_backup_name (names_of dir))

-- io.ReadFull of n bytes: the bytes and what is left.
unfoldable pub read_full : ℕ → Str → Outcome Error (Str × Str)
read_full n s = if ltb (length s) n then err short_read else ok (take n s, drop n s)

module _ (lib : Library) (x : Executor) where
  -- The part of loadEncryptedBackup between os.Open and db.Load.
  unfoldable pub open_backup : Str → Outcome Error Str
  unfolding read_full read_big_endian_32
  open_backup content = do
    first ← read_full (length magic) content
    is_magic ← fail_if (not (str_eq first.0 magic)) bad_magic
    size ← read_full 4 first.1
    text ← read_full (read_big_endian_32 size.0) size.1
    elim (lib.unmarshal_meta text.0) [
      | none ↦ err bad_meta
      | some meta ↦ elim (lib.decode_base64 meta.nonce_b64) [
        | none ↦ err bad_nonce
        | some nonce ↦ elim (decrypt_aes_gcm lib.aead text.1 x.key nonce) [
          | err e ↦ err (decryption_failed e)
          | ok plain ↦ ok plain
        ]
      ]
    ]

  module _ (B : Badger) where
    abbrev pub or_load_failed : Option B.Db → Outcome Error B.Db
    or_load_failed none = err load_failed
    or_load_failed (some e) = ok e

    -- loadEncryptedBackup on the content of the file.
    unfoldable pub load_encrypted_backup : B.Db → Str → Outcome Error B.Db
    unfolding open_backup
    load_encrypted_backup e content =
        open_backup content >>= λ plain. or_load_failed (B.load e plain)

    -- loadEncryptedBackup
    unfoldable pub load_file : Restoring → Dict Str → Str → B.Db → Outcome Error B.Db
    unfolding load_encrypted_backup
    load_file r dir name e =
        if r.opens name
        then elim (lookup name dir) [ none ↦ err open_failed | some c ↦ load_encrypted_backup e c ]
        else err open_failed

    -- The loop over the files.
    unfoldable pub load_files : Restoring → Dict Str → List Str → B.Db → Outcome Error B.Db
    unfolding load_file
    load_files r dir [] e = ok e
    load_files r dir (name ∷ names) e = load_file r dir name e >>= λ e'. load_files r dir names e'

    -- RestoreAllBackupsEncrypted into the database at the path.
    unfoldable pub restore_all_backups_encrypted : Restoring → Dict Str → B.Db → Outcome Error B.Db
    unfolding load_files sorted_encrypted_backups
    restore_all_backups_encrypted r dir e = do
      made ← fail_if (not r.makes_dir) mkdir_failed
      opened ← fail_if (not r.opens_db) open_db_failed
      e' ← load_files r dir (sorted_encrypted_backups dir) e
      closed ← fail_if (not r.closes) close_failed
      ok e'
