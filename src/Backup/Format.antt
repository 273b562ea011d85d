-- ===== src/Backup/Format.antt =====
-- The format of the files: what Execute writes is what loadEncryptedBackup reads.
use mpcium.Base.{
  ℕ, ◌<◌, ◌≡◌, refl, true, ltb_ge, ◌++◌, length, take_append, drop_append, length-append, Str,
  str_eq_refl, ok, arith, ==_iff,
}
use mpcium.Encryption.{decrypt_aes_gcm}
use mpcium.Backup.{Library, Executor, Meta, magic, backup_file}
use mpcium.Text.Endian.{big_endian_32, read-big_endian_32}
use mpcium.Backup.Restore.{read_full, open_backup}

read_full_append : (n : ℕ) (s t : Str) → length s ≡ n → read_full n (s ++ t) ≡ ok (s, t)
unfolding read_full
read_full_append n s t e = rw (← e) (
    rw
      (
        ltb_ge (length (s ++ t)) (length s) (omega (arith, length-append s t)),
        take_append s t,
        drop_append s t,
      )
      refl)

decrypt-seal :
    (lib : Library) (key nonce plain : Str)
    → lib.aead.is_key key ≡ true
    → length nonce ≡ lib.aead.nonce_size
    → decrypt_aes_gcm lib.aead (lib.aead.seal key nonce plain) key nonce ≡ ok plain
unfolding decrypt_aes_gcm
decrypt-seal lib key nonce plain k n =
    rw
      (
        k,
        n,
        (==_iff lib.aead.nonce_size lib.aead.nonce_size).1 refl,
        lib.aead.unseal-seal key nonce plain k n,
      )
      refl

module _ (lib : Library) (x : Executor) (meta : Meta) (nonce : Str) where
  pub open_backup-backup_file :
      (plain : Str)
      → meta.nonce_b64 ≡ lib.encode_base64 nonce
      → lib.aead.is_key x.key ≡ true
      → length nonce ≡ lib.aead.nonce_size
      → length (lib.marshal_meta meta) < 4294967296
      → open_backup lib x (backup_file lib meta (lib.aead.seal x.key nonce plain)) ≡ ok plain
  unfolding open_backup backup_file
  open_backup-backup_file plain b k n small =
      let json = lib.marshal_meta meta in
      let ct = lib.aead.seal x.key nonce plain in
      rw
        (
          read_full_append 13 magic (big_endian_32 (length json) ++ (json ++ ct)) refl,
          str_eq_refl magic,
          read_full_append 4 (big_endian_32 (length json)) (json ++ ct) refl,
          read-big_endian_32 (length json) small,
          read_full_append (length json) json ct refl,
          lib.unmarshal-marshal_meta meta,
          b,
          lib.decode-encode_base64 nonce,
          decrypt-seal lib x.key nonce plain k n,
        )
        refl
