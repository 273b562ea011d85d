-- ===== src/Backup/Runs.antt =====
-- One run of Execute from a backed directory: on every branch the directory stays backed, and after a run
-- without an error the backups hold the whole database.
use mpcium.Base.{
  ℕ, suc, ◌+◌, ◌%◌, ◌^◌, ◌<◌, ◌≤◌, ◌≡◌, refl, sym, ◌∙◌, true, false, ◌||◌, ltb, ltb_ge, ltb_no,
  ◌==◌, ==_iff, Option, none, some, [], ◌∷◌, length, Str, str_eq_refl, Dict, lookup, insert,
  lookup-insert, Outcome, ok, err, IsOk, Bool-cases, inl, inr, arith,
}
use mathlib.Core.Path.{subst}
use mpcium.Encryption.{encrypt_aes_gcm}
use mpcium.Backup.{
  Library, Badger, Executor, Run, Error, Written, not_opened, cut_at, all_written, VersionInfo,
  Done, latest_version, backup_file, backup_name, new_meta, load_version_info, write_backup,
  execute_dump, execute, saved, backup_failed, create_failed, unreadable_info,
}
use mpcium.Backup.Restore.{is_backup_name, open_backup}
use mpcium.Backup.Format.{open_backup-backup_file}
use mpcium.Backup.Names.{backup_name-is_backup_name}
use mpcium.Backup.Steps.{
  IsWhole, IsClean, Contains, Covers, IsBacked, latest_version-ne, latest_version-not_backup,
  Covers-mono, Covers-insert, newer_name, load_version_info-insert, sealed-insert,
}

is_empty : (s : Str) → (length s == 0) ≡ true → s ≡ []
is_empty [] e = refl
is_empty (c ∷ s) e = ground arith

module _ (lib : Library) (B : Badger) (x : Executor) (k : lib.aead.is_key x.key ≡ true)
    (P : B.Entry → Type 0) (n : ℕ) (db : B.Db) (all : (y : B.Entry) → B.Holds db y → P y) where
  -- The backups of a directory hold the database.
  abbrev pub HoldsAll : ℕ → Dict Str → Type 0
  HoldsAll v dir = (y : B.Entry) → B.Holds db y → Covers lib B x dir v y

  -- What holds after a run.
  abbrev pub Ran : Dict Str × Outcome Error Done → Type 0
  Ran r = IsBacked lib B x P (suc n) db r.0 × (IsOk r.1 → HoldsAll (suc n) r.0)

  module _ (dir : Dict Str) (b : IsBacked lib B x P n db dir) where
    IsBacked-suc : IsBacked lib B x P (suc n) db dir
    IsBacked-suc = record {
      sealed = b.sealed;
      version = b.version;
      since = b.since;
      loaded = b.loaded;
      counted = omega (arith, b.counted);
      since-le = b.since-le;
      covered = b.covered;
    }

    -- A run that only fails.
    failed : (e : Error) → Ran (dir, err e)
    failed e = (IsBacked-suc, λ h. absurd h)

    module _ (run : Run) (c : IsClean lib x run) (plain : Str) (next : ℕ)
        (backup : B.backup db b.since ≡ some (plain, next)) (small : b.version + 1 < 2 ^ 64) where
      -- Where the run is skipped, no entry is newer than the last backup.
      nothing_newer :
          (length plain == 0 || next == b.since) ≡ true
          → (y : B.Entry) → B.Holds db y
          → b.since < B.version y
          → ⊥
      nothing_newer skip y h newer =
          let (dumped, le) = B.dumps db b.since next plain backup y h newer in
          elim (Bool-cases (length plain == 0)) [
            | inl e ↦ B.nothing_dumped y (rw (← is_empty plain e) dumped)
            | inr e ↦ absurd (omega (arith, (==_iff next b.since).0 (ground (arith, skip))))
          ]

      nothing_new : (length plain == 0 || next == b.since) ≡ true → HoldsAll b.version dir
      nothing_new skip y h = elim (Bool-cases (ltb b.since (B.version y))) [
        | inl newer ↦ absurd (nothing_newer skip y h (ground arith))
        | inr older ↦ b.covered y h (ltb_no _ _ older)
      ]

      abbrev name : Str
      name = backup_name x.node_id run.now (b.version + 1)

      abbrev content : Str
      content =
          backup_file lib (new_meta lib x run c.random b.since next)
            (lib.aead.seal x.key c.random plain)

      opened : open_backup lib x content ≡ ok plain
      unfolding new_meta
      opened =
          open_backup-backup_file lib x (new_meta lib x run c.random b.since next) c.random plain
            refl k c.nonce_sized (c.meta_small b.since next)

      contained : Contains lib B x content P
      contained = record {
        plain = plain;
        opened = opened;
        loads = B.loads db b.since next plain backup;
        dumped = λ y d. all y (B.dumps_only db b.since next plain backup y d);
      }

      abbrev dir_with_file : Dict Str
      dir_with_file = insert name content dir

      not_hidden :
          (y : B.Entry) → Covers lib B x dir b.version y → Covers lib B x dir_with_file b.version y
      not_hidden y =
          Covers-insert lib B x dir b.version y name content
            (λ now i timed le. newer_name lib B x dir b.version run.now now i c.timed timed le)

      -- The new file has what is newer than the last backup, and the files before it have the rest.
      file-HoldsAll : HoldsAll (b.version + 1) dir_with_file
      file-HoldsAll y h = elim (Bool-cases (ltb b.since (B.version y))) [
        | inl newer ↦ record {
          number = b.version + 1;
          now = run.now;
          timed = c.timed;
          numbered = omega arith;
          content = content;
          found = lookup-insert name name content dir ∙ rw (str_eq_refl name) refl;
          plain = plain;
          opened = opened;
          dumped = (B.dumps db b.since next plain backup y h (ground arith)).0;
        }
        | inr older ↦
            Covers-mono lib B x dir_with_file b.version (b.version + 1) y (omega arith)
              (not_hidden y (b.covered y h (ltb_no _ _ older)))
      ]

      file-sealed :
          (m t : Str)
          → lookup m dir_with_file ≡ some t
          → is_backup_name m ≡ true
          → Contains lib B x t P
      file-sealed = sealed-insert lib B x dir P name content (λ _. contained) b.sealed

      -- The file is written, and the version file is not.
      file-IsBacked : IsBacked lib B x P (suc n) db dir_with_file
      file-IsBacked = record {
        sealed = file-sealed;
        version = b.version;
        since = b.since;
        loaded = λ r readable.
            rw
              (load_version_info-insert lib r name content dir
                (backup_name-is_backup_name x.node_id run.now (b.version + 1)))
              (b.loaded r readable);
        counted = omega (arith, b.counted);
        since-le = b.since-le;
        covered = λ y h le. not_hidden y (b.covered y h le);
      }

      abbrev info_text : Str
      info_text =
          lib.marshal_info
            (record { version = b.version + 1; since = next; updated_at = run.updated_at })

      abbrev dir_with_both : Dict Str
      dir_with_both = insert latest_version info_text dir_with_file

      saved-HoldsAll : HoldsAll (b.version + 1) dir_with_both
      saved-HoldsAll y h =
          Covers-insert lib B x dir_with_file (b.version + 1) y latest_version info_text
            (λ now i timed le. latest_version-ne _ (backup_name-is_backup_name x.node_id now i))
            (file-HoldsAll y h)

      loaded-saved :
          (r : Run)
          → r.readable ≡ true
          → (i : VersionInfo) × (load_version_info lib r dir_with_both ≡ ok i)
            × (i.version ≡ b.version + 1)
            × (i.since ≡ next)
      unfolding load_version_info
      loaded-saved r readable =
          let info : VersionInfo = record {
            version = b.version + 1;
            since = next;
            updated_at = run.updated_at;
          } in
          (
            info,
            rw
                (
                  readable,
                  lookup-insert latest_version latest_version info_text dir_with_file,
                  str_eq_refl latest_version,
                  lib.unmarshal-marshal_info info,
                )
                refl,
            refl,
            refl,
          )

      -- Both files are written.
      saved-IsBacked : IsBacked lib B x P (suc n) db dir_with_both
      saved-IsBacked = record {
        sealed =
            sealed-insert lib B x dir_with_file P latest_version info_text
              (λ h. let no = latest_version-not_backup in cc) file-sealed;
        version = b.version + 1;
        since = next;
        loaded = loaded-saved;
        counted = omega (arith, b.counted);
        since-le = B.next-le db b.since next plain backup;
        covered = λ y h le. saved-HoldsAll y h;
      }

      HoldsAll-suc : (d : Dict Str) (v : ℕ) → v ≤ suc n → HoldsAll v d → HoldsAll (suc n) d
      HoldsAll-suc d v le all y h = Covers-mono lib B x d v (suc n) y le (all y h)

      abbrev ended : Dict Str × Outcome Error Done
      ended =
          write_backup lib x run (b.version + 1) next (new_meta lib x run c.random b.since next)
            (lib.aead.seal x.key c.random plain) dir

      not_large :
          ltb 4294967295 (length (lib.marshal_meta (new_meta lib x run c.random b.since next)))
          ≡ false
      not_large = ltb_ge _ _ (omega (arith, c.meta_small b.since next))

      ended_unsaved :
          run.file ≡ all_written → run.version_file ≡ not_opened → ended ≡ (dir_with_file, ok saved)
      unfolding write_backup
      ended_unsaved ef eg = rw (write_backup, not_large, ef, eg) refl

      ended_saved :
          run.file ≡ all_written
          → run.version_file ≡ all_written
          → ended ≡ (dir_with_both, ok saved)
      unfolding write_backup
      ended_saved ef eg = rw (write_backup, not_large, ef, eg) refl

      -- The writing of the two files, each whole or not at all.
      write_backup-Ran :
          (f g : Written) → run.file ≡ f → run.version_file ≡ g → IsWhole f → IsWhole g → Ran ended
      unfolding write_backup
      write_backup-Ran not_opened g ef eg wf wg = rw (write_backup, ef) (failed create_failed)
      write_backup-Ran (cut_at m) g ef eg wf wg = absurd wf
      write_backup-Ran all_written not_opened ef eg wf wg = rw (ended_unsaved ef eg) (
        file-IsBacked,
        λ _. HoldsAll-suc dir_with_file (b.version + 1) (omega (arith, b.counted)) file-HoldsAll,
      )
      write_backup-Ran all_written (cut_at m) ef eg wf wg = absurd wg
      write_backup-Ran all_written all_written ef eg wf wg = rw (ended_saved ef eg) (
        saved-IsBacked,
        λ _. HoldsAll-suc dir_with_both (b.version + 1) (omega (arith, b.counted)) saved-HoldsAll,
      )

      -- The run once Backup has given a dump.
      execute_dump-Ran : Ran (execute_dump lib B x run b.version b.since plain next dir)
      unfolding execute_dump encrypt_aes_gcm
      execute_dump-Ran = elim (Bool-cases (length plain == 0 || next == b.since)) [
        | inl skip ↦
            rw (execute_dump, skip)
              (
                IsBacked-suc,
                λ _. HoldsAll-suc dir b.version (omega (arith, b.counted)) (nothing_new skip),
              )
        | inr more ↦
            rw (execute_dump, more, c.nonce_given, k, no_wrap)
              (write_backup-Ran run.file run.version_file refl refl c.file_whole
                c.version_file_whole)
      ]
        where
          no_wrap : (b.version + 1) % 2 ^ 64 ≡ b.version + 1
          no_wrap = omega (arith, small)

    module _ (run : Run) (c : IsClean lib x run) (small : suc n < 2 ^ 64) where
      -- What Execute does once it has the version info.
      abbrev dumped : ℕ → ℕ → Dict Str × Outcome Error Done
      dumped version since = elim (B.backup db since) [
        | none ↦ (dir, err backup_failed)
        | some (plain, next) ↦ execute_dump lib B x run version since plain next dir
      ]

      by_dump :
          (r : Option (Str × ℕ))
          → B.backup db b.since ≡ r
          → Ran (elim r [
            | none ↦ (dir, err backup_failed)
            | some (plain, next) ↦ execute_dump lib B x run b.version b.since plain next dir
          ])
      by_dump none e = failed backup_failed
      by_dump (some (plain, next)) e =
          execute_dump-Ran run c plain next e (omega (arith, b.counted, small))

    -- A run of Execute.
    pub execute-Ran :
        (run : Run) → IsClean lib x run → suc n < 2 ^ 64 → Ran (execute lib B x run db dir)
    unfolding execute
    execute-Ran run c small = elim (Bool-cases run.readable) [
      | inl readable ↦
          let (i, loaded, v, s) = b.loaded run readable in
          rw (execute, loaded)
            (subst (λ w. Ran (dumped run c small w i.since)) (sym v)
              (subst (λ t. Ran (dumped run c small b.version t)) (sym s)
                (by_dump run c small (B.backup db b.since) refl)))
      | inr unreadable ↦ rw (execute, load_version_info, unreadable) (failed unreadable_info)
    ]
