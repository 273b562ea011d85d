-- ===== src/Backup/Examples.antt =====
-- The theorems on backups with a toy database.
use mpcium.Base.{
  ℕ, ◌+◌, ◌<◌, ◌++◌, List, lookup, ◌≡◌, refl, true, false, some, none, [], ◌∷◌, Str, codes, length,
  length-append, inl, inr, ◌⊎◌, arith, ok, IsOk, Dict,
}
use mpcium.Backup.{Executor, Run, all_written, cut_at, execute, saved, load_version_info}
use mpcium.Backup.Restore.{Restoring, restore_all_backups_encrypted}
use mpcium.Backup.Steps.{IsClean}
use mpcium.Backup.Loads.{IsWorking}
use mpcium.Backup.History.{IsLater, History, IsHistory, Found, backups, restore-backups}
use mpcium.Backup.Broken.{Fails, restore-execute_cut}
use mpcium.Backup.Samples.{toy_codec, toy_badger}

abbrev executor : Executor
executor = record { node_id = codes "n1"; key = codes "k" }

abbrev run_at : Str → Run
run_at now = record {
  now = now;
  created_at = now;
  updated_at = now;
  readable = true;
  nonce = some (codes "no");
  file = all_written;
  version_file = all_written;
}

abbrev first : Run
first = run_at (codes "2026-01-01_10-00-00")

abbrev second : Run
second = run_at (codes "2026-01-01_11-00-00")

run_at-IsClean : (now : Str) → length now ≡ 19 → IsClean toy_codec executor (run_at now)
unfolding mpcium.Backup.new_meta mpcium.Text.Pack.pack
run_at-IsClean now timed = record {
  timed = timed;
  random = codes "no";
  nonce_given = refl;
  nonce_sized = refl;
  meta_small = λ since next. omega (arith, length-append now (since ∷ next ∷ codes "k"), timed);
  file_whole = tt;
  version_file_whole = tt;
}

abbrev one_run : History toy_codec toy_badger executor
one_run = (1 ∷ [], first) ∷ []

from_empty : IsLater toy_codec toy_badger executor [] (1 ∷ [])
from_empty = record { grows = omega arith; newer = λ y h. inr h.1 }

one_more : IsLater toy_codec toy_badger executor (1 ∷ []) (2 ∷ 1 ∷ [])
one_more = record {
  grows = omega arith;
  newer = λ y h. elim h.0 [ inl e ↦ inr (omega arith) | inr q ↦ inl (q, h.1) ];
}

two_runs : IsHistory toy_codec toy_badger executor [] ((2 ∷ 1 ∷ [], second) ∷ one_run)
two_runs = (one_more, run_at-IsClean _ refl, (from_empty, run_at-IsClean _ refl, tt))

abbrev working : Restoring
working = record { makes_dir = true; opens_db = true; opens = λ name. true; closes = true }

working-IsWorking : IsWorking working
working-IsWorking = record {
  makes_dir = refl;
  opens_db = refl;
  opens = λ name. refl;
  closes = refl;
}

test_execute :
    (execute toy_codec toy_badger executor second
      (2 ∷ 1 ∷ [])
      (backups toy_codec toy_badger executor one_run)).1
    ≡ ok saved
unfolding backups execute mpcium.Base.lookup mpcium.Backup.execute_dump
    mpcium.Encryption.encrypt_aes_gcm mpcium.Backup.write_backup mpcium.Text.Pack.pack
    mpcium.Backup.new_meta mpcium.Base.insert mpcium.Base.str_eq
test_execute = refl

test_restore :
    restore_all_backups_encrypted toy_codec executor toy_badger working
      (backups toy_codec toy_badger executor ((2 ∷ 1 ∷ [], second) ∷ one_run))
      []
    ≡ ok (2 ∷ 1 ∷ [])
unfolding backups execute restore_all_backups_encrypted mpcium.Base.lookup
    mpcium.Backup.execute_dump mpcium.Encryption.encrypt_aes_gcm mpcium.Backup.write_backup
    mpcium.Text.Pack.pack mpcium.Backup.new_meta mpcium.Base.insert mpcium.Base.str_eq
    mpcium.Text.Decimal.print_decimal mpcium.Text.Pack.unpack mpcium.Encryption.decrypt_aes_gcm
test_restore = refl

restore-backups_example :
    (e' : List ℕ) × (restore_all_backups_encrypted toy_codec executor toy_badger working
        (backups toy_codec toy_badger executor ((2 ∷ 1 ∷ [], second) ∷ one_run))
        []
      ≡ ok e')
    × ((y : ℕ) → toy_badger.Holds (2 ∷ 1 ∷ []) y → toy_badger.Holds e' y)
    × ((y : ℕ)
        → toy_badger.Holds e' y
        → toy_badger.Holds [] y
          ⊎ Found toy_codec toy_badger executor ((2 ∷ 1 ∷ [], second) ∷ one_run) y)
restore-backups_example =
    restore-backups toy_codec toy_badger executor [] (2 ∷ 1 ∷ []) second one_run working [] refl
      two_runs (omega arith) (rw test_execute tt) working-IsWorking

-- The disk is full after five bytes.
abbrev cut : Run
cut = record first { file = cut_at 5 }

restore-execute_cut_example : Fails (
    restore_all_backups_encrypted toy_codec executor toy_badger working
      (execute toy_codec toy_badger executor cut (1 ∷ []) []).0
      [])
unfolding load_version_info lookup mpcium.Encryption.encrypt_aes_gcm
restore-execute_cut_example =
    restore-execute_cut toy_codec toy_badger executor cut (1 ∷ []) []
      (record { version = 0; since = 0; updated_at = cut.updated_at }) (1 ∷ [])
      ((codes "kno") ++ (1 ∷ [])) (codes "no") 1 5 working [] refl refl refl refl refl (omega arith)
