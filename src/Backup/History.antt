-- ===== src/Backup/History.antt =====
-- A history of runs of Execute, with writes to the database in between, and the restoring after it.
use mpcium.Base.{
  ℕ, zero, suc, ◌+◌, ◌^◌, ◌<◌, ◌≤◌, ◌≡◌, refl, true, List, [], ◌∷◌, length, Str, Dict, lookup, ok,
  IsOk, inl, inr, ◌⊎◌, arith,
}
use mpcium.Backup.{Library, Badger, Executor, Run, load_version_info, execute}
use mpcium.Backup.Restore.{Restoring, restore_all_backups_encrypted, sorted_encrypted_backups}
use mpcium.Backup.Names.{backup_name-is_backup_name}
use mpcium.Backup.Steps.{IsClean, IsBacked, Covers}
use mpcium.Backup.Runs.{Ran, execute-Ran}
use mpcium.Backup.Loads.{IsWorking, Loaded, restore-Loaded, listed-lookup}

module _ (lib : Library) (B : Badger) (x : Executor) where
  -- A later state of a database: what is new has versions above all that it had.
  pub record IsLater (d d' : B.Db) : Type 0 where
    pub grows : B.max_version d ≤ B.max_version d'
    pub newer : (y : B.Entry) → B.Holds d' y → B.Holds d y ⊎ (B.max_version d < B.version y)

  -- The runs, the newest first, each with the database that it found.
  abbrev pub History : Type 0
  History = List (B.Db × Run)

  abbrev pub newest : B.Db → History → B.Db
  newest start [] = start
  newest start (h ∷ hs) = h.0

  abbrev pub IsHistory : B.Db → History → Type 0
  IsHistory start [] = Unit
  IsHistory start (h ∷ hs) = IsLater (newest start hs) h.0 × IsClean lib x h.1 × IsHistory start hs

  -- Some run found the entry.
  abbrev pub Found : History → B.Entry → Type 0
  Found [] y = ⊥
  Found (h ∷ hs) y = B.Holds h.0 y ⊎ Found hs y

  -- The directory after the runs, which was empty before them.
  unfoldable pub backups : History → Dict Str
  backups [] = []
  backups (h ∷ hs) = (execute lib B x h.1 h.0 (backups hs)).0

  module _ (k : lib.aead.is_key x.key ≡ true) (start : B.Db) (P : B.Entry → Type 0) where
    IsBacked-nil : IsBacked lib B x P zero start []
    unfolding load_version_info lookup
    IsBacked-nil = record {
      sealed = λ name content e b. cc;
      version = 0;
      since = 0;
      loaded = λ run readable. (
        record { version = 0; since = 0; updated_at = run.updated_at },
        rw readable refl,
        refl,
        refl,
      );
      counted = omega arith;
      since-le = omega arith;
      covered = λ y h le. absurd (omega (arith, B.positive start y h));
    }

    IsBacked-later :
        (n : ℕ) (d d' : B.Db) (dir : Dict Str)
        → IsLater d d'
        → IsBacked lib B x P n d dir
        → IsBacked lib B x P n d' dir
    IsBacked-later n d d' dir l b = record {
      sealed = b.sealed;
      version = b.version;
      since = b.since;
      loaded = b.loaded;
      counted = b.counted;
      since-le = omega (arith, b.since-le, l.grows);
      covered = λ y h le. elim (l.newer y h) [
        | inl old ↦ b.covered y old le
        | inr new ↦ absurd (omega (arith, b.since-le))
      ];
    }

    backups-IsBacked :
        (hs : History)
        → IsHistory start hs
        → ((y : B.Entry) → Found hs y → P y)
        → length hs < 2 ^ 64
        → IsBacked lib B x P (length hs) (newest start hs) (backups hs)
    unfolding backups
    backups-IsBacked [] i f s = IsBacked-nil
    backups-IsBacked (h ∷ hs) i f s =
        (execute-Ran lib B x k P (length hs) h.0 (λ y q. f y (inl q)) (backups hs)
          (IsBacked-later (length hs) (newest start hs) h.0 (backups hs) i.0
            (backups-IsBacked hs i.2 (λ y q. f y (inr q)) (omega arith)))
          h.1 i.1 s).0

    module _ (db : B.Db) (run : Run) (hs : History) (i : IsHistory start ((db, run) ∷ hs))
        (f : (y : B.Entry) → Found ((db, run) ∷ hs) y → P y) (s : length hs + 1 < 2 ^ 64) where
      last-Ran :
          Ran lib B x k P (length hs) db (λ y q. f y (inl q)) (execute lib B x run db (backups hs))
      last-Ran =
          execute-Ran lib B x k P (length hs) db (λ y q. f y (inl q)) (backups hs)
            (IsBacked-later (length hs) (newest start hs) db (backups hs) i.0
              (backups-IsBacked hs i.2 (λ y q. f y (inr q)) (omega arith)))
            run i.1 (omega arith)

      -- A covered entry is loaded.
      covered-Holds :
          (r : Restoring) (w : IsWorking r) (dir : Dict Str)
          (b : IsBacked lib B x P (suc (length hs)) db dir) (e e' : B.Db) (v : ℕ) (y : B.Entry)
          → Loaded lib B x P r w dir b.sealed (sorted_encrypted_backups dir) e e'
          → Covers lib B x dir v y
          → B.Holds e' y
      covered-Holds r w dir b e e' v y l c =
          let is_backup = backup_name-is_backup_name x.node_id c.now c.number in
          l.loaded _ c.content c.plain
            (listed-lookup lib B x P r w dir b.sealed _ c.content is_backup c.found) c.found
            c.opened y c.dumped

-- After any history of runs, with any writes to the database in between, in which each file is written
-- whole or not at all and the last run gives no error, restoring all backups succeeds when its calls
-- do. The restored database then holds all that the database held at the last run, and of what it did
-- not hold before the restoring only what the database held at some run.
pub restore-backups :
    (lib : Library) (B : Badger) (x : Executor) (start db : B.Db) (run : Run) (hs : History lib B x)
    (r : Restoring) (e : B.Db)
    → lib.aead.is_key x.key ≡ true
    → IsHistory lib B x start ((db, run) ∷ hs)
    → length hs + 1 < 2 ^ 64
    → IsOk (execute lib B x run db (backups lib B x hs)).1
    → IsWorking r
    → (e' : B.Db) × (restore_all_backups_encrypted lib x B r (backups lib B x ((db, run) ∷ hs)) e
        ≡ ok e')
      × ((y : B.Entry) → B.Holds db y → B.Holds e' y)
      × ((y : B.Entry) → B.Holds e' y → B.Holds e y ⊎ Found lib B x ((db, run) ∷ hs) y)
unfolding backups
restore-backups lib B x start db run hs r e k i s last w =
    let P = Found lib B x ((db, run) ∷ hs) in
    let (b, full) = last-Ran lib B x k start P db run hs i (λ y q. q) s in
    let (e', restored, l) = restore-Loaded lib B x P r w _ b.sealed e in
    (
      e',
      restored,
      λ y q.
          covered-Holds lib B x k start P db run hs i (λ z p. p) s r w _ b e e' _ y l
            (full last y q),
      λ y q. l.only y q,
    )
