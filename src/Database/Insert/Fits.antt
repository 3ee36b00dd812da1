-- ===== src/Database/Insert/Fits.antt =====
-- The constraints of the table of objects (postgres/migrations/20230716142135_init.up.sql), and when
-- the task of rsync-core/src/pg.rs, `insert_task`, keeps to them.
use rsync_sjtug.Prelude.{
  ℕ, ◌≡◌, ◌≢◌, Option, none, some, List, [], ◌∷◌, All, In, Bytes, length, Result, ok, err, fault,
}
use rsync_sjtug.Database.Revisions.{FileType, regular, directory, symlink, Object, Db, PgError}
use rsync_sjtug.Database.Insert.{Row, append_objects}

-- A regular file has a hash of 20 bytes and no target, a directory neither, and a symlink a target.
abbrev pub IsAdmissible : FileType → Option Bytes → Option Bytes → Type 0
IsAdmissible regular hash target =
    ((h : Bytes) × (hash ≡ some h) × (length h ≡ 20)) × (target ≡ none)
IsAdmissible directory hash target = (hash ≡ none) × (target ≡ none)
IsAdmissible symlink hash target = (hash ≡ none) × ((t : Bytes) × (target ≡ some t))

-- No object of the revision has the name.
abbrev pub IsNew : ℕ → Bytes → List Object → Type 0
IsNew rev key objects = (o : Object) → In o objects → o.revision ≡ rev → o.filename ≡ key → ⊥

-- Each row is admissible, and its name is new to the revision and to the rows.
abbrev pub Fits : ℕ → List Row → List Object → Type 0
Fits rev [] objects = Unit
Fits rev (r ∷ rows) objects =
    IsAdmissible r.type r.hash r.target
    × IsNew rev r.key objects
    × All (λ (q : Row). r.key ≢ q.key) rows
    × Fits rev rows objects

-- How an INSERT ends.
abbrev Ends : ℕ → List Row → Db → Result PgError Db → Type 0
Ends rev rows db (ok db') = Fits rev rows db.objects × (db' ≡ append_objects rev rows db)
Ends rev rows db (err e) = ¬ Fits rev rows db.objects
Ends rev rows db fault = ⊥
