-- ===== src/Database/Revisions.antt =====
-- The tables `repositories`, `revisions` and `objects`, and the statements of rsync-core/src/pg.rs
-- that create a repository or a revision, or change a revision's status.
use rsync_sjtug.Prelude.{
  ℕ, ◌+◌, Bool, true, false, List, [], ◌∷◌, ◌++◌, map, Option, none, some, Bytes, bytes_eq,
  if◌then◌else◌, ◌&&◌, ◌||◌, Result, ok, ◌>>◌, ensure, not, ◌==◌,
}

pub data FileType : Type 0 where
  regular directory symlink : FileType

pub data RevisionStatus : Type 0 where
  partial live stale : RevisionStatus

-- A row of `revisions`.
pub record Revision : Type 0 where
  pub revision : ℕ
  pub repository : Bytes
  pub status : RevisionStatus
  pub created_at : ℕ
  pub completed_at : Option ℕ

-- A row of `objects`.
pub record Object : Type 0 where
  pub id : ℕ
  pub revision : ℕ
  pub filename : Bytes
  pub parent : Option ℕ
  pub len : ℕ
  pub modify_time : ℕ
  pub type : FileType
  pub blake2b : Option Bytes
  pub target : Option Bytes

-- The identity columns hand out `next_revision` and `next_object`.
pub record Db : Type 0 where
  pub repositories : List Bytes
  pub revisions : List Revision
  pub next_revision : ℕ
  pub objects : List Object
  pub next_object : ℕ

-- A violated constraint of the schema.
pub data PgError : Type 0 where
  not_null_violation check_violation unique_violation : PgError

abbrev pub is_live : RevisionStatus → Bool
is_live partial = false
is_live live = true
is_live stale = false

abbrev pub is_some {ℓ} : {A : Type ℓ} → Option A → Bool
is_some none = false
is_some (some a) = true

-- Some entry of the list is the byte string.
unfoldable pub contains : Bytes → List Bytes → Bool
contains b [] = false
contains b (c ∷ cs) = bytes_eq c b || contains b cs

-- `INSERT INTO repositories (name) … ON CONFLICT DO NOTHING`
unfoldable pub ensure_repository : Bytes → Db → Db
ensure_repository namespace db =
    if contains namespace db.repositories
    then db
    else record db { repositories = db.repositories ++ (namespace ∷ []) }

-- The constraint `completed_if_live`.
abbrev pub completed_if_live : Revision → Bool
completed_if_live r = is_some r.completed_at || not (is_live r.status)

abbrev pub all_rows {ℓ} : {A : Type ℓ} → (A → Bool) → List A → Bool
all_rows p [] = true
all_rows p (x ∷ xs) = p x && all_rows p xs

-- `INSERT INTO revisions … RETURNING revision`; an unknown repository is a null `repository`.
unfoldable pub create_revision : Bytes → RevisionStatus → ℕ → Db → Result PgError (Db × ℕ)
create_revision namespace status now db =
    let row : Revision = record {
      revision = db.next_revision;
      repository = namespace;
      status = status;
      created_at = now;
      completed_at = none;
    } in
    do
      ensure (contains namespace db.repositories) not_null_violation
      ensure (completed_if_live row) check_violation
      ok (
        record db { revisions = db.revisions ++ (row ∷ []); next_revision = db.next_revision + 1 },
        db.next_revision,
      )

-- `UPDATE revisions SET … WHERE revision = …`
abbrev pub with_status : ℕ → RevisionStatus → Option ℕ → Revision → Revision
with_status revision status (some completed_at) r =
    if r.revision == revision
    then record r { status = status; completed_at = some completed_at }
    else r
with_status revision status none r =
    if r.revision == revision then record r { status = status } else r

unfoldable pub change_revision_status : ℕ → RevisionStatus → Option ℕ → Db → Result PgError Db
change_revision_status revision status completed_at db =
    let rows = map (with_status revision status completed_at) db.revisions in
    do ensure (all_rows completed_if_live rows) check_violation; ok (record db { revisions = rows })
