-- ===== src/Fetcher/Plan.antt =====
-- rsync-fetcher/src/plan.rs with its queries (sqls/diff_*.sql, sqls/copy_*.sql): what of the
-- server's file list is already in the store, and what is to be transferred.
pub mod Joined
pub mod Complete
use rsync_sjtug.Prelude.{
  ℕ, ◌+◌, ◌/◌, ◌%◌, Bool, true, false, ◌&&◌, ◌||◌, not, Option, none, some, List, [], ◌∷◌, ◌++◌,
  map, filter, length, Bytes, bytes_eq, ltb, ◌==◌, if◌then◌else◌,
}
use rsync_sjtug.Database.Revisions.{
  FileType, regular, directory, symlink, RevisionStatus, live, partial, Revision, Object, Db,
}
use rsync_sjtug.Database.Insert.{Row, append_objects}
use rsync_sjtug.Gc.{elem, same_status}
use rsync_sjtug.Fetcher.FileList.{FileEntry}

pub record TransferItem : Type 0 where
  pub idx : ℕ
  pub blake2b : Option Bytes

-- `mode & 0o170000`
abbrev pub file_format : ℕ → ℕ
file_format mode = (mode / 4096) % 16

abbrev pub is_regular : ℕ → Bool
is_regular mode = file_format mode == 8

abbrev pub is_directory : ℕ → Bool
is_directory mode = file_format mode == 4

abbrev pub is_symlink : ℕ → Bool
is_symlink mode = file_format mode == 10

abbrev pub is_regular_type : FileType → Bool
is_regular_type regular = true
is_regular_type directory = false
is_regular_type symlink = false

-- The repository's live and partial revisions.
unfoldable pub local_revs : Bytes → List Revision → List ℕ
local_revs namespace [] = []
local_revs namespace (r ∷ rs) =
    let rest = local_revs namespace rs in
    if bytes_eq r.repository namespace
      && (same_status r.status live || same_status r.status partial)
    then r.revision ∷ rest
    else rest

-- The object is of a local revision and has the name, time and length of the entry.
abbrev pub is_match : List ℕ → FileEntry → Object → Bool
is_match revs fl o =
    elem o.revision revs
    && (bytes_eq fl.name o.filename
        && (fl.modify_time == o.modify_time && (fl.len == o.len && is_regular_type o.type)))

-- `ORDER BY o.revision DESC LIMIT 1`
unfoldable pub newest : List Object → Option Object
newest [] = none
newest (o ∷ os) = elim (newest os) [
  | none ↦ some o
  | some best ↦ if ltb o.revision best.revision then some best else some o
]

abbrev pub hash_of : Option Object → Option Bytes
hash_of none = none
hash_of (some o) = o.blake2b

abbrev pub no_match : List Object → Bool
no_match [] = true
no_match (o ∷ os) = false

-- The left join keeps the regular entries that no object matches.
unfoldable pub changed_or_remote_only : List ℕ → List Object → List FileEntry → List TransferItem
changed_or_remote_only revs objects [] = []
changed_or_remote_only revs objects (fl ∷ fls) =
    let rest = changed_or_remote_only revs objects fls in
    if is_regular fl.mode && no_match (filter (is_match revs fl) objects)
    then record {
      idx = fl.idx;
      blake2b = hash_of (
          newest
            (filter (λ (o : Object). elem o.revision revs && bytes_eq fl.name o.filename) objects));
    }
      ∷ rest
    else rest

unfoldable pub diff_changed_or_remote_only : Bytes → List FileEntry → Db → List TransferItem
diff_changed_or_remote_only namespace files db =
    changed_or_remote_only (local_revs namespace db.revisions) db.objects files

-- The inner join: the objects that match a regular entry.
unfoldable pub joined : List ℕ → List Object → List FileEntry → List Object
joined revs objects [] = []
joined revs objects (fl ∷ fls) =
    let rest = joined revs objects fls in
    if is_regular fl.mode then filter (is_match revs fl) objects ++ rest else rest

-- `DISTINCT ON (o.filename) … ORDER BY o.filename, o.revision DESC`, as a set of rows.
unfoldable pub keep_newest : Object → List Object → List Object
keep_newest o [] = o ∷ []
keep_newest o (c ∷ cs) =
    let rest = keep_newest o cs in
    if bytes_eq c.filename o.filename
    then (if ltb c.revision o.revision then o ∷ cs else c ∷ cs)
    else c ∷ rest

unfoldable pub distinct_on_filename : List Object → List Object
distinct_on_filename [] = []
distinct_on_filename (o ∷ os) = keep_newest o (distinct_on_filename os)

abbrev pub copy_of : Object → Row
copy_of o = record {
  key = o.filename;
  value = o.len;
  mtime = o.modify_time;
  type = o.type;
  hash = o.blake2b;
  target = o.target;
}

unfoldable pub unchanged_rows : Bytes → List FileEntry → Db → List Row
unchanged_rows namespace files db =
    map copy_of (distinct_on_filename (joined (local_revs namespace db.revisions) db.objects files))

unfoldable pub diff_unchanged_and_copy : Bytes → ℕ → List FileEntry → Db → Db → Db × ℕ
diff_unchanged_and_copy namespace target_revision files snapshot db =
    let rows = unchanged_rows namespace files snapshot in
    (append_objects target_revision rows db, length rows)

abbrev pub directory_row : FileEntry → Row
directory_row fl = record {
  key = fl.name;
  value = fl.len;
  mtime = fl.modify_time;
  type = directory;
  hash = none;
  target = none;
}

abbrev pub symlink_row : FileEntry → Row
symlink_row fl = record {
  key = fl.name;
  value = fl.len;
  mtime = fl.modify_time;
  type = symlink;
  hash = none;
  target = fl.link_target;
}

unfoldable pub copy_directories : ℕ → List FileEntry → Db → Db × ℕ
copy_directories target_revision files db =
    let rows = map directory_row (filter (λ (fl : FileEntry). is_directory fl.mode) files) in
    (append_objects target_revision rows db, length rows)

unfoldable pub copy_symlinks : ℕ → List FileEntry → Db → Db × ℕ
copy_symlinks target_revision files db =
    let rows = map symlink_row (filter (λ (fl : FileEntry). is_symlink fl.mode) files) in
    (append_objects target_revision rows db, length rows)

-- The four queries run at once, in transactions of their own that are committed after them: none
-- sees the rows of another. `files` is the table of the namespace's file list.
unfoldable pub diff_and_apply : Bytes → ℕ → List FileEntry → Db → Db × ℕ × List TransferItem
diff_and_apply namespace target_revision files db =
    let download = diff_changed_or_remote_only namespace files db in
    let (db1, unchanged_affected) = diff_unchanged_and_copy namespace target_revision files db db in
    let (db2, dir_affected) = copy_directories target_revision files db1 in
    let (db3, link_affected) = copy_symlinks target_revision files db2 in
    (db3, unchanged_affected + dir_affected + link_affected, download)
