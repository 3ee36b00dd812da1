-- ===== src/Gc.antt =====
-- rsync-gc: rsync-gc/src/pg.rs, rsync-gc/src/s3.rs, rsync-gc/src/main.rs and
-- sqls/hashes_to_remove.sql. The object store is the list of its keys.
pub mod Policy
pub mod Safety
pub mod Unused
use rsync_sjtug.Prelude.{
  ℕ, Bool, true, false, List, [], ◌∷◌, ◌++◌, map, Option, none, some, Bytes, bytes_eq, filter, drop,
  chunks, if◌then◌else◌, ◌&&◌, ◌||◌, not, ◌==◌, ltb, leb, ◌/◌, ◌%◌, ◌+◌,
}
use rsync_sjtug.Database.Revisions.{
  Revision, RevisionStatus, partial, live, stale, Object, Db, contains,
}
use rsync_sjtug.Database.Order.{order_by_revision_desc}

-- Some entry of the list is the number: `= ANY($1::int[])`.
unfoldable pub elem : ℕ → List ℕ → Bool
elem a [] = false
elem a (x ∷ xs) = x == a || elem a xs

-- The rows of a repository, newest revision first.
unfoldable pub select_revisions : Bytes → Db → List Revision
select_revisions namespace db =
    order_by_revision_desc (filter (λ r. bytes_eq r.repository namespace) db.revisions)

-- `Either::Left` is a live revision, `Either::Right` a partial one; a stale one is filtered out.
unfoldable pub place : RevisionStatus → ℕ → List ℕ × List ℕ → List ℕ × List ℕ
place partial r (live_revs, partial_revs) = (live_revs, r ∷ partial_revs)
place live r (live_revs, partial_revs) = (r ∷ live_revs, partial_revs)
place stale r (live_revs, partial_revs) = (live_revs, partial_revs)

-- The live revisions and the partial ones, in the order of the rows.
unfoldable pub partition_revs : List Revision → List ℕ × List ℕ
unfolding place
partition_revs [] = ([], [])
partition_revs (r ∷ rs) = place r.status r.revision (partition_revs rs)

-- `live_revs.first().copied().unwrap_or_default()`
abbrev pub last_live_rev : List ℕ → ℕ
last_live_rev [] = 0
last_live_rev (r ∷ rs) = r

unfoldable pub to_stale_revs : ℕ → ℕ → List ℕ → List ℕ → List ℕ
to_stale_revs keep_live keep_partial live_revs partial_revs =
    let last = last_live_rev live_revs in
    filter (λ r. ltb r last) partial_revs
    ++ (drop keep_partial (filter (λ r. leb last r) partial_revs) ++ drop keep_live live_revs)

-- `UPDATE revisions SET status = 'stale' WHERE revision = ANY(…)`
unfoldable pub set_stale : List ℕ → Revision → Revision
set_stale revs r = if elem r.revision revs then record r { status = stale } else r

-- The table after the transaction, and the revisions that it set to stale.
unfoldable pub mark_stale : Bytes → ℕ → ℕ → Db → Db × List ℕ
mark_stale namespace keep_live keep_partial db =
    let (live_revs, partial_revs) = partition_revs (select_revisions namespace db) in
    let revs = to_stale_revs keep_live keep_partial live_revs partial_revs in
    (record db { revisions = map (set_stale revs) db.revisions }, revs)

abbrev pub same_status : RevisionStatus → RevisionStatus → Bool
same_status partial partial = true
same_status live live = true
same_status stale stale = true
same_status _ _ = false

-- `SELECT revision FROM revisions WHERE repository IN (SELECT id FROM ns) AND status = …`
unfoldable pub revisions_with : RevisionStatus → Bytes → List Revision → List ℕ
revisions_with status namespace [] = []
revisions_with status namespace (r ∷ rs) =
    if bytes_eq r.repository namespace && same_status r.status status
    then r.revision ∷ revisions_with status namespace rs
    else revisions_with status namespace rs

-- `SELECT blake2b FROM objects WHERE revision IN (…) AND blake2b IS NOT NULL`
unfoldable pub hashes_of : List ℕ → List Object → List Bytes
hashes_of revs [] = []
hashes_of revs (o ∷ os) =
    let rest = hashes_of revs os in
    elim o.blake2b [
      | none ↦ rest
      | some blake2b ↦ if elem o.revision revs then blake2b ∷ rest else rest
    ]

-- `SELECT DISTINCT`
unfoldable pub distinct : List Bytes → List Bytes
distinct [] = []
distinct (h ∷ hs) = let rest = distinct hs in if contains h rest then rest else h ∷ rest

-- The left joins keep the stale hashes that no live and no partial revision has.
unfoldable pub hashes_to_remove : Bytes → Db → List Bytes
hashes_to_remove namespace db =
    let hashes = λ (status : RevisionStatus).
      hashes_of (revisions_with status namespace db.revisions) db.objects in
    distinct (
      filter (λ h. not (contains h (hashes live)) && not (contains h (hashes partial)))
        (hashes stale))

-- `{:02x}` of a byte.
unfoldable pub hex_digit : ℕ → ℕ
hex_digit n = if ltb n 10 then 48 + n else 87 + n

-- `format!("{:x}", bytes.as_hex())`
unfoldable pub as_hex : Bytes → Bytes
unfolding hex_digit
as_hex [] = []
as_hex (b ∷ bs) = hex_digit (b / 16) ∷ hex_digit (b % 16) ∷ as_hex bs

-- `format!("{prefix}{:x}", hash.as_hex())`: the key of a hash in the object store.
unfoldable pub object_key : Bytes → Bytes → Bytes
object_key prefix hash = prefix ++ as_hex hash

-- `op.remove(keys)`: a missing key is no error.
unfoldable pub remove_keys : List Bytes → List Bytes → List Bytes
remove_keys keys store = filter (λ key. not (contains key keys)) store

unfoldable pub remove_chunks : Bytes → List (List Bytes) → List Bytes → List Bytes
remove_chunks prefix [] store = store
remove_chunks prefix (chunk ∷ rest) store =
    remove_chunks prefix rest (remove_keys (map (object_key prefix) chunk) store)

abbrev pub iter_batch : ℕ
iter_batch = 1000

-- Removals do not depend on their order, so the chunks go one after the other.
unfoldable pub bulk_delete_objs : Bytes → List Bytes → List Bytes → List Bytes
bulk_delete_objs prefix hashes store = remove_chunks prefix (chunks iter_batch hashes) store

-- `DELETE FROM revisions WHERE revision = ANY(…)`, and `ON DELETE CASCADE` of `objects`.
unfoldable pub remove_revisions : List ℕ → Db → Db
remove_revisions revs db = record db {
  revisions = filter (λ (r : Revision). not (elem r.revision revs)) db.revisions;
  objects = filter (λ (o : Object). not (elem o.revision revs)) db.objects;
}

-- The run of rsync-gc under its locks: the database and the store after it.
unfoldable pub run : Bytes → Bytes → ℕ → ℕ → Db → List Bytes → Db × List Bytes
run namespace s3_prefix keep partial_keep db store =
    let (db', stale_revs) = mark_stale namespace keep partial_keep db in
    let hashes = hashes_to_remove namespace db' in
    let store' = bulk_delete_objs s3_prefix hashes store in
    (remove_revisions stale_revs db', store')
