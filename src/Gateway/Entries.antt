-- ===== src/Gateway/Entries.antt =====
-- rsync-gateway/src/pg.rs: the entry of a path at a revision (sqls/realpath.sql).
use rsync_sjtug.Prelude.{
  ℕ, ◌&&◌, Option, none, some, List, [], ◌∷◌, Bytes, bytes_eq, Result, ok, fault, ◌>>=◌, length,
  ◌==◌, if◌then◌else◌,
}
use rsync_sjtug.Database.Revisions.{FileType, regular, directory, symlink, Object, Db}

pub data Entry : Type 0 where
  regular_entry : (blake2b : Bytes) → Entry
  directory_entry : Entry
  symlink_entry : (target : Bytes) → Entry

-- `Entry::from(RawEntry)`: a missing hash or target, or a hash that is not 20 bytes, is a panic.
unfoldable pub entry_from {ν} :
    {E : Type ν} → FileType → Option Bytes → Option Bytes → Result E Entry
entry_from directory blake2b target = ok directory_entry
entry_from regular none target = fault
entry_from regular (some blake2b) target =
    if length blake2b == 20 then ok (regular_entry blake2b) else fault
entry_from symlink blake2b none = fault
entry_from symlink blake2b (some target) = ok (symlink_entry target)

-- `WHERE revision = $1 AND filename = $2`, of which there is one row at most.
unfoldable pub find_object : ℕ → Bytes → List Object → Option Object
find_object revision path [] = none
find_object revision path (o ∷ os) =
    if o.revision == revision && bytes_eq o.filename path
    then some o
    else find_object revision path os

unfoldable pub entry_of_path {ν} : {E : Type ν} → ℕ → Bytes → Db → Result E (Option Entry)
entry_of_path revision path db = elim (find_object revision path db.objects) [
  | none ↦ ok none
  | some o ↦ entry_from o.type o.blake2b o.target >>= λ e. ok (some e)
]
