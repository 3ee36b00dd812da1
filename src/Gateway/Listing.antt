-- ===== src/Gateway/Listing.antt =====
-- rsync-gateway/src/pg.rs, `list_directory`, with sqls/list_root.sql and sqls/list_directory.sql, and
-- rsync-gateway/src/path_resolve.rs: what a path shows.
pub mod Members
pub mod Shown
use rsync_sjtug.Prelude.{
  ℕ, ◌+◌, ◌/◌, ◌≡◌, refl, sym, Bool, true, false, not, ◌&&◌, ◌||◌, Bool-cases, ◌⊎◌, inl, inr,
  Option, none, some, List, [], ◌∷◌, ◌++◌, map, filter, All, Bytes, bytes_eq, Result, ok, err,
  fault, ◌>>=◌, ◌==◌, if◌then◌else◌,
}
use rsync_sjtug.Database.Revisions.{FileType, regular, directory, symlink, Object, Db}
use rsync_sjtug.Gateway.Entries.{find_object}
use rsync_sjtug.Gateway.Keys.{s3_path}
use rsync_sjtug.Gateway.Realpath.{
  Target, regular_target, directory_target, ResolveError, RealpathError, resolve_error,
  out_of_rounds, realpath,
}
use rsync_sjtug.Fetcher.FileList.{bytes_lt}

pub record ListingEntry : Type 0 where
  pub filename : Bytes
  pub len : Option ℕ
  pub modify_time : Option ℕ
  pub is_dir : Bool

abbrev pub is_directory_type : FileType → Bool
is_directory_type regular = false
is_directory_type directory = true
is_directory_type symlink = false

abbrev pub has_slash : Bytes → Bool
has_slash [] = false
has_slash (c ∷ cs) = c == 47 || has_slash cs

-- What follows the last slash, or the whole: `rsplit_once_str("/")`.
unfoldable pub base_name : Bytes → Bytes
base_name [] = []
base_name (c ∷ cs) =
    let rest = base_name cs in if has_slash cs then rest else if c == 47 then cs else c ∷ cs

abbrev pub listed_len : FileType → ℕ → Option ℕ
listed_len regular len = some len
listed_len directory len = none
listed_len symlink len = none

-- `ListingEntry::from(RawResolveEntry)`
unfoldable pub listing_entry : Object → ListingEntry
listing_entry o = record {
  filename = base_name o.filename;
  len = listed_len o.type o.len;
  modify_time = some o.modify_time;
  is_dir = is_directory_type o.type;
}

-- `ORDER BY type != 'directory', filename`
abbrev pub sorts_before : Object → Object → Bool
sorts_before a b =
    if is_directory_type a.type
    then (if is_directory_type b.type then bytes_lt a.filename b.filename else true)
    else (if is_directory_type b.type then false else bytes_lt a.filename b.filename)

unfoldable pub insert_listed : Object → List Object → List Object
insert_listed o [] = o ∷ []
insert_listed o (p ∷ ps) =
    let rest = insert_listed o ps in if sorts_before p o then p ∷ rest else o ∷ p ∷ ps

unfoldable pub order_listed : List Object → List Object
order_listed [] = []
order_listed (o ∷ os) = insert_listed o (order_listed os)

abbrev pub has_parent : Option ℕ → Option ℕ → Bool
has_parent none none = true
has_parent none (some b) = false
has_parent (some a) none = false
has_parent (some a) (some b) = a == b

-- sqls/list_root.sql
unfoldable pub list_root : ℕ → Db → List Object
list_root revision db =
    order_listed
      (filter (λ (o : Object). o.revision == revision && has_parent o.parent none) db.objects)

-- sqls/list_directory.sql: a path without an object has no rows, as `parent = NULL` holds of none.
unfoldable pub list_children : Bytes → ℕ → Db → List Object
list_children path revision db = elim (find_object revision path db.objects) [
  | none ↦ []
  | some parent ↦ order_listed (
      filter (λ (o : Object). o.revision == revision && has_parent o.parent (some parent.id))
        db.objects)
]

abbrev pub is_hidden : Bytes → Bool
is_hidden [] = false
is_hidden (c ∷ cs) = c == 46

abbrev pub is_shown : Bool → ListingEntry → Bool
is_shown list_hidden entry = if list_hidden then true else not (is_hidden entry.filename)

abbrev pub is_root : Bytes → Bool
is_root [] = true
is_root (c ∷ cs) = false

unfoldable pub list_directory : Bytes → ℕ → Bool → Db → List ListingEntry
list_directory path revision list_hidden db = filter (is_shown list_hidden) (
    map listing_entry
      (if is_root path then list_root revision db else list_children path revision db))

pub data Resolved : Type 0 where
  directory_listing : (entries : List ListingEntry) → Resolved
  regular_file : (url : Bytes) (expired_at : ℕ) → Resolved
  not_found : (reason : ResolveError) → Resolved

-- `attachment; filename="` … `"; filename*=UTF-8''` …
unfoldable pub content_disposition : Bytes → Bytes
content_disposition encoded_name =
    (97 ∷ 116 ∷ 116 ∷ 97 ∷ 99 ∷ 104 ∷ 109 ∷ 101 ∷ 110 ∷ 116 ∷ 59 ∷ 32 ∷ 102 ∷ 105 ∷ 108 ∷ 101 ∷ 110
      ∷ 97 ∷ 109 ∷ 101 ∷ 61 ∷ 34 ∷ [])
    ++ (encoded_name
        ++ ((34 ∷ 59 ∷ 32 ∷ 102 ∷ 105 ∷ 108 ∷ 101 ∷ 110 ∷ 97 ∷ 109 ∷ 101 ∷ 42 ∷ 61 ∷ 85 ∷ 84 ∷ 70
              ∷ 45 ∷ 56 ∷ 39 ∷ 39 ∷ [])
            ++ encoded_name))

-- `PRESIGN_TIMEOUT`, in seconds.
abbrev pub presign_timeout : ℕ
presign_timeout = 86400

-- Signing a request and the encoding of a name are other crates'; `now` is the clock, in seconds.
module _ (presign : Bytes → Bytes → Result RealpathError Bytes) (percent_encode : Bytes → Bytes)
    (now : ℕ) where
  unfoldable pub resolve : Bytes → ℕ → Bytes → Bool → Db → Result RealpathError Resolved
  resolve path revision s3_prefix list_hidden db = elim (realpath revision db path) [
    | ok target ↦ elim target [
      | directory_target found ↦
          ok (directory_listing (list_directory found revision list_hidden db))
      | regular_target blake2b ↦ do
        url ←
            presign (s3_path s3_prefix blake2b)
              (content_disposition (percent_encode (base_name path)))
        ok (regular_file url (now + presign_timeout / 2))
    ]
    | err e ↦ elim e [
      | resolve_error reason ↦ ok (not_found reason)
      | out_of_rounds ↦ err out_of_rounds
    ]
    | fault ↦ fault
  ]
