-- ===== src/Gateway/Realpath.antt =====
-- rsync-gateway/src/realpath.rs: following symbolic links inside a revision, and what it uses of
-- `std::path` on Unix.
pub mod Total
pub mod Meaning
use rsync_sjtug.Prelude.{
  ℕ, zero, suc, ◌+◌, ◌*◌, Bool, true, false, ◌&&◌, not, Option, none, some, List, [], ◌∷◌, ◌++◌,
  Bytes, bytes_eq, Result, ok, err, fault, ◌>>=◌, ◌>>◌, ltb, leb, ◌==◌, if◌then◌else◌, length,
}
use rsync_sjtug.Database.Revisions.{Object, Db}
use rsync_sjtug.Gateway.Entries.{
  Entry, regular_entry, directory_entry, symlink_entry, entry_of_path,
}

pub data Component : Type 0 where
  prefix root_dir cur_dir parent_dir : Component
  normal : Bytes → Component

abbrev slash : ℕ
slash = 47

abbrev dot : Bytes
dot = 46 ∷ []

abbrev dot_dot : Bytes
dot_dot = 46 ∷ 46 ∷ []

-- The pieces between the slashes: the one that is being read, and the rest.
unfoldable pub split_slash : Bytes → Bytes × List Bytes
split_slash [] = ([], [])
split_slash (c ∷ cs) =
    let (piece, pieces) = split_slash cs in
    if c == slash then ([], piece ∷ pieces) else (c ∷ piece, pieces)

-- Empty pieces and `.` are passed over.
unfoldable pub body_components : List Bytes → List Component
body_components [] = []
body_components (p ∷ ps) =
    let rest = body_components ps in
    if bytes_eq p []
    then rest
    else if bytes_eq p dot
    then rest
    else if bytes_eq p dot_dot
    then parent_dir ∷ rest
    else normal p ∷ rest

abbrev starts_with_slash : Bytes → Bool
starts_with_slash [] = false
starts_with_slash (c ∷ cs) = c == slash

-- `Path::components`: a root, or a `.` that the path begins with, comes first.
unfoldable pub components : Bytes → List Component
unfolding split_slash body_components
components path =
    let (piece, pieces) = split_slash path in
    let body = body_components (piece ∷ pieces) in
    if starts_with_slash path
    then root_dir ∷ body
    else if bytes_eq piece dot
    then cur_dir ∷ body
    else body

-- A path that `push` of names makes, its last name first; its bytes are the names between slashes.
unfoldable pub path_bytes : List Bytes → Bytes
path_bytes [] = []
path_bytes (name ∷ []) = name
path_bytes (name ∷ parent ∷ above) = path_bytes (parent ∷ above) ++ (slash ∷ name)

pub data Reason : Type 0 where
  prefix_unsupported refuse_root unchanged go_up escaped_root not_found : Reason
  regular_in_the_middle followed_directory too_many_symlinks : Reason
  following_symlink : Bytes → Reason

-- A line of the trace.
pub record Explain : Type 0 where
  pub resolved : List Bytes
  pub component : Component
  pub reason : Reason

pub data ResolveError : Type 0 where
  broken loop absolute unsafe : (trace : List Explain) → ResolveError

pub data RealpathError : Type 0 where
  resolve_error : ResolveError → RealpathError
  out_of_rounds : RealpathError

pub data Target : Type 0 where
  regular_target : (blake2b : Bytes) → Target
  directory_target : (path : Bytes) → Target

abbrev pub max_symlink_lookup : ℕ
max_symlink_lookup = 40

-- The loop's variables; `left` has the next component first.
pub record Walk : Type 0 where
  pub lookup : ℕ
  pub left : List Component
  pub resolved : List Bytes
  pub explain : List Explain

-- What one round does.
pub data Outcome : Type 0 where
  continue : Walk → Outcome
  found : Target → Outcome
  giveup : ResolveError → Outcome

abbrev pub explained : Walk → Component → Reason → List Explain
explained w comp reason =
    w.explain ++ (record { resolved = w.resolved; component = comp; reason = reason } ∷ [])

-- A name whose entry was read; `rest` is `left` without it.
unfoldable pub on_entry : Walk → Bytes → List Component → Option Entry → Outcome
on_entry w name rest none = giveup (broken (explained w (normal name) not_found))
on_entry w name [] (some (regular_entry blake2b)) = found (regular_target blake2b)
on_entry w name (c ∷ cs) (some (regular_entry blake2b)) =
    giveup (broken (explained w (normal name) regular_in_the_middle))
on_entry w name rest (some directory_entry) = continue (record w {
  left = rest;
  resolved = name ∷ w.resolved;
  explain = explained w (normal name) followed_directory;
})
on_entry w name rest (some (symlink_entry target)) =
    if leb max_symlink_lookup w.lookup
    then giveup (loop (explained w (normal name) too_many_symlinks))
    else continue (record w {
      lookup = w.lookup + 1;
      left = components target ++ rest;
      explain = explained w (normal name) (following_symlink target);
    })

-- `PathBuf::pop` on what was pushed.
unfoldable pub on_parent : Walk → List Component → Outcome
on_parent w rest = elim w.resolved [
  | [] ↦ giveup (
      unsafe
        (explained (record w { explain = explained w parent_dir go_up }) parent_dir escaped_root))
  | name ∷ above ↦
      continue (record w { left = rest; resolved = above; explain = explained w parent_dir go_up })
]

module _ (revision : ℕ) (db : Db) where
  unfoldable pub round : Walk → Component → List Component → Result RealpathError Outcome
  unfolding on_entry on_parent
  round w prefix rest = ok (giveup (broken (explained w prefix prefix_unsupported)))
  round w root_dir rest = ok (giveup (absolute (explained w root_dir refuse_root)))
  round w cur_dir rest =
      ok (continue (record w { left = rest; explain = explained w cur_dir unchanged }))
  round w parent_dir rest = ok (on_parent w rest)
  round w (normal name) rest = do
    entry ← entry_of_path revision (path_bytes (name ∷ w.resolved)) db
    ok (on_entry w name rest entry)

  -- The loop `while let Some(next_comp) = left.pop()`.
  unfoldable pub walk : ℕ → Walk → Result RealpathError Target
  walk zero w = err out_of_rounds
  walk (suc fuel) w = elim w.left [
    | [] ↦ ok (directory_target (path_bytes w.resolved))
    | comp ∷ rest ↦ do
      outcome ← round w comp rest
      elim outcome [
        | continue w' ↦ walk fuel w'
        | found target ↦ ok target
        | giveup reason ↦ err (resolve_error reason)
      ]
  ]

abbrev pub max : ℕ → ℕ → ℕ
max a b = if ltb a b then b else a

abbrev pub components_of_target : Option Bytes → ℕ
components_of_target none = 0
components_of_target (some target) = length (components target)

-- The most components that the target of a link has.
unfoldable pub longest_target : List Object → ℕ
longest_target [] = 0
longest_target (o ∷ os) = max (components_of_target o.target) (longest_target os)

-- A round takes a component, and a link adds at most the longest target's; there are 40 links at
-- most.
unfoldable pub rounds_for : Db → List Component → ℕ
rounds_for db left = length left + max_symlink_lookup * longest_target db.objects + 1

-- The slow path.
unfoldable pub resolve_components : ℕ → Db → Bytes → Result RealpathError Target
resolve_components revision db path =
    walk revision db (rounds_for db (components path))
      (record { lookup = 0; left = components path; resolved = []; explain = [] })

unfoldable pub realpath : ℕ → Db → Bytes → Result RealpathError Target
realpath revision db path = do
  entry ← entry_of_path revision path db
  elim entry [
    | none ↦ resolve_components revision db path
    | some e ↦ elim e [
      | regular_entry blake2b ↦ ok (regular_target blake2b)
      | directory_entry ↦ ok (directory_target path)
      | symlink_entry target ↦ resolve_components revision db path
    ]
  ]
