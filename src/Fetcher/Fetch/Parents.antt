-- ===== src/Fetcher/Fetch/Parents.antt =====
-- rsync-fetcher/src/pg.rs, `update_parent_ids`, and the directories that the gateway lists with the
-- parents that it sets.
use rsync_sjtug.Prelude.{ℕ, ◌≡◌, Option, none, some, List, In, Bytes}
use rsync_sjtug.Database.Revisions.{Object, Db}
use rsync_sjtug.Fetcher.Fetch.Names.{LiesIn}

-- The objects of a revision have ids of their own.
abbrev pub IdsDiffer : ℕ → List Object → Type 0
IdsDiffer revision objects =
    (o p : Object)
    → In o objects
    → In p objects
    → o.revision ≡ revision
    → p.revision ≡ revision
    → o.id ≡ p.id
    → o.filename ≡ p.filename

-- No object of the revision has a parent yet.
abbrev pub HasNoParents : ℕ → List Object → Type 0
HasNoParents revision objects =
    (o : Object) → In o objects → o.revision ≡ revision → o.parent ≡ none

abbrev IsNamed : ℕ → Bytes → List Object → Object → Type 0
IsNamed revision name objects o = In o objects × (o.revision ≡ revision) × (o.filename ≡ name)

abbrev id_in : Option Object → Option ℕ
id_in none = none
id_in (some o) = some o.id

abbrev IsSame : Object → Object → Type 0
IsSame o p = (o.id ≡ p.id) × (o.revision ≡ p.revision) × (o.filename ≡ p.filename)

-- An object of the updated table: one of the revision whose name lies in the directory, with the
-- directory's object as its parent.
abbrev pub IsChild : Bytes → ℕ → Db → ℕ → Object → Type 0
IsChild path revision db id o =
    (p : Object) × In p db.objects
    × (p.revision ≡ revision)
    × LiesIn path p.filename
    × (o ≡ record p { parent = some id })
