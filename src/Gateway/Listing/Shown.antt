-- ===== src/Gateway/Listing/Shown.antt =====
-- rsync-gateway/src/pg.rs, `list_directory`: the order of a listing, and what it hides.
use rsync_sjtug.Prelude.{
  ◌↔◌, In, ℕ, ◌≡◌, refl, sym, Bool, true, false, ◌&&◌, Bool-cases, ◌⊎◌, inl, inr, none, some, List,
  [], ◌∷◌, map, filter, All, Bytes, ◌==◌, if◌then◌else◌,
}
use rsync_sjtug.Database.Revisions.{Object, Db}
use rsync_sjtug.Gateway.Entries.{find_object}
use rsync_sjtug.Fetcher.FileList.{bytes_lt}
use rsync_sjtug.Gateway.Listing.Members.{LiesUnder, BeginsWithDot, list_directory-In}
use rsync_sjtug.Gateway.Listing.{
  ListingEntry, is_directory_type, listing_entry, sorts_before, insert_listed, order_listed,
  has_parent, list_root, list_children, is_shown, list_directory,
}

-- After an entry that is no directory there is none.
abbrev pub IsOrdered : List ListingEntry → Type 0
IsOrdered [] = Unit
IsOrdered (e ∷ es) =
    ((e.is_dir ≡ true) ⊎ All (λ (f : ListingEntry). f.is_dir ≡ false) es) × IsOrdered es

abbrev NoDirs : List Object → Type 0
NoDirs os = All (λ (o : Object). is_directory_type o.type ≡ false) os

abbrev DirsFirst : List Object → Type 0
DirsFirst [] = Unit
DirsFirst (o ∷ os) = ((is_directory_type o.type ≡ true) ⊎ NoDirs os) × DirsFirst os

insert_listed-NoDirs :
    (o : Object) (os : List Object)
    → is_directory_type o.type ≡ false
    → NoDirs os
    → NoDirs (insert_listed o os)
unfolding insert_listed
insert_listed-NoDirs o [] n h = (n, tt)
insert_listed-NoDirs o (p ∷ ps) n h = elim (Bool-cases (sorts_before p o)) [
  | inl t ↦ rw t (h.0, insert_listed-NoDirs o ps n h.1)
  | inr t ↦ rw t (n, h)
]

-- The first key of the order, whatever the names are.
dirs_order :
    (a b lt : Bool)
    → (if a then (if b then lt else true) else (if b then false else lt)) ≡ true
    → a ≡ false
    → b ≡ false
dirs_order a true lt t n =
    elim a as (λ a. (if a then lt else false) ≡ true → a ≡ false → true ≡ false) [
      | true ↦ λ t' n'. n'
      | false ↦ λ t' n'. sym t'
    ]
      t n
dirs_order a false lt t n = refl

dirs_last :
    (a b lt : Bool)
    → (if a then (if b then lt else true) else (if b then false else lt)) ≡ false
    → (b ≡ true) ⊎ ((b ≡ false) × (a ≡ false))
dirs_last a true lt t = inl refl
dirs_last true false lt t = absurd (cc)
dirs_last false false lt t = inr (refl, refl)

insert_listed-DirsFirst :
    (o : Object) (os : List Object) → DirsFirst os → DirsFirst (insert_listed o os)
unfolding insert_listed
insert_listed-DirsFirst o [] h = (inr tt, tt)
insert_listed-DirsFirst o (p ∷ ps) (d, h) = elim (Bool-cases (sorts_before p o)) [
  | inl t ↦ rw t (
    elim d [
      | inl dir ↦ inl dir
      | inr none_left ↦ elim (Bool-cases (is_directory_type p.type)) [
        | inl dir ↦ inl dir
        | inr n ↦ inr (
            insert_listed-NoDirs o ps
              (dirs_order (is_directory_type p.type) (is_directory_type o.type)
                (bytes_lt p.filename o.filename) t n)
              none_left)
      ]
    ],
    insert_listed-DirsFirst o ps h,
  )
  | inr t ↦ rw t (
    elim (dirs_last (is_directory_type p.type) (is_directory_type o.type)
        (bytes_lt p.filename o.filename) t) [
          | inl dir ↦ inl dir
          | inr (n, m) ↦ inr (m, elim d [ inl dir ↦ absurd (cc) | inr none_left ↦ none_left ])
        ],
    (d, h),
  )
]

order_listed-DirsFirst : (os : List Object) → DirsFirst (order_listed os)
unfolding order_listed
order_listed-DirsFirst [] = tt
order_listed-DirsFirst (o ∷ os) =
    insert_listed-DirsFirst o (order_listed os) (order_listed-DirsFirst os)

shown-NoDirs :
    (list_hidden : Bool) (os : List Object)
    → NoDirs os
    → All
        (λ (f : ListingEntry). f.is_dir ≡ false)
        (filter (is_shown list_hidden) (map listing_entry os))
unfolding listing_entry
shown-NoDirs list_hidden [] h = tt
shown-NoDirs list_hidden (o ∷ os) h = elim (Bool-cases (is_shown list_hidden (listing_entry o))) [
  | inl t ↦ rw t (h.0, shown-NoDirs list_hidden os h.1)
  | inr t ↦ rw t (shown-NoDirs list_hidden os h.1)
]

shown-IsOrdered :
    (list_hidden : Bool) (os : List Object)
    → DirsFirst os
    → IsOrdered (filter (is_shown list_hidden) (map listing_entry os))
unfolding listing_entry
shown-IsOrdered list_hidden [] h = tt
shown-IsOrdered list_hidden (o ∷ os) (d, h) =
    elim (Bool-cases (is_shown list_hidden (listing_entry o))) [
      | inl t ↦ rw t (
        elim d [ inl dir ↦ inl dir | inr n ↦ inr (shown-NoDirs list_hidden os n) ],
        shown-IsOrdered list_hidden os h,
      )
      | inr t ↦ rw t (shown-IsOrdered list_hidden os h)
    ]

ordered :
    (path : Bytes) (revision : ℕ) (list_hidden : Bool) (db : Db)
    → IsOrdered (list_directory path revision list_hidden db)
unfolding list_directory list_root list_children
ordered [] revision list_hidden db = shown-IsOrdered list_hidden _ (order_listed-DirsFirst _)
ordered (c ∷ cs) revision list_hidden db =
    elim (find_object revision (c ∷ cs) db.objects)
      as (λ found. IsOrdered (
        filter (is_shown list_hidden) (
          map listing_entry (elim found [
            | none ↦ []
            | some parent ↦ order_listed (
                filter
                  (λ (o : Object). o.revision == revision && has_parent o.parent (some parent.id))
                  db.objects)
          ])))) [
            | none ↦ tt
            | some parent ↦ shown-IsOrdered list_hidden _ (order_listed-DirsFirst _)
          ]

-- A listing has its directories before the rest, and it has exactly the entries of those objects of
-- the revision that have no parent, for the root, or the object of the path as their parent, without
-- those whose listed name begins with a dot, unless hidden entries are listed.
pub list_directory-IsListing :
    (path : Bytes) (revision : ℕ) (list_hidden : Bool) (db : Db)
    → IsOrdered (list_directory path revision list_hidden db)
      × ((e : ListingEntry)
          → In e (list_directory path revision list_hidden db) ↔ (
              (o : Object) × In o db.objects
              × (o.revision ≡ revision)
              × LiesUnder path revision db o
              × (e ≡ listing_entry o)
              × ((list_hidden ≡ true) ⊎ (¬ BeginsWithDot e.filename))))
list_directory-IsListing path revision list_hidden db =
    (ordered path revision list_hidden db, list_directory-In path revision list_hidden db)
