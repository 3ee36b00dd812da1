-- ===== src/Tests/Paths.antt =====
-- Links in a small revision; rsync-gateway/src/realpath.rs.
use rsync_sjtug.Prelude.{
  ◌⊎◌, true, In, ◌≡◌, ◌≢◌, refl, ◌↔◌, Option, none, some, [], ◌∷◌, Bytes, bytes_eq, ok, err,
}
use rsync_sjtug.Database.Revisions.{FileType, directory, symlink, Object, Db}
use rsync_sjtug.Gateway.Entries.{find_object, entry_from, entry_of_path}
use rsync_sjtug.Gateway.Realpath.{
  directory_target, split_slash, body_components, components, path_bytes, out_of_rounds,
  max_symlink_lookup, on_entry, on_parent, round, walk, longest_target, rounds_for,
  resolve_components, realpath,
}
use rsync_sjtug.Gateway.Realpath.Total.{realpath-ends}
use rsync_sjtug.Gateway.Realpath.Meaning.{Resolves, resolve_components-Resolves}
use rsync_sjtug.Prelude.{false}
use rsync_sjtug.Gateway.Listing.{ListingEntry, listing_entry, list_directory}
use rsync_sjtug.Gateway.Listing.Members.{LiesUnder, BeginsWithDot}
use rsync_sjtug.Gateway.Listing.Shown.{IsOrdered, list_directory-IsListing}

program : Unit {0}
unfolding bytes_eq find_object entry_from entry_of_path split_slash body_components components
    path_bytes on_entry on_parent round walk longest_target rounds_for resolve_components realpath
program = tt

abbrev row : Bytes → FileType → Option Bytes → Object
row name t target = record {
  id = 0;
  revision = 1;
  filename = name;
  parent = none;
  len = 0;
  modify_time = 0;
  type = t;
  blake2b = none;
  target = target;
}

-- A directory `d`, a link `l` to it in the directory, and a link `o` to itself.
abbrev links : Db
links = record {
  repositories = [];
  revisions = [];
  next_revision = 2;
  objects =
      row (100 ∷ []) directory none
      ∷ row (100 ∷ 47 ∷ 108 ∷ []) symlink (some (46 ∷ 46 ∷ 47 ∷ 100 ∷ []))
      ∷ row (111 ∷ []) symlink (some (111 ∷ []))
      ∷ [];
  next_object = 0;
}

through_link : realpath 1 links (100 ∷ 47 ∷ 108 ∷ []) ≡ ok (directory_target (100 ∷ []))
unfolding program
through_link = refl

realpath-ends_example : realpath 1 links (111 ∷ []) ≢ err out_of_rounds
realpath-ends_example = realpath-ends 1 links (111 ∷ [])

resolve_components-Resolves_example :
    (resolve_components 1 links (100 ∷ 47 ∷ 108 ∷ []) ≡ ok (directory_target (100 ∷ [])))
    ↔ Resolves 1 links max_symlink_lookup []
        (components (100 ∷ 47 ∷ 108 ∷ []))
        (directory_target (100 ∷ []))
resolve_components-Resolves_example =
    resolve_components-Resolves 1 links (100 ∷ 47 ∷ 108 ∷ []) (directory_target (100 ∷ []))

list_directory-IsListing_example :
    IsOrdered (list_directory [] 1 false links)
    × ((e : ListingEntry)
        → In e (list_directory [] 1 false links) ↔ (
            (o : Object) × In o links.objects
            × (o.revision ≡ 1)
            × LiesUnder [] 1 links o
            × (e ≡ listing_entry o)
            × ((false ≡ true) ⊎ (¬ BeginsWithDot e.filename))))
list_directory-IsListing_example = list_directory-IsListing [] 1 false links
