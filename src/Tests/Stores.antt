-- ===== src/Tests/Stores.antt =====
-- rsync-gc on a small database and store.
use rsync_sjtug.Prelude.{
  ◌↔◌, ℕ, ◌≡◌, refl, true, none, some, List, [], ◌∷◌, Bytes, bytes_eq, chunks, In, inl, inr, take,
  filter, leb, arith,
}
use rsync_sjtug.Database.Revisions.{
  RevisionStatus, live, partial, stale, Revision, regular, Object, Db, contains,
}
use rsync_sjtug.Database.Order.{Distinct, order_by_revision_desc}
use rsync_sjtug.Gc.{
  mark_stale, last_live_rev, hashes_to_remove, revisions_with, object_key, as_hex, run, elem,
  select_revisions, partition_revs, place, to_stale_revs, set_stale, hashes_of, distinct, hex_digit,
  remove_keys, remove_chunks, bulk_delete_objs, remove_revisions,
}
use rsync_sjtug.Gc.Policy.{kept, kept-mark_stale}
use rsync_sjtug.Gc.Unused.{Uses, hashes_to_remove-Uses}
use rsync_sjtug.Gc.Safety.{IsServable, run-IsServable, as_hex_injective}
use rsync_sjtug.Prelude.{Option, Result, ok, ◌+◌, if◌then◌else◌}
use rsync_sjtug.Gateway.Realpath.{ResolveError}
use rsync_sjtug.Gateway.Active.{
  ActiveRevision, State, number, same_number, after, latest_live_revision, update_fn,
  update_fn-invalidations, latest_live_revision-mark_stale,
}

program : Unit {0}
unfolding bytes_eq contains select_revisions order_by_revision_desc partition_revs place
    to_stale_revs set_stale mark_stale revisions_with hashes_of distinct hashes_to_remove elem
    hex_digit as_hex object_key remove_keys remove_chunks bulk_delete_objs remove_revisions run
    chunks
program = tt

abbrev repo : Bytes
repo = 114 ∷ []

abbrev row : ℕ → RevisionStatus → Revision
row n s = record {
  revision = n;
  repository = repo;
  status = s;
  created_at = n;
  completed_at = none;
}

abbrev file : ℕ → Bytes → Object
file n hash = record {
  id = n;
  revision = n;
  filename = 102 ∷ [];
  parent = none;
  len = 1;
  modify_time = 0;
  type = regular;
  blake2b = some hash;
  target = none;
}

abbrev old_hash : Bytes
old_hash = 1 ∷ []

abbrev new_hash : Bytes
new_hash = 2 ∷ []

abbrev two_live : Db
two_live = record {
  repositories = repo ∷ [];
  revisions = row 1 live ∷ row 2 live ∷ row 3 partial ∷ [];
  next_revision = 4;
  objects = file 1 old_hash ∷ file 2 new_hash ∷ [];
  next_object = 3;
}

abbrev store : List Bytes
store = object_key [] old_hash ∷ object_key [] new_hash ∷ []

two_live-Distinct : Distinct two_live.revisions
two_live-Distinct = ground arith

store-has_old : contains (object_key [] old_hash) store ≡ true
unfolding program
store-has_old = refl

store-has_new : contains (object_key [] new_hash) store ≡ true
unfolding program
store-has_new = refl

some-injective : {a b : Bytes} → some a ≡ some b → a ≡ b
some-injective e = cc

two_live-stored :
    (o : Object) (h : Bytes)
    → In o two_live.objects
    → o.blake2b ≡ some h
    → contains (object_key [] h) store ≡ true
two_live-stored o h (inl m) e = cc (m, e, store-has_old)
two_live-stored o h (inr (inl m)) e = cc (m, e, store-has_new)
two_live-stored o h (inr (inr m)) e = elim m [ ]

two_live-IsServable : IsServable repo [] two_live store
two_live-IsServable = record {
  bytes = ground arith;
  stored = λ status o h k m e r. two_live-stored o h m e;
}

-- The old file is gone, the new one stays.
run-two_live : (run repo [] 1 1 two_live store).1 ≡ object_key [] new_hash ∷ []
unfolding program
run-two_live = refl

run-IsServable_example :
    IsServable repo [] (run repo [] 1 1 two_live store).0 (run repo [] 1 1 two_live store).1
run-IsServable_example = run-IsServable repo [] 1 1 two_live store two_live-IsServable

kept-mark_stale_example : kept repo (mark_stale repo 1 1 two_live).0 ≡ (
  take 1 (kept repo two_live).0,
  take 1 (filter (λ r. leb (last_live_rev (kept repo two_live).0) r) (kept repo two_live).1),
)
kept-mark_stale_example = kept-mark_stale repo 1 1 two_live two_live-Distinct

hashes_to_remove-Uses_example : (contains old_hash (hashes_to_remove repo two_live) ≡ true) ↔ (
    Uses stale repo two_live old_hash
    × (¬ Uses live repo two_live old_hash)
    × (¬ Uses partial repo two_live old_hash))
hashes_to_remove-Uses_example = hashes_to_remove-Uses repo two_live old_hash

as_hex_injective_example : ◌≡◌ {A = Bytes} (171 ∷ []) (171 ∷ [])
as_hex_injective_example =
    as_hex_injective (171 ∷ []) (171 ∷ []) (omega arith, tt) (omega arith, tt) refl

latest_live_revision-mark_stale_example :
    number (latest_live_revision repo (mark_stale repo 1 1 two_live).0)
    ≡ number (latest_live_revision repo two_live)
latest_live_revision-mark_stale_example =
    latest_live_revision-mark_stale repo 0 1 two_live two_live-Distinct

abbrev serving : State
serving = record { revision = some (record { revision = 1; generated_at = 1 }); invalidations = 4 }

abbrev queried : Result ResolveError (Option ActiveRevision)
queried = ok (some (record { revision = 2; generated_at = 2 }))

update_fn-invalidations_example :
    ((update_fn queried serving).revision ≡ after queried serving.revision)
    × ((update_fn queried serving).invalidations ≡ (
        if same_number (number serving.revision) (number (update_fn queried serving).revision)
        then serving.invalidations
        else serving.invalidations + 1))
update_fn-invalidations_example = update_fn-invalidations queried serving
