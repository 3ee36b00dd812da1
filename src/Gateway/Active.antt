-- ===== src/Gateway/Active.antt =====
-- rsync-gateway: the active revision of a repository. `latest_live_revision` and `list_directory` of
-- src/pg.rs with sqls/latest_live_revision.sql, sqls/list_root.sql and sqls/list_directory.sql, and
-- the updates of src/state.rs.
use rsync_sjtug.Prelude.{
  ℕ, suc, ◌+◌, ◌≡◌, refl, sym, ap, ◌∙◌, Bool, true, false, not, Option, none, some, List, [], ◌∷◌,
  take, Bytes, Result, ok, err, fault, ◌==◌, if◌then◌else◌, arith,
}
use rsync_sjtug.Database.Revisions.{live, partial, stale, is_some, Revision, Db}
use rsync_sjtug.Database.Order.{Distinct}
use rsync_sjtug.Gc.{select_revisions, place, partition_revs, mark_stale}
use rsync_sjtug.Gc.Policy.{kept, kept-mark_stale}

-- The crate's own `Revision`.
pub record ActiveRevision : Type 0 where
  pub revision : ℕ
  pub generated_at : ℕ

-- `status = 'live' … LIMIT 1` on the ordered rows.
unfoldable pub first_live : List Revision → Option ActiveRevision
first_live [] = none
first_live (r ∷ rs) = elim r.status [
  | live ↦ some (record { revision = r.revision; generated_at = r.created_at })
  | partial ↦ first_live rs
  | stale ↦ first_live rs
]

unfoldable pub latest_live_revision : Bytes → Db → Option ActiveRevision
latest_live_revision namespace db = first_live (select_revisions namespace db)

-- The cell with the active revision, and how often the cache was invalidated.
pub record State : Type 0 where
  pub revision : Option ActiveRevision
  pub invalidations : ℕ

abbrev pub number : Option ActiveRevision → Option ℕ
number none = none
number (some r) = some r.revision

abbrev pub same_number : Option ℕ → Option ℕ → Bool
same_number none none = true
same_number none (some b) = false
same_number (some a) none = false
same_number (some a) (some b) = a == b

-- `update_fn` of `listen_for_updates`, on what the query returned.
unfoldable pub update_fn {ν} : {E : Type ν} → Result E (Option ActiveRevision) → State → State
update_fn (ok (some rev)) s =
    let old_idx = number s.revision in
    let stored : State = record s { revision = some rev } in
    if not (same_number old_idx (some rev.revision))
    then record stored { invalidations = s.invalidations + 1 }
    else stored
update_fn (ok none) s =
    let old_idx = number s.revision in
    let stored : State = record s { revision = none } in
    if is_some old_idx then record stored { invalidations = s.invalidations + 1 } else stored
update_fn (err e) s = s
update_fn fault s = s

-- What a query leaves in the cell.
abbrev pub after {ν} :
    {E : Type ν} → Result E (Option ActiveRevision) → Option ActiveRevision → Option ActiveRevision
after (ok rev) old = rev
after (err e) old = old
after fault old = old

update_fn-cell :
    {E : Type 0} (result : Result E (Option ActiveRevision)) (cell : Option ActiveRevision) (n : ℕ)
    → ((update_fn result (record { revision = cell; invalidations = n })).revision
        ≡ after result cell)
      × ((update_fn result (record { revision = cell; invalidations = n })).invalidations ≡ (
          if same_number
            (number cell)
            (number (update_fn result (record { revision = cell; invalidations = n })).revision)
          then n
          else n + 1))
unfolding update_fn
update_fn-cell (ok (some rev)) none n = (refl, refl)
update_fn-cell (ok (some rev)) (some old) n = ground arith
update_fn-cell (ok none) none n = (refl, refl)
update_fn-cell (ok none) (some old) n = (refl, refl)
update_fn-cell (err e) none n = (refl, refl)
update_fn-cell (err e) (some old) n = ground arith
update_fn-cell fault none n = (refl, refl)
update_fn-cell fault (some old) n = ground arith

-- An update puts the revision that the query returned into the cell and leaves it on an error, and
-- it invalidates the cache, once, exactly if the number of the active revision has changed.
pub update_fn-invalidations :
    {E : Type 0} (result : Result E (Option ActiveRevision)) (s : State)
    → ((update_fn result s).revision ≡ after result s.revision)
      × ((update_fn result s).invalidations ≡ (
          if same_number (number s.revision) (number (update_fn result s).revision)
          then s.invalidations
          else s.invalidations + 1))
update_fn-invalidations result s = update_fn-cell result s.revision s.invalidations

abbrev first : List ℕ → Option ℕ
first [] = none
first (x ∷ xs) = some x

number-first_live : (rs : List Revision) → number (first_live rs) ≡ first (partition_revs rs).0
unfolding first_live partition_revs place
number-first_live [] = refl
number-first_live (r ∷ rs) =
    elim r.status
      as (λ status.
        number (elim status [
          | live ↦ some (record { revision = r.revision; generated_at = r.created_at })
          | partial ↦ first_live rs
          | stale ↦ first_live rs
        ])
        ≡ first (place status r.revision (partition_revs rs)).0) [
          | live ↦ refl
          | partial ↦ number-first_live rs
          | stale ↦ number-first_live rs
        ]

first-take : (n : ℕ) (xs : List ℕ) → first (take (suc n) xs) ≡ first xs
first-take n [] = refl
first-take n (x ∷ xs) = refl

-- If no two rows share a revision and rsync-gc is to keep a live revision at least, then marking
-- stale revisions leaves the gateway the latest live revision that it had.
pub latest_live_revision-mark_stale :
    (namespace : Bytes) (keep_live keep_partial : ℕ) (db : Db)
    → Distinct db.revisions
    → number
        (latest_live_revision namespace (mark_stale namespace (suc keep_live) keep_partial db).0)
      ≡ number (latest_live_revision namespace db)
unfolding latest_live_revision kept
latest_live_revision-mark_stale namespace keep_live keep_partial db d =
    number-first_live _
    ∙ ap (λ (p : List ℕ × List ℕ). first p.0)
        (kept-mark_stale namespace (suc keep_live) keep_partial db d)
    ∙ first-take keep_live _
    ∙ sym (number-first_live _)
