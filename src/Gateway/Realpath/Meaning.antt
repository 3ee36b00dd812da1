-- ===== src/Gateway/Realpath/Meaning.antt =====
-- rsync-gateway/src/realpath.rs: what a path means when its links are followed.
use rsync_sjtug.Prelude.{
  ℕ, zero, suc, ◌+◌, ◌-◌, ◌*◌, ◌≤◌, ◌<◌, ◌≡◌, refl, sym, ◌∙◌, ◌↔◌, Bool, true, false, if◌then◌else◌,
  Option, none, some, List, [], ◌∷◌, ◌++◌, Bytes, Result, ok, err, >>=-eq-ok, >>=_assoc, length,
  length-append, leb, arith,
}
use rsync_sjtug.Database.Revisions.{Db}
use rsync_sjtug.Gateway.Entries.{
  Entry, regular_entry, directory_entry, symlink_entry, entry_of_path,
}
use rsync_sjtug.Gateway.Realpath.{
  Component, prefix, root_dir, cur_dir, parent_dir, normal, components, path_bytes, Target,
  regular_target, directory_target, RealpathError, resolve_error, max_symlink_lookup, Walk, Explain,
  explained, following_symlink, too_many_symlinks, loop, continue, found, giveup, on_entry,
  on_parent, round, walk, longest_target, rounds_for, resolve_components,
}
use rsync_sjtug.Gateway.Realpath.Total.{Answers, entry_of_path-Answers}
use mathlib.Core.Path.{subst}

-- The components lead from a directory to the target, through that many links at most.
pub data Resolves (revision : ℕ) (db : Db) : ℕ → List Bytes → List Component → Target → Type 0 where
  arrived :
      {n : ℕ} {at : List Bytes} → Resolves revision db n at [] (directory_target (path_bytes at))
  here :
      {n : ℕ} {at : List Bytes} {rest : List Component} {t : Target}
      → Resolves revision db n at rest t
      → Resolves revision db n at (cur_dir ∷ rest) t
  up :
      {n : ℕ} {at : List Bytes} {name : Bytes} {rest : List Component} {t : Target}
      → Resolves revision db n at rest t
      → Resolves revision db n (name ∷ at) (parent_dir ∷ rest) t
  file :
      {n : ℕ} {at : List Bytes} {name blake2b : Bytes}
      → entry_of_path {E = RealpathError} revision (path_bytes (name ∷ at)) db
        ≡ ok (some (regular_entry blake2b))
      → Resolves revision db n at (normal name ∷ []) (regular_target blake2b)
  into :
      {n : ℕ} {at : List Bytes} {name : Bytes} {rest : List Component} {t : Target}
      → entry_of_path {E = RealpathError} revision (path_bytes (name ∷ at)) db
        ≡ ok (some directory_entry)
      → Resolves revision db n (name ∷ at) rest t
      → Resolves revision db n at (normal name ∷ rest) t
  follow :
      {n : ℕ} {at : List Bytes} {name link : Bytes} {rest : List Component} {t : Target}
      → entry_of_path {E = RealpathError} revision (path_bytes (name ∷ at)) db
        ≡ ok (some (symlink_entry link))
      → Resolves revision db n at (components link ++ rest) t
      → Resolves revision db (suc n) at (normal name ∷ rest) t

link_fits :
    (revision : ℕ) (db : Db) (path link : Bytes)
    → entry_of_path {E = RealpathError} revision path db ≡ ok (some (symlink_entry link))
    → length (components link) ≤ longest_target db.objects
unfolding Answers
link_fits revision db path link e =
    subst (λ r. Answers (longest_target db.objects) r) e (entry_of_path-Answers revision path db)

link_budget : (t r n l fuel : ℕ) → t ≤ l → suc r + suc n * l < suc fuel → (t + r) + n * l < fuel
link_budget t r n l fuel h b = grind arith

walk_complete :
    (revision : ℕ) (db : Db) (fuel lookup : ℕ) (explain : List Explain) {n : ℕ} {at : List Bytes}
    {left : List Component} {t : Target}
    → Resolves revision db n at left t
    → lookup + n ≡ max_symlink_lookup
    → length left + n * longest_target db.objects < fuel
    → walk revision db fuel
        (record { lookup = lookup; left = left; resolved = at; explain = explain })
      ≡ ok t
unfolding walk round on_entry on_parent
walk_complete revision db zero lookup explain d h b = ground arith
walk_complete revision db (suc fuel) lookup explain arrived h b = refl
walk_complete revision db (suc fuel) lookup explain (here d) h b =
    walk_complete revision db fuel lookup _ d h (omega arith)
walk_complete revision db (suc fuel) lookup explain (up d) h b =
    walk_complete revision db fuel lookup _ d h (omega arith)
walk_complete revision db (suc fuel) lookup explain (file e) h b = rw e refl
walk_complete revision db (suc fuel) lookup explain (into e d) h b =
    rw e (walk_complete revision db fuel lookup _ d h (omega arith))
walk_complete revision db (suc fuel) lookup explain (follow e d) h b =
    rw (e, lookup_lt)
      (walk_complete revision db fuel (lookup + 1) _ d (omega arith)
        (rw length-append (link_budget _ _ _ _ _ (link_fits revision db _ _ e) b)))
  where
    lookup_lt : leb max_symlink_lookup lookup ≡ false
    lookup_lt = ground arith

abbrev answer : Target → Result RealpathError Target
answer t = ok t

ok-injective : {a b : Target} → answer a ≡ answer b → a ≡ b
ok-injective e = cc

entry_sound :
    (revision : ℕ) (db : Db) (fuel : ℕ) (w : Walk) (name : Bytes) (rest : List Component)
    (entry : Option Entry) (t : Target)
    → entry_of_path {E = RealpathError} revision (path_bytes (name ∷ w.resolved)) db ≡ ok entry
    → ((w' : Walk)
        → walk revision db fuel w' ≡ ok t
        → Resolves revision db (max_symlink_lookup - w'.lookup) w'.resolved w'.left t)
    → elim (on_entry w name rest entry) [
      | continue w' ↦ walk revision db fuel w'
      | found target ↦ ok target
      | giveup reason ↦ err (resolve_error reason)
    ]
      ≡ ok t
    → Resolves revision db (max_symlink_lookup - w.lookup) w.resolved (normal name ∷ rest) t
unfolding on_entry
entry_sound revision db fuel w name rest none t read ih e = ground arith
entry_sound revision db fuel w name [] (some (regular_entry b)) t read ih e =
    subst (Resolves revision db (max_symlink_lookup - w.lookup) w.resolved (normal name ∷ []))
      (ok-injective e) (file read)
entry_sound revision db fuel w name (c ∷ cs) (some (regular_entry b)) t read ih e = ground arith
entry_sound revision db fuel w name rest (some directory_entry) t read ih e = into read (ih _ e)
entry_sound revision db fuel w name rest (some (symlink_entry link)) t read ih e =
    go (leb max_symlink_lookup w.lookup) refl e
  where
    entered : Walk
    entered = record w {
      lookup = w.lookup + 1;
      left = components link ++ rest;
      explain = explained w (normal name) (following_symlink link);
    }

    go :
        (full : Bool)
        → leb max_symlink_lookup w.lookup ≡ full
        → elim (if full
            then giveup (loop (explained w (normal name) too_many_symlinks))
            else continue entered) [
              | continue w' ↦ walk revision db fuel w'
              | found target ↦ ok target
              | giveup reason ↦ err (resolve_error reason)
            ]
          ≡ answer t
        → Resolves revision db (max_symlink_lookup - w.lookup) w.resolved (normal name ∷ rest) t
    go true full e' = ground arith
    go false room e' =
        subst (λ n. Resolves revision db n w.resolved (normal name ∷ rest) t) (ground arith)
          (follow read (ih entered e'))

walk_sound :
    (revision : ℕ) (db : Db) (fuel lookup : ℕ) (left : List Component) (at : List Bytes)
    (explain : List Explain) (t : Target)
    → walk revision db fuel
        (record { lookup = lookup; left = left; resolved = at; explain = explain })
      ≡ ok t
    → Resolves revision db (max_symlink_lookup - lookup) at left t
unfolding walk round on_entry on_parent
walk_sound revision db zero lookup left at explain t e = ground arith
walk_sound revision db (suc fuel) lookup [] at explain t e =
    subst (Resolves revision db (max_symlink_lookup - lookup) at []) (ok-injective e) arrived
walk_sound revision db (suc fuel) lookup (prefix ∷ rest) at explain t e = ground arith
walk_sound revision db (suc fuel) lookup (root_dir ∷ rest) at explain t e = ground arith
walk_sound revision db (suc fuel) lookup (cur_dir ∷ rest) at explain t e =
    here (walk_sound revision db fuel lookup rest at _ t e)
walk_sound revision db (suc fuel) lookup (parent_dir ∷ rest) [] explain t e = ground arith
walk_sound revision db (suc fuel) lookup (parent_dir ∷ rest) (name ∷ at) explain t e =
    up (walk_sound revision db fuel lookup rest at _ t e)
walk_sound revision db (suc fuel) lookup (normal name ∷ rest) at explain t e =
    let w : Walk = record {
      lookup = lookup;
      left = normal name ∷ rest;
      resolved = at;
      explain = explain;
    } in
    let (entry, read, more) = >>=-eq-ok (entry_of_path revision (path_bytes (name ∷ at)) db) _ (
      sym (
        >>=_assoc (entry_of_path revision (path_bytes (name ∷ at)) db)
          (λ entry. ok (on_entry w name rest entry)) _)
      ∙ e) in
    entry_sound revision db fuel w name rest entry t read
      (λ w' e'. walk_sound revision db fuel w'.lookup w'.left w'.resolved w'.explain t e') more

-- The slow path finds a target exactly when the path's components lead from the root to it through
-- 40 links at most.
pub resolve_components-Resolves :
    (revision : ℕ) (db : Db) (path : Bytes) (t : Target)
    → (resolve_components revision db path ≡ ok t)
      ↔ Resolves revision db max_symlink_lookup [] (components path) t
unfolding resolve_components rounds_for
resolve_components-Resolves revision db path t = (
  λ e. walk_sound revision db _ 0 (components path) [] [] t e,
  λ d. walk_complete revision db _ 0 [] d refl (ground arith),
)
