-- ===== src/Gateway/Realpath/Total.antt =====
-- rsync-gateway/src/realpath.rs: the loop ends.
use rsync_sjtug.Prelude.{
  ℕ, zero, suc, ◌+◌, ◌-◌, ◌*◌, ◌≤◌, ◌<◌, ◌≡◌, refl, ◌≢◌, ◌&&◌, Bool-cases, inl, inr, Option, none,
  some, Option-cases, List, [], ◌∷◌, Bytes, bytes_eq, Result, ok, err, fault, ◌>>=◌, length,
  length-append, leb, ◌==◌, arith,
}
use rsync_sjtug.Database.Revisions.{FileType, regular, directory, symlink, Object, Db}
use rsync_sjtug.Gateway.Entries.{
  Entry, regular_entry, directory_entry, symlink_entry, entry_from, find_object, entry_of_path,
}
use rsync_sjtug.Gateway.Realpath.{
  Component, prefix, root_dir, cur_dir, parent_dir, normal, components, path_bytes, regular_target,
  directory_target, RealpathError, resolve_error, out_of_rounds, max_symlink_lookup, Walk, Outcome,
  continue, found, giveup, on_entry, on_parent, round, walk, components_of_target, longest_target,
  rounds_for, resolve_components, realpath,
}

-- What the loop relies on: the target of a link that the table gives is one of those measured.
abbrev pub Fits : ℕ → Option Entry → Type 0
Fits n none = Unit
Fits n (some (regular_entry blake2b)) = Unit
Fits n (some directory_entry) = Unit
Fits n (some (symlink_entry target)) = length (components target) ≤ n

find_object-longest_target :
    (revision : ℕ) (path : Bytes) (os : List Object) (o : Object)
    → find_object revision path os ≡ some o
    → components_of_target o.target ≤ longest_target os
unfolding find_object longest_target
find_object-longest_target revision path [] o e = ground arith
find_object-longest_target revision path (x ∷ os) o e =
    elim (Bool-cases (x.revision == revision && bytes_eq x.filename path)) [
      | inl t ↦ ground arith
      | inr t ↦ ground (arith, find_object-longest_target revision path os o)
    ]

unfoldable pub Answers : ℕ → Result RealpathError (Option Entry) → Type 0
Answers n (ok entry) = Fits n entry
Answers n (err e) = ⊥
Answers n fault = Unit

entry_from-Answers :
    (n : ℕ) (t : FileType) (blake2b target : Option Bytes)
    → components_of_target target ≤ n
    → Answers n (entry_from t blake2b target >>= λ e. ok (some e))
unfolding entry_from Answers
entry_from-Answers n regular none target h = tt
entry_from-Answers n regular (some b) target h = elim (Bool-cases (length b == 20)) [
  | inl e ↦ rw e tt
  | inr e ↦ rw e tt
]
entry_from-Answers n directory blake2b target h = tt
entry_from-Answers n symlink blake2b none h = tt
entry_from-Answers n symlink blake2b (some t) h = h

pub entry_of_path-Answers :
    (revision : ℕ) (path : Bytes) (db : Db)
    → Answers (longest_target db.objects) (entry_of_path revision path db)
unfolding entry_of_path Answers
entry_of_path-Answers revision path db =
    elim (Option-cases (find_object revision path db.objects)) [
      | inl e ↦ rw (e, Answers) tt
      | inr (o, e) ↦
          rw (e, Answers)
            (entry_from-Answers (longest_target db.objects) o.type o.blake2b o.target
              (find_object-longest_target revision path db.objects o e))
    ]

-- The rounds that are left, in the worst case.
abbrev budget : ℕ → Walk → ℕ
budget n w = length w.left + (max_symlink_lookup - w.lookup) * n

Progresses : ℕ → Walk → Result RealpathError Outcome → Type 0
Progresses n w (ok (continue w')) = (w'.lookup ≤ max_symlink_lookup) × (budget n w' < budget n w)
Progresses n w (ok (found target)) = Unit
Progresses n w (ok (giveup reason)) = Unit
Progresses n w (err e) = ⊥
Progresses n w fault = Unit

budget-link :
    (t r k lookup n : ℕ)
    → t ≤ n
    → lookup < k
    → (t + r) + (k - (lookup + 1)) * n < suc r + (k - lookup) * n
budget-link t r k lookup n h l = rw (step) (grind arith)
  where
    step : k - lookup ≡ suc (k - (lookup + 1))
    step = omega arith

on_entry-Progresses :
    (n : ℕ) (w : Walk) (name : Bytes) (rest : List Component) (entry : Option Entry)
    → w.left ≡ normal name ∷ rest
    → w.lookup ≤ max_symlink_lookup
    → Fits n entry
    → Progresses n w (ok (on_entry w name rest entry))
unfolding on_entry Progresses
on_entry-Progresses n w name rest none l h f = tt
on_entry-Progresses n w name [] (some (regular_entry b)) l h f = tt
on_entry-Progresses n w name (c ∷ cs) (some (regular_entry b)) l h f = tt
on_entry-Progresses n w name rest (some directory_entry) l h f = (h, rw l (omega arith))
on_entry-Progresses n w name rest (some (symlink_entry target)) l h f =
    elim (Bool-cases (leb max_symlink_lookup w.lookup)) [
      | inl e ↦ rw e tt
      | inr e ↦ rw e (ground arith, rw (l, length-append) (budget-link _ _ _ _ _ f (ground arith)))
    ]

on_parent-Progresses :
    (n : ℕ) (w : Walk) (rest : List Component)
    → w.left ≡ parent_dir ∷ rest
    → w.lookup ≤ max_symlink_lookup
    → Progresses n w (ok (on_parent w rest))
unfolding on_parent Progresses
on_parent-Progresses n w rest l h =
    elim (w.resolved) as (λ r. w.resolved ≡ r → Progresses n w (ok (on_parent w rest))) [
      | [] ↦ λ e. rw e tt
      | name ∷ above ↦ λ e. rw e (h, rw l (omega arith))
    ]
      refl

round-Progresses :
    (revision : ℕ) (db : Db) (w : Walk) (comp : Component) (rest : List Component)
    → w.left ≡ comp ∷ rest
    → w.lookup ≤ max_symlink_lookup
    → Progresses (longest_target db.objects) w (round revision db w comp rest)
unfolding round Progresses Answers
round-Progresses revision db w prefix rest l h = tt
round-Progresses revision db w root_dir rest l h = tt
round-Progresses revision db w cur_dir rest l h = (h, rw l (omega arith))
round-Progresses revision db w parent_dir rest l h = on_parent-Progresses _ w rest l h
round-Progresses revision db w (normal name) rest l h =
    go (entry_of_path revision (path_bytes (name ∷ w.resolved)) db)
      (entry_of_path-Answers revision (path_bytes (name ∷ w.resolved)) db)
  where
    go :
        (read : Result RealpathError (Option Entry))
        → Answers (longest_target db.objects) read
        → Progresses
            (longest_target db.objects)
            w
            (read >>= λ entry. ok (on_entry w name rest entry))
    go (ok entry) a = on_entry-Progresses _ w name rest entry l h a
    go (err e) a = elim a [ ]
    go fault a = tt

outcome-ends :
    (revision : ℕ) (db : Db) (n fuel : ℕ) (w : Walk) (made : Result RealpathError Outcome)
    → Progresses n w made
    → budget n w < suc fuel
    → ((w' : Walk)
        → w'.lookup ≤ max_symlink_lookup
        → budget n w' < fuel
        → walk revision db fuel w' ≢ err out_of_rounds)
    → (made >>= λ outcome. elim outcome [
      | continue w' ↦ walk revision db fuel w'
      | found target ↦ ok target
      | giveup reason ↦ err (resolve_error reason)
    ])
      ≢ err out_of_rounds
unfolding Progresses
outcome-ends revision db n fuel w (ok (continue w')) (k, p) b ih = ih w' k (omega arith)
outcome-ends revision db n fuel w (ok (found target)) p b ih = λ e. ground arith
outcome-ends revision db n fuel w (ok (giveup reason)) p b ih = λ e. ground arith
outcome-ends revision db n fuel w (err e) p b ih = elim p [ ]
outcome-ends revision db n fuel w fault p b ih = λ e. ground arith

walk-ends :
    (revision : ℕ) (db : Db) (fuel : ℕ) (w : Walk)
    → w.lookup ≤ max_symlink_lookup
    → budget (longest_target db.objects) w < fuel
    → walk revision db fuel w ≢ err out_of_rounds
unfolding walk round
walk-ends revision db zero w h b = omega arith
walk-ends revision db (suc fuel) w h b =
    elim (w.left) as (λ l. w.left ≡ l → walk revision db (suc fuel) w ≢ err out_of_rounds) [
      | [] ↦ λ l. rw l (λ e. ground arith)
      | comp ∷ rest ↦ λ l. rw l (
          outcome-ends revision db (longest_target db.objects) fuel w
            (round revision db w comp rest) (round-Progresses revision db w comp rest l h) b
            (λ w' h' b'. walk-ends revision db fuel w' h' b'))
    ]
      refl

-- The rounds that `realpath` gives its loop are enough for every path of every revision of every
-- database: the loop ends by itself, with a target, a reason to give up, or the panic of a
-- malformed row.
pub realpath-ends :
    (revision : ℕ) (db : Db) (path : Bytes) → realpath revision db path ≢ err out_of_rounds
unfolding realpath resolve_components Answers rounds_for
realpath-ends revision db path =
    go (entry_of_path revision path db) (entry_of_path-Answers revision path db)
  where
    slow : resolve_components revision db path ≢ err out_of_rounds
    slow = walk-ends revision db (rounds_for db (components path)) _ (omega arith) (ground arith)

    go :
        (read : Result RealpathError (Option Entry))
        → Answers (longest_target db.objects) read
        → (read >>= λ entry. elim entry [
          | none ↦ resolve_components revision db path
          | some e ↦ elim e [
            | regular_entry blake2b ↦ ok (regular_target blake2b)
            | directory_entry ↦ ok (directory_target path)
            | symlink_entry target ↦ resolve_components revision db path
          ]
        ])
          ≢ err out_of_rounds
    go (ok none) a = slow
    go (ok (some (regular_entry b))) a = λ e. ground arith
    go (ok (some directory_entry)) a = λ e. ground arith
    go (ok (some (symlink_entry t))) a = slow
    go (err e) a = elim a [ ]
    go fault a = λ e. ground arith
