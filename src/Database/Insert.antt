-- ===== src/Database/Insert.antt =====
-- rsync-core/src/pg.rs, `insert_task`, with sqls/insert_objects.sql: objects come one by one over a
-- channel and go into the table in batches.
pub mod Fits
use rsync_sjtug.Prelude.{
  ℕ, ◌+◌, ◌≡◌, refl, sym, ap, ◌∙◌, Bool, true, false, not, ◌&&◌, ◌||◌, Option, none, some, List, [],
  ◌∷◌, ◌++◌, Bytes, length, leb, chunks, concat, concat-chunks, append_assoc, arith, Bool-cases,
  inl, inr, if◌then◌else◌, ◌==◌, bytes_eq, Result, ok, err, fault, ◌>>=◌, ◌>>◌, ensure, >>=_assoc,
  >>=_congr, append-nil, Leaves, Leaves-bind, Leaves-any,
}
use mathlib.Core.Path.{subst}
use rsync_sjtug.Database.Revisions.{
  FileType, regular, directory, symlink, Object, Db, PgError, check_violation, unique_violation,
}

pub data MetaExtra : Type 0 where
  symlink_extra : (target : Bytes) → MetaExtra
  regular_extra : (blake2b_hash : Bytes) → MetaExtra
  directory_extra : MetaExtra

pub record Metadata : Type 0 where
  pub len : ℕ
  pub modify_time : ℕ
  pub extra : MetaExtra

-- An entry of each of the six buffers; `len as i64` keeps the bits.
pub record Row : Type 0 where
  pub key : Bytes
  pub value : ℕ
  pub mtime : ℕ
  pub type : FileType
  pub hash : Option Bytes
  pub target : Option Bytes

abbrev pub columns : MetaExtra → FileType × Option Bytes × Option Bytes
columns (symlink_extra target) = (symlink, none, some target)
columns (regular_extra blake2b_hash) = (regular, some blake2b_hash, none)
columns directory_extra = (directory, none, none)

unfoldable pub row_of : Bytes → Metadata → Row
row_of k v =
    let (typ, blake2b, target) = columns v.extra in
    record {
      key = k;
      value = v.len;
      mtime = v.modify_time;
      type = typ;
      hash = blake2b;
      target = target;
    }

abbrev pub insert_chunk_size : ℕ
insert_chunk_size = 10000

abbrev pub max_insert_per_batch : ℕ
max_insert_per_batch = 1000

-- What an `INSERT INTO objects` that violates no constraint adds: the rows in order, with the next
-- identities.
unfoldable pub append_objects : ℕ → List Row → Db → Db
append_objects rev [] db = db
append_objects rev (r ∷ rows) db = append_objects rev rows (record db {
  objects =
      db.objects
      ++ (record {
        id = db.next_object;
        revision = rev;
        filename = r.key;
        parent = none;
        len = r.value;
        modify_time = r.mtime;
        type = r.type;
        blake2b = r.hash;
        target = r.target;
      }
          ∷ []);
  next_object = db.next_object + 1;
})

-- `required_fields` and `blake2b_len`
unfoldable pub is_admissible : FileType → Option Bytes → Option Bytes → Bool
is_admissible regular (some blake2b) none = length blake2b == 20
is_admissible directory none none = true
is_admissible symlink none (some target) = true
is_admissible _ _ _ = false

-- `objects_revision_filename_idx`: whether a row has the revision and the name.
unfoldable pub is_taken : ℕ → Bytes → List Object → Bool
is_taken rev key [] = false
is_taken rev key (o ∷ os) = ((o.revision == rev) && bytes_eq o.filename key) || is_taken rev key os

-- `INSERT INTO objects … SELECT * FROM UNNEST(…)`: row after row, each with its constraints.
unfoldable pub insert_objects : ℕ → List Row → Db → Result PgError Db
insert_objects rev [] db = ok db
insert_objects rev (r ∷ rows) db = do
  ensure (is_admissible r.type r.hash r.target) check_violation
  ensure (not (is_taken rev r.key db.objects)) unique_violation
  insert_objects rev rows (append_objects rev (r ∷ []) db)

unfoldable pub insert_chunks : ℕ → List (List Row) → Db → Result PgError Db
insert_chunks rev [] db = ok db
insert_chunks rev (rows ∷ rest) db = insert_objects rev rows db >>= insert_chunks rev rest

-- What `select!` sees: the timer, an object, or the closed channel.
pub data Event : Type 0 where
  tick : Event
  received : Bytes → Metadata → Event
  closed : Event

abbrev pub is_empty : List Row → Bool
is_empty [] = true
is_empty (r ∷ rows) = false

-- The end of a round: with `force` or a full batch, what is buffered is inserted and cleared.
unfoldable pub flush : ℕ → Bool → List Row → Db → Result PgError (List Row × Db)
unfolding chunks
flush rev force rows db =
    if (force || leb max_insert_per_batch (length rows)) && not (is_empty rows)
    then (insert_chunks rev (chunks insert_chunk_size rows) db >>= λ db'. ok ([], db'))
    else ok (rows, db)

-- The loop, over the events that the task sees; it ends with the channel, or with an error.
unfoldable pub insert_loop : ℕ → List Row → Db → List Event → Result PgError Db
insert_loop rev rows db [] = ok db
insert_loop rev rows db (tick ∷ events) =
    flush rev true rows db >>= λ (rows', db'). insert_loop rev rows' db' events
insert_loop rev rows db (received k v ∷ events) =
    flush rev false (rows ++ (row_of k v ∷ [])) db >>= λ (rows', db').
    insert_loop rev rows' db' events
insert_loop rev rows db (closed ∷ events) = flush rev true rows db >>= λ (rows', db'). ok db'

unfoldable pub insert_task : ℕ → List Event → Db → Result PgError Db
insert_task rev events db = insert_loop rev [] db events

-- The objects that arrive before the channel is closed, if it is.
abbrev pub arrived : List Event → List Row
arrived [] = []
arrived (tick ∷ events) = arrived events
arrived (received k v ∷ events) = row_of k v ∷ arrived events
arrived (closed ∷ events) = []

abbrev pub is_closed : List Event → Bool
is_closed [] = false
is_closed (tick ∷ events) = is_closed events
is_closed (received k v ∷ events) = is_closed events
is_closed (closed ∷ events) = true

insert_objects-append :
    (rev : ℕ) (xs ys : List Row) (db : Db)
    → insert_objects rev (xs ++ ys) db ≡ (insert_objects rev xs db >>= insert_objects rev ys)
unfolding insert_objects
insert_objects-append rev [] ys db = refl
insert_objects-append rev (x ∷ xs) ys db =
    go (is_admissible x.type x.hash x.target) (not (is_taken rev x.key db.objects))
      (insert_objects-append rev xs ys (append_objects rev (x ∷ []) db))
  where
    go :
        (b c : Bool)
        → insert_objects rev (xs ++ ys) (append_objects rev (x ∷ []) db)
          ≡ (insert_objects rev xs (append_objects rev (x ∷ []) db) >>= insert_objects rev ys)
        → (ensure b check_violation >>= λ _. ensure c unique_violation >>= λ _.
            insert_objects rev (xs ++ ys) (append_objects rev (x ∷ []) db))
          ≡ ((ensure b check_violation >>= λ _. ensure c unique_violation >>= λ _.
                insert_objects rev xs (append_objects rev (x ∷ []) db))
              >>= insert_objects rev ys)
    go true true e = e
    go true false e = refl
    go false c e = refl

insert_chunks-concat :
    (rev : ℕ) (xss : List (List Row)) (db : Db)
    → insert_chunks rev xss db ≡ insert_objects rev (concat xss) db
unfolding insert_chunks
insert_chunks-concat rev [] db = unfold insert_objects in refl
insert_chunks-concat rev (xs ∷ xss) db =
    >>=_congr (insert_objects rev xs db) _ _ (λ db' _. insert_chunks-concat rev xss db')
    ∙ sym (insert_objects-append rev xs (concat xss) db)

-- What was not yet inserted of a round, with what comes later.
abbrev insert_rest : ℕ → List Row → List Row × Db → Result PgError Db
insert_rest rev more (rows, db) = insert_objects rev (rows ++ more) db

-- A round inserts some of what is buffered, and nothing is lost.
flush-insert_objects :
    (rev : ℕ) (force : Bool) (rows more : List Row) (db : Db)
    → (flush rev force rows db >>= insert_rest rev more) ≡ insert_objects rev (rows ++ more) db
unfolding flush
flush-insert_objects rev force rows more db =
    elim (Bool-cases ((force || leb max_insert_per_batch (length rows)) && not (is_empty rows))) [
      | inl e ↦
          rw (e, insert_chunks-concat, concat-chunks insert_chunk_size rows (omega arith))
            (>>=_assoc (insert_objects rev rows db) _ (insert_rest rev more)
              ∙ sym (insert_objects-append rev rows more db))
      | inr e ↦ rw e refl
    ]

flush-force :
    (rev : ℕ) (rows : List Row) (db : Db)
    → (flush rev true rows db >>= λ (rows', db'). ok db') ≡ insert_objects rev rows db
unfolding flush
flush-force rev [] db = unfold insert_objects in refl
flush-force rev (r ∷ rows) db =
    rw (insert_chunks-concat, concat-chunks insert_chunk_size (r ∷ rows) (omega arith))
      (>>=_assoc (insert_objects rev (r ∷ rows) db) _ _
        ∙ bind_ok (insert_objects rev (r ∷ rows) db))
  where
    bind_ok : (m : Result PgError Db) → (m >>= λ db'. ok db') ≡ m
    bind_ok (ok a) = refl
    bind_ok (err e) = refl
    bind_ok fault = refl

insert_loop-arrived :
    (rev : ℕ) (rows : List Row) (db : Db) (events : List Event)
    → is_closed events ≡ true
    → insert_loop rev rows db events ≡ insert_objects rev (rows ++ arrived events) db
unfolding insert_loop
insert_loop-arrived rev rows db [] c = cc
insert_loop-arrived rev rows db (tick ∷ events) c =
    >>=_congr (flush rev true rows db) _ _
      (λ (rows', db') _. insert_loop-arrived rev rows' db' events c)
    ∙ flush-insert_objects rev true rows (arrived events) db
insert_loop-arrived rev rows db (received k v ∷ events) c =
    >>=_congr (flush rev false (rows ++ (row_of k v ∷ [])) db) _ _
      (λ (rows', db') _. insert_loop-arrived rev rows' db' events c)
    ∙ flush-insert_objects rev false (rows ++ (row_of k v ∷ [])) (arrived events) db
    ∙ ap (λ l. insert_objects rev l db) (append_assoc rows (row_of k v ∷ []) (arrived events))
insert_loop-arrived rev rows db (closed ∷ events) c =
    flush-force rev rows db ∙ ap (λ l. insert_objects rev l db) (sym (append-nil rows))

-- An INSERT that succeeds adds exactly its rows.
pub insert_objects-append_objects :
    (rev : ℕ) (rows : List Row) (db : Db)
    → Leaves (λ db'. db' ≡ append_objects rev rows db) (insert_objects rev rows db)
unfolding insert_objects append_objects
insert_objects-append_objects rev [] db = refl
insert_objects-append_objects rev (r ∷ rows) db =
    Leaves-bind (λ _. Unit {0}) (λ db'. db' ≡ append_objects rev (r ∷ rows) db)
      (ensure (is_admissible r.type r.hash r.target) check_violation) _ (Leaves-any _)
      λ u _.
        Leaves-bind (λ _. Unit {0}) (λ db'. db' ≡ append_objects rev (r ∷ rows) db)
          (ensure (not (is_taken rev r.key db.objects)) unique_violation) _ (Leaves-any _)
          λ u _. insert_objects-append_objects rev rows _

pub insert_task-append_objects :
    (rev : ℕ) (events : List Event) (db : Db)
    → is_closed events ≡ true
    → Leaves (λ db'. db' ≡ append_objects rev (arrived events) db) (insert_task rev events db)
unfolding insert_task
insert_task-append_objects rev events db c =
    subst (Leaves (λ db'. db' ≡ append_objects rev (arrived events) db))
      (sym (insert_loop-arrived rev [] db events c))
      (insert_objects-append_objects rev (arrived events) db)
