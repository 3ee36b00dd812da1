-- ===== src/Fetcher/Uploader/Backed.antt =====
-- rsync-fetcher/src/rsync/uploader.rs: metadata are queued only for files that the store has.
use rsync_sjtug.Prelude.{
  ℕ, zero, suc, ◌≡◌, refl, Bool, true, Bool-cases, inl, inr, List, [], ◌∷◌, All, All-weaken,
  All-append, Bytes, IsByte, bytes_eq, bytes_eq_refl, bytes_eq→eq, ok, ensure, Leaves, Leaves-bind,
  Leaves-ok, Leaves-any, Leaves-weaken, replicate, if◌then◌else◌, arith,
}
use mathlib.Core.Path.{subst}
use rsync_sjtug.Database.Revisions.{contains}
use rsync_sjtug.Database.Insert.{Metadata, MetaExtra, symlink_extra, regular_extra, directory_extra}
use rsync_sjtug.Gc.{object_key}
use rsync_sjtug.Fetcher.FileList.{FileEntry}
use rsync_sjtug.Fetcher.Receiver.{UploadTask, fetch_sub}
use rsync_sjtug.Fetcher.Uploader.{
  Stored, keys, Shared, Worker, waiting, checking, writing, written, updating, store_error,
  entry_at, take_task, update_metadata, write_object, advance, advance_worker, upload_tasks,
}

-- The store has the file of the hash, which is a byte string.
abbrev pub Has : Bytes → List Stored → Bytes → Type 0
Has s3_prefix store h = All IsByte h × (contains (object_key s3_prefix h) (keys store) ≡ true)

abbrev pub HashOfTask : UploadTask → Type 0
HashOfTask t = All IsByte t.blake2b_hash

abbrev pub RowIsBacked : Bytes → List Stored → Bytes × Metadata → Type 0
RowIsBacked s3_prefix store (name, metadata) = go metadata.extra
  where
    go : MetaExtra → Type 0
    go (regular_extra h) = Has s3_prefix store h
    go (symlink_extra target) = Unit
    go directory_extra = Unit

abbrev WorkerIsBacked : Bytes → List Stored → Worker → Type 0
WorkerIsBacked s3_prefix store waiting = Unit
WorkerIsBacked s3_prefix store (checking t) = HashOfTask t
WorkerIsBacked s3_prefix store (writing t) = HashOfTask t
WorkerIsBacked s3_prefix store (written t) = Has s3_prefix store t.blake2b_hash
WorkerIsBacked s3_prefix store (updating t) = Has s3_prefix store t.blake2b_hash

pub record IsBacked (s3_prefix : Bytes) (s : Shared) : Type 0 where
  pub queued : All HashOfTask s.rx
  pub uploaded : All (Has s3_prefix s.store) s.uploaded
  pub rows : All (RowIsBacked s3_prefix s.store) s.pg

abbrev pub Grows : List Stored → List Stored → Type 0
Grows store store' = (k : Bytes) → contains k (keys store) ≡ true → contains k (keys store') ≡ true

RowIsBacked-Grows :
    (s3_prefix : Bytes) (store store' : List Stored)
    → Grows store store'
    → (row : Bytes × Metadata) → RowIsBacked s3_prefix store row
    → RowIsBacked s3_prefix store' row
RowIsBacked-Grows s3_prefix store store' g (name, m) h = go m.extra h
  where
    go :
        (e : MetaExtra)
        → RowIsBacked s3_prefix store (name, record m { extra = e })
        → RowIsBacked s3_prefix store' (name, record m { extra = e })
    go (regular_extra b) k = (k.0, g _ k.1)
    go (symlink_extra target) k = tt
    go directory_extra k = tt

WorkerIsBacked-Grows :
    (s3_prefix : Bytes) (store store' : List Stored)
    → Grows store store'
    → (w : Worker) → WorkerIsBacked s3_prefix store w
    → WorkerIsBacked s3_prefix store' w
WorkerIsBacked-Grows s3_prefix store store' g waiting h = tt
WorkerIsBacked-Grows s3_prefix store store' g (checking t) h = h
WorkerIsBacked-Grows s3_prefix store store' g (writing t) h = h
WorkerIsBacked-Grows s3_prefix store store' g (written t) h = (h.0, g _ h.1)
WorkerIsBacked-Grows s3_prefix store store' g (updating t) h = (h.0, g _ h.1)

contains-All :
    (P : Bytes → Type 0) (h : Bytes) (hs : List Bytes) → All P hs → contains h hs ≡ true → P h
unfolding contains
contains-All P h [] a e = cc
contains-All P h (x ∷ hs) a e = elim (Bool-cases (bytes_eq x h)) [
  | inl t ↦ subst P (bytes_eq→eq x h t) a.0
  | inr t ↦ contains-All P h hs a.1 (ground arith)
]

module _ (available : Bytes → Bool) (percent_encode : Bytes → Bytes) (s3_prefix : Bytes)
    (file_list : List FileEntry) where
  -- What a step of a worker leaves.
  abbrev Stepped : Shared → Worker × Shared → Type 0
  Stepped s (w, s') =
      WorkerIsBacked s3_prefix s'.store w × IsBacked s3_prefix s' × Grows s.store s'.store

  take_task-Stepped :
      (rx : List UploadTask) (s : Shared)
      → IsBacked s3_prefix s
      → All HashOfTask rx
      → Stepped s (take_task available percent_encode s3_prefix file_list rx s)
  unfolding take_task
  take_task-Stepped [] s b q = (tt, b, λ k c. c)
  take_task-Stepped (t ∷ ts) s b q =
      (picked, record { queued = q.1; uploaded = b.uploaded; rows = b.rows }, λ k c. c)
    where
      picked :
          WorkerIsBacked s3_prefix s.store
            (if contains t.blake2b_hash s.uploaded then updating t else checking t)
      picked = elim (Bool-cases (contains t.blake2b_hash s.uploaded)) [
        | inl e ↦ rw e (contains-All (Has s3_prefix s.store) t.blake2b_hash s.uploaded b.uploaded e)
        | inr e ↦ rw e q.0
      ]

  checked :
      (t : UploadTask) (s : Shared)
      → HashOfTask t
      → WorkerIsBacked s3_prefix s.store (
          if contains (object_key s3_prefix t.blake2b_hash) (keys s.store)
          then written t
          else writing t)
  checked t s b =
      elim (Bool-cases (contains (object_key s3_prefix t.blake2b_hash) (keys s.store))) [
        | inl e ↦ rw e (b, e)
        | inr e ↦ rw e b
      ]

  write_object-Grows :
      (t : UploadTask) (entry : FileEntry) (s : Shared)
      → Grows s.store (write_object available percent_encode s3_prefix file_list t entry s).store
  unfolding write_object contains
  write_object-Grows t entry s k c = ground arith

  write_object-Stepped :
      (t : UploadTask) (entry : FileEntry) (s : Shared)
      → IsBacked s3_prefix s
      → HashOfTask t
      → Stepped s (written t, write_object available percent_encode s3_prefix file_list t entry s)
  unfolding write_object
  write_object-Stepped t entry s b hash =
      let g = write_object-Grows t entry s in
      (
        (hash, unfold contains in rw (bytes_eq_refl (object_key s3_prefix t.blake2b_hash)) refl),
        record {
          queued = b.queued;
          uploaded = All-weaken _ _ s.uploaded (λ h c. (c.0, g _ c.1)) b.uploaded;
          rows =
              All-weaken _ _ s.pg
                (RowIsBacked-Grows s3_prefix s.store
                  (write_object available percent_encode s3_prefix file_list t entry s).store g)
                b.rows;
        },
        g,
      )

  update_metadata-IsBacked :
      (idx : ℕ) (h : Bytes) (s : Shared)
      → IsBacked s3_prefix s
      → Has s3_prefix s.store h
      → Leaves
          (λ (s' : Shared). IsBacked s3_prefix s' × Grows s.store s'.store)
          (update_metadata available percent_encode s3_prefix file_list idx h s)
  unfolding update_metadata
  update_metadata-IsBacked idx h s b k =
      Leaves-bind _ _ (entry_at available percent_encode s3_prefix file_list idx) _ (Leaves-any _)
        λ entry u. (
          record {
            queued = b.queued;
            uploaded = b.uploaded;
            rows = All-append _ s.pg _ b.rows (k, tt);
          },
          λ key c. c,
        )

  advance-Stepped :
      (w : Worker) (s : Shared)
      → IsBacked s3_prefix s
      → WorkerIsBacked s3_prefix s.store w
      → Leaves (Stepped s) (advance available percent_encode s3_prefix file_list w s)
  unfolding advance
  advance-Stepped waiting s b h = take_task-Stepped s.rx s b b.queued
  advance-Stepped (checking t) s b h =
      Leaves-bind _ _ (entry_at available percent_encode s3_prefix file_list t.idx) _ (Leaves-any _)
        λ entry u.
          Leaves-bind _ _ (ensure (available (object_key s3_prefix t.blake2b_hash)) store_error) _
            (Leaves-any _) λ u' v. (checked t s h, b, λ k c. c)
  advance-Stepped (writing t) s b h =
      Leaves-bind _ _ (entry_at available percent_encode s3_prefix file_list t.idx) _ (Leaves-any _)
        λ entry u.
          Leaves-bind _ _ (ensure (available (object_key s3_prefix t.blake2b_hash)) store_error) _
            (Leaves-any _) λ u' v. write_object-Stepped t entry s b h
  advance-Stepped (written t) s b h =
      (h, record { queued = b.queued; uploaded = (h, b.uploaded); rows = b.rows }, λ k c. c)
  advance-Stepped (updating t) s b h =
      Leaves-bind (λ (s' : Shared). IsBacked s3_prefix s' × Grows s.store s'.store) _
        (update_metadata available percent_encode s3_prefix file_list t.idx t.blake2b_hash
          (record s { uploading = fetch_sub s.uploading }))
        _
        (update_metadata-IsBacked t.idx t.blake2b_hash _
          (record { queued = b.queued; uploaded = b.uploaded; rows = b.rows }) h)
        λ s' (b', g). (tt, b', g)

  abbrev AllStepped : Shared → List Worker × Shared → Type 0
  AllStepped s (ws, s') =
      All (WorkerIsBacked s3_prefix s'.store) ws × IsBacked s3_prefix s' × Grows s.store s'.store

  advance_worker-AllStepped :
      (i : ℕ) (ws : List Worker) (s : Shared)
      → IsBacked s3_prefix s
      → All (WorkerIsBacked s3_prefix s.store) ws
      → Leaves (AllStepped s) (advance_worker available percent_encode s3_prefix file_list i ws s)
  unfolding advance_worker
  advance_worker-AllStepped i [] s b h = (tt, b, λ k c. c)
  advance_worker-AllStepped zero (w ∷ ws) s b h =
      Leaves-bind (Stepped s) _ (advance available percent_encode s3_prefix file_list w s) _
        (advance-Stepped w s b h.0)
        λ (w', s') (k, b', g).
          ((k, All-weaken _ _ ws (WorkerIsBacked-Grows s3_prefix s.store s'.store g) h.1), b', g)
  advance_worker-AllStepped (suc i) (w ∷ ws) s b h =
      Leaves-bind (AllStepped s) _
        (advance_worker available percent_encode s3_prefix file_list i ws s) _
        (advance_worker-AllStepped i ws s b h.1)
        λ (ws', s') (k, b', g).
          ((WorkerIsBacked-Grows s3_prefix s.store s'.store g w h.0, k), b', g)

  upload_tasks-AllStepped :
      (schedule : List ℕ) (ws : List Worker) (s : Shared)
      → IsBacked s3_prefix s
      → All (WorkerIsBacked s3_prefix s.store) ws
      → Leaves
          (AllStepped s)
          (upload_tasks available percent_encode s3_prefix file_list schedule ws s)
  unfolding upload_tasks
  upload_tasks-AllStepped [] ws s b h = (h, b, λ k c. c)
  upload_tasks-AllStepped (i ∷ schedule) ws s b h =
      Leaves-bind (AllStepped s) _
        (advance_worker available percent_encode s3_prefix file_list i ws s) _
        (advance_worker-AllStepped i ws s b h)
        λ (ws', s') (k, b', g).
          Leaves-weaken (AllStepped s') (AllStepped s)
            (upload_tasks available percent_encode s3_prefix file_list schedule ws' s')
            (upload_tasks-AllStepped schedule ws' s' b' k)
            λ (ws'', s'') (l, b'', g'). (l, b'', λ key c. g' key (g key c))

  -- However the workers are interleaved: when they start in a state in which what was uploaded and
  -- what was queued for the database is in the store, under hashes that are byte strings, and the
  -- tasks have such hashes, then the same holds of the state that they leave, and no file is lost
  -- from the store.
  pub upload_tasks-IsBacked :
      (schedule : List ℕ) (count : ℕ) (s : Shared) {ws : List Worker} {s' : Shared}
      → IsBacked s3_prefix s
      → upload_tasks available percent_encode s3_prefix file_list schedule
          (replicate count waiting)
          s
        ≡ ok (ws, s')
      → IsBacked s3_prefix s' × Grows s.store s'.store
  upload_tasks-IsBacked schedule count s b e =
      let (h, b', g) =
        Leaves-ok (AllStepped s) _
          (upload_tasks-AllStepped schedule (replicate count waiting) s b (waiting_all count s))
          e in
      (b', g)
    where
      waiting_all :
          (n : ℕ) (s : Shared) → All (WorkerIsBacked s3_prefix s.store) (replicate n waiting)
      waiting_all zero s = tt
      waiting_all (suc n) s = (tt, waiting_all n s)
