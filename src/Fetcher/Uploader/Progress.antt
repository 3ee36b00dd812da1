-- ===== src/Fetcher/Uploader/Progress.antt =====
-- rsync-fetcher/src/rsync/uploader.rs: the tasks are done, each once.
use rsync_sjtug.Prelude.{
  ℕ, zero, suc, ◌+◌, ◌*◌, ◌≤◌, ◌<◌, ◌≡◌, refl, sym, ap, ◌∙◌, Bool, true, false, Bool-cases, inl,
  inr, ◌⊎◌, Option, none, some, List, [], ◌∷◌, ◌++◌, append-nil, append_assoc, All, Bytes, ok,
  if◌then◌else◌, get_elem?, replicate, length, arith,
}
use mathlib.Core.Path.{subst}
use rsync_sjtug.Database.Revisions.{contains}
use rsync_sjtug.Database.Insert.{Metadata, regular_extra}
use rsync_sjtug.Gc.{object_key}
use rsync_sjtug.Fetcher.FileList.{FileEntry}
use rsync_sjtug.Fetcher.Receiver.{UploadTask, fetch_sub}
use rsync_sjtug.Fetcher.Uploader.{
  keys, Shared, Worker, waiting, checking, writing, written, updating, entry_at, take_task,
  update_metadata, write_object, advance, advance_worker, upload_tasks,
}

-- The steps that a worker needs at most for the task it has.
abbrev steps_left : Worker → ℕ
steps_left waiting = 0
steps_left (checking t) = 4
steps_left (writing t) = 3
steps_left (written t) = 2
steps_left (updating t) = 1

abbrev tasks_of : Worker → List UploadTask
tasks_of waiting = []
tasks_of (checking t) = t ∷ []
tasks_of (writing t) = t ∷ []
tasks_of (written t) = t ∷ []
tasks_of (updating t) = t ∷ []

module _ (available : Bytes → Bool) (percent_encode : Bytes → Bytes) (s3_prefix : Bytes)
    (file_list : List FileEntry) where
  -- A task can be done: its index is in the list and the store answers for its file.
  abbrev pub IsDoable : UploadTask → Type 0
  IsDoable t =
      ((entry : FileEntry) × (get_elem? file_list t.idx ≡ some entry))
      × (available (object_key s3_prefix t.blake2b_hash) ≡ true)

  -- The metadata of a file of the list.
  abbrev pub row_of_task : Option FileEntry → UploadTask → List (Bytes × Metadata)
  row_of_task none t = []
  row_of_task (some entry) t =
      (
        entry.name,
        record {
          len = entry.len;
          modify_time = entry.modify_time;
          extra = regular_extra t.blake2b_hash;
        },
      )
      ∷ []

  abbrev pub rows_of_tasks : List UploadTask → List (Bytes × Metadata)
  rows_of_tasks [] = []
  rows_of_tasks (t ∷ ts) = row_of_task (get_elem? file_list t.idx) t ++ rows_of_tasks ts

  -- One step of a worker that has something to do, or a task to take.
  abbrev Advances : Worker → Shared → Worker × Shared → Type 0
  Advances w s (w', s') =
      (steps_left w' + 5 * length s'.rx < steps_left w + 5 * length s.rx)
      × (s'.pg ++ rows_of_tasks (tasks_of w' ++ s'.rx) ≡ s.pg ++ rows_of_tasks (tasks_of w ++ s.rx))
      × All IsDoable (tasks_of w' ++ s'.rx)

  take_task-Advances :
      (t : UploadTask) (ts : List UploadTask) (s : Shared)
      → s.rx ≡ t ∷ ts
      → All IsDoable (t ∷ ts)
      → Advances waiting s (take_task available percent_encode s3_prefix file_list (t ∷ ts) s)
  unfolding take_task
  take_task-Advances t ts s e h = elim (Bool-cases (contains t.blake2b_hash s.uploaded)) [
    | inl c ↦ rw (c, e) (omega arith, refl, h)
    | inr c ↦ rw (c, e) (omega arith, refl, h)
  ]

  entry_at-found :
      (idx : ℕ) (entry : FileEntry)
      → get_elem? file_list idx ≡ some entry
      → entry_at available percent_encode s3_prefix file_list idx ≡ ok entry
  unfolding entry_at
  entry_at-found idx entry e = rw (e, entry_at) refl

  -- The two outcomes of `stat`.
  checked-Advances :
      (t : UploadTask) (s : Shared) (b : Bool)
      → All IsDoable (t ∷ s.rx)
      → Advances (checking t) s (if b then written t else writing t, s)
  checked-Advances t s true h = (omega arith, refl, h)
  checked-Advances t s false h = (omega arith, refl, h)

  advance-Advances :
      (w : Worker) (s : Shared)
      → All IsDoable (tasks_of w ++ s.rx)
      → 0 < steps_left w + 5 * length s.rx
      → (p : Worker × Shared) × (advance available percent_encode s3_prefix file_list w s ≡ ok p)
        × Advances w s p
  unfolding advance
  advance-Advances waiting s h l = (
    take_task available percent_encode s3_prefix file_list s.rx s,
    refl,
    go s.rx refl h (omega arith),
  )
    where
      go :
          (rx : List UploadTask)
          → s.rx ≡ rx
          → All IsDoable rx
          → 0 < 5 * length s.rx
          → Advances waiting s (take_task available percent_encode s3_prefix file_list s.rx s)
      go [] e h' l' = absurd (ground arith)
      go (t ∷ ts) e h' l' =
          subst
            (λ q. Advances waiting s (take_task available percent_encode s3_prefix file_list q s))
            (sym e) (take_task-Advances t ts s e h')
  advance-Advances (checking t) s (d, h) l =
      let (entry, found) = d.0 in
      (
        (
          if contains (object_key s3_prefix t.blake2b_hash) (keys s.store)
              then written t
              else writing t,
          s,
        ),
        rw (entry_at-found t.idx entry found, d.1) refl,
        checked-Advances t s (contains (object_key s3_prefix t.blake2b_hash) (keys s.store)) (d, h),
      )
  advance-Advances (writing t) s (d, h) l =
      let (entry, found) = d.0 in
      (
        (written t, write_object available percent_encode s3_prefix file_list t entry s),
        rw (entry_at-found t.idx entry found, d.1) refl,
        unfold write_object in (omega arith, refl, (d, h)),
      )
  advance-Advances (written t) s h l = (_, refl, (omega arith, refl, h))
  advance-Advances (updating t) s (d, h) l =
      let (entry, found) = d.0 in
      let metadata : Metadata = record {
        len = entry.len;
        modify_time = entry.modify_time;
        extra = regular_extra t.blake2b_hash;
      } in
      (
        (
          waiting,
          record s {
            uploading = fetch_sub s.uploading;
            pg = s.pg ++ ((entry.name, metadata) ∷ []);
          },
        ),
        unfold update_metadata in rw (entry_at-found t.idx entry found) refl,
        (omega arith, rw (found, append_assoc) refl, h),
      )

  -- A worker with nothing to do.
  abbrev IsIdle : Worker → Shared → Type 0
  IsIdle w s = (w ≡ waiting) × (s.rx ≡ [])

  no_budget-IsIdle : (w : Worker) (s : Shared) → steps_left w + 5 * length s.rx ≡ 0 → IsIdle w s
  no_budget-IsIdle waiting s e = (refl, no_tasks s.rx (omega arith))
    where
      no_tasks : (rx : List UploadTask) → length rx ≡ 0 → rx ≡ []
      no_tasks [] z = refl
      no_tasks (t ∷ ts) z = absurd (omega arith)
  no_budget-IsIdle (checking t) s e = absurd (omega arith)
  no_budget-IsIdle (writing t) s e = absurd (omega arith)
  no_budget-IsIdle (written t) s e = absurd (omega arith)
  no_budget-IsIdle (updating t) s e = absurd (omega arith)

  idle_stays :
      (w : Worker) (s : Shared)
      → IsIdle w s
      → advance available percent_encode s3_prefix file_list w s ≡ ok (w, s)
  unfolding advance take_task
  idle_stays w s (e, f) =
      rw e (ap (λ rx. ok (take_task available percent_encode s3_prefix file_list rx s)) f)

  abbrev Finished : Worker → List Worker → Shared → List Worker × Shared → Type 0
  Finished w others s (ws, s') =
      (ws ≡ waiting ∷ others) × (s'.rx ≡ []) × (s'.pg ≡ s.pg ++ rows_of_tasks (tasks_of w ++ s.rx))

  upload_tasks-Finished :
      (n : ℕ) (w : Worker) (others : List Worker) (s : Shared)
      → All IsDoable (tasks_of w ++ s.rx)
      → steps_left w + 5 * length s.rx ≤ n
      → (p : List Worker × Shared) × (upload_tasks available percent_encode s3_prefix file_list
            (replicate n 0)
            (w ∷ others)
            s
          ≡ ok p)
        × Finished w others s p
  unfolding upload_tasks advance_worker
  upload_tasks-Finished zero w others s h l =
      let (e, f) = no_budget-IsIdle w s (omega arith) in
      ((w ∷ others, s), refl, (ap (λ v. v ∷ others) e, f, rw (e, f) (sym (append-nil s.pg))))
  upload_tasks-Finished (suc n) w others s h l = elim (zero_or (steps_left w + 5 * length s.rx)) [
    | inl z ↦
        let idle = no_budget-IsIdle w s z in
        let (p, e, f) = upload_tasks-Finished n w others s h (omega arith) in
        (p, rw (idle_stays w s idle) e, f)
    | inr more ↦
        let ((w', s'), e, (less, rows, h')) = advance-Advances w s h more in
        let (p, e', (a, b, c)) = upload_tasks-Finished n w' others s' h' (omega arith) in
        (p, rw e e', (a, b, c ∙ rows))
  ]
    where
      zero_or : (k : ℕ) → (k ≡ 0) ⊎ (0 < k)
      zero_or k = ground arith

  -- If every task can be done, one worker that goes on is enough, whatever the others are at: after
  -- five steps for each task the queue is empty, and the metadata of all tasks are queued in order.
  pub upload_tasks-rows_of_tasks :
      (others : List Worker) (s : Shared)
      → All IsDoable s.rx
      → (s' : Shared) × (upload_tasks available percent_encode s3_prefix file_list
            (replicate (5 * length s.rx) 0)
            (waiting ∷ others)
            s
          ≡ ok (waiting ∷ others, s'))
        × (s'.rx ≡ [])
        × (s'.pg ≡ s.pg ++ rows_of_tasks s.rx)
  upload_tasks-rows_of_tasks others s h =
      let ((ws, s'), e, (a, b, c)) =
        upload_tasks-Finished (5 * length s.rx) waiting others s h (omega arith) in
      (s', e ∙ ap (λ v. ok (v, s')) a, b, c)
