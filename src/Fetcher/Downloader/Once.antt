-- ===== src/Fetcher/Downloader/Once.antt =====
-- rsync-fetcher/src/rsync/downloader.rs and generator.rs: each item is asked for in one way.
use rsync_sjtug.Prelude.{
  ℕ, ◌%◌, ◌≡◌, refl, sym, ap, ◌∙◌, ◌⊎◌, not, Bool, true, false, inl, inr, Option, none, some, List,
  [], ◌∷◌, Bytes, Result, ok, Leaves, Leaves-bind, Leaves-weaken, Leaves-ok, get_elem?,
  if◌then◌else◌,
}
use rsync_sjtug.Fetcher.Checksum.{Simd}
use rsync_sjtug.Fetcher.FileList.{FileEntry}
use rsync_sjtug.Fetcher.Plan.{TransferItem}
use rsync_sjtug.Fetcher.Stats.{ignore_mode}
use rsync_sjtug.Fetcher.Generator.{is_wanted, request_full}
use rsync_sjtug.Fetcher.Generator.Requests.{full_requests, full_of}
use rsync_sjtug.Fetcher.Downloader.{DownloadEntry, IoError, with_entry, with_hash, gen_task}

module _ (sqrt : ℕ → ℕ) (md4 : Bytes → Bytes) (simd : Option Simd) (is_dir is_file : ℕ → Bool)
    (seed : ℕ) (file_list : List FileEntry) where
  -- The list has the entry at the index, and it is a regular file.
  abbrev pub IsRegularAt : ℕ → FileEntry → Type 0
  IsRegularAt idx entry =
      (get_elem? file_list idx ≡ some entry)
      × (is_dir entry.mode ≡ false)
      × (is_file entry.mode ≡ true)

  -- The list has no entry at the index, or one that is no regular file.
  abbrev pub IsPassedOver : ℕ → Type 0
  IsPassedOver idx = (entry : FileEntry) → ¬ IsRegularAt idx entry

  -- The items of regular files, in order: one with a hash is downloaded, under its own index, hash
  -- and name, and one without is requested as a whole.
  pub data Asks : List TransferItem → List DownloadEntry → List Bytes → Type 0 where
    asks_nil : Asks [] [] []
    asks_store :
        (idx : ℕ) (hash : Bytes) (entry : FileEntry) {items : List TransferItem}
        {entries : List DownloadEntry} {requests : List Bytes}
        → IsRegularAt idx entry
        → Asks items entries requests
        → Asks
            (record { idx = idx; blake2b = some hash } ∷ items)
            (record { idx = idx % 4294967296; blake2b_hash = hash; path = entry.name } ∷ entries)
            requests
    asks_server :
        (idx : ℕ) (entry : FileEntry) {items : List TransferItem} {entries : List DownloadEntry}
        {requests : List Bytes}
        → IsRegularAt idx entry
        → Asks items entries requests
        → Asks
            (record { idx = idx; blake2b = none } ∷ items)
            entries
            (request_full sqrt md4 simd is_dir is_file seed file_list entry ∷ requests)
    asks_nobody :
        (item : TransferItem) {items : List TransferItem} {entries : List DownloadEntry}
        {requests : List Bytes}
        → IsPassedOver item.idx
        → Asks items entries requests
        → Asks (item ∷ items) entries requests

  abbrev requests : List TransferItem → List Bytes
  requests = full_requests sqrt md4 simd is_dir is_file seed file_list

  passed_over :
      (entry : FileEntry) (idx : ℕ)
      → get_elem? file_list idx ≡ some entry
      → ((is_dir entry.mode ≡ true) ⊎ (is_file entry.mode ≡ false))
      → IsPassedOver idx
  passed_over entry idx f c other (f', d, r) =
      let same = some_eq (sym f' ∙ f) in
      elim c [
        | inl t ↦ differ (sym t ∙ ap (λ (q : FileEntry). is_dir q.mode) (sym same) ∙ d)
        | inr t ↦ differ (sym r ∙ ap (λ (q : FileEntry). is_file q.mode) same ∙ t)
      ]
    where
      some_eq : {a b : FileEntry} → some a ≡ some b → a ≡ b
      some_eq e = cc

      differ : true ≡ false → ⊥
      differ e = cc

  -- Whether an entry's mode is ignored says whether it is passed over.
  ignore_mode-cases :
      (entry : FileEntry) (idx : ℕ)
      → get_elem? file_list idx ≡ some entry
      → ((ignore_mode is_dir is_file entry.mode ≡ true) × IsPassedOver idx)
        ⊎ ((ignore_mode is_dir is_file entry.mode ≡ false) × IsRegularAt idx entry)
  unfolding ignore_mode
  ignore_mode-cases entry idx f = go (is_dir entry.mode) (is_file entry.mode) refl refl
    where
      go :
          (d r : Bool)
          → is_dir entry.mode ≡ d
          → is_file entry.mode ≡ r
          → (((if d then true else if not r then true else false) ≡ true) × IsPassedOver idx)
            ⊎ (((if d then true else if not r then true else false) ≡ false)
                × IsRegularAt idx entry)
      go true r e k = inl (refl, passed_over entry idx f (inl e))
      go false false e k = inl (refl, passed_over entry idx f (inr k))
      go false true e k = inr (refl, (f, e, k))

  missing : (idx : ℕ) → get_elem? file_list idx ≡ none → IsPassedOver idx
  missing idx f entry (f', d, r) = absurd (cc)

  abbrev AskedFrom :
      Option FileEntry → ℕ → Option Bytes → List TransferItem → List DownloadEntry → Type 0
  AskedFrom found idx hash items es = Asks (record { idx = idx; blake2b = hash } ∷ items) es (
      full_of sqrt md4 simd is_dir is_file seed file_list found
        (record { idx = idx; blake2b = hash }) (requests items))

  -- `with_hash`, with what the index finds.
  abbrev sent_for :
      Option FileEntry
      → ℕ
      → Option Bytes
      → Result IoError (List DownloadEntry)
      → Result IoError (List DownloadEntry)
  sent_for found idx none rest = rest
  sent_for found idx (some b) rest =
      with_entry is_dir is_file file_list found (record { idx = idx; blake2b = some b }) b rest

  Asks-with_hash :
      (hash : Option Bytes) (found : Option FileEntry) (idx : ℕ) (items : List TransferItem)
      (rest : Result IoError (List DownloadEntry))
      → get_elem? file_list idx ≡ found
      → Leaves (λ es. Asks items es (requests items)) rest
      → Leaves (AskedFrom found idx hash items) (sent_for found idx hash rest)
  unfolding with_entry is_wanted
  Asks-with_hash none none idx items rest f h =
      Leaves-weaken _ (AskedFrom none idx none items) rest h λ es k. asks_nobody _ (missing idx f) k
  Asks-with_hash (some b) none idx items rest f h = tt
  Asks-with_hash none (some entry) idx items rest f h =
      Leaves-weaken _ (AskedFrom (some entry) idx none items) rest h λ es k.
        elim (ignore_mode-cases entry idx f) [
          | inl (t, over) ↦ rw (t, AskedFrom) (asks_nobody _ over k)
          | inr (t, regular) ↦ rw (t, AskedFrom) (asks_server idx entry regular k)
        ]
  Asks-with_hash (some b) (some entry) idx items rest f h = elim (ignore_mode-cases entry idx f) [
    | inl (t, over) ↦ rw t (
        Leaves-weaken _
          (λ es. Asks (record { idx = idx; blake2b = some b } ∷ items) es (requests items)) rest h
          λ es k. asks_nobody _ over k)
    | inr (t, regular) ↦ rw t (
        Leaves-bind _
          (λ es. Asks (record { idx = idx; blake2b = some b } ∷ items) es (requests items)) rest _ h
          λ es k. asks_store idx b entry regular k)
  ]

  gen_task-Leaves :
      (items : List TransferItem)
      → Leaves (λ es. Asks items es (requests items)) (gen_task is_dir is_file file_list items)
  unfolding gen_task with_hash
  gen_task-Leaves [] = asks_nil
  gen_task-Leaves (item ∷ items) = go item.blake2b (gen_task-Leaves items)
    where
      go :
          (hash : Option Bytes)
          → Leaves (λ es. Asks items es (requests items)) (gen_task is_dir is_file file_list items)
          → Leaves (AskedFrom (get_elem? file_list item.idx) item.idx hash items) (
              with_hash is_dir is_file file_list hash
                (record { idx = item.idx; blake2b = hash })
                (gen_task is_dir is_file file_list items))
      go none h = Asks-with_hash none (get_elem? file_list item.idx) item.idx items _ refl h
      go (some b) h = Asks-with_hash (some b) (get_elem? file_list item.idx) item.idx items _ refl h

  -- If the downloader's generator returns, then what it sends to the download tasks and the full
  -- requests that the generator makes for the same plan are, in the plan's order, one for each item
  -- of a regular file: an item with a hash is downloaded, with its index on 32 bits, its hash and the
  -- name at the index, and an item without one is requested as a whole.
  pub gen_task-full_requests :
      (items : List TransferItem) {entries : List DownloadEntry}
      → gen_task is_dir is_file file_list items ≡ ok entries
      → Asks items entries (full_requests sqrt md4 simd is_dir is_file seed file_list items)
  gen_task-full_requests items e =
      Leaves-ok (λ es. Asks items es (requests items)) _ (gen_task-Leaves items) e
