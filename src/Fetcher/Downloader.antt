-- ===== src/Fetcher/Downloader.antt =====
-- rsync-fetcher/src/rsync/downloader.rs: the basis files that are fetched from the store for the
-- generator.
pub mod Once
use rsync_sjtug.Prelude.{
  ℕ, ◌%◌, Bool, true, false, Option, none, some, List, [], ◌∷◌, ◌++◌, Bytes, Result, ok, err, fault,
  ◌>>=◌, ◌>>◌, get_elem?, u32_mod, if◌then◌else◌,
}
use rsync_sjtug.Gc.{object_key}
use rsync_sjtug.Fetcher.FileList.{FileEntry}
use rsync_sjtug.Fetcher.Plan.{TransferItem}
use rsync_sjtug.Fetcher.Stats.{ignore_mode}

pub record DownloadEntry : Type 0 where
  pub idx : ℕ
  pub blake2b_hash : Bytes
  pub path : Bytes

pub data IoError : Type 0 where
  not_found other : IoError

module _ (is_dir is_file : ℕ → Bool) (file_list : List FileEntry) where
  abbrev pub entry_of : TransferItem → Bytes → FileEntry → DownloadEntry
  entry_of item blake2b_hash entry = record {
    idx = item.idx % u32_mod;
    blake2b_hash = blake2b_hash;
    path = entry.name;
  }

  -- An item with a hash, with what the index finds in the list, before the entries of the others.
  unfoldable pub with_entry :
      Option FileEntry
      → TransferItem
      → Bytes
      → Result IoError (List DownloadEntry)
      → Result IoError (List DownloadEntry)
  with_entry none item blake2b_hash rest = fault
  with_entry (some entry) item blake2b_hash rest =
      if ignore_mode is_dir is_file entry.mode
      then rest
      else rest >>= λ entries. ok (entry_of item blake2b_hash entry ∷ entries)

  unfoldable pub with_hash :
      Option Bytes
      → TransferItem
      → Result IoError (List DownloadEntry)
      → Result IoError (List DownloadEntry)
  with_hash none item rest = rest
  with_hash (some blake2b_hash) item rest =
      with_entry (get_elem? file_list item.idx) item blake2b_hash rest

  -- What `gen_task` sends to the download tasks, in order.
  unfoldable pub gen_task : List TransferItem → Result IoError (List DownloadEntry)
  gen_task [] = ok []
  gen_task (item ∷ items) = with_hash item.blake2b item (gen_task items)

-- A file that the store does not have is an empty basis.
abbrev pub copy_result : Result IoError Bytes → Result IoError Bytes
copy_result (ok contents) = ok contents
copy_result (err not_found) = ok []
copy_result (err other) = err other
copy_result fault = fault

-- A round of `download_task`: `reader` is the store.
unfoldable pub download_entry :
    (Bytes → Result IoError Bytes) → Bytes → DownloadEntry → Result IoError (ℕ × Bytes)
download_entry reader s3_prefix entry =
    copy_result (reader (object_key s3_prefix entry.blake2b_hash)) >>= λ basis_file.
    ok (entry.idx, basis_file)
