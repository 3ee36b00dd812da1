-- ===== src/Gateway/Cache.antt =====
-- rsync-gateway/src/cache.rs: the two-level cache of what a path shows. The caches themselves, the
-- serializer and the compression are other crates'. Times are in seconds.
pub mod Sound
pub mod Expiry
use rsync_sjtug.Prelude.{
  ℕ, ◌+◌, ◌-◌, ◌*◌, ◌/◌, ◌≤◌, ◌≡◌, ◌≢◌, Bool, true, false, ◌||◌, ◌⊎◌, Option, none, some, List, [],
  ◌∷◌, ◌++◌, Bytes, Result, ok, err, fault, length, ltb, if◌then◌else◌,
}
use rsync_sjtug.Gateway.Listing.{Resolved, directory_listing, regular_file, not_found}

-- What is used of a `moka` cache: it may lose an entry at any insertion.
pub record CacheOps (C V : Type 0) : Type 0 where
  pub empty : C
  pub get : ℕ → Bytes → C → Option V
  pub insert : ℕ → Bytes → V → C → C
  pub invalidate_all : C → C

-- A cache into which no entry of the key was put.
pub data IsFresh {C V : Type 0} (cache : CacheOps C V) (key : Bytes) : C → Type 0 where
  fresh_empty : IsFresh cache key cache.empty
  fresh_insert :
      (at : ℕ) (key' : Bytes) (v : V) (c : C)
      → key' ≢ key
      → IsFresh cache key c
      → IsFresh cache key (cache.insert at key' v c)

-- Its documentation, with the policy that gives an entry its lifetime when it is created.
pub record IsCache {C V : Type 0} (cache : CacheOps C V) (expire_after_create : ℕ → V → Option ℕ)
    : Type 0 where
  pub get-empty : (now : ℕ) (key : Bytes) → cache.get now key cache.empty ≡ none
  pub get-insert :
      (now : ℕ) (key : Bytes) (at : ℕ) (key' : Bytes) (v w : V) (c : C)
      → cache.get now key (cache.insert at key' v c) ≡ some w
      → ((key ≡ key') × (w ≡ v)) ⊎ (cache.get now key c ≡ some w)
  pub get-expired :
      (at now d : ℕ) (key : Bytes) (v : V) (c : C)
      → IsFresh cache key c
      → expire_after_create at v ≡ some d
      → at + d ≤ now
      → cache.get now key (cache.insert at key v c) ≡ none
  pub get-invalidate_all :
      (now : ℕ) (key : Bytes) (c : C) → cache.get now key (cache.invalidate_all c) ≡ none

pub data MaybeCompressed : Type 0 where
  compressed : (contents : Bytes) (len : ℕ) → MaybeCompressed
  uncompressed : Resolved → MaybeCompressed

-- rkyv, zstd and the estimate of a value's heap size; `none` is a panic.
pub record Codec : Type 0 where
  pub to_bytes : Resolved → Option Bytes
  pub from_bytes : Bytes → Resolved
  pub compress : Bytes → Option Bytes
  pub decompress : Bytes → ℕ → Option Bytes
  pub heap_size : Resolved → ℕ

pub record IsCodec (c : Codec) : Type 0 where
  pub from_bytes-to_bytes :
      (r : Resolved) (bytes : Bytes) → c.to_bytes r ≡ some bytes → c.from_bytes bytes ≡ r
  pub decompress-compress :
      (bytes contents : Bytes)
      → c.compress bytes ≡ some contents
      → c.decompress contents (length bytes) ≡ some bytes

pub data CacheError : Type 0 where
  load_failed decompress_failed : CacheError

abbrev pub is_regular_file : Resolved → Bool
is_regular_file (directory_listing entries) = false
is_regular_file (regular_file url expired_at) = true
is_regular_file (not_found reason) = false

-- `ExpiryPolicy` on a resolved path: `current_time - *expired_at`, which stops at zero.
unfoldable pub expire_resolved : ℕ → Resolved → Option ℕ
expire_resolved current_time (directory_listing entries) = none
expire_resolved current_time (regular_file url expired_at) = some (current_time - expired_at)
expire_resolved current_time (not_found reason) = none

-- `ExpiryPolicy` on what the second level holds.
unfoldable pub expire_compressed : ℕ → MaybeCompressed → Option ℕ
expire_compressed current_time (compressed contents len) = none
expire_compressed current_time (uncompressed resolved) = expire_resolved current_time resolved

-- The choice after the compression.
abbrev pub keep_smaller : Resolved → Bytes → Bytes → MaybeCompressed
keep_smaller resolved bytes contents =
    if ltb ((length bytes * 3) / 4) (length contents)
    then uncompressed resolved
    else compressed contents (length bytes)

abbrev pub compress_bytes : Codec → Resolved → Option Bytes → Option MaybeCompressed
compress_bytes codec resolved none = none
compress_bytes codec resolved (some bytes) = elim (codec.compress bytes) [
  | none ↦ none
  | some contents ↦ some (keep_smaller resolved bytes contents)
]

unfoldable pub compress_from : Codec → Resolved → Option MaybeCompressed
compress_from codec resolved =
    if is_regular_file resolved || ltb (codec.heap_size resolved) 2048
    then some (uncompressed resolved)
    else compress_bytes codec resolved (codec.to_bytes resolved)

-- `decompress` in a blocking task, whose panic is an error.
unfoldable pub decompress : Codec → MaybeCompressed → Result CacheError Resolved
decompress codec (compressed contents len) = elim (codec.decompress contents len) [
  | none ↦ err decompress_failed
  | some bytes ↦ ok (codec.from_bytes bytes)
]
decompress codec (uncompressed resolved) = ok resolved

-- `NSCacheInner`, with the values that spawned tasks are still to put into its second level.
pub record Inner (L1 L2 : Type 0) : Type 0 where
  pub l1 : L1
  pub l2 : L2
  pub spawned : List (Bytes × Resolved)

-- What happens to the cache: a request with what its loader gives, a spawned task that runs, an
-- invalidation, the debugging one of the first level, and time that passes.
pub data Event : Type 0 where
  request : Bytes → Result CacheError Resolved → Event
  task : Event
  invalidated l1_invalidated : Event
  elapsed : ℕ → Event

-- `sync_l2` waits for the spawned task.
module _ {L1 L2 : Type 0} (first : CacheOps L1 Resolved) (second : CacheOps L2 MaybeCompressed)
    (codec : Codec) (sync_l2 : Bool) where
  unfoldable pub new_inner : Inner L1 L2
  new_inner = record { l1 = first.empty; l2 = second.empty; spawned = [] }

  -- `try_get_with` on the second level.
  unfoldable pub put_l2 : ℕ → Bytes → Resolved → L2 → L2
  put_l2 now key resolved l2 = elim (second.get now key l2) [
    | some there ↦ l2
    | none ↦ elim (compress_from codec resolved) [
      | none ↦ l2
      | some maybe_compressed ↦ second.insert now key maybe_compressed l2
    ]
  ]

  -- The spawned task, now or later.
  unfoldable pub spawn : ℕ → Bytes → Resolved → Inner L1 L2 → Inner L1 L2
  spawn now key resolved inner =
      if sync_l2
      then record inner { l2 = put_l2 now key resolved inner.l2 }
      else record inner { spawned = inner.spawned ++ ((key, resolved) ∷ []) }

  -- The loader, or what the second level has.
  unfoldable pub loaded :
      Result CacheError Resolved → Option MaybeCompressed → Result CacheError Resolved
  loaded init none = init
  loaded init (some maybe_compressed) = decompress codec maybe_compressed

  -- `try_get_with_by_ref` on the first level, which had no entry, and the task that follows.
  unfoldable pub insert_loaded :
      ℕ
      → Bytes
      → Result CacheError Resolved
      → Inner L1 L2
      → Result CacheError Resolved × Inner L1 L2
  insert_loaded now key (ok resolved) inner = (
    ok resolved,
    spawn now key resolved (record inner { l1 = first.insert now key resolved inner.l1 }),
  )
  insert_loaded now key (err e) inner = (err e, inner)
  insert_loaded now key fault inner = (fault, inner)

  unfoldable pub get_or_insert :
      ℕ
      → Bytes
      → Result CacheError Resolved
      → Inner L1 L2
      → Result CacheError Resolved × Inner L1 L2
  get_or_insert now key init inner = elim (first.get now key inner.l1) [
    | some resolved ↦ (ok resolved, inner)
    | none ↦ insert_loaded now key (loaded init (second.get now key inner.l2)) inner
  ]

  unfoldable pub run_task : ℕ → List (Bytes × Resolved) → Inner L1 L2 → Inner L1 L2
  run_task now [] inner = inner
  run_task now ((key, resolved) ∷ rest) inner = record inner {
    l2 = put_l2 now key resolved inner.l2;
    spawned = rest;
  }

  -- The results of the requests, in order. After `invalidate` the tasks still spawned put their
  -- values into the cache that is gone.
  unfoldable pub serve : ℕ → List Event → Inner L1 L2 → List (Bytes × Result CacheError Resolved)
  serve now [] inner = []
  serve now (request key init ∷ events) inner =
      let (result, inner') = get_or_insert now key init inner in
      (key, result) ∷ serve now events inner'
  serve now (task ∷ events) inner = serve now events (run_task now inner.spawned inner)
  serve now (invalidated ∷ events) inner = serve now events new_inner
  serve now (l1_invalidated ∷ events) inner =
      serve now events (record inner { l1 = first.invalidate_all inner.l1 })
  serve now (elapsed n ∷ events) inner = serve (now + n) events inner
