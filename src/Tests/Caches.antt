-- ===== src/Tests/Caches.antt =====
-- A cache of one entry, and what rsync-gateway/src/cache.rs does with it.
use rsync_sjtug.Prelude.{
  ℕ, ◌+◌, ◌≤◌, ◌≡◌, refl, sym, ap, Bool, true, false, ◌&&◌, inl, Option, none, some, List, [], ◌∷◌,
  Bytes, bytes_eq, bytes_eq→eq, Result, ok, err, ltb, if◌then◌else◌, arith,
}
use rsync_sjtug.Database.Revisions.{regular, Db}
use rsync_sjtug.Gateway.Entries.{find_object, entry_from, entry_of_path}
use rsync_sjtug.Gateway.Realpath.{
  split_slash, body_components, components, path_bytes, on_entry, on_parent, round, walk,
  longest_target, rounds_for, resolve_components, realpath, RealpathError,
}
use rsync_sjtug.Gateway.Keys.{s3_path}
use rsync_sjtug.Gateway.Listing.{
  Resolved, directory_listing, regular_file, not_found, base_name, content_disposition, resolve,
}
use rsync_sjtug.Gateway.Cache.{
  CacheOps, fresh_empty, IsCache, MaybeCompressed, compressed, uncompressed, Codec, IsCodec,
  load_failed, expire_resolved, expire_compressed, compress_from, decompress, Inner, Event, request,
  task, invalidated, elapsed, new_inner, put_l2, spawn, loaded, insert_loaded, get_or_insert,
  run_task, serve,
}
use rsync_sjtug.Gateway.Cache.Sound.{Answers, decompress-compress_from, serve-Answers}
use rsync_sjtug.Gateway.Cache.Expiry.{resolve-get}

-- A key, a value and the time at which it expires.
abbrev OneEntry : Type 0 → Type 0
OneEntry V = Option (Bytes × V × Option ℕ)

abbrev is_alive : ℕ → Option ℕ → Bool
is_alive now none = true
is_alive now (some end_at) = ltb now end_at

abbrev deadline : ℕ → Option ℕ → Option ℕ
deadline now none = none
deadline now (some d) = some (now + d)

module _ {V : Type 0} (expire : ℕ → V → Option ℕ) where
  abbrev get_one : ℕ → Bytes → OneEntry V → Option V
  get_one now key none = none
  get_one now key (some (k, v, end_at)) =
      if bytes_eq k key && is_alive now end_at then some v else none

  abbrev one_entry : CacheOps (OneEntry V) V
  one_entry = record {
    empty = none;
    get = get_one;
    insert = λ now key v c. some (key, v, deadline now (expire now v));
    invalidate_all = λ c. none;
  }

  get_one-key :
      (b a : Bool) (key key' : Bytes) (v w : V)
      → (b ≡ true → key' ≡ key)
      → (if b && a then some v else none) ≡ some w
      → (key ≡ key') × (w ≡ v)
  get_one-key true true key key' v w f e = (sym (f refl), same e)
    where
      same : some v ≡ some w → w ≡ v
      same h = cc
  get_one-key true false key key' v w f e = absurd (cc)
  get_one-key false a key key' v w f e = absurd (cc)

  get_one-expired :
      (b : Bool) (at now d : ℕ) (v : V) (q : Option ℕ)
      → q ≡ some d
      → at + d ≤ now
      → (if b && is_alive now (deadline at q) then some v else none) ≡ none
  get_one-expired b at now d v none e l = cc
  get_one-expired true at now d v (some k) e l = ground (arith, number k d e)
    where
      number : (a c : ℕ) → some a ≡ some c → a ≡ c
      number a c h = cc
  get_one-expired false at now d v (some k) e l = refl

  one_entry-IsCache : IsCache one_entry expire
  one_entry-IsCache = record {
    get-empty = λ now key. refl;
    get-insert = λ now key at key' v w c e.
        inl (get_one-key (bytes_eq key' key) _ key key' v w (bytes_eq→eq key' key) e);
    get-expired = λ at now d key v c fresh e l.
        get_one-expired (bytes_eq key key) at now d v (expire at v) e l;
    get-invalidate_all = λ now key c. refl;
  }

-- A serializer that is written for one value only, and no compression.
abbrev empty_listing : Resolved
empty_listing = directory_listing []

abbrev one_value : Resolved → Option Bytes
one_value (directory_listing []) = some []
one_value _ = none

abbrev plain : Codec
plain = record {
  to_bytes = one_value;
  from_bytes = λ b. empty_listing;
  compress = λ b. some b;
  decompress = λ b n. some b;
  heap_size = λ r. 4096;
}

one_value-lem : (r : Resolved) (bytes : Bytes) → one_value r ≡ some bytes → empty_listing ≡ r
one_value-lem (directory_listing []) bytes e = refl
one_value-lem (directory_listing (x ∷ xs)) bytes e = absurd (cc)
one_value-lem (regular_file url t) bytes e = absurd (cc)
one_value-lem (not_found reason) bytes e = absurd (cc)

plain-IsCodec : IsCodec plain
plain-IsCodec = record {
  from_bytes-to_bytes = one_value-lem;
  decompress-compress = λ bytes contents e. ap some (same bytes contents e);
}
  where
    same : (a b : Bytes) → some a ≡ some b → b ≡ a
    same a b e = cc

program : Unit {0}
unfolding bytes_eq compress_from decompress expire_resolved expire_compressed new_inner put_l2 spawn
    loaded insert_loaded get_or_insert run_task serve find_object entry_from entry_of_path
    split_slash body_components components path_bytes on_entry on_parent round walk longest_target
    rounds_for resolve_components realpath s3_path base_name content_disposition resolve
program = tt

small : compress_from plain empty_listing ≡ some (compressed [] 0)
unfolding program
small = refl

decompress-compress_from_example : decompress plain (compressed [] 0) ≡ ok empty_listing
decompress-compress_from_example =
    decompress-compress_from plain plain-IsCodec empty_listing (compressed [] 0) small

abbrev path_a : Bytes
path_a = 97 ∷ []

-- The second request comes when the first level has lost nothing, the third after it has.
abbrev requests : List Event
requests =
    request path_a (ok empty_listing)
    ∷ request path_a (err load_failed)
    ∷ task
    ∷ elapsed 10
    ∷ request path_a (err load_failed)
    ∷ []

abbrev old_cache : Inner (OneEntry Resolved) (OneEntry MaybeCompressed)
old_cache = record { l1 = some (path_a, regular_file [] 0, none); l2 = none; spawned = [] }

answered :
    serve
      (one_entry expire_resolved)
      (one_entry expire_compressed)
      plain
      false
      0
      (invalidated ∷ requests)
      old_cache
    ≡ (path_a, ok empty_listing) ∷ (path_a, ok empty_listing) ∷ (path_a, ok empty_listing) ∷ []
unfolding program
answered = refl

abbrev IsEmptyListing : Bytes → Resolved → Type 0
IsEmptyListing key r = r ≡ empty_listing

serve-Answers_example : Answers IsEmptyListing (
    serve
      (one_entry expire_resolved)
      (one_entry expire_compressed)
      plain
      false
      0
      (invalidated ∷ requests)
      old_cache)
serve-Answers_example =
    serve-Answers (one_entry expire_resolved) (one_entry expire_compressed) plain false
      (one_entry-IsCache expire_resolved) (one_entry-IsCache expire_compressed) plain-IsCodec
      IsEmptyListing 0 requests old_cache (refl, (tt, (tt, tt)))

abbrev one_file : Db
one_file = record {
  repositories = [];
  revisions = [];
  next_revision = 2;
  objects =
      record {
        id = 0;
        revision = 1;
        filename = path_a;
        parent = none;
        len = 0;
        modify_time = 0;
        type = regular;
        blake2b =
            some (
              1 ∷ 2 ∷ 3 ∷ 4 ∷ 5 ∷ 6 ∷ 7 ∷ 8 ∷ 9 ∷ 10 ∷ 1 ∷ 2 ∷ 3 ∷ 4 ∷ 5 ∷ 6 ∷ 7 ∷ 8 ∷ 9 ∷ 10 ∷ []);
        target = none;
      }
      ∷ [];
  next_object = 1;
}

abbrev sign : Bytes → Bytes → Result RealpathError Bytes
sign key name = ok (7 ∷ [])

file_resolved :
    resolve sign (λ b. b) 100 path_a 1 [] false one_file ≡ ok (regular_file (7 ∷ []) 43300)
unfolding program
file_resolved = refl

resolve-get_example :
    ((one_entry expire_resolved).get 101 path_a
        ((one_entry expire_resolved).insert 101 path_a (regular_file (7 ∷ []) 43300) none)
      ≡ none)
    × ((one_entry expire_compressed).get 101 path_a (
          (one_entry expire_compressed).insert 101 path_a
            (uncompressed (regular_file (7 ∷ []) 43300))
            none)
        ≡ none)
resolve-get_example =
    resolve-get sign (λ b. b) 100 (one_entry expire_resolved) (one_entry expire_compressed) path_a 1
      [] false one_file 101 101 none none (one_entry-IsCache expire_resolved)
      (one_entry-IsCache expire_compressed) fresh_empty fresh_empty file_resolved (omega arith)
      (omega arith)
