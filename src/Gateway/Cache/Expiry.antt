-- ===== src/Gateway/Cache/Expiry.antt =====
-- rsync-gateway/src/cache.rs, `expire_after_create`: how long the address of a file is kept.
use rsync_sjtug.Prelude.{
  ℕ, ◌+◌, ◌/◌, ◌≤◌, ◌≡◌, refl, ap, none, some, Bytes, Result, ok, err, fault, ◌>>=◌, Bool, Leaves,
  Leaves-bind, Leaves-any, Leaves-ok, arith,
}
use rsync_sjtug.Database.Revisions.{Db}
use rsync_sjtug.Gateway.Realpath.{
  Target, regular_target, directory_target, RealpathError, resolve_error, out_of_rounds, realpath,
}
use rsync_sjtug.Gateway.Keys.{s3_path}
use rsync_sjtug.Gateway.Listing.{
  Resolved, directory_listing, regular_file, not_found, presign_timeout, list_directory,
  content_disposition, base_name, resolve,
}
use rsync_sjtug.Gateway.Cache.{
  CacheOps, IsFresh, IsCache, MaybeCompressed, uncompressed, expire_resolved, expire_compressed,
}

-- The lifetime of a file's address in both levels, when it is put there before its expiry.
expire_resolved-early :
    (url : Bytes) (expired_at at : ℕ)
    → at ≤ expired_at
    → expire_resolved at (regular_file url expired_at) ≡ some 0
unfolding expire_resolved
expire_resolved-early url expired_at at l = ap some (omega arith)

module _ (presign : Bytes → Bytes → Result RealpathError Bytes) (percent_encode : Bytes → Bytes)
    (now : ℕ) where
  abbrev ExpiresAt : Resolved → Type 0
  ExpiresAt (directory_listing entries) = Unit
  ExpiresAt (regular_file url expired_at) = expired_at ≡ now + presign_timeout / 2
  ExpiresAt (not_found reason) = Unit

  resolve-ExpiresAt :
      (path : Bytes) (revision : ℕ) (s3_prefix : Bytes) (list_hidden : Bool) (db : Db)
      → Leaves ExpiresAt (resolve presign percent_encode now path revision s3_prefix list_hidden db)
  unfolding resolve
  resolve-ExpiresAt path revision s3_prefix list_hidden db = go (realpath revision db path)
    where
      signed :
          (blake2b : Bytes)
          → Leaves ExpiresAt (
              presign
                (s3_path s3_prefix blake2b)
                (content_disposition (percent_encode (base_name path)))
              >>= λ url. ok (regular_file url (now + presign_timeout / 2)))
      signed blake2b =
          Leaves-bind (λ _. Unit {0}) ExpiresAt
            (presign (s3_path s3_prefix blake2b)
              (content_disposition (percent_encode (base_name path))))
            (λ url. ok (regular_file url (now + presign_timeout / 2))) (Leaves-any _) λ url u. refl

      go :
          (result : Result RealpathError Target)
          → Leaves ExpiresAt (elim result [
            | ok target ↦ elim target [
              | directory_target found ↦
                  ok (directory_listing (list_directory found revision list_hidden db))
              | regular_target blake2b ↦
                  (presign
                      (s3_path s3_prefix blake2b)
                      (content_disposition (percent_encode (base_name path)))
                    >>= λ url. ok (regular_file url (now + presign_timeout / 2)))
            ]
            | err e ↦ elim e [
              | resolve_error reason ↦ ok (not_found reason)
              | out_of_rounds ↦ err out_of_rounds
            ]
            | fault ↦ fault
          ])
      go (ok (directory_target found)) = tt
      go (ok (regular_target blake2b)) = signed blake2b
      go (err (resolve_error reason)) = tt
      go (err out_of_rounds) = tt
      go fault = tt

  -- If the address of a file, as `resolve` makes it, is put into the two levels, into which no
  -- entry of its path was put before, within half the time that it is signed for, then neither level returns it at that time or later: its lifetime is
  -- zero.
  pub resolve-get :
      {L1 L2 : Type 0} (first : CacheOps L1 Resolved) (second : CacheOps L2 MaybeCompressed)
      (path : Bytes) (revision : ℕ) (s3_prefix : Bytes) (list_hidden : Bool) (db : Db)
      (at later : ℕ) (c1 : L1) (c2 : L2) {url : Bytes} {expired_at : ℕ}
      → IsCache first expire_resolved
      → IsCache second expire_compressed
      → IsFresh first path c1
      → IsFresh second path c2
      → resolve presign percent_encode now path revision s3_prefix list_hidden db
        ≡ ok (regular_file url expired_at)
      → at ≤ now + presign_timeout / 2
      → at ≤ later
      → (first.get later path (first.insert at path (regular_file url expired_at) c1) ≡ none)
        × (second.get later path
              (second.insert at path (uncompressed (regular_file url expired_at)) c2)
            ≡ none)
  unfolding expire_compressed
  resolve-get first second path revision s3_prefix list_hidden db at later c1 c2 {url} {expired_at}
        law1 law2 fresh1 fresh2 e soon l =
      let expires =
        Leaves-ok ExpiresAt _ (resolve-ExpiresAt path revision s3_prefix list_hidden db) e in
      let early = expire_resolved-early url expired_at at (omega (arith, expires)) in
      (
        law1.get-expired at later 0 path (regular_file url expired_at) c1 fresh1 early
            (omega arith),
        law2.get-expired at later 0 path (uncompressed (regular_file url expired_at)) c2 fresh2
            early (omega arith),
      )
