-- ===== src/Gateway/Keys.antt =====
-- The names of files in the store, as the programs make them from the prefix that each is
-- configured with: rsync-gateway/src/path_resolve.rs and opts.rs, rsync-core/src/utils.rs.
use rsync_sjtug.Prelude.{
  ℕ, ◌≡◌, refl, sym, ◌≢◌, Bool, true, false, ◌&&◌, ◌⊎◌, inl, inr, [], ◌∷◌, ◌++◌, Bytes, ◌==◌,
  if◌then◌else◌, append_assoc, arith,
}
use rsync_sjtug.Gc.{as_hex, object_key}

abbrev pub slash : ℕ
slash = 47

abbrev pub is_nil : Bytes → Bool
is_nil [] = true
is_nil (c ∷ cs) = false

unfoldable pub ends_with_slash : Bytes → Bool
ends_with_slash [] = false
ends_with_slash (c ∷ []) = c == slash
ends_with_slash (c ∷ d ∷ cs) = ends_with_slash (d ∷ cs)

-- `parse_ensure_end_slash`, on the prefix of rsync-fetcher and rsync-gc.
unfoldable pub parse_ensure_end_slash : Bytes → Bytes
parse_ensure_end_slash s = if ends_with_slash s then s else s ++ (slash ∷ [])

-- `de_trim_end_slash`, on the prefix of rsync-gateway: `trim_end_matches('/')`.
unfoldable pub de_trim_end_slash : Bytes → Bytes
de_trim_end_slash [] = []
de_trim_end_slash (c ∷ cs) =
    let rest = de_trim_end_slash cs in if (c == slash) && is_nil rest then [] else c ∷ rest

-- The path that rsync-gateway signs.
unfoldable pub s3_path : Bytes → Bytes → Bytes
s3_path s3_prefix blake2b =
    if is_nil s3_prefix then as_hex blake2b else s3_prefix ++ (slash ∷ as_hex blake2b)

trim_plain : (q : Bytes) → ends_with_slash q ≡ false → de_trim_end_slash q ≡ q
unfolding ends_with_slash de_trim_end_slash
trim_plain [] h = refl
trim_plain (c ∷ []) h = ground arith
trim_plain (c ∷ d ∷ cs) h = rw (trim_plain (d ∷ cs) h) (ground arith)

trim_slash : (q : Bytes) → ends_with_slash q ≡ false → de_trim_end_slash (q ++ (slash ∷ [])) ≡ q
unfolding ends_with_slash de_trim_end_slash
trim_slash [] h = refl
trim_slash (c ∷ []) h = ground arith
trim_slash (c ∷ d ∷ cs) h = rw (trim_slash (d ∷ cs) h) (ground arith)

ends-slash : (q : Bytes) → ends_with_slash (q ++ (slash ∷ [])) ≡ true
unfolding ends_with_slash
ends-slash [] = refl
ends-slash (c ∷ []) = refl
ends-slash (c ∷ d ∷ cs) = ends-slash (d ∷ cs)

-- A prefix is written with a slash at its end or without.
abbrev pub Writes : Bytes → Bytes → Type 0
Writes q p = (p ≡ q) ⊎ (p ≡ q ++ (slash ∷ []))

trim-Writes : (q p : Bytes) → ends_with_slash q ≡ false → Writes q p → de_trim_end_slash p ≡ q
trim-Writes q p h (inl e) = rw e (trim_plain q h)
trim-Writes q p h (inr e) = rw e (trim_slash q h)

ensure-Writes :
    (q p : Bytes)
    → ends_with_slash q ≡ false
    → Writes q p
    → parse_ensure_end_slash p ≡ q ++ (slash ∷ [])
unfolding parse_ensure_end_slash
ensure-Writes q p h (inl e) = rw (e, h) refl
ensure-Writes q p h (inr e) = rw (e, ends-slash q) refl

-- If the gateway and the fetcher (or the collector) are configured with one prefix that is not
-- empty, each with a slash at its end or without, then they name the file of a hash alike.
pub s3_path-object_key :
    (q gateway fetcher blake2b : Bytes)
    → q ≢ []
    → ends_with_slash q ≡ false
    → Writes q gateway
    → Writes q fetcher
    → s3_path (de_trim_end_slash gateway) blake2b
      ≡ object_key (parse_ensure_end_slash fetcher) blake2b
unfolding s3_path object_key
s3_path-object_key q gateway fetcher blake2b n h g f =
    rw (trim-Writes q gateway h g, ensure-Writes q fetcher h f) (go q n)
  where
    go :
        (p : Bytes)
        → p ≢ []
        → (if is_nil p then as_hex blake2b else p ++ (slash ∷ as_hex blake2b))
          ≡ (p ++ (slash ∷ [])) ++ as_hex blake2b
    go [] n' = absurd (n' refl)
    go (c ∷ cs) n' = sym (append_assoc (c ∷ cs) (slash ∷ []) (as_hex blake2b))
