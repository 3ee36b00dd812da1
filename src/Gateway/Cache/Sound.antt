-- ===== src/Gateway/Cache/Sound.antt =====
-- rsync-gateway/src/cache.rs: what the cache answers is what a loader gave since it was invalidated.
use rsync_sjtug.Prelude.{
  ℕ, ◌+◌, ◌*◌, ◌/◌, ◌≡◌, refl, sym, ap, Bool, true, false, ◌||◌, Bool-cases, inl, inr, Option, none,
  some, List, [], ◌∷◌, ◌++◌, All, All-append, Bytes, Result, ok, err, fault, Leaves, length, ltb,
  if◌then◌else◌,
}
use mathlib.Core.Path.{subst}
use rsync_sjtug.Gateway.Listing.{Resolved}
use rsync_sjtug.Gateway.Cache.{
  CacheOps, IsCache, MaybeCompressed, compressed, uncompressed, Codec, IsCodec, CacheError,
  is_regular_file, expire_resolved, expire_compressed, keep_smaller, compress_bytes, compress_from,
  decompress, Inner, Event, request, task, invalidated, l1_invalidated, elapsed, new_inner, put_l2,
  spawn, loaded, insert_loaded, get_or_insert, run_task, serve,
}

some_injective : (a b : MaybeCompressed) → some a ≡ some b → a ≡ b
some_injective a b e = cc

compress_bytes-decompress :
    (codec : Codec)
    → IsCodec codec
    → (r : Resolved) (bytes : Option Bytes) (m : MaybeCompressed) → codec.to_bytes r ≡ bytes
    → compress_bytes codec r bytes ≡ some m
    → decompress codec m ≡ ok r
unfolding decompress
compress_bytes-decompress codec law r none m e f = cc
compress_bytes-decompress codec law r (some bytes) m e f = go (codec.compress bytes) refl f
  where
    chosen :
        (b : Bool) (contents : Bytes)
        → codec.compress bytes ≡ some contents
        → some (if b then uncompressed r else compressed contents (length bytes)) ≡ some m
        → decompress codec m ≡ ok r
    chosen true contents g h =
        subst (λ q. decompress codec q ≡ ok r) (some_injective (uncompressed r) m h) refl
    chosen false contents g h =
        subst (λ q. decompress codec q ≡ ok r)
          (some_injective (compressed contents (length bytes)) m h)
          (rw (decompress, law.decompress-compress bytes contents g)
            (ap ok (law.from_bytes-to_bytes r bytes e)))

    go :
        (found : Option Bytes)
        → codec.compress bytes ≡ found
        → (elim found [ none ↦ none | some contents ↦ some (keep_smaller r bytes contents) ])
          ≡ some m
        → decompress codec m ≡ ok r
    go none g h = cc
    go (some contents) g h = chosen (ltb ((length bytes * 3) / 4) (length contents)) contents g h

-- If the serializer and the compression give back what they were given, then whatever
-- `compress_from` makes of a value decompresses to the value.
pub decompress-compress_from :
    (codec : Codec)
    → IsCodec codec
    → (r : Resolved) (m : MaybeCompressed) → compress_from codec r ≡ some m
    → decompress codec m ≡ ok r
unfolding compress_from decompress
decompress-compress_from codec law r m e = go (is_regular_file r || ltb (codec.heap_size r) 2048) e
  where
    go :
        (b : Bool)
        → (if b then some (uncompressed r) else compress_bytes codec r (codec.to_bytes r)) ≡ some m
        → decompress codec m ≡ ok r
    go true h = subst (λ q. decompress codec q ≡ ok r) (some_injective (uncompressed r) m h) refl
    go false h = compress_bytes-decompress codec law r (codec.to_bytes r) m refl h

-- The results of the requests satisfy `P`, errors aside.
abbrev pub Answers :
    (Bytes → Resolved → Type 0) → List (Bytes × Result CacheError Resolved) → Type 0
Answers P answers = All (λ (a : Bytes × Result CacheError Resolved). Leaves (P a.0) a.1) answers

-- The loaders of the requests do.
abbrev pub Loads : (Bytes → Resolved → Type 0) → List Event → Type 0
Loads P [] = Unit
Loads P (request key init ∷ events) = Leaves (P key) init × Loads P events
Loads P (task ∷ events) = Loads P events
Loads P (invalidated ∷ events) = Loads P events
Loads P (l1_invalidated ∷ events) = Loads P events
Loads P (elapsed n ∷ events) = Loads P events

module _ {L1 L2 : Type 0} (first : CacheOps L1 Resolved) (second : CacheOps L2 MaybeCompressed)
    (codec : Codec) (sync_l2 : Bool) (first_law : IsCache first expire_resolved)
    (second_law : IsCache second expire_compressed) (codec_law : IsCodec codec)
    (P : Bytes → Resolved → Type 0) where
  abbrev HoldsL1 : L1 → Type 0
  HoldsL1 c = (now : ℕ) (key : Bytes) (r : Resolved) → first.get now key c ≡ some r → P key r

  abbrev HoldsL2 : L2 → Type 0
  HoldsL2 c =
      (now : ℕ) (key : Bytes) (m : MaybeCompressed)
      → second.get now key c ≡ some m
      → Leaves (P key) (decompress codec m)

  record Holds (inner : Inner L1 L2) : Type 0 where
    l1 : HoldsL1 inner.l1
    l2 : HoldsL2 inner.l2
    spawned : All (λ (p : Bytes × Resolved). P p.0 p.1) inner.spawned

  new_inner-Holds : Holds (new_inner first second codec sync_l2)
  unfolding new_inner
  new_inner-Holds = record {
    l1 = λ now key r e. absurd (not_some (first_law.get-empty now key) e);
    l2 = λ now key m e. absurd (not_some (second_law.get-empty now key) e);
    spawned = tt;
  }
    where
      not_some : {A : Type 0} {q : Option A} {a : A} → q ≡ none → q ≡ some a → ⊥
      not_some e f = cc

  insert-HoldsL1 :
      (now : ℕ) (key : Bytes) (r : Resolved) (c : L1)
      → P key r
      → HoldsL1 c
      → HoldsL1 (first.insert now key r c)
  insert-HoldsL1 now key r c p h now' key' w e =
      elim (first_law.get-insert now' key' now key r w c e) [
        | inl (k, v) ↦ subst (λ x. P x w) (sym k) (subst (P key) (sym v) p)
        | inr old ↦ h now' key' w old
      ]

  insert-HoldsL2 :
      (now : ℕ) (key : Bytes) (m : MaybeCompressed) (c : L2)
      → Leaves (P key) (decompress codec m)
      → HoldsL2 c
      → HoldsL2 (second.insert now key m c)
  insert-HoldsL2 now key m c p h now' key' w e =
      elim (second_law.get-insert now' key' now key m w c e) [
        | inl (k, v) ↦
            subst (λ x. Leaves (P x) (decompress codec w)) (sym k)
              (subst (λ x. Leaves (P key) (decompress codec x)) (sym v) p)
        | inr old ↦ h now' key' w old
      ]

  put_l2-HoldsL2 :
      (now : ℕ) (key : Bytes) (r : Resolved) (c : L2)
      → P key r
      → HoldsL2 c
      → HoldsL2 (put_l2 first second codec sync_l2 now key r c)
  unfolding put_l2
  put_l2-HoldsL2 now key r c p h = go (second.get now key c)
    where
      made :
          (q : Option MaybeCompressed)
          → compress_from codec r ≡ q
          → HoldsL2 (elim q [ none ↦ c | some m ↦ second.insert now key m c ])
      made none e = h
      made (some m) e =
          insert-HoldsL2 now key m c
            (subst (Leaves (P key)) (sym (decompress-compress_from codec codec_law r m e)) p) h

      go :
          (there : Option MaybeCompressed)
          → HoldsL2 (elim there [
            | some m ↦ c
            | none ↦ elim (compress_from codec r) [ none ↦ c | some m ↦ second.insert now key m c ]
          ])
      go (some m) = h
      go none = made (compress_from codec r) refl

  spawn-Holds :
      (now : ℕ) (key : Bytes) (r : Resolved) (inner : Inner L1 L2)
      → P key r
      → Holds inner
      → Holds (spawn first second codec sync_l2 now key r inner)
  unfolding spawn
  spawn-Holds now key r inner p h = elim (Bool-cases sync_l2) [
    | inl e ↦
        subst (λ b. Holds (if b then now_put else later)) (sym e)
          (record { l1 = h.l1; l2 = put_l2-HoldsL2 now key r inner.l2 p h.l2; spawned = h.spawned })
    | inr e ↦
        subst (λ b. Holds (if b then now_put else later)) (sym e)
          (record {
            l1 = h.l1;
            l2 = h.l2;
            spawned = All-append _ inner.spawned _ h.spawned (p, tt);
          })
  ]
    where
      now_put : Inner L1 L2
      now_put = record inner { l2 = put_l2 first second codec sync_l2 now key r inner.l2 }

      later : Inner L1 L2
      later = record inner { spawned = inner.spawned ++ ((key, r) ∷ []) }

  abbrev Answered : Bytes → Result CacheError Resolved × Inner L1 L2 → Type 0
  Answered key (result, inner) = Leaves (P key) result × Holds inner

  insert_loaded-Answered :
      (now : ℕ) (key : Bytes) (result : Result CacheError Resolved) (inner : Inner L1 L2)
      → Leaves (P key) result
      → Holds inner
      → Answered key (insert_loaded first second codec sync_l2 now key result inner)
  unfolding insert_loaded
  insert_loaded-Answered now key (ok r) inner p h = (
    p,
    spawn-Holds now key r _ p
        (record { l1 = insert-HoldsL1 now key r inner.l1 p h.l1; l2 = h.l2; spawned = h.spawned }),
  )
  insert_loaded-Answered now key (err e) inner p h = (tt, h)
  insert_loaded-Answered now key fault inner p h = (tt, h)

  get_or_insert-Answered :
      (now : ℕ) (key : Bytes) (init : Result CacheError Resolved) (inner : Inner L1 L2)
      → Leaves (P key) init
      → Holds inner
      → Answered key (get_or_insert first second codec sync_l2 now key init inner)
  unfolding get_or_insert loaded
  get_or_insert-Answered now key init inner p h = go (first.get now key inner.l1) refl
    where
      from_l2 :
          (q : Option MaybeCompressed)
          → second.get now key inner.l2 ≡ q
          → Leaves (P key) (loaded first second codec sync_l2 init q)
      from_l2 none e = p
      from_l2 (some m) e = h.l2 now key m e

      go :
          (q : Option Resolved)
          → first.get now key inner.l1 ≡ q
          → Answered key (elim q [
            | some r ↦ (ok r, inner)
            | none ↦
                insert_loaded first second codec sync_l2 now key
                  (loaded first second codec sync_l2 init (second.get now key inner.l2))
                  inner
          ])
      go (some r) e = (h.l1 now key r e, h)
      go none e =
          insert_loaded-Answered now key _ inner (from_l2 (second.get now key inner.l2) refl) h

  run_task-Holds :
      (now : ℕ) (ts : List (Bytes × Resolved)) (inner : Inner L1 L2)
      → All (λ (p : Bytes × Resolved). P p.0 p.1) ts
      → Holds inner
      → Holds (run_task first second codec sync_l2 now ts inner)
  unfolding run_task
  run_task-Holds now [] inner q h = h
  run_task-Holds now ((key, r) ∷ rest) inner q h = record {
    l1 = h.l1;
    l2 = put_l2-HoldsL2 now key r inner.l2 q.0 h.l2;
    spawned = q.1;
  }

  serve-Holds :
      (now : ℕ) (events : List Event) (inner : Inner L1 L2)
      → Loads P events
      → Holds inner
      → Answers P (serve first second codec sync_l2 now events inner)
  unfolding serve
  serve-Holds now [] inner l h = tt
  serve-Holds now (request key init ∷ events) inner l h =
      let (answer, h') = get_or_insert-Answered now key init inner l.0 h in
      (answer, serve-Holds now events _ l.1 h')
  serve-Holds now (task ∷ events) inner l h =
      serve-Holds now events _ l (run_task-Holds now inner.spawned inner h.spawned h)
  serve-Holds now (invalidated ∷ events) inner l h = serve-Holds now events _ l new_inner-Holds
  serve-Holds now (l1_invalidated ∷ events) inner l h = serve-Holds now events _ l (record {
    l1 = λ at key r e. absurd (not_some (first_law.get-invalidate_all at key inner.l1) e);
    l2 = h.l2;
    spawned = h.spawned;
  })
    where
      not_some : {A : Type 0} {q : Option A} {a : A} → q ≡ none → q ≡ some a → ⊥
      not_some e f = cc
  serve-Holds now (elapsed n ∷ events) inner l h = serve-Holds (now + n) events inner l h

  -- From any state of the cache: if it is invalidated, and what the loaders give from then on
  -- satisfies a property of the path, then so does every answer from then on, whichever level it
  -- comes from, whenever the spawned tasks run and whatever the caches lose. The caches are taken to
  -- do what their documentation says, and the serializer and the compression to give back what they
  -- were given.
  pub serve-Answers :
      (now : ℕ) (events : List Event) (inner : Inner L1 L2)
      → Loads P events
      → Answers P (serve first second codec sync_l2 now (invalidated ∷ events) inner)
  unfolding serve
  serve-Answers now events inner l = serve-Holds now events _ l new_inner-Holds
