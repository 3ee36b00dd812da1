-- ===== src/Fetcher/Checksum/Payload.antt =====
-- Hashing several blocks at once gives the sums that hashing them one by one gives.
use rsync_sjtug.Prelude.{
  ℕ, zero, suc, ◌+◌, ◌-◌, ◌*◌, ◌≤◌, ◌<◌, ◌≡◌, refl, sym, ap, ◌∙◌, true, false, not, ◌&&◌, none,
  some, List, [], ◌∷◌, ◌++◌, map, Bytes, Result, ok, fault, ◌>>=◌, >>=_assoc, >>=_congr, >>=-eq-ok,
  All, length, length-append, take, drop, take-append, min, ltb, leb, to_le_bytes,
  length-to_le_bytes, u32_mod, arith, lt→ltb, ltb→le, Bool-cases, inl, inr, length-take,
}
use rsync_sjtug.Fetcher.Stream.{Error}
use rsync_sjtug.Fetcher.Checksum.{
  SumHead, Simd, Progress, read_file, read_lanes, extend_lanes, checksum_1, combine,
  checksum_1_loop, checksum_2, payload_blocks, simd_loop, checksum_payload,
}

-- The function hashes each of as many equally long messages as there are lanes.
pub record Hashes (md4 : Bytes → Bytes) (simd : Simd) : Type 0 where
  pub positive : 0 < simd.lanes
  pub each :
      (n : ℕ) (datas : List Bytes)
      → length datas ≡ simd.lanes
      → All (λ d. length d ≡ n) datas
      → simd.md4 datas ≡ map md4 datas

checksum_1-ok :
    (buf : Bytes)
    → length buf < u32_mod
    → checksum_1 buf ≡ ok (combine (checksum_1_loop (length buf) 0 0 0 buf))
unfolding checksum_1
checksum_1-ok buf h = rw (lt→ltb _ _ h)

cut_seed :
    (buf : Bytes) (seed : ℕ)
    → take (length (buf ++ to_le_bytes 4 seed) - 4) (buf ++ to_le_bytes 4 seed) ≡ buf
cut_seed buf seed =
    let e : length (buf ++ to_le_bytes 4 seed) - 4 ≡ length buf =
      omega (arith, length-append buf (to_le_bytes 4 seed), length-to_le_bytes 4 seed) in
    ap (λ k. take k (buf ++ to_le_bytes 4 seed)) e ∙ take-append buf (to_le_bytes 4 seed)

read_file-ok :
    (n : ℕ) (file : Bytes)
    → ltb (length file) n ≡ false
    → read_file n file ≡ ok (take n file, drop n file)
unfolding read_file
read_file-ok n file e = rw e

read_file-fault : (n : ℕ) (file : Bytes) → ltb (length file) n ≡ true → read_file n file ≡ fault
unfolding read_file
read_file-fault n file e = rw e

length-take_exact : (n : ℕ) (file : Bytes) → ltb (length file) n ≡ false → length (take n file) ≡ n
length-take_exact n file e = omega (arith, ltb→le (length file) n e, length-take n file)

read_lanes-shape :
    (k n seed : ℕ) (file : Bytes) {p : List Bytes × Bytes}
    → read_lanes k n seed file ≡ ok p
    → (length p.0 ≡ k) × All (λ d. length d ≡ n + 4) p.0
unfolding read_lanes
read_lanes-shape zero n seed file {p} e = rw (← e') (refl, tt)
  where
    e' : ([], file) ≡ p
    e' = cc
read_lanes-shape (suc k) n seed file {p} e = elim (Bool-cases (ltb (length file) n)) [
  | inl short ↦ cc (rw (read_file-fault n file short) at e)
  | inr long ↦
      let step = rw (read_file-ok n file long) at e in
      let (q, rest, made) = >>=-eq-ok (read_lanes k n seed (drop n file)) _ step in
      let (count, shape) = read_lanes-shape k n seed (drop n file) rest in
      let made' : ((take n file ++ to_le_bytes 4 seed) ∷ q.0, q.1) ≡ p = cc in
      rw (← made') (
        ap suc count,
        (
          omega (
            arith,
            length-append (take n file) (to_le_bytes 4 seed),
            length-to_le_bytes 4 seed,
            length-take_exact n file long,
          ),
          shape,
        ),
      )
]

read_lanes-suc :
    (k n seed : ℕ) (file : Bytes)
    → ltb (length file) n ≡ false
    → read_lanes (suc k) n seed file ≡ (
        read_lanes k n seed (drop n file) >>= λ q.
        ok ((take n file ++ to_le_bytes 4 seed) ∷ q.0, q.1))
unfolding read_lanes
read_lanes-suc k n seed file long = rw (read_file-ok n file long)

read_lanes_fault :
    (k n seed : ℕ) (file : Bytes)
    → ltb (length file) n ≡ true
    → read_lanes (suc k) n seed file ≡ fault
unfolding read_lanes
read_lanes_fault k n seed file short = rw (read_file-fault n file short)

module _ (md4 : Bytes → Bytes) where
  payload_blocks-step :
      (n block_len seed : ℕ) (file : Bytes) (rest : ℕ) (out : Bytes)
      → block_len ≤ rest
      → block_len < u32_mod
      → ltb (length file) block_len ≡ false
      → payload_blocks md4 (suc n) block_len seed file rest out
        ≡ payload_blocks md4 n block_len seed (drop block_len file) (rest - block_len) (
            out
            ++ (to_le_bytes 4 (
                  combine
                    (checksum_1_loop (length (take block_len file)) 0 0 0 (take block_len file)))
                ++ checksum_2 md4 seed (take block_len file)))
  unfolding payload_blocks
  payload_blocks-step n block_len seed file rest out h b long =
      let m : min block_len rest ≡ block_len = omega arith in
      rw (
        m,
        read_file-ok block_len file long,
        checksum_1-ok (take block_len file) (omega (arith, length-take_exact block_len file long)),
      )

  extend_lanes-step :
      (buf : Bytes) (seed : ℕ) (datas hashes : List Bytes) (h out : Bytes)
      → length buf < u32_mod
      → extend_lanes ((buf ++ to_le_bytes 4 seed) ∷ datas) (h ∷ hashes) out
        ≡ extend_lanes datas hashes
            (out ++ (to_le_bytes 4 (combine (checksum_1_loop (length buf) 0 0 0 buf)) ++ h))
  unfolding extend_lanes
  extend_lanes-step buf seed datas hashes h out b = rw (cut_seed buf seed, checksum_1-ok buf b)

  -- As many single rounds as there are lanes, on full blocks.
  payload_blocks-lanes :
      (k m n block_len seed : ℕ) (file : Bytes) (rest : ℕ) (out : Bytes)
      → n ≡ k + m
      → block_len * k ≤ rest
      → block_len < u32_mod
      → payload_blocks md4 n block_len seed file rest out ≡ (
          read_lanes k block_len seed file >>= λ p. extend_lanes p.0 (map md4 p.0) out >>= λ out'.
          payload_blocks md4 m block_len seed p.1 (rest - block_len * k) out')
  unfolding checksum_2
  payload_blocks-lanes zero m n block_len seed file rest out e h b =
      let e' : n ≡ m = omega arith in
      let r : rest - block_len * 0 ≡ rest = omega arith in
      unfold read_lanes extend_lanes in rw (e', r)
  payload_blocks-lanes (suc k) m zero block_len seed file rest out e h b = absurd (omega arith)
  payload_blocks-lanes (suc k) m (suc n) block_len seed file rest out e h b =
      elim (Bool-cases (ltb (length file) block_len)) [
        | inl short ↦
            let m' : min block_len rest ≡ block_len = omega arith in
            unfold payload_blocks in
            rw (
              m',
              read_file-fault block_len file short,
              read_lanes_fault k block_len seed file short,
            )
        | inr long ↦
            let r : rest - block_len - block_len * k ≡ rest - block_len * suc k = omega arith in
            payload_blocks-step n block_len seed file rest out (omega arith) b long
            ∙ payload_blocks-lanes k m n block_len seed (drop block_len file) (rest - block_len) _
                (omega arith) (omega arith) b
            ∙ rw (r, read_lanes-suc k block_len seed file long, >>=_assoc)
                (>>=_congr (read_lanes k block_len seed (drop block_len file)) _ _ (λ p _.
                  rw
                    (extend_lanes-step (take block_len file) seed p.0 (map md4 p.0) _ out
                      (omega (arith, length-take_exact block_len file long)))
                    refl))
      ]

  module _ (simd : Simd) (hash : Hashes md4 simd) (block_len seed : ℕ)
      (fits : block_len < u32_mod) where
    -- The blocks that are left, one by one.
    abbrev finish : Progress → Result Error Bytes
    finish p = payload_blocks md4 p.block_remaining block_len seed p.file p.file_remaining p.buf_sum

    simd_loop-finish :
        (fuel : ℕ) (p : Progress) → (simd_loop fuel simd block_len seed p >>= finish) ≡ finish p
    unfolding simd_loop
    simd_loop-finish zero p = refl
    simd_loop-finish (suc fuel) p =
        elim (Bool-cases (
          leb simd.lanes p.block_remaining
          && not (ltb p.file_remaining (block_len * simd.lanes)))) [
            | inl more ↦
                rw (more, simd_loop)
                  (>>=_assoc (read_lanes simd.lanes block_len seed p.file) _ finish
                    ∙ >>=_congr (read_lanes simd.lanes block_len seed p.file) _ _ (λ x e.
                      let (count, shape) = read_lanes-shape simd.lanes block_len seed p.file e in
                      rw (hash.each (block_len + 4) x.0 count shape) (
                        >>=_assoc (extend_lanes x.0 (map md4 x.0) p.buf_sum) _ finish
                        ∙ >>=_congr (extend_lanes x.0 (map md4 x.0) p.buf_sum) _ _
                            (λ b _. simd_loop-finish fuel _)))
                    ∙ sym (
                        payload_blocks-lanes simd.lanes (p.block_remaining - simd.lanes)
                          p.block_remaining block_len seed p.file p.file_remaining p.buf_sum
                          (ground arith) (ground arith) fits))
            | inr done ↦ rw (done, simd_loop)
          ]

-- If the hash function over lanes gives the MD4 of each of equally long messages, which is taken of
-- the SIMD code in rsync-fetcher/src/rsync/checksum/md4_simd, and the block length is below 2 ^ 32,
-- then hashing whole groups of blocks by lanes gives the sums of the file that hashing block after
-- block gives, and where a read fails both panic.
pub checksum_payload-simd :
    (md4 : Bytes → Bytes) (simd : Simd) (head : SumHead) (seed : ℕ) (file : Bytes) (file_len : ℕ)
    → Hashes md4 simd
    → head.block_len < u32_mod
    → checksum_payload md4 (some simd) head seed file file_len
      ≡ checksum_payload md4 none head seed file file_len
unfolding checksum_payload
checksum_payload-simd md4 simd head seed file file_len hash fits =
    simd_loop-finish md4 simd hash head.block_len seed fits head.checksum_count _
