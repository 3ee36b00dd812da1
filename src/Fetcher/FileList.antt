-- ===== src/Fetcher/FileList.antt =====
-- rsync-fetcher/src/rsync/file_list.rs: the file list that the server sends.
pub mod Order
use rsync_sjtug.Prelude.{
  ℕ, zero, suc, ◌+◌, ◌-◌, ◌*◌, ◌/◌, ◌%◌, ◌<◌, ◌≤◌, ◌≡◌, refl, Bool, true, false, ◌&&◌, not, Option,
  none, some, List, [], ◌∷◌, ◌++◌, Bytes, bytes_eq, Result, ok, err, fault, ◌>>=◌, ◌>>◌, ensure,
  assert, ltb, leb, ◌==◌, if◌then◌else◌, length, take, u32_mod,
}
use rsync_sjtug.Fetcher.Stream.{
  Error, path_too_long, eof, Read, read_exact, read_u8, read_u32_le, read_i32_le, read_rsync_long,
}

-- `modify_time` is in seconds.
pub record FileEntry : Type 0 where
  pub name : Bytes
  pub len : ℕ
  pub modify_time : ℕ
  pub mode : ℕ
  pub link_target : Option Bytes
  pub idx : ℕ

-- Bit `n` of the flags.
abbrev pub test_bit : ℕ → ℕ → Bool
test_bit flags bit = (flags / bit) % 2 == 1

abbrev pub xmit_same_mode : ℕ
xmit_same_mode = 2

abbrev pub xmit_same_name : ℕ
xmit_same_name = 32

abbrev pub xmit_long_name : ℕ
xmit_long_name = 64

abbrev pub xmit_same_time : ℕ
xmit_same_time = 128

abbrev pub path_max : ℕ
path_max = 4096

-- `prev.expect("prev must exist")`
abbrev pub expect_prev : Option FileEntry → Result Error FileEntry
expect_prev none = fault
expect_prev (some prev) = ok prev

abbrev pub last : List FileEntry → Option FileEntry
last [] = none
last (e ∷ []) = some e
last (e ∷ f ∷ es) = last (f ∷ es)

-- Cleaning a path and the test for a symbolic link are other crates'.
module _ (clean : Bytes → Bytes) (is_symlink : ℕ → Bool) where
  -- `name_scratch` is the name as it came with the entry before; the new one is returned.
  unfoldable pub recv_file_entry : ℕ → Bytes → Option FileEntry → Read (FileEntry × Bytes)
  recv_file_entry flags name_scratch prev s = do
    (inherit_name_len, s1) ← if test_bit flags xmit_same_name then read_u8 s else ok (0, s)
    (name_len, s2) ← if test_bit flags xmit_long_name then read_u32_le s1 else read_u8 s1
    ensure (leb name_len (path_max - inherit_name_len)) path_too_long
    assert (leb inherit_name_len (length name_scratch))
    (suffix, s3) ← read_exact name_len s2
    let scratch : Bytes = take inherit_name_len name_scratch ++ suffix
    (len, s4) ← read_rsync_long s3
    (modify_time, s5) ←
        if test_bit flags xmit_same_time
        then (expect_prev prev >>= λ p. ok (p.modify_time, s4))
        else read_u32_le s4
    (mode, s6) ←
        if test_bit flags xmit_same_mode
        then (expect_prev prev >>= λ p. ok (p.mode, s5))
        else read_u32_le s5
    (link_target, s7) ←
        if is_symlink mode
        then (read_u32_le s6 >>= λ (n, r). read_exact n r >>= λ (target, r'). ok (some target, r'))
        else ok (none, s6)
    ok (
      (
        record {
          name = clean scratch;
          len = len;
          modify_time = modify_time;
          mode = mode;
          link_target = link_target;
          idx = u32_mod - 1;
        },
        scratch,
      ),
      s7,
    )

  -- The loop up to the flags 0. A round takes a byte, so as many rounds as there are bytes and one
  -- more are enough.
  unfoldable pub recv_entries : ℕ → Bytes → List FileEntry → Read (List FileEntry)
  recv_entries zero name_scratch list s = err eof
  recv_entries (suc fuel) name_scratch list s = do
    (b, s1) ← read_u8 s
    elim (b == 0) [
      | true ↦ ok (list, s1)
      | false ↦ do
        ((entry, scratch), s2) ← recv_file_entry b name_scratch (last list) s1
        recv_entries fuel scratch (list ++ (entry ∷ [])) s2
    ]

-- The order of `Vec<u8>`.
unfoldable pub bytes_lt : Bytes → Bytes → Bool
bytes_lt xs [] = false
bytes_lt [] (y ∷ ys) = true
bytes_lt (x ∷ xs) (y ∷ ys) =
    let rest = bytes_lt xs ys in if ltb x y then true else if x == y then rest else false

-- `dedup_by`: of neighbours with one name the first is kept.
unfoldable pub dedup_after : FileEntry → List FileEntry → List FileEntry
dedup_after kept [] = []
dedup_after kept (e ∷ es) =
    let same = dedup_after kept es in
    let rest = dedup_after e es in if bytes_eq e.name kept.name then same else e ∷ rest

unfoldable pub dedup_by_name : List FileEntry → List FileEntry
unfolding dedup_after
dedup_by_name [] = []
dedup_by_name (e ∷ es) = e ∷ dedup_after e es

-- `entry.idx = idx` along the list; `u32::try_from` panics.
unfoldable pub mark_idx : ℕ → List FileEntry → Result Error (List FileEntry)
mark_idx idx [] = ok []
mark_idx idx (e ∷ es) = do
  assert (ltb idx u32_mod)
  rest ← mark_idx (idx + 1) es
  ok (record e { idx = idx } ∷ rest)

-- `sort` is `sort_unstable_by` on the names: it may leave entries of one name in any order.
unfoldable pub recv_file_list :
    (List FileEntry → List FileEntry) → (Bytes → Bytes) → (ℕ → Bool) → Read (List FileEntry)
recv_file_list sort clean is_symlink s = do
  (list, s1) ← recv_entries clean is_symlink (length s + 1) [] [] s
  marked ← mark_idx 0 (dedup_by_name (sort list))
  (io_errors, s2) ← read_i32_le s1
  ok (marked, s2)
