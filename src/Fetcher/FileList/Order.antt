-- ===== src/Fetcher/FileList/Order.antt =====
-- rsync-fetcher/src/rsync/file_list.rs: the order of the list that `recv_file_list` returns.
use rsync_sjtug.Prelude.{
  In, ◌↔◌, ◌⊎◌, if◌then◌else◌, ℕ, ◌+◌, ◌<◌, ◌≡◌, refl, sym, ap, Bool, true, false, Bool-cases, inl,
  inr, List, [], ◌∷◌, map, Bytes, bytes_eq, bytes_eq→eq, Result, ok, >>=-eq-ok, assert, ltb, ltb→lt,
  length, u32_mod, arith,
}
use rsync_sjtug.Fetcher.Stream.{Error, read_i32_le}
use mathlib.Core.Path.{subst}
use rsync_sjtug.Fetcher.FileList.{
  FileEntry, bytes_lt, dedup_after, dedup_by_name, mark_idx, recv_entries, recv_file_list,
}

abbrev pub names : List FileEntry → List Bytes
names es = map (λ (e : FileEntry). e.name) es

-- Strictly ascending.
abbrev pub Above : Bytes → List Bytes → Type 0
Above n [] = Unit
Above n (m ∷ ms) = bytes_lt n m ≡ true

abbrev pub Ascending : List Bytes → Type 0
Ascending [] = Unit
Ascending (n ∷ ns) = Above n ns × Ascending ns

-- The indices count the entries, and each is a u32.
abbrev pub IsIndexed : ℕ → List FileEntry → Type 0
IsIndexed i [] = Unit
IsIndexed i (e ∷ es) = (e.idx ≡ i) × (i < u32_mod) × IsIndexed (i + 1) es

-- A sort by insertion.
unfoldable pub insert_by_name : FileEntry → List FileEntry → List FileEntry
insert_by_name e [] = e ∷ []
insert_by_name e (f ∷ fs) =
    let rest = insert_by_name e fs in if bytes_lt f.name e.name then f ∷ rest else e ∷ f ∷ fs

unfoldable pub sort_by_name : List FileEntry → List FileEntry
sort_by_name [] = []
sort_by_name (e ∷ es) = insert_by_name e (sort_by_name es)

abbrev NotBelow : Bytes → List FileEntry → Type 0
NotBelow n [] = Unit
NotBelow n (f ∷ fs) = bytes_lt f.name n ≡ false

abbrev Sorted : List FileEntry → Type 0
Sorted [] = Unit
Sorted (e ∷ es) = NotBelow e.name es × Sorted es

bytes_lt_asym : (xs ys : Bytes) → bytes_lt xs ys ≡ true → bytes_lt ys xs ≡ false
unfolding bytes_lt
bytes_lt_asym xs [] h = cc
bytes_lt_asym [] (y ∷ ys) h = refl
bytes_lt_asym (x ∷ xs) (y ∷ ys) h = ground (arith, bytes_lt_asym xs ys)

bytes_lt_total :
    (xs ys : Bytes) → bytes_lt xs ys ≡ false → bytes_eq xs ys ≡ false → bytes_lt ys xs ≡ true
unfolding bytes_lt bytes_eq
bytes_lt_total [] [] h n = cc
bytes_lt_total (x ∷ xs) [] h n = refl
bytes_lt_total [] (y ∷ ys) h n = cc
bytes_lt_total (x ∷ xs) (y ∷ ys) h n = ground (arith, bytes_lt_total xs ys)

insert_by_name-NotBelow :
    (n : Bytes) (e : FileEntry) (es : List FileEntry)
    → bytes_lt e.name n ≡ false
    → NotBelow n es
    → NotBelow n (insert_by_name e es)
unfolding insert_by_name
insert_by_name-NotBelow n e [] h k = h
insert_by_name-NotBelow n e (f ∷ fs) h k = elim (Bool-cases (bytes_lt f.name e.name)) [
  | inl t ↦ rw t k
  | inr t ↦ rw t h
]

insert_by_name-Sorted :
    (e : FileEntry) (es : List FileEntry) → Sorted es → Sorted (insert_by_name e es)
unfolding insert_by_name
insert_by_name-Sorted e [] s = (tt, tt)
insert_by_name-Sorted e (f ∷ fs) s = elim (Bool-cases (bytes_lt f.name e.name)) [
  | inl t ↦ rw t (
    insert_by_name-NotBelow f.name e fs (bytes_lt_asym f.name e.name t) s.0,
    insert_by_name-Sorted e fs s.1,
  )
  | inr t ↦ rw t (t, s)
]

sort_by_name-Sorted : (es : List FileEntry) → Sorted (sort_by_name es)
unfolding sort_by_name
sort_by_name-Sorted [] = tt
sort_by_name-Sorted (e ∷ es) = insert_by_name-Sorted e (sort_by_name es) (sort_by_name-Sorted es)

dedup_after-Ascending :
    (kept : FileEntry) (es : List FileEntry)
    → NotBelow kept.name es
    → Sorted es
    → Ascending (kept.name ∷ names (dedup_after kept es))
unfolding dedup_after
dedup_after-Ascending kept [] b s = (tt, tt)
dedup_after-Ascending kept (e ∷ es) b s = elim (Bool-cases (bytes_eq e.name kept.name)) [
  | inl t ↦
      rw t (dedup_after-Ascending kept es (subst (λ n. NotBelow n es) (bytes_eq→eq _ _ t) s.0) s.1)
  | inr t ↦ rw t (bytes_lt_total e.name kept.name b t, dedup_after-Ascending e es s.0 s.1)
]

dedup_by_name-Ascending : (es : List FileEntry) → Sorted es → Ascending (names (dedup_by_name es))
unfolding dedup_by_name
dedup_by_name-Ascending [] s = tt
dedup_by_name-Ascending (e ∷ es) s = dedup_after-Ascending e es s.0 s.1

abbrev marks : List FileEntry → Result Error (List FileEntry)
marks es = ok es

marks-injective : {a b : List FileEntry} → marks a ≡ marks b → a ≡ b
marks-injective e = cc

Marks : ℕ → List FileEntry → List FileEntry → Type 0
Marks i es marked = IsIndexed i marked × (names marked ≡ names es)

fits_below : (i : ℕ) {u : Unit {0}} → assert {E = Error} (ltb i u32_mod) ≡ ok u → i < u32_mod
fits_below i e = elim (Bool-cases (ltb i u32_mod)) [
  | inl t ↦ ltb→lt i u32_mod t
  | inr t ↦ absurd (ground arith)
]

mark_idx-names :
    (i : ℕ) (es : List FileEntry) {marked : List FileEntry}
    → mark_idx i es ≡ ok marked
    → Marks i es marked
unfolding mark_idx Marks
mark_idx-names i [] e = subst (Marks i []) (marks-injective e) (tt, refl)
mark_idx-names i (x ∷ es) e =
    let (u, fits, more) = >>=-eq-ok (assert (ltb i u32_mod)) _ e in
    let (ms, rec, made) = >>=-eq-ok (mark_idx (i + 1) es) _ more in
    let (indexed, same) = mark_idx-names (i + 1) es rec in
    subst (Marks i (x ∷ es)) (marks-injective made)
      ((refl, fits_below i fits, indexed), ap (◌∷◌ x.name) same)

-- What `sort_unstable_by` does: its result is sorted and has the same entries.
pub record IsSort (sort : List FileEntry → List FileEntry) : Type 0 where
  pub sorted : (es : List FileEntry) → Sorted (sort es)
  pub entries : (e : FileEntry) (es : List FileEntry) → In e (sort es) ↔ In e es

In-insert_by_name :
    (e f : FileEntry) (es : List FileEntry) → In e (insert_by_name f es) ↔ ((e ≡ f) ⊎ In e es)
unfolding insert_by_name
In-insert_by_name e f [] = (λ m. m, λ m. m)
In-insert_by_name e f (g ∷ gs) = go (bytes_lt g.name f.name) (In-insert_by_name e f gs)
  where
    go :
        (b : Bool)
        → (In e (insert_by_name f gs) ↔ ((e ≡ f) ⊎ In e gs))
        → In e (if b then g ∷ insert_by_name f gs else f ∷ g ∷ gs) ↔ ((e ≡ f) ⊎ In e (g ∷ gs))
    go true (there, back) = (
      λ m. elim m [
        | inl h ↦ inr (inl h)
        | inr h ↦ elim (there h) [ inl k ↦ inl k | inr k ↦ inr (inr k) ]
      ],
      λ m. elim m [
        | inl h ↦ inr (back (inl h))
        | inr h ↦ elim h [ inl k ↦ inl k | inr k ↦ inr (back (inr k)) ]
      ],
    )
    go false rest = (λ m. m, λ m. m)

In-sort_by_name : (e : FileEntry) (es : List FileEntry) → In e (sort_by_name es) ↔ In e es
unfolding sort_by_name
In-sort_by_name e [] = (λ m. m, λ m. m)
In-sort_by_name e (f ∷ fs) =
    let (there, back) = In-insert_by_name e f (sort_by_name fs) in
    let (there', back') = In-sort_by_name e fs in
    (
      λ m. elim (there m) [ inl h ↦ inl h | inr h ↦ inr (there' h) ],
      λ m. back (elim m [ inl h ↦ inl h | inr h ↦ inr (back' h) ]),
    )

pub sort_by_name-IsSort : IsSort sort_by_name
sort_by_name-IsSort = record { sorted = sort_by_name-Sorted; entries = In-sort_by_name }

-- If the sort leaves the entries sorted by name, in any order where names are equal, then the list
-- that `recv_file_list` returns is strictly ascending by name, so no name is there twice, and the
-- index of each entry is its place.
pub recv_file_list-Ascending :
    (sort : List FileEntry → List FileEntry) (clean : Bytes → Bytes) (is_symlink : ℕ → Bool)
    (s : Bytes) {list : List FileEntry} {rest : Bytes}
    → IsSort sort
    → recv_file_list sort clean is_symlink s ≡ ok (list, rest)
    → Ascending (names list) × IsIndexed 0 list
unfolding recv_file_list Marks
recv_file_list-Ascending sort clean is_symlink s {list} {rest} law e =
    let ((received, s1), read, more) =
      >>=-eq-ok (recv_entries clean is_symlink (length s + 1) [] [] s) _ e in
    let sorted = dedup_by_name (sort received) in
    let (marked, indices, end) = >>=-eq-ok (mark_idx 0 sorted) _ more in
    let (errors, last, made) = >>=-eq-ok (read_i32_le s1) _ end in
    let (indexed, same) = mark_idx-names 0 sorted indices in
    let order = dedup_by_name-Ascending (sort received) (law.sorted received) in
    subst (λ l. Ascending (names l) × IsIndexed 0 l) (cc (made))
      (subst Ascending (sym same) order, indexed)
