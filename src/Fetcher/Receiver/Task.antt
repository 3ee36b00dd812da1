-- ===== src/Fetcher/Receiver/Task.antt =====
-- The receiver task: permits, upload tasks and the indices of the file list.
use rsync_sjtug.Prelude.{
  ℕ, zero, suc, ◌+◌, ◌≤◌, ◌<◌, ◌≡◌, refl, ap, false, inl, inr, Option, none, some, List, [], ◌∷◌,
  ◌++◌, Bytes, ok, ◌>>=◌, >>=-eq-ok, All, length, length-append, get_elem?, ◌==◌, arith, Bool-cases,
  Option-cases,
}
use rsync_sjtug.Fetcher.Stream.{minus_one, read_i32_le}
use rsync_sjtug.Fetcher.Receiver.{
  Receiver, RecvResult, UploadTask, recv_data, drop_basis_file, after_upload, queue_upload,
  recv_file, recv_task_loop, recv_task, try_get_basis_file,
}

-- Every queued task names a row of the file list.
abbrev pub InRange : Receiver → Type 0
InRange r = All (λ (t : UploadTask). t.idx < length r.file_list) r.sent

-- What a run of the receiver leaves: a permit is given back for each upload task that it queues, the
-- file list is as it was, and the tasks stay in its range.
pub record Accounts (r r' : Receiver) : Type 0 where
  pub permits : r'.permits + length r.sent ≡ r.permits + length r'.sent
  pub grows : length r.sent ≤ length r'.sent
  pub same_list : r'.file_list ≡ r.file_list
  pub in_range : InRange r → InRange r'

Accounts-trans : {a b c : Receiver} → Accounts a b → Accounts b c → Accounts a c
Accounts-trans p q = record {
  permits = omega arith;
  grows = omega arith;
  same_list = cc (p.same_list, q.same_list);
  in_range = λ h. q.in_range (p.in_range h);
}

Accounts-rx : (r : Receiver) (rx : Bytes) → Accounts r (record r { rx = rx })
Accounts-rx r rx = record {
  permits = refl;
  grows = omega arith;
  same_list = refl;
  in_range = λ h. h;
}

get_elem?-lt : (l : List Bytes) (i : ℕ) {x : Bytes} → get_elem? l i ≡ some x → i < length l
get_elem?-lt [] i e = cc
get_elem?-lt (x ∷ l) zero e = omega arith
get_elem?-lt (x ∷ l) (suc i) e = omega (arith, get_elem?-lt l i e)

All-snoc :
    (P : UploadTask → Type 0) (ts : List UploadTask) (t : UploadTask)
    → All P ts
    → P t
    → All P (ts ++ (t ∷ []))
All-snoc P [] t h p = (p, tt)
All-snoc P (x ∷ ts) t h p = (h.0, All-snoc P ts t h.1 p)

after_upload-Accounts :
    (idx : ℕ) (result : RecvResult) (r : Receiver)
    → idx < length r.file_list
    → Accounts r (after_upload idx result r)
unfolding after_upload
after_upload-Accounts idx result r lt = record {
  permits = omega (arith, length-append r.sent (_ ∷ []));
  grows = omega (arith, length-append r.sent (_ ∷ []));
  same_list = refl;
  in_range = λ h. All-snoc _ r.sent _ h lt;
}

queue_upload-Accounts :
    (idx : ℕ) (result : RecvResult) (r : Receiver) {r' : Receiver}
    → idx < length r.file_list
    → queue_upload idx result r ≡ ok r'
    → Accounts r r'
unfolding queue_upload
queue_upload-Accounts idx result r {r'} lt e = elim (Bool-cases r.upload_tx) [
  | inl t ↦
      let made : after_upload idx result r ≡ r' = ground arith in
      rw (← made) (after_upload-Accounts idx result r lt)
  | inr f ↦ absurd (ground arith)
]

module _ (md4 blake2b basis_name : Bytes → Bytes) (seed : ℕ) where
  drop_basis_file-Accounts :
      (basis : Option Bytes) (path : Bytes) (r : Receiver)
      → Accounts r (drop_basis_file md4 blake2b basis_name seed basis path r)
  unfolding drop_basis_file
  drop_basis_file-Accounts none path r = record {
    permits = refl;
    grows = omega arith;
    same_list = refl;
    in_range = λ h. h;
  }
  drop_basis_file-Accounts (some _) path r = record {
    permits = refl;
    grows = omega arith;
    same_list = refl;
    in_range = λ h. h;
  }

  recv_file-Accounts :
      (idx : ℕ) (r : Receiver) {r' : Receiver}
      → recv_file md4 blake2b basis_name seed idx r ≡ ok r'
      → Accounts r r'
  unfolding recv_file
  recv_file-Accounts idx r {r'} e = elim (Option-cases (get_elem? r.file_list idx)) [
    | inl out ↦ absurd (ground arith)
    | inr (name, found) ↦
        let step = rw (found, recv_file) at e in
        let basis = try_get_basis_file md4 blake2b basis_name seed r name in
        let ((result, rx'), received, queued) =
          >>=-eq-ok (recv_data md4 blake2b basis_name seed basis r.rx) _ step in
        let read : Receiver = record r { rx = rx' } in
        let dropped = drop_basis_file-Accounts basis name read in
        Accounts-trans (Accounts-trans (Accounts-rx r rx') dropped) (
          queue_upload-Accounts idx result _
            (omega (arith, get_elem?-lt r.file_list idx found, ap length dropped.same_list)) queued)
  ]

  recv_task_loop-Accounts :
      (fuel phase : ℕ) (r : Receiver) {r' : Receiver}
      → recv_task_loop md4 blake2b basis_name seed fuel phase r ≡ ok r'
      → Accounts r r' × (r'.upload_tx ≡ false)
  unfolding recv_task_loop
  recv_task_loop-Accounts zero phase r e = cc
  recv_task_loop-Accounts (suc fuel) phase r {r'} e =
      let ((idx, rx'), read, more) = >>=-eq-ok (read_i32_le r.rx) _ e in
      let r1 : Receiver = record r { rx = rx' } in
      elim (Bool-cases (idx == minus_one)) [
        | inl last ↦ elim (Bool-cases (phase == 0)) [
          | inl first ↦
              let (a, c) = recv_task_loop-Accounts fuel (phase + 1) r1 (ground arith) in
              (Accounts-trans (Accounts-rx r rx') a, c)
          | inr second ↦ elim (Bool-cases r.upload_tx) [
            | inl there ↦
                let made : record r1 { upload_tx = false } ≡ r' = ground arith in
                rw (← made) (
                  record {
                    permits = refl;
                    grows = omega arith;
                    same_list = refl;
                    in_range = λ h. h;
                  },
                  refl,
                )
            | inr gone ↦ absurd (ground arith)
          ]
        ]
        | inr file ↦
            let step : (recv_file md4 blake2b basis_name seed idx r1
                  >>= recv_task_loop md4 blake2b basis_name seed fuel phase)
                ≡ ok r' =
              ground arith in
            let (r2, received, rest) =
              >>=-eq-ok (recv_file md4 blake2b basis_name seed idx r1) _ step in
            let (a, c) = recv_task_loop-Accounts fuel phase r2 rest in
            (
              Accounts-trans
                  (Accounts-trans (Accounts-rx r rx') (recv_file-Accounts idx r1 received)) a,
              c,
            )
      ]

  -- A run of the receiver task that ends well gives back one permit for each upload task that it
  -- queues, keeps the file list, queues only indices of that list, and closes the queue.
  pub recv_task-Accounts :
      (r : Receiver) {r' : Receiver}
      → recv_task md4 blake2b basis_name seed r ≡ ok r'
      → Accounts r r' × (r'.upload_tx ≡ false)
  unfolding recv_task
  recv_task-Accounts r e = recv_task_loop-Accounts (length r.rx) 0 r e
