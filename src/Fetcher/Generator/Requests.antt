-- ===== src/Fetcher/Generator/Requests.antt =====
-- rsync-fetcher/src/rsync/generator.rs: which requests are sent.
use rsync_sjtug.Prelude.{
  ℕ, ◌+◌, ◌-◌, ◌≡◌, refl, sym, ap, ◌∙◌, Bool, true, false, Option, none, some, List, [], ◌∷◌, ◌++◌,
  append-nil, append_assoc, concat, Bytes, Result, ok, err, fault, Leaves, Leaves-bind, Leaves-ok,
  Leaves-weaken, Leaves-self, get_elem?, if◌then◌else◌, ◌==◌,
}
use mathlib.Core.Path.{subst}
use rsync_sjtug.Fetcher.Stream.{Error}
use rsync_sjtug.Fetcher.Checksum.{Simd}
use rsync_sjtug.Fetcher.FileList.{FileEntry}
use rsync_sjtug.Fetcher.Plan.{TransferItem}
use rsync_sjtug.Fetcher.Generator.{
  Generator, Event, goes_on, refilled, closed, basis, phases, is_wanted, next_item, request_partial,
  request_full, on_item, select, go_on, on_event, generate_task, start,
}

-- The third list is the first two, merged.
pub data Merges : List Bytes → List Bytes → List Bytes → Type 0 where
  merges_nil : Merges [] [] []
  then_left :
      {xs ys zs : List Bytes} (x : Bytes)
      → Merges xs ys zs
      → Merges (xs ++ (x ∷ [])) ys (zs ++ (x ∷ []))
  then_right :
      {xs ys zs : List Bytes} (y : Bytes)
      → Merges xs ys zs
      → Merges xs (ys ++ (y ∷ [])) (zs ++ (y ∷ []))

-- The basis files that come before the channel is closed.
abbrev pub basis_of : Bool → List Event → List (ℕ × Bytes)
basis_of open_now [] = []
basis_of open_now (goes_on ∷ events) = basis_of open_now events
basis_of open_now (refilled ∷ events) = basis_of open_now events
basis_of open_now (closed ∷ events) = basis_of false events
basis_of true (basis idx file ∷ events) = (idx, file) ∷ basis_of true events
basis_of false (basis idx file ∷ events) = basis_of false events

abbrev bytes_or_nil : Result Error Bytes → Bytes
bytes_or_nil (ok b) = b
bytes_or_nil (err e) = []
bytes_or_nil fault = []

concat-append_one : (xs : List Bytes) (x : Bytes) → concat (xs ++ (x ∷ [])) ≡ concat xs ++ x
concat-append_one [] x = append-nil x
concat-append_one (y ∷ xs) x =
    ap (λ l. y ++ l) (concat-append_one xs x) ∙ sym (append_assoc y (concat xs) x)

module _ (sqrt : ℕ → ℕ) (md4 : Bytes → Bytes) (simd : Option Simd) (is_dir is_file : ℕ → Bool)
    (seed : ℕ) (file_list : List FileEntry) where
  abbrev pub full_of : Option FileEntry → TransferItem → List Bytes → List Bytes
  full_of none item rest = rest
  full_of (some entry) item rest =
      if is_wanted sqrt md4 simd is_dir is_file seed file_list item entry
      then request_full sqrt md4 simd is_dir is_file seed file_list entry ∷ rest
      else rest

  -- The requests of the items that the filter passes, in order.
  abbrev pub full_requests : List TransferItem → List Bytes
  full_requests [] = []
  full_requests (item ∷ items) = full_of (get_elem? file_list item.idx) item (full_requests items)

  -- Those of the basis files.
  abbrev pub partial_requests : List (ℕ × Bytes) → List Bytes
  partial_requests [] = []
  partial_requests ((idx, file) ∷ rest) =
      bytes_or_nil (request_partial sqrt md4 simd is_dir is_file seed file_list idx file)
      ∷ partial_requests rest

  partial_requests-append :
      (xs : List (ℕ × Bytes)) (y : ℕ × Bytes)
      → partial_requests (xs ++ (y ∷ [])) ≡ partial_requests xs ++ partial_requests (y ∷ [])
  partial_requests-append [] y = refl
  partial_requests-append (x ∷ xs) y =
      ap
        (λ l.
          bytes_or_nil (request_partial sqrt md4 simd is_dir is_file seed file_list x.0 x.1) ∷ l)
        (partial_requests-append xs y)

  -- What the items still give.
  abbrev Next : List TransferItem → Option (FileEntry × List TransferItem) → Type 0
  Next items none = full_requests items ≡ []
  Next items (some (entry, rest)) =
      full_requests items
      ≡ request_full sqrt md4 simd is_dir is_file seed file_list entry ∷ full_requests rest

  full_requests-skip :
      (item : TransferItem) (items : List TransferItem) (entry : FileEntry)
      → get_elem? file_list item.idx ≡ some entry
      → is_wanted sqrt md4 simd is_dir is_file seed file_list item entry ≡ false
      → full_requests (item ∷ items) ≡ full_requests items
  full_requests-skip item items entry e t = rw (e, t) refl

  full_requests-take :
      (item : TransferItem) (items : List TransferItem) (entry : FileEntry)
      → get_elem? file_list item.idx ≡ some entry
      → is_wanted sqrt md4 simd is_dir is_file seed file_list item entry ≡ true
      → full_requests (item ∷ items)
        ≡ request_full sqrt md4 simd is_dir is_file seed file_list entry ∷ full_requests items
  full_requests-take item items entry e t = rw (e, t) refl

  Next-skip :
      (xs ys : List TransferItem)
      → full_requests xs ≡ full_requests ys
      → (next : Option (FileEntry × List TransferItem)) → Next ys next
      → Next xs next
  Next-skip xs ys e none k = e ∙ k
  Next-skip xs ys e (some (entry, rest)) k = e ∙ k

  next_item-Next :
      (items : List TransferItem)
      → Leaves (Next items) (next_item sqrt md4 simd is_dir is_file seed file_list items)
  unfolding next_item
  next_item-Next [] = refl
  next_item-Next (item ∷ items) = go (next_item-Next items) (get_elem? file_list item.idx) refl
    where
      wanted :
          Leaves (Next items) (next_item sqrt md4 simd is_dir is_file seed file_list items)
          → (entry : FileEntry) → get_elem? file_list item.idx ≡ some entry
          → (b : Bool) → is_wanted sqrt md4 simd is_dir is_file seed file_list item entry ≡ b
          → Leaves (Next (item ∷ items)) (
              if b
              then ok (some (entry, items))
              else next_item sqrt md4 simd is_dir is_file seed file_list items)
      wanted rest entry e true t = full_requests-take item items entry e t
      wanted rest entry e false t =
          Leaves-weaken (Next items) (Next (item ∷ items)) _ rest
            (Next-skip (item ∷ items) items (full_requests-skip item items entry e t))

      go :
          Leaves (Next items) (next_item sqrt md4 simd is_dir is_file seed file_list items)
          → (found : Option FileEntry) → get_elem? file_list item.idx ≡ found
          → Leaves (Next (item ∷ items)) (elim found [
            | none ↦ fault
            | some entry ↦
                if is_wanted sqrt md4 simd is_dir is_file seed file_list item entry
                then ok (some (entry, items))
                else next_item sqrt md4 simd is_dir is_file seed file_list items
          ])
      go rest none e = tt
      go rest (some entry) e =
          wanted rest entry e (is_wanted sqrt md4 simd is_dir is_file seed file_list item entry)
            refl

  -- What was sent for the items and for the basis files that came, and what is still to be sent.
  record Sent (all : List TransferItem) (came : List (ℕ × Bytes)) (o : Bool) (g : Generator)
      : Type 0 where
    full : List Bytes
    partial : List Bytes
    sent : List Bytes
    merged : Merges full partial sent
    items_of : full_requests all ≡ full ++ full_requests g.items
    basis_files : partial_requests came ≡ partial ++ partial_requests g.basis_rx
    written : g.tx ≡ concat sent ++ (if g.finished then phases else [])
    open_now : g.basis_open ≡ o
    at_end :
        g.finished ≡ true
        → (full_requests g.items ≡ []) × (partial_requests g.basis_rx ≡ []) × (g.basis_open ≡ false)

  written_so_far :
      (all : List TransferItem) (came : List (ℕ × Bytes)) (o : Bool) (g : Generator)
      → g.finished ≡ false
      → (s : Sent all came o g) → g.tx ≡ concat s.sent
  written_so_far all came o g f s =
      subst (λ b. g.tx ≡ concat s.sent ++ (if b then phases else [])) f s.written
      ∙ append-nil (concat s.sent)

  written_more :
      (all : List TransferItem) (came : List (ℕ × Bytes)) (o : Bool) (g : Generator)
      (f : g.finished ≡ false) (s : Sent all came o g) (bytes : Bytes)
      → g.tx ++ bytes ≡ concat (s.sent ++ (bytes ∷ [])) ++ (if g.finished then phases else [])
  written_more all came o g f s bytes =
      ap (λ b. b ++ bytes) (written_so_far all came o g f s)
      ∙ sym (concat-append_one s.sent bytes)
      ∙ sym (append-nil (concat (s.sent ++ (bytes ∷ []))))
      ∙ ap (λ b. concat (s.sent ++ (bytes ∷ [])) ++ (if b then phases else [])) (sym f)

  not_finished : {A : Type 0} (g : Generator) → g.finished ≡ false → g.finished ≡ true → A
  not_finished g f t = absurd (cc)

  on_item-Sent :
      (all : List TransferItem) (came : List (ℕ × Bytes)) (o : Bool) (g : Generator)
      → g.basis_rx ≡ []
      → g.finished ≡ false
      → Sent all came o g
      → (next : Option (FileEntry × List TransferItem)) → Next g.items next
      → Sent all came o (on_item sqrt md4 simd is_dir is_file seed file_list next g)
  unfolding on_item
  on_item-Sent all came o g e f s (some (entry, items)) n =
      let bytes = request_full sqrt md4 simd is_dir is_file seed file_list entry in
      record {
        full = s.full ++ (bytes ∷ []);
        partial = s.partial;
        sent = s.sent ++ (bytes ∷ []);
        merged = then_left bytes s.merged;
        items_of =
            s.items_of
            ∙ ap (λ l. s.full ++ l) n
            ∙ sym (append_assoc s.full (bytes ∷ []) (full_requests items));
        basis_files = s.basis_files;
        written = written_more all came o g f s bytes;
        open_now = s.open_now;
        at_end = not_finished g f;
      }
  on_item-Sent all came o g e f s none n = go g.basis_open refl
    where
      go :
          (b : Bool)
          → g.basis_open ≡ b
          → Sent all came o (
              if b
              then record g { items = [] }
              else record g { items = []; tx = g.tx ++ phases; finished = true })
      go true shut = record {
        full = s.full;
        partial = s.partial;
        sent = s.sent;
        merged = s.merged;
        items_of = s.items_of ∙ ap (λ l. s.full ++ l) n;
        basis_files = s.basis_files;
        written = s.written;
        open_now = s.open_now;
        at_end = not_finished g f;
      }
      go false shut = record {
        full = s.full;
        partial = s.partial;
        sent = s.sent;
        merged = s.merged;
        items_of = s.items_of ∙ ap (λ l. s.full ++ l) n;
        basis_files = s.basis_files;
        written = ap (λ b. b ++ phases) (written_so_far all came o g f s);
        open_now = s.open_now;
        at_end = λ t. (refl, ap partial_requests e, shut);
      }

  select-Sent :
      (all : List TransferItem) (came : List (ℕ × Bytes)) (o : Bool) (rx : List (ℕ × Bytes))
      (g : Generator)
      → g.basis_rx ≡ rx
      → g.finished ≡ false
      → Sent all came o g
      → Leaves (Sent all came o) (select sqrt md4 simd is_dir is_file seed file_list rx g)
  unfolding select
  select-Sent all came o [] g e f s =
      Leaves-bind (Next g.items) (Sent all came o)
        (next_item sqrt md4 simd is_dir is_file seed file_list g.items) _ (next_item-Next g.items)
        (on_item-Sent all came o g e f s)
  select-Sent all came o ((idx, file) ∷ rest) g e f s =
      Leaves-bind
        (λ bytes. request_partial sqrt md4 simd is_dir is_file seed file_list idx file ≡ ok bytes)
        (Sent all came o) (request_partial sqrt md4 simd is_dir is_file seed file_list idx file) _
        (Leaves-self _)
        λ bytes r. record {
          full = s.full;
          partial = s.partial ++ (bytes ∷ []);
          sent = s.sent ++ (bytes ∷ []);
          merged = then_right bytes s.merged;
          items_of = s.items_of;
          basis_files =
              s.basis_files
              ∙ ap (λ l. s.partial ++ partial_requests l) e
              ∙ ap (λ q. s.partial ++ (bytes_or_nil q ∷ partial_requests rest)) r
              ∙ sym (append_assoc s.partial (bytes ∷ []) (partial_requests rest));
          written = written_more all came o g f s bytes;
          open_now = s.open_now;
          at_end = not_finished g f;
        }

  go_on-Sent :
      (all : List TransferItem) (came : List (ℕ × Bytes)) (o : Bool) (g : Generator)
      → Sent all came o g
      → Leaves (Sent all came o) (go_on sqrt md4 simd is_dir is_file seed file_list g)
  unfolding go_on
  go_on-Sent all came o g s = finishes g.finished refl
    where
      takes :
          (z : Bool)
          → g.finished ≡ false
          → Leaves {E = Error}
              (Sent all came o)
              (if z then ok g else ok (record g { permits = g.permits - 1; holds_permit = true }))
      takes true f = s
      takes false f = record {
        full = s.full;
        partial = s.partial;
        sent = s.sent;
        merged = s.merged;
        items_of = s.items_of;
        basis_files = s.basis_files;
        written = s.written;
        open_now = s.open_now;
        at_end = s.at_end;
      }

      holds :
          (h : Bool)
          → g.finished ≡ false
          → Leaves {E = Error} (Sent all came o) (
              if h
              then select sqrt md4 simd is_dir is_file seed file_list g.basis_rx g
              else if g.permits == 0
              then ok g
              else ok (record g { permits = g.permits - 1; holds_permit = true }))
      holds true f = select-Sent all came o g.basis_rx g refl f s
      holds false f = takes (g.permits == 0) f

      finishes :
          (b : Bool)
          → g.finished ≡ b
          → Leaves {E = Error} (Sent all came o) (
              if b
              then ok g
              else if g.holds_permit
              then select sqrt md4 simd is_dir is_file seed file_list g.basis_rx g
              else if g.permits == 0
              then ok g
              else ok (record g { permits = g.permits - 1; holds_permit = true }))
      finishes true f = s
      finishes false f = holds g.holds_permit f

  abbrev after_event : Bool → Event → Bool
  after_event o goes_on = o
  after_event o refilled = o
  after_event o closed = false
  after_event o (basis idx file) = o

  abbrev came_with : Bool → Event → List (ℕ × Bytes)
  came_with o goes_on = []
  came_with o refilled = []
  came_with o closed = []
  came_with true (basis idx file) = (idx, file) ∷ []
  came_with false (basis idx file) = []

  basis_of-came_with :
      (o : Bool) (e : Event) (events : List Event)
      → basis_of o (e ∷ events) ≡ came_with o e ++ basis_of (after_event o e) events
  basis_of-came_with o goes_on events = refl
  basis_of-came_with o refilled events = refl
  basis_of-came_with o closed events = refl
  basis_of-came_with true (basis idx file) events = refl
  basis_of-came_with false (basis idx file) events = refl

  on_event-Sent :
      (all : List TransferItem) (came : List (ℕ × Bytes)) (o : Bool) (e : Event) (g : Generator)
      → Sent all came o g
      → Leaves
          (Sent all (came ++ came_with o e) (after_event o e))
          (on_event sqrt md4 simd is_dir is_file seed file_list e g)
  unfolding on_event
  on_event-Sent all came o goes_on g s =
      subst (λ c. Leaves (Sent all c o) (go_on sqrt md4 simd is_dir is_file seed file_list g))
        (sym (append-nil came)) (go_on-Sent all came o g s)
  on_event-Sent all came o refilled g s =
      subst (λ c. Sent all c o (record g { permits = g.permits + 1 })) (sym (append-nil came))
        (record {
          full = s.full;
          partial = s.partial;
          sent = s.sent;
          merged = s.merged;
          items_of = s.items_of;
          basis_files = s.basis_files;
          written = s.written;
          open_now = s.open_now;
          at_end = s.at_end;
        })
  on_event-Sent all came o closed g s =
      subst (λ c. Sent all c false (record g { basis_open = false })) (sym (append-nil came))
        (record {
          full = s.full;
          partial = s.partial;
          sent = s.sent;
          merged = s.merged;
          items_of = s.items_of;
          basis_files = s.basis_files;
          written = s.written;
          open_now = refl;
          at_end = λ t. let (a, b, c) = s.at_end t in (a, b, refl);
        })
  on_event-Sent all came true (basis idx file) g s =
      subst
        (λ b.
          Sent all (came ++ ((idx, file) ∷ [])) true
            (if b then record g { basis_rx = g.basis_rx ++ ((idx, file) ∷ []) } else g))
        (sym s.open_now)
        (record {
          full = s.full;
          partial = s.partial;
          sent = s.sent;
          merged = s.merged;
          items_of = s.items_of;
          basis_files =
              partial_requests-append came (idx, file)
              ∙ ap (λ l. l ++ partial_requests ((idx, file) ∷ [])) s.basis_files
              ∙ append_assoc s.partial (partial_requests g.basis_rx)
                  (partial_requests ((idx, file) ∷ []))
              ∙ ap (λ l. s.partial ++ l) (sym (partial_requests-append g.basis_rx (idx, file)));
          written = s.written;
          open_now = s.open_now;
          at_end = λ t. let (a, b, c) = s.at_end t in both s.open_now c;
        })
    where
      both : {A : Type 0} {q : Bool} → q ≡ true → q ≡ false → A
      both a b = absurd (cc)
  on_event-Sent all came false (basis idx file) g s =
      subst
        (λ c.
          Sent all c false
            (if g.basis_open then record g { basis_rx = g.basis_rx ++ ((idx, file) ∷ []) } else g))
        (sym (append-nil came))
        (subst
          (λ b.
            Sent all came false
              (if b then record g { basis_rx = g.basis_rx ++ ((idx, file) ∷ []) } else g))
          (sym s.open_now) s)

  generate_task-Sent :
      (all : List TransferItem) (came : List (ℕ × Bytes)) (o : Bool) (events : List Event)
      (g : Generator)
      → Sent all came o g
      → Leaves
          (λ g'. (o' : Bool) × Sent all (came ++ basis_of o events) o' g')
          (generate_task sqrt md4 simd is_dir is_file seed file_list events g)
  unfolding generate_task
  generate_task-Sent all came o [] g s = (o, subst (λ c. Sent all c o g) (sym (append-nil came)) s)
  generate_task-Sent all came o (e ∷ events) g s =
      Leaves-bind (Sent all (came ++ came_with o e) (after_event o e))
        (λ g'. (o' : Bool) × Sent all (came ++ basis_of o (e ∷ events)) o' g')
        (on_event sqrt md4 simd is_dir is_file seed file_list e g) _
        (on_event-Sent all came o e g s)
        λ g' s'.
          subst
            (λ c.
              Leaves (λ g''. (o' : Bool) × Sent all c o' g'')
                (generate_task sqrt md4 simd is_dir is_file seed file_list events g'))
            (append_assoc came (came_with o e) (basis_of (after_event o e) events)
              ∙ ap (λ l. came ++ l) (sym (basis_of-came_with o e events)))
            (generate_task-Sent all (came ++ came_with o e) (after_event o e) events g' s')

  -- If the generator comes to its end, whatever happened in whatever order, then it has written one
  -- request for each item that the filter passes, in the order of the plan, merged with one for each
  -- basis file, in the order in which they came, and then the marks of the two phases.
  pub generate_task-Merges :
      (permits : ℕ) (items : List TransferItem) (events : List Event) {g : Generator}
      → generate_task sqrt md4 simd is_dir is_file seed file_list events (start permits items)
        ≡ ok g
      → g.finished ≡ true
      → (sent : List Bytes) × Merges
          (full_requests items)
          (partial_requests (basis_of true events))
          sent
        × (g.tx ≡ concat sent ++ phases)
  generate_task-Merges permits items events {g} e t =
      let (o, s) =
        Leaves-ok (λ g'. (o' : Bool) × Sent items (basis_of true events) o' g') _
          (generate_task-Sent items [] true events (start permits items) begun) e in
      let (none_full, none_partial, shut) = s.at_end t in
      (
        s.sent,
        subst (λ xs. Merges xs (partial_requests (basis_of true events)) s.sent)
            (sym (s.items_of ∙ ap (λ l. s.full ++ l) none_full ∙ append-nil s.full))
            (subst (λ ys. Merges s.full ys s.sent)
              (sym (s.basis_files ∙ ap (λ l. s.partial ++ l) none_partial ∙ append-nil s.partial))
              s.merged),
        subst (λ b. g.tx ≡ concat s.sent ++ (if b then phases else [])) t s.written,
      )
    where
      begun : Sent items [] true (start permits items)
      begun = record {
        full = [];
        partial = [];
        sent = [];
        merged = merges_nil;
        items_of = refl;
        basis_files = refl;
        written = refl;
        open_now = refl;
        at_end = λ z. not_finished (start permits items) refl z;
      }
