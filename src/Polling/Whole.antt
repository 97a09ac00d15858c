-- ===== src/Polling/Whole.antt =====
-- example/polling.c as a whole: my_fopen and then my_fread.
use io_uring_example.Base.{
  ℕ, ◌+◌, ◌≤◌, ◌<◌, ◌≡◌, refl, ◌∙◌, inl, inr, false, Option, none, some, List, [], ◌∷◌, append-nil,
  length, set, length-set, replicate, length-replicate, All, All-map, get_elem?-set_in, arith, done,
  hang, Bool-cases, lt→ltb, ℤ, is_neg,
}
use io_uring_example.Kernel.{Sqe, Cqe}
use io_uring_example.Liburing.{Liburing, Queues}
use io_uring_example.Polling.{
  FileInfo, Poll, queue_depth, read_sqe, setup_read, setup_params, open_files, my_fopen, main,
}
use io_uring_example.Polling.Never.{IsInside, IsWaiting, set_keeps, setup_read_lem, my_fread-never}

module _ {M : Type 0} (liburing : Liburing M) (content : ℤ → List ℕ)
    (queues : Queues liburing content) where
  -- what holds of the ring between two opens
  pub record IsPrepared (files : List (Option FileInfo)) (m : M) : Type 0 where
    pub none_submitted : queues.submitted m ≡ []
    pub requests : All (IsInside liburing content queues files) (queues.prepared m)

  prepared_lem :
      (address i : ℕ) (fi : FileInfo) (m : M) (g : Option (ℕ × M)) (P : Sqe → Type 0)
      → liburing.get_sqe m ≡ g
      → ((stale : Sqe) → P (read_sqe address i fi stale))
      → All P (queues.prepared m)
      → All P (queues.prepared (setup_read liburing address i fi m))
  unfolding setup_read
  prepared_lem address i fi m none P e new h = rw (e, setup_read) h
  prepared_lem address i fi m (some (slot, m')) P e new h =
      let (stale, q) = queues.on_prepare slot (read_sqe address i fi) m m' e in
      rw (e, setup_read, q) (new stale, h)

  set-IsPrepared :
      (address i : ℕ) (fi : FileInfo) (files : List (Option FileInfo)) (m : M)
      → i < length files
      → fi.offset < length (content fi.fd)
      → IsPrepared files m
      → IsPrepared (set files i (some fi)) (setup_read liburing address i fi m)
  set-IsPrepared address i fi files m small inside p =
      let P = IsInside liburing content queues (set files i (some fi)) in
      record {
        none_submitted =
            (setup_read_lem liburing content queues address i fi m _ refl).0 ∙ p.none_submitted;
        requests =
            prepared_lem address i fi m _ P refl
              (λ stale. (inside, refl, (fi, get_elem?-set_in files i (some fi) small)))
              (All-map (IsInside liburing content queues files) P
                (λ q (off, len, s).
                  (off, len, set_keeps liburing content queues files i q.user_data fi s))
                (queues.prepared m) p.requests);
      }

  -- every file that can be opened has a byte
  abbrev pub AreFilled : Type 0
  AreFilled =
      (name : List ℕ) (m : M)
      → is_neg (liburing.open_file name m).0 ≡ false
      → 0 < length (content (liburing.open_file name m).0)

  open_files-IsPrepared :
      (filled : AreFilled) (address : ℕ) (names : List (List ℕ)) (i : ℕ)
      (files : List (Option FileInfo)) (m : M)
      → i + length names ≤ length files
      → IsPrepared files m
      → (r : List (Option FileInfo) × M) × (open_files liburing address names i files m ≡ done r)
        × IsPrepared r.0 r.1
  unfolding open_files
  open_files-IsPrepared filled address [] i files m h p = ((files, m), refl, p)
  open_files-IsPrepared filled address (name ∷ names) i files m h p =
      let (fd, m1) = liburing.open_file name m in
      let fi : FileInfo = record { fd = fd; offset = 0 } in
      let p1 : IsPrepared files m1 = record {
        none_submitted = queues.open_submitted name m ∙ p.none_submitted;
        requests = rw (queues.open_prepared name m) p.requests;
      } in
      elim (Bool-cases (is_neg fd)) [
        | inl failed ↦
            let (r, run, q) =
              open_files-IsPrepared filled address names (i + 1) files m1 (omega arith) p1 in
            (r, rw failed run, q)
        | inr good ↦
            let (r, run, q) =
              open_files-IsPrepared filled address names (i + 1) (set files i (some fi))
                (setup_read liburing address i fi m1) (omega (arith, length-set files i (some fi)))
                (set-IsPrepared address i fi files m1 (omega arith) (filled name m good) p1) in
            (r, rw (good, lt→ltb i (length files) (omega arith)) run, q)
      ]

  my_fopen-IsWaiting :
      (address : ℕ) (name : List ℕ) (names : List (List ℕ)) (m m1 : M)
      → length (name ∷ names) ≤ queue_depth
      → liburing.queue_init queue_depth setup_params m ≡ some m1
      → queues.submitted m1 ≡ []
      → queues.prepared m1 ≡ []
      → AreFilled
      → (st : Poll M) × (my_fopen liburing address (name ∷ names) m ≡ done (some st))
        × IsWaiting liburing content queues st
  unfolding my_fopen
  my_fopen-IsWaiting address name names m m1 few made fresh new filled =
      let start : IsPrepared (replicate queue_depth none) m1 = record {
        none_submitted = fresh;
        requests = rw new tt;
      } in
      let (r, run, p) =
        open_files-IsPrepared filled address (name ∷ names) 0 (replicate queue_depth none) m1
          (omega (arith, length-replicate {A = Option FileInfo} queue_depth none)) start in
      let all : queues.submitted (liburing.submit r.1) ≡ queues.prepared r.1 =
        queues.on_submit r.1 ∙ rw p.none_submitted (append-nil (queues.prepared r.1)) in
      (
        record {
          address = address;
          files = r.0;
          num_files = length (name ∷ names);
          output = [];
          ring = liburing.submit r.1;
        },
        rw (made, my_fopen, run),
        record { some_files = omega arith; requests = rw all p.requests },
      )

  -- Given one to sixteen names, a ring that could be made and is empty, files that have a byte each
  -- where they can be opened, and reads that do not fail, the program does not end, however
  -- long it runs.
  pub main-never :
      (fuel address : ℕ) (name : List ℕ) (names : List (List ℕ)) (m m1 : M)
      → length (name ∷ names) ≤ queue_depth
      → liburing.queue_init queue_depth setup_params m ≡ some m1
      → queues.submitted m1 ≡ []
      → queues.prepared m1 ≡ []
      → AreFilled
      → ((m' : M) (c : Cqe) → liburing.peek_cqe m' ≡ some c → is_neg c.res ≡ false)
      → main liburing fuel address (name ∷ names) m ≡ hang
  unfolding main
  main-never fuel address name names m m1 few made fresh new filled good =
      let (st, opened, w) = my_fopen-IsWaiting address name names m m1 few made fresh new filled in
      rw (opened, main, my_fread-never liburing content queues fuel st w good)
