-- ===== src/Polling/Prefix.antt =====
-- my_fopen of example/polling.c, and then any number of rounds of my_fread.
use io_uring_example.Base.{
  ℕ, zero, suc, ◌+◌, ◌≤◌, ◌<◌, ◌≡◌, ◌≢◌, refl, sym, ◌∙◌, inl, inr, Option, none, some, List, [],
  ◌∷◌, append-nil, take, length, get_elem?, set, length-set, replicate, length-replicate, All,
  All-map, get_elem?-set_in, get_elem?-set_other, arith, done, Bool-cases, lt→ltb, ◌==◌, ℤ, is_neg,
}
use io_uring_example.Kernel.{Sqe}
use io_uring_example.Liburing.{Liburing, Queues}
use io_uring_example.Polling.{
  FileInfo, Poll, queue_depth, read_sqe, setup_read, setup_params, round, open_files, my_fopen,
}
use io_uring_example.Polling.Output.{written, Apart, Matches, Matches-set, IsPrinted}
use io_uring_example.Polling.Rounds.{Reach, Reach-IsPrinted, round_returns}

not_set : (n j : ℕ) (fj : FileInfo) → get_elem? (replicate n none) j ≡ some (some fj) → ⊥
not_set zero j fj e = ground (arith, e)
not_set (suc n) zero fj e = ground (arith, e)
not_set (suc n) (suc j) fj e = not_set n j fj e

module _ {M : Type 0} (liburing : Liburing M) (content : ℤ → List ℕ)
    (queues : Queues liburing content) where
  -- what holds before the file with index `i` is opened
  record IsFresh (address : ℕ) (files : List (Option FileInfo)) (i : ℕ) (m : M) : Type 0 where
    pub none_submitted : queues.submitted m ≡ []
    pub requests : All (λ q. Matches address files q × (q.user_data < i)) (queues.prepared m)
    pub apart : Apart (queues.prepared m)
    pub at_start : (j : ℕ) (fj : FileInfo) → get_elem? files j ≡ some (some fj) → fj.offset ≡ 0

  -- the requests before, once another file is set
  older :
      (address : ℕ) (files : List (Option FileInfo)) (i : ℕ) (fi : FileInfo) (q : Sqe)
      → Matches address files q × (q.user_data < i)
      → Matches address (set files i (some fi)) q × (q.user_data < i + 1)
  older address files i fi q (m, lt) =
      (Matches-set address files i fi q (m, omega arith), omega arith)

  set_at_start :
      (files : List (Option FileInfo)) (i : ℕ) (fi : FileInfo)
      → i < length files
      → fi.offset ≡ 0
      → ((j : ℕ) (fj : FileInfo) → get_elem? files j ≡ some (some fj) → fj.offset ≡ 0)
      → (j : ℕ) (fj : FileInfo) → get_elem? (set files i (some fi)) j ≡ some (some fj)
      → fj.offset ≡ 0
  set_at_start files i fi room start h j fj e = elim (Bool-cases (i == j)) [
    | inl same ↦
        let here : i ≡ j = ground (arith, same) in
        let now : get_elem? (set files i (some fi)) j ≡ some (some fi) =
          rw (sym here) (get_elem?-set_in files i (some fi) room) in
        let is_fi : fj ≡ fi = ground (arith, sym e ∙ now) in rw is_fi start
    | inr other ↦
        let d : i ≢ j = ground (arith, other) in
        h j fj (sym (get_elem?-set_other files i j (some fi) d) ∙ e)
  ]

  set-IsFresh :
      (address i : ℕ) (fi : FileInfo) (files : List (Option FileInfo)) (m : M) (g : Option (ℕ × M))
      → liburing.get_sqe m ≡ g
      → i < length files
      → fi.offset ≡ 0
      → IsFresh address files i m
      → IsFresh address (set files i (some fi)) (i + 1) (setup_read liburing address i fi m)
  unfolding setup_read
  set-IsFresh address i fi files m none e room start p =
      rw (e, setup_read)
        (record {
          none_submitted = p.none_submitted;
          requests =
              All-map (λ q. Matches address files q × (q.user_data < i)) _
                (older address files i fi) (queues.prepared m) p.requests;
          apart = p.apart;
          at_start = set_at_start files i fi room start p.at_start;
        })
  set-IsFresh address i fi files m (some (slot, m')) e room start p =
      let (stale, q) = queues.on_prepare slot (read_sqe address i fi) m m' e in
      rw (e, setup_read)
        (record {
          none_submitted =
              queues.on_write slot (read_sqe address i fi) m'
              ∙ queues.on_get slot m m' e
              ∙ p.none_submitted;
          requests = rw q (
            (
              record {
                fi = fi;
                set_at = get_elem?-set_in files i (some fi) room;
                fd = refl;
                off = refl;
                addr = refl;
                len = refl;
                small = omega (arith, start);
              },
              omega arith,
            ),
            All-map (λ q. Matches address files q × (q.user_data < i)) _ (older address files i fi)
                (queues.prepared m) p.requests,
          );
          apart = rw q (
            All-map (λ q. Matches address files q × (q.user_data < i)) (λ p. p.user_data ≢ i)
                (λ r (m, lt). omega arith) (queues.prepared m) p.requests,
            p.apart,
          );
          at_start = set_at_start files i fi room start p.at_start;
        })

  open_files-IsFresh :
      (address : ℕ) (names : List (List ℕ)) (i : ℕ) (files : List (Option FileInfo)) (m : M)
      → i + length names ≤ length files
      → IsFresh address files i m
      → (r : List (Option FileInfo) × M) × (open_files liburing address names i files m ≡ done r)
        × IsFresh address r.0 (i + length names) r.1
  unfolding open_files
  open_files-IsFresh address [] i files m h p =
      let e : i + 0 ≡ i = omega arith in ((files, m), refl, rw e p)
  open_files-IsFresh address (name ∷ names) i files m h p =
      let (fd, m1) = liburing.open_file name m in
      let fi : FileInfo = record { fd = fd; offset = 0 } in
      let e : i + suc (length names) ≡ i + 1 + length names = omega arith in
      let p1 : IsFresh address files i m1 = record {
        none_submitted = queues.open_submitted name m ∙ p.none_submitted;
        requests = rw (queues.open_prepared name m) p.requests;
        apart = rw (queues.open_prepared name m) p.apart;
        at_start = p.at_start;
      } in
      elim (Bool-cases (is_neg fd)) [
        | inl failed ↦
            let skipped : IsFresh address files (i + 1) m1 = record {
              none_submitted = p1.none_submitted;
              requests =
                  All-map (λ q. Matches address files q × (q.user_data < i))
                    (λ q. Matches address files q × (q.user_data < i + 1))
                    (λ q (a, b). (a, omega arith)) (queues.prepared m1) p1.requests;
              apart = p1.apart;
              at_start = p1.at_start;
            } in
            let (r, run, q) =
              open_files-IsFresh address names (i + 1) files m1 (omega arith) skipped in
            (r, rw failed run, rw e q)
        | inr good ↦
            let (r, run, q) =
              open_files-IsFresh address names (i + 1) (set files i (some fi))
                (setup_read liburing address i fi m1) (omega (arith, length-set files i (some fi)))
                (set-IsFresh address i fi files m1 _ refl (omega arith) refl p1) in
            (r, rw (good, lt→ltb i (length files) (omega arith)) run, rw e q)
      ]

  -- Given one to sixteen names and a ring that could be made and is empty: my_fopen returns, and after any number
  -- of rounds of my_fread, in whatever order the completions come, errors and short reads among them, the next
  -- round runs through, and what has been written of each file that was opened is exactly the beginning of
  -- that file, up to the offset that my_fread keeps for it.
  pub my_fopen-written :
      (address : ℕ) (name : List ℕ) (names : List (List ℕ)) (m m1 : M)
      → length (name ∷ names) ≤ queue_depth
      → liburing.queue_init queue_depth setup_params m ≡ some m1
      → queues.submitted m1 ≡ []
      → queues.prepared m1 ≡ []
      → (st0 : Poll M) × (my_fopen liburing address (name ∷ names) m ≡ done (some st0))
        × ((st : Poll M)
            → Reach liburing content queues st0 st
            → ((st' : Poll M) × (round liburing st ≡ done st'))
              × ((i : ℕ) (fi : FileInfo)
                  → get_elem? st.files i ≡ some (some fi)
                  → written i st.output ≡ take fi.offset (content fi.fd)))
  unfolding my_fopen
  my_fopen-written address name names m m1 few made fresh new =
      let start : IsFresh address (replicate queue_depth none) 0 m1 = record {
        none_submitted = fresh;
        requests = rw new tt;
        apart = rw new tt;
        at_start = λ j fj e. absurd (not_set queue_depth j fj e);
      } in
      let (r, run, p) =
        open_files-IsFresh address (name ∷ names) 0 (replicate queue_depth none) m1
          (omega (arith, length-replicate {A = Option FileInfo} queue_depth none)) start in
      let all : queues.submitted (liburing.submit r.1) ≡ queues.prepared r.1 =
        queues.on_submit r.1 ∙ rw p.none_submitted (append-nil (queues.prepared r.1)) in
      let st0 : Poll M = record {
        address = address;
        files = r.0;
        num_files = length (name ∷ names);
        output = [];
        ring = liburing.submit r.1;
      } in
      let printed : IsPrinted liburing content queues st0 = record {
        requests = rw all (
            All-map (λ q. Matches address r.0 q × (q.user_data < 0 + length (name ∷ names)))
              (Matches address r.0) (λ q h. h.0) (queues.prepared r.1) p.requests);
        apart = rw all p.apart;
        printed = λ i fi e. rw (p.at_start i fi e);
      } in
      (
        st0,
        rw (made, my_fopen, run),
        λ st reached.
            let now = Reach-IsPrinted liburing content queues printed reached in
            (round_returns liburing content queues st now, now.printed),
      )
