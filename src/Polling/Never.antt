-- ===== src/Polling/Never.antt =====
-- my_fread of example/polling.c: the requests for the rest of a file are prepared and never submitted.
use io_uring_example.Base.{
  ℕ, zero, suc, ◌+◌, ◌≤◌, ◌<◌, ◌≡◌, refl, sym, ◌∙◌, inl, inr, false, Option, none, some, List, [],
  ◌∷◌, ◌++◌, length, get_elem?, set, All, All-map, All-middle, get_elem?-set_same,
  get_elem?-set_other, arith, done, hang, Bool-cases, lt→ltb, le→leb, ◌==◌, ℤ, pos, negsuc, is_neg,
  u64,
}
use io_uring_example.Kernel.{Sqe, Cqe}
use io_uring_example.Liburing.{Liburing, Answers, Queues}
use io_uring_example.Polling.{
  FileInfo, Poll, buffer_size, buf_address, read_sqe, setup_read, handle, round, my_fread,
}

module _ {M : Type 0} (liburing : Liburing M) (content : ℤ → List ℕ)
    (queues : Queues liburing content) where
  pub setup_read_lem :
      (address i : ℕ) (fi : FileInfo) (m : M) (g : Option (ℕ × M))
      → liburing.get_sqe m ≡ g
      → (queues.submitted (setup_read liburing address i fi m) ≡ queues.submitted m)
        × (liburing.peek_cqe (setup_read liburing address i fi m) ≡ liburing.peek_cqe m)
  unfolding setup_read
  setup_read_lem address i fi m none e = (rw (e, setup_read), rw (e, setup_read))
  setup_read_lem address i fi m (some (slot, m')) e = (
    rw (e, setup_read)
        (queues.on_write slot (read_sqe address i fi) m' ∙ queues.on_get slot m m' e),
    rw (e, setup_read)
        (queues.write_peek slot (read_sqe address i fi) m' ∙ queues.get_peek slot m m' e),
  )

  -- the element has been set
  abbrev pub IsSetAt : List (Option FileInfo) → ℕ → Type 0
  IsSetAt files i = (fi : FileInfo) × (get_elem? files i ≡ some (some fi))

  -- a request for a part of a file that begins before its end
  abbrev pub IsInside : List (Option FileInfo) → Sqe → Type 0
  IsInside files q =
      (q.off < length (content q.fd)) × (q.len ≡ buffer_size) × IsSetAt files q.user_data

  -- There are files to wait for, and no request has reached the end of its file.
  pub record IsWaiting (st : Poll M) : Type 0 where
    pub some_files : 0 < st.num_files
    pub requests : All (IsInside st.files) (queues.submitted st.ring)

  pub set_keeps :
      (files : List (Option FileInfo)) (i j : ℕ) (fi : FileInfo)
      → IsSetAt files j
      → IsSetAt (set files i (some fi)) j
  set_keeps files i j fi (fj, e) = elim (Bool-cases (i == j)) [
    | inl same ↦
        let q : i ≡ j = ground arith in
        (fi, rw q (get_elem?-set_same files j (some fj) (some fi) e))
    | inr other ↦ (fj, get_elem?-set_other files i j (some fi) (λ q. ground (arith, other, q)) ∙ e)
  ]

  -- what `handle` does with bytes of a file
  abbrev pub delivered : Poll M → ℕ → ℕ → FileInfo → Poll M
  delivered st i n fi =
      let fi' : FileInfo = record fi { offset = u64 (fi.offset + n) } in
      record st {
        output = st.output ++ (i, liburing.memory (buf_address st.address i) n st.ring) ∷ [];
        files = set st.files i (some fi');
        ring = setup_read liburing st.address i fi' st.ring;
      }

  pub handle_bytes :
      (st : Poll M) (c : Cqe) (n : ℕ) (fi : FileInfo)
      → c.res ≡ pos n
      → 0 < n
      → n ≤ buffer_size
      → get_elem? st.files c.user_data ≡ some (some fi)
      → handle liburing c st ≡ done (delivered st c.user_data n fi)
  unfolding handle
  handle_bytes st c n fi e h few set_at =
      let z : (n == 0) ≡ false = ground arith in rw (e, handle, z, set_at, le→leb n buffer_size few)

  pos_of : (z : ℤ) → is_neg z ≡ false → (n : ℕ) × (z ≡ pos n)
  pos_of (pos n) e = (n, refl)
  pos_of (negsuc n) e = ground (arith, e)

  -- a completion that is no error carries bytes
  answered :
      (files : List (Option FileInfo)) (m : M) (q : Sqe) (c : Cqe) (n : ℕ)
      → IsInside files q
      → Answers liburing content m q c
      → c.res ≡ pos n
      → (0 < n) × (n ≤ buffer_size)
  answered files m q c zero (off, len, s) a e =
      absurd (omega (arith, a.at_end (omega (arith, len)) e))
  answered files m q c (suc n) (off, len, s) a e =
      (omega arith, omega (arith, len, a.few (suc n) e))

  seen-All :
      (P : Sqe → Type 0) (m : M) (c : Cqe)
      → All P (queues.submitted m)
      → liburing.peek_cqe m ≡ some c
      → All P (queues.submitted (liburing.cqe_seen m))
  seen-All P m c h e =
      let (before, q, after, all, answers, rest) = queues.peeked m c e in
      rw rest ((All-middle P before q after (rw (sym all) h)).1)

  -- the state after a completion with bytes is still one of waiting
  delivered-IsWaiting :
      (st : Poll M) (c : Cqe) (i n : ℕ) (fi : FileInfo)
      → IsWaiting st
      → liburing.peek_cqe st.ring ≡ some c
      → IsWaiting
          (record (delivered st i n fi) { ring = liburing.cqe_seen (delivered st i n fi).ring })
  delivered-IsWaiting st c i n fi w e =
      let fi' : FileInfo = record fi { offset = u64 (fi.offset + n) } in
      let (same, peek) = setup_read_lem st.address i fi' st.ring _ refl in
      let files = set st.files i (some fi') in
      let kept : All (IsInside files) (queues.submitted st.ring) =
        All-map (IsInside st.files) (IsInside files)
          (λ q (off, len, s). (off, len, set_keeps st.files i q.user_data fi' s))
          (queues.submitted st.ring) w.requests in
      record {
        some_files = w.some_files;
        requests =
            seen-All (IsInside files) (setup_read liburing st.address i fi' st.ring) c
              (rw same kept) (peek ∙ e);
      }

  -- A round for a completion ends in waiting for as many files.
  completion-IsWaiting :
      (st : Poll M) (c : Cqe)
      → IsWaiting st
      → liburing.peek_cqe st.ring ≡ some c
      → is_neg c.res ≡ false
      → (st' : Poll M) × (round liburing st ≡ done st') × IsWaiting st'
  unfolding round
  completion-IsWaiting st c w e good =
      let (before, q, after, all, answers, rest) = queues.peeked st.ring c e in
      let ((off, len, (fi, set_at)), others) =
        All-middle (IsInside st.files) before q after (rw (sym all) w.requests) in
      let (n, is_n) = pos_of c.res good in
      let (some_bytes, few) =
        answered st.files st.ring q c n (off, len, (fi, set_at)) answers is_n in
      let handled = handle_bytes st c n fi is_n some_bytes few (rw answers.same set_at) in
      (
        record (delivered st c.user_data n fi) {
          ring = liburing.cqe_seen (delivered st c.user_data n fi).ring;
        },
        rw (e, round, handled),
        delivered-IsWaiting st c c.user_data n fi w e,
      )

  round-IsWaiting :
      (st : Poll M) (p : Option Cqe)
      → IsWaiting st
      → liburing.peek_cqe st.ring ≡ p
      → ((m : M) (c : Cqe) → liburing.peek_cqe m ≡ some c → is_neg c.res ≡ false)
      → (st' : Poll M) × (round liburing st ≡ done st') × IsWaiting st'
  unfolding round
  round-IsWaiting st none w e good = (
    record st { ring = liburing.step st.ring },
    rw (e, round),
    record { some_files = w.some_files; requests = rw (queues.on_step st.ring) w.requests },
  )
  round-IsWaiting st (some c) w e good = completion-IsWaiting st c w e (good st.ring c e)

  -- While there are files to wait for, every request that the kernel has begins before the end of its
  -- file, and no read fails, my_fread does not return, however long it runs.
  pub my_fread-never :
      (fuel : ℕ) (st : Poll M)
      → IsWaiting st
      → ((m : M) (c : Cqe) → liburing.peek_cqe m ≡ some c → is_neg c.res ≡ false)
      → my_fread liburing fuel st ≡ hang
  unfolding my_fread
  my_fread-never zero st w good = rw (lt→ltb 0 st.num_files w.some_files)
  my_fread-never (suc fuel) st w good =
      let (st', ran, w') = round-IsWaiting st _ w refl good in
      rw (lt→ltb 0 st.num_files w.some_files, ran) (my_fread-never fuel st' w' good)
