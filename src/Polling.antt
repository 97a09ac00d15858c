-- ===== src/Polling.antt =====
-- example/polling.c: several files, each read by requests of its own, and one loop over the completions.
pub mod Never
pub mod Whole
pub mod Close
pub mod Output
pub mod Rounds
pub mod Prefix
mod Tests
use io_uring_example.Base.{
  ℕ, zero, suc, ◌+◌, ◌-◌, ◌*◌, ◌≤◌, ◌≡◌, Bool, true, false, Option, none, some, List, [], ◌∷◌, ◌++◌,
  length, get_elem?, replicate, bit_or, set, ltb, leb, ◌==◌, if◌then◌else◌, Run, done, fault, hang,
  ◌>>=◌, ◌>>◌, deref, assert, ℤ, pos, negsuc, is_neg, is_minus_one, u64,
}
use io_uring_example.Kernel.{Sqe, Cqe, Params, zero_params, op_read, setup_sqpoll}
use io_uring_example.Liburing.{Liburing}

-- BUFFER_SIZE and QUEUE_DEPTH
abbrev pub buffer_size : ℕ
buffer_size = 4096

abbrev pub queue_depth : ℕ
queue_depth = 16

-- struct file_info, less `buf`, which is a part of the machine's memory
pub record FileInfo : Type 0 where
  pub fd : ℤ
  pub offset : ℕ

-- sizeof(struct file_info), and the offset of its `buf`
abbrev pub sizeof_file_info : ℕ
sizeof_file_info = 4112

abbrev pub offset_of_buf : ℕ
offset_of_buf = 16

-- files[i].buf
abbrev pub buf_address : ℕ → ℕ → ℕ
buf_address files i = files + i * sizeof_file_info + offset_of_buf

-- The array `files` with its address, where `none` is an element that was never set, the number of
-- files, the writes to the standard output, each with the index of the file it is of, and the ring.
pub record Poll (M : Type 0) : Type 0 where
  pub address : ℕ
  pub files : List (Option FileInfo)
  pub num_files : ℕ
  pub output : List (ℕ × List ℕ)
  pub ring : M

-- the stores of setup_read to the entry
abbrev pub read_sqe : ℕ → ℕ → FileInfo → Sqe → Sqe
read_sqe address i fi sqe = record sqe {
  opcode = op_read;
  flags = 0;
  ioprio = 0;
  fd = fi.fd;
  off = fi.offset;
  addr = buf_address address i;
  len = buffer_size;
  rw_flags = 0;
  buf_index = 0;
  personality = 0;
  file_index = 0;
  pad2_0 = 0;
  user_data = i;
}

-- the parameters of the ring
abbrev pub setup_params : Params
setup_params = record zero_params {
  flags = bit_or zero_params.flags setup_sqpoll;
  sq_thread_idle = 1000;
}

module _ {M : Type 0} (liburing : Liburing M) where
  -- setup_read(ring, &files[i], files)
  unfoldable pub setup_read : ℕ → ℕ → FileInfo → M → M
  setup_read address i fi ring = elim (liburing.get_sqe ring) [
    | none ↦ ring
    | some (slot, ring') ↦ liburing.write_sqe slot (read_sqe address i fi) ring'
  ]

  -- The part of my_fread's loop for one completion, up to io_uring_cqe_seen: the if over `res`. The loop
  -- is entered with a positive number of files.
  unfoldable pub handle : Cqe → Poll M → Run (Poll M)
  handle cqe st = elim cqe.res [
    | negsuc n ↦ done (record st { num_files = st.num_files - 1 })
    | pos n ↦ if n == 0 then done (record st { num_files = st.num_files - 1 }) else do
      element ← deref (get_elem? st.files cqe.user_data)
      fi ← deref element
      assert (leb n buffer_size)
      let fi' : FileInfo = record fi { offset = u64 (fi.offset + n) }
      done (record st {
        output =
            st.output
            ++ (cqe.user_data, liburing.memory (buf_address st.address cqe.user_data) n st.ring)
              ∷ [];
        files = set st.files cqe.user_data (some fi');
        ring = setup_read st.address cqe.user_data fi' st.ring;
      })
  ]

  -- one round: a completion, or a sleep
  unfoldable pub round : Poll M → Run (Poll M)
  round st = elim (liburing.peek_cqe st.ring) [
    | none ↦ done (record st { ring = liburing.step st.ring })
    | some cqe ↦ handle cqe st >>= λ st'. done (record st' { ring = liburing.cqe_seen st'.ring })
  ]

  -- my_fread(ring, files, &num_files) on fuel
  unfoldable pub my_fread : ℕ → Poll M → Run (Poll M)
  my_fread zero st = if ltb 0 st.num_files then hang else done st
  my_fread (suc fuel) st =
      let rest = round st >>= λ st'. my_fread fuel st' in
      if ltb 0 st.num_files then rest else done st

  -- the loop of my_fopen over the names argv[i], …
  unfoldable pub open_files :
      ℕ → List (List ℕ) → ℕ → List (Option FileInfo) → M → Run (List (Option FileInfo) × M)
  open_files address [] i files ring = done (files, ring)
  open_files address (name ∷ names) i files ring =
      let (fd, ring1) = liburing.open_file name ring in
      let fi : FileInfo = record { fd = fd; offset = 0 } in
      let skipped = open_files address names (i + 1) files ring1 in
      let opened =
        open_files address names (i + 1) (set files i (some fi)) (setup_read address i fi ring1) in
      if is_neg fd then skipped else assert (ltb i (length files)) >> opened

  -- my_fopen(argc, argv, ring, files) for the names argv[1], …: `none` is the result -1
  unfoldable pub my_fopen : ℕ → List (List ℕ) → M → Run (Option (Poll M))
  my_fopen address [] ring = done none
  my_fopen address (name ∷ names) ring = elim (liburing.queue_init queue_depth setup_params ring) [
    | none ↦ done none
    | some ring1 ↦
        open_files address (name ∷ names) 0 (replicate queue_depth none) ring1 >>= λ (files, ring2).
        done (
          some (record {
            address = address;
            files = files;
            num_files = length (name ∷ names);
            output = [];
            ring = liburing.submit ring2;
          }))
  ]

  -- the loop of my_close over files[i], …, files[num_files - 1]
  unfoldable pub close_files : ℕ → ℕ → List (Option FileInfo) → M → Run M
  close_files zero i files ring = done ring
  close_files (suc left) i files ring = do
    element ← deref (get_elem? files i)
    fi ← deref element
    close_files left (i + 1) files (if is_minus_one fi.fd then ring else liburing.close fi.fd ring)

  -- my_close(ring, files, num_files)
  unfoldable pub my_close : Poll M → Run M
  my_close st =
      close_files st.num_files 0 st.files st.ring >>= λ ring. done (liburing.queue_exit ring)

  -- main: the writes and the machine after it
  unfoldable pub main : ℕ → ℕ → List (List ℕ) → M → Run (List (ℕ × List ℕ) × M)
  main fuel address names ring = my_fopen address names ring >>= λ opened. elim opened [
    | none ↦ done ([], ring)
    | some st ↦ do st' ← my_fread fuel st; ring' ← my_close st'; done (st'.output, ring')
  ]
