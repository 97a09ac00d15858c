-- ===== src/Manual.antt =====
-- example/omp_io_uring_manual.c: the rings of the reader with a function that submits a readv for a file,
-- one that prints what the completions are of, and one that submits a write. The output is what
-- output_to_console is given; the messages on the standard output are left out.
pub mod Reap
pub mod Submit
pub mod Requests
pub mod Rounds
pub mod Program
pub mod Demo
mod Tests
use io_uring_example.Base.{
  ℕ, zero, suc, ◌+◌, ◌*◌, bit_and, Bool, true, false, Option, none, some, List, [], ◌∷◌, ◌++◌,
  replicate, length, get_elem?, take, leb, ◌==◌, if◌then◌else◌, Run, done, fault, hang, ◌>>=◌, ◌>>◌,
  deref, assert, u32, ℤ, pos, negsuc, is_neg, to_unsigned, to_size,
}
use io_uring_example.Kernel.{
  Sqe, Cqe, Params, Sys, zero_params, sizeof_cqe, op_writev, setup_sqpoll, enter_getevents,
  enter_sq_wakeup,
}
use io_uring_example.Reader.{AppIoCqRing, Submitter, Iovc, FileInfo, World, update}
use io_uring_example.Reader.Setup.{size_of_fd, map_rings}
use io_uring_example.Reader.Open.{
  sizeof_submitter, count_blocks, file_info_bytes, capacity, fill_iovecs, sq_index, slot_address,
  submit_readv, Enter, sizeof_file_info, sizeof_submitter,
}

-- QUEUE_DEPTH
abbrev pub queue_depth : ℕ
queue_depth = 1

-- get_file_size(file_descriptor)
abbrev pub get_file_size : Sys → ℤ → ℤ
get_file_size sys file_descriptor = size_of_fd sys file_descriptor

abbrev pub setup_params : Params
setup_params = record zero_params { flags = setup_sqpoll; sq_thread_idle = 1000 }

-- app_setup_uring(s); `none` is the return of 1
unfoldable pub app_setup_uring : Sys → Option Submitter
app_setup_uring sys =
    let (ring_fd, p) = sys.io_uring_setup queue_depth setup_params in
    if is_neg ring_fd then none else map_rings sys ring_fd p

-- the rounds of `for (int i = 0; i < blocks; i++)`
abbrev pub rounds : ℤ → ℕ
rounds (pos n) = n
rounds (negsuc n) = 0

-- the loop over output_to_console(fi->iovecs[i].iov_base, fi->iovecs[i].iov_len), from i on
unfoldable pub print_blocks : ℕ → ℕ → List (Option Iovc) → List ℕ → Run (List ℕ)
print_blocks zero i iovecs output = done output
print_blocks (suc left) i iovecs output = do
  slot ← deref (get_elem? iovecs i)
  iov ← deref slot
  assert (leb iov.buffer_size (length iov.buffer))
  print_blocks left (i + 1) iovecs (output ++ take iov.buffer_size iov.buffer)

-- &cring->cqes[head & *cring->ring_mask]
abbrev pub cqe_at : World → AppIoCqRing → ℕ → Cqe
cqe_at w cring head = w.cqe (cring.cqes + bit_and head (w.word cring.ring_mask) * sizeof_cqe)

-- do { … } while (1) of read_from_cq on fuel, with the value of each load of the shared tail. A
-- completion with an error is reported, and then treated as any other.
unfoldable pub reap_loop : ℕ → ℕ → World → AppIoCqRing → (ℕ → ℕ) → ℕ → ℕ → List ℕ → Run (ℕ × List ℕ)
reap_loop zero block_sz w cring loads k head output = hang
reap_loop (suc fuel) block_sz w cring loads k head output =
    let next = deref (w.file_info (cqe_at w cring head).user_data) >>= λ fi.
    print_blocks (rounds (count_blocks block_sz fi.file_sz)) 0 fi.iovecs output >>= λ output'.
    reap_loop fuel block_sz w cring loads (k + 1) (u32 (head + 1)) output' in
    if head == loads k then done (head, output) else next

-- read_from_cq(s): what is printed, and the memory with the new head. The first load of the tail only
-- decides on a message.
unfoldable pub read_from_cq : ℕ → ℕ → World → Submitter → (ℕ → ℕ) → Run (List ℕ × World)
read_from_cq fuel block_sz w s loads =
    reap_loop fuel block_sz w s.cq_ring loads 1 (w.word s.cq_ring.head) [] >>= λ r.
    done (r.1, record w { word = update w.word s.cq_ring.head r.0 })

-- The stores of submit_write_request. The index array of the queue is left as it is.
unfoldable pub submit_writev : World → Submitter → ℤ → ℕ → World
submit_writev w s file_fd iov =
    let sqe = slot_address w s in
    record w {
      sqe = update w.sqe sqe (record (w.sqe sqe) {
        fd = file_fd;
        opcode = op_writev;
        flags = 0;
        off = 0;
        addr = iov;
        len = 1;
        user_data = to_size file_fd;
      });
      word = update w.word s.sq_ring.tail (u32 (w.word s.sq_ring.tail + 1));
    }

-- submit_write_request(file_path, data, data_size, s) with the address of its iovec; `none` is the
-- return of 1
unfoldable pub submit_write_request : Sys → Enter → World → Submitter → List ℕ → ℕ → Option World
submit_write_request sys enter w s file_path iov =
    let file_fd = sys.open_fd file_path in
    let (ret, w') = enter (submit_writev w s file_fd iov) s.ring_fd 1 1 enter_getevents in
    if is_neg file_fd then none else if is_neg ret then none else some w'

-- the end of submit_to_sq, from the submission on
unfoldable pub submit_blocks :
    Enter → World → Submitter → ℤ → ℕ → ℤ → ℕ → List (Option Iovc) → Option World
submit_blocks enter w s file_fd file_sz blocks fi iovecs =
    let stored : World = record w {
      file_info = update w.file_info fi (some (record { file_sz = file_sz; iovecs = iovecs }));
    } in
    let (ret, w') =
      enter (submit_readv stored s file_fd (fi + sizeof_file_info) (to_unsigned blocks) fi)
        s.ring_fd 1 0 enter_sq_wakeup in
    if is_neg ret then none else some w'

-- submit_to_sq(file_path, s); `none` is the return of 1
unfoldable pub submit_to_sq : ℕ → Sys → Enter → World → Submitter → List ℕ → Run (Option World)
submit_to_sq block_sz sys enter w s file_path =
    if is_neg (sys.open_fd file_path)
    then done none
    else elim (get_file_size sys (sys.open_fd file_path)) [
      | negsuc n ↦ done none
      | pos file_sz ↦ elim (sys.alloc (file_info_bytes (count_blocks block_sz file_sz))) [
        | none ↦ done none
        | some fi ↦
            fill_iovecs (suc file_sz) sys block_sz
              (replicate (capacity (file_info_bytes (count_blocks block_sz file_sz))) none) 0
              file_sz
            >>= elim [
              | none ↦ done none
              | some iovecs ↦ done (
                  submit_blocks enter w s (sys.open_fd file_path) file_sz
                    (count_blocks block_sz file_sz) fi iovecs)
            ]
      ]
    ]

-- The loop of main over the files: the exit status, and what was printed. The kernel works while the
-- program sleeps (`serve i`).
unfoldable pub read_files :
    ℕ
    → ℕ
    → Sys
    → Enter
    → (ℕ → World → World)
    → (ℕ → ℕ → ℕ)
    → ℕ
    → List (List ℕ)
    → Submitter
    → World
    → List ℕ
    → Run (ℕ × List ℕ)
read_files fuel block_sz sys enter serve loads i [] s w output = done (0, output)
read_files fuel block_sz sys enter serve loads i (name ∷ names) s w output =
    submit_to_sq block_sz sys enter w s name >>= elim [
      | none ↦ done (1, output)
      | some w1 ↦ read_from_cq fuel block_sz (serve i w1) s (loads i) >>= λ r.
          read_files fuel block_sz sys enter serve loads (i + 1) names s r.1 (output ++ r.0)
    ]

-- main after the ring has been set up, for the command that was typed
unfoldable pub run_command :
    ℕ
    → ℕ
    → Sys
    → Enter
    → (ℕ → World → World)
    → (ℕ → ℕ → ℕ)
    → ℕ
    → ℤ
    → List (List ℕ)
    → Submitter
    → World
    → Run (ℕ × List ℕ)
run_command fuel block_sz sys enter serve loads iov user_command [] s w = done (1, [])
run_command fuel block_sz sys enter serve loads iov (negsuc n) (name ∷ names) s w = done (1, [])
run_command fuel block_sz sys enter serve loads iov (pos n) (name ∷ names) s w =
    let written : ℕ = elim (submit_write_request sys enter w s name iov) [
      | none ↦ 1
      | some w' ↦ 0
    ] in
    let printed = read_files fuel block_sz sys enter serve loads 0 (name ∷ names) s w [] in
    if n == 1 then done (written, []) else if n == 2 then printed else done (1, [])

-- main for the names argv[1], … and the command that scanf reads
unfoldable pub main :
    ℕ
    → ℕ
    → Sys
    → Enter
    → (ℕ → World → World)
    → (ℕ → ℕ → ℕ)
    → ℕ
    → ℤ
    → List (List ℕ)
    → World
    → Run (ℕ × List ℕ)
main fuel block_sz sys enter serve loads iov user_command [] w = done (1, [])
main fuel block_sz sys enter serve loads iov user_command (name ∷ names) w =
    elim (sys.alloc sizeof_submitter) [
      | none ↦ done (1, [])
      | some uring_submitter ↦ elim (app_setup_uring sys) [
        | none ↦ done (1, [])
        | some s ↦
            run_command fuel block_sz sys enter serve loads iov user_command (name ∷ names) s w
      ]
    ]
