-- ===== src/Console.antt =====
-- example/omp_io_uring_polling.c: each file is read by one readv through liburing, and printed when its completion
-- is there. The blocks are made as in example/io_uring_read.c and printed as in
-- example/omp_io_uring_manual.c. The messages are left out.
pub mod Request
pub mod Printed
pub mod Stuck
mod Tests
use io_uring_example.Base.{
  ℕ, zero, suc, ◌+◌, ◌-◌, ◌^◌, Bool, true, false, Option, none, some, List, [], ◌∷◌, ◌++◌, ltb,
  length, set, ◌==◌, if◌then◌else◌, replicate, Run, done, fault, hang, ◌>>=◌, ◌>>◌, deref, assert,
  ℤ, pos, negsuc, is_neg, to_size, to_unsigned, same_ℤ, take_out,
}
use io_uring_example.Kernel.{Sys, Cqe}
use io_uring_example.Reader.{Iovc, FileInfo, update}
use io_uring_example.Reader.Setup.{size_of_fd}
use io_uring_example.Reader.Open.{count_blocks, file_info_bytes, capacity, fill_iovecs}
use io_uring_example.Manual.{rounds, print_blocks}

-- The file_info structures by address, the completions that the program has not marked as seen, the oldest first,
-- the files it has open, and what it has printed.
pub record Machine : Type 0 where
  pub info : ℕ → Option FileInfo
  pub queue : List Cqe
  pub descriptors : List ℤ
  pub output : List ℕ

-- What the system does. A readv of a descriptor into so many iovecs of a file_info, from an offset on, gives a
-- result, and leaves bytes in the blocks; its completion is the next one of the queue. io_uring_get_sqe and io_uring_sqring_wait are told how
-- many tries the request has made before.
pub record Calls : Type 0 where
  pub sys : Sys
  pub queue_init : ℤ
  pub get_sqe : ℕ → Option ℕ
  pub sqring_wait : ℕ → ℤ
  pub readv : ℤ → FileInfo → ℕ → ℕ → ℤ × FileInfo
  pub wait_cqe : Machine → ℤ

-- The loop over the blocks for a size of get_file_size, in the array that was allocated. A negative size, which is
-- not tested, makes one block of its size_t.
abbrev pub make_iovecs : Calls → ℕ → ℤ → List (Option Iovc) → Run (Option (List (Option Iovc)))
make_iovecs k block_sz (pos n) iovecs = fill_iovecs (suc n) k.sys block_sz iovecs 0 n
make_iovecs k block_sz (negsuc n) iovecs =
    assert (ltb 0 (length iovecs)) >> elim (k.sys.memalign 0) [
      | none ↦ done none
      | some buf ↦
          done
            (some (set iovecs 0 (some (record { buffer = buf; buffer_size = to_size (negsuc n) }))))
    ]

-- while (!sqe) { … } with sqpoll set, on fuel: `none` is a wait for space that failed
unfoldable pub get_entry : ℕ → Calls → ℕ → Run (Option ℕ)
get_entry zero k try = hang
get_entry (suc fuel) k try = elim (k.get_sqe try) [
  | some sqe ↦ done (some sqe)
  | none ↦ elim (is_neg (k.sqring_wait try)) [
    | true ↦ done none
    | false ↦ get_entry fuel k (try + 1)
  ]
]

-- io_uring_prep_readv(sqe, fd, fi->iovecs, nr_vecs, offset), io_uring_sqe_set_data and io_uring_submit
abbrev pub send_readv : Calls → ℤ → ℕ → FileInfo → ℕ → ℕ → Machine → Machine
send_readv k file_fd fi info nr_vecs offset m =
    let (res, filled) = k.readv file_fd info nr_vecs offset in
    record m {
      info = update m.info fi (some filled);
      queue = m.queue ++ (record { user_data = fi; res = res; flags = 0 }) ∷ [];
    }

abbrev pub close : ℤ → Machine → Machine
close fd m = elim (take_out same_ℤ fd m.descriptors) [
  | none ↦ m
  | some descriptors ↦ record m { descriptors = descriptors }
]

-- from "Get an SQE" on: the status and the machine
unfoldable pub send_request : ℕ → Calls → ℤ → ℕ → FileInfo → ℤ → Machine → Run (ℕ × Machine)
send_request tries k file_fd fi info blocks m = get_entry tries k 0 >>= elim [
  | none ↦ done (1, close file_fd m)
  | some sqe ↦ done (0, send_readv k file_fd fi info (to_unsigned blocks) 0 m)
]

-- submit_read_request(file_path, ring) behind the opening of the file. What malloc returns is not tested.
unfoldable pub request_blocks : ℕ → ℕ → Calls → ℤ → ℤ → Machine → Run (ℕ × Machine)
request_blocks tries block_sz k file_fd file_sz m =
    let blocks = count_blocks block_sz (to_size file_sz) in
    let bytes = file_info_bytes blocks in
    deref (k.sys.alloc bytes) >>= λ fi.
    make_iovecs k block_sz file_sz (replicate (capacity bytes) none) >>= elim [
      | none ↦ done (1, m)
      | some iovecs ↦
          send_request tries k file_fd fi (record { file_sz = to_size file_sz; iovecs = iovecs })
            blocks m
    ]

unfoldable pub submit_read_request : ℕ → ℕ → Calls → List ℕ → Machine → Run (ℕ × Machine)
submit_read_request tries block_sz k file_path m =
    let file_fd = k.sys.open_fd file_path in
    if is_neg file_fd
    then done (1, m)
    else request_blocks tries block_sz k file_fd (size_of_fd k.sys file_fd)
        (record m { descriptors = file_fd ∷ m.descriptors })

-- get_completion_and_print(ring): a completion with an error is not marked as seen.
unfoldable pub get_completion_and_print : ℕ → Calls → Machine → Run (ℕ × Machine)
get_completion_and_print block_sz k m =
    if is_neg (k.wait_cqe m) then done (1, m) else elim m.queue [
      | [] ↦ hang
      | cqe ∷ others ↦
          if is_neg cqe.res
          then done (1, m)
          else (deref (m.info cqe.user_data) >>= λ fi.
              print_blocks (rounds (count_blocks block_sz fi.file_sz)) 0 fi.iovecs m.output
              >>= λ output. done (0, record m { queue = others; output = output }))
    ]

-- for (int i = 1; i < argc; i++) { … }: the exit status. The result of get_completion_and_print is not looked at.
unfoldable pub read_files : ℕ → ℕ → Calls → List (List ℕ) → Machine → Run (ℕ × Machine)
read_files tries block_sz k [] m = done (0, m)
read_files tries block_sz k (name ∷ names) m = submit_read_request tries block_sz k name m >>= λ r.
    let (ret, m1) = r in
    let rest =
      get_completion_and_print block_sz k m1 >>= λ p. read_files tries block_sz k names p.1 in
    if ret == 0 then rest else done (1, m1)

unfoldable pub main : ℕ → ℕ → Calls → List (List ℕ) → Machine → Run (ℕ × Machine)
main tries block_sz k [] m = done (1, m)
main tries block_sz k (name ∷ names) m = elim k.queue_init [
  | pos zero ↦ read_files tries block_sz k (name ∷ names) m
  | _ ↦ done (1, m)
]
