-- ===== src/Reader/Open.antt =====
-- example/io_uring_read.c, my_fopen: the ring, the file, its blocks, and the readv that is put on the
-- submission queue. The messages and the release of memory on the error paths are left out.
pub mod Blocks
pub mod Fill
pub mod Submit
pub mod Queue
pub mod Requests
pub mod Opened
use io_uring_example.Base.{
  ℕ, zero, suc, ◌+◌, ◌-◌, ◌*◌, ◌/◌, ◌%◌, ◌^◌, bit_and, Bool, true, false, not, Option, none, some,
  List, ltb, ◌==◌, if◌then◌else◌, length, set, replicate, Run, done, fault, hang, ◌>>=◌, ◌>>◌,
  deref, assert, u32, u64, ℤ, pos, negsuc, is_neg, suc_ℤ, to_int, to_unsigned, to_size, div_int,
}
use io_uring_example.Kernel.{
  Sys, Sqe, sizeof_unsigned, sizeof_sqe, sizeof_iovec, op_readv, sq_need_wakeup, enter_sq_wakeup,
}
use io_uring_example.Reader.{AppIoSqRing, Submitter, Iovc, FileInfo, MyFile, World, update}
use io_uring_example.Reader.Setup.{get_file_size, app_setup_uring}

-- int blocks = (int)file_sz / BLOCK_SZ; if (file_sz % BLOCK_SZ) blocks++;
unfoldable pub count_blocks : ℕ → ℕ → ℤ
count_blocks block_sz file_sz =
    let blocks = div_int (to_int file_sz) block_sz in
    if file_sz % block_sz == 0 then blocks else suc_ℤ blocks

abbrev pub sizeof_file_info : ℕ
sizeof_file_info = 8

abbrev pub sizeof_submitter : ℕ
sizeof_submitter = 104

abbrev pub sizeof_my_file : ℕ
sizeof_my_file = 56

-- sizeof(*fi) + sizeof(struct iovec) * blocks, and the entries for which that has room
unfoldable pub file_info_bytes : ℤ → ℕ
file_info_bytes blocks = u64 (sizeof_file_info + sizeof_iovec * to_size blocks)

abbrev pub capacity : ℕ → ℕ
capacity bytes = (bytes - sizeof_file_info) / sizeof_iovec

-- the bytes of the next block
abbrev pub bytes_to_read : ℕ → ℕ → ℕ
bytes_to_read block_sz remaining = if ltb block_sz remaining then block_sz else remaining

-- while (bytes_remaining) { … } on fuel: each round sets one entry of the array. `none` is the return
-- after a posix_memalign that failed.
unfoldable pub fill_iovecs :
    ℕ → Sys → ℕ → List (Option Iovc) → ℕ → ℕ → Run (Option (List (Option Iovc)))
fill_iovecs zero sys block_sz iovecs current_block remaining = hang
fill_iovecs (suc fuel) sys block_sz iovecs current_block remaining = elim (remaining == 0) [
  | true ↦ done (some iovecs)
  | false ↦ assert (ltb current_block (length iovecs)) >> elim (sys.memalign current_block) [
    | none ↦ done none
    | some buf ↦
        fill_iovecs fuel sys block_sz
          (set iovecs current_block
            (some (record { buffer = buf; buffer_size = bytes_to_read block_sz remaining })))
          (u32 (current_block + 1)) (remaining - bytes_to_read block_sz remaining)
  ]
]

-- the slot that the tail stands at
abbrev pub sq_index : World → AppIoSqRing → ℕ
sq_index w sring = bit_and (w.word sring.tail) (w.word sring.ring_mask)

abbrev pub slot_address : World → Submitter → ℕ
slot_address w s = s.sqes + sq_index w s.sq_ring * sizeof_sqe

-- "Add our submission queue entry to the tail of the SQE ring buffer"
unfoldable pub submit_readv : World → Submitter → ℤ → ℕ → ℕ → ℕ → World
submit_readv w s fd addr len user_data =
    let next_tail = u32 (w.word s.sq_ring.tail + 1) in
    let index = sq_index w s.sq_ring in
    let sqe = slot_address w s in
    let written : World = record w {
      sqe = update w.sqe sqe (record (w.sqe sqe) {
        fd = fd;
        flags = 0;
        opcode = op_readv;
        addr = addr;
        len = len;
        off = 0;
        user_data = user_data;
      });
      word = update w.word (s.sq_ring.array + index * sizeof_unsigned) index;
    } in
    if written.word s.sq_ring.tail == next_tail
    then written
    else record written { word = update written.word s.sq_ring.tail next_tail }

-- io_uring_enter(fd, to_submit, min_complete, flags): its result, and the memory after it
abbrev pub Enter : Type 0
Enter = World → ℤ → ℕ → ℕ → ℕ → ℤ × World

-- The wakeup of a kernel thread that sleeps; `none` is the return after an error.
unfoldable pub wake_kernel : Enter → World → Submitter → Option World
wake_kernel enter w s =
    if bit_and (w.word s.sq_ring.flags) sq_need_wakeup == 0
    then some w
    else let (ret, w') =
        enter (record w { system_times = w.system_times + 1 }) s.ring_fd 1 1 enter_sq_wakeup in
      if is_neg ret then none else some w'

abbrev pub new_file : ℕ → Submitter → ℕ → ℤ → MyFile
new_file fp s fi blocks = record {
  fp = fp;
  blocks = blocks;
  current_block = 0;
  isfirst = 0;
  current_offset = 0;
  s = s;
  fi_read = none;
  fi = fi;
}

-- the end of my_fopen, from the submission on, with the array that the loop has filled
unfoldable pub submit_file :
    Enter → World → Submitter → ℕ → ℤ → ℕ → ℤ → ℕ → List (Option Iovc) → Option (MyFile × World)
submit_file enter w s fp fd file_sz blocks fi iovecs =
    let stored : World = record w {
      file_info = update w.file_info fi (some (record { file_sz = file_sz; iovecs = iovecs }));
    } in
    elim (wake_kernel enter
      (submit_readv stored s fd (fi + sizeof_file_info) (to_unsigned blocks) fi) s) [
        | none ↦ none
        | some w' ↦ some (new_file fp s fi blocks, w')
      ]

-- my_fopen from the allocation of `fi` on
unfoldable pub open_blocks :
    ℕ → Sys → Enter → World → Submitter → ℕ → ℤ → ℕ → ℤ → Run (Option (MyFile × World))
open_blocks block_sz sys enter w s fp fd file_sz blocks =
    elim (sys.alloc (file_info_bytes blocks)) [
      | none ↦ done none
      | some fi ↦ deref (sys.alloc sizeof_my_file) >>= λ _.
          fill_iovecs (suc file_sz) sys block_sz
            (replicate (capacity (file_info_bytes blocks)) none) 0 file_sz
          >>= elim [
            | none ↦ done none
            | some iovecs ↦ done (submit_file enter w s fp fd file_sz blocks fi iovecs)
          ]
    ]

-- my_fopen(filename, mode); `none` is NULL. What omp_alloc returns for the submitter is not tested.
unfoldable pub my_fopen : ℕ → Sys → Enter → World → List ℕ → List ℕ → Run (Option (MyFile × World))
my_fopen block_sz sys enter w filename mode = deref (sys.alloc sizeof_submitter) >>= λ _.
    elim (app_setup_uring sys) [
      | none ↦ done none
      | some s ↦ elim (sys.fopen filename mode) [
        | none ↦ done none
        | some fp ↦ if is_neg (sys.fileno fp) then done none else elim (get_file_size sys fp) [
          | negsuc n ↦ done none
          | pos file_sz ↦
              open_blocks block_sz sys enter w s fp (sys.fileno fp) file_sz
                (count_blocks block_sz file_sz)
        ]
      ]
    ]
