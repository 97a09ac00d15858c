-- ===== src/Library/Open.antt =====
-- host.cpp, get_file_size, app_setup_uring and my_fopen, on the mapping of the rings, the blocks and the
-- submission of Reader, whose code host.cpp repeats. The messages are left out.
pub mod Kept
pub mod Made
pub mod Returned
pub mod Refused
use io_uring_example.Base.{
  ℕ, zero, suc, ◌+◌, ◌-◌, u32, bit_or, bit_and, Bool, true, false, Option, none, some, List, [],
  ◌∷◌, ◌==◌, if◌then◌else◌, replicate, Run, done, fault, ◌>>=◌, ℤ, pos, negsuc, is_neg, to_unsigned,
}
use io_uring_example.Kernel.{
  Params, zero_params, Stat, Sys, setup_sqpoll, setup_sq_aff, sq_need_wakeup, enter_sq_wakeup,
}
use io_uring_example.Reader.{Submitter, Iovc, FileInfo, World, update}
use io_uring_example.Reader.Setup.{queue_depth, map_rings}
use io_uring_example.Reader.Open.{
  count_blocks, sizeof_file_info, sizeof_submitter, sizeof_my_file, file_info_bytes, capacity,
  bytes_to_read, fill_iovecs, submit_readv, Enter,
}
use io_uring_example.Reader.Read.{wait_tail}
use io_uring_example.Library.{Pointer, MyFile, Host, State, allocate, release, close_fd}

-- What fstat does not know is the return of -1; a block device is not asked for its size.
abbrev pub get_file_size : Sys → ℤ → ℤ
get_file_size sys fd = elim (sys.fstat fd) [ none ↦ negsuc 0 | some st ↦ st.st_size ]

abbrev pub setup_params : Params
setup_params = record zero_params {
  flags = bit_or setup_sqpoll setup_sq_aff;
  sq_thread_idle = 20000000;
}

-- `none` is the return of 1.
unfoldable pub app_setup_uring : Sys → Option Submitter
unfolding map_rings
app_setup_uring sys =
    let (ring_fd, p) = sys.io_uring_setup queue_depth setup_params in
    if is_neg ring_fd then none else map_rings sys ring_fd p

-- what the program holds of rings after it; no code gives a ring back, not even after an mmap that failed
abbrev pub ring_fds_after : Sys → List ℤ → List ℤ
ring_fds_after sys ring_fds =
    let (ring_fd, p) = sys.io_uring_setup queue_depth setup_params in
    if is_neg ring_fd then ring_fds else ring_fd ∷ ring_fds

abbrev pub ring_set_up : Sys → State → State
ring_set_up sys st = record st { ring_fds = ring_fds_after sys st.ring_fds }

-- the blocks that posix_memalign gives in the loop of fill_iovecs
abbrev pub aligned_blocks : ℕ → Sys → ℕ → ℕ → ℕ → ℕ
aligned_blocks zero sys block_sz current_block remaining = 0
aligned_blocks (suc fuel) sys block_sz current_block remaining =
    let rest =
      aligned_blocks fuel sys block_sz (u32 (current_block + 1))
        (remaining - bytes_to_read block_sz remaining) in
    if remaining == 0
    then 0
    else elim (sys.memalign current_block) [ none ↦ 0 | some buf ↦ suc rest ]

abbrev pub o_rdonly : ℕ
o_rdonly = 0

abbrev pub o_rdwr : ℕ
o_rdwr = 2

-- (strcmp(mode, "r") == 0) ? O_RDONLY : O_RDWR
unfoldable pub open_flags : List ℕ → ℕ
open_flags (c ∷ []) = if c == 0x72 then o_rdonly else o_rdwr
open_flags mode = o_rdwr

-- open(filename, flags)
abbrev pub open_fd : Host → List ℕ → ℕ → State → ℤ × State
open_fd h filename flags st =
    let fd = h.open_file filename flags in
    (fd, if is_neg fd then st else record st { descriptors = fd ∷ st.descriptors })

-- The wakeup of a kernel thread that sleeps: whether my_fopen goes on, and the memory.
unfoldable pub wake : Enter → World → Submitter → Bool × World
wake enter w ring =
    if bit_and (w.word ring.sq_ring.flags) sq_need_wakeup == 0
    then (true, w)
    else let (ret, w') =
        enter (record w { system_times = w.system_times + 1 }) ring.ring_fd 1 1 enter_sq_wakeup in
      (if is_neg ret then false else true, w')

abbrev pub new_file : ℤ → ℤ → Pointer Submitter → ℕ → MyFile
new_file fd blocks s fi = record {
  fd = fd;
  blocks = blocks;
  current_block = 0;
  isfirst = 0;
  current_offset = 0;
  s = some s;
  fi_read = none;
  fi = some fi;
}

-- my_fopen's results: NULL is `none`
abbrev pub Opened : Type 0
Opened = Run (Option (Pointer MyFile) × State)

-- from "Add our submission queue entry" on: the wait is on `polls` loads of the tail
unfoldable pub submit_and_wait : ℕ → Host → State → Pointer MyFile → Submitter → ℕ → World → Opened
submit_and_wait polls h st mf ring fi w =
    let (awake, w') =
      wake h.enter
        (submit_readv w ring mf.target.fd (fi + sizeof_file_info) (to_unsigned mf.target.blocks) fi)
        ring in
    elim awake [
      | false ↦ done (none, record st { world = w' })
      | true ↦ wait_tail polls h.loads (w'.word ring.cq_ring.head) 0 >>= λ k.
          done (some mf, record st { world = h.serve w' })
    ]

-- what follows the loop over the blocks, which has filled the array or given up
abbrev pub submit_blocks :
    ℕ → Host → State → Pointer MyFile → Submitter → ℕ → ℕ → Option (List (Option Iovc)) → Opened
submit_blocks polls h st mf ring fi file_sz none = done (none, st)
submit_blocks polls h st mf ring fi file_sz (some iovecs) =
    submit_and_wait polls h st mf ring fi (record (st.world) {
      file_info =
          update st.world.file_info fi (some (record { file_sz = file_sz; iovecs = iovecs }));
    })

-- from the allocation of `fi` on
unfoldable pub open_blocks : ℕ → ℕ → Host → State → Pointer Submitter → ℤ → ℕ → ℤ → Opened
open_blocks polls block_sz h st s fd file_sz blocks =
    elim (allocate h (file_info_bytes blocks) st) [
      | none ↦ done (none, st)
      | some (fi, st1) ↦ elim (allocate h sizeof_my_file st1) [
        | none ↦ fault
        | some (address, st2) ↦
            let st3 : State = record st2 {
              aligned = st2.aligned + aligned_blocks (suc file_sz) h.sys block_sz 0 file_sz;
            } in
            fill_iovecs (suc file_sz) h.sys block_sz
              (replicate (capacity (file_info_bytes blocks)) none) 0 file_sz
            >>= submit_blocks polls h st3
                (record { address = address; target = new_file fd blocks s fi }) s.target fi file_sz
      ]
    ]

-- from the size on
unfoldable pub open_registered : ℕ → ℕ → Host → State → Pointer Submitter → ℤ → Opened
open_registered polls block_sz h st s fd = elim (get_file_size h.sys fd) [
  | negsuc n ↦ done (none, st)
  | pos file_sz ↦
      if is_neg (h.register_files s.target.ring_fd fd)
      then (release s.address (close_fd fd st) >>= λ st'. done (none, st'))
      else open_blocks polls block_sz h st s fd file_sz (count_blocks block_sz file_sz)
]

unfoldable pub my_fopen : ℕ → ℕ → Host → State → List ℕ → List ℕ → Opened
my_fopen polls block_sz h st filename mode = elim (allocate h sizeof_submitter st) [
  | none ↦ fault
  | some (a, st0) ↦
      let st1 = ring_set_up h.sys st0 in
      elim (app_setup_uring h.sys) [
        | none ↦ release a st1 >>= λ st2. done (none, st2)
        | some ring ↦
            let (fd, st2) = open_fd h filename (open_flags mode) st1 in
            if is_neg fd
            then done (none, st2)
            else open_registered polls block_sz h st2 (record { address = a; target = ring }) fd
      ]
]
