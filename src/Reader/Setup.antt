-- ===== src/Reader/Setup.antt =====
-- example/io_uring_read.c, get_file_size and app_setup_uring. The messages of perror are left out.
pub mod Mapped
use io_uring_example.Base.{
  ℕ, ◌+◌, ◌*◌, ◌^◌, bit_or, bit_and, Bool, true, false, not, ◌&&◌, ◌||◌, Option, none, some, ◌==◌,
  if◌then◌else◌, ℤ, pos, negsuc, is_neg, is_minus_one, ltb_ℤ, to_int, to_off, to_size, u32, u64,
}
use io_uring_example.Kernel.{
  Params, SqOffsets, CqOffsets, zero_params, Stat, Sys, sizeof_unsigned, sizeof_cqe, sizeof_sqe,
  setup_sqpoll, setup_sq_aff, feat_single_mmap, off_sq_ring, off_cq_ring, off_sqes,
}
use io_uring_example.Reader.{AppIoSqRing, AppIoCqRing, Submitter}

-- #define QUEUE_DEPTH 256
abbrev pub queue_depth : ℕ
queue_depth = 256

-- the part of get_file_size behind the descriptor's check
unfoldable pub size_of_fd : Sys → ℤ → ℤ
size_of_fd sys fd = elim (sys.fstat fd) [
  | none ↦ negsuc 0
  | some st ↦
      if st.is_blk
      then (elim (sys.blkgetsize64 fd) [ none ↦ negsuc 0 | some bytes ↦ to_off bytes ])
      else if st.is_reg
      then st.st_size
      else negsuc 0
]

unfoldable pub get_file_size : Sys → ℕ → ℤ
unfolding size_of_fd
get_file_size sys file =
    let fd = sys.fileno file in if is_minus_one fd then negsuc 0 else size_of_fd sys fd

-- the int sizes of the two mappings, and what a single mapping makes of them
unfoldable pub sring_sz : Params → ℤ
sring_sz p = to_int (u64 (p.sq_off.array + p.sq_entries * sizeof_unsigned))

unfoldable pub cring_sz : Params → ℤ
cring_sz p = to_int (u64 (p.cq_off.cqes + p.cq_entries * sizeof_cqe))

abbrev pub single_mmap : Params → Bool
single_mmap p = not (bit_and p.features feat_single_mmap == 0)

unfoldable pub sq_map_sz : Params → ℤ
sq_map_sz p = if single_mmap p && ltb_ℤ (sring_sz p) (cring_sz p) then cring_sz p else sring_sz p

unfoldable pub cq_map_sz : Params → ℤ
cq_map_sz p = if single_mmap p then sq_map_sz p else cring_sz p

abbrev pub sq_pointers : ℕ → SqOffsets → AppIoSqRing
sq_pointers base o = record {
  head = base + o.head;
  tail = base + o.tail;
  ring_mask = base + o.ring_mask;
  ring_entries = base + o.ring_entries;
  flags = base + o.flags;
  array = base + o.array;
}

abbrev pub cq_pointers : ℕ → CqOffsets → AppIoCqRing
cq_pointers base o = record {
  head = base + o.head;
  tail = base + o.tail;
  ring_mask = base + o.ring_mask;
  ring_entries = base + o.ring_entries;
  cqes = base + o.cqes;
}

-- The mappings and the pointers into them; `none` is a mapping that failed.
unfoldable pub map_rings : Sys → ℤ → Params → Option Submitter
map_rings sys ring_fd p = elim (sys.mmap (to_size (sq_map_sz p)) ring_fd off_sq_ring) [
  | none ↦ none
  | some sq_ptr ↦
      elim (if single_mmap p
        then some sq_ptr
        else sys.mmap (to_size (cq_map_sz p)) ring_fd off_cq_ring) [
          | none ↦ none
          | some cq_ptr ↦ elim (sys.mmap (u64 (p.sq_entries * sizeof_sqe)) ring_fd off_sqes) [
            | none ↦ none
            | some sqes ↦ some (record {
              ring_fd = ring_fd;
              sq_ring = sq_pointers sq_ptr p.sq_off;
              sqes = sqes;
              cq_ring = cq_pointers cq_ptr p.cq_off;
            })
          ]
        ]
]

abbrev pub setup_params : Params
setup_params = record zero_params {
  flags = bit_or setup_sqpoll setup_sq_aff;
  sq_thread_idle = 2000000;
}

-- `none` is the return of 1.
unfoldable pub app_setup_uring : Sys → Option Submitter
unfolding map_rings
app_setup_uring sys =
    let (ring_fd, p) = sys.io_uring_setup queue_depth setup_params in
    if is_neg ring_fd then none else map_rings sys ring_fd p
