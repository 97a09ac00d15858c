-- ===== src/Kernel.antt =====
-- The interface of the kernel: the entries and parameters of a ring, laid out as device.cpp and
-- linux/io_uring.h declare them, the flag values of that header, and the system and library calls,
-- which the program does not implement and the model takes as an argument.
use io_uring_example.Base.{ℕ, Bool, Option, List, ℤ}

-- struct io_uring_sqe
pub record Sqe : Type 0 where
  pub opcode : ℕ
  pub flags : ℕ
  pub ioprio : ℕ
  pub fd : ℤ
  pub off : ℕ
  pub addr : ℕ
  pub len : ℕ
  pub rw_flags : ℕ
  pub user_data : ℕ
  pub buf_index : ℕ
  pub personality : ℕ
  pub file_index : ℕ
  pub pad2_0 : ℕ
  pub pad2_1 : ℕ

-- struct io_uring_cqe
pub record Cqe : Type 0 where
  pub user_data : ℕ
  pub res : ℤ
  pub flags : ℕ

pub record SqOffsets : Type 0 where
  pub head : ℕ
  pub tail : ℕ
  pub ring_mask : ℕ
  pub ring_entries : ℕ
  pub flags : ℕ
  pub dropped : ℕ
  pub array : ℕ

pub record CqOffsets : Type 0 where
  pub head : ℕ
  pub tail : ℕ
  pub ring_mask : ℕ
  pub ring_entries : ℕ
  pub overflow : ℕ
  pub cqes : ℕ
  pub flags : ℕ

-- struct io_uring_params, less its reserved words
pub record Params : Type 0 where
  pub sq_entries : ℕ
  pub cq_entries : ℕ
  pub flags : ℕ
  pub sq_thread_cpu : ℕ
  pub sq_thread_idle : ℕ
  pub features : ℕ
  pub wq_fd : ℕ
  pub sq_off : SqOffsets
  pub cq_off : CqOffsets

-- memset(&p, 0, sizeof(p))
abbrev pub zero_params : Params
zero_params = record {
  sq_entries = 0;
  cq_entries = 0;
  flags = 0;
  sq_thread_cpu = 0;
  sq_thread_idle = 0;
  features = 0;
  wq_fd = 0;
  sq_off = record {
    head = 0;
    tail = 0;
    ring_mask = 0;
    ring_entries = 0;
    flags = 0;
    dropped = 0;
    array = 0;
  };
  cq_off = record {
    head = 0;
    tail = 0;
    ring_mask = 0;
    ring_entries = 0;
    overflow = 0;
    cqes = 0;
    flags = 0;
  };
}

-- sizeof on the 64-bit target
abbrev pub sizeof_unsigned : ℕ
sizeof_unsigned = 4

abbrev pub sizeof_sqe : ℕ
sizeof_sqe = 64

abbrev pub sizeof_cqe : ℕ
sizeof_cqe = 16

abbrev pub sizeof_iovec : ℕ
sizeof_iovec = 16

-- linux/io_uring.h
abbrev pub op_readv : ℕ
op_readv = 1

abbrev pub op_writev : ℕ
op_writev = 2

abbrev pub op_read : ℕ
op_read = 22

abbrev pub setup_sqpoll : ℕ
setup_sqpoll = 2

abbrev pub setup_sq_aff : ℕ
setup_sq_aff = 4

abbrev pub feat_single_mmap : ℕ
feat_single_mmap = 1

abbrev pub sq_need_wakeup : ℕ
sq_need_wakeup = 1

abbrev pub enter_getevents : ℕ
enter_getevents = 1

abbrev pub enter_sq_wakeup : ℕ
enter_sq_wakeup = 2

abbrev pub off_sq_ring : ℕ
off_sq_ring = 0

abbrev pub off_cq_ring : ℕ
off_cq_ring = 0x8000000

abbrev pub off_sqes : ℕ
off_sqes = 0x10000000

-- The part of struct stat that the programs read.
pub record Stat : Type 0 where
  pub is_blk : Bool
  pub is_reg : Bool
  pub st_size : ℤ

-- The calls that do not touch the rings' memory. A pointer is a number and `none` is NULL,
-- MAP_FAILED or the failure that errno explains.
pub record Sys : Type 0 where
  -- the descriptor, and the parameters as the kernel leaves them
  pub io_uring_setup : ℕ → Params → ℤ × Params
  -- mmap(0, size, …, fd, offset)
  pub mmap : ℕ → ℤ → ℕ → Option ℕ
  pub fopen : List ℕ → List ℕ → Option ℕ
  pub fileno : ℕ → ℤ
  pub open_fd : List ℕ → ℤ
  pub fstat : ℤ → Option Stat
  -- ioctl(fd, BLKGETSIZE64, …)
  pub blkgetsize64 : ℤ → Option ℕ
  -- omp_alloc or malloc of a number of bytes
  pub alloc : ℕ → Option ℕ
  -- the bytes of the block that the n-th posix_memalign of a loop returns
  pub memalign : ℕ → Option (List ℕ)
