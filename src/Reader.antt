-- ===== src/Reader.antt =====
-- example/io_uring_read.c, the data: the rings' pointers, a file's buffers, an open file, and the
-- memory that the program shares with the kernel.
pub mod Setup
pub mod Read
pub mod Open
pub mod Cat
pub mod Spec
pub mod Demo
mod Tests
use io_uring_example.Base.{ℕ, ◌≤◌, Bool, Option, none, some, List, ℤ, ◌==◌, if◌then◌else◌}
use io_uring_example.Kernel.{Sqe, Cqe}

-- The rings hold pointers into the mapped memory: every field is an address.
pub record AppIoSqRing : Type 0 where
  pub head : ℕ
  pub tail : ℕ
  pub ring_mask : ℕ
  pub ring_entries : ℕ
  pub flags : ℕ
  pub array : ℕ

pub record AppIoCqRing : Type 0 where
  pub head : ℕ
  pub tail : ℕ
  pub ring_mask : ℕ
  pub ring_entries : ℕ
  pub cqes : ℕ

pub record Submitter : Type 0 where
  pub ring_fd : ℤ
  pub sq_ring : AppIoSqRing
  pub sqes : ℕ
  pub cq_ring : AppIoCqRing

-- A block is pointed to by one entry only, so its bytes stand in the entry.
pub record Iovc : Type 0 where
  pub buffer : List ℕ
  pub buffer_size : ℕ

-- The flexible array has as many entries as were allocated; `none` is one not yet set.
pub record FileInfo : Type 0 where
  pub file_sz : ℕ
  pub iovecs : List (Option Iovc)

-- `current_block` is the bit pattern of the int. `fi_read` is `none` until it is set.
-- The submitter has no other owner, so it stands in the file; `fi` and `fi_read` are addresses.
pub record MyFile : Type 0 where
  pub fp : ℕ
  pub blocks : ℤ
  pub current_block : ℕ
  pub isfirst : ℕ
  pub current_offset : ℕ
  pub s : Submitter
  pub fi_read : Option ℕ
  pub fi : ℕ

-- The memory by address: the words of the rings, their entries, and the file_info structures.
pub record World : Type 0 where
  pub word : ℕ → ℕ
  pub sqe : ℕ → Sqe
  pub cqe : ℕ → Cqe
  pub file_info : ℕ → Option FileInfo
  pub system_times : ℕ

-- a write to one address
abbrev pub update {ℓ} : {A : Type ℓ} → (ℕ → A) → ℕ → A → ℕ → A
update f a v b = if a == b then v else f b
