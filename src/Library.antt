-- ===== src/Library.antt =====
-- my_io.h, the data of the C++ library, which host.cpp and device.cpp implement: an open file, and the
-- machine on which the host part runs. The structures of the rings and of the blocks are declared there
-- as in example/io_uring_read.c, and are those of Reader.
pub mod Open
pub mod Device
pub mod Close
pub mod Cat
mod Tests
use io_uring_example.Base.{
  ℕ, Bool, Option, none, some, List, ◌∷◌, Run, done, fault, ℤ, same_ℕ, same_ℤ, take_out,
}
use io_uring_example.Kernel.{Sys}
use io_uring_example.Reader.{Submitter, World}
use io_uring_example.Reader.Open.{Enter}

-- an object of the heap and its address
pub record Pointer {ℓ} (A : Type ℓ) : Type ℓ where
  pub address : ℕ
  pub target : A

-- `none` is NULL, and a pointer not yet set.
pub record MyFile : Type 0 where
  pub fd : ℤ
  pub blocks : ℤ
  pub current_block : ℕ
  pub isfirst : ℕ
  pub current_offset : ℕ
  pub s : Option (Pointer Submitter)
  pub fi_read : Option ℕ
  pub fi : Option ℕ

-- What the host part calls. `serve` is what the kernel's thread does while my_fopen waits, and `loads`
-- are the values that the loads of the completion queue's tail give then.
pub record Host : Type 0 where
  pub sys : Sys
  pub enter : Enter
  -- omp_alloc, which may depend on the blocks that are allocated
  pub omp_alloc : List ℕ → ℕ → Option ℕ
  -- open(name, flags)
  pub open_file : List ℕ → ℕ → ℤ
  -- io_uring_register(ring_fd, IORING_REGISTER_FILES, &fd, 1)
  pub register_files : ℤ → ℤ → ℤ
  -- lseek(fd, 0, SEEK_END)
  pub lseek_end : ℤ → ℤ
  pub serve : World → World
  pub loads : ℕ → ℕ

-- `memory` are the blocks of omp_alloc, `descriptors` the open files and `position` their offsets; `ring_fds` are
-- the descriptors of io_uring_setup, each with the mappings of its ring, and `aligned` is the number of blocks of
-- posix_memalign.
pub record State : Type 0 where
  pub world : World
  pub memory : List ℕ
  pub descriptors : List ℤ
  pub ring_fds : List ℤ
  pub aligned : ℕ
  pub position : ℤ → ℕ

abbrev pub allocate : Host → ℕ → State → Option (ℕ × State)
allocate h bytes st = elim (h.omp_alloc st.memory bytes) [
  | none ↦ none
  | some a ↦ some (a, record st { memory = a ∷ st.memory })
]

-- omp_free or free of a block that is not allocated is undefined.
abbrev pub release : ℕ → State → Run State
release a st = elim (take_out same_ℕ a st.memory) [
  | none ↦ fault
  | some memory ↦ done (record st { memory = memory })
]

-- close of a descriptor that is not open is an error without an effect.
abbrev pub close_fd : ℤ → State → State
close_fd fd st = elim (take_out same_ℤ fd st.descriptors) [
  | none ↦ st
  | some descriptors ↦ record st { descriptors = descriptors }
]
