-- ===== src/Writes.antt =====
-- The short programs that put one write through liburing: example/io_uring_write.c,
-- example/omp_io_uring_string.c, example/omp_io_uring_ptr.c, example/omp_io_uring_atomic.c and
-- example/omp_io_uring_writer.c. What they share: the machine, and the calls that they make of it.
pub mod Held
pub mod Text
pub mod Numbers
pub mod Message
pub mod Array
pub mod Target
mod Tests
use io_uring_example.Base.{
  ℕ, zero, suc, Option, none, some, List, ◌∷◌, Run, done, fault, ℤ, same_ℕ, same_ℤ, take_out,
}

-- a write that io_uring_submit has handed to the kernel
pub record Request : Type 0 where
  pub fd : ℤ
  pub bytes : List ℕ
  pub off : ℕ

-- What a program holds, and what it has asked the kernel to write, the last one first. `rings` is their
-- number.
pub record Machine : Type 0 where
  pub memory : List ℕ
  pub descriptors : List ℤ
  pub rings : ℕ
  pub requests : List Request

-- What the calls of one run give; no program makes one of them twice.
pub record Calls : Type 0 where
  -- malloc or omp_alloc
  pub alloc : Option ℕ
  pub open_file : ℤ
  pub queue_init : ℤ
  -- an entry of the submission queue, or NULL
  pub get_sqe : Option ℕ
  -- io_uring_wait_cqe, and the result of the completion where that is not an error
  pub wait_cqe : ℤ
  pub res : ℤ

abbrev pub allocated : ℕ → Machine → Machine
allocated a m = record m { memory = a ∷ m.memory }

abbrev pub opened : ℤ → Machine → Machine
opened fd m = record m { descriptors = fd ∷ m.descriptors }

abbrev pub ring_made : Machine → Machine
ring_made m = record m { rings = suc m.rings }

-- io_uring_prep_write and io_uring_submit
abbrev pub submit_write : ℤ → List ℕ → ℕ → Machine → Machine
submit_write fd bytes off m = record m {
  requests = (record { fd = fd; bytes = bytes; off = off }) ∷ m.requests;
}

-- To give back what is not held is undefined.
abbrev pub free : ℕ → Machine → Run Machine
free a m = elim (take_out same_ℕ a m.memory) [
  | none ↦ fault
  | some memory ↦ done (record m { memory = memory })
]

abbrev pub close : ℤ → Machine → Run Machine
close fd m = elim (take_out same_ℤ fd m.descriptors) [
  | none ↦ fault
  | some descriptors ↦ done (record m { descriptors = descriptors })
]

abbrev pub queue_exit : Machine → Run Machine
queue_exit m = elim m.rings [ zero ↦ fault | suc rings ↦ done (record m { rings = rings }) ]
