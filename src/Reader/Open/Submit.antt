-- ===== src/Reader/Open/Submit.antt =====
-- The submission of my_fopen in example/io_uring_read.c: the entry that the kernel finds, the place it
-- stands at, and what stays as it was.
use io_uring_example.Base.{ℕ, ◌+◌, ◌-◌, ◌*◌, ◌<◌, ◌^◌, ◌≡◌, ◌≢◌, arith, u32, ℤ}
use io_uring_example.Base.Bits.{bit_and-mask_lt}
use io_uring_example.Kernel.{sizeof_unsigned, sizeof_sqe, op_readv}
use io_uring_example.Reader.{Submitter, World}
use io_uring_example.Reader.Setup.Mapped.{Inside}
use io_uring_example.Reader.Open.{sq_index, slot_address, submit_readv}

-- where the index of the new entry is stored
abbrev pub array_address : World → Submitter → ℕ
array_address w s = s.sq_ring.array + sq_index w s.sq_ring * sizeof_unsigned

-- The world `w'` after one readv was put on the queue of `w`.
pub record Submitted (w : World) (s : Submitter) (fd : ℤ) (addr len user_data : ℕ) (w' : World)
    : Type 0 where
  pub advanced : w'.word s.sq_ring.tail ≡ u32 (w.word s.sq_ring.tail + 1)
  pub listed : w'.word (array_address w s) ≡ sq_index w s.sq_ring
  pub slot : w'.sqe (slot_address w s) ≡ record (w.sqe (slot_address w s)) {
    fd = fd;
    flags = 0;
    opcode = op_readv;
    addr = addr;
    len = len;
    off = 0;
    user_data = user_data;
  }
  pub other_slots : (a : ℕ) → a ≢ slot_address w s → w'.sqe a ≡ w.sqe a
  pub other_words : (a : ℕ) → a ≢ array_address w s → a ≢ s.sq_ring.tail → w'.word a ≡ w.word a
  pub completions : w'.cqe ≡ w.cqe
  pub files : w'.file_info ≡ w.file_info

module _ (w : World) (s : Submitter) (fd : ℤ) (addr len user_data : ℕ) where
  -- Where the index array does not overlap the tail: the tail moves by one (mod 2 ^ 32), the slot that
  -- it stood at holds the readv, the array lists that slot, and no other slot, word, completion
  -- or file changes.
  pub submit_readv-Submitted :
      array_address w s ≢ s.sq_ring.tail
      → w.word s.sq_ring.tail < 2 ^ 32
      → Submitted w s fd addr len user_data (submit_readv w s fd addr len user_data)
  unfolding submit_readv
  submit_readv-Submitted apart small = record {
    advanced = ground arith;
    listed = ground arith;
    slot = ground arith;
    other_slots = λ a h. ground arith;
    other_words = λ a h k. ground arith;
    completions = ground arith;
    files = ground arith;
  }

-- In a ring of 2 ^ k entries the slot that a request is written to lies inside the array of entries.
pub slot_address-Inside :
    (w : World) (s : Submitter) (k : ℕ)
    → w.word s.sq_ring.ring_mask ≡ 2 ^ k - 1
    → Inside s.sqes (2 ^ k * sizeof_sqe) (slot_address w s) sizeof_sqe
slot_address-Inside w s k e =
    let i : sq_index w s.sq_ring < 2 ^ k = rw e (bit_and-mask_lt k (w.word s.sq_ring.tail)) in
    (omega arith, omega arith)
