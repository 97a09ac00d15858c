-- ===== src/Manual/Submit.antt =====
-- submit_to_sq and submit_write_request of example/omp_io_uring_manual.c: what stands on the submission ring.
use io_uring_example.Base.{
  ℕ, suc, ◌+◌, ◌*◌, ◌≤◌, ◌<◌, ◌^◌, ◌≡◌, ◌≢◌, sym, ap, ◌∙◌, false, Option, none, some, List, [],
  replicate, length, arith, done, u32, ℤ, pos, is_neg, to_size,
}
use io_uring_example.Kernel.{Sqe, Sys, op_writev, sizeof_sqe, sizeof_unsigned}
use io_uring_example.Reader.{Submitter, Iovc, World}
use io_uring_example.Reader.Spec.{entries, AreBlocks}
use io_uring_example.Reader.Open.{
  Enter, count_blocks, file_info_bytes, capacity, fill_iovecs, sq_index, slot_address,
}
use io_uring_example.Reader.Open.Blocks.{IsCount, count_blocks-IsCount}
use io_uring_example.Reader.Open.Fill.{Aligns, total_size, fill_iovecs-Fills}
use io_uring_example.Reader.Open.Opened.{capacity_lem}
use io_uring_example.Manual.{get_file_size, submit_blocks, submit_to_sq, submit_writev}
use io_uring_example.Manual.Reap.{AreSized}

module _ (b : ℕ) (sys : Sys) (enter : Enter) (w : World) (s : Submitter) (path : List ℕ)
    (n : ℕ) where
  -- what submit_to_sq makes of a file of `n` bytes
  pub record Submits : Type 0 where
    pub fi : ℕ
    pub vs : List Iovc
    pub blocks : AreBlocks b vs
    pub sizes : AreSized vs
    pub least : IsCount b (length vs) n
    pub count : count_blocks b n ≡ pos (length vs)
    pub covered : total_size vs ≡ n
    pub few : length vs < 2 ^ 31
    pub result :
        submit_to_sq b sys enter w s path
        ≡ done (submit_blocks enter w s (sys.open_fd path) n (pos (length vs)) fi (entries vs))

  submit_to_sq_run :
      (r fi : ℕ) (iovecs : List (Option Iovc))
      → is_neg (sys.open_fd path) ≡ false
      → get_file_size sys (sys.open_fd path) ≡ pos n
      → count_blocks b n ≡ pos r
      → r ≤ 2 ^ 31
      → sys.alloc (file_info_bytes (pos r)) ≡ some fi
      → fill_iovecs (suc n) sys b (replicate r none) 0 n ≡ done (some iovecs)
      → submit_to_sq b sys enter w s path
        ≡ done (submit_blocks enter w s (sys.open_fd path) n (pos r) fi iovecs)
  unfolding submit_to_sq
  submit_to_sq_run r fi iovecs good size e small a run =
      let given : sys.alloc (file_info_bytes (count_blocks b n)) ≡ some fi = rw e a in
      let filled : fill_iovecs (suc n) sys b
            (replicate (capacity (file_info_bytes (count_blocks b n))) none) 0 n
          ≡ done (some iovecs) =
        rw (e, capacity_lem r small, run) in
      rw (good, size, submit_to_sq, given, submit_to_sq, filled)
        (ap (λ z. done (submit_blocks enter w s (sys.open_fd path) n z fi iovecs)) e)

  -- For a file below 2 GiB that can be opened, blocks of a size that is not 0, a malloc that succeeds and a
  -- posix_memalign that gives blocks of the size asked for: the file gets the least number of blocks
  -- that hold it, none of a size past its memory, their sizes add up to its size, and
  -- submit_blocks is called with exactly these blocks.
  pub submit_to_sq-Submits :
      (address : ℕ → ℕ)
      → 0 < b
      → n < 2 ^ 31
      → is_neg (sys.open_fd path) ≡ false
      → get_file_size sys (sys.open_fd path) ≡ pos n
      → ((bytes : ℕ) → sys.alloc bytes ≡ some (address bytes))
      → Aligns sys b
      → Submits
  submit_to_sq-Submits address h small good size alloc aligns =
      let (r, e, least, le_size) = count_blocks-IsCount b n h small in
      let (vs, run, len, blocks, total, fit) =
        fill_iovecs-Fills sys b h aligns (suc n) [] r n least (omega arith) (omega arith) in
      let fi = address (file_info_bytes (pos r)) in
      record {
        fi = fi;
        vs = vs;
        blocks = blocks;
        sizes = fit;
        least = rw len least;
        count = e ∙ ap pos (sym len);
        covered = total;
        few = omega (arith, len);
        result =
            submit_to_sq_run r fi (entries vs) good size e (omega arith)
              (alloc (file_info_bytes (pos r))) run
            ∙ ap (λ k. done (submit_blocks enter w s (sys.open_fd path) n (pos k) fi (entries vs)))
                (sym len);
      }

-- the entry that the kernel takes at a place of the submission ring: the one that the index array lists
abbrev pub listed_sqe : World → Submitter → ℕ → Sqe
listed_sqe w s index =
    w.sqe (s.sqes + w.word (s.sq_ring.array + index * sizeof_unsigned) * sizeof_sqe)

-- Where the index array lists the slot of the tail at its own place, and does not overlap the tail:
-- after the stores of submit_write_request the tail has moved by one (mod 2 ^ 32), and the entry that the
-- kernel takes at the old tail is a writev of one iovec to the file.
pub submit_writev-listed :
    (w : World) (s : Submitter) (fd : ℤ) (iov : ℕ)
    → s.sq_ring.array + sq_index w s.sq_ring * sizeof_unsigned ≢ s.sq_ring.tail
    → w.word (s.sq_ring.array + sq_index w s.sq_ring * sizeof_unsigned) ≡ sq_index w s.sq_ring
    → ((submit_writev w s fd iov).word s.sq_ring.tail ≡ u32 (w.word s.sq_ring.tail + 1))
      × (listed_sqe (submit_writev w s fd iov) s (sq_index w s.sq_ring)
          ≡ record (w.sqe (slot_address w s)) {
            fd = fd;
            opcode = op_writev;
            flags = 0;
            off = 0;
            addr = iov;
            len = 1;
            user_data = to_size fd;
          })
unfolding submit_writev
submit_writev-listed w s fd iov apart own = (ground arith, ground (arith, own))
