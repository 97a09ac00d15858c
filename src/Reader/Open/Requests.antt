-- ===== src/Reader/Open/Requests.antt =====
-- my_fopen of example/io_uring_read.c, from the allocation of `fi` on: the memory with the request, and what is returned.
use io_uring_example.Base.{
  ℕ, ◌+◌, ◌≤◌, ◌<◌, ◌^◌, ◌≡◌, ap, ◌∙◌, bit_and, none, some, List, ◌==◌, if◌then◌else◌, All, length,
  done, ℤ, pos, is_neg, to_unsigned_small, arith, Option, inl, inr, Bool-cases,
}
use io_uring_example.Kernel.{Sys, sq_need_wakeup, enter_sq_wakeup}
use io_uring_example.Reader.{Submitter, Iovc, MyFile, World}
use io_uring_example.Reader.Spec.{entries, AreBlocks}
use io_uring_example.Reader.Open.{
  count_blocks, Enter, wake_kernel, new_file, submit_file, open_blocks,
}
use io_uring_example.Reader.Open.Blocks.{IsCount}
use io_uring_example.Reader.Open.Fill.{Aligns, total_size}
use io_uring_example.Reader.Open.Opened.{open_blocks-Opens}
use io_uring_example.Reader.Open.Queue.{IsApart, count, IsRing}
use io_uring_example.Reader.Open.Queue.Requested.{
  with_request, IsRequested, with_request-IsRequested,
}

module _ (b : ℕ) (sys : Sys) (enter : Enter) (k : ℕ) (w : World) (s : Submitter) (fp : ℕ) (fd : ℤ)
    (n : ℕ) where
  -- what my_fopen returns once the request is on the ring: NULL only if the kernel's thread sleeps and
  -- cannot be woken
  abbrev pub returned : ℕ → ℕ → World → Option (MyFile × World)
  returned fi blocks w1 =
      let file = new_file fp s fi (pos blocks) in
      let (ret, w2) =
        enter (record w1 { system_times = w1.system_times + 1 }) s.ring_fd 1 1 enter_sq_wakeup in
      if bit_and (w1.word s.sq_ring.flags) sq_need_wakeup == 0
      then some (file, w1)
      else if is_neg ret
      then none
      else some (file, w2)

  -- what my_fopen makes of a file of `n` bytes
  pub record Requests : Type 0 where
    pub fi : ℕ
    pub vs : List Iovc
    pub blocks : AreBlocks b vs
    pub sizes : All (λ v. v.buffer_size ≤ length v.buffer) vs
    pub least : IsCount b (length vs) n
    pub covered : total_size vs ≡ n
    pub world : World
    pub requested : IsRequested s k w fd n fi vs world
    pub result :
        open_blocks b sys enter w s fp fd n (count_blocks b n)
        ≡ done (returned fi (length vs) world)

  woken :
      (fi blocks : ℕ) (w1 : World)
      → (elim (wake_kernel enter w1 s) [
        | none ↦ none
        | some w' ↦ some (new_file fp s fi (pos blocks), w')
      ])
        ≡ returned fi blocks w1
  unfolding wake_kernel
  woken fi blocks w1 = elim (Bool-cases (bit_and (w1.word s.sq_ring.flags) sq_need_wakeup == 0)) [
    | inl awake ↦ ground (arith, awake)
    | inr asleep ↦ ground (arith, asleep)
  ]

  submit_file_lem :
      (fi : ℕ) (vs : List Iovc)
      → length vs < 2 ^ 31
      → submit_file enter w s fp fd n (pos (length vs)) fi (entries vs)
        ≡ returned fi (length vs) (with_request s w fd n fi vs)
  unfolding submit_file
  submit_file_lem fi vs few =
      rw (to_unsigned_small (length vs) few, submit_file)
        (woken fi (length vs) (with_request s w fd n fi vs))

  -- For a file below 2 GiB, blocks of a size that is not 0, a malloc that succeeds, a posix_memalign that
  -- gives blocks of the size asked for, and a submission ring with room: the file gets the least number of
  -- blocks that hold it, none of a size past its memory, and their sizes add up to its size; the requests on
  -- the ring are those before and one readv of the file from its start into exactly these blocks; their
  -- file_info holds them and the file's size; and a file is returned, unless the kernel's thread sleeps and
  -- cannot be woken.
  pub open_blocks-Requests :
      (address : ℕ → ℕ)
      → 0 < b
      → n < 2 ^ 31
      → ((bytes : ℕ) → sys.alloc bytes ≡ some (address bytes))
      → Aligns sys b
      → IsRing s k w
      → IsApart s
      → count s k w < 2 ^ k
      → Requests
  open_blocks-Requests address h small alloc aligns ring apart room =
      let o = open_blocks-Opens b sys enter w s fp fd n address h small alloc aligns in
      record {
        fi = o.fi;
        vs = o.vs;
        blocks = o.blocks;
        sizes = o.sizes;
        least = o.count;
        covered = o.covered;
        world = with_request s w fd n o.fi o.vs;
        requested = with_request-IsRequested s k w ring apart room fd n o.fi o.vs;
        result = o.result ∙ ap done (submit_file_lem o.fi o.vs o.few);
      }
