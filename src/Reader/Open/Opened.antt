-- ===== src/Reader/Open/Opened.antt =====
-- my_fopen of example/io_uring_read.c as a whole: what an opened file holds, when NULL is returned, and
-- the size from which the blocks overflow their array.
use io_uring_example.Base.{
  ℕ, suc, ◌%◌, ◌≤◌, ◌<◌, ◌^◌, ◌≡◌, sym, ap, ◌∙◌, true, false, Option, none, some, List, [], arith,
  length, replicate, length-replicate, All, Run, done, fault, ◌>>=◌, ℤ, pos, negsuc, is_neg,
  to_size,
}
use io_uring_example.Kernel.{Sys}
use io_uring_example.Reader.{Submitter, Iovc, MyFile, World}
use io_uring_example.Reader.Spec.{entries, AreBlocks}
use io_uring_example.Reader.Setup.{get_file_size, app_setup_uring}
use io_uring_example.Reader.Open.{
  count_blocks, file_info_bytes, capacity, sizeof_my_file, sizeof_submitter, fill_iovecs, Enter,
  submit_file, open_blocks, my_fopen,
}
use io_uring_example.Reader.Open.Blocks.{IsCount, count_blocks-IsCount, count_blocks_short}
use io_uring_example.Reader.Open.Fill.{Aligns, total_size, fill_iovecs-Fills, fill_iovecs_overflow}

pub capacity_lem : (r : ℕ) → r ≤ 2 ^ 31 → capacity (file_info_bytes (pos r)) ≡ r
unfolding file_info_bytes to_size
capacity_lem r h = omega arith

module _ (b : ℕ) (sys : Sys) (enter : Enter) (w : World) (s : Submitter) (fp : ℕ) (fd : ℤ)
    (n : ℕ) where
  abbrev opening : Run (Option (MyFile × World))
  opening = open_blocks b sys enter w s fp fd n (count_blocks b n)

  -- what my_fopen makes of a file of `n` bytes
  pub record Opens : Type 0 where
    pub fi : ℕ
    pub vs : List Iovc
    pub blocks : AreBlocks b vs
    pub count : IsCount b (length vs) n
    pub sizes : All (λ v. v.buffer_size ≤ length v.buffer) vs
    pub covered : total_size vs ≡ n
    pub few : length vs < 2 ^ 31
    pub result :
        open_blocks b sys enter w s fp fd n (count_blocks b n)
        ≡ done (submit_file enter w s fp fd n (pos (length vs)) fi (entries vs))

  open_blocks_run :
      (r fi m : ℕ) (filled : Run (Option (List (Option Iovc))))
      → count_blocks b n ≡ pos r
      → r ≤ 2 ^ 31
      → sys.alloc (file_info_bytes (pos r)) ≡ some fi
      → sys.alloc sizeof_my_file ≡ some m
      → fill_iovecs (suc n) sys b (replicate r none) 0 n ≡ filled
      → opening ≡ (
          filled >>= elim [
            | none ↦ done none
            | some iovecs ↦ done (submit_file enter w s fp fd n (pos r) fi iovecs)
          ])
  unfolding open_blocks
  open_blocks_run r fi m filled e small a1 a2 run =
      rw e (rw (a1, open_blocks) (rw (a2, capacity_lem r small, run)))

  -- For a file below 2 GiB, blocks of a size that is not 0, a malloc that succeeds, and a
  -- posix_memalign that gives blocks of the size asked for: the file gets the least number of blocks
  -- that hold it, their sizes add up to its size, and submit_file is called with exactly
  -- these blocks.
  pub open_blocks-Opens :
      (address : ℕ → ℕ)
      → 0 < b
      → n < 2 ^ 31
      → ((bytes : ℕ) → sys.alloc bytes ≡ some (address bytes))
      → Aligns sys b
      → Opens
  open_blocks-Opens address h small alloc aligns =
      let (r, e, count, le_size) = count_blocks-IsCount b n h small in
      let (vs, run, len, blocks, total, fit) =
        fill_iovecs-Fills sys b h aligns (suc n) [] r n count (omega arith) (omega arith) in
      record {
        fi = address (file_info_bytes (pos r));
        vs = vs;
        blocks = blocks;
        count = rw len count;
        sizes = fit;
        covered = total;
        few = omega (arith, len);
        result =
            open_blocks_run r (address (file_info_bytes (pos r))) (address sizeof_my_file) _ e
              (omega arith) (alloc (file_info_bytes (pos r))) (alloc sizeof_my_file) run
            ∙ ap
                (λ k. done (
                  submit_file enter w s fp fd n (pos k) (address (file_info_bytes (pos r)))
                    (entries vs)))
                (sym len);
      }

  -- For a file of 4 GiB or more whose low 32 bits are below 2 GiB, with all memory granted: the loop
  -- over the blocks writes past the end of their array.
  pub open_blocks_overflow :
      (address : ℕ → ℕ)
      → 0 < b
      → b < 2 ^ 31
      → 2 ^ 32 ≤ n
      → n % 2 ^ 32 < 2 ^ 31
      → ((bytes : ℕ) → sys.alloc bytes ≡ some (address bytes))
      → Aligns sys b
      → open_blocks b sys enter w s fp fd n (count_blocks b n) ≡ fault
  open_blocks_overflow address h hb big cut alloc aligns =
      let (r, e, short, small) = count_blocks_short b n h hb big cut in
      open_blocks_run r (address (file_info_bytes (pos r))) (address sizeof_my_file) fault e small
        (alloc (file_info_bytes (pos r))) (alloc sizeof_my_file)
        (fill_iovecs_overflow sys b h aligns (suc n) r (replicate r none) 0 n
          (omega (arith, length-replicate {A = Option Iovc} r none)) short (omega arith)
          (omega (arith, length-replicate {A = Option Iovc} r none)))

module _ (b : ℕ) (sys : Sys) (enter : Enter) (w : World) (filename mode : List ℕ) where
  -- the reasons for which my_fopen gives up before the blocks
  pub data Refusal : Type 0 where
    no_ring : app_setup_uring sys ≡ none → Refusal
    no_file : sys.fopen filename mode ≡ none → Refusal
    no_descriptor :
        (fp : ℕ) → sys.fopen filename mode ≡ some fp → is_neg (sys.fileno fp) ≡ true → Refusal
    no_size :
        (fp k : ℕ) → sys.fopen filename mode ≡ some fp → get_file_size sys fp ≡ negsuc k → Refusal

  -- When the ring is refused, or fopen or fileno fails, or get_file_size gives a negative size, and
  -- the submitter could be allocated, my_fopen returns NULL.
  pub my_fopen_refuses :
      (a : ℕ)
      → sys.alloc sizeof_submitter ≡ some a
      → Refusal
      → my_fopen b sys enter w filename mode ≡ done none
  unfolding my_fopen
  my_fopen_refuses a e (no_ring h) = rw (e, h)
  my_fopen_refuses a e (no_file h) = ground (arith, h)
  my_fopen_refuses a e (no_descriptor fp h k) = ground (arith, h, k)
  my_fopen_refuses a e (no_size fp k h j) = ground (arith, h, j)

  -- Otherwise the blocks are made, for the size that the file has.
  pub my_fopen_accepts :
      (a : ℕ) (s : Submitter) (fp n : ℕ)
      → sys.alloc sizeof_submitter ≡ some a
      → app_setup_uring sys ≡ some s
      → sys.fopen filename mode ≡ some fp
      → is_neg (sys.fileno fp) ≡ false
      → get_file_size sys fp ≡ pos n
      → my_fopen b sys enter w filename mode
        ≡ open_blocks b sys enter w s fp (sys.fileno fp) n (count_blocks b n)
  unfolding my_fopen
  my_fopen_accepts a s fp n e setup opened fd size = rw (e, setup) (rw opened (rw (fd, size)))
