-- ===== src/Manual/Requests.antt =====
-- submit_to_sq of example/omp_io_uring_manual.c: the memory with its request, and what is returned.
use io_uring_example.Base.{
  ℕ, ◌<◌, ◌^◌, ◌≡◌, ap, ◌∙◌, refl, Option, none, some, List, if◌then◌else◌, length, done, ℤ, pos,
  is_neg, false, to_unsigned_small,
}
use io_uring_example.Kernel.{Sys, enter_sq_wakeup}
use io_uring_example.Reader.{Submitter, Iovc, World}
use io_uring_example.Reader.Spec.{entries, AreBlocks}
use io_uring_example.Reader.Open.{Enter}
use io_uring_example.Reader.Open.Blocks.{IsCount}
use io_uring_example.Reader.Open.Fill.{Aligns, total_size}
use io_uring_example.Reader.Open.Queue.{IsApart, count, IsRing}
use io_uring_example.Reader.Open.Queue.Requested.{
  with_request, IsRequested, with_request-IsRequested,
}
use io_uring_example.Manual.{get_file_size, submit_blocks, submit_to_sq}
use io_uring_example.Manual.Reap.{AreSized}
use io_uring_example.Manual.Submit.{submit_to_sq-Submits}

-- what the call of io_uring_enter leaves, if it accepts
abbrev pub entered : Enter → Submitter → World → Option World
entered enter s w1 =
    let (ret, w2) = enter w1 s.ring_fd 1 0 enter_sq_wakeup in if is_neg ret then none else some w2

pub submit_blocks_lem :
    (enter : Enter) (w : World) (s : Submitter) (fd : ℤ) (n fi : ℕ) (vs : List Iovc)
    → length vs < 2 ^ 31
    → submit_blocks enter w s fd n (pos (length vs)) fi (entries vs)
      ≡ entered enter s (with_request s w fd n fi vs)
unfolding submit_blocks
submit_blocks_lem enter w s fd n fi vs few =
    rw (to_unsigned_small (length vs) few, submit_blocks) refl

module _ (b : ℕ) (sys : Sys) (enter : Enter) (k : ℕ) (w : World) (s : Submitter) (path : List ℕ)
    (n : ℕ) where
  -- what submit_to_sq makes of a file of `n` bytes
  pub record Requests : Type 0 where
    pub fi : ℕ
    pub vs : List Iovc
    pub blocks : AreBlocks b vs
    pub sizes : AreSized vs
    pub least : IsCount b (length vs) n
    pub covered : total_size vs ≡ n
    pub world : World
    pub requested : IsRequested s k w (sys.open_fd path) n fi vs world
    pub result : submit_to_sq b sys enter w s path ≡ done (entered enter s world)

  -- For a file below 2 GiB that can be opened, blocks of a size that is not 0, a malloc that succeeds, a
  -- posix_memalign that gives blocks of the size asked for, and a submission ring with room: the file gets the
  -- least number of blocks that hold it, none of a size past its memory, and their sizes add up to its size;
  -- io_uring_enter is called when the requests on the ring are those before and one readv of the file from its
  -- start into exactly these blocks, whose file_info holds them and the file's size; and 1 is returned only if
  -- that call fails.
  pub submit_to_sq-Requests :
      (address : ℕ → ℕ)
      → 0 < b
      → n < 2 ^ 31
      → is_neg (sys.open_fd path) ≡ false
      → get_file_size sys (sys.open_fd path) ≡ pos n
      → ((bytes : ℕ) → sys.alloc bytes ≡ some (address bytes))
      → Aligns sys b
      → IsRing s k w
      → IsApart s
      → count s k w < 2 ^ k
      → Requests
  submit_to_sq-Requests address h small good size alloc aligns ring apart room =
      let o = submit_to_sq-Submits b sys enter w s path n address h small good size alloc aligns in
      let fd = sys.open_fd path in
      record {
        fi = o.fi;
        vs = o.vs;
        blocks = o.blocks;
        sizes = o.sizes;
        least = o.least;
        covered = o.covered;
        world = with_request s w fd n o.fi o.vs;
        requested = with_request-IsRequested s k w ring apart room fd n o.fi o.vs;
        result = o.result ∙ ap done (submit_blocks_lem enter w s fd n o.fi o.vs o.few);
      }
