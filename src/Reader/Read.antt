-- ===== src/Reader/Read.antt =====
-- example/io_uring_read.c, my_fread: the copy of the next bytes of an open file into the caller's
-- buffer, out of the blocks that the readv filled. `block_sz` is BLOCK_SZ.
pub mod Copy
pub mod Loop
pub mod First
pub mod Delivery
pub mod Call
pub mod Failed
pub mod Overrun
use io_uring_example.Base.{
  ℕ, zero, suc, ◌+◌, ◌-◌, ◌*◌, ◌^◌, bit_and, Bool, true, false, ◌&&◌, Option, none, some, List, ltb,
  leb, ◌==◌, if◌then◌else◌, length, get_elem?, take, drop, overwrite, Run, done, fault, hang, ◌>>=◌,
  ◌>>◌, deref, assert, u32, u64, to_unsigned, is_neg,
}
use io_uring_example.Kernel.{Cqe, sizeof_cqe}
use io_uring_example.Reader.{AppIoCqRing, Iovc, FileInfo, MyFile, World, update}

-- memcpy(dst + d, src + o, n), where both ranges must lie inside their objects
unfoldable pub memcpy : List ℕ → ℕ → List ℕ → ℕ → ℕ → Run (List ℕ)
memcpy dst d src o n = do
  assert (leb (d + n) (length dst) && leb (o + n) (length src))
  done (overwrite d (take n (drop o src)) dst)

-- `while (head == *cring->tail) {}` on fuel, with the value that each load of the shared tail
-- gives. The result is the number of the next load.
unfoldable pub wait_tail : ℕ → (ℕ → ℕ) → ℕ → ℕ → Run ℕ
wait_tail zero loads head k = hang
wait_tail (suc fuel) loads head k =
    let rest = wait_tail fuel loads head (k + 1) in if head == loads k then rest else done (k + 1)

-- the locals of my_fread, the caller's buffer, and the two fields of `mf` that its loop sets
pub record Cursor : Type 0 where
  pub ptr : List ℕ
  pub bytes_read : ℕ
  pub head : ℕ
  pub index : ℕ
  pub offset : ℕ
  pub isfirst : ℕ
  pub fi_read : Option ℕ

-- how a part of the loop's body ends: the code goes on, or breaks out
pub data Flow : Type 0 where
  go : Cursor → Flow
  break : Cursor → Flow

-- The part of the body before the copy: on the first visit the completion is taken from the ring.
unfoldable pub take_completion : World → AppIoCqRing → ℕ → Cursor → Flow
take_completion w cring tail c =
    if c.isfirst == 0 && c.head == tail
    then break c
    else if c.isfirst == 0
    then (if is_neg cqe.res then break c' else go c')
    else go c
  where
    cqe : Cqe
    cqe = w.cqe (cring.cqes + bit_and c.head (w.word cring.ring_mask) * sizeof_cqe)

    c' : Cursor
    c' = record c { fi_read = some cqe.user_data; isfirst = 1 }

-- the bytes that one pass copies
unfoldable pub chunk : ℕ → ℕ → ℕ → Iovc → ℕ
chunk block_sz offset remaining_space iov =
    let block_size = u64 (2 ^ 64 + block_sz - offset) in
    let to_copy = if ltb block_size iov.buffer_size then block_size else iov.buffer_size in
    if ltb remaining_space to_copy then remaining_space else to_copy

-- "Move to the next block if we have finished the current one"
unfoldable pub next_block : ℕ → Cursor → Cursor
next_block block_sz c =
    if leb block_sz c.offset
    then record c { index = u32 (c.index + 1); offset = 0; head = u32 (c.head + 1) }
    else c

-- the rest of the body, from `block_size` to the move to the next block
unfoldable pub copy_block : ℕ → World → ℕ → Cursor → Run Cursor
unfolding next_block
copy_block block_sz w total_bytes c = do
  fi_read ← deref c.fi_read
  fi ← deref (w.file_info fi_read)
  slot ← deref (get_elem? fi.iovecs c.index)
  iov ← deref slot
  let to_copy = chunk block_sz c.offset (u64 (2 ^ 64 + total_bytes - c.bytes_read)) iov
  ptr ← memcpy c.ptr c.bytes_read iov.buffer c.offset to_copy
  done (
      next_block block_sz (record c {
        ptr = ptr;
        bytes_read = u64 (c.bytes_read + to_copy);
        offset = u64 (c.offset + to_copy);
      }))

-- one round of the do loop; `go` is a condition that holds at its end
unfoldable pub pass : ℕ → World → MyFile → ℕ → ℕ → Cursor → Run Flow
pass block_sz w mf total_bytes tail c = elim (take_completion w mf.s.cq_ring tail c) [
  | break c' ↦ done (break c')
  | go c' ↦ copy_block block_sz w total_bytes c' >>= λ d. done (
      if leb total_bytes d.bytes_read
      then break d
      else if ltb d.index (to_unsigned mf.blocks)
      then go d
      else break d)
]

-- do { … } while (index < mf->blocks)
unfoldable pub read_loop : ℕ → ℕ → World → MyFile → ℕ → (ℕ → ℕ) → ℕ → Cursor → Run Cursor
read_loop zero block_sz w mf total_bytes loads k c = hang
read_loop (suc fuel) block_sz w mf total_bytes loads k c =
    pass block_sz w mf total_bytes (loads k) c
    >>= elim [ break d ↦ done d | go d ↦ read_loop fuel block_sz w mf total_bytes loads (k + 1) d ]

-- what a call leaves behind
pub record Fread : Type 0 where
  pub bytes_read : ℕ
  pub ptr : List ℕ
  pub mf : MyFile
  pub world : World

-- the stores after the loop, and the return
unfoldable pub finish : World → MyFile → Cursor → Fread
finish w mf c = record {
  bytes_read = c.bytes_read;
  ptr = c.ptr;
  mf = record mf {
    current_block = c.index;
    current_offset = c.offset;
    isfirst = c.isfirst;
    fi_read = c.fi_read;
  };
  world = record w { word = update w.word mf.s.cq_ring.head c.head };
}

unfoldable pub start : World → MyFile → List ℕ → Cursor
start w mf ptr = record {
  ptr = ptr;
  bytes_read = 0;
  head = w.word mf.s.cq_ring.head;
  index = mf.current_block;
  offset = mf.current_offset;
  isfirst = mf.isfirst;
  fi_read = mf.fi_read;
}

-- my_fread(ptr, size, count, mf). `polls` bounds the wait for the first completion; the loop gets a
-- round for each byte asked for, and one more.
unfoldable pub my_fread : ℕ → ℕ → (ℕ → ℕ) → World → List ℕ → ℕ → ℕ → MyFile → Run Fread
my_fread block_sz polls loads w ptr size count mf =
    if leb (to_unsigned mf.blocks) mf.current_block
    then done (record { bytes_read = 0; ptr = ptr; mf = mf; world = w })
    else ((if mf.isfirst == 0 then wait_tail polls loads (start w mf ptr).head 0 else done 0)
        >>= λ k.
            read_loop (suc (u64 (size * count))) block_sz w mf (u64 (size * count)) loads k
              (start w mf ptr)
            >>= λ c. done (finish w mf c))
