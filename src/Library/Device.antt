-- ===== src/Library/Device.antt =====
-- device.cpp, my_fread: the part that runs on the device. It is the loop of example/io_uring_read.c, on
-- the steps of Reader/Read, without a wait for the completion.
pub mod Same
pub mod Delivery
pub mod Keeps
use io_uring_example.Base.{
  ℕ, zero, suc, ◌*◌, Option, none, some, List, ltb, leb, if◌then◌else◌, Run, done, hang, ◌>>=◌,
  deref, u64, to_unsigned, ℤ,
}
use io_uring_example.Reader.{Submitter, World, update}
use io_uring_example.Reader.Read.{Cursor, Flow, go, break, take_completion, copy_block}
use io_uring_example.Library.{Pointer, MyFile}

-- one round of the do loop; `go` is a condition that holds at its end
unfoldable pub pass : ℕ → World → Submitter → ℤ → ℕ → ℕ → Cursor → Run Flow
pass block_sz w s blocks total_bytes tail c = elim (take_completion w s.cq_ring tail c) [
  | break c' ↦ done (break c')
  | go c' ↦ copy_block block_sz w total_bytes c' >>= λ d. done (
      if leb total_bytes d.bytes_read
      then break d
      else if ltb d.index (to_unsigned blocks)
      then go d
      else break d)
]

-- do { … } while (index < mf->blocks), with the value that each load of the tail gives
unfoldable pub read_loop : ℕ → ℕ → World → Submitter → ℤ → ℕ → (ℕ → ℕ) → ℕ → Cursor → Run Cursor
read_loop zero block_sz w s blocks total_bytes loads k c = hang
read_loop (suc fuel) block_sz w s blocks total_bytes loads k c =
    pass block_sz w s blocks total_bytes (loads k) c >>= elim [
      | break d ↦ done d
      | go d ↦ read_loop fuel block_sz w s blocks total_bytes loads (suc k) d
    ]

pub record Fread : Type 0 where
  pub bytes_read : ℕ
  pub ptr : List ℕ
  pub mf : MyFile
  pub world : World

-- the stores after the loop, and the return
abbrev pub finish : World → Submitter → MyFile → Cursor → Fread
finish w s mf c = record {
  bytes_read = c.bytes_read;
  ptr = c.ptr;
  mf = record mf {
    current_block = c.index;
    current_offset = c.offset;
    isfirst = c.isfirst;
    fi_read = c.fi_read;
  };
  world = record w { word = update w.word s.cq_ring.head c.head };
}

abbrev pub start : World → Submitter → MyFile → List ℕ → Cursor
start w s mf ptr = record {
  ptr = ptr;
  bytes_read = 0;
  head = w.word s.cq_ring.head;
  index = mf.current_block;
  offset = mf.current_offset;
  isfirst = mf.isfirst;
  fi_read = mf.fi_read;
}

-- my_fread(ptr, size, count, mf). The loop gets a round for each byte asked for, and one more.
unfoldable pub my_fread : ℕ → (ℕ → ℕ) → World → List ℕ → ℕ → ℕ → MyFile → Run Fread
my_fread block_sz loads w ptr size count mf = deref mf.s >>= λ p.
    if leb (to_unsigned mf.blocks) mf.current_block
    then done (record { bytes_read = 0; ptr = ptr; mf = mf; world = w })
    else (read_loop (suc (u64 (size * count))) block_sz w p.target mf.blocks (u64 (size * count))
          loads 0 (start w p.target mf ptr)
        >>= λ c. done (finish w p.target mf c))
