-- ===== src/Copy/Serves.antt =====
-- example/io_uring_cp.c: the two files as lists of bytes, and what the kernel does for the requests.
use io_uring_example.Base.{
  ℕ, ◌+◌, ◌-◌, ◌%◌, ◌≤◌, ◌<◌, ◌≡◌, ◌≢◌, u32, refl, ◌∙◌, false, List, ◌++◌, take, drop, length,
  length-take, length-append, length-drop, take-append_le, take-append_past, take-take_le,
  take-append-take, arith, ◌==◌, pos,
}
use Prim.Native.Nat.{◌∣◌}
use io_uring_example.Kernel.{op_readv, op_writev}
use io_uring_example.Copy.{Shared, Setup, request}

-- pwrite of `xs` at an offset inside the file or at its end
abbrev pub write_at : ℕ → List ℕ → List ℕ → List ℕ
write_at off xs dst = take off dst ++ (xs ++ drop (off + length xs) dst)

-- The documented effect of io_uring_enter for one entry, which it waits for, where the submission ring is not
-- empty: its tail is not its head. The kernel takes the entry, moves the head and posts one completion; a
-- readv stores a part of what is asked for and left, not empty where there is any, at the start of the buffer;
-- a writev writes all that is asked for. Of an empty ring nothing is said. The rings have sizes that
-- io_uring_setup gives for two entries: the submission ring's is even.
pub record Serves (setup : Setup) : Type 0 where
  pub entries : (0 < setup.sq_entries) × (0 < setup.cq_entries)
  pub even : 2 ∣ setup.sq_entries
  pub completed :
      (m : Shared)
      → m.sq_head ≢ m.sq_tail
      → ((setup.enter m).cq_head == (setup.enter m).cq_tail) ≡ false
  pub taken :
      (m : Shared)
      → m.sq_head ≢ m.sq_tail
      → ((setup.enter m).sq_head ≡ u32 (m.sq_head + 1)) × ((setup.enter m).sq_tail ≡ m.sq_tail)
  pub on_read :
      (m : Shared) (off ud : ℕ)
      → m.sq_head ≢ m.sq_tail
      → m.sqe ≡ request op_readv setup.src_fd setup.iov off ud
      → m.iov_len ≤ length m.buffer
      → (r : ℕ) × (((setup.enter m).cqe ((setup.enter m).cq_head % setup.cq_entries)).res ≡ pos r)
        × (r ≤ m.iov_len)
        × (0 < m.iov_len → off < length m.source → 0 < r)
        × (take r (setup.enter m).buffer ≡ take r (drop off m.source))
        × (length (setup.enter m).buffer ≡ length m.buffer)
        × ((setup.enter m).source ≡ m.source)
        × ((setup.enter m).dest ≡ m.dest)
        × ((setup.enter m).iov_len ≡ m.iov_len)
  pub on_write :
      (m : Shared) (off ud : ℕ)
      → m.sq_head ≢ m.sq_tail
      → m.sqe ≡ request op_writev setup.dst_fd setup.iov off ud
      → m.iov_len ≤ length m.buffer
      → off ≤ length m.dest
      → (((setup.enter m).cqe ((setup.enter m).cq_head % setup.cq_entries)).res ≡ pos m.iov_len)
        × ((setup.enter m).dest ≡ write_at off (take m.iov_len m.buffer) m.dest)
        × ((setup.enter m).buffer ≡ m.buffer)
        × ((setup.enter m).source ≡ m.source)

pub take-write_at :
    (off r n : ℕ) (buffer content dst : List ℕ)
    → off ≤ length dst
    → r ≤ n
    → n ≤ length buffer
    → take off dst ≡ take off content
    → take r buffer ≡ take r (drop off content)
    → take (off + r) (write_at off (take n buffer) dst) ≡ take (off + r) content
take-write_at off r n buffer content dst h1 h2 h3 e1 e2 =
    let xs = take n buffer in
    let rest = drop (off + length xs) dst in
    let front : off + r ≡ length (take off dst) + r = omega (arith, length-take off dst) in
    take-append_past (take off dst) (xs ++ rest) (off + r) r front
    ∙ rw
        (
          take-append_le r xs rest (omega (arith, length-take n buffer)),
          take-take_le r n buffer h2,
          e1,
          e2,
        )
        (take-append-take off r (off + r) content refl)

pub length-write_at :
    (off : ℕ) (xs dst : List ℕ)
    → off ≤ length dst
    → (off + length xs ≤ length (write_at off xs dst))
      × ((n : ℕ) → length dst ≤ n → off + length xs ≤ n → length (write_at off xs dst) ≤ n)
length-write_at off xs dst h =
    let rest = drop (off + length xs) dst in
    let all : length (write_at off xs dst) ≡ off + (length xs + (length dst - (off + length xs))) =
      omega (
        arith,
        length-append (take off dst) (xs ++ rest),
        length-append xs rest,
        length-take off dst,
        length-drop (off + length xs) dst,
      ) in
    (omega (arith, all), λ n h1 h2. omega (arith, all))
