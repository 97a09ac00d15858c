-- ===== src/Copy.antt =====
-- example/io_uring_cp.c: the copy loop of main. Copy/Start is main around it.
pub mod Held
pub mod Serves
pub mod Whole
pub mod Start
mod Tests
use io_uring_example.Base.{
  ℕ, zero, suc, ◌+◌, ◌-◌, ◌%◌, Bool, true, false, not, Option, none, some, List, [], ◌++◌, take,
  drop, length, ltb, ◌==◌, if◌then◌else◌, Run, done, fault, hang, ◌>>=◌, ◌>>◌, assert, u32, ℤ, pos,
  negsuc, is_neg, ltb_ℤ, to_size,
}
use io_uring_example.Kernel.{Sqe, Cqe, op_readv, op_writev}

-- FILE_BLOCK_SIZE
abbrev pub file_block_size : ℕ
file_block_size = 4096

-- what the program and the kernel share: the first submission entry, the words of the rings (`sq_head` is
-- moved by the kernel), the completion entries, the length of the iovec, and the buffer; and the two files
pub record Shared : Type 0 where
  pub sqe : Sqe
  pub sq_head : ℕ
  pub sq_tail : ℕ
  pub cq_head : ℕ
  pub cq_tail : ℕ
  pub cqe : ℕ → Cqe
  pub iov_len : ℕ
  pub buffer : List ℕ
  pub source : List ℕ
  pub dest : List ℕ

-- the constants of a run: params.sq_entries, params.cq_entries, src_fd, dst_fd, &iov, and
-- io_uring_enter(ring_fd, 1, 1, 0)
pub record Setup : Type 0 where
  pub sq_entries : ℕ
  pub cq_entries : ℕ
  pub src_fd : ℤ
  pub dst_fd : ℤ
  pub iov : ℕ
  pub enter : Shared → Shared

-- memset(sqe, 0, sizeof(*sqe)) and the stores after it
abbrev pub request : ℕ → ℤ → ℕ → ℕ → ℕ → Sqe
request opcode fd addr off user_data = record {
  opcode = opcode;
  flags = 0;
  ioprio = 0;
  fd = fd;
  off = off;
  addr = addr;
  len = 1;
  rw_flags = 0;
  user_data = user_data;
  buf_index = 0;
  personality = 0;
  file_index = 0;
  pad2_0 = 0;
  pad2_1 = 0;
}

abbrev pub bytes_to_read : ℕ → ℕ → ℕ
bytes_to_read file_size offset =
    if ltb file_block_size (file_size - offset) then file_block_size else file_size - offset

module _ (setup : Setup) where
  -- the shared memory when io_uring_enter is called for a request
  abbrev pub submitted : Sqe → Shared → Shared
  submitted sqe m = record m { sqe = sqe; sq_tail = u32 (m.sq_tail + 1) % setup.sq_entries }

  -- One request: its stores, io_uring_enter, the wait for its completion, and the look at that. The wait is
  -- over at once or never, since the kernel posts the completion before io_uring_enter returns.
  unfoldable pub submit_and_wait : Sqe → Shared → Run (Cqe × Shared)
  submit_and_wait sqe m = do
    assert (not (setup.sq_entries == 0))
    let m1 = setup.enter (submitted sqe m)
    if m1.cq_head == m1.cq_tail
        then hang
        else assert (not (setup.cq_entries == 0))
          >> done (m1.cqe (m1.cq_head % setup.cq_entries), m1)

  -- (*cq_head)++
  abbrev pub seen : Shared → Shared
  seen m = record m { cq_head = u32 (m.cq_head + 1) }

  -- how one round of the loop ends: die, or the next offset
  pub data Round : Type 0 where
    died : Round
    copied : ℕ → Shared → Round

  -- the body of the loop
  unfoldable pub copy_round : ℕ → ℕ → Shared → Run Round
  copy_round file_size offset m =
      submit_and_wait (request op_readv setup.src_fd setup.iov offset 1)
        (record m { iov_len = bytes_to_read file_size offset })
      >>= λ r.
          if is_neg r.0.res
          then done died
          else (submit_and_wait (request op_writev setup.dst_fd setup.iov offset 2) (seen r.1)
              >>= λ q.
                  if ltb_ℤ q.0.res r.0.res
                  then done died
                  else done (copied (offset + to_size r.0.res) (seen q.1)))

  -- while (offset < file_size) { … } on fuel: `none` is the exit of die
  unfoldable pub copy_loop : ℕ → ℕ → ℕ → Shared → Run (Option Shared)
  copy_loop zero file_size offset m = if ltb offset file_size then hang else done (some m)
  copy_loop (suc fuel) file_size offset m =
      let next =
        copy_round file_size offset m
        >>= elim [ died ↦ done none | copied offset' m' ↦ copy_loop fuel file_size offset' m' ] in
      if ltb offset file_size then next else done (some m)
