-- ===== src/Repeat/Served.antt =====
-- my_fread of example/io_uring_poll.cpp: one round, on a ring that serves the start of a file.
use io_uring_example.Base.{
  ℕ, suc, ◌<◌, lt→ltb, ◌+◌, ◌-◌, ◌≤◌, ◌≡◌, inl, inr, some, List, ◌++◌, length, min, take, arith,
  done, le→leb, ltb, Bool-cases, ltb→lt, ltb_false→le, u64, pos, to_size, if◌then◌else◌,
}
use io_uring_example.Kernel.{Cqe, op_readv}
use io_uring_example.Buffered.{Stdio, Cursor, buffer_size, prep_rw}
use io_uring_example.Repeat.{MyFile, goes, read_round, read_loop}

smaller : (a b : ℕ) → (if ltb a b then a else b) ≡ min a b
smaller a b = elim (Bool-cases (ltb a b)) [
  | inl below ↦ let lt = ltb→lt a b below in rw below (omega arith)
  | inr above ↦ let le = ltb_false→le a b above in rw above (omega arith)
]

to_size-pos : (n : ℕ) → n ≤ buffer_size → to_size (pos n) ≡ n
unfolding to_size
to_size-pos n few = omega arith

-- a round that goes on
pub loop_step :
    {M : Type 0} (stdio : Stdio M) (mf : MyFile) (fuel room : ℕ) (c d : Cursor M)
    → 0 < c.total_bytes
    → read_round stdio room mf c ≡ done (goes, d)
    → read_loop stdio (suc fuel) room mf c ≡ read_loop stdio fuel room mf d
unfolding read_loop
loop_step stdio mf fuel room c d some_bytes run =
    rw (read_loop, lt→ltb 0 c.total_bytes some_bytes, run)

module _ {M : Type 0} (stdio : Stdio M) (content : List ℕ) (mf : MyFile) where
  -- A readv at offset 0, as documented: there is an entry, and its completion comes with the
  -- file's first bytes, 1024 at most, in the buffer. The ring is ready again after cqe_seen.
  pub record Served (Ready : M → Type 0) (m : M) : Type 0 where
    pub slot : ℕ
    pub taken : M
    pub after : M
    pub cqe : Cqe
    pub got_slot : stdio.get_sqe mf.ring m ≡ some (slot, taken)
    pub waited :
        stdio.wait_cqe mf.ring (
          stdio.submit mf.ring
            (stdio.write_sqe slot (prep_rw op_readv (stdio.fileno mf.stream) mf.iov 1 0) taken))
        ≡ (pos 0, cqe, after)
    pub res : cqe.res ≡ pos (min buffer_size (length content))
    pub bytes :
        (n : ℕ)
        → n ≤ min buffer_size (length content)
        → stdio.memory mf.iov_base n after ≡ take n content
    pub ready : Ready (stdio.cqe_seen mf.ring after)

  -- a ring that serves each request
  pub record Serves : Type 1 where
    pub Ready : M → Type 0
    pub serve : (m : M) → Ready m → Served Ready m

  module _ (serves : Serves) where
    -- how many bytes a round copies
    abbrev pub copied : ℕ → ℕ
    copied total = min (min buffer_size total) (min buffer_size (length content))

    abbrev pub round_end : Cursor M → M → Cursor M
    round_end c m' = record {
      total_bytes = c.total_bytes - copied c.total_bytes;
      bytes_read = u64 (c.bytes_read + copied c.total_bytes);
      stored = c.stored ++ take (copied c.total_bytes) content;
      machine = m';
    }

    pub read_round_lem :
        (room : ℕ) (c : Cursor M)
        → serves.Ready c.machine
        → length c.stored + copied c.total_bytes ≤ room
        → (m' : M) × serves.Ready m' × (read_round stdio room mf c ≡ done (goes, round_end c m'))
    unfolding read_round
    read_round_lem room c ready fits =
        let r = serves.serve c.machine ready in
        (
          stdio.cqe_seen mf.ring r.after,
          r.ready,
          rw (
            r.got_slot,
            read_round,
            r.waited,
            r.res,
            to_size-pos (min buffer_size (length content)) (omega arith),
            smaller buffer_size c.total_bytes,
            smaller (min buffer_size c.total_bytes) (min buffer_size (length content)),
            le→leb _ _ fits,
            r.bytes (copied c.total_bytes) (omega arith),
          ),
        )
