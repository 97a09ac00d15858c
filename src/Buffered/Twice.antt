-- ===== src/Buffered/Twice.antt =====
-- my_fread of example/io_uring_polling.c: the first call, whose bytes come through the ring, and the second.
use io_uring_example.Base.{
  ℕ, ◌≤◌, ◌≡◌, refl, ◌∙◌, true, some, List, length, take, arith, done, le→leb, ◌==◌, pos, to_size,
}
use io_uring_example.Kernel.{Cqe, op_readv}
use io_uring_example.Buffered.{Stdio, MyFile, Fread, buffer_size, prep_rw, read_async, my_fread}
use io_uring_example.Buffered.Later.{Streams, started, sync_end, my_fread-later}

module _ {M : Type 0} (stdio : Stdio M) (content : List ℕ) (mf : MyFile)
    (streams : Streams stdio content mf.stream) where
  -- The readv through the ring, as documented: there is an entry, its completion comes with the
  -- file's first 1024 bytes, and the position of the stream is left alone.
  pub record ReadsFirst (m : M) : Type 0 where
    pub slot : ℕ
    pub taken : M
    pub after : M
    pub cqe : Cqe
    pub got_slot : stdio.get_sqe mf.ring m ≡ some (slot, taken)
    pub waited :
        stdio.wait_cqe mf.ring (
          stdio.submit mf.ring
            (stdio.write_sqe slot (prep_rw op_readv (stdio.fileno mf.stream) mf.iov 1 0) taken))
        ≡ (pos 0, cqe, after)
    pub res : cqe.res ≡ pos buffer_size
    pub bytes : stdio.memory mf.iov_base buffer_size after ≡ take buffer_size content
    pub place : streams.position (stdio.cqe_seen mf.ring after) ≡ streams.position m

  async_run :
      (room : ℕ) (m : M) (r : ReadsFirst m)
      → buffer_size ≤ room
      → read_async stdio room mf (started stdio buffer_size m)
        ≡ done (
          true,
          record mf { async_initiated = 1 },
          record {
            total_bytes = 0;
            bytes_read = buffer_size;
            stored = take buffer_size content;
            machine = stdio.cqe_seen mf.ring r.after;
          },
        )
  unfolding read_async to_size
  async_run room m r fits =
      rw (r.got_slot, read_async, r.waited, r.res, le→leb buffer_size room fits, r.bytes)

  pub first_run :
      (room : ℕ) (m : M) (r : ReadsFirst m)
      → (mf.async_initiated == 0) ≡ true
      → buffer_size ≤ room
      → my_fread stdio 2 room 1 buffer_size mf m
        ≡ done (record {
          result = buffer_size;
          stored = take buffer_size content;
          mf = record mf { async_initiated = 1 };
          machine = stdio.cqe_seen mf.ring r.after;
        })
  unfolding my_fread
  first_run room m r first fits =
      rw (first, async_run room m r fits)
        (rw (
          sync_end stdio 2 room (record mf { async_initiated = 1 })
            (record {
              total_bytes = 0;
              bytes_read = buffer_size;
              stored = take buffer_size content;
              machine = stdio.cqe_seen mf.ring r.after;
            })
            refl))

  -- On a file of 1024 bytes or more whose stream stands at its start, with a first readv that serves 1024
  -- bytes and room for as many: the first two calls for 1024 bytes both return 1024, and both
  -- store the same bytes, the first 1024 of the file.
  pub my_fread-twice :
      (room : ℕ) (m : M)
      → ReadsFirst m
      → (mf.async_initiated == 0) ≡ true
      → streams.position m ≡ 0
      → buffer_size ≤ length content
      → buffer_size ≤ room
      → (a : Fread M) × (b : Fread M) × (my_fread stdio 2 room 1 buffer_size mf m ≡ done a)
        × (my_fread stdio 2 room 1 buffer_size a.mf a.machine ≡ done b)
        × (a.result ≡ buffer_size)
        × (b.result ≡ buffer_size)
        × (a.stored ≡ take buffer_size content)
        × (b.stored ≡ take buffer_size content)
  my_fread-twice room m r first start long fits =
      let a : Fread M = record {
        result = buffer_size;
        stored = take buffer_size content;
        mf = record mf { async_initiated = 1 };
        machine = stdio.cqe_seen mf.ring r.after;
      } in
      let (b, run, stored, result) =
        my_fread-later stdio content (record mf { async_initiated = 1 }) streams a.machine room
          buffer_size refl (omega arith) (omega arith) fits in
      let place : streams.position a.machine ≡ 0 = r.place ∙ start in
      (
        a,
        b,
        first_run room m r first fits,
        run,
        refl,
        result ∙ rw (place, le→leb buffer_size (length content) long),
        refl,
        stored ∙ rw place,
      )
