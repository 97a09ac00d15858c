-- ===== src/Copy/Whole.antt =====
-- example/io_uring_cp.c: what the destination holds when the copy loop ends.
use io_uring_example.Base.{
  ℕ, zero, suc, ◌+◌, ◌-◌, ◌%◌, ◌≤◌, ◌<◌, ◌^◌, ◌≡◌, ◌≢◌, u32, refl, sym, ap, ◌∙◌, inl, inr, false,
  some, List, [], take, drop, length, length-take, take-length, arith, done, Bool-cases, ltb,
  ltb→lt, ltb_false→le, le→ltb_false, ◌==◌, pos, to_size,
}
use native.Mathlib.Nat.{mod-mod_of_dvd}
use io_uring_example.Kernel.{Sqe, Cqe, op_readv, op_writev}
use io_uring_example.Copy.{
  Shared, Setup, file_block_size, request, submitted, submit_and_wait, seen, copied, copy_round,
  copy_loop, bytes_to_read,
}
use io_uring_example.Copy.Serves.{Serves, write_at, take-write_at, length-write_at}

module _ (setup : Setup) (serves : Serves setup) where
  submit_and_wait_lem :
      (sqe : Sqe) (m : Shared)
      → m.sq_head ≢ (submitted setup sqe m).sq_tail
      → submit_and_wait setup sqe m
        ≡ done (
          (setup.enter (submitted setup sqe m)).cqe
              ((setup.enter (submitted setup sqe m)).cq_head % setup.cq_entries),
          setup.enter (submitted setup sqe m),
        )
  unfolding submit_and_wait
  submit_and_wait_lem sqe m queued =
      let (sq, cq) = serves.entries in
      let z1 : (setup.sq_entries == 0) ≡ false = ground arith in
      let z2 : (setup.cq_entries == 0) ≡ false = ground arith in
      rw (z1, z2, serves.completed (submitted setup sqe m) queued)

  -- The tail stays below the number of entries, and the head counts on: they are both even or both odd when
  -- the ring is empty, and differ once a request is on it.
  abbrev pub IsEmpty : Shared → Type 0
  IsEmpty m = m.sq_head % 2 ≡ m.sq_tail % 2

  moved : (sqe : Sqe) (m : Shared) → (submitted setup sqe m).sq_tail % 2 ≡ (m.sq_tail + 1) % 2
  moved sqe m = mod-mod_of_dvd 2 (u32 (m.sq_tail + 1)) serves.even ∙ omega arith

  IsEmpty-queued :
      (sqe : Sqe) (m : Shared) → IsEmpty m → m.sq_head ≢ (submitted setup sqe m).sq_tail
  IsEmpty-queued sqe m e same =
      let odd = moved sqe m in absurd (omega (arith, ap (λ t. t % 2) same))

  IsEmpty-taken :
      (sqe : Sqe) (m : Shared) → IsEmpty m → IsEmpty (setup.enter (submitted setup sqe m))
  IsEmpty-taken sqe m e =
      let (head, tail) = serves.taken (submitted setup sqe m) (IsEmpty-queued sqe m e) in
      omega (arith, head, ap (λ t. t % 2) tail, moved sqe m)

  -- the first `offset` bytes have been copied
  pub record IsCopied (content : List ℕ) (offset : ℕ) (m : Shared) : Type 0 where
    pub source : m.source ≡ content
    pub inside : offset ≤ length content
    pub reached : offset ≤ length m.dest
    pub no_more : length m.dest ≤ length content
    pub same : take offset m.dest ≡ take offset content
    pub room : file_block_size ≤ length m.buffer
    pub empty : IsEmpty m

  copy_round_run :
      (file_size offset r k : ℕ) (m m1 m2 : Shared) (c1 c2 : Cqe)
      → submit_and_wait setup
          (request op_readv setup.src_fd setup.iov offset 1)
          (record m { iov_len = bytes_to_read file_size offset })
        ≡ done (c1, m1)
      → c1.res ≡ pos r
      → submit_and_wait setup (request op_writev setup.dst_fd setup.iov offset 2) (seen setup m1)
        ≡ done (c2, m2)
      → c2.res ≡ pos k
      → ltb k r ≡ false
      → r < 2 ^ 64
      → copy_round setup file_size offset m ≡ done (copied (offset + r) (seen setup m2))
  unfolding copy_round to_size
  copy_round_run file_size offset r k m m1 m2 c1 c2 e1 h1 e2 h2 enough small =
      let whole : r % 2 ^ 64 ≡ r = omega arith in rw (e1, h1, e2, h2, enough, whole)

  bytes_to_read_lem :
      (file_size offset : ℕ)
      → offset < file_size
      → (0 < bytes_to_read file_size offset)
        × (bytes_to_read file_size offset ≤ file_block_size)
        × (offset + bytes_to_read file_size offset ≤ file_size)
  bytes_to_read_lem file_size offset h = (ground arith, ground arith, ground arith)

  -- one round copies a byte or more
  round-IsCopied :
      (content : List ℕ) (offset : ℕ) (m : Shared)
      → IsCopied content offset m
      → offset < length content
      → length content < 2 ^ 63
      → (offset' : ℕ) × (m' : Shared) × (copy_round setup (length content) offset m
          ≡ done (copied offset' m'))
        × IsCopied content offset' m'
        × (offset < offset')
  unfolding copy_round
  round-IsCopied content offset m c left small =
      let n = bytes_to_read (length content) offset in
      let (some_bytes, few, inside) = bytes_to_read_lem (length content) offset left in
      let s1 =
        submitted setup (request op_readv setup.src_fd setup.iov offset 1)
          (record m { iov_len = n }) in
      let m1 = setup.enter s1 in
      let q1 =
        IsEmpty-queued (request op_readv setup.src_fd setup.iov offset 1) (record m { iov_len = n })
          c.empty in
      let e1 : IsEmpty m1 =
        IsEmpty-taken (request op_readv setup.src_fd setup.iov offset 1) (record m { iov_len = n })
          c.empty in
      let (r, res, le, more, bytes, len, source, dest, iov) =
        serves.on_read s1 offset 1 q1 refl (omega (arith, c.room)) in
      let s2 =
        submitted setup (request op_writev setup.dst_fd setup.iov offset 2) (seen setup m1) in
      let m2 = setup.enter s2 in
      let q2 =
        IsEmpty-queued (request op_writev setup.dst_fd setup.iov offset 2) (seen setup m1) e1 in
      let (res2, dest2, buffer2, source2) =
        serves.on_write s2 offset 2 q2 refl (omega (arith, iov, len, c.room))
          (omega (arith, ap length dest, c.reached)) in
      let written : m2.dest ≡ write_at offset (take n m1.buffer) m.dest = dest2 ∙ rw (iov, dest) in
      let read_bytes : take r m1.buffer ≡ take r (drop offset content) =
        bytes ∙ ap (λ t. take r (drop offset t)) c.source in
      let size : length (take n m1.buffer) ≡ n =
        omega (arith, length-take n m1.buffer, len, c.room) in
      let (longer, no_longer) = length-write_at offset (take n m1.buffer) m.dest c.reached in
      (
        offset + r,
        seen setup m2,
        copy_round_run (length content) offset r s2.iov_len m m1 m2 _ _ (submit_and_wait_lem _ _ q1)
            res (submit_and_wait_lem _ _ q2) res2 (le→ltb_false _ _ (omega (arith, le, iov)))
            (omega (arith, le, few)),
        record {
          source = source2 ∙ source ∙ c.source;
          inside = omega (arith, le, inside);
          reached = omega (arith, ap length written, longer, size, le);
          no_more = omega (
            arith,
            ap length written,
            no_longer (length content) c.no_more (omega (arith, size, inside)),
          );
          same =
              ap (λ t. take (offset + r) t) written
              ∙ take-write_at offset r n m1.buffer content m.dest c.reached le
                  (omega (arith, len, c.room, few)) c.same read_bytes;
          room = omega (arith, ap length buffer2, len, c.room);
          empty =
              IsEmpty-taken (request op_writev setup.dst_fd setup.iov offset 2) (seen setup m1) e1;
        },
        omega (arith, more some_bytes (omega (arith, ap length c.source, left))),
      )

  loop_stop :
      (fuel file_size offset : ℕ) (m : Shared)
      → ltb offset file_size ≡ false
      → copy_loop setup fuel file_size offset m ≡ done (some m)
  unfolding copy_loop
  loop_stop zero file_size offset m h = rw h
  loop_stop (suc fuel) file_size offset m h = rw h

  loop_done :
      (fuel : ℕ) (content : List ℕ) (offset : ℕ) (m : Shared)
      → IsCopied content offset m
      → ltb offset (length content) ≡ false
      → (copy_loop setup fuel (length content) offset m ≡ done (some m)) × (m.dest ≡ content)
  unfolding copy_loop
  loop_done fuel content offset m c stop =
      let past = ltb_false→le _ _ stop in
      (
        loop_stop fuel (length content) offset m stop,
        sym (take-length offset m.dest (omega (arith, c.no_more)))
            ∙ c.same
            ∙ take-length offset content past,
      )

  copy_loop-IsCopied :
      (fuel : ℕ) (content : List ℕ) (offset : ℕ) (m : Shared)
      → IsCopied content offset m
      → length content < 2 ^ 63
      → length content - offset ≤ fuel
      → (m' : Shared) × (copy_loop setup fuel (length content) offset m ≡ done (some m'))
        × (m'.dest ≡ content)
  unfolding copy_loop
  copy_loop-IsCopied zero content offset m c small hf =
      let (run, same) = loop_done zero content offset m c (le→ltb_false _ _ (omega arith)) in
      (m, run, same)
  copy_loop-IsCopied (suc fuel) content offset m c small hf =
      elim (Bool-cases (ltb offset (length content))) [
        | inl more ↦
            let (offset', m1, ran, c1, further) =
              round-IsCopied content offset m c (ltb→lt _ _ more) small in
            let (m', run, same) =
              copy_loop-IsCopied fuel content offset' m1 c1 small (omega arith) in
            (m', rw (more, ran) run, same)
        | inr stop ↦
            let (run, same) = loop_done (suc fuel) content offset m c stop in (m, run, same)
      ]

  -- With a kernel that serves requests as documented, its reads as short as it likes, an empty submission
  -- ring, a buffer of 4096 bytes or more, a file of less than 2 ^ 63 bytes and an empty destination: the loop returns within a
  -- round for each byte, no error is met, and the destination then holds what the source holds.
  pub copy_loop-copies :
      (fuel : ℕ) (m : Shared)
      → m.sq_head ≡ m.sq_tail
      → m.dest ≡ []
      → file_block_size ≤ length m.buffer
      → length m.source < 2 ^ 63
      → length m.source ≤ fuel
      → (m' : Shared) × (copy_loop setup fuel (length m.source) 0 m ≡ done (some m'))
        × (m'.dest ≡ m.source)
  copy_loop-copies fuel m idle empty room small hf =
      copy_loop-IsCopied fuel m.source 0 m
        (record {
          source = refl;
          inside = omega arith;
          reached = omega arith;
          no_more = omega (arith, ap length empty);
          same = refl;
          room = room;
          empty = ap (λ t. t % 2) idle;
        })
        small (omega arith)
