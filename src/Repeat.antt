-- ===== src/Repeat.antt =====
-- example/io_uring_poll.cpp: all functions. Each read is one readv at offset 0 into the buffer of the
-- file, from where its bytes are copied to the caller.
pub mod Served
pub mod Cycle
pub mod Fault
mod Tests
use io_uring_example.Base.{
  ℕ, zero, suc, ◌+◌, ◌-◌, ◌*◌, ◌/◌, Bool, true, false, not, Option, none, some, List, [], ◌∷◌, ◌++◌,
  length, take, ltb, leb, ◌==◌, if◌then◌else◌, Run, done, fault, hang, ◌>>=◌, ◌>>◌, assert, u64, ℤ,
  is_neg, to_size,
}
use io_uring_example.Kernel.{op_readv}
use io_uring_example.Buffered.Main.{until_zero}
use io_uring_example.Buffered.{
  Stdio, Cursor, buffer_size, queue_depth, setup_params, offset_of_iov, prep_rw,
}

-- The calls of liburing and stdio, and what C++ adds: `new`, which throws where it is `none`,
-- `delete`, and a string to std::cout.
pub record Cpp (M : Type 0) : Type 0 where
  pub stdio : Stdio M
  pub new_object : ℕ → M → Option ℕ × M
  pub delete_object : ℕ → M → M
  pub print : List ℕ → M → M

-- MyFile. The ring is copied into it by value; its number stands for the mappings, which both share.
pub record MyFile : Type 0 where
  pub stream : ℕ
  pub ring : ℕ
  pub iov : ℕ
  pub iov_base : ℕ
  pub iov_len : ℕ

abbrev pub sizeof_my_file : ℕ
sizeof_my_file = 240

-- what my_fopen leaves behind: an exception, NULL, or the address of an object and what it holds
pub data Opening : Type 0 where
  thrown : Opening
  nullptr : Opening
  opened : ℕ → MyFile → Opening

-- how main ends: with a code, or by an exception that nothing catches
pub data Exit : Type 0 where
  returned : ℕ → Exit
  terminated : Exit

-- what a round of my_fread does next: the next round, a break, or a return of bytes_read
pub data Next : Type 0 where
  goes : Next
  breaks : Next
  returns : Next

module _ {M : Type 0} (cpp : Cpp M) where
  -- the end of my_fopen, from `new MyFile` on
  unfoldable pub new_file : ℕ → ℕ → M → Opening × M
  new_file ring fp m =
      let (object, m1) = cpp.new_object sizeof_my_file m in
      let (buffer, m2) = cpp.stdio.malloc buffer_size m1 in
      elim object [
        | none ↦ (thrown, m1)
        | some mf ↦ elim buffer [
          | none ↦
              (nullptr, cpp.delete_object mf (cpp.stdio.queue_exit ring (cpp.stdio.fclose fp m2)))
          | some iov_base ↦ (
            opened mf (record {
              stream = fp;
              ring = ring;
              iov = mf + offset_of_iov;
              iov_base = iov_base;
              iov_len = buffer_size;
            }),
            m2,
          )
        ]
      ]

  -- my_fopen once the ring is there
  unfoldable pub open_stream : ℕ → List ℕ → List ℕ → M → Opening × M
  open_stream ring filename mode m =
      let (stream, m1) = cpp.stdio.fopen filename mode m in
      elim stream [
        | none ↦ (nullptr, cpp.stdio.queue_exit ring m1)
        | some fp ↦
            let (ret, m2) = cpp.stdio.register_files ring (cpp.stdio.fileno fp) m1 in
            if is_neg (cpp.stdio.fileno fp)
            then (nullptr, cpp.stdio.queue_exit ring (cpp.stdio.fclose fp m1))
            else if is_neg ret
            then (nullptr, cpp.stdio.queue_exit ring (cpp.stdio.fclose fp m2))
            else new_file ring fp m2
      ]

  unfoldable pub my_fopen : List ℕ → List ℕ → M → Opening × M
  my_fopen filename mode m =
      let (made, m1) = cpp.stdio.queue_init queue_depth setup_params m in
      elim made [ none ↦ (nullptr, m1) | some ring ↦ open_stream ring filename mode m1 ]

  -- my_fclose(mf) where mf and its stream are not NULL
  unfoldable pub my_fclose : ℕ → MyFile → M → M
  my_fclose address mf m =
      cpp.delete_object address
        (cpp.stdio.queue_exit mf.ring (cpp.stdio.free mf.iov_base (cpp.stdio.fclose mf.stream m)))

module _ {M : Type 0} (stdio : Stdio M) where
  -- one round of the loop of my_fread; `room` is the size of the caller's buffer
  unfoldable pub read_round : ℕ → MyFile → Cursor M → Run (Next × Cursor M)
  read_round room mf c =
      let bytes_to_read = if ltb buffer_size c.total_bytes then buffer_size else c.total_bytes in
      elim (stdio.get_sqe mf.ring c.machine) [
        | none ↦ done (returns, c)
        | some (sqe, m1) ↦
            let prepared =
              stdio.write_sqe sqe (prep_rw op_readv (stdio.fileno mf.stream) mf.iov 1 0) m1 in
            let (ret, cqe, m2) = stdio.wait_cqe mf.ring (stdio.submit mf.ring prepared) in
            let bytes_copied =
              if ltb bytes_to_read (to_size cqe.res) then bytes_to_read else to_size cqe.res in
            if is_neg ret
            then done (breaks, record c { machine = m2 })
            else if is_neg cqe.res
            then done (breaks, record c { machine = stdio.cqe_seen mf.ring m2 })
            else do
              assert (leb (length c.stored + bytes_copied) room)
              done (
                goes,
                record {
                  total_bytes = c.total_bytes - bytes_copied;
                  bytes_read = u64 (c.bytes_read + bytes_copied);
                  stored = c.stored ++ stdio.memory mf.iov_base bytes_copied m2;
                  machine = stdio.cqe_seen mf.ring m2;
                },
              )
      ]

  -- while (total_bytes > 0) { … } on fuel; `false` is the return inside it
  unfoldable pub read_loop : ℕ → ℕ → MyFile → Cursor M → Run (Bool × Cursor M)
  read_loop zero room mf c = if ltb 0 c.total_bytes then hang else done (true, c)
  read_loop (suc fuel) room mf c = elim (ltb 0 c.total_bytes) [
    | false ↦ done (true, c)
    | true ↦ read_round room mf c >>= λ a. elim a.0 [
      | goes ↦ read_loop fuel room mf a.1
      | breaks ↦ done (true, a.1)
      | returns ↦ done (false, a.1)
    ]
  ]

  -- my_fread(buffer, size, count, mf): its result, the bytes that it stores, and the machine; a size
  -- of 0 divides by 0 at its end
  unfoldable pub my_fread : ℕ → ℕ → ℕ → ℕ → MyFile → M → Run (ℕ × List ℕ × M)
  my_fread fuel room size count mf m =
      read_loop fuel room mf
        (record { total_bytes = u64 (size * count); bytes_read = 0; stored = []; machine = m })
      >>= λ a.
          if a.0
          then assert (not (size == 0)) >> done (a.1.bytes_read / size, a.1.stored, a.1.machine)
          else done (a.1.bytes_read, a.1.stored, a.1.machine)

module _ {M : Type 0} (cpp : Cpp M) where
  -- the loop of main, with 10 - times rounds left; `buffer` has 1024 bytes, and buffer[n] is one of them
  unfoldable pub print_rounds : ℕ → ℕ → MyFile → M → Run M
  print_rounds fuel zero mf m = done m
  print_rounds fuel (suc left) mf m =
      my_fread cpp.stdio fuel buffer_size 1 buffer_size mf m >>= λ r. elim (ltb 0 r.0) [
        | false ↦ done r.2
        | true ↦
            assert (ltb r.0 buffer_size)
            >> print_rounds fuel left mf (cpp.print (until_zero (take r.0 r.1)) r.2)
      ]

  -- main, with the name and the mode that it passes
  unfoldable pub main : ℕ → List ℕ → List ℕ → M → Run (Exit × M)
  main fuel filename mode m =
      let (file, m1) = my_fopen cpp filename mode m in
      elim file [
        | thrown ↦ done (terminated, m1)
        | nullptr ↦ done (returned 1, m1)
        | opened address mf ↦
            print_rounds fuel 10 mf m1 >>= λ m2. done (returned 0, my_fclose cpp address mf m2)
      ]
