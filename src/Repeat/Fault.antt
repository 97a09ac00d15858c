-- ===== src/Repeat/Fault.antt =====
-- main of example/io_uring_poll.cpp on a file that can be read.
use io_uring_example.Base.{
  ℕ, zero, suc, ◌*◌, ◌^◌, ◌≤◌, ◌<◌, ◌≡◌, ◌∙◌, inl, inr, List, [], length, length-append,
  length-take, ap, ltb, Bool-cases, ltb→lt, ltb_false→le, lt→ltb, arith, fault, hang, u64,
  if◌then◌else◌, take, done,
}
use io_uring_example.Buffered.{Stdio, Cursor, buffer_size}
use io_uring_example.Repeat.{
  Cpp, MyFile, Opening, opened, read_loop, my_fread, my_fopen, print_rounds, main,
}
use io_uring_example.Repeat.Served.{Serves, copied, round_end, loop_step, read_round_lem}
use io_uring_example.Repeat.Cycle.{repeated, first_block, my_fread-repeated}

module _ {M : Type 0} (stdio : Stdio M) (content : List ℕ) (mf : MyFile)
    (serves : Serves stdio content mf) where
  loop-hang :
      (fuel room : ℕ) (c : Cursor M)
      → serves.Ready c.machine
      → length content ≡ 0
      → 0 < c.total_bytes
      → length c.stored ≤ room
      → read_loop stdio fuel room mf c ≡ hang
  unfolding read_loop
  loop-hang zero room c ready empty some_bytes fits = rw (lt→ltb 0 c.total_bytes some_bytes)
  loop-hang (suc fuel) room c ready empty some_bytes fits =
      let (m1, ready1, run) = read_round_lem stdio content mf serves room c ready (omega arith) in
      let d = round_end stdio content mf serves c m1 in
      loop_step stdio mf fuel room c d some_bytes run
      ∙ loop-hang fuel room d ready1 empty (omega arith) (
          omega (
            arith,
            length-append c.stored (take (copied stdio content mf serves c.total_bytes) content),
            length-take (copied stdio content mf serves c.total_bytes) content,
          ))

  -- On an empty file a call never returns: each readv serves 0 bytes, and the loop asks again.
  pub my_fread-hang :
      (fuel room count : ℕ) (m : M)
      → serves.Ready m
      → length content ≡ 0
      → 0 < count
      → count < 2 ^ 64
      → my_fread stdio fuel room 1 count mf m ≡ hang
  unfolding my_fread
  my_fread-hang fuel room count m ready empty some_bytes small =
      let total : u64 (1 * count) ≡ count = omega arith in
      rw (
        total,
        loop-hang fuel room
            (record { total_bytes = count; bytes_read = 0; stored = []; machine = m }) ready empty
            some_bytes (omega arith),
      )

module _ {M : Type 0} (cpp : Cpp M) (content : List ℕ) (mf : MyFile)
    (serves : Serves cpp.stdio content mf) where
  full_round :
      (fuel left : ℕ) (m m' : M) (bytes : List ℕ)
      → my_fread cpp.stdio fuel buffer_size 1 buffer_size mf m ≡ done (buffer_size, bytes, m')
      → print_rounds cpp fuel (suc left) mf m ≡ fault
  unfolding print_rounds
  full_round fuel left m m' bytes run = rw run

  rounds-fault :
      (fuel left : ℕ) (m : M)
      → serves.Ready m
      → 0 < length content
      → buffer_size ≤ fuel
      → print_rounds cpp fuel (suc left) mf m ≡ fault
  rounds-fault fuel left m ready bytes enough =
      let (m', again, run) =
        my_fread-repeated cpp.stdio content mf serves fuel buffer_size buffer_size m ready bytes
          enough (omega arith) (omega arith) in
      full_round fuel left m m' (take buffer_size (repeated fuel (first_block content))) run

  rounds-hang :
      (fuel left : ℕ) (m : M)
      → serves.Ready m
      → length content ≡ 0
      → print_rounds cpp fuel (suc left) mf m ≡ hang
  unfolding print_rounds
  rounds-hang fuel left m ready empty = rw (
      my_fread-hang cpp.stdio content mf serves fuel buffer_size buffer_size m ready empty
        (omega arith) (omega arith))

  -- Where my_fopen opens a file whose ring then serves each readv at offset 0, main never returns a
  -- code, on any fuel of 1024 rounds or more. If the file has a byte, the first call of my_fread
  -- returns 1024 and buffer[1024] = '\0' writes behind the array; if it is empty, the first call
  -- never returns.
  pub main-my_fread :
      (fuel address : ℕ) (filename mode : List ℕ) (m m1 : M)
      → my_fopen cpp filename mode m ≡ (opened address mf, m1)
      → serves.Ready m1
      → buffer_size ≤ fuel
      → main cpp fuel filename mode m ≡ (if ltb 0 (length content) then fault else hang)
  unfolding main
  main-my_fread fuel address filename mode m m1 open_run ready enough =
      elim (Bool-cases (ltb 0 (length content))) [
        | inl bytes ↦ rw (
          main,
          open_run,
          ap (λ (t : Opening × M). t.1) open_run,
          rounds-fault fuel 9 m1 ready (ltb→lt 0 (length content) bytes) enough,
          bytes,
        )
        | inr none_there ↦
            let le = ltb_false→le 0 (length content) none_there in
            rw (
              main,
              open_run,
              ap (λ (t : Opening × M). t.1) open_run,
              rounds-hang fuel 9 m1 ready (omega arith),
              none_there,
            )
      ]
