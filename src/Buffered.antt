-- ===== src/Buffered.antt =====
-- example/io_uring_polling.c: a file whose first read is one readv through a ring, and whose later reads are
-- calls of fread. Buffered/Main is main.
pub mod Held
pub mod Later
pub mod Twice
pub mod Main
mod Tests
use io_uring_example.Base.{
  ℕ, zero, suc, ◌+◌, ◌-◌, ◌*◌, ◌/◌, ◌^◌, Bool, true, false, not, ◌&&◌, ◌||◌, Option, none, some,
  List, [], ◌++◌, length, ltb, leb, ◌==◌, if◌then◌else◌, Run, done, fault, hang, ◌>>=◌, ◌>>◌, deref,
  assert, u64, ℤ, pos, negsuc, is_neg, to_size,
}
use io_uring_example.Kernel.{Sqe, Cqe, Params, zero_params, op_readv, setup_sqpoll}

-- BUFFER_SIZE and QUEUE_DEPTH
abbrev pub buffer_size : ℕ
buffer_size = 1024

abbrev pub queue_depth : ℕ
queue_depth = 64

-- The calls of liburing and stdio. Rings, streams and objects are numbers, `M` is the machine.
pub record Stdio (M : Type 0) : Type 0 where
  pub queue_init : ℕ → Params → M → Option ℕ × M
  pub queue_exit : ℕ → M → M
  pub register_files : ℕ → ℤ → M → ℤ × M
  pub fopen : List ℕ → List ℕ → M → Option ℕ × M
  pub fclose : ℕ → M → M
  pub fileno : ℕ → ℤ
  pub malloc : ℕ → M → Option ℕ × M
  pub free : ℕ → M → M
  pub get_sqe : ℕ → M → Option (ℕ × M)
  pub write_sqe : ℕ → (Sqe → Sqe) → M → M
  pub submit : ℕ → M → M
  -- io_uring_wait_cqe: its result, and the entry where that is 0
  pub wait_cqe : ℕ → M → ℤ × Cqe × M
  pub cqe_seen : ℕ → M → M
  pub memory : ℕ → ℕ → M → List ℕ
  -- fread(buffer, 1, n, stream): the bytes that it stores
  pub fread : ℕ → ℕ → M → List ℕ × M
  pub feof : ℕ → M → Bool
  pub ferror : ℕ → M → Bool

-- my_file; `iov_base` and `iov_len` are the fields of its iov, and `iov` is the address of that
pub record MyFile : Type 0 where
  pub stream : ℕ
  pub ring : ℕ
  pub iov : ℕ
  pub iov_base : ℕ
  pub iov_len : ℕ
  pub async_initiated : ℕ

abbrev pub sizeof_my_file : ℕ
sizeof_my_file = 248

-- the offset of iov in my_file
abbrev pub offset_of_iov : ℕ
offset_of_iov = 224

abbrev pub setup_params : Params
setup_params = record zero_params { flags = setup_sqpoll; sq_thread_idle = 2000 }

-- the stores of io_uring_prep_rw_my
abbrev pub prep_rw : ℕ → ℤ → ℕ → ℕ → ℕ → Sqe → Sqe
prep_rw op fd addr len offset sqe = record sqe {
  opcode = op;
  flags = 0;
  ioprio = 0;
  fd = fd;
  off = offset;
  addr = addr;
  len = len;
  rw_flags = 0;
  user_data = 0;
  buf_index = 0;
  personality = 0;
  file_index = 0;
  pad2_0 = 0;
  pad2_1 = 0;
}

module _ {M : Type 0} (stdio : Stdio M) where
  -- the end of my_fopen, from the allocation of `mf` on
  unfoldable pub new_file : ℕ → ℕ → M → Option (ℕ × MyFile) × M
  new_file ring fp m =
      let (object, m1) = stdio.malloc sizeof_my_file m in
      let (buffer, m2) = stdio.malloc buffer_size m1 in
      elim object [
        | none ↦ (none, stdio.queue_exit ring (stdio.fclose fp m1))
        | some mf ↦ elim buffer [
          | none ↦ (none, stdio.free mf (stdio.queue_exit ring (stdio.fclose fp m2)))
          | some iov_base ↦ (
            some (
              mf,
              record {
                stream = fp;
                ring = ring;
                iov = mf + offset_of_iov;
                iov_base = iov_base;
                iov_len = buffer_size;
                async_initiated = 0;
              },
            ),
            m2,
          )
        ]
      ]

  -- my_fopen once the ring is there
  unfoldable pub open_stream : ℕ → List ℕ → List ℕ → M → Option (ℕ × MyFile) × M
  open_stream ring filename mode m =
      let (opened, m1) = stdio.fopen filename mode m in
      elim opened [
        | none ↦ (none, stdio.queue_exit ring m1)
        | some fp ↦
            let (ret, m2) = stdio.register_files ring (stdio.fileno fp) m1 in
            if is_neg (stdio.fileno fp)
            then (none, stdio.queue_exit ring (stdio.fclose fp m1))
            else if is_neg ret
            then (none, stdio.queue_exit ring (stdio.fclose fp m2))
            else new_file ring fp m2
      ]

  -- my_fopen(filename, mode): the address of the object and what it holds
  unfoldable pub my_fopen : List ℕ → List ℕ → M → Option (ℕ × MyFile) × M
  my_fopen filename mode m =
      let (made, m1) = stdio.queue_init queue_depth setup_params m in
      elim made [ none ↦ (none, m1) | some ring ↦ open_stream ring filename mode m1 ]

  -- my_fclose(mf) where mf is not NULL
  unfoldable pub my_fclose : ℕ → MyFile → M → M
  my_fclose address mf m =
      stdio.free address
        (stdio.queue_exit mf.ring (stdio.free mf.iov_base (stdio.fclose mf.stream m)))

-- what a call of my_fread leaves behind: its result, the bytes in the caller's buffer, the file
pub record Fread (M : Type 0) : Type 0 where
  pub result : ℕ
  pub stored : List ℕ
  pub mf : MyFile
  pub machine : M

-- the locals of my_fread; `stored` is what stands before the pointer `buffer`
pub record Cursor (M : Type 0) : Type 0 where
  pub total_bytes : ℕ
  pub bytes_read : ℕ
  pub stored : List ℕ
  pub machine : M

module _ {M : Type 0} (stdio : Stdio M) where
  -- The first read through the ring. `false` is a return before the loop. `room` is the size of the
  -- caller's buffer.
  unfoldable pub read_async : ℕ → MyFile → Cursor M → Run (Bool × MyFile × Cursor M)
  read_async room mf c = elim (stdio.get_sqe mf.ring c.machine) [
    | none ↦ done (false, mf, c)
    | some (sqe, m1) ↦
        let prepared =
          stdio.write_sqe sqe (prep_rw op_readv (stdio.fileno mf.stream) mf.iov 1 0) m1 in
        let (ret, cqe, m2) = stdio.wait_cqe mf.ring (stdio.submit mf.ring prepared) in
        let mf' : MyFile = record mf { async_initiated = 1 } in
        if is_neg ret
        then done (false, mf', record c { machine = m2 })
        else if is_neg cqe.res
        then done (false, mf', record c { machine = stdio.cqe_seen mf.ring m2 })
        else do
          assert (leb (length c.stored + to_size cqe.res) room && leb (to_size cqe.res) buffer_size)
          done (
            true,
            mf',
            record {
              total_bytes = u64 (2 ^ 64 + c.total_bytes - to_size cqe.res);
              bytes_read = u64 (c.bytes_read + to_size cqe.res);
              stored = c.stored ++ stdio.memory mf.iov_base (to_size cqe.res) m2;
              machine = stdio.cqe_seen mf.ring m2;
            },
          )
  ]

  -- while (total_bytes > 0) { … } on fuel. A break leaves the bytes of its fread uncounted.
  unfoldable pub read_sync : ℕ → ℕ → MyFile → Cursor M → Run (Cursor M)
  read_sync zero room mf c = if ltb 0 c.total_bytes then hang else done c
  read_sync (suc fuel) room mf c =
      let bytes_to_read = if ltb buffer_size c.total_bytes then buffer_size else c.total_bytes in
      let (got, m1) = stdio.fread bytes_to_read mf.stream c.machine in
      let result = length got in
      let next : Cursor M = record {
        total_bytes = c.total_bytes - result;
        bytes_read = u64 (c.bytes_read + result);
        stored = c.stored ++ got;
        machine = m1;
      } in
      let rest = read_sync fuel room mf next in
      let stops =
        ltb result bytes_to_read && (stdio.feof mf.stream m1 || stdio.ferror mf.stream m1) in
      if ltb 0 c.total_bytes
      then assert (leb (length c.stored + result) room)
        >> (if stops then done (record c { stored = c.stored ++ got; machine = m1 }) else rest)
      else done c

  -- my_fread(buffer, size, count, mf); a size of 0 divides by 0 at its end
  unfoldable pub my_fread : ℕ → ℕ → ℕ → ℕ → MyFile → M → Run (Fread M)
  my_fread fuel room size count mf m =
      let c : Cursor M = record {
        total_bytes = u64 (size * count);
        bytes_read = 0;
        stored = [];
        machine = m;
      } in
      (if mf.async_initiated == 0 then read_async room mf c else done (true, mf, c)) >>= λ a.
      (if a.0 then read_sync fuel room a.1 a.2 else done a.2) >>= λ d.
      if a.0
      then assert (not (size == 0))
        >> done (record {
          result = d.bytes_read / size;
          stored = d.stored;
          mf = a.1;
          machine = d.machine;
        })
      else done (record { result = d.bytes_read; stored = d.stored; mf = a.1; machine = d.machine })
