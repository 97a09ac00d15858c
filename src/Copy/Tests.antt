-- ===== src/Copy/Tests.antt =====
-- example/io_uring_cp.c with a kernel whose reads give three bytes at most.
use io_uring_example.Base.{
  ℕ, ◌+◌, ◌-◌, ◌≡◌, refl, ap, ◌∙◌, Bool, true, false, some, List, [], ◌∷◌, ◌++◌, replicate,
  length-replicate, take, drop, length, length-take, length-append, length-drop, take-length,
  take-append_le, min, arith, done, ◌==◌, none, negsuc, if◌then◌else◌, pos, u32,
}
use native.Mathlib.Nat.{dvd_refl}
use io_uring_example.Kernel.{Sqe, zero_params}
use io_uring_example.Copy.{Shared, Setup, request}
use io_uring_example.Copy.Serves.{Serves, write_at}
use io_uring_example.Copy.Held.{Held}
use io_uring_example.Copy.Start.{Calls, IsGranted, copy_file, main, main-copies}

-- the number of bytes that a read gives
abbrev given : ℕ → Shared → ℕ
given off m = min (min m.iov_len 3) (length m.source - off)

abbrev filled : ℕ → Shared → List ℕ
filled off m = take (given off m) (drop off m.source) ++ drop (given off m) m.buffer

abbrev is_read : Shared → Bool
is_read m = m.sqe.opcode == 1

abbrev enter : Shared → Shared
enter m = record m {
  sq_head = u32 (m.sq_head + 1);
  cq_tail = m.cq_head + 1;
  cqe = λ i. record {
    user_data = m.sqe.user_data;
    res = pos (if is_read m then given m.sqe.off m else m.iov_len);
    flags = 0;
  };
  buffer = if is_read m then filled m.sqe.off m else m.buffer;
  dest = if is_read m then m.dest else write_at m.sqe.off (take m.iov_len m.buffer) m.dest;
}

abbrev setup : Setup
setup = record {
  sq_entries = 2;
  cq_entries = 4;
  src_fd = pos 3;
  dst_fd = pos 4;
  iov = 64;
  enter = enter;
}

part_size : (off : ℕ) (m : Shared) → length (take (given off m) (drop off m.source)) ≡ given off m
part_size off m =
    omega (arith, length-take (given off m) (drop off m.source), length-drop off m.source)

serves : Serves setup
serves = record {
  entries = (omega arith, omega arith);
  even = dvd_refl 2;
  completed = λ m q. ground arith;
  taken = λ m q. (refl, refl);
  on_read = λ m off ud q e h.
      let reads : is_read m ≡ true = ground (arith, e) in
      let at : m.sqe.off ≡ off = ap (λ (q : Sqe). q.off) e in
      let part = take (given off m) (drop off m.source) in
      (
        given off m,
        rw (reads, at),
        omega arith,
        λ h1 h2. omega arith,
        rw (reads, at)
            (take-append_le (given off m) part (drop (given off m) m.buffer)
                (omega (arith, part_size off m))
              ∙ take-length (given off m) part (omega (arith, part_size off m))),
        rw (reads, at)
            (omega (
              arith,
              length-append part (drop (given off m) m.buffer),
              part_size off m,
              length-drop (given off m) m.buffer,
            )),
        refl,
        rw reads,
        refl,
      );
  on_write = λ m off ud q e h inside.
      let writes : is_read m ≡ false = ground (arith, e) in
      let at : m.sqe.off ≡ off = ap (λ (q : Sqe). q.off) e in
      (rw writes, rw (writes, at), rw writes, refl);
}

abbrev start : Shared
start = record {
  sqe = request 0 (pos 0) 0 0 0;
  sq_head = 0;
  sq_tail = 0;
  cq_head = 0;
  cq_tail = 0;
  cqe = λ i. record { user_data = 0; res = pos 0; flags = 0 };
  iov_len = 0;
  buffer = replicate 4096 0;
  source = 1 ∷ 2 ∷ 3 ∷ 4 ∷ 5 ∷ [];
  dest = [];
}

abbrev calls : Calls
calls = record {
  open_source = pos 3;
  file_size = some 5;
  open_dest = pos 4;
  ring_setup = pos 5;
  params = record zero_params { sq_entries = 2; cq_entries = 4 };
  map_ring = λ n. some 1000;
  map_sqes = λ n. some 2000;
  malloc = λ n. some 3000;
  iov = 64;
  enter = enter;
}

abbrev granted : IsGranted calls 5
granted = record {
  ring_ptr = 1000;
  sqe = 2000;
  buffer = 3000;
  source_run = refl;
  size_run = refl;
  dest_run = refl;
  ring_run = refl;
  map_run = refl;
  sqes_run = refl;
  malloc_run = refl;
  source_ring = refl;
  source_dest = refl;
  dest_ring = refl;
  mappings = refl;
}

-- the standard streams
abbrev held : Held
held = record { descriptors = pos 2 ∷ pos 1 ∷ pos 0 ∷ []; mappings = []; blocks = [] }

main-copies_example :
    (m' : Shared) × (main 5 calls ((97 ∷ []) ∷ (98 ∷ []) ∷ []) held start
      ≡ done (record {
        status = 0;
        shared = some m';
        held = record held { descriptors = pos 5 ∷ pos 2 ∷ pos 1 ∷ pos 0 ∷ [] };
      }))
    × (m'.dest ≡ 1 ∷ 2 ∷ 3 ∷ 4 ∷ 5 ∷ [])
main-copies_example =
    main-copies 5 calls (97 ∷ []) (98 ∷ []) held start granted serves refl refl
      (omega (arith, length-replicate {A = ℕ} 4096 0)) (omega arith) (omega arith)

-- no source
main_died :
    main 5 (record calls { open_source = negsuc 1 }) ([] ∷ [] ∷ []) held start
    ≡ done (record { status = 1; shared = none; held = held })
unfolding main
main_died = refl

-- no memory for the buffer: the two files, the ring and its mappings are still held
main_no_buffer :
    main 5 (record calls { malloc = λ n. none }) ([] ∷ [] ∷ []) held start
    ≡ done (record {
      status = 1;
      shared = none;
      held = record held {
        descriptors = pos 5 ∷ pos 4 ∷ pos 3 ∷ held.descriptors;
        mappings = (2000, 128) ∷ (1000, 8) ∷ [];
      };
    })
unfolding main copy_file
main_no_buffer = refl
