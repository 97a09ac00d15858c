-- ===== src/Console/Tests.antt =====
-- Runs of example/omp_io_uring_polling.c on the file of Reader/Demo.
use io_uring_example.Base.{
  ℕ, ◌≡◌, ◌==◌, if◌then◌else◌, refl, none, some, List, [], ◌∷◌, done, arith, pos, negsuc, to_int,
  to_size, div_int,
}
use io_uring_example.Kernel.{Cqe}
use io_uring_example.Reader.Setup.{size_of_fd}
use io_uring_example.Reader.Open.{count_blocks, file_info_bytes, fill_iovecs}
use io_uring_example.Reader.Demo.{content, first_block, last_block, blocks, demo_sys}
use io_uring_example.Console.{
  Machine, Calls, get_entry, send_request, request_blocks, submit_read_request, read_files, main,
}
use io_uring_example.Console.Request.{Serves, ReadsWhole}
use io_uring_example.Console.Printed.{main-prints}
use io_uring_example.Console.Stuck.{read_files-stuck}

abbrev demo_calls : Calls
demo_calls = record {
  sys = demo_sys;
  queue_init = pos 0;
  get_sqe = λ try. some 0;
  sqring_wait = λ try. pos 0;
  readv = λ fd info nr_vecs offset.
      if offset == 0
      then (pos 6, record { file_sz = 6; iovecs = some first_block ∷ some last_block ∷ [] })
      else (pos 0, info);
  wait_cqe = λ m. pos 0;
}

abbrev idle : Machine
idle = record { info = λ a. none; queue = []; descriptors = []; output = 7 ∷ [] }

abbrev failed : Cqe
failed = record { user_data = 40; res = negsuc 4; flags = 0 }

demo-ReadsWhole : ReadsWhole 4 demo_calls (pos 4) content
unfolding count_blocks div_int to_int
demo-ReadsWhole = record {
  reads = λ vs b z t c. (blocks, refl, ground (arith, c), omega arith, refl);
}

demo-Serves : (name : List ℕ) → Serves 4 demo_calls name content
unfolding size_of_fd
demo-Serves name = record {
  fd = 4;
  found = refl;
  size = refl;
  small = omega arith;
  address = λ n. n;
  alloc = λ n. refl;
  aligns = λ k. (0 ∷ 0 ∷ 0 ∷ 0 ∷ [], refl, refl);
  entry = 0;
  given = refl;
  whole = demo-ReadsWhole;
}

main-prints_example :
    (m' : Machine) × (main 1 4 demo_calls ((120 ∷ []) ∷ (121 ∷ []) ∷ []) idle ≡ done (0, m'))
    × (m'.output ≡ 7 ∷ 1 ∷ 2 ∷ 3 ∷ 4 ∷ 5 ∷ 6 ∷ 1 ∷ 2 ∷ 3 ∷ 4 ∷ 5 ∷ 6 ∷ [])
    × (m'.queue ≡ [])
main-prints_example =
    main-prints 1 4 demo_calls (120 ∷ []) ((121 ∷ []) ∷ []) (content ∷ content ∷ []) idle
      (omega arith) (omega arith) refl (λ m. refl)
      (demo-Serves (120 ∷ []), (demo-Serves (121 ∷ []), tt)) refl

read_files-stuck_example :
    (m' : Machine) × (read_files 1 4 demo_calls
        ((120 ∷ []) ∷ [])
        (record idle { queue = failed ∷ [] })
      ≡ done (0, m'))
    × (m'.output ≡ 7 ∷ [])
    × (rest : List Cqe) × (m'.queue ≡ failed ∷ rest)
read_files-stuck_example =
    read_files-stuck 1 4 demo_calls ((120 ∷ []) ∷ []) (content ∷ [])
      (record idle { queue = failed ∷ [] }) failed [] (omega arith) (omega arith)
      (demo-Serves (120 ∷ []), tt) refl refl

-- A wait for space that fails: the descriptor is closed again, and nothing is sent.
no_space_run :
    submit_read_request 3 4
      (record demo_calls { get_sqe = λ try. none; sqring_wait = λ try. negsuc 0 })
      (120 ∷ [])
      idle
    ≡ done (1, idle)
unfolding submit_read_request request_blocks send_request get_entry size_of_fd count_blocks div_int
    to_int to_size file_info_bytes fill_iovecs
no_space_run = refl
