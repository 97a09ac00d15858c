-- ===== src/Manual/Tests.antt =====
-- example/omp_io_uring_manual.c with files of six bytes in blocks of four.
use io_uring_example.Base.{
  ℕ, ◌+◌, ◌≡◌, refl, some, List, [], ◌∷◌, ◌++◌, done, arith, u32, pos, to_int, to_size,
}
use io_uring_example.Reader.Setup.{size_of_fd, map_rings, sq_map_sz, cq_map_sz, sring_sz, cring_sz}
use io_uring_example.Reader.Open.Fill.{Aligns}
use io_uring_example.Reader.Open.Queue.{IsApart}
use io_uring_example.Reader.Demo.{content, demo_sys, demo_submitter, demo_enter, world}
use io_uring_example.Manual.{app_setup_uring, main}
use io_uring_example.Manual.Requests.{Requests, submit_to_sq-Requests}
use io_uring_example.Manual.Rounds.{IsSeparate, Idle}
use io_uring_example.Manual.Program.{IsReadable, main-contents}
use io_uring_example.Manual.Demo.{demo_bytes, demo_serve, demo_serve-Kernel}

demo-Aligns : Aligns demo_sys 4
demo-Aligns k = (0 ∷ 0 ∷ 0 ∷ 0 ∷ [], refl, refl)

demo-IsApart : IsApart demo_submitter
demo-IsApart = record {
  head_before = omega arith;
  tail_before = omega arith;
  mask_before = omega arith;
  head_tail = omega arith;
  mask_tail = omega arith;
}

demo-IsSeparate : IsSeparate demo_submitter
demo-IsSeparate = record {
  head_before = omega arith;
  not_head = omega arith;
  not_tail = omega arith;
  not_mask = omega arith;
}

world-Idle : Idle demo_submitter 8 0 0 (world 40 (pos 6))
world-Idle = record {
  ring = record {
    size = omega arith;
    mask = refl;
    head_word = omega arith;
    tail_word = omega arith;
    bound = omega arith;
    listed = λ i lt. absurd (omega arith);
  };
  empty = refl;
  head = refl;
}

demo-IsReadable : (name : List ℕ) → IsReadable demo_sys demo_bytes name
unfolding size_of_fd
demo-IsReadable name = record { opened = refl; sized = refl; small = omega arith }

setup_demo : app_setup_uring demo_sys ≡ some demo_submitter
unfolding app_setup_uring map_rings sq_map_sz cq_map_sz sring_sz cring_sz to_int to_size
setup_demo = refl

-- two files
main-contents_example :
    main 2 4 demo_sys demo_enter demo_serve
      (λ i j. u32 (i + 1))
      0
      (pos 2)
      ((97 ∷ []) ∷ (98 ∷ []) ∷ [])
      (world 40 (pos 6))
    ≡ done (0, content ++ content)
main-contents_example =
    main-contents 4 demo_sys demo_enter demo_serve (λ i j. u32 (i + 1)) demo_bytes demo_submitter 8
      0 demo_serve-Kernel demo-IsApart demo-IsSeparate (λ n. n) (omega arith) (λ n. refl)
      demo-Aligns 0 (97 ∷ []) ((98 ∷ []) ∷ []) (world 40 (pos 6)) setup_demo world-Idle
      (demo-IsReadable (97 ∷ []), (demo-IsReadable (98 ∷ []), tt))

submit_to_sq-Requests_example :
    Requests 4 demo_sys demo_enter 8 (world 40 (pos 6)) demo_submitter [] 6
unfolding size_of_fd
submit_to_sq-Requests_example =
    submit_to_sq-Requests 4 demo_sys demo_enter 8 (world 40 (pos 6)) demo_submitter [] 6 (λ n. n)
      (omega arith) (omega arith) refl refl (λ n. refl) demo-Aligns world-Idle.ring demo-IsApart
      (omega arith)
