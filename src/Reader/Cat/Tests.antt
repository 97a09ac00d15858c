-- ===== src/Reader/Cat/Tests.antt =====
-- Runs of cat and main of example/io_uring_read.c, and the theorems about them at the file of Demo.
use io_uring_example.Base.{
  ℕ, ◌≡◌, refl, none, some, List, [], ◌∷◌, flatten, done, fault, arith, pos, to_int, div_int,
  to_size, to_unsigned,
}
use io_uring_example.Kernel.{Sys}
use io_uring_example.Reader.{World, update}
use io_uring_example.Reader.Setup.{
  app_setup_uring, map_rings, sring_sz, cring_sz, sq_map_sz, cq_map_sz, get_file_size, size_of_fd,
}
use io_uring_example.Reader.Open.{
  my_fopen, count_blocks, file_info_bytes, fill_iovecs, submit_readv, wake_kernel, submit_file,
  open_blocks,
}
use io_uring_example.Reader.Open.Fill.{Aligns}
use io_uring_example.Reader.Open.Opened.{no_file}
use io_uring_example.Reader.Cat.{Sitting, cat, main}
use io_uring_example.Reader.Cat.Whole.{IsRead}
use io_uring_example.Reader.Cat.Null.{cat-fault}
use io_uring_example.Reader.Cat.Program.{IsFile, ArePadded, main-ArePadded}
use io_uring_example.Reader.Demo.{
  content, blocks, demo_sys, demo_submitter, world, served, opened, demo_enter, buffer,
}

abbrev no_files : Sys
no_files = record demo_sys { fopen = λ name mode. none }

cat-fault_example :
    cat 20 4 1 no_files demo_enter
      (λ w. w)
      (λ n k. 1)
      (world 40 (pos 6))
      buffer
      (120 ∷ [])
      (114 ∷ [])
    ≡ fault
cat-fault_example =
    cat-fault 20 4 1 no_files demo_enter (λ w. w) (λ n k. 1) (world 40 (pos 6)) buffer (120 ∷ [])
      (114 ∷ []) 104 4096 refl refl (no_file refl)

-- the memory that my_fopen leaves, and then the kernel
abbrev queued : World
queued =
    submit_readv
      (record (world 40 (pos 6)) {
        file_info =
            update (λ a. none) 40
              (some (record {
                file_sz = 6;
                iovecs =
                    some (record { buffer = 0 ∷ 0 ∷ 0 ∷ 0 ∷ []; buffer_size = 4 })
                    ∷ some (record { buffer = 0 ∷ 0 ∷ 0 ∷ 0 ∷ []; buffer_size = 2 })
                    ∷ [];
              }));
      })
      demo_submitter (pos 4) 48 2 40

opened_demo :
    my_fopen 4 demo_sys demo_enter (world 40 (pos 6)) (97 ∷ []) (114 ∷ [])
    ≡ done (some (opened 40, queued))
unfolding my_fopen app_setup_uring map_rings sq_map_sz cq_map_sz sring_sz cring_sz get_file_size
    size_of_fd open_blocks count_blocks div_int to_int file_info_bytes to_size fill_iovecs
    submit_file wake_kernel submit_readv to_unsigned
opened_demo = refl

sized_demo : (fp : ℕ) → get_file_size demo_sys fp ≡ pos 6
unfolding get_file_size size_of_fd
sized_demo fp = refl

served-IsRead : IsRead 4 6 40 content 1 (λ k. 1) (served 40 (pos 6)) (opened 40)
served-IsRead = record {
  vs = blocks;
  stored = refl;
  blocks = omega arith;
  as_many = refl;
  filled = refl;
  word = omega arith;
  served = record {
    arrival = 0;
    in_time = omega arith;
    arrived = omega arith;
    stays = λ k h. omega arith;
    owner = refl;
  };
  success = refl;
}

demo-Aligns : Aligns demo_sys 4
demo-Aligns k = (0 ∷ 0 ∷ 0 ∷ 0 ∷ [], refl, refl)

abbrev sitting : Sitting
sitting = record {
  world = world 40 (pos 6);
  serve = λ w. served 40 (pos 6);
  loads = λ n k. 1;
  buffer = buffer;
}

demo-IsFile : IsFile 4 1 20 demo_sys demo_enter sitting (97 ∷ []) content
demo-IsFile = record {
  mf = opened 40;
  world = queued;
  opened = opened_demo;
  sized = λ fp e. sized_demo fp;
  small = omega arith;
  read = served-IsRead;
  room = omega arith;
  fuelled = omega arith;
}

-- the same file, named twice
main-ArePadded_example :
    (outputs : List (List ℕ)) × (main 20 4 1 demo_sys demo_enter
        (λ k. sitting)
        ((97 ∷ []) ∷ (97 ∷ []) ∷ [])
      ≡ done (0, flatten outputs))
    × ArePadded 4 1 20 demo_sys demo_enter (content ∷ content ∷ []) outputs
main-ArePadded_example =
    main-ArePadded 4 1 20 demo_sys demo_enter (λ n. n) (λ n. refl) demo-Aligns (omega arith)
      (omega arith) (λ k. sitting) (97 ∷ []) ((97 ∷ []) ∷ []) (content ∷ content ∷ [])
      (demo-IsFile, (demo-IsFile, tt))

-- main without a name
main_usage : (sittings : ℕ → Sitting) → main 20 4 1 demo_sys demo_enter sittings [] ≡ done (1, [])
unfolding main
main_usage sittings = refl
