-- ===== src/Owners/Tests.antt =====
-- Runs of example/My_read.cpp on the file of Reader/Demo.
use io_uring_example.Base.{◌≡◌, refl, ◌⊎◌, none, some, [], ◌∷◌, done, fault, pos, to_int, to_size}
use io_uring_example.Reader.Setup.{
  get_file_size, size_of_fd, app_setup_uring, map_rings, sring_sz, cring_sz, sq_map_sz, cq_map_sz,
}
use io_uring_example.Reader.Demo.{demo_sys, demo_enter, world, served, buffer}
use io_uring_example.Owners.{make_blocks, submit_owned, open_blocks, my_fopen, main}
use io_uring_example.Owners.Moved.{main-fault}

-- The file is there, the ring is there, and the moved pointer is used.
my_fopen_runs : my_fopen 4 demo_sys demo_enter (world 56 (pos 6)) (120 ∷ []) (0x72 ∷ []) ≡ fault
unfolding my_fopen get_file_size size_of_fd app_setup_uring map_rings sq_map_sz cq_map_sz sring_sz
    cring_sz to_int to_size open_blocks make_blocks submit_owned
my_fopen_runs = refl

-- what make_blocks makes of six bytes: the last block has room for its two bytes only
make_blocks_runs :
    make_blocks demo_sys 4 2 0 6
    ≡ some (
        some (record { buffer = 0 ∷ 0 ∷ 0 ∷ 0 ∷ []; buffer_size = 4 })
        ∷ some (record { buffer = 0 ∷ 0 ∷ []; buffer_size = 2 })
        ∷ [])
unfolding make_blocks
make_blocks_runs = refl

main-fault_example :
    ((my_fopen 4 demo_sys demo_enter (world 56 (pos 6)) (120 ∷ []) (0x72 ∷ []) ≡ done none)
      ⊎ (my_fopen 4 demo_sys demo_enter (world 56 (pos 6)) (120 ∷ []) (0x72 ∷ []) ≡ fault))
    × (main 20 4 1 demo_sys demo_enter
          (λ w. served 56 (pos 6))
          (λ i n k. 1)
          (world 56 (pos 6))
          buffer
          ((120 ∷ []) ∷ [])
        ≡ fault)
main-fault_example =
    main-fault 4 demo_sys demo_enter (world 56 (pos 6)) 20 1 (λ w. served 56 (pos 6)) (λ i n k. 1)
      buffer (120 ∷ []) []
