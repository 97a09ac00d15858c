-- ===== src/Library/Tests.antt =====
-- Runs of host.cpp, device.cpp and main.cpp on the file of Reader/Demo, and the theorems about them there.
use io_uring_example.Base.{
  ◌+◌, ◌%◌, ◌≡◌, ◌↔◌, refl, ap, inr, Option, none, some, [], ◌∷◌, done, ◌>>=◌, map_run, arith, pos,
  negsuc, to_int, div_int, to_size, to_unsigned,
}
use io_uring_example.Reader.{Submitter, FileInfo, World, update}
use io_uring_example.Reader.Spec.{entries}
use io_uring_example.Reader.Setup.{map_rings, sring_sz, cring_sz, sq_map_sz, cq_map_sz}
use io_uring_example.Reader.Open.{count_blocks, file_info_bytes, fill_iovecs, submit_readv}
use io_uring_example.Reader.Read.{wait_tail, take_completion, copy_block, chunk, next_block, memcpy}
use io_uring_example.Reader.Read
use io_uring_example.Reader.Read.Delivery.{Delivered}
use io_uring_example.Reader.Cat.Whole.{IsPadded}
use io_uring_example.Reader.Demo.{
  content, blocks, demo_sys, demo_submitter, world, served, demo_enter, buffer,
}
use io_uring_example.Library.{Pointer, MyFile, Host, State}
use io_uring_example.Library.Open.{
  app_setup_uring, open_flags, wake, new_file, submit_and_wait, open_blocks, open_registered,
  my_fopen,
}
use io_uring_example.Library.Open.Kept.{KeepsSizes}
use io_uring_example.Library.Device.{Fread, pass, read_loop, my_fread}
use io_uring_example.Library.Device.Same.{view, view_fread, wait, my_fread-wait}
use io_uring_example.Library.Device.Delivery.{device_fread-Delivered}
use io_uring_example.Library.Close.{update_file_size, my_fclose}
use io_uring_example.Library.Close.Releases.{my_fclose-my_fopen_restores}
use io_uring_example.Library.Cat.{Report, read_mode, cat_loop, cat_file, cat, main}
use io_uring_example.Library.Cat.Whole.{IsServed, cat-Reports}

abbrev with_content : Option FileInfo → Option FileInfo
with_content none = none
with_content (some fi) = some (record fi { iovecs = entries blocks })

-- The kernel fills the blocks of all files.
abbrev demo_serve : World → World
demo_serve w = record (world 40 (pos 6)) { file_info = λ a. with_content (w.file_info a) }

abbrev demo_host : Host
demo_host = record {
  sys = demo_sys;
  enter = demo_enter;
  omp_alloc = λ live n. some n;
  open_file = λ name flags. pos 4;
  register_files = λ ring fd. pos 0;
  lseek_end = λ fd. pos 9;
  serve = demo_serve;
  loads = λ k. 1;
}

abbrev demo_state : State
demo_state = record {
  world = world 40 (pos 6);
  memory = 8 ∷ [];
  descriptors = pos 1 ∷ [];
  ring_fds = [];
  aligned = 0;
  position = λ fd. 0;
}

abbrev ring : Pointer Submitter
ring = record { address = 104; target = demo_submitter }

abbrev demo_file : Pointer MyFile
demo_file = record { address = 56; target = new_file (pos 4) (pos 2) ring 40 }

-- the memory before the kernel has read the file, and after it
abbrev unread_world : World
unread_world = record (world 40 (pos 6)) {
  file_info =
      update (λ a. none) 40
        (some (record {
          file_sz = 6;
          iovecs =
              some (record { buffer = 0 ∷ 0 ∷ 0 ∷ 0 ∷ []; buffer_size = 4 })
              ∷ some (record { buffer = 0 ∷ 0 ∷ 0 ∷ 0 ∷ []; buffer_size = 2 })
              ∷ [];
        }));
}

abbrev opened_world : World
opened_world = demo_serve unread_world

abbrev opened_state : State
opened_state = record {
  world = opened_world;
  memory = 56 ∷ 40 ∷ 104 ∷ 8 ∷ [];
  descriptors = pos 4 ∷ pos 1 ∷ [];
  ring_fds = pos 3 ∷ [];
  aligned = 2;
  position = λ fd. 0;
}

opens : my_fopen 1 4 demo_host demo_state (120 ∷ []) read_mode ≡ done (some demo_file, opened_state)
unfolding my_fopen app_setup_uring map_rings sq_map_sz cq_map_sz sring_sz cring_sz to_int to_size
    open_flags open_registered open_blocks count_blocks div_int file_info_bytes fill_iovecs
    submit_and_wait wake submit_readv to_unsigned wait_tail
opens = refl

demo_host-KeepsSizes : KeepsSizes demo_host
demo_host-KeepsSizes = record {
  enter_keeps = λ fd n k flags w a x e. (x, e, refl);
  serve_keeps = λ w a x e. (record x { iovecs = entries blocks }, ap with_content e, refl);
}

demo-IsServed : IsServed 4 content (λ k. 1) opened_world demo_submitter 40 demo_file.target
demo-IsServed = record {
  vs = blocks;
  recorded = 6;
  stored = refl;
  blocks = omega arith;
  as_many = refl;
  filled = refl;
  word = omega arith;
  arrived = λ k. omega arith;
  owner = refl;
  success = refl;
}

cat-Reports_example :
    (r : Report) × (st2 : State) × (cat 20 1 4 demo_host (λ n k. 1) demo_state buffer (120 ∷ [])
      ≡ done (some r, st2))
    × IsPadded 4 content r.output
    × ((r.output ≡ content) ↔ (6 % 4 ≡ 0))
    × (r.file_sz ≡ 6)
    × (st2.memory ≡ 8 ∷ [])
    × (st2.descriptors ≡ pos 1 ∷ [])
    × (st2.ring_fds ≡ pos 3 ∷ [])
    × (st2.aligned ≡ 2)
cat-Reports_example =
    cat-Reports 20 1 4 demo_host (λ n k. 1) demo_state buffer (120 ∷ []) content demo_file
      opened_state ring 40 (omega arith) (omega arith) (omega arith) refl opens refl refl
      demo_host-KeepsSizes demo-IsServed (omega arith) (omega arith)

-- The last block's padding is printed as well.
cat_runs :
    map_run
      (λ (r : Option Report × State). r.0)
      (cat 20 1 4 demo_host (λ n k. 1) demo_state buffer (120 ∷ []))
    ≡ done (some (record { output = 1 ∷ 2 ∷ 3 ∷ 4 ∷ 5 ∷ 6 ∷ 0 ∷ 0 ∷ []; file_sz = 6 }))
unfolding cat cat_file cat_loop my_fread read_loop pass take_completion copy_block chunk next_block
    memcpy my_fclose my_fopen app_setup_uring map_rings sq_map_sz cq_map_sz sring_sz cring_sz to_int
    to_size open_flags open_registered open_blocks count_blocks div_int file_info_bytes fill_iovecs
    submit_and_wait wake submit_readv to_unsigned wait_tail
cat_runs = refl

main_without_files :
    main 20 4 4 (λ i. demo_host) (λ i n k. 1) demo_state buffer [] ≡ done (1, [], demo_state)
unfolding main
main_without_files = refl

my_fclose-my_fopen_restores_example :
    (st2 : State) × (my_fclose opened_state (some demo_file) ≡ done st2)
    × (st2.memory ≡ 8 ∷ [])
    × (st2.descriptors ≡ pos 1 ∷ [])
my_fclose-my_fopen_restores_example =
    my_fclose-my_fopen_restores 1 4 demo_host demo_state (120 ∷ []) read_mode demo_file opened_state
      opens

abbrev refusing : Host
refusing = record demo_host { register_files = λ ring fd. negsuc 21 }

my_fread-wait_example :
    Read.my_fread 4 3 (λ k. k) (served 40 (pos 6)) buffer 1 5 (view demo_submitter demo_file.target)
    ≡ (wait 3 (λ k. k) (served 40 (pos 6)) demo_submitter demo_file.target >>= λ k.
        map_run
          (view_fread demo_submitter)
          (my_fread 4 (λ n. k + n) (served 40 (pos 6)) buffer 1 5 demo_file.target))
my_fread-wait_example =
    my_fread-wait 4 3 (λ k. k) (served 40 (pos 6)) buffer 1 5 demo_file.target ring refl

-- Without a completion a call gives 0 bytes, as at the end of the file.
my_fread_early :
    map_run
      (λ (r : Fread). r.bytes_read)
      (my_fread 4 (λ k. 0) (served 40 (pos 6)) buffer 1 5 demo_file.target)
    ≡ done 0
unfolding my_fread read_loop pass take_completion to_unsigned
my_fread_early = refl

device_fread-Delivered_example :
    (r : Fread) × (my_fread 4 (λ k. 1) (served 40 (pos 6)) buffer 1 5 demo_file.target ≡ done r)
    × Delivered 4 blocks 40
        (served 40 (pos 6))
        (view demo_submitter demo_file.target)
        buffer
        5
        (view_fread demo_submitter r)
device_fread-Delivered_example =
    device_fread-Delivered 4 blocks 40 (served 40 (pos 6)) buffer 1 5 demo_file.target ring refl
      (λ k. 1)
      (record {
        fi = record { file_sz = 6; iovecs = entries blocks };
        stored = refl;
        filled = refl;
        blocks = omega arith;
        size_pos = omega arith;
        size_small = omega arith;
        few = omega arith;
      })
      (record {
        blocks = refl;
        index_in = omega arith;
        at_end = λ e. refl;
        offset_in = omega arith;
        word = omega arith;
      })
      (inr (record { first = refl; arrived = λ k. omega arith; owner = refl; success = refl }))
      (omega arith)

update_runs :
    map_run
      (λ (st : State). st.world.file_info 40)
      (update_file_size demo_host opened_state (some demo_file))
    ≡ done (some (record { file_sz = 9; iovecs = entries blocks }))
unfolding update_file_size
update_runs = refl
