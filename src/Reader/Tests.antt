-- ===== src/Reader/Tests.antt =====
-- Runs of the functions of example/io_uring_read.c, and the theorems about them at the file of Demo.
use io_uring_example.Base.{
  ◌+◌, ◌*◌, ◌^◌, ◌≡◌, refl, inr, some, [], ◌∷◌, done, fault, hang, arith, ℤ, pos, negsuc, to_int,
  div_int, to_size, to_unsigned,
}
use io_uring_example.Kernel.{sizeof_sqe}
use io_uring_example.Reader.Spec.{Holds, entries}
use io_uring_example.Reader.Setup.{
  app_setup_uring, map_rings, sring_sz, cring_sz, sq_map_sz, cq_map_sz,
}
use io_uring_example.Reader.Setup.Mapped.{IsMapped, IsLaidOut, Inside, map_rings-IsMapped}
use io_uring_example.Reader.Read.{
  memcpy, wait_tail, take_completion, chunk, copy_block, pass, read_loop, finish, start, my_fread,
  Fread,
}
use io_uring_example.Reader.Read.First.{IsServed}
use io_uring_example.Reader.Read.Delivery.{IsPlaced, Delivered}
use io_uring_example.Reader.Read.Call.{my_fread-Delivered}
use io_uring_example.Reader.Read.Failed.{Broken, my_fread-Broken, failure_forgotten, my_fread-hang}
use io_uring_example.Reader.Read.Overrun.{my_fread_overrun}
use io_uring_example.Reader.Open.{
  count_blocks, file_info_bytes, fill_iovecs, submit_file, open_blocks, slot_address,
}
use io_uring_example.Reader.Open.Submit.{slot_address-Inside}
use io_uring_example.Reader.Open.Fill.{Aligns}
use io_uring_example.Reader.Open.Opened.{open_blocks_overflow}
use io_uring_example.Reader.Open.Queue.{IsApart, IsRing}
use io_uring_example.Reader.Open.Requests.{Requests, open_blocks-Requests}
use io_uring_example.Reader.Demo.{
  blocks, demo_params, demo_sys, demo_submitter, world, served, opened, demo_enter, buffer,
}

-- my_fread reads past the size of the file, to the end of its last block.
my_fread_runs :
    my_fread 4 1 (λ k. 1) (served 40 (pos 6)) buffer 1 8 (opened 40)
    ≡ done (
        finish
          (served 40 (pos 6))
          (opened 40)
          (record (start (served 40 (pos 6)) (opened 40) buffer) {
            ptr = 1 ∷ 2 ∷ 3 ∷ 4 ∷ 5 ∷ 6 ∷ 0 ∷ 0 ∷ 9 ∷ [];
            bytes_read = 8;
            head = 2;
            index = 2;
            offset = 0;
            isfirst = 1;
            fi_read = some 40;
          }))
unfolding my_fread wait_tail read_loop pass take_completion copy_block chunk memcpy start
    to_unsigned
my_fread_runs = refl

setup_runs : app_setup_uring demo_sys ≡ some demo_submitter
unfolding app_setup_uring sq_map_sz cq_map_sz sring_sz cring_sz to_int to_size
setup_runs = refl

open_runs :
    open_blocks 4 demo_sys demo_enter
      (world 40 (pos 6))
      demo_submitter
      7
      (pos 4)
      6
      (count_blocks 4 6)
    ≡ done (
        submit_file demo_enter (world 40 (pos 6)) demo_submitter 7 (pos 4) 6 (pos 2) 40 (
          some (record { buffer = 0 ∷ 0 ∷ 0 ∷ 0 ∷ []; buffer_size = 4 })
          ∷ some (record { buffer = 0 ∷ 0 ∷ 0 ∷ 0 ∷ []; buffer_size = 2 })
          ∷ []))
unfolding open_blocks count_blocks div_int to_int file_info_bytes to_size fill_iovecs
open_runs = refl

blocks-Holds : (res : ℤ) → Holds 4 blocks 40 (served 40 res)
blocks-Holds res = record {
  fi = record { file_sz = 6; iovecs = entries blocks };
  stored = refl;
  filled = refl;
  blocks = omega arith;
  size_pos = omega arith;
  size_small = omega arith;
  few = omega arith;
}

opened-IsPlaced : (res : ℤ) → IsPlaced 4 blocks (served 40 res) (opened 40)
opened-IsPlaced res = record {
  blocks = refl;
  index_in = omega arith;
  at_end = λ e. refl;
  offset_in = omega arith;
  word = omega arith;
}

opened-IsServed : (res : ℤ) → IsServed 40 1 (λ k. 1) (served 40 res) (opened 40)
opened-IsServed res = record {
  arrival = 0;
  in_time = omega arith;
  arrived = omega arith;
  stays = λ k h. omega arith;
  owner = refl;
}

my_fread-Delivered_example :
    (r : Fread) × (my_fread 4 1 (λ k. 1) (served 40 (pos 6)) buffer 1 5 (opened 40) ≡ done r)
    × Delivered 4 blocks 40 (served 40 (pos 6)) (opened 40) buffer 5 r
my_fread-Delivered_example =
    my_fread-Delivered 4 blocks 40 1 (λ k. 1) (served 40 (pos 6)) buffer 1 5 (opened 40)
      (blocks-Holds (pos 6)) (opened-IsPlaced (pos 6)) (inr (refl, opened-IsServed (pos 6), refl))
      (omega arith)

my_fread_overrun_example :
    (r : Fread) × (my_fread 4 1 (λ k. 1) (served 40 (pos 6)) buffer 1 9 (opened 40) ≡ done r)
    × (r.bytes_read ≡ 8)
    × (r.world.word 0x1020 ≡ 2)
my_fread_overrun_example =
    my_fread_overrun 4 blocks 40 1 (λ k. 1) (served 40 (pos 6)) buffer 1 9 (opened 40)
      (blocks-Holds (pos 6)) (opened-IsPlaced (pos 6)) (inr (refl, opened-IsServed (pos 6), refl))
      (omega arith) (omega arith)

my_fread-Broken_example :
    (r : Fread) × (my_fread 4 1 (λ k. 1) (served 40 (negsuc 4)) buffer 1 5 (opened 40) ≡ done r)
    × Broken 4 blocks 40 (served 40 (negsuc 4)) (opened 40) buffer r
my_fread-Broken_example =
    my_fread-Broken 4 blocks 40 1 (λ k. 1) (served 40 (negsuc 4)) buffer 1 5 (opened 40)
      (blocks-Holds (negsuc 4)) (opened-IsPlaced (negsuc 4)) (omega arith) refl
      (opened-IsServed (negsuc 4)) refl

failure_forgotten_example :
    (r : Fread) × (q : Fread) × (my_fread 4 1 (λ k. 1) (served 40 (negsuc 4)) buffer 1 5 (opened 40)
      ≡ done r)
    × (r.bytes_read ≡ 0)
    × (my_fread 4 1 (λ k. 1) r.world r.ptr 1 5 r.mf ≡ done q)
    × (q.bytes_read ≡ 5)
failure_forgotten_example =
    failure_forgotten 4 blocks 40 1 (λ k. 1) (served 40 (negsuc 4)) buffer 1 5 (opened 40)
      (blocks-Holds (negsuc 4)) (opened-IsPlaced (negsuc 4)) (omega arith) refl
      (opened-IsServed (negsuc 4)) refl (omega arith)

my_fread-hang_example : my_fread 4 100 (λ k. 0) (served 40 (pos 6)) buffer 1 5 (opened 40) ≡ hang
my_fread-hang_example =
    my_fread-hang 4 100 (λ k. 0) (served 40 (pos 6)) buffer 1 5 (opened 40)
      (unfold to_unsigned in omega arith) refl (λ k. refl)

demo_params-IsLaidOut : IsLaidOut demo_params
demo_params-IsLaidOut = omega arith

maps_demo : map_rings demo_sys (pos 3) demo_params ≡ some demo_submitter
unfolding map_rings sq_map_sz cq_map_sz sring_sz cring_sz to_int to_size
maps_demo = refl

map_rings-IsMapped_example : IsMapped demo_sys (pos 3) demo_params demo_submitter
map_rings-IsMapped_example =
    map_rings-IsMapped demo_sys (pos 3) demo_params demo_submitter demo_params-IsLaidOut maps_demo

slot_address-Inside_example :
    Inside 0x10001000 (256 * sizeof_sqe) (slot_address (world 40 (pos 6)) demo_submitter) sizeof_sqe
slot_address-Inside_example = slot_address-Inside (world 40 (pos 6)) demo_submitter 8 refl

demo-Aligns : Aligns demo_sys 4
demo-Aligns k = (0 ∷ 0 ∷ 0 ∷ 0 ∷ [], refl, refl)

demo-IsApart : IsApart demo_submitter
demo-IsApart = record {
  head_before = omega arith;
  tail_before = omega arith;
  mask_before = omega arith;
  head_tail = omega arith;
  mask_tail = omega arith;
}

world-IsRing : IsRing demo_submitter 8 (world 40 (pos 6))
world-IsRing = record {
  size = omega arith;
  mask = refl;
  head_word = omega arith;
  tail_word = omega arith;
  bound = omega arith;
  listed = λ i lt. absurd (omega arith);
}

open_blocks-Requests_example :
    Requests 4 demo_sys demo_enter 8 (world 40 (pos 6)) demo_submitter 7 (pos 4) 6
open_blocks-Requests_example =
    open_blocks-Requests 4 demo_sys demo_enter 8 (world 40 (pos 6)) demo_submitter 7 (pos 4) 6
      (λ n. n) (omega arith) (omega arith) (λ n. refl) demo-Aligns world-IsRing demo-IsApart
      (omega arith)

open_blocks_overflow_example :
    open_blocks 4 demo_sys demo_enter
      (world 40 (pos 6))
      demo_submitter
      7
      (pos 4)
      (2 ^ 32 + 1)
      (count_blocks 4 (2 ^ 32 + 1))
    ≡ fault
open_blocks_overflow_example =
    open_blocks_overflow 4 demo_sys demo_enter (world 40 (pos 6)) demo_submitter 7 (pos 4)
      (2 ^ 32 + 1) (λ n. n) (omega arith) (omega arith) (omega arith) (omega arith) (λ n. refl)
      demo-Aligns
