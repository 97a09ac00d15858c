-- ===== src/Reader/Open/Queue/Tests.antt =====
-- The ring of two entries of example/io_uring_read.c: three requests, one of them taken between.
use io_uring_example.Base.{
  ◌+◌, ◌≡◌, ◌≢◌, refl, none, ◌==◌, ltb, if◌then◌else◌, ◌-◌, ◌^◌, [], ◌∷◌, ◌++◌, arith, pos, u32,
}
use io_uring_example.Reader.{Submitter, World, update}
use io_uring_example.Reader.Open.{submit_readv}
use io_uring_example.Reader.Open.Queue.{
  readv, IsApart, entry, pending, IsRing, Takes, Steps, start, submits, takes,
}
use io_uring_example.Reader.Open.Queue.Order.{Steps-pending}

abbrev ring : Submitter
ring = record {
  ring_fd = pos 3;
  sq_ring = record {
    head = 100;
    tail = 104;
    ring_mask = 108;
    ring_entries = 112;
    flags = 116;
    array = 120;
  };
  sqes = 4096;
  cq_ring = record { head = 200; tail = 204; ring_mask = 208; ring_entries = 212; cqes = 220 };
}

-- both counters stand just before their wrap-around
abbrev idle : World
idle = record {
  word = λ a. if a == 108 then 1 else if ltb a 108 then 2 ^ 32 - 1 else 0;
  sqe = λ a. record {
    opcode = 0;
    flags = 0;
    ioprio = 0;
    fd = pos 0;
    off = 0;
    addr = 0;
    len = 0;
    rw_flags = 0;
    user_data = 0;
    buf_index = 0;
    personality = 0;
    file_index = 0;
    pad2_0 = 0;
    pad2_1 = 0;
  };
  cqe = λ a. record { user_data = 0; res = pos 0; flags = 0 };
  file_info = λ a. none;
  system_times = 0;
}

-- the kernel takes the oldest request
abbrev taken_by : World → World
taken_by w = record w { word = update w.word 100 (u32 (w.word 100 + 1)) }

ring-IsApart : IsApart ring
ring-IsApart = record {
  head_before = omega arith;
  tail_before = omega arith;
  mask_before = omega arith;
  head_tail = omega arith;
  mask_tail = omega arith;
}

idle-IsRing : IsRing ring 1 idle
idle-IsRing = record {
  size = omega arith;
  mask = refl;
  head_word = omega arith;
  tail_word = omega arith;
  bound = omega arith;
  listed = λ i lt. absurd (omega arith);
}

taken_by-Takes : (w : World) → w.word 100 ≢ w.word 104 → Takes ring 1 w (taken_by w)
taken_by-Takes w some_request = record {
  some_request = some_request;
  advanced = refl;
  same_tail = refl;
  same_mask = refl;
  same_array = λ i lt. ground arith;
  same_entries = refl;
}

abbrev once : World
once = submit_readv idle ring (pos 5) 1000 2 77

abbrev twice : World
twice = submit_readv (taken_by once) ring (pos 6) 2000 3 88

three_steps :
    Steps ring 1 idle
      (readv (pos 5) 1000 2 77 ∷ readv (pos 6) 2000 3 88 ∷ [])
      (entry ring 1 once 4294967295 ∷ [])
      twice
unfolding submit_readv
three_steps =
    submits
      (takes (submits start (pos 5) 1000 2 77 (omega arith)) (taken_by once)
        (taken_by-Takes once (omega arith)))
      (pos 6) 2000 3 88 (omega arith)

Steps-pending_example :
    IsRing ring 1 twice
    × (readv (pos 5) 1000 2 77 ∷ readv (pos 6) 2000 3 88 ∷ []
        ≡ (entry ring 1 once 4294967295 ∷ []) ++ pending ring 1 twice)
Steps-pending_example = Steps-pending ring 1 three_steps ring-IsApart idle-IsRing refl

one_taken : entry ring 1 once 4294967295 ≡ readv (pos 5) 1000 2 77
unfolding submit_readv
one_taken = refl

one_left : pending ring 1 twice ≡ readv (pos 6) 2000 3 88 ∷ []
unfolding submit_readv
one_left = refl
