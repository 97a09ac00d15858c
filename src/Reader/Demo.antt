-- ===== src/Reader/Demo.antt =====
-- A file of six bytes in blocks of four, with a kernel that serves it: data for the examples.
use io_uring_example.Base.{
  ℕ, ◌+◌, true, false, none, some, List, [], ◌∷◌, ◌==◌, if◌then◌else◌, ℤ, pos,
}
use io_uring_example.Kernel.{Sqe, Params, zero_params, Sys}
use io_uring_example.Reader.{Submitter, Iovc, MyFile, World, update}

abbrev pub content : List ℕ
content = 1 ∷ 2 ∷ 3 ∷ 4 ∷ 5 ∷ 6 ∷ []

abbrev pub first_block : Iovc
first_block = record { buffer = 1 ∷ 2 ∷ 3 ∷ 4 ∷ []; buffer_size = 4 }

abbrev pub last_block : Iovc
last_block = record { buffer = 5 ∷ 6 ∷ 0 ∷ 0 ∷ []; buffer_size = 2 }

abbrev pub blocks : List Iovc
blocks = first_block ∷ last_block ∷ []

abbrev pub demo_params : Params
demo_params = record zero_params {
  sq_entries = 256;
  cq_entries = 512;
  features = 1;
  sq_off = record {
    head = 0;
    tail = 4;
    ring_mask = 8;
    ring_entries = 12;
    flags = 16;
    dropped = 20;
    array = 64;
  };
  cq_off = record {
    head = 32;
    tail = 36;
    ring_mask = 40;
    ring_entries = 44;
    overflow = 48;
    cqes = 2048;
    flags = 52;
  };
}

-- The address of an object is the number of its bytes.
abbrev pub demo_sys : Sys
demo_sys = record {
  io_uring_setup = λ n p. (pos 3, demo_params);
  mmap = λ n fd off. some (0x1000 + off);
  fopen = λ name mode. some 7;
  fileno = λ file. pos 4;
  open_fd = λ name. pos 4;
  fstat = λ fd. some (record { is_blk = false; is_reg = true; st_size = pos 6 });
  blkgetsize64 = λ fd. none;
  alloc = λ n. some n;
  memalign = λ k. some (0 ∷ 0 ∷ 0 ∷ 0 ∷ []);
}

abbrev pub demo_submitter : Submitter
demo_submitter = record {
  ring_fd = pos 3;
  sq_ring = record {
    head = 0x1000;
    tail = 0x1004;
    ring_mask = 0x1008;
    ring_entries = 0x100c;
    flags = 0x1010;
    array = 0x1040;
  };
  sqes = 0x10001000;
  cq_ring = record {
    head = 0x1020;
    tail = 0x1024;
    ring_mask = 0x1028;
    ring_entries = 0x102c;
    cqes = 0x1800;
  };
}

abbrev pub blank_sqe : Sqe
blank_sqe = record {
  opcode = 0;
  flags = 0;
  ioprio = 0;
  fd = pos 0;
  off = 0;
  addr = 0;
  len = 0;
  rw_flags = 0;
  user_data = 0;
  buf_index = 0;
  personality = 0;
  file_index = 0;
  pad2_0 = 0;
  pad2_1 = 0;
}

-- The masks are 255 and 511, the rings are empty, and the completion of a readv for `fi` will have
-- the result `res`.
abbrev pub world : ℕ → ℤ → World
world fi res = record {
  word = λ a. if a == 0x1008 then 255 else if a == 0x1028 then 511 else 0;
  sqe = λ a. blank_sqe;
  cqe = λ a. record { user_data = fi; res = res; flags = 0 };
  file_info = λ a. none;
  system_times = 0;
}

-- the memory after the readv
abbrev pub served : ℕ → ℤ → World
served fi res = record (world fi res) {
  file_info =
      update (λ a. none) fi
        (some (record { file_sz = 6; iovecs = some first_block ∷ some last_block ∷ [] }));
}

-- the file that my_fopen makes of it
abbrev pub opened : ℕ → MyFile
opened fi = record {
  fp = 7;
  blocks = pos 2;
  current_block = 0;
  isfirst = 0;
  current_offset = 0;
  s = demo_submitter;
  fi_read = none;
  fi = fi;
}

-- two arguments of io_uring_enter that it accepts
abbrev pub demo_enter : World → ℤ → ℕ → ℕ → ℕ → ℤ × World
demo_enter w fd to_submit min_complete flags = (pos 1, w)

abbrev pub buffer : List ℕ
buffer = 9 ∷ 9 ∷ 9 ∷ 9 ∷ 9 ∷ 9 ∷ 9 ∷ 9 ∷ 9 ∷ []
