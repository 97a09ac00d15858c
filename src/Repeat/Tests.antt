-- ===== src/Repeat/Tests.antt =====
-- example/io_uring_poll.cpp on a machine that counts its requests.
use io_uring_example.Base.{
  ℕ, suc, to_size, ◌*◌, ◌+◌, ◌≡◌, refl, arith, true, false, Option, none, some, List, [], ◌∷◌,
  length, min, take, done, fault, ℤ, pos, negsuc,
}
use io_uring_example.Repeat.{
  Cpp, MyFile, opened, returned, terminated, new_file, open_stream, my_fopen, my_fclose, read_round,
  read_loop, my_fread, print_rounds, main,
}
use io_uring_example.Repeat.Served.{Serves}
use io_uring_example.Repeat.Cycle.{repeated, first_block, my_fread-repeated}
use io_uring_example.Repeat.Fault.{main-my_fread}

abbrev abc : List ℕ
abc = 97 ∷ 98 ∷ 99 ∷ []

-- A ring that serves the first bytes of `content`, or `failure` where that is there; `object` is what
-- `new` yields.
abbrev machine_of : List ℕ → Option ℤ → Option ℕ → Cpp ℕ
machine_of content failure object = record {
  stdio = record {
    queue_init = λ n p m. (some 1, m);
    queue_exit = λ r m. m;
    register_files = λ r fd m. (pos 0, m);
    fopen = λ name mode m. (some 2, m);
    fclose = λ fp m. m;
    fileno = λ fp. pos 5;
    malloc = λ n m. (some 3, m);
    free = λ a m. m;
    get_sqe = λ r m. some (0, m);
    write_sqe = λ slot f m. m;
    submit = λ r m. suc m;
    wait_cqe = λ r m. (
      pos 0,
      record {
        user_data = 0;
        res = elim failure [ none ↦ pos (min 1024 (length content)) | some e ↦ e ];
        flags = 0;
      },
      m,
    );
    cqe_seen = λ r m. m;
    memory = λ a n m. take n content;
    fread = λ n fp m. ([], m);
    feof = λ fp m. true;
    ferror = λ fp m. false;
  };
  new_object = λ n m. (object, m);
  delete_object = λ a m. m;
  print = λ s m. m + 1000 * length s;
}

abbrev file : MyFile
file = record { stream = 2; ring = 1; iov = 228; iov_base = 3; iov_len = 1024 }

-- three rounds for eight bytes of a file of three
eight_bytes :
    my_fread (machine_of abc none (some 4)).stdio 8 8 1 8 file 0
    ≡ done (8, 97 ∷ 98 ∷ 99 ∷ 97 ∷ 98 ∷ 99 ∷ 97 ∷ 98 ∷ [], 3)
unfolding my_fread read_loop read_round to_size
eight_bytes = refl

-- a failed read ends main with the code 0
main_failed : main (machine_of abc (some (negsuc 4)) (some 4)) 2 [] [] 0 ≡ done (returned 0, 1)
unfolding main print_rounds my_fread read_loop read_round to_size my_fopen open_stream new_file
    my_fclose
main_failed = refl

main_terminated : main (machine_of abc none none) 2 [] [] 0 ≡ done (terminated, 0)
unfolding main my_fopen open_stream new_file
main_terminated = refl

abbrev serves_of : (content : List ℕ) → Serves (machine_of content none (some 4)).stdio content file
serves_of content = record {
  Ready = λ m. Unit {0};
  serve = λ m ready. record {
    slot = 0;
    taken = m;
    after = suc m;
    cqe = record { user_data = 0; res = pos (min 1024 (length content)); flags = 0 };
    got_slot = refl;
    waited = refl;
    res = refl;
    bytes = λ n few. refl;
    ready = tt;
  };
}

my_fread-repeated_example :
    (m' : ℕ) × Unit {0}
    × (my_fread (machine_of abc none (some 4)).stdio 8 8 1 8 file 0
        ≡ done (8, take 8 (repeated 8 (first_block abc)), m'))
my_fread-repeated_example =
    my_fread-repeated (machine_of abc none (some 4)).stdio abc file (serves_of abc) 8 8 8 0 tt
      (omega arith) (omega arith) (omega arith) (omega arith)

opened_file : my_fopen (machine_of abc none (some 4)) [] [] 0 ≡ (opened 4 file, 0)
unfolding my_fopen open_stream new_file
opened_file = refl

main-my_fread_example : main (machine_of abc none (some 4)) 1024 [] [] 0 ≡ fault
main-my_fread_example =
    main-my_fread (machine_of abc none (some 4)) abc file (serves_of abc) 1024 4 [] [] 0 0
      opened_file tt (omega arith)
