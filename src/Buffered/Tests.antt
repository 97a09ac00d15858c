-- ===== src/Buffered/Tests.antt =====
-- example/io_uring_polling.c on a machine with a file of five bytes.
use io_uring_example.Base.{
  replicate, length-replicate, ℕ, ◌+◌, ◌≡◌, refl, ap, Bool, false, none, some, List, [], ◌∷◌,
  length, take, drop, ltb, done, arith, pos, negsuc,
}
use io_uring_example.Buffered.{Stdio, MyFile, Fread, open_stream, my_fopen, my_fread}
use io_uring_example.Buffered.Held.{Held, Counts, closed_again, my_fclose-my_fopen}
use io_uring_example.Buffered.Later.{Streams, my_fread-later}
use io_uring_example.Buffered.Twice.{my_fread-twice}
use io_uring_example.Buffered.Main.{until_zero, main}

record Machine : Type 0 where
  pub place : ℕ
  pub short : Bool
  pub holds : Held

abbrev content : List ℕ
content = 97 ∷ 98 ∷ 99 ∷ 100 ∷ 10 ∷ []

abbrev tail_of {ℓ} : {A : Type ℓ} → List A → List A
tail_of [] = []
tail_of (x ∷ xs) = xs

-- Registering the file fails.
abbrev machine : List ℕ → Stdio Machine
machine file_bytes = record {
  queue_init = λ n p m. (some 1, record m { holds = record m.holds { rings = 1 ∷ m.holds.rings } });
  queue_exit = λ r m. record m { holds = record m.holds { rings = tail_of m.holds.rings } };
  register_files = λ r fd m. (negsuc 8, m);
  fopen = λ name mode m.
      (some 2, record m { holds = record m.holds { streams = 2 ∷ m.holds.streams } });
  fclose = λ fp m. record m { holds = record m.holds { streams = tail_of m.holds.streams } };
  fileno = λ fp. pos 5;
  malloc = λ n m. (some 3, record m { holds = record m.holds { blocks = 3 ∷ m.holds.blocks } });
  free = λ a m. record m { holds = record m.holds { blocks = tail_of m.holds.blocks } };
  get_sqe = λ r m. some (0, m);
  write_sqe = λ slot f m. m;
  submit = λ r m. m;
  wait_cqe = λ r m. (pos 0, record { user_data = 0; res = pos 1024; flags = 0 }, m);
  cqe_seen = λ r m. m;
  memory = λ a n m. take n file_bytes;
  fread = λ n fp m. (
    take n (drop m.place file_bytes),
    record m {
      place = m.place + length (take n (drop m.place file_bytes));
      short = ltb (length (drop m.place file_bytes)) n;
    },
  );
  feof = λ fp m. m.short;
  ferror = λ fp m. false;
}

abbrev fresh : Machine
fresh = record {
  place = 0;
  short = false;
  holds = record { rings = []; streams = []; blocks = [] };
}

abbrev file : MyFile
file = record { stream = 2; ring = 1; iov = 4; iov_base = 3; iov_len = 1024; async_initiated = 1 }

abbrev counts : Counts (machine content)
counts = record {
  held = λ m. m.holds;
  init_none = λ n p m m' e. ground (arith, e);
  init_some = λ n p r m m' e. ground (arith, e);
  exit_first = λ r m h e. ap (λ (k : Held). record k { rings = tail_of k.rings }) e;
  fopen_none = λ name mode m m' e. ground (arith, e);
  fopen_some = λ name mode fp m m' e. ground (arith, e);
  fclose_first = λ fp m h e. ap (λ (k : Held). record k { streams = tail_of k.streams }) e;
  register_files_keeps = λ r fd m. refl;
  malloc_none = λ n m m' e. ground (arith, e);
  malloc_some = λ n a m m' e. ground (arith, e);
  free_first = λ a m h e. ap (λ (k : Held). record k { blocks = tail_of k.blocks }) e;
}

abbrev streams_of : (file_bytes : List ℕ) → Streams (machine file_bytes) file_bytes 2
streams_of file_bytes = record {
  position = λ m. m.place;
  read = λ n m. (
    record m {
      place = m.place + length (take n (drop m.place file_bytes));
      short = ltb (length (drop m.place file_bytes)) n;
    },
    refl,
    refl,
  );
}

open_refused : my_fopen (machine content) [] [] fresh ≡ (none, fresh)
unfolding my_fopen open_stream
open_refused = refl

my_fclose-my_fopen_example :
    (closed_again (machine content) counts (my_fopen (machine content) [] [] fresh)).holds
    ≡ fresh.holds
my_fclose-my_fopen_example = my_fclose-my_fopen (machine content) counts [] [] fresh

-- Two of the five bytes are left, and three are asked for.
my_fread-later_example :
    (r : Fread Machine) × (my_fread (machine content) 2 8 1 3 file (record fresh { place = 3 })
      ≡ done r)
    × (r.stored ≡ 100 ∷ 10 ∷ [])
    × (r.result ≡ 0)
my_fread-later_example =
    my_fread-later (machine content) content file (streams_of content) (record fresh { place = 3 })
      8 3 refl (omega arith) (omega arith) (omega arith)

-- a file of 1030 bytes
abbrev long_content : List ℕ
long_content = replicate 1030 7

abbrev new_file_demo : MyFile
new_file_demo = record file { async_initiated = 0 }

my_fread-twice_example :
    (a : Fread Machine) × (b : Fread Machine) × (my_fread
        (machine long_content)
        2
        1024
        1
        1024
        new_file_demo
        fresh
      ≡ done a)
    × (my_fread (machine long_content) 2 1024 1 1024 a.mf a.machine ≡ done b)
    × (a.result ≡ 1024)
    × (b.result ≡ 1024)
    × (a.stored ≡ take 1024 long_content)
    × (b.stored ≡ take 1024 long_content)
my_fread-twice_example =
    my_fread-twice (machine long_content) long_content new_file_demo (streams_of long_content) 1024
      fresh
      (record {
        slot = 0;
        taken = fresh;
        after = fresh;
        cqe = record { user_data = 0; res = pos 1024; flags = 0 };
        got_slot = refl;
        waited = refl;
        res = refl;
        bytes = refl;
        place = refl;
      })
      refl refl (omega (arith, length-replicate {A = ℕ} 1030 7)) (omega arith)

printed : until_zero (97 ∷ 0 ∷ 98 ∷ []) ≡ 97 ∷ []
unfolding until_zero
printed = refl

-- main where the file is refused
main_refused : main (machine content) 2 [] [] fresh ≡ done (1, [], fresh)
unfolding main my_fopen open_stream
main_refused = refl
