-- ===== src/Plain/Tests.antt =====
-- example/fread.c on a machine with one file of four bytes, which read(2) serves in parts of at most three.
use io_uring_example.Base.{
  ℕ, ◌+◌, ◌-◌, ◌≡◌, refl, some, List, [], ◌∷◌, take, drop, min, done, arith, ℤ, pos, to_size,
}
use io_uring_example.Posix.{Posix, Reads, Counts}
use io_uring_example.Plain.{my_fread, my_fopen, my_fclose, cat_loop, my_cat}
use io_uring_example.Plain.Output.{my_cat-prints}
use io_uring_example.Plain.Held.{SameHeld, my_cat-SameHeld}

-- the place in the file, what is open and what is allocated
record Machine : Type 0 where
  pub place : ℕ
  pub descriptors : List ℤ
  pub blocks : List ℕ

abbrev content : List ℕ
content = 104 ∷ 101 ∷ 121 ∷ 10 ∷ []

abbrev tail_of {ℓ} : {A : Type ℓ} → List A → List A
tail_of [] = []
tail_of (x ∷ xs) = xs

abbrev part : ℕ → ℕ → ℕ
part n place = min (min n 3) (4 - place)

abbrev posix : Posix Machine
posix = record {
  malloc = λ n m. (some 64, record m { blocks = 64 ∷ m.blocks });
  free = λ a m. record m { blocks = tail_of m.blocks };
  open_file = λ name m. (pos 5, record m { place = 0; descriptors = pos 5 ∷ m.descriptors });
  close = λ fd m. record m { descriptors = tail_of m.descriptors };
  read = λ fd n m. (
    pos (part n m.place),
    take (part n m.place) (drop m.place content),
    record m { place = m.place + part n m.place },
  );
}

abbrev start : Machine
start = record { place = 0; descriptors = pos 2 ∷ []; blocks = [] }

abbrev opened : Machine
opened = record { place = 0; descriptors = pos 5 ∷ pos 2 ∷ []; blocks = 64 ∷ [] }

abbrev reads : Reads posix content (pos 5)
reads = record {
  position = λ m. m.place;
  some_bytes = λ n m h i. (
    part n m.place,
    record m { place = m.place + part n m.place },
    refl,
    omega arith,
    omega arith,
    refl,
    omega arith,
  );
  at_end = λ n m e.
      let z : part n m.place ≡ 0 = omega arith in
      let same : m.place + 0 ≡ m.place = omega arith in rw (z, same);
}

abbrev counts : Counts posix
counts = record {
  descriptors = λ m. m.descriptors;
  blocks = λ m. m.blocks;
  malloc_some = λ n a m m' e. (ground (arith, e), ground (arith, e));
  malloc_none = λ n m m' e. ground (arith, e);
  free_first = λ a others m e. (ground (arith, e), refl);
  open_some = λ name n m m' e. (ground (arith, e), ground (arith, e));
  open_none = λ name n m m' e. ground (arith, e);
  open_minus_one = λ name n m m' e. ground (arith, e);
  close_first = λ fd fds m e. (ground (arith, e), refl);
  read_holds = λ fd n m. (refl, refl);
}

my_cat_runs : my_cat posix 3 [] start ≡ done (content, record start { place = 4 })
unfolding my_cat my_fopen my_fclose my_fread cat_loop to_size
my_cat_runs = refl

my_cat-prints_example : (m : Machine) × (my_cat posix 5 [] start ≡ done (content, m))
my_cat-prints_example =
    my_cat-prints posix content [] 64 5 start (record start { blocks = 64 ∷ [] }) opened reads 5
      refl refl refl (omega arith)

my_cat-SameHeld_example : SameHeld posix counts start (record start { place = 4 })
my_cat-SameHeld_example =
    my_cat-SameHeld posix counts 3 [] start content (record start { place = 4 }) my_cat_runs
