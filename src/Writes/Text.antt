-- ===== src/Writes/Text.antt =====
-- The buffer that example/io_uring_write.c and example/omp_io_uring_writer.c fill: one line of decimal
-- digits for each number.
pub mod Filled
pub mod ReadBack
use io_uring_example.Base.{
  ℕ, zero, suc, ◌+◌, ◌-◌, ◌*◌, ◌/◌, ◌%◌, Bool, true, false, ◌||◌, Option, none, some, List, [], ◌∷◌,
  ◌++◌, ltb, leb, ◌==◌, length, overwrite, Run, done, ◌>>=◌, ◌>>◌, assert,
}

-- the digits of a number below 10 ^ fuel, without leading zeros
abbrev pub digits : ℕ → ℕ → List ℕ
digits zero n = []
digits (suc fuel) n = elim (ltb n 10) [
  | true ↦ (48 + n) ∷ []
  | false ↦ digits fuel (n / 10) ++ (48 + n % 10) ∷ []
]

-- what sprintf makes of "%d\n"; an int has ten digits at most
abbrev pub line : ℕ → List ℕ
line n = digits 10 n ++ 10 ∷ []

-- sprintf(ptr, "%d\n", n), with `at` the place of ptr in the buffer: the line and a null byte, and the length
-- of the line
unfoldable pub sprintf_line : List ℕ → ℕ → ℕ → Run (List ℕ × ℕ)
sprintf_line buffer at n =
    assert (leb (at + length (line n) + 1) (length buffer))
    >> done (overwrite at (line n ++ 0 ∷ []) buffer, length (line n))

-- for (…) ptr += sprintf(ptr, "%d\n", …): the buffer, and the place of ptr
unfoldable pub fill : List ℕ → List ℕ → ℕ → Run (List ℕ × ℕ)
fill [] buffer at = done (buffer, at)
fill (n ∷ ns) buffer at =
    sprintf_line buffer at n >>= λ r. let (buffer', printed) = r in fill ns buffer' (at + printed)

-- the lines of some numbers
abbrev pub lines : List ℕ → List ℕ
lines [] = []
lines (n ∷ ns) = line n ++ lines ns

-- i, i + 1, …: `count` numbers
abbrev pub numbers : ℕ → ℕ → List ℕ
numbers i zero = []
numbers i (suc count) = i ∷ numbers (i + 1) count
