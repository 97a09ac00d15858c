-- ===== src/Reader/Open/Blocks.antt =====
-- The number of blocks of my_fopen in example/io_uring_read.c, where the size fits an int and where
-- the cast cuts it.
use io_uring_example.Base.{
  ℕ, ◌+◌, ◌*◌, ◌/◌, ◌%◌, ◌≤◌, ◌<◌, ◌^◌, ◌≡◌, arith, ◌==◌, if◌then◌else◌, pos, to_int, to_int_small,
  div_int,
}
use native.Mathlib.Nat.{div-add-mod', mod-lt, div-le_self}
use io_uring_example.Reader.Open.{count_blocks}

-- `r` blocks of `b` bytes are the least that hold `n` bytes.
pub record IsCount (b r n : ℕ) : Type 0 where
  pub holds : n ≤ r * b
  pub least : r * b < n + b

-- the count of a size whose int is not negative
count_of_pos :
    (b n k : ℕ)
    → 0 < b
    → to_int n ≡ pos k
    → count_blocks b n ≡ pos (if n % b == 0 then k / b else k / b + 1)
unfolding count_blocks div_int
count_of_pos b n k h e = ground arith

le_mul : (q b : ℕ) → 0 < b → q ≤ q * b
le_mul q b h = grind arith

mul_suc : (q b : ℕ) → (q + 1) * b ≡ q * b + b
mul_suc q b = omega arith

round_up :
    (b n : ℕ)
    → 0 < b
    → IsCount b (if n % b == 0 then n / b else n / b + 1) n
      × ((if n % b == 0 then n / b else n / b + 1) ≤ n)
round_up b n h = ground (arith, div-add-mod' n b, mod-lt n h, le_mul (n / b) b h, mul_suc (n / b) b)

-- Below 2 GiB the count is exact.
pub count_blocks-IsCount :
    (b n : ℕ) → 0 < b → n < 2 ^ 31 → (r : ℕ) × (count_blocks b n ≡ pos r) × IsCount b r n × (r ≤ n)
count_blocks-IsCount b n h hn =
    let (count, small) = round_up b n h in
    (
      if n % b == 0 then n / b else n / b + 1,
      count_of_pos b n n h (to_int_small n hn),
      count,
      small,
    )

to_int_cut : (n : ℕ) → n % 2 ^ 32 < 2 ^ 31 → to_int n ≡ pos (n % 2 ^ 32)
unfolding to_int
to_int_cut n h = ground arith

-- From 4 GiB on the cast may leave a small positive int: then the count is short of the file.
pub count_blocks_short :
    (b n : ℕ)
    → 0 < b
    → b < 2 ^ 31
    → 2 ^ 32 ≤ n
    → n % 2 ^ 32 < 2 ^ 31
    → (r : ℕ) × (count_blocks b n ≡ pos r) × (r * b < n) × (r ≤ 2 ^ 31)
count_blocks_short b n h hb hn cut = (
  if n % b == 0 then n % 2 ^ 32 / b else n % 2 ^ 32 / b + 1,
  count_of_pos b n (n % 2 ^ 32) h (to_int_cut n cut),
  ground (arith, div-add-mod' (n % 2 ^ 32) b, mod-lt n h, mul_suc (n % 2 ^ 32 / b) b),
  ground (arith, div-le_self (n % 2 ^ 32) b),
)
