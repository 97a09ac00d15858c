-- ===== src/Writes/Target/Lines.antt =====
-- example/omp_io_uring_writer.c: what is written and printed where the ring works.
use io_uring_example.Base.{
  ℕ, zero, suc, ◌*◌, ◌<◌, ◌^◌, ◌≡◌, ap, ◌∙◌, inl, inr, true, Bool-cases, some, List, ◌∷◌,
  bind_assoc, bind_ext, length, replicate, length-replicate, take, ◌==◌, All, Run, done, ◌>>=◌,
  arith, refl, u32, lt→ltb, is_neg,
}
use io_uring_example.Writes.{Calls, Machine, allocated, free}
use io_uring_example.Writes.Held.{close-first}
use io_uring_example.Writes.Numbers.{is_zero}
use io_uring_example.Writes.Text.Filled.{fill-IsFilled}
use io_uring_example.Writes.Text.ReadBack.{read_lines, read_lines-lines}
use io_uring_example.Writes.Array.{store_all, sum}
use io_uring_example.Writes.Array.Stores.{IsOrder, store_all-IsOrder, sum-replicate}
use io_uring_example.Writes.Array.Sent.{sent}
use io_uring_example.Writes.Target.{send_lines, main}

ones-small : (n : ℕ) → All (λ k. k < 10 ^ 10) (replicate n 1)
ones-small zero = tt
ones-small (suc n) = (omega arith, ones-small n)

module _ (count : ℕ) (calls : Calls) (free_target : ℕ → Machine → Run Machine) (m : Machine)
    (host buffer : ℕ) (bytes array : List ℕ) where
  abbrev held : Machine
  held = sent calls bytes (allocated buffer (allocated host m))

  send_lines-sent :
      (sqe : ℕ)
      → is_zero calls.queue_init ≡ true
      → calls.get_sqe ≡ some sqe
      → is_zero calls.wait_cqe ≡ true
      → send_lines count calls free_target host buffer array bytes
          (allocated buffer (allocated host m))
        ≡ (free_target buffer held >>= λ m1. free host m1 >>= λ m2. done (sum array == count, m2))
  unfolding send_lines
  send_lines-sent sqe made given waited = elim (Bool-cases (is_neg calls.open_file)) [
    | inl missing ↦ simp (made, given, waited, missing, send_lines) refl
    | inr there ↦
        simp (made, given, waited, there, send_lines)
          (rw
            (close-first calls.open_file m.descriptors
              (record held { descriptors = calls.open_file ∷ m.descriptors; rings = suc m.rings })
              refl)
            refl)
  ]

-- For N ones in any order of the loop's iterations, with an int N * 12, two blocks of memory (of N ints, and of
-- 12 bytes for each of them) and a ring that works: main sends one write, whose bytes are read back, line by
-- line, as N ones, to whatever open returned, even an error; it has then given back the ring and the
-- descriptor, hands the buffer to free and the ints to omp_target_free, and where these return ends with 0
-- and "PASS". What free does to the buffer, which is a block of omp_target_alloc, is left open.
pub main-sent_lines :
    (count : ℕ) (order ints chars : List ℕ) (calls : Calls)
    (free_target : ℕ → Machine → Run Machine) (m : Machine) (host buffer sqe : ℕ)
    → count * 12 < 2 ^ 31
    → calls.alloc ≡ some host
    → length ints ≡ count
    → length chars ≡ count * 12
    → IsOrder count order
    → is_zero calls.queue_init ≡ true
    → calls.get_sqe ≡ some sqe
    → is_zero calls.wait_cqe ≡ true
    → (bytes : List ℕ) × (read_lines 0 bytes ≡ some (replicate count 1))
      × (main count order calls free_target (some buffer) ints chars m ≡ (
          free_target buffer (sent calls bytes (allocated buffer (allocated host m))) >>= λ m1.
          free host m1 >>= λ m2. done (0, some true, m2)))
unfolding main
main-sent_lines count order ints chars calls free_target m host buffer sqe few memory size room o
      made given waited =
    let array = replicate count 1 in
    let stored : store_all 1 order ints ≡ done array =
      store_all-IsOrder 1 order ints (rw size o) ∙ ap (λ n. done (replicate n 1)) size in
    let many : length array ≡ count = length-replicate count 1 in
    let (text, used, run, filled) = fill-IsFilled array chars 0 (omega (arith, many, room)) in
    let test : (sum array == count) ≡ true = ground (arith, sum-replicate count) in
    let whole : u32 used ≡ used = omega (arith, filled.place, filled.short, many) in
    let done_lines =
      send_lines-sent count calls free_target m host buffer (take used text) array sqe made given
        waited in
    (
      take used text,
      ap (read_lines 0) filled.written ∙ read_lines-lines array (ones-small count),
      simp (memory, stored, lt→ltb (count * 12) (2 ^ 31) few, run, whole, done_lines, test, main)
          (bind_assoc (free_target buffer _) _ _
            ∙ bind_ext (free_target buffer _) _ _ (λ m1. bind_assoc (free host m1) _ _)),
    )
