-- ===== src/Writes/Target.antt =====
-- example/omp_io_uring_writer.c: the lines of an array that a target region fills, in one write. The result of
-- omp_target_alloc is tested, those of the other calls are not.
pub mod Lines
use io_uring_example.Base.{
  ℕ, ◌+◌, ◌*◌, Option, none, some, List, ◌∷◌, take, ◌==◌, if◌then◌else◌, Bool, Run, done, fault,
  ◌>>=◌, ◌>>◌, assert, ltb, ◌^◌, u32, deref, ℤ, is_neg,
}
use io_uring_example.Writes.{
  Calls, Machine, allocated, opened, ring_made, submit_write, free, close, queue_exit,
}
use io_uring_example.Writes.Numbers.{is_zero}
use io_uring_example.Writes.Text.{fill}
use io_uring_example.Writes.Array.{store_all, sum}

-- close(-1) is an error without an effect.
abbrev pub close_if : ℤ → Machine → Run Machine
close_if fd m = if is_neg fd then done m else close fd m

-- open, whose result is not tested
abbrev pub opened_if : ℤ → Machine → Machine
opened_if fd m = if is_neg fd then m else opened fd m

-- From the set-up of the ring on: whether "PASS" is printed, and the machine. A ring that was not made, an entry
-- or a completion that is missing are used all the same. `free_target` is what free does to a block of
-- omp_target_alloc, which OpenMP leaves undefined; `free` of `host` is omp_target_free.
unfoldable pub send_lines :
    ℕ
    → Calls
    → (ℕ → Machine → Run Machine)
    → ℕ
    → ℕ
    → List ℕ
    → List ℕ
    → Machine
    → Run (Bool × Machine)
send_lines count calls free_target host buffer array bytes m =
    if is_zero calls.queue_init
    then (deref calls.get_sqe >>= λ sqe.
        if is_zero calls.wait_cqe
        then (close_if calls.open_file
              (submit_write calls.open_file bytes 0 (opened_if calls.open_file (ring_made m)))
            >>= λ m1. queue_exit m1 >>= λ m2. free_target buffer m2 >>= λ m3.
                free host m3 >>= λ m4. done (sum array == count, m4))
        else fault)
    else fault

-- main, with the exit status and whether "PASS" is printed. `count` is N, `order` that of the loop's iterations,
-- `buffer_alloc` the second result of omp_target_alloc, and the lists what the two blocks hold. N * 12 is a
-- product of ints, and the length of io_uring_prep_write an unsigned int.
unfoldable pub main :
    ℕ
    → List ℕ
    → Calls
    → (ℕ → Machine → Run Machine)
    → Option ℕ
    → List ℕ
    → List ℕ
    → Machine
    → Run (ℕ × Option Bool × Machine)
main count order calls free_target buffer_alloc ints chars m = elim calls.alloc [
  | none ↦ done (1, none, m)
  | some host ↦ store_all 1 order ints >>= λ array.
      assert (ltb (count * 12) (2 ^ 31)) >> elim buffer_alloc [
        | none ↦ free host (allocated host m) >>= λ m1. done (1, none, m1)
        | some buffer ↦ fill array chars 0 >>= λ r.
            let (bytes, used) = r in
            send_lines count calls free_target host buffer array (take (u32 used) bytes)
              (allocated buffer (allocated host m))
            >>= λ s. let (pass, m1) = s in done (0, some pass, m1)
      ]
]
