-- ===== src/Writes/Array.antt =====
-- example/omp_io_uring_ptr.c and example/omp_io_uring_atomic.c: an array of ints that a target region and
-- the host fill, in one write. The printed text is left out.
pub mod Stores
pub mod Sent
use io_uring_example.Base.{
  ℕ, zero, suc, ◌+◌, ◌*◌, ◌/◌, ◌%◌, ◌^◌, Option, none, some, List, [], ◌∷◌, ◌++◌, length, ltb, ◌==◌,
  set, if◌then◌else◌, Run, done, fault, ◌>>=◌, ◌>>◌, assert, deref, ℤ, is_neg,
}
use io_uring_example.Writes.{
  Calls, Machine, allocated, opened, ring_made, submit_write, free, close, queue_exit,
}
use io_uring_example.Writes.Numbers.{is_zero, close_free}
use io_uring_example.Writes.Message.{close_all}

-- the iterations of a target loop, in the order in which the threads make their stores
unfoldable pub store_all : ℕ → List ℕ → List ℕ → Run (List ℕ)
store_all v [] array = done array
store_all v (i ∷ order) array = assert (ltb i (length array)) >> store_all v order (set array i v)

abbrev pub sum : List ℕ → ℕ
sum [] = 0
sum (x ∷ xs) = x + sum xs

-- the bytes of ints that are not negative
abbrev pub int_bytes : List ℕ → List ℕ
int_bytes [] = []
int_bytes (x ∷ xs) =
    (x % 256) ∷ (x / 2 ^ 8 % 256) ∷ (x / 2 ^ 16 % 256) ∷ (x / 2 ^ 24 % 256) ∷ int_bytes xs

-- From the opening of the file on, the same in both programs. The entry is not tested, nor whether there
-- is a completion.
unfoldable pub send_array : Calls → ℕ → List ℕ → Machine → Run (ℕ × Machine)
send_array calls shared array m =
    let fd = calls.open_file in
    if is_neg fd
    then (free shared m >>= λ m'. done (1, m'))
    else if is_zero calls.queue_init
    then (deref calls.get_sqe >>= λ sqe.
        let sent = submit_write fd (int_bytes array) 0 (ring_made (opened fd m)) in
        if is_zero calls.wait_cqe then close_all shared fd 0 sent else fault)
    else close_free shared fd (opened fd m)

-- main of omp_io_uring_ptr.c; `count` is N, `order` that of the loop's iterations, `stale` what the
-- allocated memory holds. The result of omp_alloc is not tested.
unfoldable pub main_ptr : ℕ → List ℕ → Calls → List ℕ → Machine → Run (ℕ × Machine)
main_ptr count order calls stale m = do
  shared ← deref calls.alloc
  array ← store_all 1 order stale
  if sum array == count
      then send_array calls shared array (allocated shared m)
      else (free shared (allocated shared m) >>= λ m'. done (1, m'))

-- for (…) shared_ptr[atomic_fetch_add(&write_pos, 1) % BUFFER_SIZE] = 1: a store outside the array is
-- undefined, and a write_pos that no int holds would give a negative index.
unfoldable pub set_slots : ℕ → ℕ → ℕ → List ℕ → Run (List ℕ)
set_slots buffer_size zero write_pos array = done array
set_slots buffer_size (suc n) write_pos array =
    assert (ltb write_pos (2 ^ 31))
    >> assert (ltb (write_pos % buffer_size) (length array))
    >> set_slots buffer_size n (write_pos + 1) (set array (write_pos % buffer_size) 1)

-- main of omp_io_uring_atomic.c; `count` is N
unfoldable pub main_atomic : ℕ → ℕ → List ℕ → Calls → List ℕ → Machine → Run (ℕ × Machine)
main_atomic buffer_size count order calls stale m = do
  shared ← deref calls.alloc
  array ← store_all 0 order stale
  filled ← set_slots buffer_size count 0 array
  send_array calls shared filled (allocated shared m)
