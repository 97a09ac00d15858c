-- ===== src/Writes/Numbers.antt =====
-- example/io_uring_write.c: the numbers below N, one on a line, in one write. The messages are left out.
pub mod Written
use io_uring_example.Base.{
  ℕ, zero, ◌*◌, Option, none, some, List, ◌∷◌, take, if◌then◌else◌, Run, done, ◌>>=◌, ◌>>◌, assert,
  ltb, ◌^◌, u32, ℤ, pos, negsuc, Bool, true, false, ◌==◌, is_neg,
}
use io_uring_example.Writes.{
  Calls, Machine, allocated, opened, ring_made, submit_write, free, close, queue_exit,
}
use io_uring_example.Writes.Text.{fill, numbers}

-- z == 0
abbrev pub is_zero : ℤ → Bool
is_zero (pos n) = n == 0
is_zero (negsuc n) = false

-- N * 12
abbrev pub buffer_bytes : ℕ → ℕ
buffer_bytes count = count * 12

-- io_uring_queue_exit(&ring); close(fd); free(buffer); and the return
abbrev pub give_back : ℕ → ℤ → ℕ → Machine → Run (ℕ × Machine)
give_back buffer fd status m = do
  m1 ← queue_exit m
  m2 ← close fd m1
  m3 ← free buffer m2
  done (status, m3)

-- close(fd); free(buffer); return 1;
abbrev pub close_free : ℕ → ℤ → Machine → Run (ℕ × Machine)
close_free buffer fd m = do m1 ← close fd m; m2 ← free buffer m1; done (1, m2)

-- from the submission queue entry on
unfoldable pub write_entry : Calls → ℕ → ℤ → List ℕ → Machine → Run (ℕ × Machine)
write_entry calls buffer fd bytes m = elim calls.get_sqe [
  | none ↦ give_back buffer fd 1 m
  | some sqe ↦
      let sent = submit_write fd bytes 0 m in
      if is_neg calls.wait_cqe
      then give_back buffer fd 1 sent
      else if is_neg calls.res
      then give_back buffer fd 1 sent
      else give_back buffer fd 0 sent
]

-- from the opening of the file on
unfoldable pub write_file : Calls → ℕ → List ℕ → Machine → Run (ℕ × Machine)
write_file calls buffer bytes m =
    let fd = calls.open_file in
    if is_neg fd
    then (free buffer m >>= λ m'. done (1, m'))
    else if is_zero calls.queue_init
    then write_entry calls buffer fd bytes (ring_made (opened fd m))
    else close_free buffer fd (opened fd m)

-- main: the exit status. `count` is N, and `stale` what the bytes of malloc hold. N * 12 is a product of ints,
-- and the length of io_uring_prep_write an unsigned int.
unfoldable pub main : ℕ → Calls → List ℕ → Machine → Run (ℕ × Machine)
main count calls stale m = assert (ltb (buffer_bytes count) (2 ^ 31)) >> elim calls.alloc [
  | none ↦ done (1, m)
  | some buffer ↦ fill (numbers 0 count) stale 0 >>= λ r.
      let (bytes, used) = r in write_file calls buffer (take (u32 used) bytes) (allocated buffer m)
]
