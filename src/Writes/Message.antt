-- ===== src/Writes/Message.antt =====
-- example/omp_io_uring_string.c: one message with its null byte. The printed text is left out.
use io_uring_example.Base.{
  ℕ, ◌+◌, none, some, List, [], ◌∷◌, ◌++◌, length, leb, overwrite, if◌then◌else◌, Run, done, ◌>>=◌,
  ◌>>◌, assert, ℤ, is_neg,
}
use io_uring_example.Writes.{
  Calls, Machine, allocated, opened, ring_made, submit_write, free, close, queue_exit,
}
use io_uring_example.Writes.Numbers.{is_zero, close_free}

-- strcpy(buffer, message)
abbrev pub strcpy : List ℕ → List ℕ → Run (List ℕ)
strcpy buffer message =
    assert (leb (length message + 1) (length buffer))
    >> done (overwrite 0 (message ++ 0 ∷ []) buffer)

-- close(fd); io_uring_queue_exit(&ring); omp_free(buffer); and the return
abbrev pub close_all : ℕ → ℤ → ℕ → Machine → Run (ℕ × Machine)
close_all buffer fd status m = do
  m1 ← close fd m
  m2 ← queue_exit m1
  m3 ← free buffer m2
  done (status, m3)

-- from the submission queue entry on; the result of the write is only reported
unfoldable pub send : Calls → ℕ → ℤ → List ℕ → Machine → Run (ℕ × Machine)
send calls buffer fd bytes m = elim calls.get_sqe [
  | none ↦ close_all buffer fd 1 m
  | some sqe ↦
      let sent = submit_write fd bytes 0 m in
      if is_zero calls.wait_cqe then close_all buffer fd 0 sent else close_all buffer fd 1 sent
]

-- from the opening of the file on
unfoldable pub send_file : Calls → ℕ → List ℕ → Machine → Run (ℕ × Machine)
send_file calls buffer bytes m =
    let fd = calls.open_file in
    if is_neg fd
    then (free buffer m >>= λ m'. done (1, m'))
    else if is_zero calls.queue_init
    then send calls buffer fd bytes (ring_made (opened fd m))
    else close_free buffer fd (opened fd m)

-- main: the exit status. `stale` is what the bytes of omp_alloc hold.
unfoldable pub main : List ℕ → Calls → List ℕ → Machine → Run (ℕ × Machine)
main message calls stale m = elim calls.alloc [
  | none ↦ done (1, m)
  | some buffer ↦
      strcpy stale message >>= λ bytes. send_file calls buffer bytes (allocated buffer m)
]
