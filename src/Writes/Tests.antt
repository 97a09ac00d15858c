-- ===== src/Writes/Tests.antt =====
-- Runs of the programs that make one write, and the theorems about them at these runs.
use io_uring_example.Base.{
  ℕ, zero, suc, ◌<◌, ◌≡◌, refl, inl, inr, none, some, List, [], ◌∷◌, replicate, done, fault, arith,
  pos, negsuc, true,
}
use io_uring_example.Writes.{Calls, Machine, free}
use io_uring_example.Writes.Text.{lines, numbers, sprintf_line, fill}
use io_uring_example.Writes.Text.ReadBack.{read_lines}
use io_uring_example.Writes.Numbers
use io_uring_example.Writes.Numbers.{write_entry, write_file}
use io_uring_example.Writes.Numbers.Written.{IsEnded, main-Written}
use io_uring_example.Writes.Message
use io_uring_example.Writes.Target
use io_uring_example.Writes.Target.Lines.{main-sent_lines}
use io_uring_example.Writes.Array.{
  int_bytes, store_all, send_array, set_slots, main_ptr, main_atomic,
}
use io_uring_example.Writes.Array.Stores.{IsOrder, IsIn, written, set_slots-written}
use io_uring_example.Writes.Array.Sent.{
  sent, array_net, message_net, main-message_net, main_ptr-array_net, main_atomic-array_net,
}

abbrev granted : Calls
granted = record {
  alloc = some 7;
  open_file = pos 3;
  queue_init = pos 0;
  get_sqe = some 0;
  wait_cqe = pos 0;
  res = pos 1;
}

abbrev no_entry : Calls
no_entry = record granted { get_sqe = none }

abbrev no_file : Calls
no_file = record granted { open_file = negsuc 0 }

abbrev idle : Machine
idle = record { memory = 5 ∷ []; descriptors = pos 1 ∷ []; rings = 0; requests = [] }

-- "9\n10\n"
lines_run : lines (9 ∷ 10 ∷ []) ≡ 57 ∷ 10 ∷ 49 ∷ 48 ∷ 10 ∷ []
lines_run = refl

read_run : read_lines 0 (57 ∷ 10 ∷ 49 ∷ 48 ∷ 10 ∷ []) ≡ some (9 ∷ 10 ∷ [])
unfolding read_lines
read_run = refl

numbers_run :
    Numbers.main 2 granted (replicate 24 0) idle
    ≡ done (
      0,
      record idle {
        requests = (record { fd = pos 3; bytes = 48 ∷ 10 ∷ 49 ∷ 10 ∷ []; off = 0 }) ∷ [];
      },
    )
unfolding Numbers.main fill sprintf_line write_file write_entry
numbers_run = refl

main-Written_example :
    (bytes : List ℕ) × (read_lines 0 bytes ≡ some (numbers 0 3))
    × (status : ℕ) × (m' : Machine) × (Numbers.main 3 granted (replicate 36 0) idle
        ≡ done (status, m'))
    × IsEnded (pos 3) bytes idle status m'
main-Written_example = main-Written 3 granted (replicate 36 0) idle (omega arith) refl

main-message_net_example :
    Message.main (72 ∷ 105 ∷ []) no_entry (0 ∷ 0 ∷ 0 ∷ []) idle
    ≡ message_net no_entry (72 ∷ 105 ∷ 0 ∷ []) idle
main-message_net_example = main-message_net (72 ∷ 105 ∷ []) (0 ∷ 0 ∷ 0 ∷ []) no_entry idle refl

-- the iterations of two threads, one of which starts at the end
backwards-IsOrder : IsOrder 3 (2 ∷ 0 ∷ 1 ∷ [])
backwards-IsOrder = record { inside = omega arith; every = each }
  where
    each : (i : ℕ) → i < 3 → IsIn i (2 ∷ 0 ∷ 1 ∷ [])
    each zero h = inr (inl refl)
    each (suc zero) h = inr (inr (inl refl))
    each (suc (suc zero)) h = inl refl
    each (suc (suc (suc i))) h = absurd (omega arith)

main_ptr-array_net_example :
    main_ptr 3 (2 ∷ 0 ∷ 1 ∷ []) granted (9 ∷ 9 ∷ 9 ∷ []) idle
    ≡ array_net granted (int_bytes (replicate 3 1)) idle
main_ptr-array_net_example =
    main_ptr-array_net 3 (2 ∷ 0 ∷ 1 ∷ []) (9 ∷ 9 ∷ 9 ∷ []) granted idle 7 refl refl
      backwards-IsOrder

-- A missing entry is written through.
ptr_without_entry : main_ptr 3 (2 ∷ 0 ∷ 1 ∷ []) no_entry (9 ∷ 9 ∷ 9 ∷ []) idle ≡ fault
unfolding main_ptr store_all send_array
ptr_without_entry = refl

set_slots-written_example : set_slots 3 5 1 (written 3 1) ≡ done (written 3 6)
set_slots-written_example = set_slots-written 3 5 1 (omega arith) (omega arith)

main_atomic-array_net_example :
    main_atomic 3 2 (2 ∷ 0 ∷ 1 ∷ []) granted (9 ∷ 9 ∷ 9 ∷ []) idle
    ≡ array_net granted (int_bytes (1 ∷ 1 ∷ 0 ∷ [])) idle
main_atomic-array_net_example =
    main_atomic-array_net 3 2 (2 ∷ 0 ∷ 1 ∷ []) (9 ∷ 9 ∷ 9 ∷ []) granted idle 7 (omega arith)
      (omega arith) refl refl backwards-IsOrder

-- The file could not be opened, and the write is sent to descriptor -1; free takes the buffer as one of malloc.
main-sent_lines_example :
    (bytes : List ℕ) × (read_lines 0 bytes ≡ some (1 ∷ 1 ∷ 1 ∷ []))
    × (Target.main 3 (2 ∷ 0 ∷ 1 ∷ []) no_file free (some 8) (9 ∷ 9 ∷ 9 ∷ []) (replicate 36 0) idle
        ≡ done (0, some true, sent no_file bytes idle))
main-sent_lines_example =
    main-sent_lines 3 (2 ∷ 0 ∷ 1 ∷ []) (9 ∷ 9 ∷ 9 ∷ []) (replicate 36 0) no_file free idle 7 8 0
      (omega arith) refl refl refl backwards-IsOrder refl refl refl
