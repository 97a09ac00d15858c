-- ===== src/Session/Tests.antt =====
-- example/omp_sync_task.cpp on arrays of 18 ints and of two.
use io_uring_example.Base.{
  ℕ, ◌≡◌, refl, inl, inr, ◌++◌, some, none, List, [], ◌∷◌, replicate, done, fault, hang, arith, pos,
  negsuc, to_size,
}
use io_uring_example.Writes.{Calls, Machine}
use io_uring_example.Writes.Array.{int_bytes}
use io_uring_example.Session.{
  Round, set_one, set_ones, increment, process, perform, modify, read_and_modify, obey, obey_all,
  main,
}
use io_uring_example.Session.Filled.{IsAmong, IsAmong-append, IsAmong-split, IsSchedule}
use io_uring_example.Session.Performed.{IsFine, filled, sent_all, main-sent_all}

-- the last iteration first
abbrev backwards : List (ℕ × ℕ) → List (ℕ × ℕ)
backwards [] = []
backwards (x ∷ xs) = backwards xs ++ x ∷ []

backwards-IsAmong : (xs : List (ℕ × ℕ)) (x : ℕ × ℕ) → IsAmong x xs → IsAmong x (backwards xs)
backwards-IsAmong [] x h = h
backwards-IsAmong (y ∷ xs) x (inl e) = IsAmong-append x (backwards xs) (y ∷ []) (inr (inl e))
backwards-IsAmong (y ∷ xs) x (inr h) =
    IsAmong-append x (backwards xs) (y ∷ []) (inl (backwards-IsAmong xs x h))

IsAmong-backwards : (xs : List (ℕ × ℕ)) (x : ℕ × ℕ) → IsAmong x (backwards xs) → IsAmong x xs
IsAmong-backwards [] x h = h
IsAmong-backwards (y ∷ xs) x h = elim (IsAmong-split x (backwards xs) (y ∷ []) h) [
  | inl later ↦ inr (IsAmong-backwards xs x later)
  | inr (inl e) ↦ inl e
  | inr (inr gone) ↦ absurd gone
]

backwards-IsSchedule : IsSchedule backwards
backwards-IsSchedule = record { runs = backwards-IsAmong; no_other = IsAmong-backwards }

abbrev granted : Calls
granted = record {
  alloc = some 7;
  open_file = pos 3;
  queue_init = pos 0;
  get_sqe = some 0;
  wait_cqe = pos 0;
  res = pos 8;
}

abbrev writing : ℕ → Round
writing k = record { calls = granted; content = []; order = []; schedule = backwards }

abbrev idle : Machine
idle = record { memory = 5 ∷ []; descriptors = pos 1 ∷ []; rings = 0; requests = [] }

writing-IsFine : (k : ℕ) → IsFine (writing k)
writing-IsFine k = record {
  sqe = 0;
  open_run = refl;
  init_run = refl;
  sqe_run = refl;
  wait_run = refl;
  schedule_run = backwards-IsSchedule;
}

-- two commands 1 and then a 0
main-sent_all_example :
    (main 4 18 writing (some 7) (replicate 18 9) (pos 1 ∷ pos 1 ∷ pos 0 ∷ []) idle
      ≡ done (
        0,
        record {
          array = filled (replicate 18 9);
          output = [];
          machine = sent_all writing 2 0 (int_bytes (filled (replicate 18 9))) idle;
        },
      ))
    × (main 4 18 writing (some 7) (replicate 18 9) (pos 1 ∷ pos 1 ∷ []) idle ≡ hang)
main-sent_all_example =
    main-sent_all 3 1 18 7 writing (replicate 18 9) idle (pos 0) writing-IsFine refl (omega arith)
      refl refl (omega arith)

-- a command 2: the file has the ints 1 and 258, and the threads run backwards
abbrev reading : ℕ → Round
reading k = record {
  calls = granted;
  content = 1 ∷ 0 ∷ 0 ∷ 0 ∷ 2 ∷ 1 ∷ 0 ∷ 0 ∷ [];
  order = 1 ∷ 0 ∷ [];
  schedule = backwards;
}

read_two :
    main 2 2 reading (some 7) (9 ∷ 9 ∷ []) (pos 2 ∷ pos 0 ∷ []) idle
    ≡ done (0, record { array = 2 ∷ 259 ∷ []; output = 2 ∷ 259 ∷ []; machine = idle })
unfolding main obey_all obey read_and_modify modify increment to_size
read_two = refl

-- the greatest int cannot be incremented
increment_overflow : increment (0 ∷ []) (2147483647 ∷ []) ≡ fault
unfolding increment
increment_overflow = refl

-- a NULL of omp_alloc is stored to
fill_null : main 2 18 writing none [] (pos 1 ∷ []) idle ≡ fault
unfolding main obey_all obey perform set_ones set_one
fill_null = refl

-- a file that cannot be opened ends the command
not_opened : process (record granted { open_file = negsuc 0 }) (1 ∷ []) idle ≡ done idle
unfolding process
not_opened = refl
