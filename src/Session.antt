-- ===== src/Session.antt =====
-- example/omp_sync_task.cpp: an array of ints shared with a device, which a user's commands fill and
-- write, or read and increment. On one machine the device shares the memory of the host, so that
-- `map` copies nothing. Messages are left out.
pub mod Filled
pub mod Performed
mod Tests
use io_uring_example.Base.{
  ℕ, zero, suc, ◌+◌, ◌-◌, ◌*◌, ◌^◌, Bool, Option, none, some, List, [], ◌∷◌, ◌++◌, length, take,
  set, get_elem?, overwrite, ltb, leb, ◌==◌, if◌then◌else◌, Run, done, fault, hang, ◌>>=◌, ◌>>◌,
  assert, deref, ℤ, pos, is_neg, to_size, u32, same_ℤ,
}
use io_uring_example.Writes.{
  Calls, Machine, allocated, opened, ring_made, submit_write, free, close, queue_exit,
}
use io_uring_example.Writes.Numbers.{is_zero}
use io_uring_example.Writes.Array.{int_bytes}

-- NUM_TEAMS and THREADS_PER_TEAM of main; BUFFER_SIZE is the parameter `size`
abbrev pub num_teams : ℕ
num_teams = 4

abbrev pub threads_per_team : ℕ
threads_per_team = 4

-- the array, as words of 32 bits, the numbers printed, and what the program holds and has written
pub record State : Type 0 where
  pub array : List ℕ
  pub output : List ℕ
  pub machine : Machine

-- What a round meets: the results of its calls, the bytes of the file that it reads, the order of the
-- iterations of the loop of increment, and the schedule of those of perform.
pub record Round : Type 0 where
  pub calls : Calls
  pub content : List ℕ
  pub order : List ℕ
  pub schedule : List (ℕ × ℕ) → List (ℕ × ℕ)

-- for (int thread = 0; thread < num_threads_per_team; ++thread)
abbrev pub team_iterations : ℕ → ℕ → List (ℕ × ℕ)
team_iterations team zero = []
team_iterations team (suc n) = team_iterations team n ++ (team, n) ∷ []

-- for (int team = 0; team < num_teams; ++team) around it: the iterations of the collapsed loop
abbrev pub iterations : ℕ → ℕ → List (ℕ × ℕ)
iterations zero threads = []
iterations (suc teams) threads = iterations teams threads ++ team_iterations teams threads

-- one iteration: its team and its thread
unfoldable pub set_one : ℕ → ℕ → ℕ × ℕ → List ℕ → Run (List ℕ)
set_one threads size (team, thread) array =
    let index = team * threads + thread in
    if ltb index size
    then assert (ltb index (length array)) >> done (set array index 1)
    else done array

-- iterations in the order in which they run
unfoldable pub set_ones : ℕ → ℕ → List (ℕ × ℕ) → List ℕ → Run (List ℕ)
set_ones threads size [] array = done array
set_ones threads size (it ∷ order) array =
    set_one threads size it array >>= λ next. set_ones threads size order next

-- shared_ptr[i] += 1, undefined on the greatest int
unfoldable pub increment : List ℕ → List ℕ → Run (List ℕ)
increment [] array = done array
increment (i ∷ order) array = deref (get_elem? array i) >>= λ x.
    assert (if x == 2 ^ 31 - 1 then Bool.false else Bool.true)
    >> increment order (set array i (u32 (x + 1)))

-- ints from their bytes
abbrev pub int_words : List ℕ → List ℕ
int_words (a ∷ b ∷ c ∷ d ∷ bytes) = (a + b * 2 ^ 8 + c * 2 ^ 16 + d * 2 ^ 24) ∷ int_words bytes
int_words _ = []

-- IOOperations::process. The entry is not tested, nor whether there is a completion.
unfoldable pub process : Calls → List ℕ → Machine → Run Machine
process calls array m =
    let fd = calls.open_file in
    if is_neg fd
    then done m
    else if is_zero calls.queue_init
    then (deref calls.get_sqe >>= λ sqe.
        let sent = submit_write fd (int_bytes array) 0 (ring_made (opened fd m)) in
        if is_zero calls.wait_cqe then (close fd sent >>= λ m1. queue_exit m1) else fault)
    else close fd (opened fd m)

-- GPUOperations::perform(shared_ptr, size, num_teams, num_threads_per_team) with submit_io_task
unfoldable pub perform : ℕ → ℕ → ℕ → Round → State → Run State
perform size teams threads r s =
    set_ones threads size (r.schedule (iterations teams threads)) s.array >>= λ array.
    process r.calls array s.machine >>= λ m. done (record s { array = array; machine = m })

-- the bytes of a read over those of the array
abbrev pub received : ℕ → List ℕ → List ℕ → List ℕ
received n content array = int_words (overwrite 0 (take n content) (int_bytes array))

-- IOOperations::readAndModify, from the completion on
unfoldable pub modify : Round → State → Run State
modify r s =
    if is_neg r.calls.res
    then done s
    else (assert (leb (to_size r.calls.res) (4 * length s.array))
        >> (increment r.order (received (to_size r.calls.res) r.content s.array) >>= λ array.
            done (record s { array = array; output = s.output ++ array })))

-- IOOperations::readAndModify
unfoldable pub read_and_modify : Round → State → Run State
read_and_modify r s =
    let fd = r.calls.open_file in
    if is_neg fd
    then done s
    else if is_zero r.calls.queue_init
    then (deref r.calls.get_sqe >>= λ sqe.
        if is_zero r.calls.wait_cqe
        then (modify r (record s { machine = ring_made (opened fd s.machine) }) >>= λ t.
            close fd t.machine >>= λ m1. queue_exit m1 >>= λ m2. done (record t { machine = m2 }))
        else fault)
    else close fd (opened fd s.machine) >>= λ m. done (record s { machine = m })

-- what `std::cin >> command` leaves in `command`, and the rest of the input; at its end the
-- variable stays as it was
abbrev pub next_command : List ℤ → ℤ → ℤ × List ℤ
next_command [] command = (command, [])
next_command (c ∷ input) command = (c, input)

-- the body of the loop of main; `none` is the break
unfoldable pub obey : ℕ → Round → ℤ → State → Run (Option State)
obey size r command s =
    if same_ℤ command (pos 1)
    then (perform size num_teams threads_per_team r s >>= λ t. done (some t))
    else if same_ℤ command (pos 2)
    then (read_and_modify r s >>= λ t. done (some t))
    else done none

-- the loop of main on fuel, from its k-th round on
unfoldable pub obey_all : ℕ → ℕ → (ℕ → Round) → ℕ → List ℤ → ℤ → State → Run State
obey_all zero size rounds k input command s = hang
obey_all (suc fuel) size rounds k input command s =
    let (now, rest) = next_command input command in
    obey size (rounds k) now s >>= λ o. elim o [
      | none ↦ done s
      | some t ↦ obey_all fuel size rounds (suc k) rest now t
    ]

-- main, with its numbers as input: the exit status. `stale` is what the memory of omp_alloc holds,
-- whose result is not tested; omp_free of NULL does nothing.
unfoldable pub main : ℕ → ℕ → (ℕ → Round) → Option ℕ → List ℕ → List ℤ → Machine → Run (ℕ × State)
main fuel size rounds alloc stale input m = elim alloc [
  | none ↦
      obey_all fuel size rounds 0 input (pos 0) (record { array = []; output = []; machine = m })
      >>= λ s. done (0, s)
  | some shared ↦
      obey_all fuel size rounds 0 input (pos 0)
        (record { array = stale; output = []; machine = allocated shared m })
      >>= λ s. free shared s.machine >>= λ m1. done (0, record s { machine = m1 })
]
