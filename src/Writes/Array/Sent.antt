-- ===== src/Writes/Array/Sent.antt =====
-- The net effect of the programs that write an array or a message: status, and what is held and asked for.
use io_uring_example.Base.{
  ℕ, suc, ◌+◌, ◌-◌, min, ◌<◌, ◌^◌, ◌≡◌, refl, sym, ap, ◌∙◌, inl, inr, true, Bool-cases,
  Option-cases, none, some, List, [], ◌∷◌, ◌++◌, length, replicate, overwrite, le→leb,
  length-append, ◌==◌, if◌then◌else◌, Run, done, fault, ◌>>=◌, arith, is_neg,
}
use io_uring_example.Writes.{Calls, Machine, Request, allocated, opened}
use io_uring_example.Writes.Held.{free-first, close-first}
use io_uring_example.Writes.Numbers.{is_zero, close_free}
use io_uring_example.Writes.Message
use io_uring_example.Writes.Message.{strcpy, close_all, send, send_file}
use io_uring_example.Writes.Array.{
  store_all, sum, int_bytes, send_array, set_slots, main_ptr, main_atomic,
}
use io_uring_example.Writes.Array.Stores.{
  IsOrder, store_all-IsOrder, sum-replicate, written, set_slots-written,
}

abbrev pub sent : Calls → List ℕ → Machine → Machine
sent calls bytes m = record m {
  requests = (record { fd = calls.open_file; bytes = bytes; off = 0 }) ∷ m.requests;
}

-- The array programs once their array is filled: all is given back, but for an entry or a completion that
-- is missing, which they do not expect.
abbrev pub array_net : Calls → List ℕ → Machine → Run (ℕ × Machine)
array_net calls bytes m =
    if is_neg calls.open_file
    then done (1, m)
    else if is_zero calls.queue_init
    then (elim calls.get_sqe [
      | none ↦ fault
      | some sqe ↦ if is_zero calls.wait_cqe then done (0, sent calls bytes m) else fault
    ])
    else done (1, m)

-- The message program: all is given back, whatever the calls give.
abbrev pub message_net : Calls → List ℕ → Machine → Run (ℕ × Machine)
message_net calls bytes m =
    if is_neg calls.open_file
    then done (1, m)
    else if is_zero calls.queue_init
    then (elim calls.get_sqe [
      | none ↦ done (1, m)
      | some sqe ↦ done (if is_zero calls.wait_cqe then 0 else 1, sent calls bytes m)
    ])
    else done (1, m)

module _ (calls : Calls) (m : Machine) (a : ℕ) where
  abbrev held : List Request → Machine
  held requests = record {
    memory = a ∷ m.memory;
    descriptors = calls.open_file ∷ m.descriptors;
    rings = suc m.rings;
    requests = requests;
  }

  close_all-held :
      (requests : List Request) (status : ℕ)
      → close_all a calls.open_file status (held requests)
        ≡ done (status, record m { requests = requests })
  close_all-held requests status =
      rw (close-first calls.open_file m.descriptors (held requests) refl) (
        rw (
          free-first a m.memory
            (record (held requests) { rings = m.rings; descriptors = m.descriptors }) refl))

  close_free-held :
      close_free a calls.open_file (opened calls.open_file (allocated a m)) ≡ done (1, m)
  close_free-held =
      rw (close-first calls.open_file m.descriptors (opened calls.open_file (allocated a m)) refl)
        (rw (free-first a m.memory (record (allocated a m) { descriptors = m.descriptors }) refl))

  send_array-net :
      (array : List ℕ)
      → send_array calls a array (allocated a m) ≡ array_net calls (int_bytes array) m
  unfolding send_array
  send_array-net array = elim (Bool-cases (is_neg calls.open_file)) [
    | inl refused ↦
        simp (refused, send_array)
          (ap (λ r. r >>= λ n. done (1, n)) (free-first a m.memory (allocated a m) refl))
    | inr there ↦ elim (Bool-cases (is_zero calls.queue_init)) [
      | inr no_ring ↦ simp (there, no_ring, send_array) close_free-held
      | inl made ↦ elim (Option-cases calls.get_sqe) [
        | inl no_entry ↦ simp (there, made, no_entry, send_array)
        | inr (sqe, given) ↦ elim (Bool-cases (is_zero calls.wait_cqe)) [
          | inl waited ↦ simp (there, made, given, waited, send_array) (close_all-held _ 0)
          | inr lost ↦ simp (there, made, given, lost, send_array)
        ]
      ]
    ]
  ]

  send_file-net :
      (bytes : List ℕ) → send_file calls a bytes (allocated a m) ≡ message_net calls bytes m
  unfolding send_file send
  send_file-net bytes = elim (Bool-cases (is_neg calls.open_file)) [
    | inl refused ↦
        simp (refused, send_file)
          (ap (λ r. r >>= λ n. done (1, n)) (free-first a m.memory (allocated a m) refl))
    | inr there ↦ elim (Bool-cases (is_zero calls.queue_init)) [
      | inr no_ring ↦ simp (there, no_ring, send_file) close_free-held
      | inl made ↦ elim (Option-cases calls.get_sqe) [
        | inl no_entry ↦ simp (there, made, no_entry, send_file, send) (close_all-held m.requests 1)
        | inr (sqe, given) ↦ elim (Bool-cases (is_zero calls.wait_cqe)) [
          | inl waited ↦ simp (there, made, given, waited, send_file, send) (close_all-held _ 0)
          | inr lost ↦ simp (there, made, given, lost, send_file, send) (close_all-held _ 1)
        ]
      ]
    ]
  ]

overwrite_whole : (xs dst : List ℕ) → length dst ≡ length xs → overwrite 0 xs dst ≡ xs
overwrite_whole [] [] h = refl
overwrite_whole [] (y ∷ dst) h = absurd (omega arith)
overwrite_whole (x ∷ xs) [] h = absurd (omega arith)
overwrite_whole (x ∷ xs) (y ∷ dst) h = ap (λ t. x ∷ t) (overwrite_whole xs dst (omega arith))

zero-add : (n : ℕ) → 0 + n ≡ n
zero-add n = omega arith

written-zero : (b : ℕ) → written b 0 ≡ replicate b 0
written-zero b = let (e, f) : (min 0 b ≡ 0) × (b - 0 ≡ b) = (omega arith, omega arith) in rw (e, f)

-- A message in a buffer of its length and one byte more: whatever the calls give, main gives back all that it
-- got. Without a file, a ring, an entry or memory nothing is sent; otherwise one write of the message and its
-- null byte is, and the status tells whether the wait for its completion failed.
pub main-message_net :
    (message stale : List ℕ) (calls : Calls) (m : Machine)
    → length stale ≡ length message + 1
    → Message.main message calls stale m
      ≡ (elim calls.alloc [ none ↦ done (1, m) | some a ↦ message_net calls (message ++ 0 ∷ []) m ])
unfolding Message.main
main-message_net message stale calls m size = elim (Option-cases calls.alloc) [
  | inl refused ↦ simp (refused, Message.main)
  | inr (a, given) ↦
      simp
        (
          given,
          le→leb (length message + 1) (length stale) (omega (arith, size)),
          overwrite_whole (message ++ 0 ∷ []) stale
              (omega (arith, size, length-append message (0 ∷ []))),
          Message.main,
        )
        (send_file-net calls m a (message ++ 0 ∷ []))
]

-- The array of ints that main of omp_io_uring_ptr.c sends: with memory for N of them, and an iteration of the
-- target loop for each index, in any order, its sum is N, and the net effect is that of sending N ones.
pub main_ptr-array_net :
    (count : ℕ) (order stale : List ℕ) (calls : Calls) (m : Machine) (a : ℕ)
    → calls.alloc ≡ some a
    → length stale ≡ count
    → IsOrder count order
    → main_ptr count order calls stale m ≡ array_net calls (int_bytes (replicate count 1)) m
unfolding main_ptr
main_ptr-array_net count order stale calls m a given size o =
    let stored : store_all 1 order stale ≡ done (replicate count 1) =
      store_all-IsOrder 1 order stale (rw size o) ∙ ap (λ n. done (replicate n 1)) size in
    let test : (sum (replicate count 1) == count) ≡ true = ground (arith, sum-replicate count) in
    simp (given, stored, test, main_ptr) (send_array-net calls m a (replicate count 1))

-- The ring buffer of main of omp_io_uring_atomic.c: with memory for it, and an iteration of the target loop for
-- each place, in any order, the net effect of N writes to it, N below 2 ^ 31, is that of sending 1 in the first
-- N places, or in all where N is larger, and 0 in the others; no write is outside the buffer.
pub main_atomic-array_net :
    (buffer_size count : ℕ) (order stale : List ℕ) (calls : Calls) (m : Machine) (a : ℕ)
    → 0 < buffer_size
    → count < 2 ^ 31
    → calls.alloc ≡ some a
    → length stale ≡ buffer_size
    → IsOrder buffer_size order
    → main_atomic buffer_size count order calls stale m
      ≡ array_net calls (int_bytes (written buffer_size count)) m
unfolding main_atomic
main_atomic-array_net buffer_size count order stale calls m a h few given size o =
    let stored : store_all 0 order stale ≡ done (written buffer_size 0) =
      store_all-IsOrder 0 order stale (rw size o)
      ∙ ap (λ n. done (replicate n 0)) size
      ∙ ap done (sym (written-zero buffer_size)) in
    let slots : set_slots buffer_size count 0 (written buffer_size 0)
        ≡ done (written buffer_size count) =
      set_slots-written buffer_size count 0 h (omega arith)
      ∙ ap (λ n. done (written buffer_size n)) (zero-add count) in
    simp (given, stored, slots, main_atomic) (send_array-net calls m a (written buffer_size count))
