-- ===== src/Writes/Numbers/Written.antt =====
-- example/io_uring_write.c: what is written, and what is held at the end, for all results of the calls.
use io_uring_example.Base.{
  ℕ, zero, suc, ◌+◌, ◌*◌, ◌≤◌, ◌<◌, ◌^◌, ◌≡◌, refl, ap, ◌∙◌, inl, inr, Bool-cases, Option-cases,
  none, some, List, ◌∷◌, length, take, Run, done, All, arith, lt→ltb, u32, ℤ, is_neg,
}
use io_uring_example.Writes.{Calls, Machine, Request, allocated, opened}
use io_uring_example.Writes.Held.{free-first, close-first}
use io_uring_example.Writes.Text.{numbers, lines, fill}
use io_uring_example.Writes.Text.Filled.{fill-IsFilled}
use io_uring_example.Writes.Text.ReadBack.{read_lines, read_lines-lines}
use io_uring_example.Writes.Numbers.{
  is_zero, buffer_bytes, give_back, write_entry, write_file, main,
}

numbers-small : (i count : ℕ) → i + count ≤ 10 ^ 10 → All (λ n. n < 10 ^ 10) (numbers i count)
numbers-small i zero h = tt
numbers-small i (suc count) h = (omega arith, numbers-small (i + 1) count (omega arith))

length-numbers : (i count : ℕ) → length (numbers i count) ≡ count
length-numbers i zero = refl
length-numbers i (suc count) = omega (arith, length-numbers (i + 1) count)

-- What was got is given back; with the status 0 exactly the bytes were handed to the kernel, for the start
-- of the file.
pub record IsEnded (fd : ℤ) (bytes : List ℕ) (m : Machine) (status : ℕ) (m' : Machine)
    : Type 0 where
  pub memory : m'.memory ≡ m.memory
  pub descriptors : m'.descriptors ≡ m.descriptors
  pub rings : m'.rings ≡ m.rings
  pub sent : status ≡ 0 → m'.requests ≡ (record { fd = fd; bytes = bytes; off = 0 }) ∷ m.requests

abbrev Ends : ℤ → List ℕ → Machine → Run (ℕ × Machine) → Type 0
Ends fd bytes m run =
    (status : ℕ) × (m' : Machine) × (run ≡ done (status, m')) × IsEnded fd bytes m status m'

module _ (calls : Calls) (bytes : List ℕ) (m : Machine) (buffer : ℕ) where
  abbrev held : List Request → Machine
  held requests = record {
    memory = buffer ∷ m.memory;
    descriptors = calls.open_file ∷ m.descriptors;
    rings = suc m.rings;
    requests = requests;
  }

  give_back-held :
      (requests : List Request) (status : ℕ)
      → give_back buffer calls.open_file status (held requests)
        ≡ done (status, record m { requests = requests })
  give_back-held requests status =
      rw
        (close-first calls.open_file m.descriptors (record (held requests) { rings = m.rings })
          refl)
        (rw (
          free-first buffer m.memory
            (record (held requests) { rings = m.rings; descriptors = m.descriptors }) refl))

  abbrev request : Request
  request = record { fd = calls.open_file; bytes = bytes; off = 0 }

  given_up :
      (requests : List Request)
      → Ends calls.open_file bytes m (done (1, record m { requests = requests }))
  given_up requests = (
    1,
    record m { requests = requests },
    refl,
    record { memory = refl; descriptors = refl; rings = refl; sent = λ e. absurd (omega arith) },
  )

  -- a failure, with whatever was asked of the kernel
  failed :
      (requests : List Request)
      → Ends calls.open_file bytes m (give_back buffer calls.open_file 1 (held requests))
  failed requests = rw (give_back-held requests 1) (given_up requests)

  write_entry-Ends :
      Ends calls.open_file bytes m
        (write_entry calls buffer calls.open_file bytes (held m.requests))
  unfolding write_entry
  write_entry-Ends = elim (Option-cases calls.get_sqe) [
    | inl refused ↦ rw (refused, write_entry) (failed m.requests)
    | inr (sqe, given) ↦ elim (Bool-cases (is_neg calls.wait_cqe)) [
      | inl lost ↦ rw (given, lost, write_entry) (failed _)
      | inr waited ↦ elim (Bool-cases (is_neg calls.res)) [
        | inl error ↦ rw (given, waited, error, write_entry) (failed _)
        | inr written ↦
            rw (given, waited, written, write_entry)
              (
                0,
                record m { requests = request ∷ m.requests },
                give_back-held (request ∷ m.requests) 0,
                record { memory = refl; descriptors = refl; rings = refl; sent = λ e. refl },
              )
      ]
    ]
  ]

  write_file-Ends :
      Ends calls.open_file bytes m (write_file calls buffer bytes (allocated buffer m))
  unfolding write_file
  write_file-Ends = elim (Bool-cases (is_neg calls.open_file)) [
    | inl refused ↦
        rw (refused, write_file)
          (rw (free-first buffer m.memory (allocated buffer m) refl) (given_up m.requests))
    | inr there ↦ elim (Bool-cases (is_zero calls.queue_init)) [
      | inl made ↦ rw (there, made, write_file) write_entry-Ends
      | inr no_ring ↦
          rw (there, no_ring, write_file)
            (rw
              (close-first calls.open_file m.descriptors
                (opened calls.open_file (allocated buffer m)) refl)
              (rw
                (free-first buffer m.memory
                  (record (allocated buffer m) { descriptors = m.descriptors }) refl)
                (given_up m.requests)))
    ]
  ]

main_filled :
    (count : ℕ) (calls : Calls) (stale : List ℕ) (m : Machine) (buffer : ℕ) (bytes : List ℕ)
    (used : ℕ)
    → buffer_bytes count < 2 ^ 31
    → used < 2 ^ 32
    → calls.alloc ≡ some buffer
    → fill (numbers 0 count) stale 0 ≡ done (bytes, used)
    → main count calls stale m ≡ write_file calls buffer (take used bytes) (allocated buffer m)
unfolding main
main_filled count calls stale m buffer bytes used small short e run =
    let whole : u32 used ≡ used = omega arith in
    simp (lt→ltb (count * 12) (2 ^ 31) small, e, run, whole, main)

main_refused :
    (count : ℕ) (calls : Calls) (stale : List ℕ) (m : Machine)
    → buffer_bytes count < 2 ^ 31
    → calls.alloc ≡ none
    → main count calls stale m ≡ done (1, m)
unfolding main
main_refused count calls stale m small e = simp (lt→ltb (count * 12) (2 ^ 31) small, e, main)

-- For an N whose N * 12 is an int, that is below 2 ^ 31, and a buffer of N * 12 bytes, whatever the calls
-- give: main ends without leaving the buffer, and gives back the memory, the descriptor and the ring that it
-- got. If its status is 0, it has handed one write to the kernel, to the start of the file, whose bytes are
-- read back, line by line, as the numbers 0, 1, …, N - 1.
pub main-Written :
    (count : ℕ) (calls : Calls) (stale : List ℕ) (m : Machine)
    → buffer_bytes count < 2 ^ 31
    → length stale ≡ buffer_bytes count
    → (bytes : List ℕ) × (read_lines 0 bytes ≡ some (numbers 0 count))
      × (status : ℕ) × (m' : Machine) × (main count calls stale m ≡ done (status, m'))
      × IsEnded calls.open_file bytes m status m'
main-Written count calls stale m small room =
    let ns = numbers 0 count in
    let back = read_lines-lines ns (numbers-small 0 count (omega arith)) in
    elim (Option-cases calls.alloc) [
      | inl refused ↦ (
        lines ns,
        back,
        1,
        m,
        main_refused count calls stale m small refused,
        record {
          memory = refl;
          descriptors = refl;
          rings = refl;
          sent = λ e. absurd (omega arith);
        },
      )
      | inr (buffer, given) ↦
          let (bytes, used, run, filled) =
            fill-IsFilled ns stale 0 (omega (arith, length-numbers 0 count)) in
          let short : used < 2 ^ 32 =
            omega (arith, filled.place, filled.short, length-numbers 0 count) in
          let (status, m', ended, end) = write_file-Ends calls (take used bytes) m buffer in
          (
            take used bytes,
            ap (read_lines 0) filled.written ∙ back,
            status,
            m',
            main_filled count calls stale m buffer bytes used small short given run ∙ ended,
            end,
          )
    ]
