-- ===== src/Console/Stuck.antt =====
-- example/omp_io_uring_polling.c: a completion with an error, which is never marked as seen.
use io_uring_example.Base.{
  ℕ, ◌<◌, ◌≡◌, refl, ap, ◌∙◌, true, arith, List, [], ◌∷◌, ◌++◌, done, is_neg,
}
use io_uring_example.Kernel.{Cqe}
use io_uring_example.Console.{Machine, Calls, get_completion_and_print, read_files}
use io_uring_example.Console.Request.{submit_read_request-IsAnswered}
use io_uring_example.Console.Printed.{AllServe, read_files_round}

print_failed :
    (b : ℕ) (k : Calls) (m : Machine) (c : Cqe) (others : List Cqe)
    → m.queue ≡ c ∷ others
    → is_neg c.res ≡ true
    → get_completion_and_print b k m ≡ done (1, m)
unfolding get_completion_and_print
print_failed b k m c others e failed = ground (arith, e, failed)

-- Once the oldest completion on the ring is that of a readv that failed, nothing more is printed: for files that can
-- all be read, the rest of main's loop ends as after a success, has printed nothing, and the failed completion
-- is still the oldest one.
pub read_files-stuck :
    (tries b : ℕ) (k : Calls) (names contents : List (List ℕ)) (m : Machine) (c : Cqe)
    (others : List Cqe)
    → 0 < b
    → 0 < tries
    → AllServe b k names contents
    → m.queue ≡ c ∷ others
    → is_neg c.res ≡ true
    → (m' : Machine) × (read_files tries b k names m ≡ done (0, m'))
      × (m'.output ≡ m.output)
      × (rest : List Cqe) × (m'.queue ≡ c ∷ rest)
unfolding read_files
read_files-stuck tries b k [] [] m c others h ht s e failed = (m, refl, refl, others, e)
read_files-stuck tries b k [] (x ∷ contents) m c others h ht s e failed = absurd s
read_files-stuck tries b k (name ∷ names) [] m c others h ht s e failed = absurd s
read_files-stuck tries b k (name ∷ names) (content ∷ contents) m c others h ht s e failed =
    let (m1, sent, a) = submit_read_request-IsAnswered tries b k name content m h ht s.0 in
    let queue : m1.queue ≡ c ∷ (others ++ a.cqe ∷ []) = a.queued ∙ ap (λ q. q ++ a.cqe ∷ []) e in
    let (m', rest, out, left, kept) =
      read_files-stuck tries b k names contents m1 c (others ++ a.cqe ∷ []) h ht s.1 queue failed in
    (
      m',
      read_files_round tries b k name names m m1 m1 1 sent
            (print_failed b k m1 c (others ++ a.cqe ∷ []) queue failed)
          ∙ rest,
      out ∙ a.output,
      left,
      kept,
    )
