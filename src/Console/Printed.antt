-- ===== src/Console/Printed.antt =====
-- example/omp_io_uring_polling.c: what main prints of files that can be read.
use io_uring_example.Base.{
  ℕ, ◌<◌, ◌≡◌, refl, sym, ap, ◌∙◌, false, List, [], ◌∷◌, ◌++◌, append_assoc, append-nil, length,
  flatten, done, pos, is_neg,
}
use io_uring_example.Reader.Spec.{entries}
use io_uring_example.Manual.{print_blocks}
use io_uring_example.Manual.Reap.{sized, print_blocks_lem}
use io_uring_example.Console.{
  Machine, Calls, submit_read_request, get_completion_and_print, read_files, main,
}
use io_uring_example.Console.Request.{Serves, IsAnswered, submit_read_request-IsAnswered}

-- Each file can be read, and has this content.
abbrev pub AllServe : ℕ → Calls → List (List ℕ) → List (List ℕ) → Type 0
AllServe b k [] [] = Unit
AllServe b k [] (c ∷ contents) = ⊥
AllServe b k (name ∷ names) [] = ⊥
AllServe b k (name ∷ names) (content ∷ contents) =
    Serves b k name content × AllServe b k names contents

module _ (tries b : ℕ) (k : Calls) where
  -- A completion that is the only one is printed and marked as seen.
  print_answered :
      (content : List ℕ) (m m1 : Machine)
      → is_neg (k.wait_cqe m1) ≡ false
      → m.queue ≡ []
      → IsAnswered b content m m1
      → get_completion_and_print b k m1
        ≡ done (0, record m1 { queue = []; output = m.output ++ content })
  unfolding get_completion_and_print
  print_answered content m m1 wait empty a =
      let one : m1.queue ≡ a.cqe ∷ [] = a.queued ∙ ap (λ q. q ++ a.cqe ∷ []) empty in
      let printed : print_blocks (length a.vs) 0 (entries a.vs) m1.output
          ≡ done (m.output ++ content) =
        print_blocks_lem [] a.vs m1.output a.sizes
        ∙ ap done (ap (λ o. o ++ sized a.vs) a.output ∙ ap (λ c. m.output ++ c) (sym a.held)) in
      simp (wait, one, a.success, a.stored, a.count, printed, get_completion_and_print)

  pub read_files_round :
      (name : List ℕ) (names : List (List ℕ)) (m m1 m2 : Machine) (status : ℕ)
      → submit_read_request tries b k name m ≡ done (0, m1)
      → get_completion_and_print b k m1 ≡ done (status, m2)
      → read_files tries b k (name ∷ names) m ≡ read_files tries b k names m2
  unfolding read_files
  read_files_round name names m m1 m2 status e f = rw (e, f)

  pub read_files-prints :
      (names contents : List (List ℕ)) (m : Machine)
      → 0 < b
      → 0 < tries
      → ((m' : Machine) → is_neg (k.wait_cqe m') ≡ false)
      → AllServe b k names contents
      → m.queue ≡ []
      → (m' : Machine) × (read_files tries b k names m ≡ done (0, m'))
        × (m'.output ≡ m.output ++ flatten contents)
        × (m'.queue ≡ [])
  unfolding read_files
  read_files-prints [] [] m h ht wait s empty = (m, refl, sym (append-nil m.output), empty)
  read_files-prints [] (c ∷ contents) m h ht wait s empty = absurd s
  read_files-prints (name ∷ names) [] m h ht wait s empty = absurd s
  read_files-prints (name ∷ names) (content ∷ contents) m h ht wait s empty =
      let (m1, sent, a) = submit_read_request-IsAnswered tries b k name content m h ht s.0 in
      let m2 : Machine = record m1 { queue = []; output = m.output ++ content } in
      let (m', rest, out, seen) = read_files-prints names contents m2 h ht wait s.1 refl in
      (
        m',
        read_files_round name names m m1 m2 0 sent (print_answered content m m1 (wait m1) empty a)
            ∙ rest,
        out ∙ append_assoc m.output content (flatten contents),
        seen,
      )

-- For blocks of a size that is not 0, files below 2 GiB that can be opened and are read whole by the kernel, with
-- memory, a ring and an entry for each request, and no completion left over: main returns 0 and has printed the
-- contents of the files, all their bytes and no others, in the order of the arguments, and every completion is
-- marked as seen.
pub main-prints :
    (tries b : ℕ) (k : Calls) (name : List ℕ) (names contents : List (List ℕ)) (m : Machine)
    → 0 < b
    → 0 < tries
    → k.queue_init ≡ pos 0
    → ((m' : Machine) → is_neg (k.wait_cqe m') ≡ false)
    → AllServe b k (name ∷ names) contents
    → m.queue ≡ []
    → (m' : Machine) × (main tries b k (name ∷ names) m ≡ done (0, m'))
      × (m'.output ≡ m.output ++ flatten contents)
      × (m'.queue ≡ [])
unfolding main
main-prints tries b k name names contents m h ht made wait s empty =
    let (m', run, out, seen) =
      read_files-prints tries b k (name ∷ names) contents m h ht wait s empty in
    (m', simp (made, run, main), out, seen)
