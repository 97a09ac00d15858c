-- ===== src/Manual/Program.antt =====
-- main of example/omp_io_uring_manual.c for the command 2: what it prints of the files, one after the
-- other through the same rings.
use io_uring_example.Base.{
  ℕ, ◌+◌, ◌<◌, ◌^◌, ◌≡◌, ap, ◌∙◌, false, some, List, [], ◌∷◌, ◌++◌, append_assoc, append-nil,
  length, done, All, ℤ, pos, is_neg, refl,
}
use io_uring_example.Kernel.{Sys, enter_sq_wakeup}
use io_uring_example.Reader.{Submitter, Iovc, World}
use io_uring_example.Reader.Spec.{entries}
use io_uring_example.Reader.Open.{Enter, sizeof_submitter}
use io_uring_example.Reader.Open.Fill.{Aligns}
use io_uring_example.Reader.Open.Queue.{IsApart}
use io_uring_example.Reader.Open.Queue.Requested.{with_request}
use io_uring_example.Manual.{
  get_file_size, app_setup_uring, read_from_cq, submit_blocks, submit_to_sq, read_files,
  run_command, main,
}
use io_uring_example.Manual.Submit.{submit_to_sq-Submits}
use io_uring_example.Manual.Requests.{submit_blocks_lem}
use io_uring_example.Manual.Rounds.{IsSeparate, Idle, Kernel, submitted-Served, read_from_cq-Idle}

-- open gives a descriptor of the file, whose size fits an int.
pub record IsReadable (sys : Sys) (bytes : ℤ → List ℕ) (name : List ℕ) : Type 0 where
  pub opened : is_neg (sys.open_fd name) ≡ false
  pub sized : get_file_size sys (sys.open_fd name) ≡ pos (length (bytes (sys.open_fd name)))
  pub small : length (bytes (sys.open_fd name)) < 2 ^ 31

-- what the files hold, one after the other
abbrev pub contents : Sys → (ℤ → List ℕ) → List (List ℕ) → List ℕ
contents sys bytes [] = []
contents sys bytes (name ∷ names) = bytes (sys.open_fd name) ++ contents sys bytes names

module _ (b : ℕ) (sys : Sys) (enter : Enter) (serve : ℕ → World → World) (loads : ℕ → ℕ → ℕ)
    (bytes : ℤ → List ℕ) (s : Submitter) (k start : ℕ)
    (kernel : Kernel s k start enter serve loads bytes) where
  accepted :
      (w : World) (fd : ℤ) (n fi : ℕ) (vs : List Iovc)
      → length vs < 2 ^ 31
      → submit_blocks enter w s fd n (pos (length vs)) fi (entries vs)
        ≡ some (enter (with_request s w fd n fi vs) s.ring_fd 1 0 enter_sq_wakeup).1
  accepted w fd n fi vs few =
      submit_blocks_lem enter w s fd n fi vs few
      ∙ rw (kernel.accepts (with_request s w fd n fi vs)) refl

  read_files_step :
      (i : ℕ) (name out : List ℕ) (names : List (List ℕ)) (w w1 w2 : World) (output : List ℕ)
      → submit_to_sq b sys enter w s name ≡ done (some w1)
      → read_from_cq 2 b (serve i w1) s (loads i) ≡ done (out, w2)
      → read_files 2 b sys enter serve loads i (name ∷ names) s w output
        ≡ read_files 2 b sys enter serve loads (i + 1) names s w2 (output ++ out)
  unfolding read_files
  read_files_step i name out names w w1 w2 output submitted reaped = rw (submitted, reaped) refl

  module _ (apart : IsApart s) (separate : IsSeparate s) (address : ℕ → ℕ) (some_bytes : 0 < b)
      (granted : (n : ℕ) → sys.alloc n ≡ some (address n)) (aligns : Aligns sys b) where
    -- one file: what is printed for it, after which the rings are empty again
    read_files-Idle :
        (i : ℕ) (name : List ℕ) (names : List (List ℕ)) (w : World) (output : List ℕ)
        → Idle s k start i w
        → IsReadable sys bytes name
        → (w' : World) × (read_files 2 b sys enter serve loads i (name ∷ names) s w output
            ≡ read_files 2 b sys enter serve loads
                (i + 1)
                names
                s
                w'
                (output ++ bytes (sys.open_fd name)))
          × Idle s k start (i + 1) w'
    read_files-Idle i name names w output d f =
        let fd = sys.open_fd name in
        let n = length (bytes fd) in
        let sub =
          submit_to_sq-Submits b sys enter w s name n address some_bytes f.small f.opened f.sized
            granted aligns in
        let w1 = (enter (with_request s w fd n sub.fi sub.vs) s.ring_fd 1 0 enter_sq_wakeup).1 in
        let served =
          submitted-Served s k start apart separate enter serve loads bytes kernel i w d fd sub.fi
            sub.vs sub.sizes sub.covered in
        let (w', run, idle) =
          read_from_cq-Idle s k start apart separate b i sub.fi sub.vs (bytes fd) (serve i w1)
            (loads i) served sub.count (kernel.tails i) in
        (
          w',
          read_files_step i name (bytes fd) names w w1 w' output
              (sub.result ∙ ap done (accepted w fd n sub.fi sub.vs sub.few)) run,
          idle,
        )

    read_files-contents :
        (i : ℕ) (names : List (List ℕ)) (w : World) (output : List ℕ)
        → Idle s k start i w
        → All (IsReadable sys bytes) names
        → read_files 2 b sys enter serve loads i names s w output
          ≡ done (0, output ++ contents sys bytes names)
    unfolding read_files
    read_files-contents i [] w output d fs = rw (append-nil output) refl
    read_files-contents i (name ∷ names) w output d fs =
        let (w', run, idle) = read_files-Idle i name names w output d fs.0 in
        run
        ∙ read_files-contents (i + 1) names w' (output ++ bytes (sys.open_fd name)) idle fs.1
        ∙ ap (λ out. done (0, out))
            (append_assoc output (bytes (sys.open_fd name)) (contents sys bytes names))

    -- For the command 2 and one name or more, all memory granted, blocks of a size that is not 0, a ring set
    -- up with its queues empty and its words apart, files below 2 GiB that can be opened, and a kernel that
    -- serves a single readv on the submission ring while the program sleeps (Kernel): main returns 0 with
    -- two rounds of read_from_cq's loop for each file, and what it prints is the content of the files, in the
    -- order of the names, byte for byte.
    pub main-contents :
        (iov : ℕ) (name : List ℕ) (names : List (List ℕ)) (w : World)
        → app_setup_uring sys ≡ some s
        → Idle s k start 0 w
        → All (IsReadable sys bytes) (name ∷ names)
        → main 2 b sys enter serve loads iov (pos 2) (name ∷ names) w
          ≡ done (0, contents sys bytes (name ∷ names))
    unfolding main run_command
    main-contents iov name names w set_up d fs =
        rw (main, granted sizeof_submitter, set_up) (read_files-contents 0 (name ∷ names) w [] d fs)
