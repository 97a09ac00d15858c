-- ===== src/Reader/Cat/Program.antt =====
-- main of example/io_uring_read.c: what it writes for several files.
use io_uring_example.Base.{
  ℕ, ◌+◌, ◌≤◌, ◌<◌, ◌^◌, ◌≡◌, ◌↔◌, sym, ap, ◌∙◌, inl, inr, Option-cases, some, Bool-cases, List, [],
  ◌∷◌, ◌++◌, append_assoc, append-nil, length, flatten, ◌%◌, Run, done, ◌>>=◌, arith, pos, is_neg,
}
use io_uring_example.Kernel.{Sys}
use io_uring_example.Reader.{Submitter, MyFile, World}
use io_uring_example.Reader.Setup.{get_file_size, app_setup_uring}
use io_uring_example.Reader.Open.{Enter, my_fopen, open_blocks, count_blocks, sizeof_submitter}
use io_uring_example.Reader.Open.Fill.{Aligns}
use io_uring_example.Reader.Open.Opened.{my_fopen_accepts}
use io_uring_example.Reader.Cat.{
  Sitting, Printed, cat_loop, cat, cat_files, main, sizeof_pointer, buffer_bytes,
}
use io_uring_example.Reader.Cat.Whole.{IsRead, IsPadded, cat-IsPadded}

-- "r"
abbrev pub read_mode : List ℕ
read_mode = 0x72 ∷ []

module _ (b polls fuel : ℕ) (sys : Sys) (enter : Enter) where
  -- One file of the command line: my_fopen opens it, its size is that of the content, and the kernel
  -- has read it completely when the first my_fread is called.
  pub record IsFile (now : Sitting) (name content : List ℕ) : Type 0 where
    pub mf : MyFile
    pub world : World
    pub opened : my_fopen b sys enter now.world name read_mode ≡ done (some (mf, world))
    pub sized :
        (fp : ℕ) → sys.fopen name read_mode ≡ some fp → get_file_size sys fp ≡ pos (length content)
    pub small : length content < 2 ^ 31
    pub read : IsRead b (length content) mf.fi content polls (now.loads 0) (now.serve world) mf
    pub room : sizeof_pointer ≤ length now.buffer
    pub fuelled : length content + b < fuel

  -- the files of the command line, from the k-th on
  abbrev pub AreFiles : (ℕ → Sitting) → ℕ → List (List ℕ) → List (List ℕ) → Type 0
  AreFiles sittings k [] [] = Unit
  AreFiles sittings k (name ∷ names) (content ∷ contents) =
      IsFile (sittings k) name content × AreFiles sittings (k + 1) names contents
  AreFiles sittings k _ _ = ⊥

  -- each output is its content, padded to whole blocks
  abbrev pub ArePadded : List (List ℕ) → List (List ℕ) → Type 0
  ArePadded [] [] = Unit
  ArePadded (content ∷ contents) (output ∷ outputs) =
      IsPadded b content output
      × ((output ≡ content) ↔ (length content % b ≡ 0))
      × ArePadded contents outputs
  ArePadded _ _ = ⊥

  -- A file was opened: so were the ring and the stream.
  opened_blocks :
      (a : ℕ) (w : World) (name content : List ℕ) (mf : MyFile) (w1 : World)
      → sys.alloc sizeof_submitter ≡ some a
      → ((fp : ℕ)
          → sys.fopen name read_mode ≡ some fp
          → get_file_size sys fp ≡ pos (length content))
      → my_fopen b sys enter w name read_mode ≡ done (some (mf, w1))
      → (s : Submitter) × (fp : ℕ) × (open_blocks b sys enter w s fp
            (sys.fileno fp)
            (length content)
            (count_blocks b (length content))
          ≡ done (some (mf, w1)))
  unfolding my_fopen
  opened_blocks a w name content mf w1 granted sized run =
      elim (Option-cases (app_setup_uring sys)) [
        | inl refused ↦ absurd (ground (arith, granted, refused, run))
        | inr (s, ring) ↦ elim (Option-cases (sys.fopen name read_mode)) [
          | inl missing ↦ absurd (ground (arith, granted, ring, missing, run))
          | inr (fp, stream) ↦ elim (Bool-cases (is_neg (sys.fileno fp))) [
            | inl bad ↦ absurd (ground (arith, granted, ring, stream, bad, run))
            | inr good ↦
                let size = sized fp stream in
                (
                  s,
                  fp,
                  sym (
                        my_fopen_accepts b sys enter w name read_mode a s fp (length content)
                          granted ring stream good size)
                      ∙ run,
                )
          ]
        ]
      ]

  cat_run :
      (now : Sitting) (name : List ℕ) (c : ℕ) (mf : MyFile) (w1 : World) (p : Printed)
      → my_fopen b sys enter now.world name read_mode ≡ done (some (mf, w1))
      → sys.alloc buffer_bytes ≡ some c
      → cat_loop fuel b sizeof_pointer polls 0 now.loads (now.serve w1) now.buffer mf [] ≡ done p
      → cat fuel b polls sys enter now.serve now.loads now.world now.buffer name read_mode
        ≡ done p.output
  unfolding cat
  cat_run now name c mf w1 p opened granted run = rw (opened, granted, run)

  module _ (address : ℕ → ℕ) (granted : (bytes : ℕ) → sys.alloc bytes ≡ some (address bytes))
      (aligns : Aligns sys b) (some_bytes : 0 < b) (small : b < 2 ^ 31) where
    cat-IsFile :
        (now : Sitting) (name content : List ℕ)
        → IsFile now name content
        → (output : List ℕ) × (cat fuel b polls sys enter now.serve now.loads now.world now.buffer
              name read_mode
            ≡ done output)
          × IsPadded b content output
          × ((output ≡ content) ↔ (length content % b ≡ 0))
    cat-IsFile now name content f =
        let (s, fp, made) =
          opened_blocks (address sizeof_submitter) now.world name content f.mf f.world
            (granted sizeof_submitter) f.sized f.opened in
        let (p, run, padded, exact) =
          cat-IsPadded b sys enter now.world s fp (sys.fileno fp) content address some_bytes small
            f.small granted aligns f.mf f.world made polls now.loads (now.serve f.world) now.buffer
            fuel f.read f.room f.fuelled in
        (
          p.output,
          cat_run now name (address buffer_bytes) f.mf f.world p f.opened (granted buffer_bytes)
              run,
          padded,
          exact,
        )

    cat_files_step :
        (sittings : ℕ → Sitting) (k : ℕ) (name output : List ℕ) (names : List (List ℕ))
        (before after : List ℕ)
        → cat fuel b polls sys enter
            (sittings k).serve
            (sittings k).loads
            (sittings k).world
            (sittings k).buffer
            name
            read_mode
          ≡ done output
        → cat_files fuel b polls sys enter sittings (k + 1) names (before ++ output) ≡ done after
        → cat_files fuel b polls sys enter sittings k (name ∷ names) before ≡ done after
    unfolding cat_files
    cat_files_step sittings k name output names before after now rest = rw now rest

    cat_files-ArePadded :
        (sittings : ℕ → Sitting) (k : ℕ) (names contents : List (List ℕ)) (before : List ℕ)
        → AreFiles sittings k names contents
        → (outputs : List (List ℕ)) × (cat_files fuel b polls sys enter sittings k names before
            ≡ done (before ++ flatten outputs))
          × ArePadded contents outputs
    unfolding cat_files
    cat_files-ArePadded sittings k [] [] before fs = ([], ap done (sym (append-nil before)), tt)
    cat_files-ArePadded sittings k (name ∷ names) [] before fs = absurd fs
    cat_files-ArePadded sittings k [] (content ∷ contents) before fs = absurd fs
    cat_files-ArePadded sittings k (name ∷ names) (content ∷ contents) before (f, fs) =
        let (output, now, padded, exact) = cat-IsFile (sittings k) name content f in
        let (outputs, rest, others) =
          cat_files-ArePadded sittings (k + 1) names contents (before ++ output) fs in
        (
          output ∷ outputs,
          cat_files_step sittings k name output names before _ now
              (rest ∙ ap done (append_assoc before output (flatten outputs))),
          (padded, exact, others),
        )

    -- For one name or more, blocks of 1 byte to below 2 GiB, all memory granted, and files (IsFile) below 2 GiB
    -- that my_fopen opens and the kernel has read completely when the first my_fread of each is called, with
    -- fuel for a round for each byte and one block more: main returns 0, and what it writes is, in the order of
    -- the names, the content of each file followed by fewer bytes than a block, up to a whole number of
    -- blocks; a file comes out as it is if and only if its size is a multiple of the block size.
    pub main-ArePadded :
        (sittings : ℕ → Sitting) (name : List ℕ) (names contents : List (List ℕ))
        → AreFiles sittings 0 (name ∷ names) contents
        → (outputs : List (List ℕ)) × (main fuel b polls sys enter sittings (name ∷ names)
            ≡ done (0, flatten outputs))
          × ArePadded contents outputs
    unfolding main
    main-ArePadded sittings name names contents fs =
        let (outputs, run, padded) = cat_files-ArePadded sittings 0 (name ∷ names) contents [] fs in
        (outputs, ap (λ (r : Run (List ℕ)). r >>= λ t. done (0, t)) run, padded)
