-- ===== src/Buffered/Main.antt =====
-- main of example/io_uring_polling.c, with what it prints.
use io_uring_example.Base.{
  ℕ, zero, suc, ◌≡◌, refl, ap, true, false, Option, none, some, List, [], ◌∷◌, ◌++◌, take, ltb,
  ◌==◌, if◌then◌else◌, Run, done, fault, ◌>>=◌, ◌>>◌, assert, arith,
}
use io_uring_example.Buffered.{Stdio, MyFile, Fread, buffer_size, my_fopen, my_fread, my_fclose}
use io_uring_example.Buffered.Later.{Streams}
use io_uring_example.Buffered.Twice.{ReadsFirst, first_run}

-- what printf("%s") prints of a char array: the bytes before the first 0
unfoldable pub until_zero : List ℕ → List ℕ
until_zero [] = []
until_zero (x ∷ xs) = if x == 0 then [] else x ∷ until_zero xs

module _ {M : Type 0} (stdio : Stdio M) where
  -- the loop of main with 10 - times rounds left; `buffer` has 1024 bytes, and buffer[n] is one of them
  unfoldable pub print_rounds : ℕ → ℕ → MyFile → M → List ℕ → Run (List ℕ × MyFile × M)
  print_rounds fuel zero mf m output = done (output, mf, m)
  print_rounds fuel (suc left) mf m output =
      my_fread stdio fuel buffer_size 1 buffer_size mf m >>= λ r. elim (ltb 0 r.result) [
        | false ↦ done (output, r.mf, r.machine)
        | true ↦
            assert (ltb r.result buffer_size)
            >> print_rounds fuel left r.mf r.machine (output ++ until_zero (take r.result r.stored))
      ]

  -- main, with the name and the mode that it passes: the exit status, what is printed, the machine
  unfoldable pub main : ℕ → List ℕ → List ℕ → M → Run (ℕ × List ℕ × M)
  main fuel filename mode m =
      let (file, m1) = my_fopen stdio filename mode m in
      elim file [
        | none ↦ done (1, [], m1)
        | some (address, mf) ↦
            print_rounds fuel 10 mf m1 [] >>= λ p. done (0, p.0, my_fclose stdio address p.1 p.2)
      ]

module _ {M : Type 0} (stdio : Stdio M) (content : List ℕ) (mf : MyFile)
    (streams : Streams stdio content mf.stream) where
  full_round :
      (left : ℕ) (m : M) (r : Fread M)
      → my_fread stdio 2 buffer_size 1 buffer_size mf m ≡ done r
      → r.result ≡ buffer_size
      → print_rounds stdio 2 (suc left) mf m [] ≡ fault
  unfolding print_rounds
  full_round left m r run full = rw (run, full)

  -- Where the first readv of the file that my_fopen opens serves 1024 bytes, main writes
  -- buffer[1024] = '\0' behind the array.
  pub main-fault :
      (filename mode : List ℕ) (m m1 : M) (address : ℕ)
      → my_fopen stdio filename mode m ≡ (some (address, mf), m1)
      → ReadsFirst stdio content mf streams m1
      → (mf.async_initiated == 0) ≡ true
      → main stdio 2 filename mode m ≡ fault
  unfolding main
  main-fault filename mode m m1 address open_run r first = rw (
    main,
    open_run,
    ap (λ (t : Option (ℕ × MyFile) × M). t.1) open_run,
    full_round 9 m1 _ (first_run stdio content mf streams buffer_size m1 r first (omega arith))
        refl,
  )
