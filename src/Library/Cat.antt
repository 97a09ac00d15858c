-- ===== src/Library/Cat.antt =====
-- main.cpp, cat and main: the client of the C++ library. What write(2) is handed is the output; the
-- lock, the times and the messages are left out.
pub mod Prints
pub mod Whole
use io_uring_example.Base.{
  ℕ, zero, suc, ◌+◌, List, [], ◌∷◌, ◌++◌, Option, none, some, take, ltb, if◌then◌else◌, Run, done,
  fault, hang, ◌>>=◌, deref, ℤ,
}
use io_uring_example.Reader.{World}
use io_uring_example.Reader.Cat.{sizeof_pointer}
use io_uring_example.Library.{Pointer, MyFile, Host, State}
use io_uring_example.Library.Open.{my_fopen}
use io_uring_example.Library.Device.{Fread, my_fread}
use io_uring_example.Library.Close.{my_fclose}

-- what the loop leaves behind
pub record Printed : Type 0 where
  pub output : List ℕ
  pub mf : MyFile
  pub world : World

-- while ((bytesRead = my_fread(buffer.get(), sizeof(char), sizeof(buffer), mf)) > 0) write(…); on fuel.
-- Call `n` loads the tail's values `loads n`.
unfoldable pub cat_loop :
    ℕ → ℕ → ℕ → ℕ → (ℕ → ℕ → ℕ) → World → List ℕ → MyFile → List ℕ → Run Printed
cat_loop zero block_sz bytes n loads w buffer mf output = hang
cat_loop (suc fuel) block_sz bytes n loads w buffer mf output =
    my_fread block_sz (loads n) w buffer 1 bytes mf >>= λ r.
    let rest =
      cat_loop fuel block_sz bytes (n + 1) loads r.world r.ptr r.mf
        (output ++ take r.bytes_read r.ptr) in
    if ltb 0 r.bytes_read
    then rest
    else done (record { output = output; mf = r.mf; world = r.world })

-- What a call of cat writes: the bytes, and the size that its last line gives.
pub record Report : Type 0 where
  pub output : List ℕ
  pub file_sz : ℕ

-- "r"
abbrev pub read_mode : List ℕ
read_mode = 0x72 ∷ []

-- the loop on an open file, the report and my_fclose
unfoldable pub cat_file :
    ℕ → ℕ → (ℕ → ℕ → ℕ) → State → List ℕ → Pointer MyFile → Run (Option Report × State)
cat_file fuel block_sz loads st buffer mf = do
  p ← cat_loop fuel block_sz sizeof_pointer 0 loads st.world buffer mf.target []
  a ← deref p.mf.fi
  fi ← deref (p.world.file_info a)
  st' ← my_fclose (record st { world = p.world }) (some (record mf { target = p.mf }))
  done (some (record { output = p.output; file_sz = fi.file_sz }), st')

-- cat(filename). `sizeof(buffer)` is the size of a unique_ptr, and `buffer` what its bytes hold.
unfoldable pub cat :
    ℕ → ℕ → ℕ → Host → (ℕ → ℕ → ℕ) → State → List ℕ → List ℕ → Run (Option Report × State)
cat fuel polls block_sz h loads st buffer filename =
    my_fopen polls block_sz h st filename read_mode >>= λ opened.
    let (file, st1) = opened in
    elim file [ none ↦ done (none, st1) | some mf ↦ cat_file fuel block_sz loads st1 buffer mf ]

-- for (int i = 1; i < argc; i++) cat(argv[i]); what the calls write and leave behind. The kernel's part
-- in call `i` is `hosts i` and `loads i`.
unfoldable pub cat_files :
    ℕ
    → ℕ
    → ℕ
    → (ℕ → Host)
    → (ℕ → ℕ → ℕ → ℕ)
    → ℕ
    → State
    → List ℕ
    → List (List ℕ)
    → Run (List (Option Report) × State)
cat_files fuel polls block_sz hosts loads i st buffer [] = done ([], st)
cat_files fuel polls block_sz hosts loads i st buffer (name ∷ names) =
    cat fuel polls block_sz (hosts i) (loads i) st buffer name >>= λ r.
    let (report, st1) = r in
    cat_files fuel polls block_sz hosts loads (i + 1) st1 buffer names >>= λ rs.
    let (reports, st2) = rs in done (report ∷ reports, st2)

-- main: the exit status, and what the calls wrote
unfoldable pub main :
    ℕ
    → ℕ
    → ℕ
    → (ℕ → Host)
    → (ℕ → ℕ → ℕ → ℕ)
    → State
    → List ℕ
    → List (List ℕ)
    → Run (ℕ × List (Option Report) × State)
main fuel polls block_sz hosts loads st buffer [] = done (1, [], st)
main fuel polls block_sz hosts loads st buffer (name ∷ names) =
    cat_files fuel polls block_sz hosts loads 0 st buffer (name ∷ names) >>= λ r.
    let (reports, st1) = r in done (0, reports, st1)
