-- ===== src/Reader/Cat.antt =====
-- example/io_uring_read.c, cat and main: the loop that writes a file to the standard output. What write(2) is
-- handed is the output; the timing and the messages are left out.
pub mod Output
pub mod Whole
pub mod Null
pub mod Program
mod Tests
use io_uring_example.Base.{
  ℕ, zero, suc, ◌+◌, List, [], ◌∷◌, ◌++◌, Option, none, some, take, ltb, if◌then◌else◌, Run, done,
  fault, hang, ◌>>=◌,
}
use io_uring_example.Kernel.{Sys}
use io_uring_example.Reader.{MyFile, World}
use io_uring_example.Reader.Open.{Enter, my_fopen}
use io_uring_example.Reader.Read.{Fread, my_fread}

-- sizeof(buffer) for `char *buffer`
abbrev pub sizeof_pointer : ℕ
sizeof_pointer = 8

-- what the loop leaves behind
pub record Printed : Type 0 where
  pub output : List ℕ
  pub mf : MyFile
  pub world : World

-- while ((bytesRead = my_fread(buffer, sizeof(char), bytes, mf)) > 0) write(1, buffer, bytesRead);
-- on fuel. Call `n` waits on the tail's values `loads n`.
unfoldable pub cat_loop :
    ℕ → ℕ → ℕ → ℕ → ℕ → (ℕ → ℕ → ℕ) → World → List ℕ → MyFile → List ℕ → Run Printed
cat_loop zero block_sz bytes polls n loads w buffer mf output = hang
cat_loop (suc fuel) block_sz bytes polls n loads w buffer mf output =
    my_fread block_sz polls (loads n) w buffer 1 bytes mf >>= λ r.
    let rest =
      cat_loop fuel block_sz bytes polls (n + 1) loads r.world r.ptr r.mf
        (output ++ take r.bytes_read r.ptr) in
    if ltb 0 r.bytes_read
    then rest
    else done (record { output = output; mf = r.mf; world = r.world })

-- char *buffer = (char *)omp_alloc(4096, …)
abbrev pub buffer_bytes : ℕ
buffer_bytes = 4096

-- cat(filename). The kernel works between my_fopen and the first my_fread (`serve`). `buffer` is what
-- the allocated bytes hold. A NULL file is only reported: my_fread then reads through it.
unfoldable pub cat :
    ℕ
    → ℕ
    → ℕ
    → Sys
    → Enter
    → (World → World)
    → (ℕ → ℕ → ℕ)
    → World
    → List ℕ
    → List ℕ
    → List ℕ
    → Run (List ℕ)
cat fuel block_sz polls sys enter serve loads w buffer filename mode =
    my_fopen block_sz sys enter w filename mode >>= λ opened. elim (sys.alloc buffer_bytes) [
      | none ↦ done []
      | some address ↦ elim opened [
        | none ↦ fault
        | some (mf, w') ↦
            cat_loop fuel block_sz sizeof_pointer polls 0 loads (serve w') buffer mf [] >>= λ p.
            done p.output
      ]
    ]

-- What a call of cat meets: the memory, the work of the kernel, the loads of the shared tail, and what
-- the allocated bytes hold.
pub record Sitting : Type 0 where
  pub world : World
  pub serve : World → World
  pub loads : ℕ → ℕ → ℕ
  pub buffer : List ℕ

-- the loop of main over the names, from the k-th on: what is written
unfoldable pub cat_files :
    ℕ → ℕ → ℕ → Sys → Enter → (ℕ → Sitting) → ℕ → List (List ℕ) → List ℕ → Run (List ℕ)
cat_files fuel block_sz polls sys enter sittings k [] output = done output
cat_files fuel block_sz polls sys enter sittings k (name ∷ names) output =
    let now = sittings k in
    cat fuel block_sz polls sys enter now.serve now.loads now.world now.buffer name (0x72 ∷ [])
    >>= λ written.
        cat_files fuel block_sz polls sys enter sittings (k + 1) names (output ++ written)

-- main for the names argv[1], …: the exit status and what is written; the times and the count of system
-- calls are left out
unfoldable pub main : ℕ → ℕ → ℕ → Sys → Enter → (ℕ → Sitting) → List (List ℕ) → Run (ℕ × List ℕ)
main fuel block_sz polls sys enter sittings [] = done (1, [])
main fuel block_sz polls sys enter sittings (name ∷ names) =
    cat_files fuel block_sz polls sys enter sittings 0 (name ∷ names) [] >>= λ output.
    done (0, output)
