-- ===== src/Owners.antt =====
-- example/My_read.cpp: the reader with its objects owned by unique_ptr. get_file_size, app_setup_uring and the
-- body of my_fread are those of example/io_uring_read.c, used from Reader. An exception that nothing catches is
-- `fault`, as undefined behaviour is. The messages and the times are left out.
pub mod Moved
mod Tests
use io_uring_example.Base.{
  ℕ, zero, suc, ◌+◌, ◌-◌, ◌*◌, ◌/◌, ◌%◌, Bool, true, false, Option, none, some, List, [], ◌∷◌, ◌++◌,
  take, ltb, ◌==◌, if◌then◌else◌, Run, done, fault, ◌>>=◌, ◌>>◌, deref, ℤ, pos, negsuc, is_neg,
  to_int, to_unsigned,
}
use io_uring_example.Kernel.{Sys}
use io_uring_example.Reader.{Submitter, Iovc, MyFile, World, update}
use io_uring_example.Reader.Setup.{get_file_size, app_setup_uring}
use io_uring_example.Reader.Open.{
  Enter, bytes_to_read, sizeof_submitter, sizeof_my_file, submit_readv, wake_kernel, new_file,
}
use io_uring_example.Reader.Read
use io_uring_example.Reader.Read.{Fread}
use io_uring_example.Reader.Cat.{Printed, cat_loop}

-- std::move of a unique_ptr: the pointer for the new owner, and what is left in the old one
abbrev pub move {ℓ} : {A : Type ℓ} → Option A → Option A × Option A
move p = (p, none)

-- int blocks = file_sz / BLOCK_SZ + (file_sz % BLOCK_SZ ? 1 : 0);
abbrev pub int_blocks : ℕ → ℕ → ℤ
int_blocks block_sz file_sz =
    to_int (if file_sz % block_sz == 0 then file_sz / block_sz else file_sz / block_sz + 1)

abbrev pub cons_block : Option Iovc → Option (List (Option Iovc)) → Option (List (Option Iovc))
cons_block iov none = none
cons_block iov (some iovecs) = some (iov ∷ iovecs)

-- for (int i = 0; i < blocks; ++i) { … }, with the entries from `i` on; a block has the size of its part of the
-- file. `none` is the return after a posix_memalign that failed.
unfoldable pub make_blocks : Sys → ℕ → ℕ → ℕ → ℕ → Option (List (Option Iovc))
make_blocks sys block_sz zero i remaining = some []
make_blocks sys block_sz (suc blocks) i remaining = elim (sys.memalign i) [
  | none ↦ none
  | some buf ↦
      let n = bytes_to_read block_sz remaining in
      cons_block (some (record { buffer = take n buf; buffer_size = n }))
        (make_blocks sys block_sz blocks (i + 1) (remaining - n))
]

-- from "Add our submission queue entry" on: `s` is the local pointer and `ring` what mf->s points to
unfoldable pub submit_owned :
    Enter
    → World
    → Option Submitter
    → Option Submitter
    → ℕ
    → ℤ
    → ℤ
    → ℕ
    → Run (Option (MyFile × World))
submit_owned enter w s ring fp fd blocks fi = do
  owned ← deref s
  kept ← deref ring
  done (elim (wake_kernel enter (submit_readv w owned fd fi (to_unsigned blocks) fi) kept) [
    | none ↦ none
    | some w' ↦ some (new_file fp kept fi blocks, w')
  ])

-- from `std::make_unique<file_info>()` on; a negative size is refused by resize with an exception
unfoldable pub open_blocks :
    ℕ → Sys → Enter → World → Submitter → ℕ → ℤ → ℕ → ℤ → Run (Option (MyFile × World))
open_blocks block_sz sys enter w s fp fd file_sz (negsuc n) = fault
open_blocks block_sz sys enter w s fp fd file_sz (pos blocks) =
    elim (make_blocks sys block_sz blocks 0 file_sz) [
      | none ↦ done none
      | some iovecs ↦ deref (sys.alloc sizeof_my_file) >>= λ fi.
          let (ring, s') = move (some s) in
          submit_owned enter
            (record w {
              file_info =
                  update w.file_info fi (some (record { file_sz = file_sz; iovecs = iovecs }));
            })
            s' ring fp fd (pos blocks) fi
    ]

-- my_fopen(filename, mode); `none` is nullptr.
unfoldable pub my_fopen : ℕ → Sys → Enter → World → List ℕ → List ℕ → Run (Option (MyFile × World))
my_fopen block_sz sys enter w filename mode = deref (sys.alloc sizeof_submitter) >>= λ _.
    elim (app_setup_uring sys) [
      | none ↦ done none
      | some s ↦ elim (sys.fopen filename mode) [
        | none ↦ done none
        | some fp ↦ if is_neg (sys.fileno fp) then done none else elim (get_file_size sys fp) [
          | negsuc n ↦ done none
          | pos file_sz ↦
              open_blocks block_sz sys enter w s fp (sys.fileno fp) file_sz
                (int_blocks block_sz file_sz)
        ]
      ]
    ]

-- my_fread(ptr, size, count, mf): `mf` is a plain pointer
unfoldable pub my_fread : ℕ → ℕ → (ℕ → ℕ) → World → List ℕ → ℕ → ℕ → Option MyFile → Run Fread
my_fread block_sz polls loads w ptr size count mf =
    deref mf >>= λ f. Read.my_fread block_sz polls loads w ptr size count f

-- The end of a file's owner: `fi_read` was made an owner of the file_info of the completion by reset, and to
-- delete an object twice is undefined.
abbrev pub destroy : MyFile → Run (Unit {0})
destroy mf = elim mf.fi_read [
  | none ↦ done tt
  | some fi_read ↦ if fi_read == mf.fi then fault else done tt
]

-- sizeof(buffer)
abbrev pub buffer_bytes : ℕ
buffer_bytes = 1024

-- cat(filename): the loop reads and writes nothing. A null pointer is only reported.
unfoldable pub cat :
    ℕ → ℕ → ℕ → Sys → Enter → (World → World) → (ℕ → ℕ → ℕ) → World → List ℕ → List ℕ → Run World
cat fuel block_sz polls sys enter serve loads w buffer filename =
    my_fopen block_sz sys enter w filename (0x72 ∷ []) >>= elim [
      | none ↦ my_fread block_sz polls (loads 0) w buffer 1 buffer_bytes none >>= λ r. done r.world
      | some (mf, w') ↦
          cat_loop fuel block_sz buffer_bytes polls 0 loads (serve w') buffer mf [] >>= λ p.
          destroy p.mf >> done p.world
    ]

unfoldable pub cat_files :
    ℕ
    → ℕ
    → ℕ
    → Sys
    → Enter
    → (World → World)
    → (ℕ → ℕ → ℕ → ℕ)
    → ℕ
    → World
    → List ℕ
    → List (List ℕ)
    → Run World
cat_files fuel block_sz polls sys enter serve loads i w buffer [] = done w
cat_files fuel block_sz polls sys enter serve loads i w buffer (name ∷ names) =
    cat fuel block_sz polls sys enter serve (loads i) w buffer name >>= λ w'.
    cat_files fuel block_sz polls sys enter serve loads (i + 1) w' buffer names

-- main: the exit status
unfoldable pub main :
    ℕ
    → ℕ
    → ℕ
    → Sys
    → Enter
    → (World → World)
    → (ℕ → ℕ → ℕ → ℕ)
    → World
    → List ℕ
    → List (List ℕ)
    → Run ℕ
main fuel block_sz polls sys enter serve loads w buffer [] = done 1
main fuel block_sz polls sys enter serve loads w buffer (name ∷ names) =
    cat_files fuel block_sz polls sys enter serve loads 0 w buffer (name ∷ names) >>= λ w'. done 0
