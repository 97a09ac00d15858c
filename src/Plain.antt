-- ===== src/Plain.antt =====
-- example/fread.c: a file over open(2), read(2) and close(2). The time measurements and the messages are
-- left out, and so is get_file_size, whose result only stands in a message.
pub mod Output
pub mod Held
mod Tests
use io_uring_example.Base.{
  ℕ, zero, suc, ◌+◌, ◌*◌, ◌/◌, Bool, true, false, not, Option, none, some, List, [], ◌∷◌, ◌++◌,
  take, ltb, ◌==◌, if◌then◌else◌, Run, done, fault, hang, ◌>>=◌, ◌>>◌, assert, u64, to_size,
  is_minus_one, ℤ, pos, negsuc,
}
use io_uring_example.Posix.{Posix}

-- MY_FILE
pub record MyFile : Type 0 where
  pub fd : ℤ
  pub pos : ℕ

abbrev pub sizeof_my_file : ℕ
sizeof_my_file = 16

-- char buffer[1024]
abbrev pub buffer_bytes : ℕ
buffer_bytes = 1024

-- what a call of my_fread leaves behind: its result, the bytes stored from `ptr` on, the stream
pub record Fread (M : Type 0) : Type 0 where
  pub result : ℕ
  pub stored : List ℕ
  pub stream : MyFile
  pub machine : M

module _ {M : Type 0} (posix : Posix M) where
  -- my_fopen(filename, "r"): the address of the object and what it holds
  unfoldable pub my_fopen : List ℕ → M → Option (ℕ × MyFile) × M
  my_fopen filename m =
      let (allocated, m1) = posix.malloc sizeof_my_file m in
      let (fd, m2) = posix.open_file filename m1 in
      elim allocated [
        | none ↦ (none, m1)
        | some file ↦
            if is_minus_one fd
            then (none, posix.free file m2)
            else (some (file, record { fd = fd; pos = 0 }), m2)
      ]

  -- my_fread(ptr, size, count, stream) where neither pointer is NULL. A size of 0 divides by 0.
  unfoldable pub my_fread : ℕ → ℕ → MyFile → M → Run (Fread M)
  my_fread size count stream m =
      let (bytes_read, stored, m1) = posix.read stream.fd (u64 (size * count)) m in
      if is_minus_one bytes_read
      then done (record { result = 0; stored = stored; stream = stream; machine = m1 })
      else do
        assert (not (size == 0))
        done (record {
          result = to_size bytes_read / size;
          stored = stored;
          stream = record stream { pos = u64 (stream.pos + to_size bytes_read) };
          machine = m1;
        })

  -- my_fclose(stream)
  unfoldable pub my_fclose : ℕ → MyFile → M → M
  my_fclose file stream m = posix.free file (posix.close stream.fd m)

  -- while ((bytes_read = my_fread(buffer, 1, sizeof(buffer), file)) > 0) write(1, buffer, bytes_read);
  unfoldable pub cat_loop : ℕ → ℕ → MyFile → M → List ℕ → Run (List ℕ × MyFile × M)
  cat_loop zero bytes stream m output = hang
  cat_loop (suc fuel) bytes stream m output = my_fread 1 bytes stream m >>= λ r.
      let rest = cat_loop fuel bytes r.stream r.machine (output ++ take r.result r.stored) in
      if ltb 0 r.result then rest else done (output, r.stream, r.machine)

  -- my_cat(filename): what is written, and the machine after it
  unfoldable pub my_cat : ℕ → List ℕ → M → Run (List ℕ × M)
  my_cat fuel filename m =
      let (opened, m1) = my_fopen filename m in
      elim opened [
        | none ↦ done ([], m1)
        | some file ↦
            cat_loop fuel buffer_bytes file.1 m1 [] >>= λ p. done (p.0, my_fclose file.0 p.1 p.2)
      ]

  -- the loop of main over the names: what is written, and the machine after it
  unfoldable pub cat_files : ℕ → List (List ℕ) → M → List ℕ → Run (List ℕ × M)
  cat_files fuel [] m output = done (output, m)
  cat_files fuel (name ∷ names) m output =
      my_cat fuel name m >>= λ r. cat_files fuel names r.1 (output ++ r.0)

  -- main for the names argv[1], …: the exit status, what is written, and the machine after it
  unfoldable pub main : ℕ → List (List ℕ) → M → Run (ℕ × List ℕ × M)
  main fuel [] m = done (1, [], m)
  main fuel (name ∷ names) m = cat_files fuel (name ∷ names) m [] >>= λ r. done (0, r.0, r.1)
