-- ===== src/Library/Close.antt =====
-- host.cpp, update_file_size and my_fclose.
pub mod Releases
use io_uring_example.Base.{
  ℕ, same_ℤ, Option, none, some, List, Run, done, fault, ◌>>=◌, deref, ℤ, pos, negsuc, is_neg,
  is_minus_one, if◌then◌else◌, to_size,
}
use io_uring_example.Reader.{FileInfo, World, update}
use io_uring_example.Library.{Pointer, MyFile, Host, State, release, close_fd}

-- the two moves of the file's position, and the store of the size between them
unfoldable pub update_file_size : Host → State → Option (Pointer MyFile) → Run State
update_file_size h st none = done st
update_file_size h st (some mf) =
    if is_neg mf.target.fd then done st else elim (h.lseek_end mf.target.fd) [
      | negsuc n ↦ done st
      | pos file_size ↦ deref mf.target.fi >>= λ a. deref (st.world.file_info a) >>= λ fi.
          done (record st {
            world = record (st.world) {
              file_info = update st.world.file_info a (some (record fi { file_sz = file_size }));
            };
            position = λ fd. if same_ℤ fd mf.target.fd then 0 else st.position fd;
          })
    ]

-- omp_free of a pointer that may be NULL
abbrev pub free_if : Option ℕ → State → Run State
free_if none st = done st
free_if (some a) st = release a st

abbrev pub address_of {ℓ} : {A : Type ℓ} → Option (Pointer A) → Option ℕ
address_of none = none
address_of (some p) = some p.address

unfoldable pub my_fclose : State → Option (Pointer MyFile) → Run State
my_fclose st none = done st
my_fclose st (some mf) = do
  let st1 : State = if is_neg mf.target.fd then st else close_fd mf.target.fd st
  st2 ← free_if mf.target.fi st1
  st3 ← free_if (address_of mf.target.s) st2
  release mf.address st3
