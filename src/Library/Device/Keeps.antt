-- ===== src/Library/Device/Keeps.antt =====
-- my_fread of device.cpp, what a call leaves as it was.
use io_uring_example.Base.{
  ℕ, ◌*◌, ◌≡◌, refl, sym, suc, if◌then◌else◌, inl, inr, List, leb, Bool-cases, done, ◌>>=◌, deref,
  bind_done, done_inj, to_unsigned, u64,
}
use io_uring_example.Reader.{Submitter, World}
use io_uring_example.Reader.Read.{Cursor}
use io_uring_example.Library.{Pointer, MyFile}
use io_uring_example.Library.Device.{Fread, read_loop, start, finish, my_fread}

-- the same descriptor, rings and blocks
pub record IsSameFile (mf mf' : MyFile) : Type 0 where
  pub fd : mf'.fd ≡ mf.fd
  pub s : mf'.s ≡ mf.s
  pub fi : mf'.fi ≡ mf.fi

pub IsSameFile-refl : (mf : MyFile) → IsSameFile mf mf
IsSameFile-refl mf = record { fd = refl; s = refl; fi = refl }

my_fread_result :
    (b : ℕ) (loads : ℕ → ℕ) (w : World) (ptr : List ℕ) (size count : ℕ) (mf : MyFile) (r : Fread)
    (p : Pointer Submitter)
    → (if◌then◌else◌
        (leb (to_unsigned mf.blocks) mf.current_block)
        (done (record { bytes_read = 0; ptr = ptr; mf = mf; world = w }))
        (read_loop
            (suc (u64 (size * count)))
            b
            w
            p.target
            mf.blocks
            (u64 (size * count))
            loads
            0
            (start w p.target mf ptr)
          >>= λ c. done (finish w p.target mf c)))
      ≡ done r
    → IsSameFile mf r.mf
my_fread_result b loads w ptr size count mf r p e =
    elim (Bool-cases (leb (to_unsigned mf.blocks) mf.current_block)) [
      | inl out ↦ rw (sym (done_inj (rw out at e))) (IsSameFile-refl mf)
      | inr inside ↦
          let (c, run, same) =
            bind_done _ (λ (c : Cursor). done (finish w p.target mf c)) r (rw inside at e) in
          rw (sym (done_inj same)) (record { fd = refl; s = refl; fi = refl })
    ]

pub my_fread-IsSameFile :
    (b : ℕ) (loads : ℕ → ℕ) (w : World) (ptr : List ℕ) (size count : ℕ) (mf : MyFile) (r : Fread)
    → my_fread b loads w ptr size count mf ≡ done r
    → IsSameFile mf r.mf
unfolding my_fread
my_fread-IsSameFile b loads w ptr size count mf r e =
    let (p, owned, run) = bind_done (deref mf.s) _ r e in
    my_fread_result b loads w ptr size count mf r p run
