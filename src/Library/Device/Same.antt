-- ===== src/Library/Device/Same.antt =====
-- my_fread of device.cpp against my_fread of example/io_uring_read.c.
use io_uring_example.Base.{
  ℕ, zero, suc, ◌+◌, ◌*◌, ◌≡◌, refl, sym, ap, ◌∙◌, inl, inr, true, false, not, ◌&&◌, some, List,
  leb, ◌==◌, if◌then◌else◌, Bool-cases, Run, done, ◌>>=◌, map_run, map_run-bind, bind_ext, arith,
  to_unsigned, u64,
}
use io_uring_example.Reader.{Submitter, World}
use io_uring_example.Reader
use io_uring_example.Reader.Read.{Cursor, go, break, wait_tail}
use io_uring_example.Reader.Read
use io_uring_example.Library.{Pointer, MyFile}
use io_uring_example.Library.Device.{Fread, pass, read_loop, start, finish, my_fread}

-- An open file as the reader has it; my_fread looks at neither `fp` nor `fi`.
abbrev pub view : Submitter → MyFile → Reader.MyFile
view s mf = record {
  fp = 0;
  blocks = mf.blocks;
  current_block = mf.current_block;
  isfirst = mf.isfirst;
  current_offset = mf.current_offset;
  s = s;
  fi_read = mf.fi_read;
  fi = 0;
}

abbrev pub view_fread : Submitter → Fread → Read.Fread
view_fread s r = record {
  bytes_read = r.bytes_read;
  ptr = r.ptr;
  mf = view s r.mf;
  world = r.world;
}

-- the reader's wait, where it makes one: the number of loads that it took
abbrev pub wait : ℕ → (ℕ → ℕ) → World → Submitter → MyFile → Run ℕ
wait polls loads w s mf =
    if not (leb (to_unsigned mf.blocks) mf.current_block) && (mf.isfirst == 0)
    then wait_tail polls loads (w.word s.cq_ring.head) 0
    else done 0

pass_same :
    (b : ℕ) (w : World) (s : Submitter) (mf : MyFile) (total tail : ℕ) (c : Cursor)
    → Read.pass b w (view s mf) total tail c ≡ pass b w s mf.blocks total tail c
unfolding pass Read.pass
pass_same b w s mf total tail c = refl

-- The loops make the same rounds; the reader's has made `k` loads before.
read_loop_same :
    (fuel b : ℕ) (w : World) (s : Submitter) (mf : MyFile) (total : ℕ) (loads : ℕ → ℕ) (k j i : ℕ)
    (c : Cursor)
    → i ≡ k + j
    → Read.read_loop fuel b w (view s mf) total loads i c
      ≡ read_loop fuel b w s mf.blocks total (λ n. loads (k + n)) j c
unfolding read_loop Read.read_loop
read_loop_same zero b w s mf total loads k j i c e = refl
read_loop_same (suc fuel) b w s mf total loads k j i c e =
    rw (pass_same b w s mf total (loads i) c, e)
      (bind_ext (pass b w s mf.blocks total (loads (k + j)) c) _ _ elim [
        | break d ↦ refl
        | go d ↦ read_loop_same fuel b w s mf total loads k (suc j) (i + 1) d (omega arith)
      ])

read_loop_same-bind :
    (b : ℕ) (w : World) (s : Submitter) (mf : MyFile) (total : ℕ) (loads : ℕ → ℕ) (k : ℕ)
    (c : Cursor)
    → (Read.read_loop (suc total) b w (view s mf) total loads k c >>= λ d.
        done (Read.finish w (view s mf) d))
      ≡ map_run (view_fread s) (
          read_loop (suc total) b w s mf.blocks total (λ n. loads (k + n)) 0 c >>= λ d.
          done (finish w s mf d))
unfolding Read.finish
read_loop_same-bind b w s mf total loads k c =
    rw (read_loop_same (suc total) b w s mf total loads k 0 k c (omega arith))
      (sym (map_run-bind (view_fread s) (finish w s mf) _))

-- the device's call inside the file
my_fread_inside :
    (b : ℕ) (loads : ℕ → ℕ) (w : World) (ptr : List ℕ) (size count : ℕ) (mf : MyFile)
    (p : Pointer Submitter)
    → mf.s ≡ some p
    → leb (to_unsigned mf.blocks) mf.current_block ≡ false
    → my_fread b loads w ptr size count mf ≡ (
        read_loop
          (suc (u64 (size * count)))
          b
          w
          p.target
          mf.blocks
          (u64 (size * count))
          loads
          0
          (start w p.target mf ptr)
        >>= λ c. done (finish w p.target mf c))
unfolding my_fread
my_fread_inside b loads w ptr size count mf p e inside = simp (e, inside)

my_fread_outside :
    (b : ℕ) (loads : ℕ → ℕ) (w : World) (ptr : List ℕ) (size count : ℕ) (mf : MyFile)
    (p : Pointer Submitter)
    → mf.s ≡ some p
    → leb (to_unsigned mf.blocks) mf.current_block ≡ true
    → my_fread b loads w ptr size count mf
      ≡ done (record { bytes_read = 0; ptr = ptr; mf = mf; world = w })
unfolding my_fread
my_fread_outside b loads w ptr size count mf p e out = simp (e, out)

-- my_fread of the program is a wait, at the first visit of a file that is not at its end, followed by
-- my_fread of the device with the loads that come after it: on every file with a submitter, with the same
-- result, stores and undefined behaviour.
pub my_fread-wait :
    (b polls : ℕ) (loads : ℕ → ℕ) (w : World) (ptr : List ℕ) (size count : ℕ) (mf : MyFile)
    (p : Pointer Submitter)
    → mf.s ≡ some p
    → Read.my_fread b polls loads w ptr size count (view p.target mf) ≡ (
        wait polls loads w p.target mf >>= λ k.
        map_run (view_fread p.target) (my_fread b (λ n. loads (k + n)) w ptr size count mf))
unfolding Read.my_fread Read.start Read.finish
my_fread-wait b polls loads w ptr size count mf p e =
    let total = u64 (size * count) in
    let s = p.target in
    elim (Bool-cases (leb (to_unsigned mf.blocks) mf.current_block)) [
      | inl out ↦
          rw (
            out,
            my_fread_outside b (λ n. loads (0 + n)) w ptr size count mf p e out,
            Read.my_fread,
          )
      | inr inside ↦
          rw (inside, Read.my_fread)
            (bind_ext
              (if mf.isfirst == 0 then wait_tail polls loads (w.word s.cq_ring.head) 0 else done 0)
              _ _
              λ k.
                read_loop_same-bind b w s mf total loads k (start w s mf ptr)
                ∙ ap (map_run (view_fread s))
                    (sym (my_fread_inside b (λ n. loads (k + n)) w ptr size count mf p e inside)))
    ]
