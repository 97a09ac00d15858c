-- ===== src/Reader/Read/Call.antt =====
-- my_fread as a whole: what a call returns, on every branch.
use io_uring_example.Base.{
  ℕ, suc, ◌+◌, ◌*◌, ◌≤◌, ◌<◌, ◌^◌, ◌≡◌, refl, ap, ◌∙◌, inl, inr, true, false, some, List, arith,
  length, done, Bool-cases, ltb, leb, to_unsigned, to_unsigned_small, is_neg, lt→leb_false, ltb→lt,
  ltb_false→le, u64, ◌==◌,
}
use io_uring_example.Reader.{Iovc, MyFile, World}
use io_uring_example.Reader.Spec.{Holds}
use io_uring_example.Reader.Read.{Cursor, read_loop, wait_tail, start, finish, my_fread, Fread}
use io_uring_example.Reader.Read.First.{
  next_cqe, IsServed, visit, wait_tail_lem, take_completion_first, read_loop_first,
}
use io_uring_example.Reader.Read.Delivery.{
  IsPlaced, IsReady, Delivered, given, my_fread_end, at_end-Delivered, loop-Delivered, start-entry,
  visit-entry,
}

module _ (b : ℕ) (vs : List Iovc) (addr : ℕ) where
  pub inside_test :
      (w : World) (mf : MyFile)
      → IsPlaced b vs w mf
      → length vs < 2 ^ 31
      → mf.current_block < length vs
      → leb (to_unsigned mf.blocks) mf.current_block ≡ false
  inside_test w mf p few i =
      lt→leb_false _ _ (omega (arith, ap to_unsigned p.blocks, to_unsigned_small (length vs) few))

  -- the call up to its loop, at a first visit
  pub my_fread_first :
      (polls : ℕ) (loads : ℕ → ℕ) (w : World) (ptr : List ℕ) (size count : ℕ) (mf : MyFile) (k : ℕ)
      (d : Cursor)
      → leb (to_unsigned mf.blocks) mf.current_block ≡ false
      → (mf.isfirst == 0) ≡ true
      → wait_tail polls loads (start w mf ptr).head 0 ≡ done k
      → read_loop (suc (u64 (size * count))) b w mf (u64 (size * count)) loads k (start w mf ptr)
        ≡ done d
      → my_fread b polls loads w ptr size count mf ≡ done (finish w mf d)
  unfolding my_fread
  my_fread_first polls loads w ptr size count mf k d i z waited run = rw (i, z, waited, run)

  -- the call up to its loop, later
  my_fread_later :
      (polls : ℕ) (loads : ℕ → ℕ) (w : World) (ptr : List ℕ) (size count : ℕ) (mf : MyFile)
      (d : Cursor)
      → leb (to_unsigned mf.blocks) mf.current_block ≡ false
      → (mf.isfirst == 0) ≡ false
      → read_loop (suc (u64 (size * count))) b w mf (u64 (size * count)) loads 0 (start w mf ptr)
        ≡ done d
      → my_fread b polls loads w ptr size count mf ≡ done (finish w mf d)
  unfolding my_fread
  my_fread_later polls loads w ptr size count mf d i z run = rw (i, z, run)

  -- what my_fread-Delivered states, for one call
  abbrev Gives : ℕ → (ℕ → ℕ) → World → List ℕ → ℕ → ℕ → MyFile → Type 0
  Gives polls loads w ptr size count mf =
      (r : Fread) × (my_fread b polls loads w ptr size count mf ≡ done r)
      × Delivered b vs addr w mf ptr (given b vs addr mf (u64 (size * count))) r

  later-Gives :
      (polls : ℕ) (loads : ℕ → ℕ) (w : World) (ptr : List ℕ) (size count : ℕ) (mf : MyFile)
      → Holds b vs addr w
      → IsPlaced b vs w mf
      → mf.current_block < length vs
      → (mf.isfirst ≡ 1) × (mf.fi_read ≡ some addr)
      → u64 (size * count) ≤ length ptr
      → Gives polls loads w ptr size count mf
  later-Gives polls loads w ptr size count mf h p i (v, s) room =
      let (d, run, del) =
        loop-Delivered b vs addr w mf ptr (u64 (size * count)) loads 0 h p i (omega arith) room in
      (
        finish w mf d,
        my_fread_later polls loads w ptr size count mf d (inside_test w mf p h.few i) (ground arith)
            (rw (start-entry b vs addr w mf ptr v s) run),
        del,
      )

  first-Gives :
      (polls : ℕ) (loads : ℕ → ℕ) (w : World) (ptr : List ℕ) (size count : ℕ) (mf : MyFile)
      → Holds b vs addr w
      → IsPlaced b vs w mf
      → mf.current_block < length vs
      → mf.isfirst ≡ 0
      → IsServed addr polls loads w mf
      → is_neg (next_cqe w mf).res ≡ false
      → u64 (size * count) ≤ length ptr
      → Gives polls loads w ptr size count mf
  unfolding start
  first-Gives polls loads w ptr size count mf h p i z s good room =
      let total = u64 (size * count) in
      let (j, waited, j_arrived) =
        wait_tail_lem polls loads (w.word mf.s.cq_ring.head) 0 s.arrival (omega arith)
          (omega (arith, s.in_time)) s.arrived in
      let (d, run, del) =
        loop-Delivered b vs addr w mf ptr total loads (j + 1) h p i (omega arith) room in
      let first =
        take_completion_first w mf (loads (j + 1)) (start w mf ptr) z refl (s.stays j j_arrived)
          good in
      (
        finish w mf d,
        my_fread_first polls loads w ptr size count mf (j + 1) d (inside_test w mf p h.few i)
            (ground arith) waited
            (read_loop_first total b w mf total loads (j + 1) (start w mf ptr)
                (visit w mf (start w mf ptr)) first refl
              ∙ rw (visit-entry b vs addr w mf ptr s.owner) run),
        del,
      )

  -- On a file that holds the blocks `vs`, at a place between two of their bytes, and with no
  -- completion to wait for or a successful one that comes within `polls` loads, a call returns. It
  -- gives as many of the unread bytes as `size * count` (mod 2 ^ 64) asks for, writes exactly those at
  -- the start of the caller's buffer (which has room for what was asked), and leaves the file at
  -- the byte after them, with one completion marked as seen for each block it finished.
  pub my_fread-Delivered :
      (polls : ℕ) (loads : ℕ → ℕ) (w : World) (ptr : List ℕ) (size count : ℕ) (mf : MyFile)
      → Holds b vs addr w
      → IsPlaced b vs w mf
      → IsReady addr vs polls loads w mf
      → u64 (size * count) ≤ length ptr
      → (r : Fread) × (my_fread b polls loads w ptr size count mf ≡ done r)
        × Delivered b vs addr w mf ptr (given b vs addr mf (u64 (size * count))) r
  my_fread-Delivered polls loads w ptr size count mf h p ready room =
      elim (Bool-cases (ltb mf.current_block (length vs))) [
        | inl inside ↦
            let i = ltb→lt _ _ inside in
            elim ready [
              | inl (inl v) ↦ later-Gives polls loads w ptr size count mf h p i v room
              | inl (inr e) ↦ absurd (omega arith)
              | inr (z, s, good) ↦ first-Gives polls loads w ptr size count mf h p i z s good room
            ]
        | inr outside ↦
            let e = ltb_false→le _ _ outside in
            (
              record { bytes_read = 0; ptr = ptr; mf = mf; world = w },
              my_fread_end b vs addr polls loads w ptr size count mf p h.few e,
              at_end-Delivered b vs addr w mf ptr (u64 (size * count)) p e,
            )
      ]
