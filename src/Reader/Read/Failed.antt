-- ===== src/Reader/Read/Failed.antt =====
-- my_fread of example/io_uring_read.c where the readv has failed, and where it never completes.
use io_uring_example.Base.{
  ℕ, suc, ◌+◌, ◌*◌, ◌≤◌, ◌<◌, ◌≡◌, ◌≢◌, refl, ap, ◌∙◌, inl, true, some, List, arith, length, done,
  hang, lt→leb_false, to_unsigned, is_neg, ◌==◌, u64,
}
use io_uring_example.Reader.{Iovc, MyFile, World}
use io_uring_example.Reader.Spec.{Holds}
use io_uring_example.Reader.Read.{
  Cursor, break, take_completion, pass, read_loop, start, finish, my_fread, Fread,
}
use io_uring_example.Reader.Read.First.{next_cqe, visit, IsServed, wait_tail_lem, wait_tail-hang}
use io_uring_example.Reader.Read.Delivery.{IsPlaced, IsSettled, given}
use io_uring_example.Reader.Read.Call.{inside_test, my_fread_first, my_fread-Delivered}

take_completion_failed :
    (w : World) (mf : MyFile) (tail : ℕ) (c : Cursor)
    → c.isfirst ≡ 0
    → c.head ≡ w.word mf.s.cq_ring.head
    → tail ≢ c.head
    → is_neg (next_cqe w mf).res ≡ true
    → take_completion w mf.s.cq_ring tail c ≡ break (visit w mf c)
unfolding take_completion
take_completion_failed w mf tail c f h t s = ground arith

read_loop_broken :
    (fuel b : ℕ) (w : World) (mf : MyFile) (total : ℕ) (loads : ℕ → ℕ) (k : ℕ) (c d : Cursor)
    → take_completion w mf.s.cq_ring (loads k) c ≡ break d
    → read_loop (suc fuel) b w mf total loads k c ≡ done d
unfolding read_loop pass
read_loop_broken fuel b w mf total loads k c d h = rw (h, pass, read_loop)

module _ (b : ℕ) (vs : List Iovc) (addr : ℕ) where
  -- what a failed call leaves behind: the file where it was, and marked as visited
  pub record Broken (w : World) (mf : MyFile) (ptr : List ℕ) (r : Fread) : Type 0 where
    pub nothing : r.bytes_read ≡ 0
    pub same_ptr : r.ptr ≡ ptr
    pub same_block : r.mf.current_block ≡ mf.current_block
    pub same_offset : r.mf.current_offset ≡ mf.current_offset
    pub visited : IsSettled addr vs r.mf
    pub placed : IsPlaced b vs r.world r.mf
    pub memory : r.world.file_info ≡ w.file_info

  abbrev Fails : ℕ → (ℕ → ℕ) → World → List ℕ → ℕ → ℕ → MyFile → Type 0
  Fails polls loads w ptr size count mf =
      (r : Fread) × (my_fread b polls loads w ptr size count mf ≡ done r) × Broken w mf ptr r

  -- A first call inside the file, whose completion comes within `polls` loads and carries an error:
  -- the call returns 0, leaves the buffer and the place in the file as they were, and marks the
  -- file as visited.
  pub my_fread-Broken :
      (polls : ℕ) (loads : ℕ → ℕ) (w : World) (ptr : List ℕ) (size count : ℕ) (mf : MyFile)
      → Holds b vs addr w
      → IsPlaced b vs w mf
      → mf.current_block < length vs
      → mf.isfirst ≡ 0
      → IsServed addr polls loads w mf
      → is_neg (next_cqe w mf).res ≡ true
      → Fails polls loads w ptr size count mf
  unfolding start finish
  my_fread-Broken polls loads w ptr size count mf h p i z s bad =
      let (j, waited, j_arrived) =
        wait_tail_lem polls loads (w.word mf.s.cq_ring.head) 0 s.arrival (omega arith)
          (omega (arith, s.in_time)) s.arrived in
      let d = visit w mf (start w mf ptr) in
      (
        finish w mf d,
        my_fread_first b vs addr polls loads w ptr size count mf (j + 1) d
            (inside_test b vs addr w mf p h.few i) (ground arith) waited
            (read_loop_broken (u64 (size * count)) b w mf (u64 (size * count)) loads (j + 1)
              (start w mf ptr) d
              (take_completion_failed w mf (loads (j + 1)) (start w mf ptr) z refl
                (s.stays j j_arrived) bad)),
        record {
          nothing = refl;
          same_ptr = refl;
          same_block = refl;
          same_offset = refl;
          visited = inl (refl, ap some s.owner);
          placed = record {
            blocks = p.blocks;
            index_in = p.index_in;
            at_end = p.at_end;
            offset_in = p.offset_in;
            word = ground (arith, p.word);
          };
          memory = refl;
        },
      )

  -- After such a failed first call, the next call with the same arguments returns as many bytes as if
  -- the read had succeeded (the buffer has room for what was asked).
  pub failure_forgotten :
      (polls : ℕ) (loads : ℕ → ℕ) (w : World) (ptr : List ℕ) (size count : ℕ) (mf : MyFile)
      → Holds b vs addr w
      → IsPlaced b vs w mf
      → mf.current_block < length vs
      → mf.isfirst ≡ 0
      → IsServed addr polls loads w mf
      → is_neg (next_cqe w mf).res ≡ true
      → u64 (size * count) ≤ length ptr
      → (r : Fread) × (q : Fread) × (my_fread b polls loads w ptr size count mf ≡ done r)
        × (r.bytes_read ≡ 0)
        × (my_fread b polls loads r.world r.ptr size count r.mf ≡ done q)
        × (q.bytes_read ≡ given b vs addr mf (u64 (size * count)))
  failure_forgotten polls loads w ptr size count mf h p i z s bad room =
      let (r, run, k) = my_fread-Broken polls loads w ptr size count mf h p i z s bad in
      let h' : Holds b vs addr r.world = record {
        fi = h.fi;
        stored = ap (λ f. f addr) k.memory ∙ h.stored;
        filled = h.filled;
        blocks = h.blocks;
        size_pos = h.size_pos;
        size_small = h.size_small;
        few = h.few;
      } in
      let (q, again, d) =
        my_fread-Delivered b vs addr polls loads r.world r.ptr size count r.mf h' k.placed
          (inl k.visited) (omega (arith, ap length k.same_ptr)) in
      (r, q, run, k.nothing, again, d.count ∙ rw (k.same_block, k.same_offset))

-- A first call inside the file does not return, for any bound on the wait, while every load of the
-- tail gives the head.
pub my_fread-hang :
    (b polls : ℕ) (loads : ℕ → ℕ) (w : World) (ptr : List ℕ) (size count : ℕ) (mf : MyFile)
    → mf.current_block < to_unsigned mf.blocks
    → mf.isfirst ≡ 0
    → ((k : ℕ) → loads k ≡ w.word mf.s.cq_ring.head)
    → my_fread b polls loads w ptr size count mf ≡ hang
unfolding my_fread start
my_fread-hang b polls loads w ptr size count mf i z empty =
    let first : (mf.isfirst == 0) ≡ true = ground arith in
    rw (lt→leb_false _ _ i, first, wait_tail-hang polls loads (w.word mf.s.cq_ring.head) 0 empty)
