-- ===== src/Reader/Read/Delivery.antt =====
-- my_fread, what a call promises, and its loop's part in it.
use io_uring_example.Base.{
  ℕ, suc, ◌+◌, ◌-◌, ◌≤◌, ◌<◌, ◌^◌, min, ◌≡◌, refl, sym, ap, ◌⊎◌, inl, inr, false, some, List, [],
  arith, length, take, drop, overwrite, done, to_unsigned, to_unsigned_small, is_neg, le→leb, u32,
  pos,
}
use io_uring_example.Reader.{Iovc, MyFile, World}
use io_uring_example.Reader.Spec.{Holds, unread, unread-end}
use io_uring_example.Reader.Read.{Cursor, read_loop, start, finish, my_fread, Fread}
use io_uring_example.Reader.Read.Copy.{Moved}
use io_uring_example.Reader.Read.Loop.{Moved-cast, read_loop-Moved}
use io_uring_example.Reader.Read.First.{next_cqe, IsServed, visit}

-- a place between two bytes of a file of blocks `vs`
pub record IsPlaced (b : ℕ) (vs : List Iovc) (w : World) (mf : MyFile) : Type 0 where
  pub blocks : mf.blocks ≡ pos (length vs)
  pub index_in : mf.current_block ≤ length vs
  pub at_end : mf.current_block ≡ length vs → mf.current_offset ≡ 0
  pub offset_in : mf.current_offset < b
  pub word : w.word mf.s.cq_ring.head < 2 ^ 32

-- The first visit has been made, or the file is at its end: no completion is waited for.
abbrev pub IsSettled : ℕ → List Iovc → MyFile → Type 0
IsSettled addr vs mf =
    ((mf.isfirst ≡ 1) × (mf.fi_read ≡ some addr)) ⊎ (mf.current_block ≡ length vs)

-- A call can be made: nothing is waited for, or the completion comes and is a success.
abbrev pub IsReady : ℕ → List Iovc → ℕ → (ℕ → ℕ) → World → MyFile → Type 0
IsReady addr vs polls loads w mf =
    IsSettled addr vs mf
    ⊎ ((mf.isfirst ≡ 0) × IsServed addr polls loads w mf × (is_neg (next_cqe w mf).res ≡ false))

module _ (b : ℕ) (vs : List Iovc) (addr : ℕ) where
  -- What a call that gives `m` bytes leaves behind: those bytes at the start of the caller's buffer,
  -- the file `m` bytes further, one completion marked as seen for each block that was finished.
  pub record Delivered (w : World) (mf : MyFile) (ptr : List ℕ) (m : ℕ) (r : Fread) : Type 0 where
    pub count : r.bytes_read ≡ m
    pub written : r.ptr ≡ overwrite 0 (take m (unread vs mf.current_block mf.current_offset)) ptr
    pub rest :
        unread vs r.mf.current_block r.mf.current_offset
        ≡ drop m (unread vs mf.current_block mf.current_offset)
    pub placed : IsPlaced b vs r.world r.mf
    pub ring : r.mf.s ≡ mf.s
    pub memory : r.world.file_info ≡ w.file_info
    pub visited : IsSettled addr vs r.mf
    pub seen :
        r.world.word mf.s.cq_ring.head
        ≡ u32 (w.word mf.s.cq_ring.head + (r.mf.current_block - mf.current_block))

  -- the bytes that a call for `total` bytes gives
  abbrev pub given : MyFile → ℕ → ℕ
  given mf total = min total (length (unread vs mf.current_block mf.current_offset))

  -- the cursor that a call starts from, whichever visit it is
  abbrev pub entry : World → MyFile → List ℕ → Cursor
  entry w mf ptr = record (start w mf ptr) { isfirst = 1; fi_read = some addr }

  finish-Delivered :
      (w : World) (mf : MyFile) (ptr : List ℕ) (total : ℕ) (d : Cursor)
      → IsPlaced b vs w mf
      → Moved b vs addr total (given mf total) (entry w mf ptr) d
      → Delivered w mf ptr (given mf total) (finish w mf d)
  unfolding finish start
  finish-Delivered w mf ptr total d p v = record {
    count = omega (arith, v.count);
    written = v.written;
    rest = v.rest;
    placed = record {
      blocks = p.blocks;
      index_in = v.index_in;
      at_end = v.at_end;
      offset_in = v.offset_in;
      word = ground (arith, v.seen);
    };
    ring = refl;
    memory = refl;
    visited = inl (v.visited, v.source);
    seen = ground (arith, v.seen);
  }

  -- At the end of the file a call gives nothing and changes nothing.
  pub my_fread_end :
      (polls : ℕ) (loads : ℕ → ℕ) (w : World) (ptr : List ℕ) (size count : ℕ) (mf : MyFile)
      → IsPlaced b vs w mf
      → length vs < 2 ^ 31
      → length vs ≤ mf.current_block
      → my_fread b polls loads w ptr size count mf
        ≡ done (record { bytes_read = 0; ptr = ptr; mf = mf; world = w })
  unfolding my_fread
  my_fread_end polls loads w ptr size count mf p few h =
      rw (p.blocks, to_unsigned_small (length vs) few, le→leb _ _ h)

  pub at_end-Delivered :
      (w : World) (mf : MyFile) (ptr : List ℕ) (total : ℕ)
      → IsPlaced b vs w mf
      → length vs ≤ mf.current_block
      → Delivered w mf ptr
          (given mf total)
          (record { bytes_read = 0; ptr = ptr; mf = mf; world = w })
  at_end-Delivered w mf ptr total p h =
      let e : mf.current_block ≡ length vs = omega (arith, p.index_in) in
      let none_left : unread vs mf.current_block mf.current_offset ≡ [] =
        rw (p.at_end e) (unread-end vs mf.current_block h) in
      let zero_given : given mf total ≡ 0 = omega (arith, ap length none_left) in
      record {
        count = sym zero_given;
        written = rw zero_given;
        rest = rw zero_given;
        placed = p;
        ring = refl;
        memory = refl;
        visited = inr e;
        seen = omega (arith, p.word);
      }

  -- The loop of a call inside the file, from the first visit or a later one.
  pub loop-Delivered :
      (w : World) (mf : MyFile) (ptr : List ℕ) (total : ℕ) (loads : ℕ → ℕ) (k : ℕ)
      → Holds b vs addr w
      → IsPlaced b vs w mf
      → mf.current_block < length vs
      → total < 2 ^ 64
      → total ≤ length ptr
      → (d : Cursor) × (read_loop (suc total) b w mf total loads k (entry w mf ptr) ≡ done d)
        × Delivered w mf ptr (given mf total) (finish w mf d)
  unfolding start
  loop-Delivered w mf ptr total loads k h p i ht room =
      let n : to_unsigned mf.blocks ≡ length vs =
        rw p.blocks (to_unsigned_small (length vs) h.few) in
      let (d, run, v) =
        read_loop-Moved b vs addr total w mf (suc total) loads k (entry w mf ptr) h ht n
          (record {
            visited = refl;
            source = refl;
            index_in = i;
            offset_in = p.offset_in;
            count = omega arith;
            room = room;
            word = p.word;
          })
          (omega arith) in
      (
        d,
        run,
        finish-Delivered w mf ptr total d p
            (Moved-cast b vs addr total w mf _ (given mf total) (entry w mf ptr) d (omega arith) v),
      )

  pub start-entry :
      (w : World) (mf : MyFile) (ptr : List ℕ)
      → mf.isfirst ≡ 1
      → mf.fi_read ≡ some addr
      → start w mf ptr ≡ entry w mf ptr
  unfolding start
  start-entry w mf ptr v s = rw (v, s)

  pub visit-entry :
      (w : World) (mf : MyFile) (ptr : List ℕ)
      → (next_cqe w mf).user_data ≡ addr
      → visit w mf (start w mf ptr) ≡ entry w mf ptr
  visit-entry w mf ptr o = rw o
