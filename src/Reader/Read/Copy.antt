-- ===== src/Reader/Read/Copy.antt =====
-- One pass of my_fread's loop after the first visit: what `copy_block` copies and where it leaves
-- the cursor.
use io_uring_example.Base.{
  ℕ, ◌+◌, ◌-◌, ◌≤◌, ◌<◌, ◌^◌, ◌≡◌, ap, ◌∙◌, some, List, arith, length, get_elem?, take, drop,
  overwrite, get_elem?-length, length-overwrite, length-take, length-drop, le→leb, drop-drop,
  take-append-take, overwrite-overwrite, done, u32, u64,
}
use io_uring_example.Reader.{Iovc, World}
use io_uring_example.Reader.Spec.{
  Holds, unread, get_elem?-entries, get_elem?-AreBlocks, unread_after, take-unread,
  length-unread_ge,
}
use io_uring_example.Reader.Read.{Cursor, memcpy, chunk, next_block, copy_block}

module _ (b : ℕ) (vs : List Iovc) (addr total : ℕ) where
  -- a cursor inside the file, after the first visit
  pub record IsReading (c : Cursor) : Type 0 where
    pub visited : c.isfirst ≡ 1
    pub source : c.fi_read ≡ some addr
    pub index_in : c.index < length vs
    pub offset_in : c.offset < b
    pub count : c.bytes_read ≤ total
    pub room : total ≤ length c.ptr
    pub word : c.head < 2 ^ 32

  -- the cursor `d` is `m` bytes of the stream further than `c`, and those are written
  pub record Moved (m : ℕ) (c d : Cursor) : Type 0 where
    pub visited : d.isfirst ≡ 1
    pub source : d.fi_read ≡ some addr
    pub index_in : d.index ≤ length vs
    pub at_end : d.index ≡ length vs → d.offset ≡ 0
    pub offset_in : d.offset < b
    pub count : d.bytes_read ≡ c.bytes_read + m
    pub enough : d.bytes_read ≤ total
    pub size : length d.ptr ≡ length c.ptr
    pub written : d.ptr ≡ overwrite c.bytes_read (take m (unread vs c.index c.offset)) c.ptr
    pub rest : unread vs d.index d.offset ≡ drop m (unread vs c.index c.offset)
    pub within : m ≤ length (unread vs c.index c.offset)
    pub forward : c.index ≤ d.index
    pub seen : d.head ≡ u32 (c.head + (d.index - c.index))

  pub Moved-trans :
      (m n k : ℕ) (c d e : Cursor) → m + n ≡ k → Moved m c d → Moved n d e → Moved k c e
  Moved-trans m n k c d e h p q = record {
    visited = q.visited;
    source = q.source;
    index_in = q.index_in;
    at_end = q.at_end;
    offset_in = q.offset_in;
    count = omega (arith, p.count, q.count);
    enough = q.enough;
    size = q.size ∙ p.size;
    written = rw (
      q.written,
      p.rest,
      p.written,
      overwrite-overwrite c.bytes_read d.bytes_read (take m (unread vs c.index c.offset))
          (take n (drop m (unread vs c.index c.offset))) c.ptr
          (omega (arith, p.count, p.within, length-take m (unread vs c.index c.offset))),
      take-append-take m n k (unread vs c.index c.offset) h,
    );
    rest = q.rest ∙ (rw p.rest (drop-drop m n k (unread vs c.index c.offset) h));
    within =
        omega
          (arith, p.within, q.within, ap length p.rest, length-drop m (unread vs c.index c.offset));
    forward = omega (arith, p.forward, q.forward);
    seen = omega (arith, p.seen, q.seen, p.forward, q.forward);
  }

pub memcpy_fits :
    (dst : List ℕ) (d : ℕ) (src : List ℕ) (o n : ℕ)
    → d + n ≤ length dst
    → o + n ≤ length src
    → memcpy dst d src o n ≡ done (overwrite d (take n (drop o src)) dst)
unfolding memcpy
memcpy_fits dst d src o n h k = rw (le→leb _ _ h, le→leb _ _ k)

-- A chunk stays inside the block and the room, and is not empty where there is room.
pub chunk_bounds :
    (b o r : ℕ) (v : Iovc)
    → o < b
    → b < 2 ^ 31
    → 0 < v.buffer_size
    → (chunk b o r v ≤ r) × (o + chunk b o r v ≤ b) × (0 < r → 0 < chunk b o r v)
unfolding chunk
chunk_bounds b o r v ho hb hv = ground arith

module _ (b : ℕ) (vs : List Iovc) (addr total : ℕ) where
  -- what a pass has copied, before the move to the next block
  abbrev copied : ℕ → Iovc → Cursor → Cursor
  copied m v c = record c {
    ptr = overwrite c.bytes_read (take m (drop c.offset v.buffer)) c.ptr;
    bytes_read = u64 (c.bytes_read + m);
    offset = u64 (c.offset + m);
  }

  -- A cursor at the end of a block goes to the next; one inside a block stays.
  next_block-Moved :
      (m : ℕ) (v : Iovc) (c : Cursor)
      → get_elem? vs c.index ≡ some v
      → length v.buffer ≡ b
      → b < 2 ^ 31
      → length vs < 2 ^ 31
      → total < 2 ^ 64
      → IsReading b vs addr total c
      → c.offset + m ≤ b
      → c.bytes_read + m ≤ total
      → Moved b vs addr total m c (next_block b (copied m v c))
  unfolding next_block
  next_block-Moved m v c e size hb few ht r fits room = record {
    visited = ground arith;
    source = ground arith;
    index_in = ground arith;
    at_end = ground arith;
    offset_in = ground arith;
    count = ground arith;
    enough = ground arith;
    size = ground (arith, length-overwrite c.bytes_read (take m (drop c.offset v.buffer)) c.ptr);
    written = ground (arith, take-unread vs c.index c.offset m v e (omega arith));
    rest = unread_after vs c.index c.offset m _ _ v e (ground arith);
    within = length-unread_ge vs c.index c.offset m v e (omega arith);
    forward = ground arith;
    seen = ground arith;
  }

  -- Inside the file a pass copies at least one byte, if there is room, and no range that it copies
  -- from or to leaves its object.
  pub copy_block-Moved :
      (w : World) (c : Cursor)
      → Holds b vs addr w
      → total < 2 ^ 64
      → IsReading b vs addr total c
      → (m : ℕ) × (d : Cursor) × (copy_block b w total c ≡ done d)
        × Moved b vs addr total m c d
        × (c.bytes_read < total → 0 < m)
  unfolding copy_block
  copy_block-Moved w c h ht r =
      let (v, e) = get_elem?-length vs c.index r.index_in in
      let (size, some_size) = get_elem?-AreBlocks b vs c.index v h.blocks e in
      let left = u64 (2 ^ 64 + total - c.bytes_read) in
      let (room, fits, some_bytes) =
        chunk_bounds b c.offset left v r.offset_in h.size_small some_size in
      (
        chunk b c.offset left v,
        next_block b (copied (chunk b c.offset left v) v c),
        rw (
          r.source,
          h.stored,
          h.filled,
          get_elem?-entries vs c.index v e,
          memcpy_fits c.ptr c.bytes_read v.buffer c.offset (chunk b c.offset left v) (omega arith)
              (omega arith),
        ),
        next_block-Moved (chunk b c.offset left v) v c e size h.size_small h.few ht r (omega arith)
            (omega arith),
        λ k. some_bytes (omega arith),
      )
