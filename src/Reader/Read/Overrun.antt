-- ===== src/Reader/Read/Overrun.antt =====
-- How far my_fread of example/io_uring_read.c moves the head of the completion queue.
use io_uring_example.Base.{
  ℕ, ◌+◌, ◌-◌, ◌*◌, ◌≤◌, ◌<◌, ◌≡◌, ap, inl, inr, Bool-cases, List, arith, length, get_elem?-length,
  length-drop, ltb, ltb→lt, ltb_false→le, done, u32, u64,
}
use io_uring_example.Reader.{Iovc, MyFile, World}
use io_uring_example.Reader.Spec.{Holds, unread, length-unread_ge, get_elem?-AreBlocks}
use io_uring_example.Reader.Read.{Fread, my_fread}
use io_uring_example.Reader.Read.Delivery.{IsPlaced, IsReady, given}
use io_uring_example.Reader.Read.Call.{my_fread-Delivered}

-- Where nothing is left the position is behind the last block.
unread_nothing :
    (b : ℕ) (vs : List Iovc) (addr : ℕ) (w : World) (i o : ℕ)
    → Holds b vs addr w
    → i ≤ length vs
    → o < b
    → length (unread vs i o) ≡ 0
    → i ≡ length vs
unread_nothing b vs addr w i o h hi ho e = elim (Bool-cases (ltb i (length vs))) [
  | inl inside ↦
      let (v, got) = get_elem?-length vs i (ltb→lt _ _ inside) in
      let (size, some_size) = get_elem?-AreBlocks b vs i v h.blocks got in
      absurd (omega (arith, length-unread_ge vs i o 1 v got (omega arith)))
  | inr outside ↦ omega (arith, ltb_false→le _ _ outside)
]

-- A call that asks for at least all the unread bytes returns all of them and moves the head of the
-- completion queue by the number of blocks that were left.
pub my_fread_overrun :
    (b : ℕ) (vs : List Iovc) (addr polls : ℕ) (loads : ℕ → ℕ) (w : World) (ptr : List ℕ)
    (size count : ℕ) (mf : MyFile)
    → Holds b vs addr w
    → IsPlaced b vs w mf
    → IsReady addr vs polls loads w mf
    → u64 (size * count) ≤ length ptr
    → length (unread vs mf.current_block mf.current_offset) ≤ u64 (size * count)
    → (r : Fread) × (my_fread b polls loads w ptr size count mf ≡ done r)
      × (r.bytes_read ≡ length (unread vs mf.current_block mf.current_offset))
      × (r.world.word mf.s.cq_ring.head
          ≡ u32 (w.word mf.s.cq_ring.head + (length vs - mf.current_block)))
my_fread_overrun b vs addr polls loads w ptr size count mf h p ready room all =
    let left = unread vs mf.current_block mf.current_offset in
    let (r, run, d) = my_fread-Delivered b vs addr polls loads w ptr size count mf h p ready room in
    let finished : r.mf.current_block ≡ length vs =
      unread_nothing b vs addr w r.mf.current_block r.mf.current_offset h d.placed.index_in
        d.placed.offset_in
        (omega
          (arith, ap length d.rest, length-drop (given b vs addr mf (u64 (size * count))) left)) in
    (r, run, omega (arith, d.count), omega (arith, d.seen))
