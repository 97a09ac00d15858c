-- ===== src/Reader/Read/Loop.antt =====
-- The do loop of my_fread: it ends, and it copies all that is asked for or all that is left.
use io_uring_example.Base.{
  ℕ, zero, suc, ◌+◌, ◌-◌, ◌≤◌, ◌<◌, ◌^◌, min, ◌≡◌, sym, ap, ◌∙◌, inl, inr, List, [], arith, length,
  drop, length-drop, done, Bool-cases, ltb, leb, to_unsigned, ltb→lt, ltb_false→le, leb→le,
  leb_false→lt, if◌then◌else◌,
}
use io_uring_example.Reader.{AppIoCqRing, Iovc, MyFile, World}
use io_uring_example.Reader.Spec.{Holds, unread, unread-end}
use io_uring_example.Reader.Read.{Cursor, go, break, take_completion, copy_block, pass, read_loop}
use io_uring_example.Reader.Read.Copy.{IsReading, Moved, Moved-trans, copy_block-Moved}

-- After the first visit the completion queue is not looked at.
pub take_completion_visited :
    (w : World) (cring : AppIoCqRing) (tail : ℕ) (c : Cursor)
    → c.isfirst ≡ 1
    → take_completion w cring tail c ≡ go c
unfolding take_completion
take_completion_visited w cring tail c h = rw h

module _ (b : ℕ) (vs : List Iovc) (addr total : ℕ) (w : World) (mf : MyFile) where
  pass_visited :
      (tail : ℕ) (c d : Cursor)
      → c.isfirst ≡ 1
      → copy_block b w total c ≡ done d
      → pass b w mf total tail c
        ≡ done (
            if leb total d.bytes_read
            then break d
            else if ltb d.index (to_unsigned mf.blocks)
            then go d
            else break d)
  unfolding pass
  pass_visited tail c d h e = rw (take_completion_visited w mf.s.cq_ring tail c h, pass) (rw e)

  abbrev Goal : ℕ → (ℕ → ℕ) → ℕ → Cursor → Type 0
  Goal fuel loads k c =
      (d : Cursor) × (read_loop fuel b w mf total loads k c ≡ done d)
      × Moved b vs addr total (min (total - c.bytes_read) (length (unread vs c.index c.offset))) c d

  pub Moved-cast :
      (m n : ℕ) (c d : Cursor) → m ≡ n → Moved b vs addr total m c d → Moved b vs addr total n c d
  Moved-cast m n c d e v = rw (sym e) v

  -- The cursor inside the file that a pass leaves can be read on from.
  Moved-IsReading :
      (m : ℕ) (c d : Cursor)
      → IsReading b vs addr total c
      → Moved b vs addr total m c d
      → d.index < length vs
      → IsReading b vs addr total d
  Moved-IsReading m c d r v h = record {
    visited = v.visited;
    source = v.source;
    index_in = h;
    offset_in = v.offset_in;
    count = v.enough;
    room = omega (arith, v.size, r.room);
    word = omega (arith, v.seen);
  }

  -- At the end of the file nothing is left, so all of it has been copied.
  Moved-all :
      (m : ℕ) (c d : Cursor)
      → Moved b vs addr total m c d
      → length vs ≤ d.index
      → m ≡ min (total - c.bytes_read) (length (unread vs c.index c.offset))
  Moved-all m c d v h =
      let i : d.index ≡ length vs = omega (arith, v.index_in) in
      let o : d.offset ≡ 0 = v.at_end i in
      let nothing : drop m (unread vs c.index c.offset) ≡ [] =
        sym v.rest ∙ rw o (unread-end vs d.index h) in
      omega (
        arith,
        v.count,
        v.enough,
        v.within,
        length-drop m (unread vs c.index c.offset),
        ap length nothing,
      )

  pub read_loop-Moved :
      (fuel : ℕ) (loads : ℕ → ℕ) (k : ℕ) (c : Cursor)
      → Holds b vs addr w
      → total < 2 ^ 64
      → to_unsigned mf.blocks ≡ length vs
      → IsReading b vs addr total c
      → total - c.bytes_read < fuel
      → Goal fuel loads k c
  unfolding read_loop
  read_loop-Moved zero loads k c h ht n r hf = absurd (omega arith)
  read_loop-Moved (suc fuel) loads k c h ht n r hf =
      let (m, d, e, v, some_bytes) = copy_block-Moved b vs addr total w c h ht r in
      elim (Bool-cases (leb total d.bytes_read)) [
        | inl full ↦ (
          d,
          rw (pass_visited (loads k) c d r.visited e, full),
          Moved-cast m _ c d (omega (arith, leb→le _ _ full, v.count, v.enough, v.within)) v,
        )
        | inr more ↦ elim (Bool-cases (ltb d.index (length vs))) [
          | inl inside ↦
              let r' = Moved-IsReading m c d r v (ltb→lt _ _ inside) in
              let (f, run, v') =
                read_loop-Moved fuel loads (k + 1) d h ht n r'
                  (omega (arith, v.count, leb_false→lt _ _ more, some_bytes)) in
              (
                f,
                rw (pass_visited (loads k) c d r.visited e, more, n, inside) run,
                Moved-trans b vs addr total m _ _ c d f
                    (omega (
                      arith,
                      v.count,
                      v.within,
                      v.enough,
                      length-drop m (unread vs c.index c.offset),
                      ap length v.rest,
                    ))
                    v v',
              )
          | inr outside ↦ (
            d,
            rw (pass_visited (loads k) c d r.visited e, more, n, outside),
            Moved-cast m _ c d (Moved-all m c d v (ltb_false→le _ _ outside)) v,
          )
        ]
      ]
