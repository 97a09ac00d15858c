-- ===== src/Buffered/Later.antt =====
-- my_fread of example/io_uring_polling.c after the first call: the reads through fread.
use io_uring_example.Base.{
  ℕ, zero, suc, ◌+◌, ◌-◌, ◌*◌, ◌/◌, ◌≤◌, ◌<◌, ◌^◌, ◌≡◌, refl, ◌∙◌, inl, inr, true, false, ◌&&◌,
  ◌||◌, List, [], ◌++◌, length, length-take, take, drop, arith, done, Bool-cases, ltb, leb, leb→le,
  leb_false→lt, lt→ltb, le→ltb_false, le→leb, ◌==◌, if◌then◌else◌, u64,
}
use io_uring_example.Buffered.{Stdio, MyFile, Fread, Cursor, buffer_size, read_sync, my_fread}

-- A stream of a file with these bytes: fread stores as many as are asked for and left, and sets the
-- end-of-file indicator where it stores fewer than asked for.
pub record Streams {M : Type 0} (stdio : Stdio M) (content : List ℕ) (stream : ℕ) : Type 0 where
  pub position : M → ℕ
  pub read :
      (n : ℕ) (m : M)
      → (m' : M) × (stdio.fread n stream m ≡ (take n (drop (position m) content), m'))
        × (stdio.feof stream m' ≡ ltb (length (drop (position m) content)) n)

module _ {M : Type 0} (stdio : Stdio M) where
  sync_round :
      (fuel room : ℕ) (mf : MyFile) (c : Cursor M) (got : List ℕ) (m1 : M)
      → 0 < c.total_bytes
      → c.total_bytes ≤ buffer_size
      → length c.stored + length got ≤ room
      → stdio.fread c.total_bytes mf.stream c.machine ≡ (got, m1)
      → (ltb (length got) c.total_bytes && (stdio.feof mf.stream m1 || stdio.ferror mf.stream m1))
        ≡ false
      → read_sync stdio (suc fuel) room mf c
        ≡ read_sync stdio fuel room mf (record {
          total_bytes = c.total_bytes - length got;
          bytes_read = u64 (c.bytes_read + length got);
          stored = c.stored ++ got;
          machine = m1;
        })
  unfolding read_sync
  sync_round fuel room mf c got m1 some_bytes few fits e goes =
      let whole : ltb buffer_size c.total_bytes ≡ false = le→ltb_false _ _ few in
      rw (whole, lt→ltb 0 c.total_bytes some_bytes, e, le→leb _ _ fits, goes)

  sync_break :
      (fuel room : ℕ) (mf : MyFile) (c : Cursor M) (got : List ℕ) (m1 : M)
      → 0 < c.total_bytes
      → c.total_bytes ≤ buffer_size
      → length c.stored + length got ≤ room
      → stdio.fread c.total_bytes mf.stream c.machine ≡ (got, m1)
      → (ltb (length got) c.total_bytes && (stdio.feof mf.stream m1 || stdio.ferror mf.stream m1))
        ≡ true
      → read_sync stdio (suc fuel) room mf c
        ≡ done (record c { stored = c.stored ++ got; machine = m1 })
  unfolding read_sync
  sync_break fuel room mf c got m1 some_bytes few fits e stops =
      let whole : ltb buffer_size c.total_bytes ≡ false = le→ltb_false _ _ few in
      rw (whole, lt→ltb 0 c.total_bytes some_bytes, e, le→leb _ _ fits, stops)

  pub sync_end :
      (fuel room : ℕ) (mf : MyFile) (c : Cursor M)
      → c.total_bytes ≡ 0
      → read_sync stdio fuel room mf c ≡ done c
  unfolding read_sync
  sync_end zero room mf c e = rw e
  sync_end (suc fuel) room mf c e = rw e

  -- the cursor at the start of a call
  abbrev pub started : ℕ → M → Cursor M
  started total m = record { total_bytes = total; bytes_read = 0; stored = []; machine = m }

  later_run :
      (fuel room count : ℕ) (mf : MyFile) (m : M) (d : Cursor M)
      → (mf.async_initiated == 0) ≡ false
      → count < 2 ^ 63
      → read_sync stdio fuel room mf (started count m) ≡ done d
      → my_fread stdio fuel room 1 count mf m
        ≡ done (record { result = d.bytes_read; stored = d.stored; mf = mf; machine = d.machine })
  unfolding my_fread
  later_run fuel room count mf m d later small run =
      let total : u64 (1 * count) ≡ count = omega arith in
      let same : d.bytes_read / 1 ≡ d.bytes_read = omega arith in rw (later, total, run, same)

  -- A call after the first one, of at most 1024 bytes of size 1 and with room for them, on a stream of
  -- `content`: it returns within two rounds and stores the next bytes of the file as far as there are
  -- any; its result is the count asked for where so many are left, and otherwise 0.
  pub my_fread-later :
      (content : List ℕ) (mf : MyFile) (streams : Streams stdio content mf.stream) (m : M)
      (room count : ℕ)
      → (mf.async_initiated == 0) ≡ false
      → 0 < count
      → count ≤ buffer_size
      → count ≤ room
      → (r : Fread M) × (my_fread stdio 2 room 1 count mf m ≡ done r)
        × (r.stored ≡ take count (drop (streams.position m) content))
        × (r.result ≡ (if leb count (length (drop (streams.position m) content)) then count else 0))
  my_fread-later content mf streams m room count later some_bytes few fits =
      let left = drop (streams.position m) content in
      let (m1, got, eof) = streams.read count m in
      let size = length-take count left in
      elim (Bool-cases (leb count (length left))) [
        | inl enough ↦
            let le = leb→le _ _ enough in
            let full : ltb (length (take count left)) count ≡ false =
              le→ltb_false _ _ (omega (arith, size)) in
            let d : Cursor M = record {
              total_bytes = count - length (take count left);
              bytes_read = u64 (0 + length (take count left));
              stored = [] ++ take count left;
              machine = m1;
            } in
            let run =
              sync_round 1 room mf (started count m) (take count left) m1 some_bytes few
                (omega (arith, size)) got (rw full)
              ∙ sync_end 1 room mf d (omega (arith, size)) in
            (
              record { result = d.bytes_read; stored = d.stored; mf = mf; machine = d.machine },
              later_run 2 room count mf m d later (omega arith) run,
              refl,
              rw enough (omega (arith, size)),
            )
        | inr short ↦
            let lt = leb_false→lt _ _ short in
            let part : ltb (length (take count left)) count ≡ true =
              lt→ltb _ _ (omega (arith, size)) in
            let at_end : stdio.feof mf.stream m1 ≡ true = eof ∙ lt→ltb _ _ lt in
            let d : Cursor M = record (started count m) {
              stored = [] ++ take count left;
              machine = m1;
            } in
            let run =
              sync_break 1 room mf (started count m) (take count left) m1 some_bytes few
                (omega (arith, size)) got (rw (part, at_end)) in
            (
              record { result = d.bytes_read; stored = d.stored; mf = mf; machine = d.machine },
              later_run 2 room count mf m d later (omega arith) run,
              refl,
              rw short,
            )
      ]
