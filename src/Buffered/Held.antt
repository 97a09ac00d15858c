-- ===== src/Buffered/Held.antt =====
-- my_fopen and my_fclose of example/io_uring_polling.c: the rings, streams and objects that are held on
-- every path.
use io_uring_example.Base.{
  ℕ, ◌+◌, ◌≡◌, refl, ◌∙◌, inl, inr, Option, none, some, List, ◌∷◌, arith, Bool-cases, ℤ, is_neg,
}
use io_uring_example.Kernel.{Params}
use io_uring_example.Buffered.{
  Stdio, MyFile, buffer_size, queue_depth, sizeof_my_file, setup_params, new_file, open_stream,
  my_fopen, my_fclose, offset_of_iov,
}

-- what a program holds, the last one first
pub record Held : Type 0 where
  pub rings : List ℕ
  pub streams : List ℕ
  pub blocks : List ℕ

-- the documented effect of the calls on it
pub record Counts {M : Type 0} (stdio : Stdio M) : Type 0 where
  pub held : M → Held
  pub init_none :
      (n : ℕ) (p : Params) (m m' : M) → stdio.queue_init n p m ≡ (none, m') → held m' ≡ held m
  pub init_some :
      (n : ℕ) (p : Params) (r : ℕ) (m m' : M)
      → stdio.queue_init n p m ≡ (some r, m')
      → held m' ≡ record (held m) { rings = r ∷ (held m).rings }
  pub exit_first :
      (r : ℕ) (m : M) (h : Held)
      → held m ≡ record h { rings = r ∷ h.rings }
      → held (stdio.queue_exit r m) ≡ h
  pub fopen_none :
      (name mode : List ℕ) (m m' : M) → stdio.fopen name mode m ≡ (none, m') → held m' ≡ held m
  pub fopen_some :
      (name mode : List ℕ) (fp : ℕ) (m m' : M)
      → stdio.fopen name mode m ≡ (some fp, m')
      → held m' ≡ record (held m) { streams = fp ∷ (held m).streams }
  pub fclose_first :
      (fp : ℕ) (m : M) (h : Held)
      → held m ≡ record h { streams = fp ∷ h.streams }
      → held (stdio.fclose fp m) ≡ h
  pub register_files_keeps :
      (r : ℕ) (fd : ℤ) (m : M) → held (stdio.register_files r fd m).1 ≡ held m
  pub malloc_none : (n : ℕ) (m m' : M) → stdio.malloc n m ≡ (none, m') → held m' ≡ held m
  pub malloc_some :
      (n a : ℕ) (m m' : M)
      → stdio.malloc n m ≡ (some a, m')
      → held m' ≡ record (held m) { blocks = a ∷ (held m).blocks }
  pub free_first :
      (a : ℕ) (m : M) (h : Held)
      → held m ≡ record h { blocks = a ∷ h.blocks }
      → held (stdio.free a m) ≡ h

module _ {M : Type 0} (stdio : Stdio M) (counts : Counts stdio) where
  -- A refusal holds what was held; a file holds its ring, its stream and its two objects besides.
  pub data Opened (h : Held) : Option (ℕ × MyFile) × M → Type 0 where
    refused : (m' : M) → counts.held m' ≡ h → Opened h (none, m')
    accepted :
        (address : ℕ) (mf : MyFile) (m' : M)
        → counts.held m' ≡ record {
          rings = mf.ring ∷ h.rings;
          streams = mf.stream ∷ h.streams;
          blocks = mf.iov_base ∷ address ∷ h.blocks;
        }
        → Opened h (some (address, mf), m')

  new_file_by :
      (h : Held) (ring fp : ℕ) (m : M) (object : Option ℕ) (m1 : M) (buffer : Option ℕ) (m2 : M)
      → counts.held m ≡ record h { rings = ring ∷ h.rings; streams = fp ∷ h.streams }
      → stdio.malloc sizeof_my_file m ≡ (object, m1)
      → stdio.malloc buffer_size m1 ≡ (buffer, m2)
      → Opened h (new_file stdio ring fp m)
  unfolding new_file
  new_file_by h ring fp m none m1 buffer m2 e a1 a2 =
      let q : new_file stdio ring fp m ≡ (none, stdio.queue_exit ring (stdio.fclose fp m1)) =
        ground (arith, a1) in
      let closed =
        counts.fclose_first fp m1 (record h { rings = ring ∷ h.rings })
          (counts.malloc_none sizeof_my_file m m1 a1 ∙ e) in
      rw q (refused _ (counts.exit_first ring (stdio.fclose fp m1) h closed))
  new_file_by h ring fp m (some mf) m1 none m2 e a1 a2 =
      let q : new_file stdio ring fp m
          ≡ (none, stdio.free mf (stdio.queue_exit ring (stdio.fclose fp m2))) =
        ground (arith, a1, a2) in
      let got = counts.malloc_some sizeof_my_file mf m m1 a1 ∙ rw e in
      let closed =
        counts.fclose_first fp m2 (record h { rings = ring ∷ h.rings; blocks = mf ∷ h.blocks })
          (counts.malloc_none buffer_size m1 m2 a2 ∙ got) in
      let left =
        counts.exit_first ring (stdio.fclose fp m2) (record h { blocks = mf ∷ h.blocks }) closed in
      rw q (refused _ (counts.free_first mf (stdio.queue_exit ring (stdio.fclose fp m2)) h left))
  new_file_by h ring fp m (some mf) m1 (some iov_base) m2 e a1 a2 =
      let file : MyFile = record {
        stream = fp;
        ring = ring;
        iov = mf + offset_of_iov;
        iov_base = iov_base;
        iov_len = buffer_size;
        async_initiated = 0;
      } in
      let q : new_file stdio ring fp m ≡ (some (mf, file), m2) = ground (arith, a1, a2) in
      rw q (
        accepted mf file m2 (
          counts.malloc_some buffer_size iov_base m1 m2 a2
          ∙ rw (counts.malloc_some sizeof_my_file mf m m1 a1, e)))

  open_stream_by :
      (h : Held) (ring : ℕ) (filename mode : List ℕ) (m : M) (opened : Option ℕ) (m1 : M)
      → counts.held m ≡ record h { rings = ring ∷ h.rings }
      → stdio.fopen filename mode m ≡ (opened, m1)
      → Opened h (open_stream stdio ring filename mode m)
  unfolding open_stream
  open_stream_by h ring filename mode m none m1 e o =
      let q : open_stream stdio ring filename mode m ≡ (none, stdio.queue_exit ring m1) =
        ground (arith, o) in
      rw q (refused _ (counts.exit_first ring m1 h (counts.fopen_none filename mode m m1 o ∙ e)))
  open_stream_by h ring filename mode m (some fp) m1 e o =
      let m2 = (stdio.register_files ring (stdio.fileno fp) m1).1 in
      let held1 : counts.held m1 ≡ record h { rings = ring ∷ h.rings; streams = fp ∷ h.streams } =
        counts.fopen_some filename mode fp m m1 o ∙ rw e in
      let held2 = counts.register_files_keeps ring (stdio.fileno fp) m1 ∙ held1 in
      let h1 : Held = record h { rings = ring ∷ h.rings } in
      elim (Bool-cases (is_neg (stdio.fileno fp))) [
        | inl bad ↦
            let q : open_stream stdio ring filename mode m
                ≡ (none, stdio.queue_exit ring (stdio.fclose fp m1)) =
              ground (arith, o, bad) in
            rw q (
              refused _ (
                counts.exit_first ring (stdio.fclose fp m1) h (counts.fclose_first fp m1 h1 held1)))
        | inr good ↦ elim (Bool-cases (is_neg (stdio.register_files ring (stdio.fileno fp) m1).0)) [
          | inl failed ↦
              let q : open_stream stdio ring filename mode m
                  ≡ (none, stdio.queue_exit ring (stdio.fclose fp m2)) =
                ground (arith, o, good, failed) in
              rw q (
                refused _ (
                  counts.exit_first ring (stdio.fclose fp m2) h
                    (counts.fclose_first fp m2 h1 held2)))
          | inr registered ↦
              let q : open_stream stdio ring filename mode m ≡ new_file stdio ring fp m2 =
                ground (arith, o, good, registered) in
              rw q (new_file_by h ring fp m2 _ _ _ _ held2 refl refl)
        ]
      ]

  my_fopen_by :
      (filename mode : List ℕ) (m : M) (made : Option ℕ) (m1 : M)
      → stdio.queue_init queue_depth setup_params m ≡ (made, m1)
      → Opened (counts.held m) (my_fopen stdio filename mode m)
  unfolding my_fopen
  my_fopen_by filename mode m none m1 e =
      let q : my_fopen stdio filename mode m ≡ (none, m1) = ground (arith, e) in
      rw q (refused m1 (counts.init_none queue_depth setup_params m m1 e))
  my_fopen_by filename mode m (some ring) m1 e =
      let q : my_fopen stdio filename mode m ≡ open_stream stdio ring filename mode m1 =
        ground (arith, e) in
      rw q (
        open_stream_by (counts.held m) ring filename mode m1 _ _
          (counts.init_some queue_depth setup_params ring m m1 e) refl)

  my_fclose_lem :
      (h : Held) (address : ℕ) (mf : MyFile) (m : M)
      → counts.held m ≡ record {
        rings = mf.ring ∷ h.rings;
        streams = mf.stream ∷ h.streams;
        blocks = mf.iov_base ∷ address ∷ h.blocks;
      }
      → counts.held (my_fclose stdio address mf m) ≡ h
  unfolding my_fclose
  my_fclose_lem h address mf m e =
      let m1 = stdio.fclose mf.stream m in
      let m2 = stdio.free mf.iov_base m1 in
      let m3 = stdio.queue_exit mf.ring m2 in
      let h2 : Held = record h { blocks = address ∷ h.blocks } in
      let h1 : Held = record h2 { rings = mf.ring ∷ h.rings } in
      let closed =
        counts.fclose_first mf.stream m (record h1 { blocks = mf.iov_base ∷ address ∷ h.blocks })
          e in
      let freed = counts.free_first mf.iov_base m1 h1 closed in
      let left = counts.exit_first mf.ring m2 h2 freed in counts.free_first address m3 h left

  -- the machine after my_fopen, and after my_fclose where there is a file to close
  abbrev pub closed_again : Option (ℕ × MyFile) × M → M
  closed_again (none, m) = m
  closed_again (some (address, mf), m) = my_fclose stdio address mf m

  closed_by :
      (h : Held) (o : Option (ℕ × MyFile) × M) → Opened h o → counts.held (closed_again o) ≡ h
  closed_by h _ (refused m e) = e
  closed_by h _ (accepted address mf m e) = my_fclose_lem h address mf m e

  -- On every path of my_fopen, its six errors included: after it, and after the my_fclose of the file
  -- where there is one, the rings, streams and objects held are those that were held before.
  pub my_fclose-my_fopen :
      (filename mode : List ℕ) (m : M)
      → counts.held (closed_again (my_fopen stdio filename mode m)) ≡ counts.held m
  my_fclose-my_fopen filename mode m =
      closed_by (counts.held m) _ (my_fopen_by filename mode m _ _ refl)
