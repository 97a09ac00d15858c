-- ===== src/Plain/Held.antt =====
-- example/fread.c, what my_cat holds of the machine after it: descriptors and allocations.
use io_uring_example.Base.{
  ℕ, zero, suc, ◌*◌, ◌/◌, ◌+◌, ◌≡◌, refl, sym, ap, ◌∙◌, inl, inr, true, false, Option, none, some,
  List, [], ◌∷◌, ◌++◌, take, arith, Run, done, fault, hang, done_inj, Bool-cases, ltb, u64, to_size,
  is_minus_one, ℤ, pos, negsuc,
}
use io_uring_example.Posix.{Posix, Counts}
use io_uring_example.Plain.{
  MyFile, Fread, my_fopen, my_fread, my_fclose, cat_loop, my_cat, sizeof_my_file, buffer_bytes,
}
use io_uring_example.Plain.Output.{my_cat_opened}

module _ {M : Type 0} (posix : Posix M) (counts : Counts posix) where
  -- as many descriptors and allocations as before, the same ones
  pub record SameHeld (m m' : M) : Type 0 where
    pub descriptors : counts.descriptors m' ≡ counts.descriptors m
    pub blocks : counts.blocks m' ≡ counts.blocks m

  my_fread_lem :
      (bytes : ℕ) (stream : MyFile) (m : M)
      → (r : Fread M) × (my_fread posix 1 bytes stream m ≡ done r)
        × (r.machine ≡ (posix.read stream.fd (u64 (1 * bytes)) m).2)
        × (r.stream.fd ≡ stream.fd)
  unfolding my_fread
  my_fread_lem bytes stream m =
      let got = posix.read stream.fd (u64 (1 * bytes)) m in
      elim (Bool-cases (is_minus_one (posix.read stream.fd (u64 (1 * bytes)) m).0)) [
        | inl failed ↦ (
          record { result = 0; stored = got.1; stream = stream; machine = got.2 },
          rw failed,
          refl,
          refl,
        )
        | inr good ↦ (
          record {
            result = to_size got.0 / 1;
            stored = got.1;
            stream = record stream { pos = u64 (stream.pos + to_size got.0) };
            machine = got.2;
          },
          rw good,
          refl,
          refl,
        )
      ]

  cat_loop_more :
      (fuel bytes : ℕ) (stream : MyFile) (m : M) (output : List ℕ) (r : Fread M)
      → my_fread posix 1 bytes stream m ≡ done r
      → ltb 0 r.result ≡ true
      → cat_loop posix (suc fuel) bytes stream m output
        ≡ cat_loop posix fuel bytes r.stream r.machine (output ++ take r.result r.stored)
  unfolding cat_loop
  cat_loop_more fuel bytes stream m output r e h = rw (e, h)

  cat_loop_stop :
      (fuel bytes : ℕ) (stream : MyFile) (m : M) (output : List ℕ) (r : Fread M)
      → my_fread posix 1 bytes stream m ≡ done r
      → ltb 0 r.result ≡ false
      → cat_loop posix (suc fuel) bytes stream m output ≡ done (output, r.stream, r.machine)
  unfolding cat_loop
  cat_loop_stop fuel bytes stream m output r e h = rw (e, h)

  cat_loop-SameHeld :
      (fuel bytes : ℕ) (stream : MyFile) (m : M) (output : List ℕ) (p : List ℕ × MyFile × M)
      → cat_loop posix fuel bytes stream m output ≡ done p
      → SameHeld m p.2 × (p.1.fd ≡ stream.fd)
  unfolding cat_loop
  cat_loop-SameHeld zero bytes stream m output p e = cc
  cat_loop-SameHeld (suc fuel) bytes stream m output p e =
      let (r, run, machine, same) = my_fread_lem bytes stream m in
      let (d, k) = counts.read_holds stream.fd (u64 (1 * bytes)) m in
      elim (Bool-cases (ltb 0 r.result)) [
        | inl more ↦
            let (h, s) =
              cat_loop-SameHeld fuel bytes r.stream r.machine (output ++ take r.result r.stored) p
                (sym (cat_loop_more fuel bytes stream m output r run more) ∙ e) in
            (
              record {
                descriptors = h.descriptors ∙ rw machine d;
                blocks = h.blocks ∙ rw machine k;
              },
              s ∙ same,
            )
        | inr stop ↦
            let q : (output, r.stream, r.machine) ≡ p =
              done_inj (sym (cat_loop_stop fuel bytes stream m output r run stop) ∙ e) in
            rw (sym q) (record { descriptors = rw machine d; blocks = rw machine k }, same)
      ]

  -- my_fopen gives a stream whose descriptor and object are the last things held, or holds nothing new.
  pub data Opened (m : M) : Option (ℕ × MyFile) × M → Type 0 where
    refused : (m' : M) → SameHeld m m' → Opened m (none, m')
    accepted :
        (file : ℕ) (stream : MyFile) (m' : M)
        → counts.descriptors m' ≡ stream.fd ∷ counts.descriptors m
        → counts.blocks m' ≡ file ∷ counts.blocks m
        → Opened m (some (file, stream), m')

  my_fopen_by :
      (filename : List ℕ) (m : M) (a : Option ℕ) (m1 : M) (fd : ℤ) (m2 : M)
      → posix.malloc sizeof_my_file m ≡ (a, m1)
      → posix.open_file filename m1 ≡ (fd, m2)
      → Opened m (my_fopen posix filename m)
  unfolding my_fopen
  my_fopen_by filename m none m1 fd m2 e o =
      let (h, d) = counts.malloc_none sizeof_my_file m m1 e in
      let q : my_fopen posix filename m ≡ (none, m1) = ground (arith, e) in
      rw q (refused m1 (record { descriptors = d; blocks = h }))
  my_fopen_by filename m (some file) m1 (pos n) m2 e o =
      let (h, d) = counts.malloc_some sizeof_my_file file m m1 e in
      let (k, j) = counts.open_some filename n m1 m2 o in
      let q : my_fopen posix filename m ≡ (some (file, record { fd = pos n; pos = 0 }), m2) =
        ground (arith, e, o) in
      rw q (accepted file (record { fd = pos n; pos = 0 }) m2 (rw (k, d)) (rw (j, h)))
  my_fopen_by filename m (some file) m1 (negsuc n) m2 e o =
      let (h, d) = counts.malloc_some sizeof_my_file file m m1 e in
      let (k, j) = counts.open_none filename n m1 m2 o in
      let one = counts.open_minus_one filename n m1 m2 o in
      let (f, g) = counts.free_first file (counts.blocks m) m2 (j ∙ h) in
      let q : my_fopen posix filename m ≡ (none, posix.free file m2) = ground (arith, e, o, one) in
      rw q (refused (posix.free file m2) (record { descriptors = g ∙ k ∙ d; blocks = f }))

  my_fclose-SameHeld :
      (file : ℕ) (stream : MyFile) (m m1 : M)
      → counts.descriptors m1 ≡ stream.fd ∷ counts.descriptors m
      → counts.blocks m1 ≡ file ∷ counts.blocks m
      → SameHeld m (my_fclose posix file stream m1)
  unfolding my_fclose
  my_fclose-SameHeld file stream m m1 d b =
      let (d1, b1) = counts.close_first stream.fd (counts.descriptors m) m1 d in
      let (b2, d2) = counts.free_first file (counts.blocks m) (posix.close stream.fd m1) (b1 ∙ b) in
      record { descriptors = d2 ∙ d1; blocks = b2 }

  cat_opened :
      (fuel file : ℕ) (filename : List ℕ) (stream : MyFile) (m m1 : M) (output : List ℕ) (m' : M)
      (x : Run (List ℕ × MyFile × M))
      → my_fopen posix filename m ≡ (some (file, stream), m1)
      → cat_loop posix fuel buffer_bytes stream m1 [] ≡ x
      → my_cat posix fuel filename m ≡ done (output, m')
      → (p : List ℕ × MyFile × M) × (cat_loop posix fuel buffer_bytes stream m1 [] ≡ done p)
        × (m' ≡ my_fclose posix file p.1 p.2)
  unfolding my_cat
  cat_opened fuel file filename stream m m1 output m' (done p) q run e = (
    p,
    run,
    ap (λ r. r.1) (done_inj (sym e ∙ my_cat_opened posix fuel file filename stream m m1 p q run)),
  )
  cat_opened fuel file filename stream m m1 output m' fault q run e = ground (arith, q, run, e)
  cat_opened fuel file filename stream m m1 output m' hang q run e = ground (arith, q, run, e)

  cat_with :
      (fuel : ℕ) (filename : List ℕ) (m : M) (output : List ℕ) (m' : M)
      (o : Option (ℕ × MyFile) × M)
      → Opened m o
      → my_fopen posix filename m ≡ o
      → my_cat posix fuel filename m ≡ done (output, m')
      → SameHeld m m'
  unfolding my_cat
  cat_with fuel filename m output m' _ (refused m1 h) q e =
      let ran : my_cat posix fuel filename m ≡ done ([], m1) = ground (arith, q) in
      let same : m' ≡ m1 = ap (λ r. r.1) (done_inj (sym e ∙ ran)) in rw same h
  cat_with fuel filename m output m' _ (accepted file stream m1 d b) q e =
      let (p, run, same) = cat_opened fuel file filename stream m m1 output m' _ q refl e in
      let (h, s) = cat_loop-SameHeld fuel buffer_bytes stream m1 [] p run in
      rw same (my_fclose-SameHeld file p.1 m p.2 (h.descriptors ∙ rw s d) (h.blocks ∙ b))

  -- Whenever my_cat returns, whether or not the file could be opened or read, the descriptors and the
  -- allocations that are held are those that were held before it.
  pub my_cat-SameHeld :
      (fuel : ℕ) (filename : List ℕ) (m : M) (output : List ℕ) (m' : M)
      → my_cat posix fuel filename m ≡ done (output, m')
      → SameHeld m m'
  my_cat-SameHeld fuel filename m output m' e =
      cat_with fuel filename m output m' _ (my_fopen_by filename m _ _ _ _ refl refl) refl e
