-- ===== src/Plain/Output.antt =====
-- my_cat of example/fread.c against the file: what is written, whatever part of the request each
-- read(2) serves.
use io_uring_example.Base.{
  ℕ, zero, suc, ◌+◌, ◌-◌, ◌*◌, ◌/◌, ◌%◌, ◌≤◌, ◌<◌, ◌^◌, ◌≡◌, refl, sym, ap, ◌∙◌, inl, inr, some,
  List, [], ◌++◌, append_assoc, append-nil, take, drop, length, length-take, take-length, drop-drop,
  drop-length, take-append-drop, arith, done, Bool-cases, ltb, ltb→lt, ltb_false→le, lt→ltb, u64,
  to_size, ℤ, pos,
}
use io_uring_example.Posix.{Posix, Reads}
use io_uring_example.Plain.{
  MyFile, my_fopen, my_fread, my_fclose, cat_loop, my_cat, sizeof_my_file, buffer_bytes,
}

-- the rest of a list after its first `n` elements, and the rest of that
drop_part {ℓ} :
    {A : Type ℓ} (n r k : ℕ) (xs : List A) → k ≡ n + r → take r (drop n xs) ++ drop k xs ≡ drop n xs
drop_part n r k xs e =
    ap (λ t. take r (drop n xs) ++ t) (sym (drop-drop n r k xs (sym e)))
    ∙ take-append-drop r (drop n xs)

-- what one round of the loop adds to the output
round_output :
    (content output : List ℕ) (n r k : ℕ)
    → k ≡ n + r
    → (output ++ take r (take r (drop n content))) ++ drop k content ≡ output ++ drop n content
round_output content output n r k e =
    let part : take r (take r (drop n content)) ≡ take r (drop n content) =
      take-length r (take r (drop n content)) (omega (arith, length-take r (drop n content))) in
    rw (part, append_assoc output (take r (drop n content)) (drop k content))
      (ap (λ t. output ++ t) (drop_part n r k content e))

module _ {M : Type 0} (posix : Posix M) where
  my_fread-some :
      (bytes r : ℕ) (stored : List ℕ) (stream : MyFile) (m m' : M)
      → posix.read stream.fd (u64 (1 * bytes)) m ≡ (pos r, stored, m')
      → r < 2 ^ 64
      → my_fread posix 1 bytes stream m
        ≡ done (record {
          result = r;
          stored = stored;
          stream = record stream { pos = u64 (stream.pos + r) };
          machine = m';
        })
  unfolding my_fread to_size
  my_fread-some bytes r stored stream m m' e small =
      let r' : r % 2 ^ 64 ≡ r = omega arith in let r1 : r / 1 ≡ r = omega arith in rw (e, r', r1)

  abbrev Prints : ℕ → ℕ → MyFile → M → List ℕ → List ℕ → Type 0
  Prints fuel bytes stream m output more =
      (p : List ℕ × MyFile × M) × (cat_loop posix fuel bytes stream m output ≡ done p)
      × (p.0 ≡ output ++ more)

  cat_loop-Prints :
      (content : List ℕ) (fd : ℤ) (reads : Reads posix content fd) (fuel bytes : ℕ)
      (stream : MyFile) (m : M) (output : List ℕ)
      → stream.fd ≡ fd
      → 0 < bytes
      → bytes < 2 ^ 63
      → reads.position m ≤ length content
      → length content - reads.position m < fuel
      → Prints fuel bytes stream m output (drop (reads.position m) content)
  unfolding cat_loop
  cat_loop-Prints content fd reads zero bytes stream m output e h small inside hf =
      absurd (omega arith)
  cat_loop-Prints content fd reads (suc fuel) bytes stream m output e h small inside hf =
      elim (Bool-cases (ltb (reads.position m) (length content))) [
        | inl more ↦
            let (r, m', got, some_r, few, moved, in') =
              reads.some_bytes (u64 (1 * bytes)) m (omega arith) (ltb→lt _ _ more) in
            let part = take r (drop (reads.position m) content) in
            let (p, run, out) =
              cat_loop-Prints content fd reads fuel bytes
                (record stream { pos = u64 (stream.pos + r) }) m' (output ++ take r part) e h small
                in' (omega arith) in
            (
              p,
              rw
                  (
                    my_fread-some bytes r part stream m m' (rw e got) (omega arith),
                    lt→ltb 0 r some_r,
                  )
                  run,
              out ∙ round_output content output (reads.position m) r (reads.position m') moved,
            )
        | inr all ↦
            let at_end = reads.at_end (u64 (1 * bytes)) m (omega (arith, ltb_false→le _ _ all)) in
            (
              (output, record stream { pos = u64 (stream.pos + 0) }, m),
              rw (my_fread-some bytes 0 [] stream m m (rw e at_end) (omega arith)),
              rw (drop-length (reads.position m) content (ltb_false→le _ _ all))
                  (sym (append-nil output)),
            )
      ]

  pub my_fopen-some :
      (filename : List ℕ) (file n : ℕ) (m m1 m2 : M)
      → posix.malloc sizeof_my_file m ≡ (some file, m1)
      → posix.open_file filename m1 ≡ (pos n, m2)
      → my_fopen posix filename m ≡ (some (file, record { fd = pos n; pos = 0 }), m2)
  unfolding my_fopen
  my_fopen-some filename file n m m1 m2 allocated opened = ground (arith, allocated, opened)

  pub my_cat_opened :
      (fuel file : ℕ) (filename : List ℕ) (stream : MyFile) (m m1 : M) (p : List ℕ × MyFile × M)
      → my_fopen posix filename m ≡ (some (file, stream), m1)
      → cat_loop posix fuel buffer_bytes stream m1 [] ≡ done p
      → my_cat posix fuel filename m ≡ done (p.0, my_fclose posix file p.1 p.2)
  unfolding my_cat
  my_cat_opened fuel file filename stream m m1 p opened run = ground (arith, opened, run)

  -- When the file can be opened and allocated for, and read(2) gives parts of `content` from its
  -- start, the parts as short as it likes, my_cat returns within a round for each byte and one more, and
  -- writes exactly `content`.
  pub my_cat-prints :
      (content filename : List ℕ) (file n : ℕ) (m m1 m2 : M) (reads : Reads posix content (pos n))
      (fuel : ℕ)
      → posix.malloc sizeof_my_file m ≡ (some file, m1)
      → posix.open_file filename m1 ≡ (pos n, m2)
      → reads.position m2 ≡ 0
      → length content < fuel
      → (m3 : M) × (my_cat posix fuel filename m ≡ done (content, m3))
  my_cat-prints content filename file n m m1 m2 reads fuel allocated opened at_start hf =
      let stream : MyFile = record { fd = pos n; pos = 0 } in
      let (p, run, out) =
        cat_loop-Prints content (pos n) reads fuel buffer_bytes stream m2 [] refl (omega arith)
          (omega arith) (omega arith) (omega arith) in
      let all : p.0 ≡ content = out ∙ rw at_start in
      (
        my_fclose posix file p.1 p.2,
        my_cat_opened fuel file filename stream m m2 p
              (my_fopen-some filename file n m m1 m2 allocated opened) run
            ∙ ap (λ t. done (t, my_fclose posix file p.1 p.2)) all,
      )
