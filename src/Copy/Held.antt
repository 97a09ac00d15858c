-- ===== src/Copy/Held.antt =====
-- What main of example/io_uring_cp.c holds: its open descriptors, its mappings and its objects, the last
-- one first; and the calls that give them back.
use io_uring_example.Base.{
  ℕ, ◌≡◌, refl, Bool, false, none, some, List, ◌∷◌, arith, ◌==◌, if◌then◌else◌, Run, done, fault,
  ◌>>=◌, ℤ, same_ℕ, same_ℤ, take_out, take_out-first_ℤ,
}

-- a mapping is its start and its size
pub record Held : Type 0 where
  pub descriptors : List ℤ
  pub mappings : List (ℕ × ℕ)
  pub blocks : List ℕ

abbrev pub with_descriptor : ℤ → Held → Held
with_descriptor fd h = record h { descriptors = fd ∷ h.descriptors }

abbrev pub with_mapping : ℕ → ℕ → Held → Held
with_mapping start size h = record h { mappings = (start, size) ∷ h.mappings }

abbrev pub with_block : ℕ → Held → Held
with_block a h = record h { blocks = a ∷ h.blocks }

abbrev pub same_mapping : ℕ × ℕ → ℕ × ℕ → Bool
same_mapping (start, size) (start', size') = if start == start' then size == size' else false

-- free of what malloc did not give is undefined
abbrev pub free : ℕ → Held → Run Held
free a h = elim (take_out same_ℕ a h.blocks) [
  | none ↦ fault
  | some blocks ↦ done (record h { blocks = blocks })
]

-- an error has no effect
abbrev pub close : ℤ → Held → Held
close fd h = elim (take_out same_ℤ fd h.descriptors) [
  | none ↦ h
  | some descriptors ↦ record h { descriptors = descriptors }
]

-- munmap of a whole mapping; of anything else it gives nothing back
abbrev pub munmap : ℕ → ℕ → Held → Held
munmap start size h = elim (take_out same_mapping (start, size) h.mappings) [
  | none ↦ h
  | some mappings ↦ record h { mappings = mappings }
]

-- the calls at the end of main
unfoldable pub releases : ℤ → ℤ → ℕ × ℕ → ℕ × ℕ → ℕ → Held → Run Held
releases src_fd dst_fd (ring_ptr, ring_sz) (sqe, sqes_sz) buffer h = free buffer h >>= λ h1.
    done (munmap sqe sqes_sz (munmap ring_ptr ring_sz (close dst_fd (close src_fd h1))))

take_out-later_ℤ :
    (a x : ℤ) (xs ys : List ℤ)
    → same_ℤ a x ≡ false
    → take_out same_ℤ a xs ≡ some ys
    → take_out same_ℤ a (x ∷ xs) ≡ some (x ∷ ys)
take_out-later_ℤ a x xs ys other e = rw (other, e) refl

free-first :
    (a : ℕ) (h : Held) (rest : List ℕ)
    → h.blocks ≡ a ∷ rest
    → free a h ≡ done (record h { blocks = rest })
free-first a h rest e = ground (arith, e)

close_lem :
    (fd : ℤ) (h : Held) (descriptors : List ℤ)
    → take_out same_ℤ fd h.descriptors ≡ some descriptors
    → close fd h ≡ record h { descriptors = descriptors }
close_lem fd h descriptors e = ground (arith, e)

munmap-first :
    (start size : ℕ) (h : Held) (rest : List (ℕ × ℕ))
    → h.mappings ≡ (start, size) ∷ rest
    → munmap start size h ≡ record h { mappings = rest }
munmap-first start size h rest e = ground (arith, e)

munmap-second :
    (start size start' size' : ℕ) (h : Held) (rest : List (ℕ × ℕ))
    → (start == start') ≡ false
    → h.mappings ≡ (start', size') ∷ (start, size) ∷ rest
    → munmap start size h ≡ record h { mappings = (start', size') ∷ rest }
munmap-second start size start' size' h rest other e = ground (arith, e, other)

-- The calls at the end of main give back all that main got, in whatever was held before, but the ring's
-- descriptor: different descriptors and different mappings are told apart.
pub releases_lem :
    (src_fd dst_fd ring_fd : ℤ) (ring_ptr ring_sz sqe sqes_sz buffer : ℕ) (h : Held)
    → same_ℤ src_fd ring_fd ≡ false
    → same_ℤ src_fd dst_fd ≡ false
    → same_ℤ dst_fd ring_fd ≡ false
    → (ring_ptr == sqe) ≡ false
    → releases src_fd dst_fd
        (ring_ptr, ring_sz)
        (sqe, sqes_sz)
        buffer
        (record h {
          descriptors = ring_fd ∷ dst_fd ∷ src_fd ∷ h.descriptors;
          mappings = (sqe, sqes_sz) ∷ (ring_ptr, ring_sz) ∷ h.mappings;
          blocks = buffer ∷ h.blocks;
        })
      ≡ done (record h { descriptors = ring_fd ∷ h.descriptors })
unfolding releases
releases_lem src_fd dst_fd ring_fd ring_ptr ring_sz sqe sqes_sz buffer h n1 n2 n3 n4 =
    let held : Held = record h {
      descriptors = ring_fd ∷ dst_fd ∷ src_fd ∷ h.descriptors;
      mappings = (sqe, sqes_sz) ∷ (ring_ptr, ring_sz) ∷ h.mappings;
      blocks = buffer ∷ h.blocks;
    } in
    let freed : Held = record held { blocks = h.blocks } in
    let closed : Held = record freed { descriptors = ring_fd ∷ dst_fd ∷ h.descriptors } in
    let left : Held = record freed { descriptors = ring_fd ∷ h.descriptors } in
    let unmapped : Held = record left { mappings = (sqe, sqes_sz) ∷ h.mappings } in
    rw
      (
        releases,
        free-first buffer held h.blocks refl,
        close_lem src_fd freed (ring_fd ∷ dst_fd ∷ h.descriptors) (
            take_out-later_ℤ src_fd ring_fd _ _ n1
              (take_out-later_ℤ src_fd dst_fd _ _ n2 (take_out-first_ℤ src_fd h.descriptors))),
        close_lem dst_fd closed (ring_fd ∷ h.descriptors)
            (take_out-later_ℤ dst_fd ring_fd _ _ n3 (take_out-first_ℤ dst_fd h.descriptors)),
        munmap-second ring_ptr ring_sz sqe sqes_sz left h.mappings n4 refl,
        munmap-first sqe sqes_sz unmapped h.mappings refl,
      )
      refl
