-- ===== src/Reader/Open/Fill.antt =====
-- The loop of my_fopen in example/io_uring_read.c that makes the blocks: with enough entries it covers
-- the file exactly, and with too few it writes past their end.
use io_uring_example.Base.{
  All, ℕ, zero, suc, ◌+◌, ◌-◌, ◌*◌, ◌≤◌, ◌<◌, ◌^◌, ◌≡◌, refl, sym, ap, ap₂, ◌∙◌, false, Option,
  none, some, List, [], ◌∷◌, ◌++◌, append_assoc, append-nil, arith, ◌==◌, length, set, replicate,
  length-append, length-replicate, length-set, done, fault, u32, lt→ltb, le→ltb_false,
}
use io_uring_example.Kernel.{Sys}
use io_uring_example.Reader.{Iovc}
use io_uring_example.Reader.Spec.{entries, AreBlocks}
use io_uring_example.Reader.Open.{fill_iovecs, bytes_to_read}
use io_uring_example.Reader.Open.Blocks.{IsCount}

-- posix_memalign succeeds, and gives blocks of `b` bytes
abbrev pub Aligns : Sys → ℕ → Type 0
Aligns sys b = (k : ℕ) → (buf : List ℕ) × (sys.memalign k ≡ some buf) × (length buf ≡ b)

-- the bytes that a readv into the blocks asks for
abbrev pub total_size : List Iovc → ℕ
total_size [] = 0
total_size (v ∷ vs) = v.buffer_size + total_size vs

pub length-entries : (vs : List Iovc) → length (entries vs) ≡ length vs
length-entries [] = refl
length-entries (v ∷ vs) = ap suc (length-entries vs)

entries_snoc :
    (ds : List Iovc) (v : Iovc) (xs : List (Option Iovc))
    → entries (ds ++ v ∷ []) ++ xs ≡ entries ds ++ some v ∷ xs
entries_snoc [] v xs = refl
entries_snoc (d ∷ ds) v xs = ap (λ t. some d ∷ t) (entries_snoc ds v xs)

-- Setting the first entry that is not yet set.
set-entries :
    (ds : List Iovc) (v : Iovc) (r : ℕ)
    → set (entries ds ++ replicate (suc r) none) (length ds) (some v)
      ≡ entries (ds ++ v ∷ []) ++ replicate r none
set-entries [] v r = refl
set-entries (d ∷ ds) v r = ap (λ t. some d ∷ t) (set-entries ds v r)

bytes_bounds :
    (b n : ℕ)
    → 0 < b
    → 0 < n
    → (0 < bytes_to_read b n) × (bytes_to_read b n ≤ n) × (bytes_to_read b n ≤ b)
bytes_bounds b n h k = ground arith

-- One block less for what remains after a round.
IsCount-next : (b r n : ℕ) → 0 < b → IsCount b (suc r) n → IsCount b r (n - bytes_to_read b n)
IsCount-next b r n h c = ground arith

IsCount-pos : (b r n : ℕ) → IsCount b (suc r) n → 0 < n
IsCount-pos b r n c = omega arith

-- the entry that a round sets
abbrev block_entry : ℕ → List ℕ → ℕ → Iovc
block_entry b buf n = record { buffer = buf; buffer_size = bytes_to_read b n }

fill_round :
    (fuel : ℕ) (sys : Sys) (b : ℕ) (iovecs : List (Option Iovc)) (k n : ℕ) (buf : List ℕ)
    → 0 < n
    → k < length iovecs
    → sys.memalign k ≡ some buf
    → fill_iovecs (suc fuel) sys b iovecs k n
      ≡ fill_iovecs fuel sys b
          (set iovecs k (some (block_entry b buf n)))
          (u32 (k + 1))
          (n - bytes_to_read b n)
unfolding fill_iovecs
fill_round fuel sys b iovecs k n buf some_left room got =
    let nonzero : (n == 0) ≡ false = ground arith in
    rw (nonzero, fill_iovecs) (rw (lt→ltb _ _ room, got))

fill_past_end :
    (fuel : ℕ) (sys : Sys) (b : ℕ) (iovecs : List (Option Iovc)) (k n : ℕ)
    → 0 < n
    → length iovecs ≤ k
    → fill_iovecs (suc fuel) sys b iovecs k n ≡ fault
unfolding fill_iovecs
fill_past_end fuel sys b iovecs k n some_left full =
    let nonzero : (n == 0) ≡ false = ground arith in
    rw (nonzero, fill_iovecs) (rw (le→ltb_false _ _ full))

length-slots : (ds : List Iovc) (r : ℕ) → length (entries ds ++ replicate r none) ≡ length ds + r
length-slots ds r =
    length-append (entries ds) (replicate r none)
    ∙ ap₂ ◌+◌ (length-entries ds) (length-replicate {A = Option Iovc} r none)

module _ (sys : Sys) (b : ℕ) (size_pos : 0 < b) (aligns : Aligns sys b) where
  -- what the loop makes of an array whose first entries are `ds`
  abbrev Fills : ℕ → List Iovc → ℕ → ℕ → Type 0
  Fills fuel ds r remaining =
      (vs : List Iovc) × (fill_iovecs fuel sys b (entries ds ++ replicate r none) (length ds)
          remaining
        ≡ done (some (entries (ds ++ vs))))
      × (length vs ≡ r)
      × AreBlocks b vs
      × (total_size vs ≡ remaining)
      × All (λ v. v.buffer_size ≤ length v.buffer) vs

  Fills-round :
      (fuel : ℕ) (ds : List Iovc) (r n : ℕ) (buf : List ℕ)
      → IsCount b (suc r) n
      → length ds + suc r < 2 ^ 32
      → sys.memalign (length ds) ≡ some buf
      → length buf ≡ b
      → Fills fuel (ds ++ block_entry b buf n ∷ []) r (n - bytes_to_read b n)
      → Fills (suc fuel) ds (suc r) n
  Fills-round fuel ds r n buf c small got size (vs, run, len, blocks, total, fit) =
      let v = block_entry b buf n in
      let place : u32 (length ds + 1) ≡ length (ds ++ v ∷ []) =
        omega (arith, length-append ds (v ∷ [])) in
      let (some_bytes, le_left, le_block) = bytes_bounds b n size_pos (IsCount-pos b r n c) in
      (
        v ∷ vs,
        fill_round fuel sys b (entries ds ++ replicate (suc r) none) (length ds) n buf
              (IsCount-pos b r n c) (omega (arith, length-slots ds (suc r))) got
            ∙ rw (set-entries ds v r, place) (rw (append_assoc ds (v ∷ []) vs) at run),
        ap suc len,
        (size, some_bytes, blocks),
        omega (arith, total),
        (omega arith, fit),
      )

  pub fill_iovecs-Fills :
      (fuel : ℕ) (ds : List Iovc) (r remaining : ℕ)
      → IsCount b r remaining
      → remaining < fuel
      → length ds + r < 2 ^ 32
      → Fills fuel ds r remaining
  unfolding fill_iovecs
  fill_iovecs-Fills zero ds r n c hf small = absurd (omega arith)
  fill_iovecs-Fills (suc fuel) ds zero n c hf small =
      let e : n ≡ 0 = omega arith in
      ([], rw (e, append-nil (entries ds), append-nil ds), refl, tt, sym e, tt)
  fill_iovecs-Fills (suc fuel) ds (suc r) n c hf small =
      let (buf, got, size) = aligns (length ds) in
      let (some_bytes, le_left, le_block) = bytes_bounds b n size_pos (IsCount-pos b r n c) in
      Fills-round fuel ds r n buf c small got size (
        fill_iovecs-Fills fuel (ds ++ block_entry b buf n ∷ []) r (n - bytes_to_read b n)
          (IsCount-next b r n size_pos c) (omega arith)
          (omega (arith, length-append ds (block_entry b buf n ∷ []))))

  -- Too few entries for the bytes: the loop writes past the end of the array.
  pub fill_iovecs_overflow :
      (fuel r : ℕ) (iovecs : List (Option Iovc)) (k n : ℕ)
      → k + r ≡ length iovecs
      → r * b < n
      → n < fuel
      → length iovecs < 2 ^ 32
      → fill_iovecs fuel sys b iovecs k n ≡ fault
  fill_iovecs_overflow zero r iovecs k n e short hf small = absurd (omega arith)
  fill_iovecs_overflow (suc fuel) zero iovecs k n e short hf small =
      fill_past_end fuel sys b iovecs k n (omega arith) (omega arith)
  fill_iovecs_overflow (suc fuel) (suc r) iovecs k n e short hf small =
      let (buf, got, size) = aligns k in
      let v = block_entry b buf n in
      let (some_bytes, le_left, le_block) = bytes_bounds b n size_pos (omega arith) in
      let next : u32 (k + 1) ≡ k + 1 = omega arith in
      fill_round fuel sys b iovecs k n buf (omega arith) (omega arith) got
      ∙ rw next (
          fill_iovecs_overflow fuel r (set iovecs k (some v)) (k + 1) (n - bytes_to_read b n)
            (omega (arith, length-set iovecs k (some v))) (omega arith) (omega arith)
            (omega (arith, length-set iovecs k (some v))))
