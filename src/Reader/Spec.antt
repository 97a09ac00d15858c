-- ===== src/Reader/Spec.antt =====
-- The abstract view of an open file: the bytes of its blocks in order, as one stream, and the part
-- of it that a position has not passed.
use io_uring_example.Base.{
  ℕ, zero, suc, ◌+◌, ◌≤◌, ◌<◌, ◌^◌, ◌≡◌, refl, sym, ap, ◌∙◌, ◌⊎◌, inl, inr, Option, some, List, [],
  ◌∷◌, ◌++◌, arith, length, get_elem?, take, drop, flatten, length-append, length-drop,
  take-append_le, drop-append_le, drop-drop, drop-length, drop_of_get_elem?,
}
use io_uring_example.Reader.{Iovc, FileInfo, World}

abbrev pub buffers : List Iovc → List (List ℕ)
buffers [] = []
buffers (v ∷ vs) = v.buffer ∷ buffers vs

-- an array of which every entry is set
abbrev pub entries : List Iovc → List (Option Iovc)
entries [] = []
entries (v ∷ vs) = some v ∷ entries vs

-- the bytes from an offset in a block on
abbrev pub unread : List Iovc → ℕ → ℕ → List ℕ
unread vs index offset = drop offset (flatten (buffers (drop index vs)))

-- A block has its full size, and a buffer_size that is not 0.
abbrev pub AreBlocks : ℕ → List Iovc → Type 0
AreBlocks b [] = Unit
AreBlocks b (v ∷ vs) = (length v.buffer ≡ b) × (0 < v.buffer_size) × AreBlocks b vs

-- The memory holds a file_info at `addr` whose entries are `vs`; all sizes fit an int.
pub record Holds (b : ℕ) (vs : List Iovc) (addr : ℕ) (w : World) : Type 0 where
  pub fi : FileInfo
  pub stored : w.file_info addr ≡ some fi
  pub filled : fi.iovecs ≡ entries vs
  pub blocks : AreBlocks b vs
  pub size_pos : 0 < b
  pub size_small : b < 2 ^ 31
  pub few : length vs < 2 ^ 31

pub get_elem?-entries :
    (vs : List Iovc) (i : ℕ) (v : Iovc)
    → get_elem? vs i ≡ some v
    → get_elem? (entries vs) i ≡ some (some v)
get_elem?-entries [] i v e = cc
get_elem?-entries (x ∷ vs) zero v e = ap some e
get_elem?-entries (x ∷ vs) (suc i) v e = get_elem?-entries vs i v e

pub get_elem?-AreBlocks :
    (b : ℕ) (vs : List Iovc) (i : ℕ) (v : Iovc)
    → AreBlocks b vs
    → get_elem? vs i ≡ some v
    → (length v.buffer ≡ b) × (0 < v.buffer_size)
get_elem?-AreBlocks b [] i v h e = cc
get_elem?-AreBlocks b (x ∷ vs) zero v h e = ground arith
get_elem?-AreBlocks b (x ∷ vs) (suc i) v h e = get_elem?-AreBlocks b vs i v h.2 e

pub unread-split :
    (vs : List Iovc) (i o : ℕ) (v : Iovc)
    → get_elem? vs i ≡ some v
    → o ≤ length v.buffer
    → unread vs i o ≡ drop o v.buffer ++ unread vs (suc i) 0
unread-split vs i o v e h =
    rw (drop_of_get_elem? vs i v e) (drop-append_le o v.buffer (unread vs (suc i) 0) h)

-- The end of a block is the start of the next.
pub unread-next :
    (vs : List Iovc) (i o : ℕ) (v : Iovc)
    → get_elem? vs i ≡ some v
    → o ≡ length v.buffer
    → unread vs (suc i) 0 ≡ unread vs i o
unread-next vs i o v e h =
    rw (unread-split vs i o v e (omega arith), drop-length o v.buffer (omega arith)) refl

pub unread-end : (vs : List Iovc) (i : ℕ) → length vs ≤ i → unread vs i 0 ≡ []
unread-end vs i h = rw (drop-length i vs h)

-- What is left of a block is the beginning of what is unread.
pub take-unread :
    (vs : List Iovc) (i o m : ℕ) (v : Iovc)
    → get_elem? vs i ≡ some v
    → o + m ≤ length v.buffer
    → take m (drop o v.buffer) ≡ take m (unread vs i o)
take-unread vs i o m v e h = rw (unread-split vs i o v e (omega arith)) (
    sym (
      take-append_le m (drop o v.buffer) (unread vs (suc i) 0)
        (omega (arith, length-drop o v.buffer))))

pub length-unread_ge :
    (vs : List Iovc) (i o m : ℕ) (v : Iovc)
    → get_elem? vs i ≡ some v
    → o + m ≤ length v.buffer
    → m ≤ length (unread vs i o)
length-unread_ge vs i o m v e h =
    rw
      (
        unread-split vs i o v e (omega arith),
        length-append (drop o v.buffer) (unread vs (suc i) 0),
        length-drop o v.buffer,
      )
      (omega arith)

-- Passing `m` bytes of a block, to a place inside it or to the start of the next.
pub unread_after :
    (vs : List Iovc) (i o m j p : ℕ) (v : Iovc)
    → get_elem? vs i ≡ some v
    → ((j ≡ i) × (p ≡ o + m)) ⊎ ((j ≡ i + 1) × (p ≡ 0) × (o + m ≡ length v.buffer))
    → unread vs j p ≡ drop m (unread vs i o)
unread_after vs i o m j p v e (inl h) =
    rw (h.0, h.1) (sym (drop-drop o m (o + m) (flatten (buffers (drop i vs))) refl))
unread_after vs i o m j p v e (inr h) =
    let k : j ≡ suc i = omega arith in
    rw (k, h.1)
      (unread-next vs i (o + m) v e h.2
        ∙ sym (drop-drop o m (o + m) (flatten (buffers (drop i vs))) refl))
