-- ===== src/Posix.antt =====
-- The calls of libc that act on files and memory, for the programs that read with read(2) or stdio:
-- the calls themselves, which the programs take as they are, and the documented behaviour that the
-- theorems rely on.
use io_uring_example.Base.{
  ℕ, ◌+◌, ◌≤◌, ◌<◌, ◌≡◌, Option, none, some, List, [], ◌∷◌, take, drop, length, ℤ, pos, negsuc,
}

-- `M` is the state of the machine outside the program.
pub record Posix (M : Type 0) : Type 0 where
  pub malloc : ℕ → M → Option ℕ × M
  pub free : ℕ → M → M
  -- open(name, O_RDONLY)
  pub open_file : List ℕ → M → ℤ × M
  pub close : ℤ → M → M
  -- read(fd, ptr, n): the result, and the bytes stored from ptr on
  pub read : ℤ → ℕ → M → ℤ × List ℕ × M

module _ {M : Type 0} (posix : Posix M) where
  -- read(2) of a file with these bytes: a part of what is left, not empty before the end
  pub record Reads (content : List ℕ) (fd : ℤ) : Type 0 where
    pub position : M → ℕ
    pub some_bytes :
        (n : ℕ) (m : M)
        → 0 < n
        → position m < length content
        → (r : ℕ) × (m' : M) × (posix.read fd n m ≡ (pos r, take r (drop (position m) content), m'))
          × (0 < r)
          × (r ≤ n)
          × (position m' ≡ position m + r)
          × (position m' ≤ length content)
    pub at_end : (n : ℕ) (m : M) → position m ≡ length content → posix.read fd n m ≡ (pos 0, [], m)

  -- what a program holds: its open descriptors and its allocations, the last one first
  pub record Counts : Type 0 where
    pub descriptors : M → List ℤ
    pub blocks : M → List ℕ
    pub malloc_some :
        (n a : ℕ) (m m' : M)
        → posix.malloc n m ≡ (some a, m')
        → (blocks m' ≡ a ∷ blocks m) × (descriptors m' ≡ descriptors m)
    pub malloc_none :
        (n : ℕ) (m m' : M)
        → posix.malloc n m ≡ (none, m')
        → (blocks m' ≡ blocks m) × (descriptors m' ≡ descriptors m)
    pub free_first :
        (a : ℕ) (others : List ℕ) (m : M)
        → blocks m ≡ a ∷ others
        → (blocks (posix.free a m) ≡ others) × (descriptors (posix.free a m) ≡ descriptors m)
    pub open_some :
        (name : List ℕ) (n : ℕ) (m m' : M)
        → posix.open_file name m ≡ (pos n, m')
        → (descriptors m' ≡ pos n ∷ descriptors m) × (blocks m' ≡ blocks m)
    pub open_none :
        (name : List ℕ) (n : ℕ) (m m' : M)
        → posix.open_file name m ≡ (negsuc n, m')
        → (descriptors m' ≡ descriptors m) × (blocks m' ≡ blocks m)
    -- open(2) fails with -1 and nothing else
    pub open_minus_one :
        (name : List ℕ) (n : ℕ) (m m' : M) → posix.open_file name m ≡ (negsuc n, m') → n ≡ 0
    pub close_first :
        (fd : ℤ) (fds : List ℤ) (m : M)
        → descriptors m ≡ fd ∷ fds
        → (descriptors (posix.close fd m) ≡ fds) × (blocks (posix.close fd m) ≡ blocks m)
    pub read_holds :
        (fd : ℤ) (n : ℕ) (m : M)
        → (descriptors (posix.read fd n m).2 ≡ descriptors m)
          × (blocks (posix.read fd n m).2 ≡ blocks m)
