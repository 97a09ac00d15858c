-- ===== src/Reader/Setup/Mapped.antt =====
-- app_setup_uring of example/io_uring_read.c: every pointer that it stores lies inside a mapping that
-- it made, also where one mapping serves both rings.
use io_uring_example.Base.{
  ℕ, ◌+◌, ◌*◌, ◌≤◌, ◌<◌, ◌^◌, ◌≡◌, ap, ◌⊎◌, inl, inr, true, some, arith, if◌then◌else◌, ℤ, to_int,
  to_size, u64, Bool-cases,
}
use io_uring_example.Kernel.{
  Params, SqOffsets, CqOffsets, Sys, sizeof_unsigned, sizeof_cqe, sizeof_sqe, off_sq_ring,
  off_cq_ring, off_sqes,
}
use io_uring_example.Reader.{AppIoSqRing, AppIoCqRing, Submitter}
use io_uring_example.Reader.Setup.{
  sring_sz, cring_sz, single_mmap, sq_map_sz, cq_map_sz, sq_pointers, cq_pointers, map_rings,
}

-- `len` bytes at `addr` lie inside the `size` bytes at `base`
abbrev pub Inside : ℕ → ℕ → ℕ → ℕ → Type 0
Inside base size addr len = (base ≤ addr) × (addr + len ≤ base + size)

-- What io_uring_setup(2) documents of the offsets that it returns: each word and each array lies in
-- the bytes of its ring, which end behind the array, and the sizes fit an int.
pub record IsLaidOut (p : Params) : Type 0 where
  pub sq_small : p.sq_off.array + p.sq_entries * sizeof_unsigned < 2 ^ 31
  pub cq_small : p.cq_off.cqes + p.cq_entries * sizeof_cqe < 2 ^ 31
  pub sq_head : p.sq_off.head + 4 ≤ p.sq_off.array
  pub sq_tail : p.sq_off.tail + 4 ≤ p.sq_off.array
  pub sq_mask : p.sq_off.ring_mask + 4 ≤ p.sq_off.array
  pub sq_entries : p.sq_off.ring_entries + 4 ≤ p.sq_off.array
  pub sq_flags : p.sq_off.flags + 4 ≤ p.sq_off.array
  pub cq_head : p.cq_off.head + 4 ≤ p.cq_off.cqes
  pub cq_tail : p.cq_off.tail + 4 ≤ p.cq_off.cqes
  pub cq_mask : p.cq_off.ring_mask + 4 ≤ p.cq_off.cqes
  pub cq_entries : p.cq_off.ring_entries + 4 ≤ p.cq_off.cqes

pub record SqInside (base size n : ℕ) (r : AppIoSqRing) : Type 0 where
  pub head : Inside base size r.head 4
  pub tail : Inside base size r.tail 4
  pub ring_mask : Inside base size r.ring_mask 4
  pub ring_entries : Inside base size r.ring_entries 4
  pub flags : Inside base size r.flags 4
  pub array : Inside base size r.array (n * 4)

pub record CqInside (base size n : ℕ) (r : AppIoCqRing) : Type 0 where
  pub head : Inside base size r.head 4
  pub tail : Inside base size r.tail 4
  pub ring_mask : Inside base size r.ring_mask 4
  pub ring_entries : Inside base size r.ring_entries 4
  pub cqes : Inside base size r.cqes (n * 16)

-- the mappings behind a submitter
pub record IsMapped (sys : Sys) (fd : ℤ) (p : Params) (s : Submitter) : Type 0 where
  pub sq_base : ℕ
  pub cq_base : ℕ
  pub sq_size : ℕ
  pub cq_size : ℕ
  pub sq_map : sys.mmap sq_size fd off_sq_ring ≡ some sq_base
  pub cq_map :
      ((cq_base ≡ sq_base) × (cq_size ≡ sq_size)) ⊎ (sys.mmap cq_size fd off_cq_ring ≡ some cq_base)
  pub sqes_map : sys.mmap (u64 (p.sq_entries * sizeof_sqe)) fd off_sqes ≡ some s.sqes
  pub sq_in : SqInside sq_base sq_size p.sq_entries s.sq_ring
  pub cq_in : CqInside cq_base cq_size p.cq_entries s.cq_ring
  pub descriptor : s.ring_fd ≡ fd

sq_map_sz_bounds :
    (p : Params)
    → IsLaidOut p
    → p.sq_off.array + p.sq_entries * sizeof_unsigned ≤ to_size (sq_map_sz p)
unfolding sq_map_sz sring_sz cring_sz to_int to_size
sq_map_sz_bounds p l = ground arith

cq_map_sz_bounds :
    (p : Params) → IsLaidOut p → p.cq_off.cqes + p.cq_entries * sizeof_cqe ≤ to_size (cq_map_sz p)
unfolding cq_map_sz sq_map_sz sring_sz cring_sz to_int to_size
cq_map_sz_bounds p l = ground arith

cq_map_sz_single : (p : Params) → single_mmap p ≡ true → cq_map_sz p ≡ sq_map_sz p
unfolding cq_map_sz
cq_map_sz_single p e = rw e

-- the pointers that a successful run has got from the kernel
record Bases (sys : Sys) (fd : ℤ) (p : Params) (s : Submitter) : Type 0 where
  sq_ptr : ℕ
  cq_ptr : ℕ
  sqes : ℕ
  sq_map : sys.mmap (to_size (sq_map_sz p)) fd off_sq_ring ≡ some sq_ptr
  cq_map :
      (if single_mmap p then some sq_ptr else sys.mmap (to_size (cq_map_sz p)) fd off_cq_ring)
      ≡ some cq_ptr
  sqes_map : sys.mmap (u64 (p.sq_entries * sizeof_sqe)) fd off_sqes ≡ some sqes
  result : s ≡ record {
    ring_fd = fd;
    sq_ring = sq_pointers sq_ptr p.sq_off;
    sqes = sqes;
    cq_ring = cq_pointers cq_ptr p.cq_off;
  }

map_rings-Bases :
    (sys : Sys) (fd : ℤ) (p : Params) (s : Submitter)
    → map_rings sys fd p ≡ some s
    → Bases sys fd p s
unfolding map_rings
map_rings-Bases sys fd p s e = ground arith

cq_base_lem :
    (sys : Sys) (fd : ℤ) (p : Params) (s : Submitter) (k : Bases sys fd p s)
    → ((k.cq_ptr ≡ k.sq_ptr) × (to_size (cq_map_sz p) ≡ to_size (sq_map_sz p)))
      ⊎ (sys.mmap (to_size (cq_map_sz p)) fd off_cq_ring ≡ some k.cq_ptr)
cq_base_lem sys fd p s k = elim (Bool-cases (single_mmap p)) [
  | inl one ↦
      let same : some k.sq_ptr ≡ some k.cq_ptr = rw one at k.cq_map in
      inl (ground arith, rw (cq_map_sz_single p one))
  | inr two ↦ inr (rw two at k.cq_map)
]

sq_pointers-SqInside :
    (base size n : ℕ) (o : SqOffsets) (r : AppIoSqRing)
    → r ≡ sq_pointers base o
    → o.array + n * 4 ≤ size
    → o.head + 4 ≤ o.array
    → o.tail + 4 ≤ o.array
    → o.ring_mask + 4 ≤ o.array
    → o.ring_entries + 4 ≤ o.array
    → o.flags + 4 ≤ o.array
    → SqInside base size n r
sq_pointers-SqInside base size n o r e h1 h2 h3 h4 h5 h6 = rw e (omega arith)

cq_pointers-CqInside :
    (base size n : ℕ) (o : CqOffsets) (r : AppIoCqRing)
    → r ≡ cq_pointers base o
    → o.cqes + n * 16 ≤ size
    → o.head + 4 ≤ o.cqes
    → o.tail + 4 ≤ o.cqes
    → o.ring_mask + 4 ≤ o.cqes
    → o.ring_entries + 4 ≤ o.cqes
    → CqInside base size n r
cq_pointers-CqInside base size n o r e h1 h2 h3 h4 h5 = rw e (omega arith)

-- For ring offsets laid out as the kernel does (IsLaidOut), when map_rings returns a submitter, all
-- the words and arrays that it points at lie inside the mappings that it made, and the
-- submission entries are a mapping of their own.
pub map_rings-IsMapped :
    (sys : Sys) (fd : ℤ) (p : Params) (s : Submitter)
    → IsLaidOut p
    → map_rings sys fd p ≡ some s
    → IsMapped sys fd p s
map_rings-IsMapped sys fd p s l e =
    let k = map_rings-Bases sys fd p s e in
    let sq = sq_map_sz_bounds p l in
    let cq = cq_map_sz_bounds p l in
    record {
      sq_base = k.sq_ptr;
      cq_base = k.cq_ptr;
      sq_size = to_size (sq_map_sz p);
      cq_size = to_size (cq_map_sz p);
      sq_map = k.sq_map;
      cq_map = cq_base_lem sys fd p s k;
      sqes_map = rw k.result k.sqes_map;
      sq_in =
          sq_pointers-SqInside k.sq_ptr _ p.sq_entries p.sq_off s.sq_ring
            (ap (λ (t : Submitter). t.sq_ring) k.result) sq l.sq_head l.sq_tail l.sq_mask
            l.sq_entries l.sq_flags;
      cq_in =
          cq_pointers-CqInside k.cq_ptr _ p.cq_entries p.cq_off s.cq_ring
            (ap (λ (t : Submitter). t.cq_ring) k.result) cq l.cq_head l.cq_tail l.cq_mask
            l.cq_entries;
      descriptor = rw k.result;
    }
