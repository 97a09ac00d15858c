-- ===== src/Reader/Open/Queue.antt =====
-- The submission ring of example/io_uring_read.c as a queue: submit_readv of my_fopen at its tail, and
-- the kernel thread, as documented, at its head.
pub mod Submits
pub mod Requested
pub mod Order
mod Tests
use io_uring_example.Base.{
  ℕ, zero, suc, ◌+◌, ◌-◌, ◌*◌, ◌%◌, ◌^◌, ◌≤◌, ◌<◌, ◌≡◌, ◌≢◌, refl, sym, ap, ap₂, ◌∙◌, List, [], ◌∷◌,
  ◌++◌, append_assoc, append-nil, length, bit_and, Bool-cases, ltb, ltb→lt, ltb_false→le, inl, inr,
  arith, u32, ℤ,
}
use io_uring_example.Base.Bits.{bit_and-mask, mod-mod_pow, add-mod_ne}
use native.Mathlib.Nat.{pow-le-pow_right, one-le-pow, mod-lt, mod-add-mod}
use io_uring_example.Kernel.{Sqe, sizeof_unsigned, sizeof_sqe, op_readv}
use io_uring_example.Reader.{Submitter, World}
use io_uring_example.Reader.Open.{sq_index, slot_address, submit_readv}
use io_uring_example.Reader.Open.Submit.{Submitted, array_address, submit_readv-Submitted}

-- a request, as the program means it
pub record Request : Type 0 where
  pub opcode : ℕ
  pub flags : ℕ
  pub fd : ℤ
  pub addr : ℕ
  pub len : ℕ
  pub off : ℕ
  pub user_data : ℕ

abbrev pub request_of : Sqe → Request
request_of sqe = record {
  opcode = sqe.opcode;
  flags = sqe.flags;
  fd = sqe.fd;
  addr = sqe.addr;
  len = sqe.len;
  off = sqe.off;
  user_data = sqe.user_data;
}

-- a readv of `len` iovecs from the start of a file
abbrev pub readv : ℤ → ℕ → ℕ → ℕ → Request
readv fd addr len user_data = record {
  opcode = op_readv;
  flags = 0;
  fd = fd;
  addr = addr;
  len = len;
  off = 0;
  user_data = user_data;
}

-- The words that the two sides move or read lie before the index array.
pub record IsApart (s : Submitter) : Type 0 where
  pub head_before : s.sq_ring.head < s.sq_ring.array
  pub tail_before : s.sq_ring.tail < s.sq_ring.array
  pub mask_before : s.sq_ring.ring_mask < s.sq_ring.array
  pub head_tail : s.sq_ring.head ≢ s.sq_ring.tail
  pub mask_tail : s.sq_ring.ring_mask ≢ s.sq_ring.tail

module _ (s : Submitter) (k : ℕ) where
  -- the request that the kernel finds where the head is `h`, through the index array
  abbrev pub entry : World → ℕ → Request
  entry w h =
      request_of
        (w.sqe (s.sqes + w.word (s.sq_ring.array + h % 2 ^ k * sizeof_unsigned) * sizeof_sqe))

  abbrev pub window : World → ℕ → ℕ → List Request
  window w h zero = []
  window w h (suc n) = entry w h ∷ window w (h + 1) n

  -- the number of requests on the ring
  abbrev pub count : World → ℕ
  count w = u32 (2 ^ 32 + w.word s.sq_ring.tail - w.word s.sq_ring.head)

  -- the requests on the ring, the oldest first
  abbrev pub pending : World → List Request
  pending w = window w (w.word s.sq_ring.head) (count w)

  -- The index array names, for the place `h`, the slot of that place.
  abbrev pub IsListed : World → ℕ → Type 0
  IsListed w h = w.word (s.sq_ring.array + h % 2 ^ k * sizeof_unsigned) ≡ h % 2 ^ k

  -- A ring of 2 ^ k entries, with no more than that many requests on it.
  pub record IsRing (w : World) : Type 0 where
    pub size : k ≤ 31
    pub mask : w.word s.sq_ring.ring_mask ≡ 2 ^ k - 1
    pub head_word : w.word s.sq_ring.head < 2 ^ 32
    pub tail_word : w.word s.sq_ring.tail < 2 ^ 32
    pub bound : count w ≤ 2 ^ k
    pub listed : (i : ℕ) → i < count w → IsListed w (w.word s.sq_ring.head + i)

  -- The kernel takes the oldest request: it moves the head, and leaves the entries, the index array, the
  -- tail and the mask alone.
  pub record Takes (w w' : World) : Type 0 where
    pub some_request : w.word s.sq_ring.head ≢ w.word s.sq_ring.tail
    pub advanced : w'.word s.sq_ring.head ≡ u32 (w.word s.sq_ring.head + 1)
    pub same_tail : w'.word s.sq_ring.tail ≡ w.word s.sq_ring.tail
    pub same_mask : w'.word s.sq_ring.ring_mask ≡ w.word s.sq_ring.ring_mask
    pub same_array :
        (i : ℕ)
        → i < 2 ^ k
        → w'.word (s.sq_ring.array + i * sizeof_unsigned)
          ≡ w.word (s.sq_ring.array + i * sizeof_unsigned)
    pub same_entries : w'.sqe ≡ w.sqe

  -- What has been put on the ring and what the kernel has taken, from `w0` on, in any order of the two.
  pub data Steps (w0 : World) : List Request → List Request → World → Type 0 where
    start : Steps w0 [] [] w0
    submits :
        {sent taken : List Request} {w : World}
        → Steps w0 sent taken w
        → (fd : ℤ) (addr len user_data : ℕ) → count w < 2 ^ k
        → Steps w0
            (sent ++ readv fd addr len user_data ∷ [])
            taken
            (submit_readv w s fd addr len user_data)
    takes :
        {sent taken : List Request} {w : World}
        → Steps w0 sent taken w
        → (w' : World) → Takes w w'
        → Steps w0 sent (taken ++ entry w (w.word s.sq_ring.head) ∷ []) w'

  -- windows with the same entries
  pub window_same :
      (w w' : World) (h h' n : ℕ)
      → ((i : ℕ) → i < n → entry w' (h' + i) ≡ entry w (h + i))
      → window w' h' n ≡ window w h n
  window_same w w' h h' zero same = refl
  window_same w w' h h' (suc n) same =
      let here : h + 0 ≡ h = omega arith in
      let here' : h' + 0 ≡ h' = omega arith in
      ap₂ ◌∷◌ (sym (ap (entry w') here') ∙ same 0 (omega arith) ∙ ap (entry w) here) (
        window_same w w' (h + 1) (h' + 1) n (λ i lt.
          let there : h + suc i ≡ h + 1 + i = omega arith in
          let there' : h' + suc i ≡ h' + 1 + i = omega arith in
          sym (ap (entry w') there') ∙ same (suc i) (omega arith) ∙ ap (entry w) there))

  pub window-append :
      (w : World) (h n : ℕ) → window w h (suc n) ≡ window w h n ++ entry w (h + n) ∷ []
  window-append w h zero = let e : h + 0 ≡ h = omega arith in rw e
  window-append w h (suc n) =
      let e : h + suc n ≡ h + 1 + n = omega arith in
      rw e (ap (λ t. entry w h ∷ t) (window-append w (h + 1) n))

  -- the place after the wrap-around of the counter
  pub wrapped : (h i : ℕ) → k ≤ 31 → (u32 h + i) % 2 ^ k ≡ (h + i) % 2 ^ k
  wrapped h i size =
      sym (mod-add-mod (u32 h) (2 ^ k) i)
      ∙ ap (λ t. (t + i) % 2 ^ k) (mod-mod_pow k 32 h (omega arith))
      ∙ mod-add-mod h (2 ^ k) i

  pub few_places : k ≤ 31 → 2 ^ k ≤ 2 ^ 31
  few_places size = pow-le-pow_right {n = 2} (omega arith) size

  tail_count :
      (w : World) → IsRing w → w.word s.sq_ring.tail ≡ u32 (w.word s.sq_ring.head + count w)
  tail_count w r = let h = r.head_word in let t = r.tail_word in omega arith

  -- the slot at the tail, which is behind the requests on the ring
  pub sq_index_lem :
      (w : World) → IsRing w → sq_index w s.sq_ring ≡ (w.word s.sq_ring.head + count w) % 2 ^ k
  sq_index_lem w r =
      ap (bit_and (w.word s.sq_ring.tail)) r.mask
      ∙ bit_and-mask k (w.word s.sq_ring.tail)
      ∙ ap (λ t. t % 2 ^ k) (tail_count w r)
      ∙ mod-mod_pow k 32 (w.word s.sq_ring.head + count w) (let size = r.size in omega arith)

  pub other_place :
      (w : World) (i : ℕ)
      → IsRing w
      → count w < 2 ^ k
      → i < count w
      → (w.word s.sq_ring.head + i) % 2 ^ k ≢ sq_index w s.sq_ring
  other_place w i r room lt same =
      let e : w.word s.sq_ring.head + i + (count w - i) ≡ w.word s.sq_ring.head + count w =
        omega arith in
      add-mod_ne (w.word s.sq_ring.head + i) (count w - i) (2 ^ k) (omega arith) (omega arith)
        (ap (λ t. t % 2 ^ k) e ∙ sym (sq_index_lem w r) ∙ sym same)
