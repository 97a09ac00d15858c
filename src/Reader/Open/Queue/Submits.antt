-- ===== src/Reader/Open/Queue/Submits.antt =====
-- One submission on the ring of example/io_uring_read.c: the queue after it.
use io_uring_example.Base.{
  ℕ, suc, ◌+◌, ◌*◌, ◌%◌, ◌^◌, ◌<◌, ◌≡◌, ◌≢◌, sym, ap, ap₂, ◌∙◌, [], ◌∷◌, ◌++◌, Bool-cases, ltb,
  ltb→lt, ltb_false→le, inl, inr, arith, ℤ,
}
use native.Mathlib.Nat.{add-mod_right}
use io_uring_example.Kernel.{sizeof_unsigned, sizeof_sqe}
use io_uring_example.Reader.{Submitter, World}
use io_uring_example.Reader.Open.{sq_index, submit_readv}
use io_uring_example.Reader.Open.Submit.{Submitted, submit_readv-Submitted}
use io_uring_example.Reader.Open.Queue.{
  request_of, readv, IsApart, entry, window, count, pending, IsListed, IsRing, window_same,
  window-append, few_places, sq_index_lem, other_place,
}

module _ (s : Submitter) (k : ℕ) (w : World) (r : IsRing s k w) (a : IsApart s) (fd : ℤ)
    (addr len user_data : ℕ) where
  abbrev after : World
  after = submit_readv w s fd addr len user_data

  stores : Submitted w s fd addr len user_data after
  stores =
      submit_readv-Submitted w s fd addr len user_data (let t = a.tail_before in omega arith)
        r.tail_word

  head_after : after.word s.sq_ring.head ≡ w.word s.sq_ring.head
  head_after = stores.other_words s.sq_ring.head (let t = a.head_before in omega arith) a.head_tail

  mask_after : after.word s.sq_ring.ring_mask ≡ w.word s.sq_ring.ring_mask
  mask_after =
      stores.other_words s.sq_ring.ring_mask (let t = a.mask_before in omega arith) a.mask_tail

  count_after : count s k after ≡ count s k w + 1
  count_after =
      let h = r.head_word in
      let t = r.tail_word in
      let places = few_places s k r.size in omega (arith, head_after, stores.advanced)

  array_after :
      (j : ℕ)
      → j ≢ sq_index w s.sq_ring
      → after.word (s.sq_ring.array + j * sizeof_unsigned)
        ≡ w.word (s.sq_ring.array + j * sizeof_unsigned)
  array_after j other =
      let t = a.tail_before in
      stores.other_words (s.sq_ring.array + j * sizeof_unsigned) (omega arith) (omega arith)

  after-IsListed :
      count s k w < 2 ^ k
      → (i : ℕ) → i < count s k after
      → IsListed s k after (after.word s.sq_ring.head + i)
  after-IsListed room i lt =
      let h = w.word s.sq_ring.head in
      let same : after.word s.sq_ring.head + i ≡ h + i = omega (arith, head_after) in
      rw same (elim (Bool-cases (ltb i (count s k w))) [
        | inl old ↦
            let below = ltb→lt i (count s k w) old in
            array_after ((h + i) % 2 ^ k) (other_place s k w i r room below) ∙ r.listed i below
        | inr new ↦
            let above = ltb_false→le i (count s k w) new in
            let e : i ≡ count s k w = omega (arith, count_after) in
            rw (e, sym (sq_index_lem s k w r)) stores.listed
      ])

  new_entry : entry s k after (w.word s.sq_ring.head + count s k w) ≡ readv fd addr len user_data
  new_entry =
      ap
        (λ (j : ℕ).
          request_of
            (after.sqe (s.sqes + after.word (s.sq_ring.array + j * sizeof_unsigned) * sizeof_sqe)))
        (sym (sq_index_lem s k w r))
      ∙ ap (λ (j : ℕ). request_of (after.sqe (s.sqes + j * sizeof_sqe))) stores.listed
      ∙ ap request_of stores.slot

  old_entry :
      count s k w < 2 ^ k
      → (i : ℕ) → i < count s k w
      → entry s k after (w.word s.sq_ring.head + i) ≡ entry s k w (w.word s.sq_ring.head + i)
  old_entry room i lt =
      let p = (w.word s.sq_ring.head + i) % 2 ^ k in
      let other = other_place s k w i r room lt in
      ap (λ (j : ℕ). request_of (after.sqe (s.sqes + j * sizeof_sqe)))
        (array_after p other ∙ r.listed i lt)
      ∙ ap request_of (stores.other_slots (s.sqes + p * sizeof_sqe) (omega arith))
      ∙ sym (ap (λ (j : ℕ). request_of (w.sqe (s.sqes + j * sizeof_sqe))) (r.listed i lt))

  pub submit_readv-IsRing : count s k w < 2 ^ k → IsRing s k after
  submit_readv-IsRing room = record {
    size = r.size;
    mask = mask_after ∙ r.mask;
    head_word = rw head_after r.head_word;
    tail_word = omega (arith, stores.advanced);
    bound = rw count_after (omega arith);
    listed = after-IsListed room;
  }

  pub pending-submit_readv :
      count s k w < 2 ^ k → pending s k after ≡ pending s k w ++ readv fd addr len user_data ∷ []
  pending-submit_readv room =
      let h = w.word s.sq_ring.head in
      let n : count s k w + 1 ≡ suc (count s k w) = omega arith in
      ap₂ (window s k after) head_after (count_after ∙ n)
      ∙ window-append s k after h (count s k w)
      ∙ ap₂ ◌++◌ (window_same s k w after h h (count s k w) (old_entry room))
          (ap (λ q. q ∷ []) new_entry)

  -- The code does not ask whether there is room. On a full ring the new request takes the place of the
  -- oldest, which the kernel then never sees, and the tail is one more than the ring's size ahead.
  pub submit_readv_full :
      count s k w ≡ 2 ^ k
      → (entry s k after (after.word s.sq_ring.head) ≡ readv fd addr len user_data)
        × (count s k after ≡ 2 ^ k + 1)
  submit_readv_full full =
      let round : (w.word s.sq_ring.head + count s k w) % 2 ^ k ≡ w.word s.sq_ring.head % 2 ^ k =
        ap (λ n. (w.word s.sq_ring.head + n) % 2 ^ k) full
        ∙ add-mod_right (w.word s.sq_ring.head) (2 ^ k) in
      (
        ap (entry s k after) head_after
            ∙ ap
                (λ (j : ℕ). request_of (
                  after.sqe
                    (s.sqes + after.word (s.sq_ring.array + j * sizeof_unsigned) * sizeof_sqe)))
                (sym round)
            ∙ new_entry,
        omega (arith, count_after),
      )
