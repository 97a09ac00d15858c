-- ===== src/Reader/Open/Queue/Order.antt =====
-- Submissions and the kernel's takes, in any order, on the ring of example/io_uring_read.c.
use io_uring_example.Base.{
  ℕ, suc, ◌+◌, ◌*◌, ◌%◌, ◌^◌, ◌≡◌, sym, ap, ◌∙◌, List, [], ◌∷◌, ◌++◌, append_assoc, arith,
}
use native.Mathlib.Nat.{mod-lt, one-le-pow}
use io_uring_example.Kernel.{sizeof_unsigned, sizeof_sqe}
use io_uring_example.Reader.{Submitter, World}
use io_uring_example.Reader.Open.Queue.{
  Request, request_of, readv, IsApart, entry, window, count, pending, IsRing, Takes, Steps, start,
  submits, takes, window_same, wrapped,
}
use io_uring_example.Reader.Open.Queue.Submits.{submit_readv-IsRing, pending-submit_readv}

module _ (s : Submitter) (k : ℕ) where
  module _ (w w' : World) (r : IsRing s k w) (t : Takes s k w w') where
    count_taken : count s k w ≡ suc (count s k w')
    count_taken =
        let h = r.head_word in
        let b = r.tail_word in
        let some_request = t.some_request in omega (arith, t.advanced, t.same_tail)

    place_taken :
        (i : ℕ) → (w'.word s.sq_ring.head + i) % 2 ^ k ≡ (w.word s.sq_ring.head + 1 + i) % 2 ^ k
    place_taken i =
        ap (λ h. (h + i) % 2 ^ k) t.advanced ∙ wrapped s k (w.word s.sq_ring.head + 1) i r.size

    array_taken :
        (h : ℕ)
        → w'.word (s.sq_ring.array + h % 2 ^ k * sizeof_unsigned)
          ≡ w.word (s.sq_ring.array + h % 2 ^ k * sizeof_unsigned)
    array_taken h = t.same_array (h % 2 ^ k) (mod-lt h (omega (arith, one-le-pow k 2)))

    entry_taken :
        (i : ℕ)
        → entry s k w' (w'.word s.sq_ring.head + i) ≡ entry s k w (w.word s.sq_ring.head + 1 + i)
    entry_taken i =
        ap
          (λ (j : ℕ).
            request_of
              (w'.sqe (s.sqes + w'.word (s.sq_ring.array + j * sizeof_unsigned) * sizeof_sqe)))
          (place_taken i)
        ∙ ap (λ (j : ℕ). request_of (w'.sqe (s.sqes + j * sizeof_sqe)))
            (array_taken (w.word s.sq_ring.head + 1 + i))
        ∙ ap
            (λ (f : ℕ → _). request_of (
              f (
                s.sqes
                + w.word
                    (s.sq_ring.array + (w.word s.sq_ring.head + 1 + i) % 2 ^ k * sizeof_unsigned)
                  * sizeof_sqe)))
            t.same_entries

    pending_taken : pending s k w ≡ entry s k w (w.word s.sq_ring.head) ∷ pending s k w'
    pending_taken =
        ap (window s k w (w.word s.sq_ring.head)) count_taken
        ∙ ap (λ q. entry s k w (w.word s.sq_ring.head) ∷ q)
            (sym (
              window_same s k w w' (w.word s.sq_ring.head + 1) (w'.word s.sq_ring.head)
                (count s k w') (λ i lt. entry_taken i)))

    Takes-IsRing : IsRing s k w'
    Takes-IsRing = record {
      size = r.size;
      mask = t.same_mask ∙ r.mask;
      head_word = omega (arith, t.advanced);
      tail_word = let b = r.tail_word in omega (arith, t.same_tail);
      bound = let b = r.bound in omega (arith, count_taken);
      listed = λ i lt.
          let e : w.word s.sq_ring.head + 1 + i ≡ w.word s.sq_ring.head + suc i = omega arith in
          rw (place_taken i) (
            array_taken (w.word s.sq_ring.head + 1 + i)
            ∙ rw e (r.listed (suc i) (omega (arith, count_taken))));
    }

  -- On a ring of 2 ^ k entries that is empty at first, with submissions where there is room and takes by
  -- the kernel where there is a request, in any order: the kernel has taken the requests in the order in
  -- which they were put, each of them once; those that it has not taken are on the ring in that
  -- order, through all wrap-arounds of the slots and of the 32-bit counters; and there are at most
  -- 2 ^ k of them.
  pub Steps-pending :
      {w0 : World} {sent taken : List Request} {w : World}
      → Steps s k w0 sent taken w
      → IsApart s
      → IsRing s k w0
      → count s k w0 ≡ 0
      → IsRing s k w × (sent ≡ taken ++ pending s k w)
  Steps-pending {w0} start a r empty = (r, rw empty)
  Steps-pending (submits {sent} {taken} {w} before fd addr len user_data room) a r empty =
      let (ring, same) = Steps-pending before a r empty in
      (
        submit_readv-IsRing s k w ring a fd addr len user_data room,
        ap (λ q. q ++ readv fd addr len user_data ∷ []) same
            ∙ append_assoc taken (pending s k w) (readv fd addr len user_data ∷ [])
            ∙ ap (λ q. taken ++ q)
                (sym (pending-submit_readv s k w ring a fd addr len user_data room)),
      )
  Steps-pending (takes {sent} {taken} {w} before w' t) a r empty =
      let (ring, same) = Steps-pending before a r empty in
      (
        Takes-IsRing w w' ring t,
        same
            ∙ ap (λ q. taken ++ q) (pending_taken w w' ring t)
            ∙ sym (append_assoc taken (entry s k w (w.word s.sq_ring.head) ∷ []) (pending s k w')),
      )
