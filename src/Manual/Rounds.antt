-- ===== src/Manual/Rounds.antt =====
-- One file through the rings of example/omp_io_uring_manual.c: from its request to the completion that
-- read_from_cq takes, after which the rings are empty again.
use io_uring_example.Base.{
  ℕ, ◌+◌, ◌-◌, ◌<◌, ◌^◌, ◌≡◌, ◌≢◌, sym, ap, ◌∙◌, false, some, List, [], ◌∷◌, ◌++◌, append-nil,
  length, arith, done, u32, ℤ, pos, is_neg,
}
use native.Mathlib.Nat.{one-le-pow}
use io_uring_example.Kernel.{enter_sq_wakeup}
use io_uring_example.Reader.{Submitter, Iovc, World, update}
use io_uring_example.Reader.Spec.{entries}
use io_uring_example.Reader.Open.{Enter, count_blocks, sizeof_file_info}
use io_uring_example.Reader.Open.Fill.{total_size}
use io_uring_example.Reader.Open.Queue.{readv, IsApart, count, window, pending, IsRing}
use io_uring_example.Reader.Open.Queue.Requested.{
  with_request, with_request-Submitted, with_request-IsRequested,
}
use io_uring_example.Manual.{cqe_at, read_from_cq}
use io_uring_example.Manual.Reap.{sized, AreSized, AreCompleted, read_from_cq-prints}

-- The head of the completion ring lies before the index array, and is none of the words of the
-- submission ring.
pub record IsSeparate (s : Submitter) : Type 0 where
  pub head_before : s.cq_ring.head < s.sq_ring.array
  pub not_head : s.sq_ring.head ≢ s.cq_ring.head
  pub not_tail : s.sq_ring.tail ≢ s.cq_ring.head
  pub not_mask : s.sq_ring.ring_mask ≢ s.cq_ring.head

module _ (s : Submitter) (k : ℕ) (start : ℕ) where
  -- Both rings are empty, after `i` completions.
  pub record Idle (i : ℕ) (w : World) : Type 0 where
    pub ring : IsRing s k w
    pub empty : count s k w ≡ 0
    pub head : w.word s.cq_ring.head ≡ u32 (start + i)

  -- The memory after the kernel has served the i-th readv: the request is off the ring, the completion
  -- stands at the head, and the blocks hold the bytes of the file.
  pub record Served (i fi : ℕ) (vs : List Iovc) (bytes : List ℕ) (w : World) : Type 0 where
    pub idle : Idle i w
    pub owner : (cqe_at w s.cq_ring (u32 (start + i))).user_data ≡ fi
    pub filled : List Iovc
    pub stored : w.file_info fi ≡ some (record { file_sz = length bytes; iovecs = entries filled })
    pub as_many : length filled ≡ length vs
    pub sizes : AreSized filled
    pub content : sized filled ≡ bytes

  -- The kernel's part, as documented: io_uring_enter accepts the call; while the program sleeps after
  -- it, a single readv on the submission ring, into blocks that are as large together as its file, is
  -- served; and in the i-th round the tail stands behind i + 1 completions.
  pub record Kernel (enter : Enter) (serve : ℕ → World → World) (loads : ℕ → ℕ → ℕ)
      (bytes : ℤ → List ℕ) : Type 0 where
    pub accepts : (w : World) → is_neg (enter w s.ring_fd 1 0 enter_sq_wakeup).0 ≡ false
    pub serves :
        (i : ℕ) (w : World) (fd : ℤ) (fi : ℕ) (vs : List Iovc)
        → IsRing s k w
        → pending s k w ≡ readv fd (fi + sizeof_file_info) (length vs) fi ∷ []
        → w.file_info fi ≡ some (record { file_sz = length (bytes fd); iovecs = entries vs })
        → AreSized vs
        → total_size vs ≡ length (bytes fd)
        → w.word s.cq_ring.head ≡ u32 (start + i)
        → Served i fi vs (bytes fd) (serve i (enter w s.ring_fd 1 0 enter_sq_wakeup).1)
    pub tails : (i j : ℕ) → loads i j ≡ u32 (start + (i + 1))

  module _ (apart : IsApart s) (separate : IsSeparate s) where
    -- Once the head is moved past the completion, both rings are empty again.
    Idle-next :
        (i : ℕ) (w : World) (head : ℕ)
        → Idle i w
        → head ≡ u32 (start + (i + 1))
        → Idle (i + 1) (record w { word = update w.word s.cq_ring.head head })
    Idle-next i w head d e =
        let word = update w.word s.cq_ring.head head in
        let same_head : word s.sq_ring.head ≡ w.word s.sq_ring.head =
          let n = separate.not_head in ground arith in
        let same_tail : word s.sq_ring.tail ≡ w.word s.sq_ring.tail =
          let n = separate.not_tail in ground arith in
        let same_mask : word s.sq_ring.ring_mask ≡ w.word s.sq_ring.ring_mask =
          let n = separate.not_mask in ground arith in
        let none_left : u32 (2 ^ 32 + word s.sq_ring.tail - word s.sq_ring.head) ≡ 0 =
          rw (same_head, same_tail) d.empty in
        record {
          ring = record {
            size = d.ring.size;
            mask = same_mask ∙ d.ring.mask;
            head_word = rw same_head d.ring.head_word;
            tail_word = rw same_tail d.ring.tail_word;
            bound = omega (arith, none_left);
            listed = λ j lt. absurd (omega (arith, none_left));
          };
          empty = none_left;
          head = ground (arith, e);
        }

    Served-completed :
        (b i fi : ℕ) (vs : List Iovc) (bytes : List ℕ) (w : World)
        → Served i fi vs bytes w
        → count_blocks b (length bytes) ≡ pos (length vs)
        → AreCompleted b w s.cq_ring (w.word s.cq_ring.head) (bytes ∷ [])
    Served-completed b i fi vs bytes w v c = (
      record {
        file_sz = length bytes;
        vs = v.filled;
        stored =
            ap (λ (a : ℕ). w.file_info a)
              (ap (λ (h : ℕ). (cqe_at w s.cq_ring h).user_data) v.idle.head ∙ v.owner)
            ∙ v.stored;
        count = c ∙ ap pos (sym v.as_many);
        sizes = v.sizes;
        held = sym v.content;
      },
      tt,
    )

    -- read_from_cq prints the file and moves the head past the completion.
    pub read_from_cq-Idle :
        (b i fi : ℕ) (vs : List Iovc) (bytes : List ℕ) (w : World) (loads : ℕ → ℕ)
        → Served i fi vs bytes w
        → count_blocks b (length bytes) ≡ pos (length vs)
        → ((j : ℕ) → loads j ≡ u32 (start + (i + 1)))
        → (w' : World) × (read_from_cq 2 b w s loads ≡ done (bytes, w')) × Idle (i + 1) w'
    read_from_cq-Idle b i fi vs bytes w loads v c tail =
        let h = v.idle.head in
        let next : u32 (w.word s.cq_ring.head + 1) ≡ u32 (start + (i + 1)) = omega arith in
        let (run, head) =
          read_from_cq-prints b w s loads (bytes ∷ []) (Served-completed b i fi vs bytes w v c)
            (omega arith) (omega arith) (λ j. tail j ∙ sym next) in
        (
          record w { word = update w.word s.cq_ring.head (u32 (w.word s.cq_ring.head + 1)) },
          run
              ∙ ap
                  (λ out. done (
                    out,
                    record w {
                      word = update w.word s.cq_ring.head (u32 (w.word s.cq_ring.head + 1));
                    },
                  ))
                  (append-nil bytes),
          Idle-next i w _ v.idle next,
        )

    room : (i : ℕ) (w : World) → Idle i w → count s k w < 2 ^ k
    room i w d = omega (arith, d.empty, one-le-pow k 2)

    submitted_head :
        (i : ℕ) (w : World) (d : Idle i w) (fd : ℤ) (n fi : ℕ) (vs : List Iovc)
        → (with_request s w fd n fi vs).word s.cq_ring.head ≡ u32 (start + i)
    submitted_head i w d fd n fi vs =
        let stores = with_request-Submitted s k w d.ring apart (room i w d) fd n fi vs in
        stores.other_words s.cq_ring.head (let h = separate.head_before in omega arith)
          (let h = separate.not_tail in omega arith)
        ∙ d.head

    -- The request of submit_to_sq is served.
    pub submitted-Served :
        (enter : Enter) (serve : ℕ → World → World) (loads : ℕ → ℕ → ℕ) (bytes : ℤ → List ℕ)
        → Kernel enter serve loads bytes
        → (i : ℕ) (w : World) → Idle i w
        → (fd : ℤ) (fi : ℕ) (vs : List Iovc) → AreSized vs
        → total_size vs ≡ length (bytes fd)
        → Served i fi vs (bytes fd) (
            serve i
              (enter
                (with_request s w fd (length (bytes fd)) fi vs)
                s.ring_fd
                1
                0
                enter_sq_wakeup).1)
    submitted-Served enter serve loads bytes kernel i w d fd fi vs sizes total =
        let n = length (bytes fd) in
        let q = with_request-IsRequested s k w d.ring apart (room i w d) fd n fi vs in
        let alone : pending s k w ≡ [] = ap (window s k w (w.word s.sq_ring.head)) d.empty in
        kernel.serves i (with_request s w fd n fi vs) fd fi vs q.ring
          (q.queued ∙ ap (λ t. t ++ readv fd (fi + sizeof_file_info) (length vs) fi ∷ []) alone)
          q.stored sizes total (submitted_head i w d fd n fi vs)
