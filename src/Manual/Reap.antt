-- ===== src/Manual/Reap.antt =====
-- read_from_cq of example/omp_io_uring_manual.c: what is printed for the completions on the ring.
use io_uring_example.Base.{
  ℕ, suc, ◌+◌, ◌≤◌, ◌<◌, ◌^◌, ◌≡◌, refl, sym, ◌∙◌, true, false, Option, some, List, [], ◌∷◌, ◌++◌,
  append_assoc, append-nil, length, length-append, get_elem?, take, flatten, All, arith, done,
  le→leb, ◌==◌, u32, pos,
}
use io_uring_example.Reader.{AppIoCqRing, Submitter, Iovc, World, update}
use io_uring_example.Reader.Spec.{entries}
use io_uring_example.Reader.Open.{count_blocks}
use io_uring_example.Manual.{print_blocks, cqe_at, reap_loop, read_from_cq}

-- the bytes of the blocks, of each as many as its iov_len says
abbrev pub sized : List Iovc → List ℕ
sized [] = []
sized (v ∷ vs) = take v.buffer_size v.buffer ++ sized vs

-- no iov_len is more than the block holds
abbrev pub AreSized : List Iovc → Type 0
AreSized vs = All (λ v. v.buffer_size ≤ length v.buffer) vs

entry_at :
    (ds : List Iovc) (v : Iovc) (vs : List Iovc)
    → get_elem? (entries (ds ++ v ∷ vs)) (length ds) ≡ some (some v)
entry_at [] v vs = refl
entry_at (d ∷ ds) v vs = entry_at ds v vs

print_round :
    (left i : ℕ) (iovecs : List (Option Iovc)) (output : List ℕ) (v : Iovc)
    → get_elem? iovecs i ≡ some (some v)
    → v.buffer_size ≤ length v.buffer
    → print_blocks (suc left) i iovecs output
      ≡ print_blocks left (i + 1) iovecs (output ++ take v.buffer_size v.buffer)
unfolding print_blocks
print_round left i iovecs output v e h = rw (e, le→leb v.buffer_size (length v.buffer) h)

pub print_blocks_lem :
    (ds vs : List Iovc) (output : List ℕ)
    → AreSized vs
    → print_blocks (length vs) (length ds) (entries (ds ++ vs)) output ≡ done (output ++ sized vs)
unfolding print_blocks
print_blocks_lem ds [] output h = rw (append-nil output)
print_blocks_lem ds (v ∷ vs) output h =
    let place : length ds + 1 ≡ length (ds ++ v ∷ []) = omega (arith, length-append ds (v ∷ [])) in
    print_round (length vs) (length ds) (entries (ds ++ v ∷ vs)) output v (entry_at ds v vs) h.0
    ∙ rw
        (
          place,
          sym (append_assoc ds (v ∷ []) vs),
          sym (append_assoc output (take v.buffer_size v.buffer) (sized vs)),
        )
        (print_blocks_lem (ds ++ v ∷ []) vs (output ++ take v.buffer_size v.buffer) h.1)

-- The memory holds at `address` a file whose blocks hold these bytes.
pub record HoldsBytes (b : ℕ) (w : World) (bytes : List ℕ) (address : ℕ) : Type 0 where
  pub file_sz : ℕ
  pub vs : List Iovc
  pub stored : w.file_info address ≡ some (record { file_sz = file_sz; iovecs = entries vs })
  pub count : count_blocks b file_sz ≡ pos (length vs)
  pub sizes : AreSized vs
  pub held : bytes ≡ sized vs

-- From `head` on there is a completion for each of the files.
abbrev pub AreCompleted : ℕ → World → AppIoCqRing → ℕ → List (List ℕ) → Type 0
AreCompleted b w cring head [] = Unit
AreCompleted b w cring head (bytes ∷ files) =
    HoldsBytes b w bytes (cqe_at w cring head).user_data
    × AreCompleted b w cring (u32 (head + 1)) files

reap_round :
    (fuel b : ℕ) (w : World) (cring : AppIoCqRing) (loads : ℕ → ℕ) (k head : ℕ)
    (output bytes : List ℕ)
    → HoldsBytes b w bytes (cqe_at w cring head).user_data
    → (head == loads k) ≡ false
    → reap_loop (suc fuel) b w cring loads k head output
      ≡ reap_loop fuel b w cring loads (k + 1) (u32 (head + 1)) (output ++ bytes)
unfolding reap_loop
reap_round fuel b w cring loads k head output bytes h d =
    rw (d, h.stored, h.count, print_blocks_lem [] h.vs output h.sizes, h.held)

reap_end :
    (fuel b : ℕ) (w : World) (cring : AppIoCqRing) (loads : ℕ → ℕ) (k head : ℕ) (output : List ℕ)
    → (head == loads k) ≡ true
    → reap_loop (suc fuel) b w cring loads k head output ≡ done (head, output)
unfolding reap_loop
reap_end fuel b w cring loads k head output d = rw d

reap_loop_lem :
    (b : ℕ) (w : World) (cring : AppIoCqRing) (loads : ℕ → ℕ) (files : List (List ℕ)) (k head : ℕ)
    (output : List ℕ)
    → AreCompleted b w cring head files
    → head < 2 ^ 32
    → length files < 2 ^ 32
    → ((j : ℕ) → loads j ≡ u32 (head + length files))
    → reap_loop (suc (length files)) b w cring loads k head output
      ≡ done (u32 (head + length files), output ++ flatten files)
reap_loop_lem b w cring loads [] k head output h small few tail =
    let stays : u32 (head + 0) ≡ head = omega arith in
    rw (stays, append-nil output)
      (reap_end 0 b w cring loads k head output (ground (arith, tail k)))
reap_loop_lem b w cring loads (bytes ∷ files) k head output h small few tail =
    let moved : u32 (u32 (head + 1) + length files) ≡ u32 (head + suc (length files)) =
      omega arith in
    reap_round (suc (length files)) b w cring loads k head output bytes h.0 (ground (arith, tail k))
    ∙ rw (sym moved, sym (append_assoc output bytes (flatten files)))
        (reap_loop_lem b w cring loads files (k + 1) (u32 (head + 1)) (output ++ bytes) h.1
          (omega arith) (omega arith) (λ j. tail j ∙ sym moved))

module _ (b : ℕ) (w : World) (s : Submitter) (loads : ℕ → ℕ) (files : List (List ℕ))
    (completed : AreCompleted b w s.cq_ring (w.word s.cq_ring.head) files)
    (word : w.word s.cq_ring.head < 2 ^ 32) (few : length files < 2 ^ 32)
    (tail : (j : ℕ) → loads j ≡ u32 (w.word s.cq_ring.head + length files)) where
  abbrev pub reaped : World
  reaped = record w {
    word = update w.word s.cq_ring.head (u32 (w.word s.cq_ring.head + length files));
  }

  -- With a completion on the ring for each of some files, below 2 ^ 32 of them, and a tail that stands
  -- behind them and stays there: read_from_cq returns within a round for each and one more, prints the
  -- bytes that the files' blocks hold, in order, and only moves the head, to the tail.
  pub read_from_cq-prints :
      (read_from_cq (suc (length files)) b w s loads ≡ done (flatten files, reaped))
      × (reaped.word s.cq_ring.head ≡ loads 0)
  unfolding read_from_cq
  read_from_cq-prints = (
    rw
        (reap_loop_lem b w s.cq_ring loads files 1 (w.word s.cq_ring.head) [] completed word few
          tail)
        refl,
    ground (arith, tail 0),
  )
