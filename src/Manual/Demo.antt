-- ===== src/Manual/Demo.antt =====
-- A kernel for example/omp_io_uring_manual.c that serves a readv on the submission ring: data for the
-- examples.
use io_uring_example.Base.{
  ℕ, zero, suc, ◌+◌, ◌≤◌, ◌≡◌, refl, ap, ap₂, ◌∙◌, Option, none, some, List, [], ◌∷◌, ◌++◌, take,
  drop, length, length-take, length-drop, length-append, take-append_le, take-length,
  take-append-take, arith, u32, ℤ, pos,
}
use io_uring_example.Reader.{Iovc, FileInfo, World, update}
use io_uring_example.Reader.Spec.{entries}
use io_uring_example.Reader.Open.{sizeof_file_info}
use io_uring_example.Reader.Open.Fill.{total_size}
use io_uring_example.Reader.Open.Queue.{Request, readv, count, entry, window, pending, IsRing}
use io_uring_example.Reader.Demo.{content, demo_submitter, demo_enter}
use io_uring_example.Manual.Reap.{sized, AreSized}
use io_uring_example.Manual.Rounds.{Served, Kernel}

-- a readv of these bytes into one block, and into several
abbrev filled_block : Iovc → List ℕ → Iovc
filled_block v bytes = record v { buffer = take v.buffer_size bytes ++ drop v.buffer_size v.buffer }

abbrev filled_blocks : List Iovc → List ℕ → List Iovc
filled_blocks [] bytes = []
filled_blocks (v ∷ vs) bytes = filled_block v bytes ∷ filled_blocks vs (drop v.buffer_size bytes)

abbrev filled_entries : List (Option Iovc) → List ℕ → List (Option Iovc)
filled_entries [] bytes = []
filled_entries (none ∷ es) bytes = none ∷ filled_entries es bytes
filled_entries (some v ∷ es) bytes =
    some (filled_block v bytes) ∷ filled_entries es (drop v.buffer_size bytes)

filled_entries-entries :
    (vs : List Iovc) (bytes : List ℕ)
    → filled_entries (entries vs) bytes ≡ entries (filled_blocks vs bytes)
filled_entries-entries [] bytes = refl
filled_entries-entries (v ∷ vs) bytes =
    ap (λ t. some (filled_block v bytes) ∷ t) (filled_entries-entries vs (drop v.buffer_size bytes))

length-filled_blocks :
    (vs : List Iovc) (bytes : List ℕ) → length (filled_blocks vs bytes) ≡ length vs
length-filled_blocks [] bytes = refl
length-filled_blocks (v ∷ vs) bytes = ap suc (length-filled_blocks vs (drop v.buffer_size bytes))

filled_blocks-AreSized :
    (vs : List Iovc) (bytes : List ℕ)
    → AreSized vs
    → total_size vs ≤ length bytes
    → AreSized (filled_blocks vs bytes)
filled_blocks-AreSized [] bytes h total = tt
filled_blocks-AreSized (v ∷ vs) bytes h total = (
  let fit = h.0 in
      omega (
        arith,
        length-append (take v.buffer_size bytes) (drop v.buffer_size v.buffer),
        length-take v.buffer_size bytes,
      ),
  filled_blocks-AreSized vs (drop v.buffer_size bytes) h.1
      (omega (arith, length-drop v.buffer_size bytes)),
)

sized-filled_blocks :
    (vs : List Iovc) (bytes : List ℕ)
    → total_size vs ≤ length bytes
    → sized (filled_blocks vs bytes) ≡ take (total_size vs) bytes
sized-filled_blocks [] bytes total = refl
sized-filled_blocks (v ∷ vs) bytes total =
    let part = take v.buffer_size bytes in
    let long : length part ≡ v.buffer_size = omega (arith, length-take v.buffer_size bytes) in
    ap₂ ◌++◌
      (take-append_le v.buffer_size part (drop v.buffer_size v.buffer) (omega arith)
        ∙ take-length v.buffer_size part (omega arith))
      (sized-filled_blocks vs (drop v.buffer_size bytes)
        (omega (arith, length-drop v.buffer_size bytes)))
    ∙ take-append-take v.buffer_size (total_size vs) (v.buffer_size + total_size vs) bytes refl

-- the request at the head of the ring
abbrev oldest : World → Request
oldest w = entry demo_submitter 8 w (w.word 0x1000)

abbrev filled_file : Option FileInfo → List ℕ → Option FileInfo
filled_file none bytes = none
filled_file (some fi) bytes = some (record fi { iovecs = filled_entries fi.iovecs bytes })

-- every file has the same content
abbrev pub demo_bytes : ℤ → List ℕ
demo_bytes fd = content

abbrev pub demo_serve : ℕ → World → World
demo_serve i w = record w {
  word = update w.word 0x1000 (u32 (w.word 0x1000 + 1));
  cqe = λ a. record { user_data = (oldest w).user_data; res = pos 6; flags = 0 };
  file_info =
      update w.file_info (oldest w).user_data
        (filled_file (w.file_info (oldest w).user_data) (demo_bytes (oldest w).fd));
}

one_pending :
    (w : World) (h n : ℕ) (q : Request)
    → window demo_submitter 8 w h n ≡ q ∷ []
    → (n ≡ 1) × (entry demo_submitter 8 w h ≡ q)
one_pending w h zero q e = cc
one_pending w h (suc zero) q e = (refl, cc)
one_pending w h (suc (suc n)) q e = cc

demo_serve-Served :
    (i : ℕ) (w : World) (fd : ℤ) (fi : ℕ) (vs : List Iovc)
    → IsRing demo_submitter 8 w
    → pending demo_submitter 8 w ≡ readv fd (fi + sizeof_file_info) (length vs) fi ∷ []
    → w.file_info fi ≡ some (record { file_sz = 6; iovecs = entries vs })
    → AreSized vs
    → total_size vs ≡ 6
    → w.word 0x1020 ≡ u32 (0 + i)
    → Served demo_submitter 8 0 i fi vs content (demo_serve i w)
demo_serve-Served i w fd fi vs r queue stored sizes total head =
    let (one, same) = one_pending w (w.word 0x1000) (count demo_submitter 8 w) _ queue in
    let owner : (oldest w).user_data ≡ fi = ap (λ (q : Request). q.user_data) same in
    let h = r.head_word in
    let t = r.tail_word in
    let none_left : count demo_submitter 8 (demo_serve i w) ≡ 0 = omega (arith, one) in
    record {
      idle = record {
        ring = record {
          size = r.size;
          mask = r.mask;
          head_word = omega arith;
          tail_word = r.tail_word;
          bound = omega (arith, none_left);
          listed = λ j lt. absurd (omega (arith, none_left));
        };
        empty = none_left;
        head = head;
      };
      owner = owner;
      filled = filled_blocks vs content;
      stored = rw (owner, stored, filled_entries-entries vs content) (ground arith);
      as_many = length-filled_blocks vs content;
      sizes = filled_blocks-AreSized vs content sizes (omega arith);
      content = sized-filled_blocks vs content (omega arith) ∙ ap (λ k. take k content) total;
    }

pub demo_serve-Kernel :
    Kernel demo_submitter 8 0 demo_enter demo_serve (λ i j. u32 (i + 1)) demo_bytes
demo_serve-Kernel = record {
  accepts = λ w. refl;
  serves = demo_serve-Served;
  tails = λ i j. omega arith;
}
