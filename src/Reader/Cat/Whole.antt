-- ===== src/Reader/Cat/Whole.antt =====
-- cat of example/io_uring_read.c against the file: what is written, from my_fopen to the last my_fread,
-- if the kernel's readv has put the file's bytes into the blocks.
use io_uring_example.Base.{
  ℕ, ◌+◌, ◌*◌, ◌%◌, ◌≤◌, ◌<◌, ◌^◌, ◌≡◌, ◌↔◌, refl, sym, ap, ◌∙◌, inr, false, some, List, [], ◌∷◌,
  ◌++◌, append-nil, take, drop, length, flatten, length-append, length-drop, take-append-drop, done,
  arith, ℤ, pos, is_neg,
}
use native.Mathlib.Nat.{mul-mod_left, mod-eq_of_lt, mod-add-mod, zero-add}
use io_uring_example.Kernel.{Sys}
use io_uring_example.Reader.{Submitter, Iovc, MyFile, World}
use io_uring_example.Reader.Spec.{unread, buffers, entries, AreBlocks}
use io_uring_example.Reader.Read.First.{IsServed, next_cqe}
use io_uring_example.Reader.Open.{Enter, new_file, submit_file, open_blocks, count_blocks}
use io_uring_example.Reader.Open.Blocks.{IsCount}
use io_uring_example.Reader.Open.Opened.{Opens, open_blocks-Opens}
use io_uring_example.Reader.Open.Fill.{Aligns}
use io_uring_example.Reader.Cat.{Printed, cat_loop, sizeof_pointer}
use io_uring_example.Reader.Cat.Output.{nil_of_length, cat_loop-Prints}

pub length-buffers :
    (b : ℕ) (vs : List Iovc) → AreBlocks b vs → length (flatten (buffers vs)) ≡ length vs * b
length-buffers b [] h = omega arith
length-buffers b (v ∷ vs) h =
    omega (arith, h.0, length-append v.buffer (flatten (buffers vs)), length-buffers b vs h.2)

-- What the kernel has done when the first my_fread is called: the bytes of the file stand at the
-- start of the blocks at `fi`, and the completion is on its way, a success.
pub record IsRead (b n fi : ℕ) (content : List ℕ) (polls : ℕ) (loads : ℕ → ℕ) (w : World)
    (mf : MyFile) : Type 0 where
  pub vs : List Iovc
  pub stored : w.file_info fi ≡ some (record { file_sz = n; iovecs = entries vs })
  pub blocks : AreBlocks b vs
  pub as_many : mf.blocks ≡ pos (length vs)
  pub filled : take (length content) (flatten (buffers vs)) ≡ content
  pub word : w.word mf.s.cq_ring.head < 2 ^ 32
  pub served : IsServed fi polls loads w mf
  pub success : is_neg (next_cqe w mf).res ≡ false

-- The output is the content and then less than a block of padding, which completes the last block.
pub record IsPadded (b : ℕ) (content output : List ℕ) : Type 0 where
  pub padding : List ℕ
  pub shape : output ≡ content ++ padding
  pub short : length padding < b
  pub whole : length output % b ≡ 0

-- The first bytes of some blocks, and the rest of the last block.
pub IsPadded-blocks :
    (b : ℕ) (content : List ℕ) (vs : List Iovc)
    → AreBlocks b vs
    → IsCount b (length vs) (length content)
    → take (length content) (flatten (buffers vs)) ≡ content
    → IsPadded b content (flatten (buffers vs))
IsPadded-blocks b content vs blocks count filled =
    let all = flatten (buffers vs) in
    let size = length-buffers b vs blocks in
    record {
      padding = drop (length content) all;
      shape =
          sym (take-append-drop (length content) all)
          ∙ ap (λ t. t ++ drop (length content) all) filled;
      short = omega (arith, size, length-drop (length content) all, count);
      whole = rw size (mul-mod_left (length vs) b);
    }

padding_zero : (a k b : ℕ) → a % b ≡ 0 → (a + k) % b ≡ 0 → k < b → k ≡ 0
padding_zero a k b e s h =
    let rest : (a % b + k) % b ≡ 0 = mod-add-mod a b k ∙ s in
    let k_rest : k % b ≡ 0 = rw (e, zero-add) at rest in sym (mod-eq_of_lt h) ∙ k_rest

-- Nothing is added exactly where the size is a whole number of blocks.
pub IsPadded-exact :
    (b : ℕ) (content output : List ℕ)
    → IsPadded b content output
    → (output ≡ content) ↔ (length content % b ≡ 0)
IsPadded-exact b content output p = (
  λ e. rw (← e) p.whole,
  λ e.
      let size : length output ≡ length content + length p.padding =
        ap length p.shape ∙ length-append content p.padding in
      let nothing : p.padding ≡ [] = nil_of_length p.padding (
        padding_zero (length content) (length p.padding) b e (ap (λ t. t % b) (sym size) ∙ p.whole)
          p.short) in
      p.shape ∙ rw nothing (append-nil content),
)

module _ (b fuel polls n fi : ℕ) (content : List ℕ) (loads : ℕ → ℕ → ℕ) (w : World)
    (buffer : List ℕ) (mf : MyFile) where
  -- A file that was just opened, and read by the kernel: cat's loop ends, and has printed all blocks.
  fresh-Prints :
      0 < b
      → b < 2 ^ 31
      → (r : IsRead b n fi content polls (loads 0) w mf) → length r.vs < 2 ^ 31
      → mf.current_block ≡ 0
      → mf.current_offset ≡ 0
      → mf.isfirst ≡ 0
      → sizeof_pointer ≤ length buffer
      → length r.vs * b < fuel
      → (p : Printed) × (cat_loop fuel b sizeof_pointer polls 0 loads w buffer mf [] ≡ done p)
        × (p.output ≡ flatten (buffers r.vs))
  fresh-Prints h hb r few z o f room hf =
      let start : unread r.vs mf.current_block mf.current_offset ≡ flatten (buffers r.vs) =
        rw (z, o) in
      let (p, run, out) =
        cat_loop-Prints b r.vs fi fuel sizeof_pointer polls 0 loads w buffer mf []
          (record {
            fi = record { file_sz = n; iovecs = entries r.vs };
            stored = r.stored;
            filled = refl;
            blocks = r.blocks;
            size_pos = h;
            size_small = hb;
            few = few;
          })
          (record {
            blocks = r.as_many;
            index_in = omega arith;
            at_end = λ e. o;
            offset_in = omega arith;
            word = r.word;
          })
          (inr (f, r.served, r.success)) (omega arith) (omega arith) room
          (omega (arith, ap length start, length-buffers b r.vs r.blocks)) in
      (p, run, out ∙ start)

module _ (b : ℕ) (sys : Sys) (enter : Enter) (w : World) (s : Submitter) (fp : ℕ) (fd : ℤ)
    (content : List ℕ) where
  opened_file :
      (o : Opens b sys enter w s fp fd (length content)) (mf : MyFile) (w1 : World)
      → open_blocks b sys enter w s fp fd (length content) (count_blocks b (length content))
        ≡ done (some (mf, w1))
      → mf ≡ new_file fp s o.fi (pos (length o.vs))
  unfolding submit_file
  opened_file o mf w1 e =
      let q : done
            (submit_file enter w s fp fd (length content) (pos (length o.vs)) o.fi (entries o.vs))
          ≡ done (some (mf, w1)) =
        sym o.result ∙ e in
      ground arith

  -- For a file below 2 GiB, blocks of 1 byte to below 2 GiB, all memory granted and a buffer of 8 bytes or
  -- more, where my_fopen has opened the file and the kernel has then read it completely (IsRead): cat's
  -- loop returns within a round for each byte and one block more, and what it prints is the content
  -- followed by fewer bytes than a block, up to a whole number of blocks; the output is exactly the
  -- content if and only if the size is a multiple of the block size.
  pub cat-IsPadded :
      (address : ℕ → ℕ)
      → 0 < b
      → b < 2 ^ 31
      → length content < 2 ^ 31
      → ((bytes : ℕ) → sys.alloc bytes ≡ some (address bytes))
      → Aligns sys b
      → (mf : MyFile) (w1 : World)
      → open_blocks b sys enter w s fp fd (length content) (count_blocks b (length content))
        ≡ done (some (mf, w1))
      → (polls : ℕ) (loads : ℕ → ℕ → ℕ) (w2 : World) (buffer : List ℕ) (fuel : ℕ)
      → IsRead b (length content) mf.fi content polls (loads 0) w2 mf
      → sizeof_pointer ≤ length buffer
      → length content + b < fuel
      → (p : Printed) × (cat_loop fuel b sizeof_pointer polls 0 loads w2 buffer mf [] ≡ done p)
        × IsPadded b content p.output
        × ((p.output ≡ content) ↔ (length content % b ≡ 0))
  cat-IsPadded address h hb small alloc aligns mf w1 e polls loads w2 buffer fuel r room hf =
      let o =
        open_blocks-Opens b sys enter w s fp fd (length content) address h small alloc aligns in
      let made : mf ≡ new_file fp s o.fi (pos (length o.vs)) = opened_file o mf w1 e in
      let same : pos (length r.vs) ≡ pos (length o.vs) =
        sym r.as_many ∙ ap (λ (t : MyFile). t.blocks) made in
      let as_many : length r.vs ≡ length o.vs = ground arith in
      let count : IsCount b (length r.vs) (length content) = rw as_many o.count in
      let (p, run, out) =
        fresh-Prints b fuel polls (length content) mf.fi content loads w2 buffer mf h hb r
          (omega (arith, o.few)) (ap (λ (t : MyFile). t.current_block) made)
          (ap (λ (t : MyFile). t.current_offset) made) (ap (λ (t : MyFile). t.isfirst) made) room
          (omega (arith, count)) in
      let padded : IsPadded b content p.output =
        rw out (IsPadded-blocks b content r.vs r.blocks count r.filled) in
      (p, run, padded, IsPadded-exact b content p.output padded)
