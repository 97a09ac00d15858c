-- ===== src/Library/Cat/Whole.antt =====
-- cat of main.cpp against the file: what is written and reported, and that nothing stays behind, if the
-- kernel's readv has put the file's bytes into the blocks.
use io_uring_example.Base.{
  ℕ, ◌+◌, ◌*◌, ◌%◌, ◌≤◌, ◌<◌, ◌^◌, ◌≡◌, ◌≢◌, ◌↔◌, refl, sym, ap, ◌∙◌, inr, false, Option, some, suc,
  List, [], ◌∷◌, take, length, flatten, done, arith, ℤ, pos, is_neg,
}
use io_uring_example.Reader.{Submitter, Iovc, FileInfo, World}
use io_uring_example.Reader.Spec.{unread, buffers, entries, AreBlocks}
use io_uring_example.Reader.Read.First.{next_cqe}
use io_uring_example.Reader.Open.{count_blocks}
use io_uring_example.Reader.Open.Blocks.{IsCount, count_blocks-IsCount}
use io_uring_example.Reader.Cat.{sizeof_pointer}
use io_uring_example.Reader.Cat.Whole.{length-buffers, IsPadded, IsPadded-blocks, IsPadded-exact}
use io_uring_example.Library.{Pointer, MyFile, Host, State}
use io_uring_example.Library.Open.{get_file_size, open_flags, aligned_blocks, my_fopen}
use io_uring_example.Library.Open.Kept.{KeepsSizes}
use io_uring_example.Library.Open.Returned.{IsOpened, my_fopen-IsOpened, app_setup_uring-ring_fds}
use io_uring_example.Library.Device.Same.{view}
use io_uring_example.Library.Close.{my_fclose}
use io_uring_example.Library.Close.Releases.{IsHeld, my_fclose-IsHeld, IsOpened-IsHeld}
use io_uring_example.Library.Device.Keeps.{IsSameFile}
use io_uring_example.Library.Cat.{Printed, Report, read_mode, cat_loop, cat_file, cat}
use io_uring_example.Library.Cat.Prints.{Prints, cat_loop-Prints}

-- What the kernel has done when my_fopen returns: the bytes of the file stand at the start of the blocks at
-- `fi`, and the completion is on the ring, a success.
pub record IsServed (b : ℕ) (content : List ℕ) (loads : ℕ → ℕ) (w : World) (s : Submitter) (fi : ℕ)
    (mf : MyFile) : Type 0 where
  pub vs : List Iovc
  pub recorded : ℕ
  pub stored : w.file_info fi ≡ some (record { file_sz = recorded; iovecs = entries vs })
  pub blocks : AreBlocks b vs
  pub as_many : mf.blocks ≡ pos (length vs)
  pub filled : take (length content) (flatten (buffers vs)) ≡ content
  pub word : w.word s.cq_ring.head < 2 ^ 32
  pub arrived : (k : ℕ) → loads k ≢ w.word s.cq_ring.head
  pub owner : (next_cqe w (view s mf)).user_data ≡ fi
  pub success : is_neg (next_cqe w (view s mf)).res ≡ false

module _ (b fuel fi : ℕ) (content : List ℕ) (loads : ℕ → ℕ → ℕ) (w : World) (buffer : List ℕ)
    (mf : MyFile) (p : Pointer Submitter) (owned : mf.s ≡ some p)
    (r : IsServed b content (loads 0) w p.target fi mf) where
  -- A file that was just opened: the loop ends, and has printed all blocks.
  fresh-Prints :
      0 < b
      → b < 2 ^ 31
      → length r.vs < 2 ^ 31
      → mf.current_block ≡ 0
      → mf.current_offset ≡ 0
      → mf.isfirst ≡ 0
      → sizeof_pointer ≤ length buffer
      → length r.vs * b < fuel
      → (q : Printed) × (cat_loop fuel b sizeof_pointer 0 loads w buffer mf [] ≡ done q)
        × Prints b r.vs fi p w mf [] q
        × (q.output ≡ flatten (buffers r.vs))
  fresh-Prints h hb few z o f room hf =
      let start : unread r.vs mf.current_block mf.current_offset ≡ flatten (buffers r.vs) =
        rw (z, o) in
      let (q, run, prints) =
        cat_loop-Prints b r.vs fi p fuel sizeof_pointer 0 loads w buffer mf [] owned
          (record {
            fi = record { file_sz = r.recorded; iovecs = entries r.vs };
            stored = r.stored;
            filled = refl;
            blocks = r.blocks;
            size_pos = h;
            size_small = hb;
            few = few;
          })
          (record {
            blocks = r.as_many;
            index_in = omega arith;
            at_end = λ e. o;
            offset_in = omega arith;
            word = r.word;
          })
          (inr (record { first = f; arrived = r.arrived; owner = r.owner; success = r.success }))
          (omega arith) (omega arith) room
          (omega (arith, ap length start, length-buffers b r.vs r.blocks)) in
      (q, run, prints, prints.printed ∙ start)

-- the end of a call of cat, once its loop has ended
cat_file_done :
    (fuel b fi : ℕ) (loads : ℕ → ℕ → ℕ) (st : State) (buffer : List ℕ) (mf : Pointer MyFile)
    (q : Printed) (info : FileInfo) (st2 : State)
    → cat_loop fuel b sizeof_pointer 0 loads st.world buffer mf.target [] ≡ done q
    → q.mf.fi ≡ some fi
    → q.world.file_info fi ≡ some info
    → my_fclose (record st { world = q.world }) (some (record mf { target = q.mf })) ≡ done st2
    → cat_file fuel b loads st buffer mf
      ≡ done (some (record { output = q.output; file_sz = info.file_sz }), st2)
unfolding cat_file
cat_file_done fuel b fi loads st buffer mf q info st2 run f i c = simp (run, f, i, c, cat_file)

-- cat from the file that my_fopen returned
cat_opened :
    (fuel polls b : ℕ) (h : Host) (loads : ℕ → ℕ → ℕ) (st : State) (buffer filename : List ℕ)
    (mf : Pointer MyFile) (st1 : State)
    → my_fopen polls b h st filename read_mode ≡ done (some mf, st1)
    → cat fuel polls b h loads st buffer filename ≡ cat_file fuel b loads st1 buffer mf
unfolding cat
cat_opened fuel polls b h loads st buffer filename mf st1 e = rw e

some_inj {ℓ} : {A : Type ℓ} {a c : A} → some a ≡ some c → a ≡ c
some_inj e = ground (arith, e)

pos_inj : {m n : ℕ} → pos m ≡ pos n → m ≡ n
pos_inj e = ground (arith, e)

-- The loop changes neither what is allocated nor what is open.
IsHeld-same :
    (mf : Pointer MyFile) (st : State) (memory : List ℕ) (descriptors : List ℤ) (q : Printed)
    → IsHeld mf st memory descriptors
    → IsSameFile mf.target q.mf
    → IsHeld (record mf { target = q.mf }) (record st { world = q.world }) memory descriptors
IsHeld-same mf st memory descriptors q i same = record {
  fi = i.fi;
  s = i.s;
  has_fi = same.fi ∙ i.has_fi;
  has_s = same.s ∙ i.has_s;
  is_open = ap is_neg same.fd ∙ i.is_open;
  blocks = i.blocks;
  files = i.files ∙ ap (λ z. z ∷ descriptors) (sym same.fd);
}

-- The size that a call reports is the one that my_fopen has stored.
recorded_size :
    (b n reported : ℕ) (h : Host) (st : State) (filename : List ℕ) (mf : Pointer MyFile)
    (st1 : State) (fi : ℕ) (iovecs : List (Option Iovc))
    → (o : IsOpened b h st filename read_mode mf st1) → KeepsSizes h
    → o.size ≡ n
    → mf.target.fi ≡ some fi
    → st1.world.file_info fi ≡ some (record { file_sz = reported; iovecs = iovecs })
    → reported ≡ n
recorded_size b n reported h st filename mf st1 fi iovecs o keeps size has_fi stored =
    let (y, at, kept) = o.kept keeps in
    let same : fi ≡ o.fi = some_inj (sym has_fi ∙ ap (λ (f : MyFile). f.fi) o.file) in
    let info : record { file_sz = reported; iovecs = iovecs } ≡ y =
      some_inj (sym stored ∙ ap (λ (a : ℕ). st1.world.file_info a) same ∙ at) in
    ap (λ (x : FileInfo). x.file_sz) info ∙ kept ∙ size

-- For a file below 2 GiB, blocks of 1 byte to below 2 GiB and a buffer of 8 bytes or more, where my_fopen
-- returns the file, the kernel leaves the sizes in the file_info structures alone and has read the file
-- completely when my_fopen returns (IsServed): cat returns, within a round for each byte and one block more. It
-- has written the content followed by fewer bytes than a block, up to a whole number of blocks, which is exactly
-- the content if and only if the size is a multiple of the block size; it reports the true size; of omp_alloc
-- and open it holds what it held before; and the ring's descriptor and the blocks of posix_memalign are kept.
pub cat-Reports :
    (fuel polls b : ℕ) (h : Host) (loads : ℕ → ℕ → ℕ) (st : State)
    (buffer filename content : List ℕ) (mf : Pointer MyFile) (st1 : State) (p : Pointer Submitter)
    (fi : ℕ)
    → 0 < b
    → b < 2 ^ 31
    → length content < 2 ^ 31
    → get_file_size h.sys (h.open_file filename (open_flags read_mode)) ≡ pos (length content)
    → my_fopen polls b h st filename read_mode ≡ done (some mf, st1)
    → mf.target.s ≡ some p
    → mf.target.fi ≡ some fi
    → KeepsSizes h
    → IsServed b content (loads 0) st1.world p.target fi mf.target
    → sizeof_pointer ≤ length buffer
    → length content + b < fuel
    → (r : Report) × (st2 : State) × (cat fuel polls b h loads st buffer filename
        ≡ done (some r, st2))
      × IsPadded b content r.output
      × ((r.output ≡ content) ↔ (length content % b ≡ 0))
      × (r.file_sz ≡ length content)
      × (st2.memory ≡ st.memory)
      × (st2.descriptors ≡ st.descriptors)
      × (st2.ring_fds ≡ p.target.ring_fd ∷ st.ring_fds)
      × (st2.aligned
          ≡ st.aligned + aligned_blocks (suc (length content)) h.sys b 0 (length content))
cat-Reports fuel polls b h loads st buffer filename content mf st1 p fi hb small few sized e has_s
      has_fi keeps r room hf =
    let o = my_fopen-IsOpened polls b h st filename read_mode mf st1 e in
    let size : o.size ≡ length content =
      pos_inj (sym o.sized ∙ ap (get_file_size h.sys) o.named ∙ sized) in
    let owner : p ≡ o.s = some_inj (sym has_s ∙ ap (λ (f : MyFile). f.s) o.file) in
    let (k, counted, count, le_size) = count_blocks-IsCount b (length content) hb few in
    let as_many : length r.vs ≡ k =
      pos_inj (
        sym r.as_many
        ∙ ap (λ (f : MyFile). f.blocks) o.file
        ∙ ap (count_blocks b) size
        ∙ counted) in
    let exact : IsCount b (length r.vs) (length content) = rw as_many count in
    let (q, run, prints, out) =
      fresh-Prints b fuel fi content loads st1.world buffer mf.target p has_s r hb small
        (omega (arith, le_size, as_many)) (ap (λ (f : MyFile). f.current_block) o.file)
        (ap (λ (f : MyFile). f.current_offset) o.file) (ap (λ (f : MyFile). f.isfirst) o.file) room
        (omega (arith, exact.least)) in
    let padded : IsPadded b content q.output =
      rw out (IsPadded-blocks b content r.vs r.blocks (exact) r.filled) in
    (
      _,
      _,
      cat_opened fuel polls b h loads st buffer filename mf st1 e
          ∙ cat_file_done fuel b fi loads st1 buffer mf q _ _ run (prints.same.fi ∙ has_fi)
              (ap (λ g. g fi) prints.memory ∙ r.stored)
              (my_fclose-IsHeld _ _ st.memory st.descriptors (
                IsHeld-same mf st1 st.memory st.descriptors q
                  (IsOpened-IsHeld b h st filename read_mode mf st1 o) prints.same)),
      padded,
      IsPadded-exact b content q.output padded,
      recorded_size b (length content) r.recorded h st filename mf st1 fi (entries r.vs) o keeps
          size has_fi r.stored,
      refl,
      refl,
      o.ring_fds
          ∙ app_setup_uring-ring_fds h.sys p.target st.ring_fds
              (o.ring ∙ ap (λ (q : Pointer Submitter). some q.target) (sym owner)),
      o.aligned ∙ ap (λ n. st.aligned + aligned_blocks (suc n) h.sys b 0 n) size,
    )
