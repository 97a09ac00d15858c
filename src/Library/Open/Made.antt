-- ===== src/Library/Open/Made.antt =====
-- my_fopen of host.cpp from the allocation of `fi` on, where it returns a file.
use io_uring_example.Base.{
  ℕ, zero, suc, ◌+◌, ◌≡◌, ◌≢◌, sym, ap, ◌∙◌, inl, inr, Option, none, some, List, ◌∷◌, ◌==◌,
  Bool-cases, Option-cases, done, bind_done, done_inj, replicate, arith, ℤ, to_unsigned,
}
use io_uring_example.Reader.{Submitter, Iovc, FileInfo, World}
use io_uring_example.Reader.Open.{
  sizeof_file_info, sizeof_my_file, file_info_bytes, submit_readv, capacity, fill_iovecs,
}
use io_uring_example.Reader.Read.{wait_tail}
use io_uring_example.Library.{Pointer, MyFile, Host, State}
use io_uring_example.Library.Open.{
  aligned_blocks, wake, new_file, submit_and_wait, submit_blocks, open_blocks,
}
use io_uring_example.Library.Open.Kept.{KeepsSizes, submit_readv-file_info, wake-Keeps}

-- The wait ends at a load that is not the head.
wait_tail_done :
    (fuel : ℕ) (loads : ℕ → ℕ) (head k j : ℕ)
    → wait_tail fuel loads head k ≡ done j
    → (n : ℕ) × (loads n ≢ head)
unfolding wait_tail
wait_tail_done zero loads head k j e = ground (arith, e)
wait_tail_done (suc fuel) loads head k j e = elim (Bool-cases (head == loads k)) [
  | inl same ↦ wait_tail_done fuel loads head (k + 1) j (rw same at e)
  | inr other ↦ (k, ground (arith, other))
]

-- what the last part of my_fopen leaves behind, when it returns a file
pub record IsSubmitted (h : Host) (st : State) (mf mf' : Pointer MyFile) (ring : Submitter) (fi : ℕ)
    (w : World) (st1 : State) : Type 0 where
  pub file : mf' ≡ mf
  pub memory : st1.memory ≡ st.memory
  pub descriptors : st1.descriptors ≡ st.descriptors
  pub ring_fds : st1.ring_fds ≡ st.ring_fds
  pub aligned : st1.aligned ≡ st.aligned
  pub before : World
  pub served : st1.world ≡ h.serve before
  pub kept :
      KeepsSizes h
      → (x : FileInfo) → w.file_info fi ≡ some x
      → (y : FileInfo) × (st1.world.file_info fi ≡ some y) × (y.file_sz ≡ x.file_sz)
  pub arrival : ℕ
  pub arrived : h.loads arrival ≢ before.word ring.cq_ring.head

submit_and_wait-IsSubmitted :
    (polls : ℕ) (h : Host) (st : State) (mf mf' : Pointer MyFile) (ring : Submitter) (fi : ℕ)
    (w : World) (st1 : State)
    → submit_and_wait polls h st mf ring fi w ≡ done (some mf', st1)
    → IsSubmitted h st mf mf' ring fi w st1
unfolding submit_and_wait
submit_and_wait-IsSubmitted polls h st mf mf' ring fi w st1 e =
    let (awake, w') =
      wake h.enter
        (submit_readv w ring mf.target.fd (fi + sizeof_file_info) (to_unsigned mf.target.blocks) fi)
        ring in
    elim (Bool-cases awake) [
      | inl up ↦
          let (k, ended, out) =
            bind_done (wait_tail polls h.loads (w'.word ring.cq_ring.head) 0) _ (some mf', st1)
              (rw (up, submit_and_wait) at e) in
          let (n, arrived) = wait_tail_done polls h.loads (w'.word ring.cq_ring.head) 0 k ended in
          let same = done_inj out in
          let world : st1.world ≡ h.serve w' = ground (arith, same) in
          record {
            file = ground (arith, same);
            memory = ground (arith, same);
            descriptors = ground (arith, same);
            ring_fds = ground (arith, same);
            aligned = ground (arith, same);
            before = w';
            served = world;
            kept = λ k x stored.
                let submitted =
                  submit_readv w ring mf.target.fd (fi + sizeof_file_info)
                    (to_unsigned mf.target.blocks) fi in
                let at : submitted.file_info fi ≡ some x =
                  submit_readv-file_info w ring mf.target.fd (fi + sizeof_file_info)
                    (to_unsigned mf.target.blocks) fi fi
                  ∙ stored in
                let (y, e1, s1) = wake-Keeps h ring k submitted fi x at in
                let (z, e2, s2) = k.serve_keeps w' fi y e1 in
                (z, ap (λ (t : World). t.file_info fi) world ∙ e2, s2 ∙ s1);
            arrival = n;
            arrived = arrived;
          }
      | inr down ↦ absurd (ground (arith, rw (down, submit_and_wait) at e))
    ]

-- what open_blocks leaves behind, when it returns a file
pub record IsMade (b : ℕ) (h : Host) (st : State) (s : Pointer Submitter) (fd blocks : ℤ)
    (file_sz : ℕ) (mf : Pointer MyFile) (st1 : State) : Type 0 where
  pub fi : ℕ
  pub file : mf.target ≡ new_file fd blocks s fi
  pub memory : st1.memory ≡ mf.address ∷ fi ∷ st.memory
  pub descriptors : st1.descriptors ≡ st.descriptors
  pub ring_fds : st1.ring_fds ≡ st.ring_fds
  pub aligned : st1.aligned ≡ st.aligned + aligned_blocks (suc file_sz) h.sys b 0 file_sz
  pub before : World
  pub served : st1.world ≡ h.serve before
  pub kept :
      KeepsSizes h → (y : FileInfo) × (st1.world.file_info fi ≡ some y) × (y.file_sz ≡ file_sz)
  pub arrival : ℕ
  pub arrived : h.loads arrival ≢ before.word s.target.cq_ring.head

submitted-IsMade :
    (polls b : ℕ) (h : Host) (st : State) (s : Pointer Submitter) (fd : ℤ) (file_sz : ℕ)
    (blocks : ℤ) (mf : Pointer MyFile) (st1 : State) (fi address : ℕ)
    (filled : Option (List (Option Iovc)))
    → submit_blocks polls h
        (record st {
          memory = address ∷ fi ∷ st.memory;
          aligned = st.aligned + aligned_blocks (suc file_sz) h.sys b 0 file_sz;
        })
        (record { address = address; target = new_file fd blocks s fi })
        s.target
        fi
        file_sz
        filled
      ≡ done (some mf, st1)
    → IsMade b h st s fd blocks file_sz mf st1
submitted-IsMade polls b h st s fd file_sz blocks mf st1 fi address none e =
    absurd (ground (arith, e))
submitted-IsMade polls b h st s fd file_sz blocks mf st1 fi address (some iovecs) e =
    let q = submit_and_wait-IsSubmitted polls h _ _ mf s.target fi _ st1 e in
    record {
      fi = fi;
      file = ap (λ (p : Pointer MyFile). p.target) q.file;
      memory = q.memory ∙ ap (λ (p : Pointer MyFile). p.address ∷ fi ∷ st.memory) (sym q.file);
      descriptors = q.descriptors;
      ring_fds = q.ring_fds;
      aligned = q.aligned;
      before = q.before;
      served = q.served;
      kept = λ k. q.kept k (record { file_sz = file_sz; iovecs = iovecs }) (ground arith);
      arrival = q.arrival;
      arrived = q.arrived;
    }

pub open_blocks-IsMade :
    (polls b : ℕ) (h : Host) (st : State) (s : Pointer Submitter) (fd : ℤ) (file_sz : ℕ)
    (blocks : ℤ) (mf : Pointer MyFile) (st1 : State)
    → open_blocks polls b h st s fd file_sz blocks ≡ done (some mf, st1)
    → IsMade b h st s fd blocks file_sz mf st1
unfolding open_blocks
open_blocks-IsMade polls b h st s fd file_sz blocks mf st1 e =
    elim (Option-cases (h.omp_alloc st.memory (file_info_bytes blocks))) [
      | inl refused ↦ absurd (ground (arith, rw (refused, open_blocks) at e))
      | inr (fi, given) ↦ elim (Option-cases (h.omp_alloc (fi ∷ st.memory) sizeof_my_file)) [
        | inl refused ↦ absurd (ground (arith, rw (given, refused, open_blocks) at e))
        | inr (address, given') ↦
            let made : Pointer MyFile = record {
              address = address;
              target = new_file fd blocks s fi;
            } in
            let st2 : State = record st {
              memory = address ∷ fi ∷ st.memory;
              aligned = st.aligned + aligned_blocks (suc file_sz) h.sys b 0 file_sz;
            } in
            let (filled, run, out) =
              bind_done
                (fill_iovecs (suc file_sz) h.sys b
                  (replicate (capacity (file_info_bytes blocks)) none) 0 file_sz)
                (submit_blocks polls h st2 made s.target fi file_sz) (some mf, st1)
                (rw (given, given', open_blocks) at e) in
            submitted-IsMade polls b h st s fd file_sz blocks mf st1 fi address filled out
      ]
    ]
