-- ===== src/Library/Open/Returned.antt =====
-- my_fopen of host.cpp, where it returns a file.
use io_uring_example.Base.{
  ℤ-cases, ℕ, suc, ◌+◌, ◌≡◌, ◌≢◌, refl, ap, ◌∙◌, inl, inr, false, none, some, List, ◌∷◌, Bool-cases,
  Option-cases, done, bind_done, arith, ℤ, pos, is_neg,
}
use io_uring_example.Kernel.{Params, Sys}
use io_uring_example.Reader.Setup.{queue_depth, map_rings}
use io_uring_example.Reader.{Submitter, FileInfo, World}
use io_uring_example.Reader.Open.{count_blocks, sizeof_submitter}
use io_uring_example.Library.{Pointer, MyFile, Host, State, release, close_fd}
use io_uring_example.Library.Open.{
  setup_params, get_file_size, app_setup_uring, ring_fds_after, ring_set_up, aligned_blocks,
  open_flags, new_file, open_registered, my_fopen,
}
use io_uring_example.Library.Open.Kept.{KeepsSizes}
use io_uring_example.Library.Open.Made.{open_blocks-IsMade}

map_rings-ring_fd :
    (sys : Sys) (fd : ℤ) (p : Params) (ring : Submitter)
    → map_rings sys fd p ≡ some ring
    → ring.ring_fd ≡ fd
unfolding map_rings
map_rings-ring_fd sys fd p ring e = ground (arith, e)

-- A ring that could be set up is held.
pub app_setup_uring-ring_fds :
    (sys : Sys) (ring : Submitter) (ring_fds : List ℤ)
    → app_setup_uring sys ≡ some ring
    → ring_fds_after sys ring_fds ≡ ring.ring_fd ∷ ring_fds
unfolding app_setup_uring
app_setup_uring-ring_fds sys ring ring_fds e =
    let (fd, p) = sys.io_uring_setup queue_depth setup_params in
    elim (Bool-cases (is_neg fd)) [
      | inl refused ↦ absurd (ground (arith, rw (refused, app_setup_uring) at e))
      | inr made ↦
          let same : ring.ring_fd ≡ fd =
            map_rings-ring_fd sys fd p ring (rw (made, app_setup_uring) at e) in
          rw (made, same) refl
    ]

-- what my_fopen leaves behind, when it returns a file
pub record IsOpened (b : ℕ) (h : Host) (st : State) (filename mode : List ℕ) (mf : Pointer MyFile)
    (st1 : State) : Type 0 where
  pub s : Pointer Submitter
  pub fd : ℤ
  pub named : fd ≡ h.open_file filename (open_flags mode)
  pub size : ℕ
  pub ring : app_setup_uring h.sys ≡ some s.target
  pub is_open : is_neg fd ≡ false
  pub sized : get_file_size h.sys fd ≡ pos size
  pub registered : is_neg (h.register_files s.target.ring_fd fd) ≡ false
  pub fi : ℕ
  pub file : mf.target ≡ new_file fd (count_blocks b size) s fi
  pub memory : st1.memory ≡ mf.address ∷ fi ∷ s.address ∷ st.memory
  pub descriptors : st1.descriptors ≡ fd ∷ st.descriptors
  pub ring_fds : st1.ring_fds ≡ ring_fds_after h.sys st.ring_fds
  pub aligned : st1.aligned ≡ st.aligned + aligned_blocks (suc size) h.sys b 0 size
  pub before : World
  pub served : st1.world ≡ h.serve before
  pub kept : KeepsSizes h → (y : FileInfo) × (st1.world.file_info fi ≡ some y) × (y.file_sz ≡ size)
  pub arrival : ℕ
  pub arrived : h.loads arrival ≢ before.word s.target.cq_ring.head

open_registered-IsOpened :
    (polls b : ℕ) (h : Host) (st0 st : State) (filename mode : List ℕ) (s : Pointer Submitter)
    (fd : ℤ) (mf : Pointer MyFile) (st1 : State)
    → fd ≡ h.open_file filename (open_flags mode)
    → app_setup_uring h.sys ≡ some s.target
    → is_neg fd ≡ false
    → st.memory ≡ s.address ∷ st0.memory
    → st.descriptors ≡ fd ∷ st0.descriptors
    → st.ring_fds ≡ ring_fds_after h.sys st0.ring_fds
    → st.aligned ≡ st0.aligned
    → open_registered polls b h st s fd ≡ done (some mf, st1)
    → IsOpened b h st0 filename mode mf st1
unfolding open_registered
open_registered-IsOpened polls b h st0 st filename mode s fd mf st1 named ring up held opened rings
      got e =
    elim (ℤ-cases (get_file_size h.sys fd)) [
      | inl (size, sized) ↦ elim (Bool-cases (is_neg (h.register_files s.target.ring_fd fd))) [
        | inl refused ↦
            let (st', closed, out) =
              bind_done (release s.address (close_fd fd st)) (λ st'. done (none, st'))
                (some mf, st1) (rw (sized, refused, open_registered) at e) in
            absurd (ground (arith, out))
        | inr registered ↦
            let m =
              open_blocks-IsMade polls b h st s fd size (count_blocks b size) mf st1
                (rw (sized, registered, open_registered) at e) in
            record {
              s = s;
              fd = fd;
              named = named;
              size = size;
              ring = ring;
              is_open = up;
              sized = sized;
              registered = registered;
              fi = m.fi;
              file = m.file;
              memory = m.memory ∙ ap (λ t. mf.address ∷ m.fi ∷ t) held;
              descriptors = m.descriptors ∙ opened;
              ring_fds = m.ring_fds ∙ rings;
              aligned = m.aligned ∙ ap (λ n. n + aligned_blocks (suc size) h.sys b 0 size) got;
              before = m.before;
              served = m.served;
              kept = m.kept;
              arrival = m.arrival;
              arrived = m.arrived;
            }
      ]
      | inr (n, failed) ↦ absurd (ground (arith, rw (failed, open_registered) at e))
    ]

pub my_fopen-IsOpened :
    (polls b : ℕ) (h : Host) (st : State) (filename mode : List ℕ) (mf : Pointer MyFile)
    (st1 : State)
    → my_fopen polls b h st filename mode ≡ done (some mf, st1)
    → IsOpened b h st filename mode mf st1
unfolding my_fopen
my_fopen-IsOpened polls b h st filename mode mf st1 e =
    elim (Option-cases (h.omp_alloc st.memory sizeof_submitter)) [
      | inl refused ↦ absurd (ground (arith, rw (refused, my_fopen) at e))
      | inr (a, given) ↦ elim (Option-cases (app_setup_uring h.sys)) [
        | inl refused ↦
            let (st', freed, out) =
              bind_done (release a (ring_set_up h.sys (record st { memory = a ∷ st.memory })))
                (λ st2. done (none, st2)) (some mf, st1) (rw (given, refused, my_fopen) at e) in
            absurd (ground (arith, out))
        | inr (ring, setup) ↦ elim (Bool-cases (is_neg (h.open_file filename (open_flags mode)))) [
          | inl failed ↦ absurd (ground (arith, rw (given, setup, failed, my_fopen) at e))
          | inr up ↦
              open_registered-IsOpened polls b h st _ filename mode
                (record { address = a; target = ring }) (h.open_file filename (open_flags mode)) mf
                st1 refl setup up refl refl refl refl (rw (given, setup, up, my_fopen) at e)
        ]
      ]
    ]
