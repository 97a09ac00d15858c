-- ===== src/Library/Open/Kept.antt =====
-- my_fopen of host.cpp: the size in the file_info, through the submission and the kernel's part.
use io_uring_example.Base.{ℕ, ◌+◌, ◌≡◌, refl, inl, inr, Bool-cases, bit_and, some, ◌==◌, arith, ℤ}
use io_uring_example.Kernel.{sq_need_wakeup, enter_sq_wakeup}
use io_uring_example.Reader.{Submitter, FileInfo, World}
use io_uring_example.Reader.Open.{submit_readv}
use io_uring_example.Library.{Host}
use io_uring_example.Library.Open.{wake}

-- The kernel does not change the size that a file_info holds.
abbrev pub Keeps : (World → World) → Type 0
Keeps f =
    (w : World) (a : ℕ) (x : FileInfo)
    → w.file_info a ≡ some x
    → (y : FileInfo) × ((f w).file_info a ≡ some y) × (y.file_sz ≡ x.file_sz)

pub record KeepsSizes (h : Host) : Type 0 where
  pub enter_keeps :
      (fd : ℤ) (to_submit min_complete flags : ℕ)
      → Keeps (λ w. (h.enter w fd to_submit min_complete flags).1)
  pub serve_keeps : Keeps h.serve

pub submit_readv-file_info :
    (w : World) (ring : Submitter) (fd : ℤ) (addr len user_data a : ℕ)
    → (submit_readv w ring fd addr len user_data).file_info a ≡ w.file_info a
unfolding submit_readv
submit_readv-file_info w ring fd addr len user_data a = ground arith

pub wake-Keeps : (h : Host) (ring : Submitter) → KeepsSizes h → Keeps (λ w. (wake h.enter w ring).1)
unfolding wake
wake-Keeps h ring k w a x e =
    elim (Bool-cases (bit_and (w.word ring.sq_ring.flags) sq_need_wakeup == 0)) [
      | inl awake ↦ rw (awake, wake) (x, e, refl)
      | inr asleep ↦
          rw (asleep, wake)
            (k.enter_keeps ring.ring_fd 1 1 enter_sq_wakeup
              (record w { system_times = w.system_times + 1 }) a x e)
    ]
