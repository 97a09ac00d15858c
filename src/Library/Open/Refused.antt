-- ===== src/Library/Open/Refused.antt =====
-- my_fopen of host.cpp, where it returns NULL before it has allocated the blocks.
use io_uring_example.Base.{ℕ, ◌≡◌, true, false, none, some, List, ◌∷◌, ℤ, pos, negsuc, is_neg}
use io_uring_example.Reader.{Submitter}
use io_uring_example.Library.{Host, State}
use io_uring_example.Library.Open.{get_file_size, app_setup_uring, open_flags}

module _ (polls b : ℕ) (h : Host) (st : State) (filename mode : List ℕ) (a : ℕ) where
  abbrev fd : ℤ
  fd = h.open_file filename (open_flags mode)

  -- The reasons to give up, with the memory and the descriptors that are still held then; `a` is the
  -- submitter.
  pub data Refusal : List ℕ → List ℤ → Type 0 where
    no_ring : app_setup_uring h.sys ≡ none → Refusal st.memory st.descriptors
    no_file :
        (ring : Submitter)
        → app_setup_uring h.sys ≡ some ring
        → is_neg fd ≡ true
        → Refusal (a ∷ st.memory) st.descriptors
    no_size :
        (ring : Submitter) (n : ℕ)
        → app_setup_uring h.sys ≡ some ring
        → is_neg fd ≡ false
        → get_file_size h.sys fd ≡ negsuc n
        → Refusal (a ∷ st.memory) (fd ∷ st.descriptors)
    not_registered :
        (ring : Submitter) (n : ℕ)
        → app_setup_uring h.sys ≡ some ring
        → is_neg fd ≡ false
        → get_file_size h.sys fd ≡ pos n
        → is_neg (h.register_files ring.ring_fd fd) ≡ true
        → Refusal st.memory st.descriptors
