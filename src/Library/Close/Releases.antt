-- ===== src/Library/Close/Releases.antt =====
-- my_fclose of host.cpp after my_fopen: what the two leave allocated and open.
use io_uring_example.Base.{
  ℕ, ◌≡◌, refl, sym, ap, ◌∙◌, false, some, List, ◌∷◌, done, arith, ℤ, pos, negsuc, is_neg,
}
use io_uring_example.Reader.{Submitter}
use io_uring_example.Library.{Pointer, MyFile, Host, State, release, close_fd}
use io_uring_example.Library.Open.{my_fopen}
use io_uring_example.Library.Open.Returned.{IsOpened, my_fopen-IsOpened}
use io_uring_example.Library.Close.{my_fclose}

pub release_first :
    (a : ℕ) (rest : List ℕ) (st : State)
    → st.memory ≡ a ∷ rest
    → release a st ≡ done (record st { memory = rest })
release_first a rest st e = ground (arith, e)

release_second :
    (a x : ℕ) (rest : List ℕ) (st : State)
    → st.memory ≡ x ∷ a ∷ rest
    → release a st ≡ done (record st { memory = x ∷ rest })
release_second a x rest st e = ground (arith, e)

pub close_fd_first :
    (fd : ℤ) (rest : List ℤ) (st : State)
    → st.descriptors ≡ fd ∷ rest
    → close_fd fd st ≡ record st { descriptors = rest }
close_fd_first (pos n) rest st e = ground (arith, e)
close_fd_first (negsuc n) rest st e = ground (arith, e)

-- an open file whose memory and descriptor are the last ones that the program got
pub record IsHeld (mf : Pointer MyFile) (st : State) (memory : List ℕ) (descriptors : List ℤ)
    : Type 0 where
  pub fi : ℕ
  pub s : Pointer Submitter
  pub has_fi : mf.target.fi ≡ some fi
  pub has_s : mf.target.s ≡ some s
  pub is_open : is_neg mf.target.fd ≡ false
  pub blocks : st.memory ≡ mf.address ∷ fi ∷ s.address ∷ memory
  pub files : st.descriptors ≡ mf.target.fd ∷ descriptors

pub my_fclose-IsHeld :
    (mf : Pointer MyFile) (st : State) (memory : List ℕ) (descriptors : List ℤ)
    → IsHeld mf st memory descriptors
    → my_fclose st (some mf) ≡ done (record st { memory = memory; descriptors = descriptors })
unfolding my_fclose
my_fclose-IsHeld mf st memory descriptors i =
    let closed : State = record st { descriptors = descriptors } in
    let freed : State = record closed { memory = mf.address ∷ i.s.address ∷ memory } in
    let last : State = record closed { memory = mf.address ∷ memory } in
    rw (
      i.is_open,
      close_fd_first mf.target.fd descriptors st i.files,
      i.has_fi,
      release_second i.fi mf.address (i.s.address ∷ memory) closed i.blocks,
      i.has_s,
      release_second i.s.address mf.address memory freed refl,
      release_first mf.address memory last refl,
    )

pub IsOpened-IsHeld :
    (b : ℕ) (h : Host) (st : State) (filename mode : List ℕ) (mf : Pointer MyFile) (st1 : State)
    → IsOpened b h st filename mode mf st1
    → IsHeld mf st1 st.memory st.descriptors
IsOpened-IsHeld b h st filename mode mf st1 o =
    let fd = ap (λ (f : MyFile). f.fd) o.file in
    record {
      fi = o.fi;
      s = o.s;
      has_fi = ap (λ (f : MyFile). f.fi) o.file;
      has_s = ap (λ (f : MyFile). f.s) o.file;
      is_open = ap is_neg fd ∙ o.is_open;
      blocks = o.memory;
      files = o.descriptors ∙ ap (λ z. z ∷ st.descriptors) (sym fd);
    }

-- Whenever my_fopen returns a file, my_fclose of it runs through, and everything that the two got from
-- omp_alloc or open is given back: the program holds the memory and the descriptors that it held before.
pub my_fclose-my_fopen_restores :
    (polls b : ℕ) (h : Host) (st : State) (filename mode : List ℕ) (mf : Pointer MyFile)
    (st1 : State)
    → my_fopen polls b h st filename mode ≡ done (some mf, st1)
    → (st2 : State) × (my_fclose st1 (some mf) ≡ done st2)
      × (st2.memory ≡ st.memory)
      × (st2.descriptors ≡ st.descriptors)
my_fclose-my_fopen_restores polls b h st filename mode mf st1 e =
    let o = my_fopen-IsOpened polls b h st filename mode mf st1 e in
    (
      _,
      my_fclose-IsHeld mf st1 st.memory st.descriptors
          (IsOpened-IsHeld b h st filename mode mf st1 o),
      refl,
      refl,
    )
