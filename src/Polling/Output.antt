-- ===== src/Polling/Output.antt =====
-- my_fread of example/polling.c: what has been written of each file, whatever the order of the completions.
use io_uring_example.Base.{
  ℕ, ◌<◌, ◌^◌, ◌≡◌, ◌≢◌, sym, ap, ◌∙◌, inl, inr, Option, some, List, [], ◌∷◌, ◌++◌, append_assoc,
  append-nil, take, get_elem?, set, All, All-middle, get_elem?-set_other, Bool-cases, ◌==◌,
  if◌then◌else◌, ℤ,
}
use io_uring_example.Kernel.{Sqe, Cqe}
use io_uring_example.Liburing.{Liburing, Queues}
use io_uring_example.Polling.{FileInfo, Poll, buffer_size, buf_address}

-- the bytes that were written of the file with an index
abbrev pub written : ℕ → List (ℕ × List ℕ) → List ℕ
written i [] = []
written i ((j, bytes) ∷ output) = if j == i then bytes ++ written i output else written i output

pub written-append :
    (i j : ℕ) (bytes : List ℕ) (output : List (ℕ × List ℕ))
    → written i (output ++ (j, bytes) ∷ []) ≡ written i output ++ (if j == i then bytes else [])
written-append i j bytes [] = elim (Bool-cases (j == i)) [
  | inl same ↦ rw same (append-nil bytes)
  | inr other ↦ rw other
]
written-append i j bytes ((k, more) ∷ output) = elim (Bool-cases (k == i)) [
  | inl same ↦ rw same (
      ap (λ t. more ++ t) (written-append i j bytes output)
      ∙ sym (append_assoc more (written i output) (if j == i then bytes else [])))
  | inr other ↦ rw other (written-append i j bytes output)
]

-- requests with different indices
abbrev pub Apart : List Sqe → Type 0
Apart [] = Unit
Apart (q ∷ qs) = All (λ p. p.user_data ≢ q.user_data) qs × Apart qs

All-zip : (P Q : Sqe → Type 0) (qs : List Sqe) → All P qs → All Q qs → All (λ q. P q × Q q) qs
All-zip P Q [] h k = tt
All-zip P Q (q ∷ qs) h k = ((h.0, k.0), All-zip P Q qs h.1 k.1)

Apart-middle :
    (before : List Sqe) (q : Sqe) (after : List Sqe)
    → Apart (before ++ q ∷ after)
    → All (λ p. p.user_data ≢ q.user_data) (before ++ after) × Apart (before ++ after)
Apart-middle [] q after h = (h.0, h.1)
Apart-middle (p ∷ before) q after h =
    let (first, others) = All-middle (λ (r : Sqe). r.user_data ≢ p.user_data) before q after h.0 in
    let (differ, apart) = Apart-middle before q after h.1 in
    ((λ e. first (sym e), differ), (others, apart))

-- a request for the next bytes of the file that its index names, into the buffer of that file
pub record Matches (address : ℕ) (files : List (Option FileInfo)) (q : Sqe) : Type 0 where
  pub fi : FileInfo
  pub set_at : get_elem? files q.user_data ≡ some (some fi)
  pub fd : q.fd ≡ fi.fd
  pub off : q.off ≡ fi.offset
  pub addr : q.addr ≡ buf_address address q.user_data
  pub len : q.len ≡ buffer_size
  pub small : fi.offset < 2 ^ 63

pub Matches-set :
    (address : ℕ) (files : List (Option FileInfo)) (i : ℕ) (fi : FileInfo) (q : Sqe)
    → Matches address files q × (q.user_data ≢ i)
    → Matches address (set files i (some fi)) q
Matches-set address files i fi q (m, other) = record {
  fi = m.fi;
  set_at = get_elem?-set_other files i q.user_data (some fi) (λ e. other (sym e)) ∙ m.set_at;
  fd = m.fd;
  off = m.off;
  addr = m.addr;
  len = m.len;
  small = m.small;
}

module _ {M : Type 0} (liburing : Liburing M) (content : ℤ → List ℕ)
    (queues : Queues liburing content) where
  -- Each file has one request at most, for its next bytes, and its bytes before them have been written.
  pub record IsPrinted (st : Poll M) : Type 0 where
    pub requests : All (Matches st.address st.files) (queues.submitted st.ring)
    pub apart : Apart (queues.submitted st.ring)
    pub printed :
        (i : ℕ) (fi : FileInfo)
        → get_elem? st.files i ≡ some (some fi)
        → written i st.output ≡ take fi.offset (content fi.fd)

  -- the requests that are left when a completion was seen
  pub seen_others :
      (P : Sqe → Type 0) (m : M) (c : Cqe)
      → All P (queues.submitted m)
      → Apart (queues.submitted m)
      → liburing.peek_cqe m ≡ some c
      → All (λ q. P q × (q.user_data ≢ c.user_data)) (queues.submitted (liburing.cqe_seen m))
        × Apart (queues.submitted (liburing.cqe_seen m))
  seen_others P m c h a e =
      let (before, q, after, all, answers, rest) = queues.peeked m c e in
      let kept = (All-middle P before q after (rw (sym all) h)).1 in
      let (differ, apart) = Apart-middle before q after (rw (sym all) a) in
      (
        rw (rest, answers.same)
            (All-zip P (λ p. p.user_data ≢ q.user_data) (before ++ after) kept differ),
        rw rest apart,
      )
