-- ===== src/Liburing.antt =====
-- The calls of liburing that example/polling.c and example/io_uring_polling.c make, which the programs take
-- as they are, and the documented behaviour that the theorems rely on.
use io_uring_example.Base.{
  ℕ, ◌≤◌, ◌<◌, ◌≡◌, Option, some, List, ◌∷◌, ◌++◌, take, drop, length, ℤ, pos,
}
use io_uring_example.Kernel.{Sqe, Cqe, Params}

-- `M` is a ring together with the rest of the machine.
pub record Liburing (M : Type 0) : Type 0 where
  -- io_uring_queue_init_params(entries, ring, &params), where it succeeds
  pub queue_init : ℕ → Params → M → Option M
  pub queue_exit : M → M
  -- io_uring_get_sqe: the entry that the program may fill, and the queue after it
  pub get_sqe : M → Option (ℕ × M)
  -- a store to the fields of an entry
  pub write_sqe : ℕ → (Sqe → Sqe) → M → M
  pub submit : M → M
  -- io_uring_peek_cqe, where it returns 0 and an entry
  pub peek_cqe : M → Option Cqe
  pub cqe_seen : M → M
  -- open(name, O_RDONLY) and close(fd)
  pub open_file : List ℕ → M → ℤ × M
  pub close : ℤ → M → M
  -- the bytes from an address on
  pub memory : ℕ → ℕ → M → List ℕ
  -- what the kernel does while the program sleeps
  pub step : M → M

module _ {M : Type 0} (liburing : Liburing M) (content : ℤ → List ℕ) where
  -- A completion answers a read request: no more bytes than asked for, those of the file from the
  -- request's offset on, and none only at the end of the file or if none were asked for.
  pub record Answers (m : M) (q : Sqe) (c : Cqe) : Type 0 where
    pub same : c.user_data ≡ q.user_data
    pub few : (n : ℕ) → c.res ≡ pos n → n ≤ q.len
    pub bytes :
        (n : ℕ) → c.res ≡ pos n → liburing.memory q.addr n m ≡ take n (drop q.off (content q.fd))
    pub at_end : 0 < q.len → c.res ≡ pos 0 → length (content q.fd) ≤ q.off

  -- `submitted` are the requests that the kernel has been given and the program has not yet seen
  -- answered. An entry that get_sqe gave is handed to the kernel by a later call of submit, and by nothing else.
  pub record Queues : Type 0 where
    pub submitted : M → List Sqe
    -- the entries that were filled and not yet handed over
    pub prepared : M → List Sqe
    pub on_prepare :
        (slot : ℕ) (f : Sqe → Sqe) (m m' : M)
        → liburing.get_sqe m ≡ some (slot, m')
        → (stale : Sqe) × (prepared (liburing.write_sqe slot f m') ≡ f stale ∷ prepared m)
    pub on_submit : (m : M) → submitted (liburing.submit m) ≡ prepared m ++ submitted m
    pub open_submitted :
        (name : List ℕ) (m : M) → submitted (liburing.open_file name m).1 ≡ submitted m
    pub open_prepared :
        (name : List ℕ) (m : M) → prepared (liburing.open_file name m).1 ≡ prepared m
    pub on_get :
        (slot : ℕ) (m m' : M) → liburing.get_sqe m ≡ some (slot, m') → submitted m' ≡ submitted m
    pub get_peek :
        (slot : ℕ) (m m' : M)
        → liburing.get_sqe m ≡ some (slot, m')
        → liburing.peek_cqe m' ≡ liburing.peek_cqe m
    pub on_write :
        (slot : ℕ) (f : Sqe → Sqe) (m : M) → submitted (liburing.write_sqe slot f m) ≡ submitted m
    pub write_peek :
        (slot : ℕ) (f : Sqe → Sqe) (m : M)
        → liburing.peek_cqe (liburing.write_sqe slot f m) ≡ liburing.peek_cqe m
    pub on_step : (m : M) → submitted (liburing.step m) ≡ submitted m
    pub peeked :
        (m : M) (c : Cqe)
        → liburing.peek_cqe m ≡ some c
        → (before : List Sqe) × (q : Sqe) × (after : List Sqe) × (submitted m ≡ before ++ q ∷ after)
          × Answers m q c
          × (submitted (liburing.cqe_seen m) ≡ before ++ after)
