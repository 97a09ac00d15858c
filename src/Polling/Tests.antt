-- ===== src/Polling/Tests.antt =====
-- example/polling.c on a machine with a file of two bytes, and with an empty one.
use io_uring_example.Base.{
  ℕ, ◌≡◌, refl, Option, none, some, List, [], ◌∷◌, ◌++◌, length, take, length-take, drop,
  length-drop, min, ◌-◌, get_elem?, done, hang, arith, ℤ, pos, is_neg, false,
}
use io_uring_example.Kernel.{Sqe, Cqe}
use io_uring_example.Liburing.{Liburing, Answers, Queues}
use io_uring_example.Polling.{FileInfo, Poll, handle, round, my_fread, my_fopen, my_close, main}
use io_uring_example.Polling.Output.{written}
use io_uring_example.Polling.Rounds.{Reach}
use io_uring_example.Polling.Prefix.{my_fopen-written}
use io_uring_example.Polling.Whole.{main-never}
use io_uring_example.Polling.Close.{my_close-leaks}

record Machine : Type 0 where
  pub filled : List Sqe
  pub handed : List Sqe

abbrev content : ℤ → List ℕ
content fd = 104 ∷ 105 ∷ []

abbrev zero_sqe : Sqe
zero_sqe = record {
  opcode = 0;
  flags = 0;
  ioprio = 0;
  fd = pos 0;
  off = 0;
  addr = 0;
  len = 0;
  rw_flags = 0;
  user_data = 0;
  buf_index = 0;
  personality = 0;
  file_index = 0;
  pad2_0 = 0;
  pad2_1 = 0;
}

-- A completion stands there as soon as a request does; `read` is its result.
abbrev answer : (Sqe → ℤ) → List Sqe → Option Cqe
answer read [] = none
answer read (q ∷ qs) = some (record { user_data = q.user_data; res = read q; flags = 0 })

abbrev tail_of {ℓ} : {A : Type ℓ} → List A → List A
tail_of [] = []
tail_of (x ∷ xs) = xs

-- the buffer of the first request, as the kernel fills it
abbrev stored : ℕ → List Sqe → List ℕ
stored n [] = []
stored n (q ∷ qs) = take n (drop q.off (content q.fd))

abbrev machine : (Sqe → ℤ) → Liburing Machine
machine read = record {
  queue_init = λ n p m. some (record { filled = []; handed = [] });
  queue_exit = λ m. record { filled = []; handed = [] };
  get_sqe = λ m. some (0, m);
  write_sqe = λ slot f m. record m { filled = f zero_sqe ∷ m.filled };
  submit = λ m. record { filled = []; handed = m.filled ++ m.handed };
  peek_cqe = λ m. answer read m.handed;
  cqe_seen = λ m. record m { handed = tail_of m.handed };
  open_file = λ name m. (pos 3, m);
  close = λ fd m. m;
  memory = λ a n m. stored n m.handed;
  step = λ m. m;
}

-- one call of read for all that is left
abbrev rest_of : Sqe → ℤ
rest_of q = pos (length (take q.len (drop q.off (content q.fd))))

res_lem :
    (q : Sqe) (qs : List Sqe) (c : Cqe) (n : ℕ)
    → answer rest_of (q ∷ qs) ≡ some c
    → c.res ≡ pos n
    → n ≡ min q.len (2 - q.off)
res_lem q qs c n e h =
    let same : c.res ≡ rest_of q = ground (arith, e) in
    let k : n ≡ length (take q.len (drop q.off (content q.fd))) = ground (arith, same, h) in
    omega
      (arith, k, length-take q.len (drop q.off (content q.fd)), length-drop q.off (content q.fd))

-- the laws on a list of requests
peeked :
    (handed : List Sqe) (filled : List Sqe) (c : Cqe)
    → answer rest_of handed ≡ some c
    → (before : List Sqe) × (q : Sqe) × (after : List Sqe) × (handed ≡ before ++ q ∷ after)
      × Answers (machine rest_of) content (record { filled = filled; handed = handed }) q c
      × (tail_of handed ≡ before ++ after)
peeked [] filled c e = ground (arith, e)
peeked (q ∷ qs) filled c e = (
  [],
  q,
  qs,
  refl,
  record {
    same = ground (arith, e);
    few = λ n h. omega (arith, res_lem q qs c n e h);
    bytes = λ n h. refl;
    at_end = λ l h. omega (arith, res_lem q qs c 0 e h);
  },
  refl,
)

abbrev queues : Queues (machine rest_of) content
queues = record {
  submitted = λ m. m.handed;
  prepared = λ m. m.filled;
  on_prepare = λ slot f m m' e. (zero_sqe, ground (arith, e));
  on_submit = λ m. refl;
  open_submitted = λ name m. refl;
  open_prepared = λ name m. refl;
  on_get = λ slot m m' e. ground (arith, e);
  get_peek = λ slot m m' e. ground (arith, e);
  on_write = λ slot f m. refl;
  write_peek = λ slot f m. refl;
  on_step = λ m. refl;
  peeked = λ m c e. peeked m.handed m.filled c e;
}

-- no read of this machine fails
no_error : (m : Machine) (c : Cqe) → answer rest_of m.handed ≡ some c → is_neg c.res ≡ false
no_error m c e = no_error_by m.handed c e
  where
    no_error_by : (qs : List Sqe) (c : Cqe) → answer rest_of qs ≡ some c → is_neg c.res ≡ false
    no_error_by [] c e = ground (arith, e)
    no_error_by (q ∷ qs) c e = ground (arith, e)

abbrev fresh : Machine
fresh = record { filled = []; handed = [] }

main-never_example : main (machine rest_of) 100 0 ([] ∷ []) fresh ≡ hang
main-never_example =
    main-never (machine rest_of) content queues 100 0 [] [] fresh fresh (omega arith) refl refl refl
      (λ name m h. omega arith) no_error

-- after one round of a file that gives no byte
abbrev waiting : Poll Machine
waiting = record {
  address = 0;
  files = some (record { fd = pos 3; offset = 0 }) ∷ [];
  num_files = 1;
  output = [];
  ring = record { filled = []; handed = zero_sqe ∷ [] };
}

my_fread_ends :
    my_fread (machine (λ q. pos 0)) 1 waiting
    ≡ done (record waiting { num_files = 0; ring = fresh })
unfolding my_fread round handle
my_fread_ends = refl

my_close-leaks_example :
    my_close (machine (λ q. pos 0)) (record waiting { num_files = 0; ring = fresh }) ≡ done fresh
my_close-leaks_example = my_close-leaks (machine (λ q. pos 0)) 1 waiting _ my_fread_ends

my_fopen-written_example :
    (st0 : Poll Machine) × (my_fopen (machine rest_of) 0 ([] ∷ [] ∷ []) fresh ≡ done (some st0))
    × ((st : Poll Machine)
        → Reach (machine rest_of) content queues st0 st
        → ((st' : Poll Machine) × (round (machine rest_of) st ≡ done st'))
          × ((i : ℕ) (fi : FileInfo)
              → get_elem? st.files i ≡ some (some fi)
              → written i st.output ≡ take fi.offset (content fi.fd)))
my_fopen-written_example =
    my_fopen-written (machine rest_of) content queues 0 [] ([] ∷ []) fresh fresh (omega arith) refl
      refl refl
