-- ===== src/Console/Request.antt =====
-- example/omp_io_uring_polling.c: the request for a file that can be read, from its opening to its completion.
use io_uring_example.Base.{
  ℕ, zero, suc, ◌≤◌, ◌<◌, ◌^◌, ◌≡◌, refl, sym, ap, ◌∙◌, false, Option, none, some, List, [], ◌∷◌,
  ◌++◌, length, replicate, done, arith, ℤ, pos, is_neg, to_size, to_unsigned_small,
}
use io_uring_example.Kernel.{Cqe}
use io_uring_example.Reader.{Iovc, FileInfo, update}
use io_uring_example.Reader.Spec.{entries, AreBlocks}
use io_uring_example.Reader.Setup.{size_of_fd}
use io_uring_example.Reader.Open.{count_blocks, file_info_bytes, fill_iovecs}
use io_uring_example.Reader.Open.Blocks.{count_blocks-IsCount}
use io_uring_example.Reader.Open.Fill.{Aligns, total_size, fill_iovecs-Fills}
use io_uring_example.Reader.Open.Opened.{capacity_lem}
use io_uring_example.Manual.Reap.{sized, AreSized}
use io_uring_example.Console.{
  Machine, Calls, get_entry, send_readv, send_request, request_blocks, submit_read_request,
}

-- What readv(2) does for a file with this content, from its start on and into all of the blocks, which hold it: all of it is read, and the bytes stand in
-- the blocks, of each as many as its iov_len says.
pub record ReadsWhole (b : ℕ) (k : Calls) (fd : ℤ) (content : List ℕ) : Type 0 where
  pub reads :
      (vs : List Iovc)
      → AreBlocks b vs
      → AreSized vs
      → total_size vs ≡ length content
      → count_blocks b (length content) ≡ pos (length vs)
      → (vs' : List Iovc) × (k.readv fd
            (record { file_sz = length content; iovecs = entries vs })
            (length vs)
            0
          ≡ (pos (length content), record { file_sz = length content; iovecs = entries vs' }))
        × (length vs' ≡ length vs)
        × AreSized vs'
        × (content ≡ sized vs')

-- A file that can be opened and read, with memory and an entry of the queue for its request.
pub record Serves (b : ℕ) (k : Calls) (name content : List ℕ) : Type 0 where
  pub fd : ℕ
  pub found : k.sys.open_fd name ≡ pos fd
  pub size : size_of_fd k.sys (pos fd) ≡ pos (length content)
  pub small : length content < 2 ^ 31
  pub address : ℕ → ℕ
  pub alloc : (n : ℕ) → k.sys.alloc n ≡ some (address n)
  pub aligns : Aligns k.sys b
  pub entry : ℕ
  pub given : k.get_sqe 0 ≡ some entry
  pub whole : ReadsWhole b k (pos fd) content

-- the completion of a request, and what it belongs to
pub record IsAnswered (b : ℕ) (content : List ℕ) (m m1 : Machine) : Type 0 where
  pub cqe : Cqe
  pub queued : m1.queue ≡ m.queue ++ cqe ∷ []
  pub success : is_neg cqe.res ≡ false
  pub vs : List Iovc
  pub stored :
      m1.info cqe.user_data ≡ some (record { file_sz = length content; iovecs = entries vs })
  pub count : count_blocks b (length content) ≡ pos (length vs)
  pub sizes : AreSized vs
  pub held : content ≡ sized vs
  pub output : m1.output ≡ m.output

to_size_small : (n : ℕ) → n < 2 ^ 31 → to_size (pos n) ≡ n
unfolding to_size
to_size_small n h = omega arith

get_entry-given :
    (tries : ℕ) (k : Calls) (entry : ℕ)
    → 0 < tries
    → k.get_sqe 0 ≡ some entry
    → get_entry tries k 0 ≡ done (some entry)
unfolding get_entry
get_entry-given zero k entry h e = absurd (omega arith)
get_entry-given (suc tries) k entry h e = rw (e, get_entry)

-- a store, read back
read_update : (f : ℕ → Option FileInfo) (a : ℕ) (v : Option FileInfo) → update f a v a ≡ v
read_update f a v = ground arith

module _ (tries b : ℕ) (k : Calls) (file_fd : ℤ) (fi entry : ℕ) (m : Machine) where
  send_request-sent :
      (info : FileInfo) (r : ℕ)
      → 0 < tries
      → k.get_sqe 0 ≡ some entry
      → r < 2 ^ 31
      → send_request tries k file_fd fi info (pos r) m
        ≡ done (0, send_readv k file_fd fi info r 0 m)
  unfolding send_request
  send_request-sent info r h e small =
      rw (get_entry-given tries k entry h e, to_unsigned_small r small)

  request_blocks-sent :
      (n r : ℕ) (iovecs : List (Option Iovc))
      → 0 < tries
      → k.get_sqe 0 ≡ some entry
      → n < 2 ^ 31
      → count_blocks b n ≡ pos r
      → r ≤ n
      → k.sys.alloc (file_info_bytes (pos r)) ≡ some fi
      → fill_iovecs (suc n) k.sys b (replicate r none) 0 n ≡ done (some iovecs)
      → request_blocks tries b k file_fd (pos n) m
        ≡ done (0, send_readv k file_fd fi (record { file_sz = n; iovecs = iovecs }) r 0 m)
  unfolding request_blocks
  request_blocks-sent n r iovecs ht e small counted le given filled =
      rw (to_size_small n small, counted, request_blocks)
        (rw (given, capacity_lem r (omega arith), filled)
          (rw (to_size_small n small, counted)
            (send_request-sent (record { file_sz = n; iovecs = iovecs }) r ht e (omega arith))))

module _ (tries b : ℕ) (k : Calls) (name content : List ℕ) (m : Machine) where
  opened_request :
      (fd : ℕ)
      → k.sys.open_fd name ≡ pos fd
      → size_of_fd k.sys (pos fd) ≡ pos (length content)
      → submit_read_request tries b k name m
        ≡ request_blocks tries b k
            (pos fd)
            (pos (length content))
            (record m { descriptors = pos fd ∷ m.descriptors })
  unfolding submit_read_request
  opened_request fd found size = simp (found, size, submit_read_request)

  pub submit_read_request-IsAnswered :
      0 < b
      → 0 < tries
      → Serves b k name content
      → (m1 : Machine) × (submit_read_request tries b k name m ≡ done (0, m1))
        × IsAnswered b content m m1
  submit_read_request-IsAnswered h ht s =
      let n = length content in
      let (r, counted, count, le_size) = count_blocks-IsCount b n h s.small in
      let (vs, filled, len, blocks, total, fit) =
        fill_iovecs-Fills k.sys b h s.aligns (suc n) [] r n count (omega arith)
          (omega (arith, s.small)) in
      let (vs', read, len', sizes, held) =
        s.whole.reads vs blocks fit total (counted ∙ ap pos (sym len)) in
      let asked : k.readv (pos s.fd) (record { file_sz = n; iovecs = entries vs }) r 0
          ≡ (pos n, record { file_sz = n; iovecs = entries vs' }) =
        rw len at read in
      let fi = s.address (file_info_bytes (pos r)) in
      let info : FileInfo = record { file_sz = n; iovecs = entries vs } in
      let opened : Machine = record m { descriptors = pos s.fd ∷ m.descriptors } in
      let sent =
        request_blocks-sent tries b k (pos s.fd) fi s.entry opened n r (entries vs) ht s.given
          s.small counted le_size (s.alloc (file_info_bytes (pos r))) filled in
      (
        send_readv k (pos s.fd) fi info r 0 opened,
        opened_request s.fd s.found s.size ∙ sent,
        record {
          cqe = record { user_data = fi; res = (k.readv (pos s.fd) info r 0).0; flags = 0 };
          queued = refl;
          success = ap (λ (p : ℤ × FileInfo). is_neg p.0) asked;
          vs = vs';
          stored =
              read_update m.info fi (some (k.readv (pos s.fd) info r 0).1)
              ∙ ap (λ (p : ℤ × FileInfo). some p.1) asked;
          count = counted ∙ ap pos (sym (len' ∙ len));
          sizes = sizes;
          held = held;
          output = refl;
        },
      )
