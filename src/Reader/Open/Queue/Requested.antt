-- ===== src/Reader/Open/Queue/Requested.antt =====
-- The memory after the blocks of a file were stored and their readv was put on the submission ring, as
-- my_fopen of example/io_uring_read.c and submit_to_sq of example/omp_io_uring_manual.c do.
use io_uring_example.Base.{
  ℕ, ◌+◌, ◌<◌, ◌^◌, ◌≡◌, ◌≢◌, refl, ap, ◌∙◌, some, List, [], ◌∷◌, ◌++◌, length, arith, ℤ,
}
use io_uring_example.Reader.{Submitter, Iovc, World, update}
use io_uring_example.Reader.Spec.{entries}
use io_uring_example.Reader.Open.{submit_readv, sizeof_file_info}
use io_uring_example.Reader.Open.Submit.{Submitted, submit_readv-Submitted}
use io_uring_example.Reader.Open.Queue.{readv, IsApart, count, pending, IsRing, window_same}
use io_uring_example.Reader.Open.Queue.Submits.{submit_readv-IsRing, pending-submit_readv}

-- the memory with the blocks of a file of `n` bytes
abbrev pub with_file : World → ℕ → ℕ → List Iovc → World
with_file w n fi vs = record w {
  file_info = update w.file_info fi (some (record { file_sz = n; iovecs = entries vs }));
}

-- the memory with the request besides
abbrev pub with_request : Submitter → World → ℤ → ℕ → ℕ → List Iovc → World
with_request s w fd n fi vs =
    submit_readv (with_file w n fi vs) s fd (fi + sizeof_file_info) (length vs) fi

-- In `w1` there is one request more on the ring than in `w`: a readv of the file `fd`, from its start, into the
-- blocks, which stand in the file_info at `fi` with the size of the file.
pub record IsRequested (s : Submitter) (k : ℕ) (w : World) (fd : ℤ) (n fi : ℕ) (vs : List Iovc)
    (w1 : World) : Type 0 where
  pub ring : IsRing s k w1
  pub queued :
      pending s k w1 ≡ pending s k w ++ readv fd (fi + sizeof_file_info) (length vs) fi ∷ []
  pub stored : w1.file_info fi ≡ some (record { file_sz = n; iovecs = entries vs })
  pub other_files : (a : ℕ) → a ≢ fi → w1.file_info a ≡ w.file_info a
  pub completions : w1.cqe ≡ w.cqe

module _ (s : Submitter) (k : ℕ) (w : World) (r : IsRing s k w) (apart : IsApart s)
    (room : count s k w < 2 ^ k) (fd : ℤ) (n fi : ℕ) (vs : List Iovc) where
  abbrev stored : World
  stored = with_file w n fi vs

  abbrev after : World
  after = with_request s w fd n fi vs

  stored-IsRing : IsRing s k stored
  stored-IsRing = record {
    size = r.size;
    mask = r.mask;
    head_word = r.head_word;
    tail_word = r.tail_word;
    bound = r.bound;
    listed = r.listed;
  }

  pub with_request-Submitted : Submitted stored s fd (fi + sizeof_file_info) (length vs) fi after
  with_request-Submitted =
      submit_readv-Submitted stored s fd (fi + sizeof_file_info) (length vs) fi
        (let t = apart.tail_before in omega arith) r.tail_word

  pub with_request-IsRequested : IsRequested s k w fd n fi vs after
  with_request-IsRequested =
      let files = with_request-Submitted.files in
      let h = w.word s.sq_ring.head in
      record {
        ring =
            submit_readv-IsRing s k stored stored-IsRing apart fd (fi + sizeof_file_info)
              (length vs) fi room;
        queued =
            pending-submit_readv s k stored stored-IsRing apart fd (fi + sizeof_file_info)
              (length vs) fi room
            ∙ ap (λ q. q ++ readv fd (fi + sizeof_file_info) (length vs) fi ∷ [])
                (window_same s k w stored h h (count s k w) (λ i lt. refl));
        stored = ap (λ (f : ℕ → _). f fi) files ∙ ground arith;
        other_files = λ a other. ap (λ (f : ℕ → _). f a) files ∙ ground arith;
        completions = with_request-Submitted.completions;
      }
