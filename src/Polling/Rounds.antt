-- ===== src/Polling/Rounds.antt =====
-- Rounds of my_fread of example/polling.c, in any number: the output of each file stays the beginning of it.
use io_uring_example.Base.{
  ℕ, ◌+◌, ◌≤◌, ◌≡◌, ◌≢◌, refl, sym, ap, ap₂, ◌∙◌, inl, inr, ◌⊎◌, ◌-◌, Option-cases, some, List,
  ◌++◌, append-nil, take, drop, take-append-take, get_elem?, set, All-map, All-middle,
  get_elem?-set_same, get_elem?-set_other, arith, done, done_inj, Bool-cases, ltb, ltb→lt,
  ltb_false→le, ◌==◌, ℤ, ℤ-cases, pos, negsuc, u64,
}
use io_uring_example.Kernel.{Sqe, Cqe}
use io_uring_example.Liburing.{Liburing, Answers, Queues}
use io_uring_example.Polling.{FileInfo, Poll, buffer_size, buf_address, setup_read, handle, round}
use io_uring_example.Polling.Never.{setup_read_lem, handle_bytes, delivered}
use io_uring_example.Polling.Output.{
  written, written-append, Matches, Matches-set, IsPrinted, seen_others,
}

handle_ended :
    {M : Type 0} (liburing : Liburing M) (st : Poll M) (c : Cqe)
    → (c.res ≡ pos 0) ⊎ ((n : ℕ) × (c.res ≡ negsuc n))
    → handle liburing c st ≡ done (record st { num_files = st.num_files - 1 })
unfolding handle
handle_ended liburing st c (inl e) = rw (e, handle)
handle_ended liburing st c (inr (n, e)) = rw (e, handle)

module _ {M : Type 0} (liburing : Liburing M) (content : ℤ → List ℕ)
    (queues : Queues liburing content) where
  ended-IsPrinted :
      (st : Poll M) (c : Cqe)
      → IsPrinted liburing content queues st
      → liburing.peek_cqe st.ring ≡ some c
      → (c.res ≡ pos 0) ⊎ ((n : ℕ) × (c.res ≡ negsuc n))
      → (st' : Poll M) × (round liburing st ≡ done st') × IsPrinted liburing content queues st'
  unfolding round
  ended-IsPrinted st c p e h =
      let (others, apart) =
        seen_others liburing content queues (Matches st.address st.files) st.ring c p.requests
          p.apart e in
      (
        record st { num_files = st.num_files - 1; ring = liburing.cqe_seen st.ring },
        rw (e, round, handle_ended liburing st c h),
        record {
          requests =
              All-map (λ q. Matches st.address st.files q × (q.user_data ≢ c.user_data))
                (Matches st.address st.files) (λ q m. m.0) _ others;
          apart = apart;
          printed = p.printed;
        },
      )

  -- the output of each file after `n` bytes of one
  more_printed :
      (st : Poll M) (q : Sqe) (c : Cqe) (n : ℕ)
      → IsPrinted liburing content queues st
      → (m : Matches st.address st.files q) → Answers liburing content st.ring q c
      → c.res ≡ pos n
      → (j : ℕ) (fj : FileInfo)
      → get_elem? (delivered liburing content queues st c.user_data n m.fi).files j ≡ some (some fj)
      → written j (delivered liburing content queues st c.user_data n m.fi).output
        ≡ take fj.offset (content fj.fd)
  more_printed st q c n p m a is_n j fj e =
      let fi' : FileInfo = record m.fi { offset = u64 (m.fi.offset + n) } in
      let bytes = liburing.memory (buf_address st.address c.user_data) n st.ring in
      written-append j c.user_data bytes st.output ∙ elim (Bool-cases (c.user_data == j)) [
        | inl same ↦
            let here : c.user_data ≡ j = ground (arith, same) in
            let at : get_elem? st.files j ≡ some (some m.fi) = rw (sym here, a.same) m.set_at in
            let now : get_elem? (set st.files c.user_data (some fi')) j ≡ some (some fi') =
              rw here (get_elem?-set_same st.files j (some m.fi) (some fi') at) in
            let is_fi : fj ≡ fi' = ground (arith, sym e ∙ now) in
            rw (same, is_fi)
              (ap₂ ◌++◌ (p.printed j m.fi at) (
                  ap (λ (i : ℕ). liburing.memory (buf_address st.address i) n st.ring) a.same
                  ∙ ap (λ (x : ℕ). liburing.memory x n st.ring) (sym m.addr)
                  ∙ a.bytes n is_n
                  ∙ ap₂ (λ (o : ℕ) (f : ℤ). take n (drop o (content f))) m.off m.fd)
                ∙ take-append-take m.fi.offset n fi'.offset (content m.fi.fd)
                    (omega (arith, a.few n is_n, m.len, m.small)))
        | inr other ↦
            let d : c.user_data ≢ j = ground (arith, other) in
            rw other (
              append-nil (written j st.output)
              ∙ p.printed j fj (sym (get_elem?-set_other st.files c.user_data j (some fi') d) ∙ e))
      ]

  delivered-IsPrinted :
      (st : Poll M) (q : Sqe) (c : Cqe) (n : ℕ)
      → IsPrinted liburing content queues st
      → (m : Matches st.address st.files q) → Answers liburing content st.ring q c
      → liburing.peek_cqe st.ring ≡ some c
      → c.res ≡ pos n
      → IsPrinted liburing content queues
          (record (delivered liburing content queues st c.user_data n m.fi) {
            ring = liburing.cqe_seen (delivered liburing content queues st c.user_data n m.fi).ring;
          })
  delivered-IsPrinted st q c n p m a e is_n =
      let fi' : FileInfo = record m.fi { offset = u64 (m.fi.offset + n) } in
      let (same, peek) =
        setup_read_lem liburing content queues st.address c.user_data fi' st.ring _ refl in
      let (others, apart) =
        seen_others liburing content queues (Matches st.address st.files)
          (setup_read liburing st.address c.user_data fi' st.ring) c (rw same p.requests)
          (rw same p.apart) (peek ∙ e) in
      record {
        requests =
            All-map (λ q. Matches st.address st.files q × (q.user_data ≢ c.user_data))
              (Matches st.address (set st.files c.user_data (some fi')))
              (Matches-set st.address st.files c.user_data fi') _ others;
        apart = apart;
        printed = more_printed st q c n p m a is_n;
      }

  -- A round for a completion, whatever it says.
  completion-IsPrinted :
      (st : Poll M) (c : Cqe)
      → IsPrinted liburing content queues st
      → liburing.peek_cqe st.ring ≡ some c
      → (st' : Poll M) × (round liburing st ≡ done st') × IsPrinted liburing content queues st'
  unfolding round
  completion-IsPrinted st c p e = elim (ℤ-cases c.res) [
    | inr (n, failed) ↦ ended-IsPrinted st c p e (inr (n, failed))
    | inl (n, good) ↦ elim (Bool-cases (ltb 0 n)) [
      | inr nothing ↦
          let z : n ≡ 0 = let le = ltb_false→le 0 n nothing in omega arith in
          ended-IsPrinted st c p e (inl (good ∙ ap pos z))
      | inl some_bytes ↦
          let (before, q, after, all, a, rest) = queues.peeked st.ring c e in
          let (m, others) =
            All-middle (Matches st.address st.files) before q after (rw (sym all) p.requests) in
          let few : n ≤ buffer_size = omega (arith, a.few n good, m.len) in
          let handled =
            handle_bytes liburing content queues st c n m.fi good (ltb→lt 0 n some_bytes) few
              (rw a.same m.set_at) in
          (
            record (delivered liburing content queues st c.user_data n m.fi) {
              ring =
                  liburing.cqe_seen (delivered liburing content queues st c.user_data n m.fi).ring;
            },
            rw (e, round, handled),
            delivered-IsPrinted st q c n p m a e good,
          )
    ]
  ]

  round-IsPrinted :
      (st st' : Poll M)
      → IsPrinted liburing content queues st
      → round liburing st ≡ done st'
      → IsPrinted liburing content queues st'
  unfolding round
  round-IsPrinted st st' p run = elim (Option-cases (liburing.peek_cqe st.ring)) [
    | inl sleeps ↦
        let same : record st { ring = liburing.step st.ring } ≡ st' =
          done_inj (sym (rw (sleeps, round)) ∙ run) in
        rw (sym same) (record {
          requests = rw (queues.on_step st.ring) p.requests;
          apart = rw (queues.on_step st.ring) p.apart;
          printed = p.printed;
        })
    | inr (c, e) ↦
        let (next, ran, q) = completion-IsPrinted st c p e in
        let same : next ≡ st' = done_inj (sym ran ∙ run) in rw (sym same) q
  ]

  -- A round does not leave the arrays.
  pub round_returns :
      (st : Poll M)
      → IsPrinted liburing content queues st
      → (st' : Poll M) × (round liburing st ≡ done st')
  unfolding round
  round_returns st p = elim (Option-cases (liburing.peek_cqe st.ring)) [
    | inl sleeps ↦ (record st { ring = liburing.step st.ring }, rw (sleeps, round))
    | inr (c, e) ↦ let (next, ran, q) = completion-IsPrinted st c p e in (next, ran)
  ]

  -- any number of rounds
  pub data Reach (st0 : Poll M) : Poll M → Type 0 where
    here : Reach st0 st0
    next :
        {st : Poll M} → Reach st0 st → (st' : Poll M) → round liburing st ≡ done st' → Reach st0 st'

  pub Reach-IsPrinted :
      {st0 st : Poll M}
      → IsPrinted liburing content queues st0
      → Reach st0 st
      → IsPrinted liburing content queues st
  Reach-IsPrinted p here = p
  Reach-IsPrinted p (next {st} before st' run) =
      round-IsPrinted st st' (Reach-IsPrinted p before) run
