-- ===== src/Polling/Close.antt =====
-- my_close of example/polling.c after my_fread.
use io_uring_example.Base.{
  ℕ, zero, suc, ◌≡◌, sym, ap, ◌∙◌, inl, inr, true, false, done, done_inj, bind_done, ◌>>=◌,
  Bool-cases, ltb, ltb_false→le, arith,
}
use io_uring_example.Liburing.{Liburing}
use io_uring_example.Polling.{Poll, round, my_fread, close_files, my_close}

module _ {M : Type 0} (liburing : Liburing M) where
  my_fread_more :
      (fuel : ℕ) (st : Poll M)
      → ltb 0 st.num_files ≡ true
      → my_fread liburing (suc fuel) st ≡ (round liburing st >>= λ st'. my_fread liburing fuel st')
  unfolding my_fread
  my_fread_more fuel st h = rw h

  my_fread_stop :
      (fuel : ℕ) (st : Poll M) → ltb 0 st.num_files ≡ false → my_fread liburing fuel st ≡ done st
  unfolding my_fread
  my_fread_stop zero st h = rw h
  my_fread_stop (suc fuel) st h = rw h

  stopped_zero :
      (fuel : ℕ) (st st' : Poll M)
      → ltb 0 st.num_files ≡ false
      → my_fread liburing fuel st ≡ done st'
      → st'.num_files ≡ 0
  stopped_zero fuel st st' stop e =
      let same : st ≡ st' = done_inj (sym (my_fread_stop fuel st stop) ∙ e) in
      let none_left : st.num_files ≡ 0 = omega (arith, ltb_false→le _ _ stop) in
      ap (λ (t : Poll M). t.num_files) (sym same) ∙ none_left

  -- my_fread returns only when the count of files is used up
  my_fread_zero :
      (fuel : ℕ) (st st' : Poll M) → my_fread liburing fuel st ≡ done st' → st'.num_files ≡ 0
  unfolding my_fread
  my_fread_zero zero st st' e = elim (Bool-cases (ltb 0 st.num_files)) [
    | inl more ↦ ground (arith, e, more)
    | inr stop ↦ stopped_zero zero st st' stop e
  ]
  my_fread_zero (suc fuel) st st' e = elim (Bool-cases (ltb 0 st.num_files)) [
    | inl more ↦
        let (a, ran, rest) =
          bind_done (round liburing st) (λ t. my_fread liburing fuel t) st'
            (sym (my_fread_more fuel st more) ∙ e) in
        my_fread_zero fuel a st' rest
    | inr stop ↦ stopped_zero (suc fuel) st st' stop e
  ]

  -- When my_fread returns, the my_close that follows closes none of the files that my_fopen opened: it
  -- only takes down the ring.
  pub my_close-leaks :
      (fuel : ℕ) (st st' : Poll M)
      → my_fread liburing fuel st ≡ done st'
      → my_close liburing st' ≡ done (liburing.queue_exit st'.ring)
  unfolding my_close close_files
  my_close-leaks fuel st st' e = rw (my_fread_zero fuel st st' e)
