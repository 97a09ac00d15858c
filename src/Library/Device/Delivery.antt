-- ===== src/Library/Device/Delivery.antt =====
-- my_fread of device.cpp, what a call returns when the file's completion is there.
use io_uring_example.Base.{
  ℕ, ◌+◌, ◌-◌, ◌*◌, ◌≤◌, ◌<◌, ◌^◌, ◌≡◌, ◌≢◌, sym, ap, ◌∙◌, ◌⊎◌, inl, inr, true, false, some, List,
  leb, Bool-cases, done, ◌>>=◌, map_run, map_run-done, arith, to_unsigned, to_unsigned_small,
  le→leb, u64, is_neg, length,
}
use io_uring_example.Reader.{Submitter, Iovc, World}
use io_uring_example.Reader.Spec.{Holds}
use io_uring_example.Reader.Read.{wait_tail}
use io_uring_example.Reader.Read
use io_uring_example.Reader.Read.First.{next_cqe, IsServed}
use io_uring_example.Reader.Read.Delivery.{IsPlaced, IsSettled, IsReady, Delivered, given}
use io_uring_example.Reader.Read.Call.{my_fread-Delivered}
use io_uring_example.Library.{Pointer, MyFile}
use io_uring_example.Library.Device.{Fread, my_fread}
use io_uring_example.Library.Device.Same.{view, view_fread, wait, my_fread-wait}

-- The completion of a file not yet visited is on the ring, and stays there: it belongs to `addr`, and is
-- a success.
pub record IsArrived (addr : ℕ) (loads : ℕ → ℕ) (w : World) (s : Submitter) (mf : MyFile)
    : Type 0 where
  pub first : mf.isfirst ≡ 0
  pub arrived : (k : ℕ) → loads k ≢ w.word s.cq_ring.head
  pub owner : (next_cqe w (view s mf)).user_data ≡ addr
  pub success : is_neg (next_cqe w (view s mf)).res ≡ false

add_sub_one : (n : ℕ) → 1 + n - 1 ≡ n
add_sub_one n = omega arith

add_none : (n : ℕ) → 0 + n ≡ n
add_none n = omega arith

module _ (b : ℕ) (vs : List Iovc) (addr : ℕ) (w : World) (ptr : List ℕ) (size count : ℕ)
    (mf : MyFile) (p : Pointer Submitter) (owned : mf.s ≡ some p) where
  abbrev s : Submitter
  s = p.target

  -- what a call promises
  abbrev pub Gives : (ℕ → ℕ) → Type 0
  Gives loads =
      (r : Fread) × (my_fread b loads w ptr size count mf ≡ done r)
      × Delivered b vs addr w (view p.target mf) ptr
          (given b vs addr (view p.target mf) (u64 (size * count))) (view_fread p.target r)

  same_result :
      (r r' : Read.Fread)
      → r' ≡ r
      → Delivered b vs addr w (view s mf) ptr (given b vs addr (view s mf) (u64 (size * count))) r
      → Delivered b vs addr w (view s mf) ptr (given b vs addr (view s mf) (u64 (size * count))) r'
  same_result r r' e d = rw e d

  -- The reader's call, whose wait ended after `k` loads, gives the device's.
  waited-Gives :
      (loads loads' : ℕ → ℕ) (k : ℕ)
      → wait 1 loads' w s mf ≡ done k
      → (λ n. loads' (k + n)) ≡ loads
      → Holds b vs addr w
      → IsPlaced b vs w (view s mf)
      → IsReady addr vs 1 loads' w (view s mf)
      → u64 (size * count) ≤ length ptr
      → Gives loads
  waited-Gives loads loads' k ended same h placed ready room =
      let (r, run, d) =
        my_fread-Delivered b vs addr 1 loads' w ptr size count (view s mf) h placed ready room in
      let call = λ (l : ℕ → ℕ). map_run (view_fread s) (my_fread b l w ptr size count mf) in
      let both =
        sym (ap call same)
        ∙ sym (ap (λ m. m >>= λ j. call (λ n. loads' (j + n))) ended)
        ∙ sym (my_fread-wait b 1 loads' w ptr size count mf p owned)
        ∙ run in
      let (r', run', e) =
        map_run-done (view_fread s) (my_fread b loads w ptr size count mf) r both in
      (r', run', same_result r (view_fread s r') e d)

  later_loads : (loads : ℕ → ℕ) → (λ n. loads (1 + n - 1)) ≡ loads
  later_loads loads = λ i n. loads (add_sub_one n i)

  no_loads : (loads : ℕ → ℕ) → (λ n. loads (0 + n)) ≡ loads
  no_loads loads = λ i n. loads (add_none n i)

  arrived-IsServed :
      (loads : ℕ → ℕ) (past : ℕ → ℕ)
      → IsArrived addr loads w s mf
      → IsServed addr 1 (λ n. loads (past n)) w (view s mf)
  arrived-IsServed loads past a = record {
    arrival = 0;
    in_time = omega arith;
    arrived = a.arrived (past 0);
    stays = λ k e. a.arrived (past (k + 1));
    owner = a.owner;
  }

  wait_outside :
      (loads : ℕ → ℕ)
      → leb (to_unsigned mf.blocks) mf.current_block ≡ true
      → wait 1 loads w s mf ≡ done 0
  wait_outside loads e = ground (arith, e)

  wait_settled :
      (loads : ℕ → ℕ)
      → IsPlaced b vs w (view s mf)
      → length vs < 2 ^ 31
      → IsSettled addr vs (view s mf)
      → wait 1 loads w s mf ≡ done 0
  wait_settled loads placed few (inl (v, f)) = ground (arith, v)
  wait_settled loads placed few (inr e) = wait_outside loads (
      le→leb _ _
        (omega (arith, e, ap to_unsigned placed.blocks, to_unsigned_small (length vs) few)))

  wait_arrived :
      (loads : ℕ → ℕ)
      → leb (to_unsigned mf.blocks) mf.current_block ≡ false
      → IsArrived addr loads w s mf
      → wait 1 (λ n. loads (n - 1)) w s mf ≡ done 1
  unfolding wait_tail
  wait_arrived loads e a = ground (arith, e, a.first, a.arrived 0)

  arrived-Gives :
      (loads : ℕ → ℕ)
      → Holds b vs addr w
      → IsPlaced b vs w (view s mf)
      → IsArrived addr loads w s mf
      → u64 (size * count) ≤ length ptr
      → Gives loads
  arrived-Gives loads h placed a room =
      elim (Bool-cases (leb (to_unsigned mf.blocks) mf.current_block)) [
        | inl out ↦
            waited-Gives loads loads 0 (wait_outside loads out) (no_loads loads) h placed
              (inr (a.first, arrived-IsServed loads (λ n. n) a, a.success)) room
        | inr inside ↦
            waited-Gives loads (λ n. loads (n - 1)) 1 (wait_arrived loads inside a)
              (later_loads loads) h placed
              (inr (a.first, arrived-IsServed loads (λ n. n - 1) a, a.success)) room
      ]

  -- On a file that holds the blocks `vs`, at a place between two of their bytes, and with its completion
  -- taken by an earlier call or on the ring and a success, a call on the device returns. It gives as many of
  -- the unread bytes as `size * count` (mod 2 ^ 64) asks for, writes exactly those at the start of the
  -- caller's buffer (which has room for what was asked), and leaves the file at the byte after them, with
  -- one completion marked as seen for each block it finished.
  pub device_fread-Delivered :
      (loads : ℕ → ℕ)
      → Holds b vs addr w
      → IsPlaced b vs w (view p.target mf)
      → IsSettled addr vs (view p.target mf) ⊎ IsArrived addr loads w p.target mf
      → u64 (size * count) ≤ length ptr
      → (r : Fread) × (my_fread b loads w ptr size count mf ≡ done r)
        × Delivered b vs addr w
            (view p.target mf)
            ptr
            (given b vs addr (view p.target mf) (u64 (size * count)))
            (view_fread p.target r)
  device_fread-Delivered loads h placed (inl settled) room =
      waited-Gives loads loads 0 (wait_settled loads placed h.few settled) (no_loads loads) h placed
        (inl settled) room
  device_fread-Delivered loads h placed (inr a) room = arrived-Gives loads h placed a room
