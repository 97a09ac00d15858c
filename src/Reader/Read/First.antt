-- ===== src/Reader/Read/First.antt =====
-- my_fread, the first visit of a file: the wait for its completion and the take of it.
use io_uring_example.Base.{
  ℕ, zero, suc, ◌+◌, ◌-◌, ◌*◌, ◌≤◌, ◌<◌, ◌≡◌, ◌≢◌, refl, sym, ap, ◌∙◌, inl, inr, bit_and, false,
  some, arith, done, hang, Bool-cases, is_neg, ◌==◌,
}
use io_uring_example.Kernel.{sizeof_cqe, Cqe}
use io_uring_example.Reader.{MyFile, World}
use io_uring_example.Reader.Read.{Cursor, go, take_completion, pass, read_loop, wait_tail}
use io_uring_example.Reader.Read.Loop.{take_completion_visited}

-- the entry of the completion queue that the next visit takes
abbrev pub next_cqe : World → MyFile → Cqe
next_cqe w mf = w.cqe (
    mf.s.cq_ring.cqes
    + bit_and (w.word mf.s.cq_ring.head) (w.word mf.s.cq_ring.ring_mask) * sizeof_cqe)

-- The kernel's part in a first call: within `polls` loads the tail leaves the head, it does not come
-- back to it, and the completion there belongs to `addr`.
pub record IsServed (addr polls : ℕ) (loads : ℕ → ℕ) (w : World) (mf : MyFile) : Type 0 where
  pub arrival : ℕ
  pub in_time : arrival < polls
  pub arrived : loads arrival ≢ w.word mf.s.cq_ring.head
  pub stays :
      (k : ℕ) → loads k ≢ w.word mf.s.cq_ring.head → loads (k + 1) ≢ w.word mf.s.cq_ring.head
  pub owner : (next_cqe w mf).user_data ≡ addr

pub wait_tail_lem :
    (fuel : ℕ) (loads : ℕ → ℕ) (head k n : ℕ)
    → k ≤ n
    → n - k < fuel
    → loads n ≢ head
    → (j : ℕ) × (wait_tail fuel loads head k ≡ done (j + 1)) × (loads j ≢ head)
unfolding wait_tail
wait_tail_lem zero loads head k n h f e = absurd (omega arith)
wait_tail_lem (suc fuel) loads head k n h f e = elim (Bool-cases (head == loads k)) [
  | inl same ↦
      let s : k ≢ n = λ q. e (ap loads (sym q) ∙ ground arith) in
      let (j, run, d) = wait_tail_lem fuel loads head (k + 1) n (omega arith) (omega arith) e in
      (j, rw same run, d)
  | inr other ↦ (k, rw other, ground arith)
]

-- Without a completion the wait of the first call goes on for ever.
pub wait_tail-hang :
    (fuel : ℕ) (loads : ℕ → ℕ) (head k : ℕ)
    → ((n : ℕ) → loads n ≡ head)
    → wait_tail fuel loads head k ≡ hang
unfolding wait_tail
wait_tail-hang zero loads head k h = refl
wait_tail-hang (suc fuel) loads head k h =
    ground (arith, h k, wait_tail-hang fuel loads head (k + 1) h)

-- the cursor after a first visit
abbrev pub visit : World → MyFile → Cursor → Cursor
visit w mf c = record c { fi_read = some (next_cqe w mf).user_data; isfirst = 1 }

pub take_completion_first :
    (w : World) (mf : MyFile) (tail : ℕ) (c : Cursor)
    → c.isfirst ≡ 0
    → c.head ≡ w.word mf.s.cq_ring.head
    → tail ≢ c.head
    → is_neg (next_cqe w mf).res ≡ false
    → take_completion w mf.s.cq_ring tail c ≡ go (visit w mf c)
unfolding take_completion
take_completion_first w mf tail c f h t s = ground arith

pass_first :
    (b : ℕ) (w : World) (mf : MyFile) (total tail : ℕ) (c d : Cursor)
    → take_completion w mf.s.cq_ring tail c ≡ go d
    → d.isfirst ≡ 1
    → pass b w mf total tail c ≡ pass b w mf total tail d
unfolding pass
pass_first b w mf total tail c d h v = rw (h, take_completion_visited w mf.s.cq_ring tail d v, pass)

pub read_loop_first :
    (fuel b : ℕ) (w : World) (mf : MyFile) (total : ℕ) (loads : ℕ → ℕ) (k : ℕ) (c d : Cursor)
    → take_completion w mf.s.cq_ring (loads k) c ≡ go d
    → d.isfirst ≡ 1
    → read_loop (suc fuel) b w mf total loads k c ≡ read_loop (suc fuel) b w mf total loads k d
unfolding read_loop
read_loop_first fuel b w mf total loads k c d h v = rw (pass_first b w mf total (loads k) c d h v)
