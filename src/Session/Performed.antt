-- ===== src/Session/Performed.antt =====
-- main of example/omp_sync_task.cpp on a user who has the array filled and written, some number of times.
use io_uring_example.Base.{
  ℕ, zero, suc, ◌≤◌, ◌<◌, ◌≡◌, refl, ◌∙◌, true, false, some, List, [], ◌∷◌, ◌++◌, length,
  length-drop, replicate, drop, done, hang, arith, ℤ, pos, is_neg, same_ℤ,
}
use io_uring_example.Writes.{Machine, allocated, opened, ring_made, submit_write, free}
use io_uring_example.Writes.Held.{free-first, close-first}
use io_uring_example.Writes.Numbers.{is_zero}
use io_uring_example.Writes.Array.{int_bytes}
use io_uring_example.Writes.Array.Sent.{sent}
use io_uring_example.Session.{Round, process, perform, obey, obey_all, main}
use io_uring_example.Session.Filled.{IsSchedule, set_ones-IsSchedule}

-- the array after a round
abbrev pub filled : List ℕ → List ℕ
filled array = replicate 16 1 ++ drop 16 array

length-filled : (array : List ℕ) → 16 ≤ length array → length (filled array) ≡ length array
length-filled array long = omega (arith, length-drop 16 array)

-- A round whose calls succeed, and whose schedule is one.
pub record IsFine (r : Round) : Type 0 where
  pub sqe : ℕ
  pub open_run : is_neg r.calls.open_file ≡ false
  pub init_run : is_zero r.calls.queue_init ≡ true
  pub sqe_run : r.calls.get_sqe ≡ some sqe
  pub wait_run : is_zero r.calls.wait_cqe ≡ true
  pub schedule_run : IsSchedule r.schedule

-- the writes of `n` rounds, from the k-th on
abbrev pub sent_all : (ℕ → Round) → ℕ → ℕ → List ℕ → Machine → Machine
sent_all rounds zero k bytes m = m
sent_all rounds (suc n) k bytes m = sent_all rounds n (suc k) bytes (sent (rounds k).calls bytes m)

process_lem :
    (r : Round) (array : List ℕ) (m : Machine)
    → IsFine r
    → process r.calls array m ≡ done (sent r.calls (int_bytes array) m)
unfolding process
process_lem r array m f =
    rw (f.open_run, f.init_run, f.sqe_run, f.wait_run)
      (rw (
        close-first r.calls.open_file m.descriptors
          (submit_write r.calls.open_file (int_bytes array) 0
            (ring_made (opened r.calls.open_file m)))
          refl))

obey-filled :
    (size : ℕ) (r : Round) (array : List ℕ) (m : Machine)
    → IsFine r
    → length array ≡ size
    → 16 ≤ size
    → obey size r (pos 1) (record { array = array; output = []; machine = m })
      ≡ done (
          some (record {
            array = filled array;
            output = [];
            machine = sent r.calls (int_bytes (filled array)) m;
          }))
unfolding obey perform
obey-filled size r array m f long enough =
    rw (set_ones-IsSchedule size r.schedule array long enough f.schedule_run)
      (rw (process_lem r (filled array) m f))

obey_all-sent_all :
    (fuel n k size : ℕ) (rounds : ℕ → Round) (array : List ℕ) (m : Machine) (before last : ℤ)
    → ((i : ℕ) → IsFine (rounds i))
    → length array ≡ size
    → 16 ≤ size
    → same_ℤ last (pos 1) ≡ false
    → same_ℤ last (pos 2) ≡ false
    → n < fuel
    → obey_all fuel size rounds k
        (replicate n (pos 1) ++ last ∷ [])
        before
        (record { array = filled array; output = []; machine = m })
      ≡ done (record {
        array = filled array;
        output = [];
        machine = sent_all rounds n k (int_bytes (filled array)) m;
      })
unfolding obey_all obey
obey_all-sent_all zero n k size rounds array m before last f long enough e1 e2 h =
    absurd (omega arith)
obey_all-sent_all (suc fuel) zero k size rounds array m before last f long enough e1 e2 h =
    rw (e1, e2)
obey_all-sent_all (suc fuel) (suc n) k size rounds array m before last f long enough e1 e2 h =
    rw
      (obey-filled size (rounds k) (filled array) m (f k)
        (length-filled array (omega (arith, long)) ∙ long) enough)
      (obey_all-sent_all fuel n (suc k) size rounds array
        (sent (rounds k).calls (int_bytes (filled array)) m) (pos 1) last f long enough e1 e2
        (omega arith))

obey_all-hang :
    (fuel n k size : ℕ) (rounds : ℕ → Round) (array : List ℕ) (m : Machine)
    → ((i : ℕ) → IsFine (rounds i))
    → length array ≡ size
    → 16 ≤ size
    → obey_all fuel size rounds k
        (replicate n (pos 1))
        (pos 1)
        (record { array = filled array; output = []; machine = m })
      ≡ hang
unfolding obey_all
obey_all-hang zero n k size rounds array m f long enough = refl
obey_all-hang (suc fuel) zero k size rounds array m f long enough =
    rw
      (obey-filled size (rounds k) (filled array) m (f k)
        (length-filled array (omega (arith, long)) ∙ long) enough)
      (obey_all-hang fuel zero (suc k) size rounds array
        (sent (rounds k).calls (int_bytes (filled array)) m) f long enough)
obey_all-hang (suc fuel) (suc n) k size rounds array m f long enough =
    rw
      (obey-filled size (rounds k) (filled array) m (f k)
        (length-filled array (omega (arith, long)) ∙ long) enough)
      (obey_all-hang fuel n (suc k) size rounds array
        (sent (rounds k).calls (int_bytes (filled array)) m) f long enough)

free-sent_all :
    (rounds : ℕ → Round) (n k shared : ℕ) (bytes : List ℕ) (m : Machine)
    → free shared (sent_all rounds n k bytes (allocated shared m))
      ≡ done (sent_all rounds n k bytes m)
free-sent_all rounds zero k shared bytes m = free-first shared m.memory (allocated shared m) refl
free-sent_all rounds (suc n) k shared bytes m =
    free-sent_all rounds n (suc k) shared bytes (sent (rounds k).calls bytes m)

main_exits :
    (fuel n size shared : ℕ) (rounds : ℕ → Round) (stale : List ℕ) (m : Machine) (last : ℤ)
    → ((i : ℕ) → IsFine (rounds i))
    → length stale ≡ size
    → 16 ≤ size
    → same_ℤ last (pos 1) ≡ false
    → same_ℤ last (pos 2) ≡ false
    → n < fuel
    → main (suc fuel) size rounds (some shared) stale (replicate (suc n) (pos 1) ++ last ∷ []) m
      ≡ done (
        0,
        record {
          array = filled stale;
          output = [];
          machine = sent_all rounds (suc n) 0 (int_bytes (filled stale)) m;
        },
      )
unfolding main obey_all
main_exits fuel n size shared rounds stale m last f long enough e1 e2 h =
    let bytes = int_bytes (filled stale) in
    rw (obey-filled size (rounds 0) stale (allocated shared m) (f 0) long enough) (
      rw
        (obey_all-sent_all fuel n 1 size rounds stale
          (sent (rounds 0).calls bytes (allocated shared m)) (pos 1) last f long enough e1 e2 h)
        (rw (free-sent_all rounds (suc n) 0 shared bytes m)))

main_hangs :
    (fuel n size shared : ℕ) (rounds : ℕ → Round) (stale : List ℕ) (m : Machine)
    → ((i : ℕ) → IsFine (rounds i))
    → length stale ≡ size
    → 16 ≤ size
    → main fuel size rounds (some shared) stale (replicate (suc n) (pos 1)) m ≡ hang
unfolding main obey_all
main_hangs zero n size shared rounds stale m f long enough = refl
main_hangs (suc fuel) n size shared rounds stale m f long enough =
    rw (obey-filled size (rounds 0) stale (allocated shared m) (f 0) long enough) (
      rw (
        obey_all-hang fuel n 1 size rounds stale
          (sent (rounds 0).calls (int_bytes (filled stale)) (allocated shared m)) f long enough))

-- Where every round's calls succeed, in whatever order the threads run, on an array of `size` ints,
-- 16 or more, and on fuel of more than n + 1 rounds. After one command 1 or more, n + 1 of them, and then a
-- number other than 1 and 2, main returns 0: the first 16 ints of the array are 1 and all others are as
-- they were when it was allocated; each round has written the bytes of this whole array to its
-- file, and nothing more is held than before. Where the input ends after the commands, main never returns.
pub main-sent_all :
    (fuel n size shared : ℕ) (rounds : ℕ → Round) (stale : List ℕ) (m : Machine) (last : ℤ)
    → ((i : ℕ) → IsFine (rounds i))
    → length stale ≡ size
    → 16 ≤ size
    → same_ℤ last (pos 1) ≡ false
    → same_ℤ last (pos 2) ≡ false
    → n < fuel
    → (main (suc fuel) size rounds (some shared) stale (replicate (suc n) (pos 1) ++ last ∷ []) m
        ≡ done (
          0,
          record {
            array = filled stale;
            output = [];
            machine = sent_all rounds (suc n) 0 (int_bytes (filled stale)) m;
          },
        ))
      × (main (suc fuel) size rounds (some shared) stale (replicate (suc n) (pos 1)) m ≡ hang)
main-sent_all fuel n size shared rounds stale m last f long enough e1 e2 h = (
  main_exits fuel n size shared rounds stale m last f long enough e1 e2 h,
  main_hangs (suc fuel) n size shared rounds stale m f long enough,
)
