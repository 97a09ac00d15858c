-- ===== src/Writes/Held.antt =====
-- The calls that give back what was got last.
use io_uring_example.Base.{ℕ, suc, ◌≡◌, List, ◌∷◌, done, arith, ℤ, pos, negsuc}
use io_uring_example.Writes.{Machine, free, close, queue_exit}

pub free-first :
    (a : ℕ) (rest : List ℕ) (m : Machine)
    → m.memory ≡ a ∷ rest
    → free a m ≡ done (record m { memory = rest })
free-first a rest m e = ground (arith, e)

pub close-first :
    (fd : ℤ) (rest : List ℤ) (m : Machine)
    → m.descriptors ≡ fd ∷ rest
    → close fd m ≡ done (record m { descriptors = rest })
close-first (pos n) rest m e = ground (arith, e)
close-first (negsuc n) rest m e = ground (arith, e)

pub queue_exit-first :
    (rings : ℕ) (m : Machine)
    → m.rings ≡ suc rings
    → queue_exit m ≡ done (record m { rings = rings })
queue_exit-first rings m e = rw e
