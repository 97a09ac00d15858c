-- ===== src/Reader/Cat/Null.antt =====
-- cat of example/io_uring_read.c on a file that my_fopen refuses.
use io_uring_example.Base.{ℕ, ◌≡◌, List, some, fault}
use io_uring_example.Kernel.{Sys}
use io_uring_example.Reader.{World}
use io_uring_example.Reader.Open.{Enter, sizeof_submitter}
use io_uring_example.Reader.Open.Opened.{Refusal, my_fopen_refuses}
use io_uring_example.Reader.Cat.{cat, buffer_bytes}

-- When my_fopen refuses the file (Refusal) and the two allocations succeed, cat does not return: it
-- goes on to read through the NULL that my_fopen returned.
pub cat-fault :
    (fuel b polls : ℕ) (sys : Sys) (enter : Enter) (serve : World → World) (loads : ℕ → ℕ → ℕ)
    (w : World) (buffer filename mode : List ℕ) (a c : ℕ)
    → sys.alloc sizeof_submitter ≡ some a
    → sys.alloc buffer_bytes ≡ some c
    → Refusal b sys enter w filename mode
    → cat fuel b polls sys enter serve loads w buffer filename mode ≡ fault
unfolding cat
cat-fault fuel b polls sys enter serve loads w buffer filename mode a c e k h =
    rw (my_fopen_refuses b sys enter w filename mode a e h) (rw k)
