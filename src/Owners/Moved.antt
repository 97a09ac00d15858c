-- ===== src/Owners/Moved.antt =====
-- example/My_read.cpp: what becomes of every call of my_fopen, and of main.
use io_uring_example.Base.{
  ℕ, ◌≡◌, refl, ◌⊎◌, inl, inr, Bool-cases, Option-cases, ℤ-cases, Option, none, List, [], ◌∷◌, Run,
  done, fault, ℤ, pos, negsuc, is_neg,
}
use io_uring_example.Kernel.{Sys}
use io_uring_example.Reader.{Submitter, World}
use io_uring_example.Reader.Setup.{get_file_size, app_setup_uring}
use io_uring_example.Reader.Open.{Enter, sizeof_submitter, sizeof_my_file}
use io_uring_example.Owners.{
  int_blocks, make_blocks, submit_owned, open_blocks, my_fopen, my_fread, cat, cat_files, main,
}

-- NULL, or no return at all
abbrev GivesNone : {A : Type 0} → Run (Option A) → Type 0
GivesNone run = (run ≡ done none) ⊎ (run ≡ fault)

module _ (block_sz : ℕ) (sys : Sys) (enter : Enter) (w : World) where
  open_blocks-GivesNone :
      (s : Submitter) (fp : ℕ) (fd : ℤ) (file_sz : ℕ) (blocks : ℤ)
      → GivesNone (open_blocks block_sz sys enter w s fp fd file_sz blocks)
  unfolding open_blocks submit_owned
  open_blocks-GivesNone s fp fd file_sz (negsuc n) = inr refl
  open_blocks-GivesNone s fp fd file_sz (pos blocks) =
      elim (Option-cases (make_blocks sys block_sz blocks 0 file_sz)) [
        | inl refused ↦ inl (rw (refused, open_blocks))
        | inr (iovecs, made) ↦ elim (Option-cases (sys.alloc sizeof_my_file)) [
          | inl thrown ↦ inr (rw (made, thrown, open_blocks))
          | inr (fi, given) ↦ inr (rw (made, given, open_blocks))
        ]
      ]

  my_fopen-GivesNone :
      (filename mode : List ℕ) → GivesNone (my_fopen block_sz sys enter w filename mode)
  unfolding my_fopen
  my_fopen-GivesNone filename mode = elim (Option-cases (sys.alloc sizeof_submitter)) [
    | inl thrown ↦ inr (rw (thrown, my_fopen))
    | inr (a, given) ↦ elim (Option-cases (app_setup_uring sys)) [
      | inl refused ↦ inl (rw (given, refused, my_fopen))
      | inr (s, setup) ↦ elim (Option-cases (sys.fopen filename mode)) [
        | inl missing ↦ inl (rw (given, setup, missing, my_fopen))
        | inr (fp, opened) ↦ elim (Bool-cases (is_neg (sys.fileno fp))) [
          | inl closed ↦ inl (rw (given, setup, opened, closed, my_fopen))
          | inr up ↦ elim (ℤ-cases (get_file_size sys fp)) [
            | inr (n, failed) ↦ inl (rw (given, setup, opened, up, failed, my_fopen))
            | inl (n, sized) ↦
                rw (given, setup, opened, up, sized, my_fopen)
                  (open_blocks-GivesNone s fp (sys.fileno fp) n (int_blocks block_sz n))
          ]
        ]
      ]
    ]
  ]

  no_cat :
      (fuel polls : ℕ) (serve : World → World) (loads : ℕ → ℕ → ℕ) (buffer filename : List ℕ)
      → cat fuel block_sz polls sys enter serve loads w buffer filename ≡ fault
  unfolding cat my_fread
  no_cat fuel polls serve loads buffer filename = elim (my_fopen-GivesNone filename (0x72 ∷ [])) [
    | inl refused ↦ rw (refused, cat)
    | inr stopped ↦ rw (stopped, cat)
  ]

  -- Whatever the system and the kernel do: my_fopen of My_read.cpp returns a null pointer, or runs into undefined
  -- behaviour or an exception, and never returns a file; and main does one of the latter two whenever it is
  -- given a file name.
  pub main-fault :
      (fuel polls : ℕ) (serve : World → World) (loads : ℕ → ℕ → ℕ → ℕ) (buffer name : List ℕ)
      (names : List (List ℕ))
      → ((my_fopen block_sz sys enter w name (0x72 ∷ []) ≡ done none)
          ⊎ (my_fopen block_sz sys enter w name (0x72 ∷ []) ≡ fault))
        × (main fuel block_sz polls sys enter serve loads w buffer (name ∷ names) ≡ fault)
  unfolding main cat_files
  main-fault fuel polls serve loads buffer name names = (
    my_fopen-GivesNone name (0x72 ∷ []),
    rw (no_cat fuel polls serve (loads 0) buffer name, main, cat_files),
  )
