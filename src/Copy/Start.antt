-- ===== src/Copy/Start.antt =====
-- main of example/io_uring_cp.c around its copy loop: the set-up, which dies on each error, and the
-- releases at its end.
use io_uring_example.Base.{
  ℕ, ◌+◌, ◌*◌, ◌≤◌, ◌<◌, ◌^◌, ◌≡◌, refl, false, Option, none, some, List, [], ◌∷◌, length,
  if◌then◌else◌, Run, done, ◌>>=◌, ℤ, is_neg, same_ℤ, ◌==◌,
}
use io_uring_example.Kernel.{Params, sizeof_unsigned, sizeof_sqe}
use io_uring_example.Copy.{Shared, Setup, file_block_size, copy_loop}
use io_uring_example.Copy.Held.{
  Held, with_descriptor, with_mapping, with_block, releases, releases_lem,
}
use io_uring_example.Copy.Serves.{Serves}
use io_uring_example.Copy.Whole.{copy_loop-copies}

-- What the calls of one run give: open, fstat with st_size, io_uring_setup with what it stores, mmap
-- of a length, malloc; and where iov lies, and io_uring_enter.
pub record Calls : Type 0 where
  pub open_source : ℤ
  pub file_size : Option ℕ
  pub open_dest : ℤ
  pub ring_setup : ℤ
  pub params : Params
  pub map_ring : ℕ → Option ℕ
  pub map_sqes : ℕ → Option ℕ
  pub malloc : ℕ → Option ℕ
  pub iov : ℕ
  pub enter : Shared → Shared

-- the sizes of the two mappings
abbrev pub ring_sz : Params → ℕ
ring_sz p = p.sq_off.array + p.sq_entries * sizeof_unsigned

abbrev pub sqes_sz : Params → ℕ
sqes_sz p = p.sq_entries * sizeof_sqe

-- the constants of the loop
abbrev pub setup_of : Calls → Setup
setup_of calls = record {
  sq_entries = calls.params.sq_entries;
  cq_entries = calls.params.cq_entries;
  src_fd = calls.open_source;
  dst_fd = calls.open_dest;
  iov = calls.iov;
  enter = calls.enter;
}

-- the exit status, what the files and the shared memory are where main returns, and what the program
-- holds
pub record Exit : Type 0 where
  pub status : ℕ
  pub shared : Option Shared
  pub held : Held

-- die, and the usage message: exit(EXIT_FAILURE)
abbrev pub die : Held → Run Exit
die h = done (record { status = 1; shared = none; held = h })

-- from the end of the loop on
abbrev pub finish : Calls → ℕ → ℕ → ℕ → Held → Option Shared → Run Exit
finish calls ring_ptr sqe buffer h none = die h
finish calls ring_ptr sqe buffer h (some m) =
    releases calls.open_source calls.open_dest (ring_ptr, ring_sz calls.params)
      (sqe, sqes_sz calls.params) buffer h
    >>= λ h'. done (record { status = 0; shared = some m; held = h' })

-- from io_uring_setup on
unfoldable pub copy_file : ℕ → Calls → ℕ → Held → Shared → Run Exit
copy_file fuel calls file_size h m =
    let h1 = with_descriptor calls.ring_setup h in
    if is_neg calls.ring_setup then die h else elim (calls.map_ring (ring_sz calls.params)) [
      | none ↦ die h1
      | some ring_ptr ↦
          let h2 = with_mapping ring_ptr (ring_sz calls.params) h1 in
          elim (calls.map_sqes (sqes_sz calls.params)) [
            | none ↦ die h2
            | some sqe ↦
                let h3 = with_mapping sqe (sqes_sz calls.params) h2 in
                elim (calls.malloc file_block_size) [
                  | none ↦ die h3
                  | some buffer ↦
                      copy_loop (setup_of calls) fuel file_size 0 m
                      >>= finish calls ring_ptr sqe buffer (with_block buffer h3)
                ]
          ]
    ]

-- main for the names argv[1], …. `h` is what the program holds at its start, `m` what the files and the
-- shared memory are after the set-up.
unfoldable pub main : ℕ → Calls → List (List ℕ) → Held → Shared → Run Exit
main fuel calls (source ∷ dest ∷ []) h m =
    let h1 = with_descriptor calls.open_source h in
    if is_neg calls.open_source then die h else elim calls.file_size [
      | none ↦ die h1
      | some file_size ↦
          if is_neg calls.open_dest
          then die h1
          else copy_file fuel calls file_size (with_descriptor calls.open_dest h1) m
    ]
main fuel calls _ h m = die h

-- The calls of the set-up succeed, with descriptors and mappings that differ.
pub record IsGranted (calls : Calls) (size : ℕ) : Type 0 where
  pub ring_ptr : ℕ
  pub sqe : ℕ
  pub buffer : ℕ
  pub source_run : is_neg calls.open_source ≡ false
  pub size_run : calls.file_size ≡ some size
  pub dest_run : is_neg calls.open_dest ≡ false
  pub ring_run : is_neg calls.ring_setup ≡ false
  pub map_run : calls.map_ring (ring_sz calls.params) ≡ some ring_ptr
  pub sqes_run : calls.map_sqes (sqes_sz calls.params) ≡ some sqe
  pub malloc_run : calls.malloc file_block_size ≡ some buffer
  pub source_ring : same_ℤ calls.open_source calls.ring_setup ≡ false
  pub source_dest : same_ℤ calls.open_source calls.open_dest ≡ false
  pub dest_ring : same_ℤ calls.open_dest calls.ring_setup ≡ false
  pub mappings : (ring_ptr == sqe) ≡ false

-- With two names, a set-up that succeeds, gives the source's size and descriptors and mappings that
-- differ, and a kernel that serves the requests on the submission ring as documented, its reads as short as it
-- likes, a submission ring that is empty at first, a buffer of 4096 bytes or more, a source of less than
-- 2 ^ 63 bytes and an empty destination: main returns 0 within a
-- round of its loop for each byte, the destination then holds what the source held, and of all that main
-- got it still holds only the ring's descriptor.
pub main-copies :
    (fuel : ℕ) (calls : Calls) (source dest : List ℕ) (h : Held) (m : Shared)
    → IsGranted calls (length m.source)
    → Serves (setup_of calls)
    → m.sq_head ≡ m.sq_tail
    → m.dest ≡ []
    → file_block_size ≤ length m.buffer
    → length m.source < 2 ^ 63
    → length m.source ≤ fuel
    → (m' : Shared) × (main fuel calls (source ∷ dest ∷ []) h m
        ≡ done (record { status = 0; shared = some m'; held = with_descriptor calls.ring_setup h }))
      × (m'.dest ≡ m.source)
unfolding main copy_file
main-copies fuel calls source dest h m g serves idle empty room small enough =
    let (m', run, same) =
      copy_loop-copies (setup_of calls) serves fuel m idle empty room small enough in
    (
      m',
      rw
          (
            main,
            g.source_run,
            g.size_run,
            g.dest_run,
            g.ring_run,
            g.map_run,
            g.sqes_run,
            g.malloc_run,
            run,
            releases_lem calls.open_source calls.open_dest calls.ring_setup g.ring_ptr
                (ring_sz calls.params) g.sqe (sqes_sz calls.params) g.buffer h g.source_ring
                g.source_dest g.dest_ring g.mappings,
          )
          refl,
      same,
    )
