-- ===== src/Repeat/Cycle.antt =====
-- my_fread of example/io_uring_poll.cpp: what a call stores and returns on a file with bytes.
use io_uring_example.Base.{
  ℕ, zero, suc, ◌+◌, ◌-◌, ◌≤◌, ◌<◌, ◌*◌, ◌/◌, ◌^◌, ◌≡◌, refl, ◌∙◌, inl, inr, true, List, [], ◌++◌,
  length, min, take, arith, done, Bool-cases, u64, leb, leb→le, leb_false→lt, append-nil,
  append_assoc, take-append_le, take-append_past, take-take_le, take-length, length-take,
  length-append, sym, ap,
}
use io_uring_example.Buffered.{Stdio, Cursor, buffer_size}
use io_uring_example.Repeat.{MyFile, read_loop, my_fread}
use io_uring_example.Repeat.Served.{Serves, loop_step, copied, round_end, read_round_lem}

-- a list, n times
abbrev pub repeated : ℕ → List ℕ → List ℕ
repeated zero xs = []
repeated (suc n) xs = xs ++ repeated n xs

-- what a readv of 1024 bytes at offset 0 serves
abbrev pub first_block : List ℕ → List ℕ
first_block content = take buffer_size content

take_smaller :
    (content : List ℕ) → take (min buffer_size (length content)) content ≡ first_block content
take_smaller content = elim (Bool-cases (leb buffer_size (length content))) [
  | inl long ↦
      let le = leb→le _ _ long in
      let e : min buffer_size (length content) ≡ buffer_size = omega arith in rw e refl
  | inr short ↦
      let lt = leb_false→lt _ _ short in
      let e : min buffer_size (length content) ≡ length content = omega arith in
      rw e (
        take-length (length content) content (omega arith)
        ∙ sym (take-length buffer_size content (omega arith)))
]

module _ {M : Type 0} (stdio : Stdio M) (content : List ℕ) (mf : MyFile)
    (serves : Serves stdio content mf) where
  -- the bytes of a round and those of the rounds after it
  copied_lem :
      (total : ℕ) (rest : List ℕ)
      → take (copied stdio content mf serves total) content
          ++ take (total - copied stdio content mf serves total) rest
        ≡ take total (first_block content ++ rest)
  copied_lem total rest =
      let size = length-take buffer_size content in
      let k = min buffer_size (length content) in
      elim (Bool-cases (leb total k)) [
        | inl last ↦
            let le = leb→le total k last in
            let e : copied stdio content mf serves total ≡ total = omega arith in
            let none_left : total - total ≡ 0 = omega arith in
            rw (e, none_left)
              (append-nil (take total content)
                ∙ sym (take-take_le total buffer_size content (omega arith))
                ∙ sym (take-append_le total (first_block content) rest (omega (arith, size))))
        | inr more ↦
            let lt = leb_false→lt total k more in
            let e : copied stdio content mf serves total ≡ k = omega arith in
            rw (e, take_smaller content)
              (sym (
                take-append_past (first_block content) rest total (total - k)
                  (omega (arith, size))))
      ]

  -- the loop returns at its end, with all bytes read and the ring ready
  abbrev LoopEnds : ℕ → ℕ → Cursor M → Type 0
  LoopEnds fuel room c =
      (m' : M) × serves.Ready m'
      × (read_loop stdio fuel room mf c
          ≡ done (
            true,
            record {
              total_bytes = 0;
              bytes_read = c.bytes_read + c.total_bytes;
              stored = c.stored ++ take c.total_bytes (repeated fuel (first_block content));
              machine = m';
            },
          ))

  round_LoopEnds :
      (fuel room : ℕ) (c d : Cursor M)
      → read_loop stdio (suc fuel) room mf c ≡ read_loop stdio fuel room mf d
      → d.bytes_read + d.total_bytes ≡ c.bytes_read + c.total_bytes
      → d.stored ++ take d.total_bytes (repeated fuel (first_block content))
        ≡ c.stored ++ take c.total_bytes (repeated (suc fuel) (first_block content))
      → LoopEnds fuel room d
      → LoopEnds (suc fuel) room c
  round_LoopEnds fuel room c d stepped sum stores (m', ready, run) =
      (m', ready, stepped ∙ run ∙ rw (sum, stores))

  loop-LoopEnds :
      (fuel room total read : ℕ) (stored : List ℕ) (m : M)
      → serves.Ready m
      → 0 < length content
      → total ≤ fuel
      → length stored + total ≤ room
      → read + total < 2 ^ 64
      → LoopEnds fuel room
          (record { total_bytes = total; bytes_read = read; stored = stored; machine = m })
  unfolding read_loop
  loop-LoopEnds zero room total read stored m ready bytes enough fits small =
      let e : total ≡ 0 = omega arith in
      let e' : read + 0 ≡ read = omega arith in (m, ready, rw (e, e', append-nil stored))
  loop-LoopEnds (suc fuel) room zero read stored m ready bytes enough fits small =
      let e' : read + 0 ≡ read = omega arith in (m, ready, rw (e', append-nil stored))
  loop-LoopEnds (suc fuel) room (suc total) read stored m ready bytes enough fits small =
      let c : Cursor M = record {
        total_bytes = suc total;
        bytes_read = read;
        stored = stored;
        machine = m;
      } in
      let k = copied stdio content mf serves (suc total) in
      let block = repeated fuel (first_block content) in
      let (m1, ready1, run) = read_round_lem stdio content mf serves room c ready (omega arith) in
      let d = round_end stdio content mf serves c m1 in
      let sizes = length-append stored (take k content) in
      let taken = length-take k content in
      round_LoopEnds fuel room c d (loop_step stdio mf fuel room c d (omega arith) run)
        (omega arith)
        (append_assoc stored (take k content) (take (suc total - k) block)
          ∙ ap (λ t. stored ++ t) (copied_lem (suc total) block))
        (loop-LoopEnds fuel room (suc total - k) (u64 (read + k)) (stored ++ take k content) m1
          ready1 bytes (omega arith) (omega (arith, sizes, taken)) (omega arith))

  my_fread_of :
      (fuel room count : ℕ) (m : M)
      → count < 2 ^ 64
      → LoopEnds fuel room
          (record { total_bytes = count; bytes_read = 0; stored = []; machine = m })
      → (m' : M) × serves.Ready m'
        × (my_fread stdio fuel room 1 count mf m
            ≡ done (count, take count (repeated fuel (first_block content)), m'))
  unfolding my_fread
  my_fread_of fuel room count m small (m', ready, run) =
      let total : u64 (1 * count) ≡ count = omega arith in
      let same : (0 + count) / 1 ≡ count = omega arith in (m', ready, rw (total, run, same))

  -- On a file with at least one byte, a call for `count` bytes of size 1 into a buffer with room for
  -- them, on fuel of as many rounds: it returns `count`, however short the file is, and the bytes that
  -- it stores are the first 1024 of the file, over and over again. The ring is ready for the next call.
  pub my_fread-repeated :
      (fuel room count : ℕ) (m : M)
      → serves.Ready m
      → 0 < length content
      → count ≤ fuel
      → count ≤ room
      → count < 2 ^ 64
      → (m' : M) × serves.Ready m'
        × (my_fread stdio fuel room 1 count mf m
            ≡ done (count, take count (repeated fuel (first_block content)), m'))
  my_fread-repeated fuel room count m ready bytes enough fits small =
      my_fread_of fuel room count m small
        (loop-LoopEnds fuel room count 0 [] m ready bytes enough (omega arith) (omega arith))
