-- ===== src/Reader/Cat/Output.antt =====
-- What cat's loop writes, and what that is in terms of the file.
use io_uring_example.Base.{
  ℕ, zero, suc, ◌+◌, ◌*◌, ◌≤◌, ◌<◌, ◌^◌, ◌≡◌, refl, sym, ap, ◌∙◌, inl, inr, Bool-cases, List, [],
  ◌∷◌, ◌++◌, append_assoc, append-nil, take, drop, length, ltb, length-take, length-drop,
  length-overwrite, take-append-drop, take-overwrite-zero, done, arith, u64, ltb→lt, ltb_false→le,
}
use io_uring_example.Reader.{Iovc, MyFile, World}
use io_uring_example.Reader.Spec.{Holds, unread}
use io_uring_example.Reader.Read.{Fread}
use io_uring_example.Reader.Read.Delivery.{IsPlaced, IsReady, Delivered, given}
use io_uring_example.Reader.Read.Call.{my_fread-Delivered}
use io_uring_example.Reader.Cat.{Printed, cat_loop}

pub nil_of_length {ℓ} : {A : Type ℓ} (xs : List A) → length xs ≡ 0 → xs ≡ []
nil_of_length [] e = refl
nil_of_length (x ∷ xs) e = absurd (omega arith)

module _ (b : ℕ) (vs : List Iovc) (addr : ℕ) where
  -- The blocks stay where they are during a call.
  pub Holds-Delivered :
      (w : World) (mf : MyFile) (ptr : List ℕ) (m : ℕ) (r : Fread)
      → Holds b vs addr w
      → Delivered b vs addr w mf ptr m r
      → Holds b vs addr r.world
  Holds-Delivered w mf ptr m r h d = record {
    fi = h.fi;
    stored = ap (λ f. f addr) d.memory ∙ h.stored;
    filled = h.filled;
    blocks = h.blocks;
    size_pos = h.size_pos;
    size_small = h.size_small;
    few = h.few;
  }

  -- the bytes that one round hands to write(2)
  pub round_output :
      (mf : MyFile) (w : World) (ptr : List ℕ) (total : ℕ) (r : Fread)
      → total ≤ length ptr
      → Delivered b vs addr w mf ptr (given b vs addr mf total) r
      → take r.bytes_read r.ptr
        ≡ take (given b vs addr mf total) (unread vs mf.current_block mf.current_offset)
  round_output mf w ptr total r room d =
      let left = unread vs mf.current_block mf.current_offset in
      let m = given b vs addr mf total in
      let e : r.bytes_read ≡ length (take m left) = omega (arith, d.count, length-take m left) in
      rw (d.written, e) (take-overwrite-zero (take m left) ptr (omega (arith, length-take m left)))

  -- A call for some bytes gives none only where none are left.
  pub none_left :
      (mf : MyFile) (w : World) (ptr : List ℕ) (total : ℕ) (r : Fread)
      → 0 < total
      → Delivered b vs addr w mf ptr (given b vs addr mf total) r
      → r.bytes_read ≤ 0
      → unread vs mf.current_block mf.current_offset ≡ []
  none_left mf w ptr total r some_total d h = nil_of_length _ (omega (arith, d.count))

  abbrev pub Prints : ℕ → ℕ → ℕ → ℕ → (ℕ → ℕ → ℕ) → World → List ℕ → MyFile → List ℕ → Type 0
  Prints fuel bytes polls n loads w buffer mf output =
      (p : Printed) × (cat_loop fuel b bytes polls n loads w buffer mf output ≡ done p)
      × (p.output ≡ output ++ unread vs mf.current_block mf.current_offset)

  pub cat_loop-Prints :
      (fuel bytes polls n : ℕ) (loads : ℕ → ℕ → ℕ) (w : World) (buffer : List ℕ) (mf : MyFile)
      (output : List ℕ)
      → Holds b vs addr w
      → IsPlaced b vs w mf
      → IsReady addr vs polls (loads n) w mf
      → 0 < bytes
      → bytes < 2 ^ 64
      → bytes ≤ length buffer
      → length (unread vs mf.current_block mf.current_offset) < fuel
      → Prints fuel bytes polls n loads w buffer mf output
  unfolding cat_loop
  cat_loop-Prints zero bytes polls n loads w buffer mf output h p ready pos_bytes small room hf =
      absurd (omega arith)
  cat_loop-Prints (suc fuel) bytes polls n loads w buffer mf output h p ready pos_bytes small room
        hf =
      let (r, run, d) =
        my_fread-Delivered b vs addr polls (loads n) w buffer 1 bytes mf h p ready (omega arith) in
      let left = unread vs mf.current_block mf.current_offset in
      let m = given b vs addr mf (u64 (1 * bytes)) in
      elim (Bool-cases (ltb 0 r.bytes_read)) [
        | inl more ↦
            let (c, rest, printed) =
              cat_loop-Prints fuel bytes polls (n + 1) loads r.world r.ptr r.mf
                (output ++ take r.bytes_read r.ptr) (Holds-Delivered w mf buffer m r h d) d.placed
                (inl d.visited) pos_bytes small
                (omega (arith, ap length d.written, length-overwrite 0 (take m left) buffer))
                (omega (arith, ap length d.rest, length-drop m left, d.count, ltb→lt _ _ more)) in
            (
              c,
              rw (run, more) rest,
              printed
                  ∙ rw (
                    d.rest,
                    round_output mf w buffer (u64 (1 * bytes)) r (omega arith) d,
                    append_assoc output (take m left) (drop m left),
                    take-append-drop m left,
                  ),
            )
        | inr stop ↦ (
          record { output = output; mf = r.mf; world = r.world },
          rw (run, stop),
          rw (none_left mf w buffer (u64 (1 * bytes)) r (omega arith) d (ltb_false→le _ _ stop))
              (sym (append-nil output)),
        )
      ]
