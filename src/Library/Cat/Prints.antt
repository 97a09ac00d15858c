-- ===== src/Library/Cat/Prints.antt =====
-- What the loop of main.cpp's cat writes, and what it leaves as it was.
use io_uring_example.Base.{
  ℕ, zero, suc, ◌+◌, ◌*◌, ◌≤◌, ◌<◌, ◌^◌, ◌≡◌, sym, ap, ◌∙◌, ◌⊎◌, inl, inr, Bool-cases, some, List,
  ◌++◌, append_assoc, append-nil, take, drop, length, ltb, length-drop, length-overwrite,
  take-append-drop, done, arith, u64, ltb→lt, ltb_false→le,
}
use io_uring_example.Reader.{Submitter, Iovc, World}
use io_uring_example.Reader.Spec.{Holds, unread}
use io_uring_example.Reader.Read.Delivery.{IsPlaced, IsSettled, given}
use io_uring_example.Reader.Cat.Output.{Holds-Delivered, round_output, none_left}
use io_uring_example.Library.{Pointer, MyFile}
use io_uring_example.Library.Device.Same.{view, view_fread}
use io_uring_example.Library.Device.Keeps.{IsSameFile, my_fread-IsSameFile}
use io_uring_example.Library.Device.Delivery.{IsArrived, device_fread-Delivered}
use io_uring_example.Library.Cat.{Printed, cat_loop}

module _ (b : ℕ) (vs : List Iovc) (addr : ℕ) (p : Pointer Submitter) where
  abbrev left : MyFile → List ℕ
  left mf = unread vs mf.current_block mf.current_offset

  -- what the loop leaves behind
  pub record Prints (w : World) (mf : MyFile) (output : List ℕ) (q : Printed) : Type 0 where
    pub printed : q.output ≡ output ++ unread vs mf.current_block mf.current_offset
    pub same : IsSameFile mf q.mf
    pub memory : q.world.file_info ≡ w.file_info

  IsSameFile-trans : (m m1 m2 : MyFile) → IsSameFile m m1 → IsSameFile m1 m2 → IsSameFile m m2
  IsSameFile-trans m m1 m2 a c = record { fd = c.fd ∙ a.fd; s = c.s ∙ a.s; fi = c.fi ∙ a.fi }

  pub cat_loop-Prints :
      (fuel bytes n : ℕ) (loads : ℕ → ℕ → ℕ) (w : World) (buffer : List ℕ) (mf : MyFile)
      (output : List ℕ)
      → mf.s ≡ some p
      → Holds b vs addr w
      → IsPlaced b vs w (view p.target mf)
      → IsSettled addr vs (view p.target mf) ⊎ IsArrived addr (loads n) w p.target mf
      → 0 < bytes
      → bytes < 2 ^ 64
      → bytes ≤ length buffer
      → length (unread vs mf.current_block mf.current_offset) < fuel
      → (q : Printed) × (cat_loop fuel b bytes n loads w buffer mf output ≡ done q)
        × Prints w mf output q
  unfolding cat_loop
  cat_loop-Prints zero bytes n loads w buffer mf output owned h placed ready pos_bytes small room
        hf =
      absurd (omega arith)
  cat_loop-Prints (suc fuel) bytes n loads w buffer mf output owned h placed ready pos_bytes small
        room hf =
      let (r, run, d) =
        device_fread-Delivered b vs addr w buffer 1 bytes mf p owned (loads n) h placed ready
          (omega arith) in
      let same = my_fread-IsSameFile b (loads n) w buffer 1 bytes mf r run in
      let before = view p.target mf in
      let after = view_fread p.target r in
      let m = given b vs addr before (u64 (1 * bytes)) in
      elim (Bool-cases (ltb 0 r.bytes_read)) [
        | inl more ↦
            let (q, rest, prints) =
              cat_loop-Prints fuel bytes (n + 1) loads r.world r.ptr r.mf
                (output ++ take r.bytes_read r.ptr) (same.s ∙ owned)
                (Holds-Delivered b vs addr w before buffer m after h d) d.placed (inl d.visited)
                pos_bytes small
                (omega (arith, ap length d.written, length-overwrite 0 (take m (left mf)) buffer))
                (omega
                  (arith, ap length d.rest, length-drop m (left mf), d.count, ltb→lt _ _ more)) in
            (
              q,
              rw (run, more) rest,
              record {
                printed =
                    prints.printed
                    ∙ rw (
                      d.rest,
                      round_output b vs addr before w buffer (u64 (1 * bytes)) after (omega arith)
                          d,
                      append_assoc output (take m (left mf)) (drop m (left mf)),
                      take-append-drop m (left mf),
                    );
                same = IsSameFile-trans mf r.mf q.mf same prints.same;
                memory = prints.memory ∙ d.memory;
              },
            )
        | inr stop ↦ (
          record { output = output; mf = r.mf; world = r.world },
          rw (run, stop),
          record {
            printed =
                rw
                  (none_left b vs addr before w buffer (u64 (1 * bytes)) after (omega arith) d
                    (ltb_false→le _ _ stop))
                  (sym (append-nil output));
            same = same;
            memory = d.memory;
          },
        )
      ]
