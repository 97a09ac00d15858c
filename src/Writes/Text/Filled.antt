-- ===== src/Writes/Text/Filled.antt =====
-- What the loop of sprintf leaves in the buffer, and how much room it takes.
use io_uring_example.Base.{
  ℕ, zero, suc, ◌+◌, ◌*◌, ◌/◌, ◌%◌, ◌≤◌, ◌≡◌, refl, sym, ap, ◌∙◌, inl, inr, Bool-cases, List, [],
  ◌∷◌, ◌++◌, append_assoc, append-nil, ltb, le→leb, length, take, overwrite, length-append,
  length-overwrite, done, arith,
}
use io_uring_example.Writes.Text.{digits, line, lines, sprintf_line, fill}

length-digits : (f n : ℕ) → length (digits f n) ≤ f
length-digits zero n = omega arith
length-digits (suc f) n = elim (Bool-cases (ltb n 10)) [
  | inl small ↦ rw (small, digits) (omega arith)
  | inr large ↦
      rw (large, digits)
        (omega
          (arith, length-append (digits f (n / 10)) ((48 + n % 10) ∷ []), length-digits f (n / 10)))
]

length-line : (n : ℕ) → length (line n) ≤ 11
length-line n = omega (arith, length-append (digits 10 n) (10 ∷ []), length-digits 10 n)

take-overwrite :
    (n at : ℕ) (xs ys buffer : List ℕ)
    → n ≡ at + length xs
    → n ≤ length buffer
    → take n (overwrite at (xs ++ ys) buffer) ≡ take at buffer ++ xs
take-overwrite zero zero [] ys buffer e h = refl
take-overwrite zero zero (x ∷ xs) ys buffer e h = absurd (omega arith)
take-overwrite zero (suc at) xs ys buffer e h = absurd (omega arith)
take-overwrite (suc n) zero [] ys buffer e h = absurd (omega arith)
take-overwrite (suc n) zero (x ∷ xs) ys [] e h = absurd (omega arith)
take-overwrite (suc n) zero (x ∷ xs) ys (y ∷ buffer) e h =
    ap (λ t. x ∷ t) (take-overwrite n zero xs ys buffer (omega arith) (omega arith))
take-overwrite (suc n) (suc at) xs ys [] e h = absurd (omega arith)
take-overwrite (suc n) (suc at) xs ys (y ∷ buffer) e h =
    ap (λ t. y ∷ t) (take-overwrite n at xs ys buffer (omega arith) (omega arith))

sprintf_line-fits :
    (buffer : List ℕ) (at n : ℕ)
    → at + 12 ≤ length buffer
    → sprintf_line buffer at n ≡ done (overwrite at (line n ++ 0 ∷ []) buffer, length (line n))
unfolding sprintf_line
sprintf_line-fits buffer at n h =
    rw (le→leb (at + length (line n) + 1) (length buffer) (omega (arith, length-line n)))

fill_step :
    (n : ℕ) (ns buffer : List ℕ) (at : ℕ)
    → at + 12 ≤ length buffer
    → fill (n ∷ ns) buffer at
      ≡ fill ns (overwrite at (line n ++ 0 ∷ []) buffer) (at + length (line n))
unfolding fill
fill_step n ns buffer at h = rw (sprintf_line-fits buffer at n h)

-- the buffer behind the loop, and the place of its pointer
pub record IsFilled (ns buffer : List ℕ) (at : ℕ) (buffer' : List ℕ) (at' : ℕ) : Type 0 where
  pub place : at' ≡ at + length (lines ns)
  pub written : take at' buffer' ≡ take at buffer ++ lines ns
  pub size : length buffer' ≡ length buffer
  pub short : length (lines ns) ≤ 11 * length ns

-- With 12 bytes for each number the loop stays inside the buffer: it ends with the pointer behind the lines of
-- the numbers, which stand behind what was there, and the buffer keeps its size. At most 11 bytes are used
-- for each number.
pub fill-IsFilled :
    (ns buffer : List ℕ) (at : ℕ)
    → at + 12 * length ns ≤ length buffer
    → (buffer' : List ℕ) × (at' : ℕ) × (fill ns buffer at ≡ done (buffer', at'))
      × IsFilled ns buffer at buffer' at'
unfolding fill
fill-IsFilled [] buffer at h = (
  buffer,
  at,
  refl,
  record {
    place = omega arith;
    written = sym (append-nil (take at buffer));
    size = refl;
    short = omega arith;
  },
)
fill-IsFilled (n ∷ ns) buffer at h =
    let next = overwrite at (line n ++ 0 ∷ []) buffer in
    let same = length-overwrite at (line n ++ 0 ∷ []) buffer in
    let small = length-line n in
    let (buffer', at', run, r) =
      fill-IsFilled ns next (at + length (line n)) (omega (arith, same, small)) in
    (
      buffer',
      at',
      fill_step n ns buffer at (omega arith) ∙ run,
      record {
        place = omega (arith, r.place, length-append (line n) (lines ns));
        written =
            r.written
            ∙ rw
                (take-overwrite (at + length (line n)) at (line n) (0 ∷ []) buffer refl
                  (omega (arith, small)))
                (append_assoc (take at buffer) (line n) (lines ns));
        size = r.size ∙ same;
        short = omega (arith, r.short, small, length-append (line n) (lines ns));
      },
    )
