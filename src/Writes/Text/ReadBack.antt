-- ===== src/Writes/Text/ReadBack.antt =====
-- The lines of numbers, read back.
use io_uring_example.Base.{
  ℕ, zero, suc, ◌+◌, ◌-◌, ◌*◌, ◌/◌, ◌%◌, ◌^◌, ◌<◌, ◌≡◌, refl, ap, ◌∙◌, inl, inr, true, false,
  Bool-cases, Option, none, some, List, [], ◌∷◌, ◌++◌, append_assoc, ltb, ltb→lt, lt→ltb, ◌==◌,
  ◌||◌, if◌then◌else◌, All, arith,
}
use native.Mathlib.Nat.{pow-suc}
use io_uring_example.Writes.Text.{digits, line, lines}

abbrev cons_some : ℕ → Option (List ℕ) → Option (List ℕ)
cons_some n none = none
cons_some n (some ns) = some (n ∷ ns)

-- A text of decimal digits and line feeds, as the numbers that its lines spell: `acc` is the value of the
-- digits of the present line so far. Other bytes are refused; what follows the last line feed is not read.
unfoldable pub read_lines : ℕ → List ℕ → Option (List ℕ)
read_lines acc [] = some []
read_lines acc (c ∷ cs) =
    if c == 10
    then cons_some acc (read_lines 0 cs)
    else if ltb c 48 || ltb 57 c
    then none
    else read_lines (acc * 10 + (c - 48)) cs

read_digit :
    (acc d : ℕ) (cs : List ℕ)
    → d < 10
    → read_lines acc ((48 + d) ∷ cs) ≡ read_lines (acc * 10 + d) cs
unfolding read_lines
read_digit acc d cs h = ground arith

tenth_small : (f n : ℕ) → n < 10 ^ suc f → n / 10 < 10 ^ f
tenth_small f n h = omega (arith, pow-suc 10 f)

first_digit : (n : ℕ) (cs : List ℕ) → n < 10 → read_lines 0 ((48 + n) ∷ cs) ≡ read_lines n cs
first_digit n cs h =
    let e : 0 * 10 + n ≡ n = omega arith in read_digit 0 n cs h ∙ ap (λ k. read_lines k cs) e

digits_small : (f n : ℕ) → ltb n 10 ≡ true → digits (suc f) n ≡ (48 + n) ∷ []
digits_small f n e = rw (e, digits)

digits_large :
    (f n : ℕ) → ltb n 10 ≡ false → digits (suc f) n ≡ digits f (n / 10) ++ (48 + n % 10) ∷ []
digits_large f n e = rw (e, digits)

-- The digits of a number spell it.
read_digits :
    (f n : ℕ) (cs : List ℕ)
    → n < 10 ^ suc f
    → read_lines 0 (digits (suc f) n ++ cs) ≡ read_lines n cs
read_digits zero n cs h = rw (digits_small 0 n (lt→ltb n 10 h)) (first_digit n cs h)
read_digits (suc f) n cs h = elim (Bool-cases (ltb n 10)) [
  | inl small ↦ rw (digits_small (suc f) n small) (first_digit n cs (ltb→lt n 10 small))
  | inr large ↦
      let whole : n / 10 * 10 + n % 10 ≡ n = omega arith in
      rw
        (
          digits_large (suc f) n large,
          append_assoc (digits (suc f) (n / 10)) ((48 + n % 10) ∷ []) cs,
        )
        (read_digits f (n / 10) ((48 + n % 10) ∷ cs) (tenth_small (suc f) n h)
          ∙ read_digit (n / 10) (n % 10) cs (omega arith)
          ∙ ap (λ k. read_lines k cs) whole)
]

read_line :
    (n : ℕ) (cs : List ℕ)
    → n < 10 ^ 10
    → read_lines 0 (line n ++ cs) ≡ cons_some n (read_lines 0 cs)
unfolding read_lines
read_line n cs h = rw (append_assoc (digits 10 n) (10 ∷ []) cs) (read_digits 9 n (10 ∷ cs) h)

-- The lines of numbers below 10 ^ 10 are read back as these numbers.
pub read_lines-lines : (ns : List ℕ) → All (λ n. n < 10 ^ 10) ns → read_lines 0 (lines ns) ≡ some ns
unfolding read_lines
read_lines-lines [] h = refl
read_lines-lines (n ∷ ns) (small, h) = rw (read_line n (lines ns) small, read_lines-lines ns h)
