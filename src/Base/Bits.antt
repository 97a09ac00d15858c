-- ===== src/Base/Bits.antt =====
-- `&` with the mask of a ring of 2 ^ k entries is the remainder by 2 ^ k.
use Prim.Native.Nat.{
  ℕ, zero, suc, ◌+◌, ◌-◌, ◌*◌, ◌/◌, ◌%◌, ◌^◌, ◌≤◌, ◌<◌, ◌∣◌, min, bit_and, digits, bit_and-bitwise,
}
use mathlib.Core.Path.{◌≡◌, refl, ap}
use mathlib.Core.Logic.{◌≢◌, inl, inr}
use native.Mathlib.Nat.{
  pow-suc, one-le-pow, div-div-eq-div-mul, mod-eq-sub-div-mul, div-mul-le_self, dvd_refl,
  dvd-mul_right_of_dvd, mod-mod_of_dvd, mod-add-mod, mod-eq_of_lt, mod-eq-sub-mod, mod-lt,
}
use io_uring_example.Base.Tests.{ltb, ltb→lt, ltb_false→le, Bool-cases}
use native.Mathlib.Omega.{arith}

-- The native operation stands for a walk over the binary digits; its result does not depend on
-- how much fuel the walk is given.
abbrev walk : ℕ → ℕ → ℕ → ℕ
walk fuel a b = digits (λ b. zero) min fuel a b

walk_fuel : (f g a b : ℕ) → a ≤ f → a ≤ g → walk f a b ≡ walk g a b
walk_fuel zero zero a b hf hg = refl
walk_fuel zero (suc g) zero b hf hg = refl
walk_fuel (suc f) zero zero b hf hg = refl
walk_fuel (suc f) (suc g) zero b hf hg = refl
walk_fuel zero g (suc a) b hf hg = absurd (omega arith)
walk_fuel (suc f) zero (suc a) b hf hg = absurd (omega arith)
walk_fuel (suc f) (suc g) (suc a) b hf hg =
    omega (arith, walk_fuel f g (suc a / 2) (b / 2) (omega arith) (omega arith))

bit_and_halves : (a b : ℕ) → bit_and a b ≡ 2 * bit_and (a / 2) (b / 2) + min (a % 2) (b % 2)
bit_and_halves zero b = omega (arith, bit_and-bitwise 0 b, bit_and-bitwise 0 (b / 2))
bit_and_halves (suc a) b = omega (
  arith,
  walk_fuel a (suc a / 2) (suc a / 2) (b / 2) (omega arith) (omega arith),
  bit_and-bitwise (suc a) b,
  bit_and-bitwise (suc a / 2) (b / 2),
)

bit_and_zero_below : (f a : ℕ) → a ≤ f → bit_and a 0 ≡ 0
bit_and_zero_below f zero h = refl
bit_and_zero_below zero (suc a) h = absurd (omega arith)
bit_and_zero_below (suc f) (suc a) h =
    omega (arith, bit_and_zero_below f (suc a / 2) (omega arith), bit_and_halves (suc a) 0)

join_digit : (p a : ℕ) → 0 < p → 2 * (a / 2 % p) + a % 2 ≡ a % (2 * p)
join_digit p a h = omega (
  arith,
  ap (λ (t : ℕ). t * (2 * p)) (div-div-eq-div-mul a 2 p),
  div-mul-le_self a (2 * p),
  div-mul-le_self (a / 2) p,
  mod-eq-sub-div-mul a (2 * p),
  mod-eq-sub-div-mul (a / 2) p,
)

pub bit_and-mask : (k a : ℕ) → bit_and a (2 ^ k - 1) ≡ a % 2 ^ k
bit_and-mask zero a = omega (arith, bit_and_zero_below a a (omega arith))
bit_and-mask (suc k) a = ground (
  arith,
  pow-suc 2 k,
  one-le-pow k 2,
  bit_and_halves a (2 ^ suc k - 1),
  bit_and-mask k (a / 2),
  join_digit (2 ^ k) a,
)

pub bit_and-mask_lt : (k a : ℕ) → bit_and a (2 ^ k - 1) < 2 ^ k
bit_and-mask_lt k a = rw bit_and-mask (omega (arith, one-le-pow k 2))

pub pow_dvd : (j k n : ℕ) → j + k ≡ n → 2 ^ k ∣ 2 ^ n
pow_dvd zero k n e = let e' : n ≡ k = omega arith in rw e' (dvd_refl (2 ^ k))
pow_dvd (suc j) k zero e = absurd (omega arith)
pow_dvd (suc j) k (suc n) e =
    rw (pow-suc 2 n) (dvd-mul_right_of_dvd (2 ^ k) (pow_dvd j k n (omega arith)) 2)

-- The wrap-around of a w-bit counter does not show in its lower bits.
pub mod-mod_pow : (k n a : ℕ) → k ≤ n → a % 2 ^ n % 2 ^ k ≡ a % 2 ^ k
mod-mod_pow k n a h = mod-mod_of_dvd (2 ^ k) a (pow_dvd (n - k) k n (omega arith))

-- Fewer than `c` steps round a ring of `c` places do not come back to the start.
pub add-mod_ne : (a d c : ℕ) → 0 < d → d < c → (a + d) % c ≢ a % c
add-mod_ne a d c some_steps few same =
    let r = a % c in
    let small : r < c = mod-lt a (omega arith) in
    let moved : (r + d) % c ≡ (a + d) % c = mod-add-mod a c d in
    elim (Bool-cases (ltb (r + d) c)) [
      | inl before ↦ omega (arith, mod-eq_of_lt {n = r + d} {m = c} (ltb→lt (r + d) c before))
      | inr round ↦
          let le = ltb_false→le (r + d) c round in
          omega (
            arith,
            mod-eq-sub-mod {n = r + d} {m = c} le,
            mod-eq_of_lt {n = r + d - c} {m = c} (omega arith),
          )
    ]
