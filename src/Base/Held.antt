-- ===== src/Base/Held.antt =====
-- What a program holds, as a list: the removal of one element.
use Prim.Native.Nat.{ℕ}
use mathlib.Core.Path.{◌≡◌}
use mathlib.Core.Bool.{Bool, false}
use mathlib.Core.Option.{Option, none, some}
use mathlib.Core.List.{List, [], ◌∷◌}
use native.Mathlib.Omega.{arith}
use io_uring_example.Base.Tests.{◌==◌, if◌then◌else◌}
use io_uring_example.Base.Words.{ℤ, pos, negsuc}

abbrev pub same_ℕ : ℕ → ℕ → Bool
same_ℕ m n = m == n

abbrev pub same_ℤ : ℤ → ℤ → Bool
same_ℤ (pos m) (pos n) = m == n
same_ℤ (negsuc m) (negsuc n) = m == n
same_ℤ _ _ = false

-- the list without the first element that is the same, if there is one
abbrev pub take_out {ℓ} : {A : Type ℓ} → (A → A → Bool) → A → List A → Option (List A)
take_out same a [] = none
take_out same a (x ∷ xs) =
    let rest = take_out same a xs in
    if same a x then some xs else elim rest [ none ↦ none | some ys ↦ some (x ∷ ys) ]

pub take_out-first : (a : ℕ) (xs : List ℕ) → take_out same_ℕ a (a ∷ xs) ≡ some xs
take_out-first a xs = ground arith

pub take_out-second : (a x : ℕ) (xs : List ℕ) → take_out same_ℕ a (x ∷ a ∷ xs) ≡ some (x ∷ xs)
take_out-second a x xs = ground arith

pub take_out-first_ℤ : (a : ℤ) (xs : List ℤ) → take_out same_ℤ a (a ∷ xs) ≡ some xs
take_out-first_ℤ (pos n) xs = ground arith
take_out-first_ℤ (negsuc n) xs = ground arith
