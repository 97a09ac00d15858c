-- ===== src/Base/Lists.antt =====
-- Lists measured and indexed by native numbers, under the library's names, and writes into memory.
use Prim.Native.Nat.{ℕ, zero, suc, ◌+◌, ◌-◌, ◌≤◌, ◌<◌, min}
use mathlib.Core.Path.{◌≡◌, refl, ap}
use mathlib.Core.List.{List, [], ◌∷◌, ◌++◌}
use mathlib.Core.Logic.{◌≢◌}
use mathlib.Core.Option.{Option, none, some}
use native.Mathlib.Omega.{arith}

module _ {ℓ} {A : Type ℓ} where
  abbrev pub length : List A → ℕ
  length [] = 0
  length (x ∷ xs) = suc (length xs)

  abbrev pub get_elem? : List A → ℕ → Option A
  get_elem? [] i = none
  get_elem? (x ∷ xs) zero = some x
  get_elem? (x ∷ xs) (suc i) = get_elem? xs i

  -- A write out of bounds changes nothing.
  abbrev pub set : List A → ℕ → A → List A
  set [] i v = []
  set (x ∷ xs) zero v = v ∷ xs
  set (x ∷ xs) (suc i) v = x ∷ set xs i v

  abbrev pub take : ℕ → List A → List A
  take zero xs = []
  take (suc n) [] = []
  take (suc n) (x ∷ xs) = x ∷ take n xs

  abbrev pub drop : ℕ → List A → List A
  drop zero xs = xs
  drop (suc n) [] = []
  drop (suc n) (x ∷ xs) = drop n xs

  abbrev pub replicate : ℕ → A → List A
  replicate zero a = []
  replicate (suc n) a = a ∷ replicate n a

  abbrev pub flatten : List (List A) → List A
  flatten [] = []
  flatten (xs ∷ xss) = xs ++ flatten xss

  -- `xs` over the items from index `d` on; what lies past the end is cut off.
  abbrev pub overwrite : ℕ → List A → List A → List A
  overwrite zero [] dst = dst
  overwrite zero (x ∷ xs) [] = []
  overwrite zero (x ∷ xs) (y ∷ dst) = x ∷ overwrite zero xs dst
  overwrite (suc d) xs [] = []
  overwrite (suc d) xs (y ∷ dst) = y ∷ overwrite d xs dst

module _ {ℓ} {A : Type ℓ} where
  pub length-append : (xs ys : List A) → length (xs ++ ys) ≡ length xs + length ys
  length-append [] ys = omega arith
  length-append (x ∷ xs) ys = omega (arith, length-append xs ys)

  pub length-take : (n : ℕ) (xs : List A) → length (take n xs) ≡ min n (length xs)
  length-take zero xs = omega arith
  length-take (suc n) [] = omega arith
  length-take (suc n) (x ∷ xs) = omega (arith, length-take n xs)

  pub length-drop : (n : ℕ) (xs : List A) → length (drop n xs) ≡ length xs - n
  length-drop zero xs = omega arith
  length-drop (suc n) [] = omega arith
  length-drop (suc n) (x ∷ xs) = omega (arith, length-drop n xs)

  pub length-replicate : (n : ℕ) (a : A) → length (replicate n a) ≡ n
  length-replicate zero a = refl
  length-replicate (suc n) a = ap suc (length-replicate n a)

  pub length-set : (xs : List A) (i : ℕ) (v : A) → length (set xs i v) ≡ length xs
  length-set [] i v = refl
  length-set (x ∷ xs) zero v = refl
  length-set (x ∷ xs) (suc i) v = ap suc (length-set xs i v)

  pub length-overwrite : (d : ℕ) (xs dst : List A) → length (overwrite d xs dst) ≡ length dst
  length-overwrite zero [] dst = refl
  length-overwrite zero (x ∷ xs) [] = refl
  length-overwrite zero (x ∷ xs) (y ∷ dst) = ap suc (length-overwrite zero xs dst)
  length-overwrite (suc d) xs [] = refl
  length-overwrite (suc d) xs (y ∷ dst) = ap suc (length-overwrite d xs dst)

  pub get_elem?-length : (xs : List A) (i : ℕ) → i < length xs → (x : A) × (get_elem? xs i ≡ some x)
  get_elem?-length [] i h = absurd (omega arith)
  get_elem?-length (x ∷ xs) zero h = (x, refl)
  get_elem?-length (x ∷ xs) (suc i) h = get_elem?-length xs i (omega arith)

  pub drop-length : (n : ℕ) (xs : List A) → length xs ≤ n → drop n xs ≡ []
  drop-length zero [] h = refl
  drop-length zero (x ∷ xs) h = absurd (omega arith)
  drop-length (suc n) [] h = refl
  drop-length (suc n) (x ∷ xs) h = drop-length n xs (omega arith)

  pub take-length : (n : ℕ) (xs : List A) → length xs ≤ n → take n xs ≡ xs
  take-length zero [] h = refl
  take-length zero (x ∷ xs) h = absurd (omega arith)
  take-length (suc n) [] h = refl
  take-length (suc n) (x ∷ xs) h = ap (λ t. x ∷ t) (take-length n xs (omega arith))

  pub take-append-drop : (n : ℕ) (xs : List A) → take n xs ++ drop n xs ≡ xs
  take-append-drop zero xs = refl
  take-append-drop (suc n) [] = refl
  take-append-drop (suc n) (x ∷ xs) = ap (λ t. x ∷ t) (take-append-drop n xs)

  -- The sum stands as a variable with an equation, since a sum at variables computes no further.
  pub drop-drop : (m n k : ℕ) (xs : List A) → m + n ≡ k → drop n (drop m xs) ≡ drop k xs
  drop-drop zero n k xs e = let e' : n ≡ k = omega arith in rw e'
  drop-drop (suc m) zero k [] e = let e' : k ≡ suc m = omega arith in rw e'
  drop-drop (suc m) (suc n) zero [] e = refl
  drop-drop (suc m) (suc n) (suc k) [] e = refl
  drop-drop (suc m) n zero (x ∷ xs) e = absurd (omega arith)
  drop-drop (suc m) n (suc k) (x ∷ xs) e = drop-drop m n k xs (omega arith)

  pub take-append-take :
      (m n k : ℕ) (xs : List A) → m + n ≡ k → take m xs ++ take n (drop m xs) ≡ take k xs
  take-append-take zero n k xs e = let e' : n ≡ k = omega arith in rw e'
  take-append-take (suc m) zero zero xs e = absurd (omega arith)
  take-append-take (suc m) (suc n) zero xs e = absurd (omega arith)
  take-append-take (suc m) zero (suc k) [] e = refl
  take-append-take (suc m) (suc n) (suc k) [] e = refl
  take-append-take (suc m) zero (suc k) (x ∷ xs) e =
      ap (λ t. x ∷ t) (take-append-take m zero k xs (omega arith))
  take-append-take (suc m) (suc n) (suc k) (x ∷ xs) e =
      ap (λ t. x ∷ t) (take-append-take m (suc n) k xs (omega arith))

  pub take-append_le : (n : ℕ) (xs ys : List A) → n ≤ length xs → take n (xs ++ ys) ≡ take n xs
  take-append_le zero xs ys h = refl
  take-append_le (suc n) [] ys h = absurd (omega arith)
  take-append_le (suc n) (x ∷ xs) ys h = ap (λ t. x ∷ t) (take-append_le n xs ys (omega arith))

  pub drop-append_le :
      (n : ℕ) (xs ys : List A) → n ≤ length xs → drop n (xs ++ ys) ≡ drop n xs ++ ys
  drop-append_le zero xs ys h = refl
  drop-append_le (suc n) [] ys h = absurd (omega arith)
  drop-append_le (suc n) (x ∷ xs) ys h = drop-append_le n xs ys (omega arith)

  pub drop_of_get_elem? :
      (xs : List A) (i : ℕ) (x : A) → get_elem? xs i ≡ some x → drop i xs ≡ x ∷ drop (suc i) xs
  drop_of_get_elem? [] i x e = cc
  drop_of_get_elem? (y ∷ xs) zero x e = ground arith
  drop_of_get_elem? (y ∷ xs) (suc i) x e = drop_of_get_elem? xs i x e

  pub overwrite-overwrite :
      (d e : ℕ) (xs ys dst : List A)
      → d + length xs ≡ e
      → overwrite e ys (overwrite d xs dst) ≡ overwrite d (xs ++ ys) dst
  overwrite-overwrite zero zero [] ys dst h = refl
  overwrite-overwrite zero (suc e) [] ys dst h = absurd (omega arith)
  overwrite-overwrite zero zero (x ∷ xs) ys dst h = absurd (omega arith)
  overwrite-overwrite zero (suc e) (x ∷ xs) ys [] h = refl
  overwrite-overwrite zero (suc e) (x ∷ xs) ys (y ∷ dst) h =
      ap (λ t. x ∷ t) (overwrite-overwrite zero e xs ys dst (omega arith))
  overwrite-overwrite (suc d) zero xs ys dst h = absurd (omega arith)
  overwrite-overwrite (suc d) (suc e) xs ys [] h = refl
  overwrite-overwrite (suc d) (suc e) xs ys (y ∷ dst) h =
      ap (λ t. y ∷ t) (overwrite-overwrite d e xs ys dst (omega arith))

  pub take-overwrite-zero :
      (xs dst : List A) → length xs ≤ length dst → take (length xs) (overwrite zero xs dst) ≡ xs
  take-overwrite-zero [] dst h = refl
  take-overwrite-zero (x ∷ xs) [] h = absurd (omega arith)
  take-overwrite-zero (x ∷ xs) (y ∷ dst) h =
      ap (λ t. x ∷ t) (take-overwrite-zero xs dst (omega arith))

-- Every element has the property.
abbrev pub All {ℓ κ} : {A : Type ℓ} → (A → Type κ) → List A → Type κ
All P [] = Unit
All P (x ∷ xs) = P x × All P xs

pub All-map {ℓ κ} :
    {A : Type ℓ} (P Q : A → Type κ) (f : (x : A) → P x → Q x) (xs : List A) → All P xs → All Q xs
All-map P Q f [] h = tt
All-map P Q f (x ∷ xs) h = (f x h.0, All-map P Q f xs h.1)

-- an element in the middle, and the others
pub All-middle {ℓ κ} :
    {A : Type ℓ} (P : A → Type κ) (before : List A) (x : A) (after : List A)
    → All P (before ++ x ∷ after)
    → P x × All P (before ++ after)
All-middle P [] x after h = (h.0, h.1)
All-middle P (y ∷ before) x after h =
    let (p, hs) = All-middle P before x after h.1 in (p, (h.0, hs))

pub get_elem?-set_same {ℓ} :
    {A : Type ℓ} (xs : List A) (i : ℕ) (x y : A)
    → get_elem? xs i ≡ some x
    → get_elem? (set xs i y) i ≡ some y
get_elem?-set_same [] i x y e = ground (arith, e)
get_elem?-set_same (z ∷ xs) zero x y e = refl
get_elem?-set_same (z ∷ xs) (suc i) x y e = get_elem?-set_same xs i x y e

pub get_elem?-set_other {ℓ} :
    {A : Type ℓ} (xs : List A) (i j : ℕ) (y : A) → i ≢ j → get_elem? (set xs i y) j ≡ get_elem? xs j
get_elem?-set_other [] i j y d = refl
get_elem?-set_other (z ∷ xs) zero zero y d = absurd (d refl)
get_elem?-set_other (z ∷ xs) zero (suc j) y d = refl
get_elem?-set_other (z ∷ xs) (suc i) zero y d = refl
get_elem?-set_other (z ∷ xs) (suc i) (suc j) y d = get_elem?-set_other xs i j y (λ e. d (ap suc e))

pub get_elem?-set_in {ℓ} :
    {A : Type ℓ} (xs : List A) (i : ℕ) (y : A) → i < length xs → get_elem? (set xs i y) i ≡ some y
get_elem?-set_in [] i y h = absurd (omega arith)
get_elem?-set_in (x ∷ xs) zero y h = refl
get_elem?-set_in (x ∷ xs) (suc i) y h = get_elem?-set_in xs i y (omega arith)

pub take-append_past {ℓ} :
    {A : Type ℓ} (xs ys : List A) (k r : ℕ)
    → k ≡ length xs + r
    → take k (xs ++ ys) ≡ xs ++ take r ys
take-append_past [] ys k r e = let e' : k ≡ r = omega arith in rw e'
take-append_past (x ∷ xs) ys zero r e = absurd (omega arith)
take-append_past (x ∷ xs) ys (suc k) r e =
    ap (λ t. x ∷ t) (take-append_past xs ys k r (omega arith))

pub take-take_le {ℓ} : {A : Type ℓ} (r n : ℕ) (xs : List A) → r ≤ n → take r (take n xs) ≡ take r xs
take-take_le zero n xs h = refl
take-take_le (suc r) zero xs h = absurd (omega arith)
take-take_le (suc r) (suc n) [] h = refl
take-take_le (suc r) (suc n) (x ∷ xs) h = ap (λ t. x ∷ t) (take-take_le r n xs (omega arith))
