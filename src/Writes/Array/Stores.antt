-- ===== src/Writes/Array/Stores.antt =====
-- The stores of the target loops and of the atomic index: what the array holds after them.
use io_uring_example.Base.{
  ℕ, zero, suc, ◌+◌, ◌-◌, ◌%◌, ◌<◌, ◌^◌, min, ◌≡◌, ◌≢◌, refl, sym, ap, ◌∙◌, ◌⊎◌, inl, inr, some,
  List, [], ◌∷◌, ◌++◌, length, set, get_elem?, replicate, ltb, lt→ltb, ltb→lt, ltb_false→le,
  Bool-cases, ◌==◌, All, done, arith, length-set, get_elem?-set_in, get_elem?-set_other,
  length-append, length-replicate,
}
use native.Mathlib.Nat.{mod-eq_of_lt, mod-lt}
use io_uring_example.Writes.Array.{store_all, sum, set_slots}

abbrev pub IsIn : ℕ → List ℕ → Type 0
IsIn i [] = ⊥
IsIn i (j ∷ js) = (i ≡ j) ⊎ IsIn i js

-- Every index of an array of `n` elements, in some order, and no other.
pub record IsOrder (n : ℕ) (order : List ℕ) : Type 0 where
  pub inside : All (λ i. i < n) order
  pub every : (i : ℕ) → i < n → IsIn i order

abbrev Reads : List ℕ → ℕ → ℕ → Type 0
Reads array i v = get_elem? array i ≡ some v

get_elem?-replicate :
    (v : ℕ) (xs : List ℕ) → ((i : ℕ) → i < length xs → Reads xs i v) → xs ≡ replicate (length xs) v
get_elem?-replicate v [] h = refl
get_elem?-replicate v (x ∷ xs) h =
    let first : x ≡ v = ground (arith, h 0 (omega arith)) in
    rw (first, sym (get_elem?-replicate v xs (λ i lt. h (suc i) (omega arith))))

set_get :
    (array : List ℕ) (j i v : ℕ)
    → j < length array
    → Reads array i v ⊎ (i ≡ j)
    → Reads (set array j v) i v
set_get array j i v h (inr e) = rw e (get_elem?-set_in array j v h)
set_get array j i v h (inl r) = elim (Bool-cases (j == i)) [
  | inl same ↦ let e : i ≡ j = ground (arith, same) in rw e (get_elem?-set_in array j v h)
  | inr other ↦ let d : j ≢ i = ground (arith, other) in get_elem?-set_other array j i v d ∙ r
]

-- the places that are left after one store
left_over :
    (order array : List ℕ) (j i v : ℕ)
    → j < length array
    → Reads array i v ⊎ IsIn i (j ∷ order)
    → Reads (set array j v) i v ⊎ IsIn i order
left_over order array j i v h (inl r) = inl (set_get array j i v h (inl r))
left_over order array j i v h (inr (inl e)) = inl (set_get array j i v h (inr e))
left_over order array j i v h (inr (inr n)) = inr n

-- Where each place holds the value already or is still in the order, all places hold it in the end.
store_all_lem :
    (v : ℕ) (order array : List ℕ)
    → All (λ i. i < length array) order
    → ((i : ℕ) → i < length array → Reads array i v ⊎ IsIn i order)
    → store_all v order array ≡ done (replicate (length array) v)
unfolding store_all
store_all_lem v [] array inside h =
    ap done (get_elem?-replicate v array (λ i lt. elim (h i lt) [ inl r ↦ r | inr n ↦ absurd n ]))
store_all_lem v (j ∷ order) array (lt, inside) h =
    let size = length-set array j v in
    let rest =
      store_all_lem v order (set array j v) (rw size inside)
        (λ i lt'. left_over order array j i v lt (h i (omega (arith, size)))) in
    rw (lt→ltb j (length array) lt) (rest ∙ ap (λ n. done (replicate n v)) size)

-- In whatever order the iterations of the loop make their stores, if each index has its iteration the array
-- holds the value everywhere.
pub store_all-IsOrder :
    (v : ℕ) (order array : List ℕ)
    → IsOrder (length array) order
    → store_all v order array ≡ done (replicate (length array) v)
store_all-IsOrder v order array o =
    store_all_lem v order array o.inside (λ i lt. inr (o.every i lt))

pub sum-replicate : (n : ℕ) → sum (replicate n 1) ≡ n
sum-replicate zero = refl
sum-replicate (suc n) = omega (arith, sum-replicate n)

-- the ring of `b` places after `k` writes
abbrev pub written : ℕ → ℕ → List ℕ
written b k = replicate (min k b) 1 ++ replicate (b - k) 0

set_again : (n i : ℕ) (ys : List ℕ) → i < n → set (replicate n 1 ++ ys) i 1 ≡ replicate n 1 ++ ys
set_again zero i ys h = absurd (omega arith)
set_again (suc n) zero ys h = refl
set_again (suc n) (suc i) ys h = ap (λ t. 1 ∷ t) (set_again n i ys (omega arith))

set-append : (k : ℕ) (ys : List ℕ) → set (replicate k 1 ++ 0 ∷ ys) k 1 ≡ replicate (suc k) 1 ++ ys
set-append zero ys = refl
set-append (suc k) ys = ap (λ t. 1 ∷ t) (set-append k ys)

-- One more write: to the next place, or, once all are taken, to one that holds 1 already.
set-written : (b k : ℕ) → 0 < b → set (written b k) (k % b) 1 ≡ written b (k + 1)
set-written b k h = elim (Bool-cases (ltb k b)) [
  | inl room ↦
      let lt = ltb→lt k b room in
      let (m0, m1, r0, at) : (min k b ≡ k)
          × (min (k + 1) b ≡ suc k)
          × (b - k ≡ suc (b - (k + 1)))
          × (k % b ≡ k) =
        (omega arith, omega arith, omega arith, mod-eq_of_lt lt) in
      rw (m0, m1, r0, at) (set-append k (replicate (b - (k + 1)) 0))
  | inr full ↦
      let le = ltb_false→le k b full in
      let (m0, m1, r0, r1) : (min k b ≡ b) × (min (k + 1) b ≡ b) × (b - k ≡ 0) × (b - (k + 1) ≡ 0) =
        (omega arith, omega arith, omega arith, omega arith) in
      rw (m0, m1, r0, r1) (set_again b (k % b) [] (omega arith))
]

length-written : (b k : ℕ) → length (written b k) ≡ b
length-written b k = omega (
  arith,
  length-append {A = ℕ} (replicate (min k b) 1) (replicate (b - k) 0),
  length-replicate {A = ℕ} (min k b) 1,
  length-replicate {A = ℕ} (b - k) 0,
)

set_slots_step :
    (b n k : ℕ)
    → 0 < b
    → k < 2 ^ 31
    → set_slots b (suc n) k (written b k) ≡ set_slots b n (k + 1) (written b (k + 1))
unfolding set_slots
set_slots_step b n k h small =
    rw
      (
        lt→ltb k (2 ^ 31) small,
        length-written b k,
        lt→ltb (k % b) b (mod-lt k h),
        set-written b k h,
      )
      refl

-- The invariant of the loop, in a ring of one place or more: after `k` writes the first places of the ring, up
-- to all of them, hold 1 and the others 0; `n` more writes, below 2 ^ 31 in all, stay inside the ring and make
-- that `k + n`.
pub set_slots-written :
    (b n k : ℕ) → 0 < b → k + n < 2 ^ 31 → set_slots b n k (written b k) ≡ done (written b (k + n))
unfolding set_slots
set_slots-written b zero k h small = ap (λ t. done (written b t)) (omega arith)
set_slots-written b (suc n) k h small =
    let e : k + 1 + n ≡ k + suc n = omega arith in
    set_slots_step b n k h (omega arith)
    ∙ set_slots-written b n (k + 1) h (omega arith)
    ∙ ap (λ t. done (written b t)) e
