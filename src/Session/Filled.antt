-- ===== src/Session/Filled.antt =====
-- The loop of perform in example/omp_sync_task.cpp: what the array holds after it.
use io_uring_example.Base.{
  ℕ, zero, suc, ◌+◌, ◌*◌, ◌/◌, ◌%◌, ◌≤◌, ◌<◌, ◌≡◌, ◌≢◌, refl, sym, ap, ◌∙◌, ◌⊎◌, inl, inr, some,
  List, [], ◌∷◌, ◌++◌, length, set, get_elem?, replicate, drop, ltb, lt→ltb, ltb→lt, ltb_false→le,
  Bool-cases, ◌==◌, All, All-map, done, arith, length-set, get_elem?-set_in, get_elem?-set_other,
}
use io_uring_example.Writes.Array.Stores.{IsIn, IsOrder}
use io_uring_example.Session.{
  num_teams, threads_per_team, team_iterations, iterations, set_one, set_ones,
}

-- lists with the same elements at all places
get_elem?-same : (xs ys : List ℕ) → ((i : ℕ) → get_elem? xs i ≡ get_elem? ys i) → xs ≡ ys
get_elem?-same [] [] h = refl
get_elem?-same [] (y ∷ ys) h = let e = h 0 in ground (arith, e)
get_elem?-same (x ∷ xs) [] h = let e = h 0 in ground (arith, e)
get_elem?-same (x ∷ xs) (y ∷ ys) h =
    let first : x ≡ y = ground (arith, h 0) in rw (first, get_elem?-same xs ys (λ i. h (suc i)))

abbrev pub IsAmong : ℕ × ℕ → List (ℕ × ℕ) → Type 0
IsAmong x [] = ⊥
IsAmong x (y ∷ ys) = (x ≡ y) ⊎ IsAmong x ys

-- A schedule runs the iterations that it is given, and no others.
pub record IsSchedule (schedule : List (ℕ × ℕ) → List (ℕ × ℕ)) : Type 0 where
  pub runs : (its : List (ℕ × ℕ)) (x : ℕ × ℕ) → IsAmong x its → IsAmong x (schedule its)
  pub no_other : (its : List (ℕ × ℕ)) (x : ℕ × ℕ) → IsAmong x (schedule its) → IsAmong x its

pub IsAmong-append :
    (x : ℕ × ℕ) (xs ys : List (ℕ × ℕ)) → IsAmong x xs ⊎ IsAmong x ys → IsAmong x (xs ++ ys)
IsAmong-append x [] ys (inl h) = absurd h
IsAmong-append x [] ys (inr h) = h
IsAmong-append x (z ∷ xs) ys (inl (inl e)) = inl e
IsAmong-append x (z ∷ xs) ys (inl (inr h)) = inr (IsAmong-append x xs ys (inl h))
IsAmong-append x (z ∷ xs) ys (inr h) = inr (IsAmong-append x xs ys (inr h))

pub IsAmong-split :
    (x : ℕ × ℕ) (xs ys : List (ℕ × ℕ)) → IsAmong x (xs ++ ys) → IsAmong x xs ⊎ IsAmong x ys
IsAmong-split x [] ys h = inr h
IsAmong-split x (z ∷ xs) ys (inl e) = inl (inl e)
IsAmong-split x (z ∷ xs) ys (inr h) = elim (IsAmong-split x xs ys h) [
  | inl l ↦ inl (inr l)
  | inr r ↦ inr r
]

team_iterations-IsAmong :
    (team n thread : ℕ) → thread < n → IsAmong (team, thread) (team_iterations team n)
team_iterations-IsAmong team zero thread h = absurd (omega arith)
team_iterations-IsAmong team (suc n) thread h =
    IsAmong-append (team, thread) (team_iterations team n) ((team, n) ∷ [])
      (elim (Bool-cases (ltb thread n)) [
        | inl lt ↦ inl (team_iterations-IsAmong team n thread (ltb→lt thread n lt))
        | inr ge ↦
            let e : thread ≡ n = omega (arith, ltb_false→le thread n ge) in
            inr (inl (ap (λ t. (team, t)) e))
      ])

iterations-IsAmong :
    (teams threads team thread : ℕ)
    → team < teams
    → thread < threads
    → IsAmong (team, thread) (iterations teams threads)
iterations-IsAmong zero threads team thread h k = absurd (omega arith)
iterations-IsAmong (suc teams) threads team thread h k =
    IsAmong-append (team, thread) (iterations teams threads) (team_iterations teams threads)
      (elim (Bool-cases (ltb team teams)) [
        | inl lt ↦ inl (iterations-IsAmong teams threads team thread (ltb→lt team teams lt) k)
        | inr ge ↦
            let e : teams ≡ team = omega (arith, ltb_false→le team teams ge) in
            inr (rw e (team_iterations-IsAmong team threads thread k))
      ])

team_iterations-bounds :
    (team n : ℕ) (x : ℕ × ℕ) → IsAmong x (team_iterations team n) → (x.0 ≡ team) × (x.1 < n)
team_iterations-bounds team zero x h = absurd h
team_iterations-bounds team (suc n) x h =
    elim (IsAmong-split x (team_iterations team n) ((team, n) ∷ []) h) [
      | inl before ↦ let (e, lt) = team_iterations-bounds team n x before in (e, omega arith)
      | inr (inl e) ↦
          let last : x.1 ≡ n = ap (λ (p : ℕ × ℕ). p.1) e in (ap (λ (p : ℕ × ℕ). p.0) e, omega arith)
      | inr (inr gone) ↦ absurd gone
    ]

iterations-bounds :
    (teams threads : ℕ) (x : ℕ × ℕ)
    → IsAmong x (iterations teams threads)
    → (x.0 < teams) × (x.1 < threads)
iterations-bounds zero threads x h = absurd h
iterations-bounds (suc teams) threads x h =
    elim (IsAmong-split x (iterations teams threads) (team_iterations teams threads) h) [
      | inl before ↦ let (lt, few) = iterations-bounds teams threads x before in (omega arith, few)
      | inr last ↦ let (e, few) = team_iterations-bounds teams threads x last in (omega arith, few)
    ]

-- the element that an iteration sets
abbrev index_of : ℕ × ℕ → ℕ
index_of (team, thread) = team * threads_per_team + thread

abbrev indices : List (ℕ × ℕ) → List ℕ
indices [] = []
indices (x ∷ xs) = index_of x ∷ indices xs

indices-IsIn :
    (x : ℕ × ℕ) (i : ℕ) (xs : List (ℕ × ℕ)) → index_of x ≡ i → IsAmong x xs → IsIn i (indices xs)
indices-IsIn x i [] e h = h
indices-IsIn x i (y ∷ xs) e (inl same) = inl (sym e ∙ ap index_of same)
indices-IsIn x i (y ∷ xs) e (inr later) = inr (indices-IsIn x i xs e later)

indices-All :
    (P : ℕ → Type 0) (xs : List (ℕ × ℕ))
    → ((x : ℕ × ℕ) → IsAmong x xs → P (index_of x))
    → All P (indices xs)
indices-All P [] h = tt
indices-All P (x ∷ xs) h = (h x (inl refl), indices-All P xs (λ y m. h y (inr m)))

-- the iterations of main's teams, by the elements that they set
schedule-IsOrder :
    (schedule : List (ℕ × ℕ) → List (ℕ × ℕ))
    → IsSchedule schedule
    → IsOrder 16 (indices (schedule (iterations num_teams threads_per_team)))
schedule-IsOrder schedule s =
    let its = iterations num_teams threads_per_team in
    record {
      inside =
          indices-All (λ i. i < 16) (schedule its)
            (λ x h.
              let (t, k) = iterations-bounds num_teams threads_per_team x (s.no_other its x h) in
              omega arith);
      every = λ i lt.
          indices-IsIn (i / 4, i % 4) i (schedule its) (omega arith)
            (s.runs its (i / 4, i % 4)
              (iterations-IsAmong num_teams threads_per_team (i / 4) (i % 4) (omega arith)
                (omega arith)));
    }

set_one_lem :
    (size : ℕ) (x : ℕ × ℕ) (array : List ℕ)
    → length array ≡ size
    → index_of x < size
    → set_one threads_per_team size x array ≡ done (set array (index_of x) 1)
unfolding set_one
set_one_lem size (team, thread) array long lt =
    let inside = lt→ltb (team * 4 + thread) size lt in rw (inside, long, inside)

-- a place after one more iteration
place :
    (k i : ℕ) (order array target : List ℕ)
    → k < length array
    → get_elem? target k ≡ some 1
    → (get_elem? array i ≡ get_elem? target i) ⊎ IsIn i (k ∷ order)
    → (get_elem? (set array k 1) i ≡ get_elem? target i) ⊎ IsIn i order
place k i order array target lt e (inr (inr later)) = inr later
place k i order array target lt e (inr (inl now)) =
    inl (rw now (get_elem?-set_in array k 1 lt ∙ sym e))
place k i order array target lt e (inl same) = elim (Bool-cases (k == i)) [
  | inl here ↦
      let q : i ≡ k = ground (arith, here) in inl (rw q (get_elem?-set_in array k 1 lt ∙ sym e))
  | inr other ↦
      let d : k ≢ i = ground (arith, other) in inl (get_elem?-set_other array k i 1 d ∙ same)
]

-- Where each place agrees with the target already or has its iteration to come.
set_ones_lem :
    (size : ℕ) (order : List (ℕ × ℕ)) (array target : List ℕ)
    → length array ≡ size
    → All (λ k. k < size) (indices order)
    → All (λ k. get_elem? target k ≡ some 1) (indices order)
    → ((i : ℕ) → (get_elem? array i ≡ get_elem? target i) ⊎ IsIn i (indices order))
    → set_ones threads_per_team size order array ≡ done target
unfolding set_ones
set_ones_lem size [] array target long inside ones h =
    ap done (get_elem?-same array target (λ i. elim (h i) [ inl e ↦ e | inr n ↦ absurd n ]))
set_ones_lem size (x ∷ order) array target long (lt, inside) (one, ones) h =
    let k = index_of x in
    rw (set_one_lem size x array long lt) (
      set_ones_lem size order (set array k 1) target (length-set array k 1 ∙ long) inside ones
        (λ i. place k i (indices order) array target (omega (arith, long)) one (h i)))

first_ones : (n k : ℕ) (ys : List ℕ) → k < n → get_elem? (replicate n 1 ++ ys) k ≡ some 1
first_ones zero k ys h = absurd (omega arith)
first_ones (suc n) zero ys h = refl
first_ones (suc n) (suc k) ys h = first_ones n k ys (omega arith)

same_tail :
    (n i : ℕ) (xs : List ℕ)
    → n ≤ length xs
    → n ≤ i
    → get_elem? xs i ≡ get_elem? (replicate n 1 ++ drop n xs) i
same_tail zero i xs long h = refl
same_tail (suc n) i [] long h = absurd (omega arith)
same_tail (suc n) zero (x ∷ xs) long h = absurd (omega arith)
same_tail (suc n) (suc i) (x ∷ xs) long h = same_tail n i xs (omega arith) (omega arith)

-- In whatever order the iterations of the four teams of four threads run, the first 16 places hold 1 and the
-- others are as before.
pub set_ones-IsSchedule :
    (size : ℕ) (schedule : List (ℕ × ℕ) → List (ℕ × ℕ)) (array : List ℕ)
    → length array ≡ size
    → 16 ≤ size
    → IsSchedule schedule
    → set_ones threads_per_team size (schedule (iterations num_teams threads_per_team)) array
      ≡ done (replicate 16 1 ++ drop 16 array)
set_ones-IsSchedule size schedule array long enough s =
    let order = schedule (iterations num_teams threads_per_team) in
    let o = schedule-IsOrder schedule s in
    set_ones_lem size order array (replicate 16 1 ++ drop 16 array) long
      (All-map (λ k. k < 16) (λ k. k < size) (λ k lt. omega arith) (indices order) o.inside)
      (All-map (λ k. k < 16) (λ k. get_elem? (replicate 16 1 ++ drop 16 array) k ≡ some 1)
        (λ k lt. first_ones 16 k (drop 16 array) lt) (indices order) o.inside)
      (λ i. elim (Bool-cases (ltb i 16)) [
        | inl few ↦ inr (o.every i (ltb→lt i 16 few))
        | inr many ↦ inl (same_tail 16 i array (omega (arith, long)) (ltb_false→le i 16 many))
      ])
