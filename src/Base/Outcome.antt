-- ===== src/Base/Outcome.antt =====
-- The outcome of a run of C code: a value, undefined behaviour, or a loop that used up its fuel.
use mathlib.Core.Bool.{Bool, true, false}
use mathlib.Core.Path.{◌≡◌, refl}
use native.Mathlib.Omega.{arith}
use mathlib.Core.Option.{Option, none, some}

pub data Run {ℓ} (A : Type ℓ) : Type ℓ where
  done : A → Run A
  fault : Run A
  hang : Run A

infixl 5 ◌>>=◌ ◌>>◌
abbrev pub ◌>>=◌ {ℓ κ} : {A : Type ℓ} {B : Type κ} → Run A → (A → Run B) → Run B
done a >>= f = f a
fault >>= f = fault
hang >>= f = hang

abbrev pub ◌>>◌ {ℓ} : {B : Type ℓ} → Run (Unit {0}) → Run B → Run B
m >> k = m >>= λ _. k

-- A dereference: `none` is a pointer that is NULL, dangling or never set.
abbrev pub deref {ℓ} : {A : Type ℓ} → Option A → Run A
deref none = fault
deref (some a) = done a

-- Undefined behaviour unless the test passes.
abbrev pub assert : Bool → Run (Unit {0})
assert true = done tt
assert false = fault

pub done_inj {ℓ} : {A : Type ℓ} {a b : A} → done a ≡ done b → a ≡ b
done_inj e = ground (arith, e)

-- A sequence returns only if its first part does.
pub bind_done {ℓ κ} :
    {A : Type ℓ} {B : Type κ} (m : Run A) (f : A → Run B) (b : B)
    → m >>= f ≡ done b
    → (a : A) × (m ≡ done a) × (f a ≡ done b)
bind_done (done a) f b e = (a, refl, e)
bind_done fault f b e = ground (arith, e)
bind_done hang f b e = ground (arith, e)

-- the value that a run returns, changed
abbrev pub map_run {ℓ κ} : {A : Type ℓ} {B : Type κ} → (A → B) → Run A → Run B
map_run f m = m >>= λ a. done (f a)

pub map_run-done {ℓ κ} :
    {A : Type ℓ} {B : Type κ} (f : A → B) (m : Run A) (b : B)
    → map_run f m ≡ done b
    → (a : A) × (m ≡ done a) × (f a ≡ b)
map_run-done f (done a) b e = (a, refl, done_inj e)
map_run-done f fault b e = ground (arith, e)
map_run-done f hang b e = ground (arith, e)

pub bind_assoc {ℓ κ μ} :
    {A : Type ℓ} {B : Type κ} {C : Type μ} (m : Run A) (f : A → Run B) (g : B → Run C)
    → m >>= f >>= g ≡ (m >>= λ a. f a >>= g)
bind_assoc (done a) f g = refl
bind_assoc fault f g = refl
bind_assoc hang f g = refl

pub bind_ext {ℓ κ} :
    {A : Type ℓ} {B : Type κ} (m : Run A) (f g : A → Run B)
    → ((a : A) → f a ≡ g a)
    → m >>= f ≡ m >>= g
bind_ext (done a) f g e = e a
bind_ext fault f g e = refl
bind_ext hang f g e = refl

pub map_run-bind {ℓ κ μ} :
    {A : Type ℓ} {B : Type κ} {C : Type μ} (f : B → C) (g : A → B) (m : Run A)
    → map_run f (m >>= λ a. done (g a)) ≡ (m >>= λ a. done (f (g a)))
map_run-bind f g (done a) = refl
map_run-bind f g fault = refl
map_run-bind f g hang = refl
