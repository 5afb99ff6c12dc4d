-- ===== src/Run.antt =====
-- The outcome of C code that reads and writes arrays: a result, an access outside an array, or a
-- loop that has used up the rounds it was given.
use os_ii.Prelude.{◌≡◌, ◌≢◌, refl, Option, none, some}

pub data Run {ℓ} (A : Type ℓ) : Type ℓ where
  done : A → Run A
  fault : Run A
  out_of_fuel : Run A

infixl 5 ◌>>=◌
abbrev pub ◌>>=◌ {ℓ κ} : {A : Type ℓ} {B : Type κ} → Run A → (A → Run B) → Run B
done a >>= f = f a
fault >>= f = fault
out_of_fuel >>= f = out_of_fuel

-- A read that is `none` is outside its array.
abbrev pub in_range {ℓ} : {A : Type ℓ} → Option A → Run A
in_range none = fault
in_range (some a) = done a

-- `P` holds of the result, if there is one, and `T` if the rounds ran out. With `⊥` for `T` the code
-- returns or faults.
abbrev pub Gives {ℓ} : {A : Type ℓ} → Type 0 → (A → Type 0) → Run A → Type 0
Gives T P (done a) = P a
Gives T P fault = Unit
Gives T P out_of_fuel = T

pub Gives->>= :
    {A B : Type 0} (T : Type 0) (P : A → Type 0) (Q : B → Type 0) (r : Run A) (f : A → Run B)
    → Gives T P r
    → ((a : A) → P a → Gives T Q (f a))
    → Gives T Q (r >>= f)
Gives->>= T P Q (done a) f h k = k a h
Gives->>= T P Q fault f h k = tt
Gives->>= T P Q out_of_fuel f h k = h

pub Gives-free {ℓ} :
    {A : Type ℓ} (P : A → Type 0) (r : Run A) → ((a : A) → P a) → Gives (Unit {0}) P r
Gives-free P (done a) h = h a
Gives-free P fault h = tt
Gives-free P out_of_fuel h = tt

-- `P` holds of the result, if there is one, and `T` if the rounds ran out. The code does not fault.
abbrev pub Secure {ℓ} : {A : Type ℓ} → Type 0 → (A → Type 0) → Run A → Type 0
Secure T P (done a) = P a
Secure T P fault = ⊥
Secure T P out_of_fuel = T

pub Secure->>= {ℓ κ} :
    {A : Type ℓ} {B : Type κ} (T : Type 0) (P : A → Type 0) (Q : B → Type 0) (r : Run A)
    (f : A → Run B)
    → Secure T P r
    → ((a : A) → P a → Secure T Q (f a))
    → Secure T Q (r >>= f)
Secure->>= T P Q (done a) f h k = k a h
Secure->>= T P Q fault f h k = h
Secure->>= T P Q out_of_fuel f h k = h

-- What does not fault gives what it gives.
pub Secure-Gives {ℓ} :
    {A : Type ℓ} (T U : Type 0) (P Q : A → Type 0) (r : Run A)
    → Secure T P r
    → Gives U Q r
    → Secure U (λ a. P a × Q a) r
Secure-Gives T U P Q (done a) h g = (h, g)
Secure-Gives T U P Q fault h g = h
Secure-Gives T U P Q out_of_fuel h g = g

-- What neither faults nor runs out of rounds returns.
pub Secure-Returns {ℓ} :
    {A : Type ℓ} (P : A → Type 0) (r : Run A) → Secure ⊥ P r → (a : A) × (r ≡ done a) × P a
Secure-Returns P (done a) h = (a, refl, h)
Secure-Returns P fault h = absurd h
Secure-Returns P out_of_fuel h = absurd h

pub Gives-ends {ℓ} : {A : Type ℓ} (r : Run A) → r ≢ out_of_fuel → Gives ⊥ (λ _. Unit {0}) r
Gives-ends (done a) h = tt
Gives-ends fault h = tt
Gives-ends out_of_fuel h = h refl
