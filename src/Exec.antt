-- ===== src/Exec.antt =====
-- What a run of C code comes to: a result, a fault, or no answer within the fuel.
-- A fault is undefined behaviour (an access outside an allocation, a value that a conversion cannot
-- hold) or a failed `assert`.
use libnhr.Base.{◌≡◌, refl, ap}

pub data Exec {ℓ} (A : Type ℓ) : Type ℓ where
  done : A → Exec A
  fault : Exec A
  no_fuel : Exec A

-- `abbrev`, so that `done a >>= f` computes wherever it stands.
infixl 5 ◌>>=◌ ◌>>◌
abbrev pub ◌>>=◌ {ℓ κ} : {A : Type ℓ} {B : Type κ} → Exec A → (A → Exec B) → Exec B
done a >>= f = f a
fault >>= f = fault
no_fuel >>= f = no_fuel

abbrev pub ◌>>◌ {ℓ} : {B : Type ℓ} → Exec (Unit {0}) → Exec B → Exec B
m >> k = m >>= λ _. k

-- Inversion of a bind that gives a result.
pub >>=-eq-done {ℓ κ} :
    {A : Type ℓ} {B : Type κ} (m : Exec A) (f : A → Exec B) {b : B}
    → (m >>= f) ≡ done b
    → (a : A) × (m ≡ done a) × (f a ≡ done b)
>>=-eq-done (done a) f h = (a, refl, h)
>>=-eq-done fault f h = cc
>>=-eq-done no_fuel f h = cc

-- the run ends, with a result or a fault
abbrev pub Halts {ℓ} : {A : Type ℓ} → Exec A → Type 0
Halts (done a) = Unit
Halts fault = Unit
Halts no_fuel = ⊥

pub Halts->>= {ℓ κ} :
    {A : Type ℓ} {B : Type κ} (m : Exec A) (f : A → Exec B)
    → Halts m
    → ((a : A) → m ≡ done a → Halts (f a))
    → Halts (m >>= f)
Halts->>= (done a) f h k = k a refl
Halts->>= fault f h k = tt
Halts->>= no_fuel f h k = elim h [ ]

pub done-injective {ℓ} : {A : Type ℓ} {a b : A} → ◌≡◌ {A = Exec A} (done a) (done b) → a ≡ b
done-injective {a} e = ap (elim [ done x ↦ x | fault ↦ a | no_fuel ↦ a ]) e
