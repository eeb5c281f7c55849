-- ===== src/Clib/Halts.antt =====
-- The C library's functions end on any memory.
use libnhr.Base.{
  ℕ, zero, suc, ◌+◌, ◌*◌, ◌≡◌, arith, Option, none, some, Bool, true, false, [], ◌∷◌, length,
  if◌then◌else◌, ◌==◌, Option-cases, inl, inr,
}
use libnhr.Exec.{Exec, done, fault, Halts, Halts->>=}
use libnhr.Clib.Memory.{Bytes, read, skip, write}
use libnhr.Clib.Strings.{begins, is_space}
use libnhr.Clib.Scan.{
  digit, so_far, scan_digits, scan_zero, scan_number, scan_signed, to_unsigned, scan_hex,
}

pub Halts-if {ℓ} :
    {A : Type ℓ} (b : Bool) (x y : Exec A) → Halts x → Halts y → Halts (if b then x else y)
Halts-if true x y hx hy = hx
Halts-if false x y hx hy = hy

pub Halts-read : (n : ℕ) (m : Bytes) → Halts (read n m)
unfolding read
Halts-read zero m = tt
Halts-read (suc n) [] = tt
Halts-read (suc n) (c ∷ m) = Halts->>= (read n m) _ (Halts-read n m) (λ s e. tt)

pub Halts-skip : (n : ℕ) (m : Bytes) → Halts (skip n m)
unfolding skip
Halts-skip zero m = tt
Halts-skip (suc n) [] = tt
Halts-skip (suc n) (c ∷ m) = Halts-skip n m

-- A pointer that was moved on has that much less before it.
pub length-skip : (n : ℕ) (m m' : Bytes) → skip n m ≡ done m' → length m ≡ n + length m'
unfolding skip
length-skip zero m m' e = ground arith
length-skip (suc n) [] m' e = cc
length-skip (suc n) (c ∷ m) m' e = omega (arith, length-skip n m m' e)

pub Halts-write : (m : Bytes) (i : ℕ) (s : Bytes) → Halts (write m i s)
unfolding write
Halts-write m i s = Halts-if _ fault (done _) tt tt

pub Halts-begins : (s m : Bytes) → Halts (begins s m)
unfolding begins
Halts-begins [] m = tt
Halts-begins (n ∷ s) [] = tt
Halts-begins (n ∷ s) (c ∷ m) = Halts-if (n == c) (begins s m) (done false) (Halts-begins s m) tt

Halts-scan_digits : (base : ℕ) (acc : Option ℕ) (m : Bytes) → Halts (scan_digits base acc m)
unfolding scan_digits
Halts-scan_digits base acc [] = tt
Halts-scan_digits base acc (c ∷ m) = elim (Option-cases (digit base c)) [
  | inl e ↦ rw (e, scan_digits) tt
  | inr (d, e) ↦ rw (e, scan_digits) (Halts-scan_digits base (some (so_far acc * base + d)) m)
]

Halts-scan_zero : (base : ℕ) (m : Bytes) → Halts (scan_zero base m)
unfolding scan_zero
Halts-scan_zero base [] = tt
Halts-scan_zero base (c ∷ m) =
    Halts-if _ (scan_digits 16 none m) (scan_digits _ (some 0) (c ∷ m))
      (Halts-scan_digits 16 none m) (Halts-scan_digits _ (some 0) (c ∷ m))

Halts-scan_number : (base : ℕ) (m : Bytes) → Halts (scan_number base m)
unfolding scan_number
Halts-scan_number base [] = tt
Halts-scan_number base (c ∷ m) =
    Halts-if _ (scan_zero base m) (scan_digits _ none (c ∷ m)) (Halts-scan_zero base m)
      (Halts-scan_digits _ none (c ∷ m))

Halts-scan_signed : (base : ℕ) (m : Bytes) → Halts (scan_signed base m)
unfolding scan_signed
Halts-scan_signed base [] = tt
Halts-scan_signed base (c ∷ m) = Halts-if (is_space c) _ _ (Halts-scan_signed base m) (
    Halts-if (c == b'-') _ _
      (Halts->>= (scan_number base m) _ (Halts-scan_number base m) (λ n e. tt))
      (Halts-if (c == b'+') _ _
        (Halts->>= (scan_number base m) _ (Halts-scan_number base m) (λ n e. tt))
        (Halts->>= (scan_number base (c ∷ m)) _ (Halts-scan_number base (c ∷ m)) (λ n e. tt))))

Halts-to_unsigned : (size : ℕ) (n : Bool × Option ℕ) → Halts (to_unsigned size n)
unfolding to_unsigned
Halts-to_unsigned size (minus, none) = tt
Halts-to_unsigned size (minus, some n) = Halts-if _ fault (done _) tt tt

pub Halts-scan_hex : (m : Bytes) → Halts (scan_hex m)
unfolding scan_hex
Halts-scan_hex m =
    Halts->>= (scan_signed 16 m) _ (Halts-scan_signed 16 m) (λ n e. Halts-to_unsigned _ n)
