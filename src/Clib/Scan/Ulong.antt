-- ===== src/Clib/Scan/Ulong.antt =====
-- `%lu` read back from what `%lu` prints, with a CR behind.
use libnhr.Base.{
  ℕ, zero, suc, ◌+◌, ◌*◌, ◌/◌, ◌%◌, ◌^◌, ◌<◌, ◌≡◌, ◌≢◌, refl, ap, ◌∙◌, inl, inr, Bool-cases, arith,
  [], ◌∷◌, ◌++◌, none, some, true, false, ltb,
}
use libnhr.Exec.{done}
use libnhr.Clib.Memory.{Bytes}
use libnhr.Clib.Strings.{is_digit}
use libnhr.Clib.Decimal.{decimal, decimal_onto, decimal-ne-nil}
use libnhr.Clib.Scan.{digit, so_far, scan_digits, scan_zero, scan_number, scan_signed, scan_ulong}

abbrev pub AllDigits : Bytes → Type 0
AllDigits [] = Unit
AllDigits (c ∷ s) = (is_digit c ≡ true) × AllDigits s

-- the value of one digit
unfoldable pub figure : ℕ → ℕ
unfolding digit
figure c = so_far (digit 10 c)

-- the number that decimal digits spell behind `n`
unfoldable pub value : ℕ → Bytes → ℕ
value n [] = n
value n (c ∷ s) = value (n * 10 + figure c) s

digit-figure : (c : ℕ) → is_digit c ≡ true → digit 10 c ≡ some (figure c)
unfolding digit figure
digit-figure c h = ground arith

figure_digit : (d : ℕ) → d < 10 → figure (b'0' + d) ≡ d
unfolding figure digit
figure_digit d h = ground arith

figure_zero : figure b'0' ≡ 0
unfolding figure digit
figure_zero = refl

-- The digits end at a byte `t` that is none.
module _ (t : ℕ) (stop : digit 10 t ≡ none) where
  pub scan_digits-some :
      (s : Bytes) (n : ℕ) (rest : Bytes)
      → AllDigits s
      → scan_digits 10 (some n) (s ++ (t ∷ rest)) ≡ done (some (value n s))
  unfolding scan_digits value
  scan_digits-some [] n rest h = rw (stop, scan_digits)
  scan_digits-some (c ∷ s) n rest h =
      rw (digit-figure c h.0, scan_digits) (scan_digits-some s (n * 10 + figure c) rest h.1)

  pub scan_digits-none :
      (c : ℕ) (s rest : Bytes)
      → AllDigits (c ∷ s)
      → scan_digits 10 none (c ∷ (s ++ (t ∷ rest))) ≡ done (some (value 0 (c ∷ s)))
  unfolding scan_digits value
  scan_digits-none c s rest h =
      rw (digit-figure c h.0, scan_digits) (scan_digits-some s (0 * 10 + figure c) rest h.1)

  scan_zero-digits :
      (s rest : Bytes) → AllDigits s → scan_zero 10 (s ++ (t ∷ rest)) ≡ done (some (value 0 s))
  unfolding scan_zero
  scan_zero-digits [] rest h = ground (arith, scan_digits-some [] 0 rest h)
  scan_zero-digits (c ∷ s) rest h = ground (arith, scan_digits-some (c ∷ s) 0 rest h)

  scan_number-digits :
      (c : ℕ) (s rest : Bytes)
      → AllDigits (c ∷ s)
      → scan_number 10 (c ∷ (s ++ (t ∷ rest))) ≡ done (some (value 0 (c ∷ s)))
  unfolding scan_number value
  scan_number-digits c s rest h =
      ground (arith, scan_digits-none c s rest h, scan_zero-digits s rest h.1, figure_zero)

  scan_signed-digits :
      (c : ℕ) (s rest : Bytes)
      → AllDigits (c ∷ s)
      → scan_signed 10 (c ∷ (s ++ (t ∷ rest))) ≡ done (false, some (value 0 (c ∷ s)))
  unfolding scan_signed
  scan_signed-digits c s rest h = ground (arith, scan_number-digits c s rest h)

  scan_ulong-digits :
      (c : ℕ) (s rest : Bytes)
      → AllDigits (c ∷ s)
      → value 0 (c ∷ s) < 2 ^ 64
      → scan_ulong ((c ∷ s) ++ (t ∷ rest)) ≡ done (some (value 0 (c ∷ s)))
  unfolding scan_ulong
  scan_ulong-digits c s rest h fits = rw (scan_signed-digits c s rest h) (ground arith)

-- the powers of ten
abbrev pub tens : ℕ → ℕ
tens zero = 1
tens (suc width) = 10 * tens width

pub value-decimal_onto :
    (width n : ℕ) (behind : Bytes)
    → n < tens (suc width)
    → value 0 (decimal_onto (suc width) n behind) ≡ value n behind
unfolding decimal_onto value
value-decimal_onto zero n behind h =
    let e : ltb n 10 ≡ true = ground arith in
    rw e (rw (value, figure_digit n (omega arith)) (ap (λ k. value k behind) (omega arith)))
value-decimal_onto (suc width) n behind h = elim (Bool-cases (ltb n 10)) [
  | inl e ↦
      rw e (rw (value, figure_digit n (ground (arith, e))) (ap (λ k. value k behind) (omega arith)))
  | inr e ↦ rw e (
      value-decimal_onto width (n / 10) ((b'0' + n % 10) ∷ behind) (omega arith)
      ∙ rw (value, figure_digit (n % 10) (omega arith)) (ap (λ k. value k behind) (omega arith)))
]

decimal_onto-AllDigits :
    (width n : ℕ) (behind : Bytes) → AllDigits behind → AllDigits (decimal_onto width n behind)
unfolding decimal_onto
decimal_onto-AllDigits zero n behind h = h
decimal_onto-AllDigits (suc width) n behind h = elim (Bool-cases (ltb n 10)) [
  | inl e ↦ rw e (ground (arith, e), h)
  | inr e ↦
      rw e (decimal_onto-AllDigits width (n / 10) ((b'0' + n % 10) ∷ behind) (ground arith, h))
]

digit-cr : digit 10 13 ≡ none
unfolding digit
digit-cr = refl

-- A number that fits 64 bits is read back from its digits.
pub scan_ulong-decimal :
    (n : ℕ) (rest : Bytes) → n < 2 ^ 64 → scan_ulong (decimal n ++ (13 ∷ rest)) ≡ done (some n)
unfolding decimal value
scan_ulong-decimal n rest fits =
    go (decimal_onto 20 n []) (decimal_onto-AllDigits 20 n [] tt)
      (value-decimal_onto 19 n [] (omega arith)) (decimal-ne-nil n)
  where
    go :
        (s : Bytes)
        → AllDigits s
        → value 0 s ≡ value n []
        → s ≢ []
        → scan_ulong (s ++ (13 ∷ rest)) ≡ done (some n)
    go [] h e ne = absurd (ne refl)
    go (c ∷ s) h e ne =
        scan_ulong-digits 13 digit-cr c s rest h (omega (arith, e)) ∙ ap (λ k. done (some k)) e

pub decimal-AllDigits : (n : ℕ) → AllDigits (decimal n)
unfolding decimal
decimal-AllDigits n = decimal_onto-AllDigits 20 n [] tt

pub value_decimal : (n : ℕ) → n < 2 ^ 64 → value 0 (decimal n) ≡ n
unfolding decimal value
value_decimal n fits = value-decimal_onto 19 n [] (omega arith)
