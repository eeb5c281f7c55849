-- ===== src/Clib/Scan/Int.antt =====
-- ` %i` on a positive number that `%i` printed, with a space in front and behind.
use libnhr.Base.{
  ℕ, zero, suc, ◌+◌, ◌/◌, ◌%◌, ◌^◌, ◌<◌, ◌≡◌, ◌≢◌, refl, ap, ◌∙◌, inl, inr, Bool-cases, arith, [],
  ◌∷◌, ◌++◌, none, some, true, false, ltb,
}
use libnhr.Exec.{done}
use libnhr.Clib.Memory.{Bytes}
use libnhr.Clib.Decimal.{decimal, decimal_onto, decimal-ne-nil}
use libnhr.Clib.Scan.{digit, scan_number, scan_signed, scan_int}
use libnhr.Clib.Scan.Ulong.{
  AllDigits, decimal-AllDigits, value, value_decimal, tens, scan_digits-none,
}

-- the first byte is not '0'
abbrev NoZero : Bytes → Type 0
NoZero [] = Unit
NoZero (c ∷ s) = c ≢ b'0'

decimal_onto-NoZero :
    (width n : ℕ) (behind : Bytes)
    → 0 < n
    → n < tens (suc width)
    → NoZero (decimal_onto (suc width) n behind)
unfolding decimal_onto
decimal_onto-NoZero zero n behind pos h =
    let e : ltb n 10 ≡ true = ground arith in rw e (omega arith)
decimal_onto-NoZero (suc width) n behind pos h = elim (Bool-cases (ltb n 10)) [
  | inl e ↦ rw e (omega arith)
  | inr e ↦
      rw e
        (decimal_onto-NoZero width (n / 10) ((b'0' + n % 10) ∷ behind) (ground arith) (omega arith))
]

digit-space : digit 10 32 ≡ none
unfolding digit
digit-space = refl

scan_int-digits :
    (c : ℕ) (s rest : Bytes)
    → AllDigits (c ∷ s)
    → c ≢ b'0'
    → value 0 (c ∷ s) < 2 ^ 31
    → scan_int (32 ∷ ((c ∷ s) ++ (32 ∷ rest))) ≡ done (some (false, value 0 (c ∷ s)))
unfolding scan_int scan_signed scan_number
scan_int-digits c s rest h ne fits =
    let run = scan_digits-none 32 digit-space c s rest h in ground (arith, run)

-- A positive number that fits `int` is read back from its digits.
pub scan_int-decimal :
    (n : ℕ) (rest : Bytes)
    → 0 < n
    → n < 2 ^ 31
    → scan_int (32 ∷ (decimal n ++ (32 ∷ rest))) ≡ done (some (false, n))
unfolding decimal
scan_int-decimal n rest pos fits =
    go (decimal_onto 20 n []) (decimal-AllDigits n) (decimal_onto-NoZero 19 n [] pos (omega arith))
      (value_decimal n (omega arith)) (decimal-ne-nil n)
  where
    go :
        (s : Bytes)
        → AllDigits s
        → NoZero s
        → value 0 s ≡ n
        → s ≢ []
        → scan_int (32 ∷ (s ++ (32 ∷ rest))) ≡ done (some (false, n))
    go [] h z e ne = absurd (ne refl)
    go (c ∷ s) h z e ne =
        scan_int-digits c s rest h z (omega (arith, e)) ∙ ap (λ k. done (some (false, k))) e
