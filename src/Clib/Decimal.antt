-- ===== src/Clib/Decimal.antt =====
-- `%lu` and `%i` of a number that is not negative.
use libnhr.Base.{
  ℕ, zero, suc, ◌+◌, ◌/◌, ◌%◌, ◌≤◌, ◌≢◌, ap, inl, inr, Bool-cases, arith, [], ◌∷◌, length,
  if◌then◌else◌, ltb,
}
use libnhr.Clib.Memory.{Bytes}
use libnhr.Clib.Strings.{NoNul}

-- the digits, last first into the front of `behind`, at most `width` of them
unfoldable pub decimal_onto : ℕ → ℕ → Bytes → Bytes
decimal_onto zero n behind = behind
decimal_onto (suc width) n behind =
    let more = decimal_onto width (n / 10) ((b'0' + n % 10) ∷ behind) in
    if ltb n 10 then (b'0' + n) ∷ behind else more

-- a 64-bit number has 20 digits at most
unfoldable pub decimal : ℕ → Bytes
unfolding decimal_onto
decimal n = decimal_onto 20 n []

length-decimal_onto :
    (width n : ℕ) (behind : Bytes) → length (decimal_onto width n behind) ≤ width + length behind
unfolding decimal_onto
length-decimal_onto zero n behind = omega arith
length-decimal_onto (suc width) n behind =
    ground (arith, length-decimal_onto width (n / 10) ((b'0' + n % 10) ∷ behind))

pub length-decimal : (n : ℕ) → length (decimal n) ≤ 20
unfolding decimal
length-decimal n = omega (arith, length-decimal_onto 20 n [])

decimal_onto-NoNul :
    (width n : ℕ) (behind : Bytes) → NoNul behind → NoNul (decimal_onto width n behind)
unfolding decimal_onto
decimal_onto-NoNul zero n behind h = h
decimal_onto-NoNul (suc width) n behind h = elim (Bool-cases (ltb n 10)) [
  | inl e ↦ rw e (omega arith, h)
  | inr e ↦ rw e (decimal_onto-NoNul width (n / 10) ((b'0' + n % 10) ∷ behind) (omega arith, h))
]

pub decimal-NoNul : (n : ℕ) → NoNul (decimal n)
unfolding decimal
decimal-NoNul n = decimal_onto-NoNul 20 n [] tt

le-length-decimal_onto :
    (width n : ℕ) (behind : Bytes) → length behind ≤ length (decimal_onto width n behind)
unfolding decimal_onto
le-length-decimal_onto zero n behind = omega arith
le-length-decimal_onto (suc width) n behind =
    ground (arith, le-length-decimal_onto width (n / 10) ((b'0' + n % 10) ∷ behind))

pub decimal-ne-nil : (n : ℕ) → decimal n ≢ []
unfolding decimal decimal_onto
decimal-ne-nil n e =
    ground (arith, ap length e, le-length-decimal_onto 19 (n / 10) ((b'0' + n % 10) ∷ []))
