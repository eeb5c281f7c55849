-- ===== src/Clib/Scan.antt =====
-- `sscanf` with one of `%X`, `%lu`, ` %i`, read as far as the conversion needs. A number that the
-- target cannot hold is undefined behaviour, so a fault.
pub mod Hex
pub mod Ulong
pub mod Int
use libnhr.Base.{
  ℕ, ◌+◌, ◌-◌, ◌*◌, ◌%◌, ◌^◌, [], ◌∷◌, Option, none, some, Bool, true, false, not, ◌&&◌, ◌||◌,
  if◌then◌else◌, leb, ltb, ◌==◌,
}
use libnhr.Exec.{Exec, done, fault, ◌>>=◌}
use libnhr.Clib.Memory.{Bytes}
use libnhr.Clib.Strings.{is_space, is_digit}

-- the value of a digit in any base up to 16
unfoldable pub digit_value : ℕ → Option ℕ
digit_value c =
    if is_digit c
    then some (c - b'0')
    else if leb b'a' c && leb c b'f'
    then some (c - b'a' + 10)
    else if leb b'A' c && leb c b'F'
    then some (c - b'A' + 10)
    else none

unfoldable pub digit : ℕ → ℕ → Option ℕ
unfolding digit_value
digit base c = elim (digit_value c) [ none ↦ none | some d ↦ if ltb d base then some d else none ]

abbrev pub so_far : Option ℕ → ℕ
so_far none = 0
so_far (some n) = n

-- Digits up to the first other byte; `none` if there was none.
unfoldable pub scan_digits : ℕ → Option ℕ → Bytes → Exec (Option ℕ)
scan_digits base acc [] = fault
scan_digits base acc (c ∷ m) = elim (digit base c) [
  | none ↦ done acc
  | some d ↦ scan_digits base (some (so_far acc * base + d)) m
]

-- behind a leading zero; base 0 is that of `%i`
unfoldable pub scan_zero : ℕ → Bytes → Exec (Option ℕ)
scan_zero base [] = fault
scan_zero base (c ∷ m) =
    if (c == b'x' || c == b'X') && not (base == 10)
    then scan_digits 16 none m
    else scan_digits (if base == 0 then 8 else base) (some 0) (c ∷ m)

unfoldable pub scan_number : ℕ → Bytes → Exec (Option ℕ)
scan_number base [] = fault
scan_number base (c ∷ m) =
    if c == b'0'
    then scan_zero base m
    else scan_digits (if base == 0 then 10 else base) none (c ∷ m)

-- white space, then a sign: is it a minus, and the number behind it
unfoldable pub scan_signed : ℕ → Bytes → Exec (Bool × Option ℕ)
scan_signed base [] = fault
scan_signed base (c ∷ m) =
    if is_space c
    then scan_signed base m
    else if c == b'-'
    then (do n ← scan_number base m; done (true, n))
    else if c == b'+'
    then (do n ← scan_number base m; done (false, n))
    else (do n ← scan_number base (c ∷ m); done (false, n))

-- an unsigned target of modulus `size`
unfoldable pub to_unsigned : ℕ → Bool × Option ℕ → Exec (Option ℕ)
to_unsigned size (minus, none) = done none
to_unsigned size (minus, some n) =
    if leb size n then fault else done (some (if minus then (size - n) % size else n))

-- `sscanf(m, "%X", &x) == 1` (and `%x`, which reads the same): `x`, an `unsigned int`
unfoldable pub scan_hex : Bytes → Exec (Option ℕ)
unfolding to_unsigned
scan_hex m = do n ← scan_signed 16 m; to_unsigned (2 ^ 32) n

-- `sscanf(m, "%lu", &x) == 1`: `x`, an `unsigned long`
unfoldable pub scan_ulong : Bytes → Exec (Option ℕ)
unfolding to_unsigned
scan_ulong m = do n ← scan_signed 10 m; to_unsigned (2 ^ 64) n

-- `sscanf(m, " %i", &x) == 1`: `x`, an `int`, as sign and size
unfoldable pub scan_int : Bytes → Exec (Option (Bool × ℕ))
scan_int m = do
  n ← scan_signed 0 m
  elim n.1 [
    | none ↦ done none
    | some v ↦ if ltb (if n.0 then 2 ^ 31 else 2 ^ 31 - 1) v then fault else done (some (n.0, v))
  ]
