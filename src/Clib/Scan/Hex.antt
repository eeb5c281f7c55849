-- ===== src/Clib/Scan/Hex.antt =====
-- `%X` on digits with a CR behind them, as the chunk sizes of a message have it.
use libnhr.Base.{ℕ, ◌+◌, ◌*◌, ◌^◌, ◌<◌, ◌≡◌, refl, arith, [], ◌∷◌, ◌++◌, none, some, true, false}
use libnhr.Exec.{done}
use libnhr.Clib.Memory.{Bytes}
use libnhr.Clib.Strings.{is_xdigit}
use libnhr.Clib.Scan.{digit, so_far, scan_digits, scan_zero, scan_number, scan_signed, scan_hex}

abbrev pub AllHex : Bytes → Type 0
AllHex [] = Unit
AllHex (c ∷ s) = (is_xdigit c ≡ true) × AllHex s

-- the value of one digit
unfoldable pub nibble : ℕ → ℕ
unfolding digit
nibble c = so_far (digit 16 c)

-- the number that hexadecimal digits spell behind `n`
unfoldable pub hex_value : ℕ → Bytes → ℕ
hex_value n [] = n
hex_value n (c ∷ s) = hex_value (n * 16 + nibble c) s

digit-nibble : (c : ℕ) → is_xdigit c ≡ true → digit 16 c ≡ some (nibble c)
unfolding digit nibble
digit-nibble c h = ground arith

digit-cr : digit 16 13 ≡ none
unfolding digit
digit-cr = refl

scan_digits-some :
    (s : Bytes) (n : ℕ) (rest : Bytes)
    → AllHex s
    → scan_digits 16 (some n) (s ++ (13 ∷ rest)) ≡ done (some (hex_value n s))
unfolding scan_digits hex_value
scan_digits-some [] n rest h = rw (digit-cr, scan_digits)
scan_digits-some (c ∷ s) n rest h =
    rw (digit-nibble c h.0, scan_digits) (scan_digits-some s (n * 16 + nibble c) rest h.1)

scan_digits-none :
    (c : ℕ) (s rest : Bytes)
    → AllHex (c ∷ s)
    → scan_digits 16 none (c ∷ (s ++ (13 ∷ rest))) ≡ done (some (hex_value 0 (c ∷ s)))
unfolding scan_digits hex_value
scan_digits-none c s rest h =
    rw (digit-nibble c h.0, scan_digits) (scan_digits-some s (0 * 16 + nibble c) rest h.1)

nibble_zero : nibble b'0' ≡ 0
unfolding nibble digit
nibble_zero = refl

scan_zero-hex :
    (s rest : Bytes) → AllHex s → scan_zero 16 (s ++ (13 ∷ rest)) ≡ done (some (hex_value 0 s))
unfolding scan_zero
scan_zero-hex [] rest h = scan_digits-some [] 0 rest h
scan_zero-hex (c ∷ s) rest h = ground (arith, scan_digits-some (c ∷ s) 0 rest h)

scan_number-hex :
    (c : ℕ) (s rest : Bytes)
    → AllHex (c ∷ s)
    → scan_number 16 (c ∷ (s ++ (13 ∷ rest))) ≡ done (some (hex_value 0 (c ∷ s)))
unfolding scan_number hex_value
scan_number-hex c s rest h =
    ground (arith, scan_digits-none c s rest h, scan_zero-hex s rest h.1, nibble_zero)

scan_signed-hex :
    (c : ℕ) (s rest : Bytes)
    → AllHex (c ∷ s)
    → scan_signed 16 (c ∷ (s ++ (13 ∷ rest))) ≡ done (false, some (hex_value 0 (c ∷ s)))
unfolding scan_signed
scan_signed-hex c s rest h = ground (arith, scan_number-hex c s rest h)

-- Hexadecimal digits before a CR are read as the number that they spell, if it fits 32 bits.
pub scan_hex-value :
    (c : ℕ) (s rest : Bytes)
    → AllHex (c ∷ s)
    → hex_value 0 (c ∷ s) < 2 ^ 32
    → scan_hex ((c ∷ s) ++ (13 ∷ rest)) ≡ done (some (hex_value 0 (c ∷ s)))
unfolding scan_hex
scan_hex-value c s rest h fits = rw (scan_signed-hex c s rest h) (ground arith)

pub hex_value_zero : hex_value 0 (b'0' ∷ []) ≡ 0
unfolding hex_value nibble
hex_value_zero = refl
