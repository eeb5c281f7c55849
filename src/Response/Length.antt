-- ===== src/Response/Length.antt =====
-- The announced length of a body, as `%lu` prints it.
use libnhr.Base.{ℕ, ◌^◌, ◌<◌, ◌≡◌, ◌≢◌, refl, some, [], ◌∷◌, ◌++◌, lt→ltb}
use libnhr.Exec.{done}
use libnhr.Clib.Memory.{Bytes, skip-append}
use libnhr.Clib.Strings.{codes, strstr}
use libnhr.Clib.Decimal.{decimal, decimal-ne-nil}
use libnhr.Clib.Scan.Ulong.{AllDigits, decimal-AllDigits, scan_ulong-decimal}
use libnhr.Response.{Response}
use libnhr.Response.Header.{
  content_length_name, to_alnum, find_http_field_value, parse_content_length,
}

to_alnum-digits : (s rest : Bytes) → AllDigits s → s ≢ [] → to_alnum (s ++ rest) ≡ done (s ++ rest)
unfolding to_alnum
to_alnum-digits [] rest h ne = absurd (ne refl)
to_alnum-digits (c ∷ s) rest h ne = rw h.0 refl

find_http_field_value-decimal :
    (received rest : Bytes) (n : ℕ)
    → let value = decimal n ++ (13 ∷ rest) in
      strstr received content_length_name
        ≡ done (some (content_length_name ++ (codes ": " ++ value)))
      → find_http_field_value received content_length_name ≡ done (some value)
unfolding find_http_field_value to_alnum
find_http_field_value-decimal received rest n found =
    let value = decimal n ++ (13 ∷ rest) in
    rw (
      found,
      skip-append content_length_name (codes ": " ++ value),
      to_alnum-digits (decimal n) (13 ∷ rest) (decimal-AllDigits n) (decimal-ne-nil n),
    )

-- If the first occurrence of the field's name in the header is followed by `: `, the digits of a
-- positive number below 2^64 and a CR, `nhr_response_parse_content_length` sets the announced length
-- to this number and changes nothing else.
pub parse_content_length-decimal :
    (r : Response) (received rest : Bytes) (n : ℕ)
    → strstr received content_length_name
      ≡ done (some (content_length_name ++ (codes ": " ++ (decimal n ++ (13 ∷ rest)))))
    → 0 < n
    → n < 2 ^ 64
    → parse_content_length r received ≡ done (record r { content_length = n })
unfolding parse_content_length
parse_content_length-decimal r received rest n found pos fits = rw (
  find_http_field_value-decimal received rest n found,
  scan_ulong-decimal n rest fits,
  lt→ltb 0 n pos,
)
