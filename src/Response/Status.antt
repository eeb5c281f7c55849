-- ===== src/Response/Status.antt =====
-- The status code of a response.
use libnhr.Base.{ℕ, ◌%◌, ◌^◌, ◌<◌, ◌≡◌, arith, some, ◌∷◌, ◌++◌, lt→ltb}
use libnhr.Exec.{done}
use libnhr.Clib.Memory.{Bytes}
use libnhr.Clib.Strings.{codes, strstr}
use libnhr.Clib.Decimal.{decimal}
use libnhr.Clib.Scan.Int.{scan_int-decimal}
use libnhr.Response.{Response}
use libnhr.Response.Header.{parse_status_code}

-- If the first space of the header is followed by the digits of a positive number below 2^16 and
-- another space, `nhr_response_parse_status_code` sets the status code to this number and changes
-- nothing else.
pub parse_status_code-decimal :
    (r : Response) (received rest : Bytes) (code : ℕ)
    → strstr received (codes " ") ≡ done (some (32 ∷ (decimal code ++ (32 ∷ rest))))
    → 0 < code
    → code < 2 ^ 16
    → parse_status_code r received ≡ done (record r { status_code = code })
unfolding parse_status_code
parse_status_code-decimal r received rest code found pos fits =
    let same : code % 2 ^ 16 ≡ code = omega arith in
    simp (found, scan_int-decimal code rest pos (omega arith), lt→ltb 0 code pos, same)
