-- ===== src/Response/Header.antt =====
-- The parsers of the status line and of single header fields.
use libnhr.Base.{
  ◌%◌, ◌^◌, Option, none, some, Bool, true, false, ◌||◌, ◌&&◌, not, [], ◌∷◌, length, if◌then◌else◌,
  ltb,
}
use libnhr.Exec.{Exec, done, fault, ◌>>=◌}
use libnhr.Clib.Memory.{Bytes, skip}
use libnhr.Clib.Strings.{codes, is_alnum, strstr}
use libnhr.Clib.Scan.{scan_int, scan_ulong}
use libnhr.Response.{Response}

-- k_nhr_content_length and the like (src/nhr_common.c, libnhr.h)
abbrev pub content_length_name : Bytes
content_length_name = codes "Content-Length"

abbrev pub transfer_encoding_name : Bytes
transfer_encoding_name = codes "Transfer-Encoding"

abbrev pub content_encoding_name : Bytes
content_encoding_name = codes "Content-Encoding"

abbrev pub chunked_word : Bytes
chunked_word = codes "chunked"

abbrev pub gzip_word : Bytes
gzip_word = codes "gzip"

abbrev pub deflate_word : Bytes
deflate_word = codes "deflate"

-- `while (!isalnum(*sub)) sub++`: a NUL does not stop it
unfoldable pub to_alnum : Bytes → Exec Bytes
to_alnum [] = fault
to_alnum (c ∷ m) = if is_alnum c then done (c ∷ m) else to_alnum m

unfoldable pub find_http_field_value : Bytes → Bytes → Exec (Option Bytes)
unfolding to_alnum
find_http_field_value received field = do
  found ← strstr received field
  elim found [
    | none ↦ done none
    | some sub ↦ (do behind ← skip (length field) sub; value ← to_alnum behind; done (some value))
  ]

unfoldable pub parse_status_code : Response → Bytes → Exec Response
parse_status_code r received = do
  found ← strstr received (codes " ")
  elim found [
    | none ↦ done r
    | some value ↦ (do
      code ← scan_int value
      done (elim code [
        | none ↦ r
        | some (minus, n) ↦
            if not minus && ltb 0 n then record r { status_code = n % 2 ^ 16 } else r
      ]))
  ]

unfoldable pub parse_content_length : Response → Bytes → Exec Response
parse_content_length r received = do
  found ← find_http_field_value received content_length_name
  elim found [
    | none ↦ done r
    | some value ↦ (do
      number ← scan_ulong value
      done (elim number [
        | none ↦ r
        | some n ↦ if ltb 0 n then record r { content_length = n } else r
      ]))
  ]

-- `strstr(encoding, word) != NULL`
unfoldable pub contains : Bytes → Bytes → Exec Bool
contains encoding word = do
  found ← strstr encoding word
  done (elim found [ none ↦ false | some sub ↦ true ])

unfoldable pub parse_transfer_encoding : Response → Bytes → Exec Response
unfolding contains
parse_transfer_encoding r received = do
  found ← find_http_field_value received transfer_encoding_name
  elim found [
    | none ↦ done r
    | some encoding ↦ (do
      chunked ← contains encoding chunked_word
      done (record r { is_chunked = r.is_chunked || chunked }))
  ]

unfoldable pub parse_content_encoding : Response → Bytes → Exec Response
unfolding contains
parse_content_encoding r received = do
  found ← find_http_field_value received content_encoding_name
  elim found [
    | none ↦ done r
    | some encoding ↦ (do
      gzip ← contains encoding gzip_word
      deflate ← contains encoding deflate_word
      done (record r { is_gzip = r.is_gzip || gzip; is_deflate = r.is_deflate || deflate }))
  ]
