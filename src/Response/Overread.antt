-- ===== src/Response/Overread.antt =====
-- Input on which the parsers of nhr_response.c read behind the received bytes.
use libnhr.Base.{ℕ, ◌^◌, ◌<◌, ◌≡◌, refl, arith, some, false, [], ◌∷◌, ◌++◌, length, ne→==}
use libnhr.Exec.{done, fault}
use libnhr.Clib.Memory.{Bytes, skip, skip-append, read_lt}
use libnhr.Clib.Strings.{codes, is_alnum, strstr}
use libnhr.Clib.Scan.Hex.{AllHex, hex_value, scan_hex-value}
use libnhr.Response.{Response, zero_response, add_body_data}
use libnhr.Codec.{Codec}
use libnhr.Clib.Decimal.{decimal}
use libnhr.Response.Header.{
  content_length_name, to_alnum, find_http_field_value, parse_content_length,
}
use libnhr.Response.Receive.{parse_message, create}
use libnhr.Response.Status.{parse_status_code-decimal}
use libnhr.Response.Chunks.{crlf, take_chunk, read_chunks_from, read_chunks}
use libnhr.Response.Chunked.{skip_xdigits-hex}

-- no letter and no digit; a NUL is neither
abbrev pub NoAlnum : Bytes → Type 0
NoAlnum [] = Unit
NoAlnum (c ∷ m) = (is_alnum c ≡ false) × NoAlnum m

to_alnum-fault : (m : Bytes) → NoAlnum m → to_alnum m ≡ fault
unfolding to_alnum
to_alnum-fault [] h = refl
to_alnum-fault (c ∷ m) h = rw (h.0, to_alnum) (to_alnum-fault m h.1)

-- Where the search for a field finds its name, with no letter or digit behind it.
find_http_field_value_overread :
    (received field rest : Bytes)
    → strstr received field ≡ done (some (field ++ rest))
    → NoAlnum rest
    → find_http_field_value received field ≡ fault
unfolding find_http_field_value
find_http_field_value_overread received field rest found h =
    rw (found, skip-append field rest, to_alnum-fault rest h) refl

-- A first block with a status code, in which the first occurrence of the name Content-Length is
-- followed by no letter or digit up to the end of the memory, makes `nhr_response_create` read past
-- that end: neither the line's end nor the NUL of the string stops the search for the field's value.
pub create_overread :
    (codec : Codec) (received behind rest : Bytes) (code n : ℕ)
    → strstr received (codes " ") ≡ done (some (32 ∷ (decimal code ++ (32 ∷ behind))))
    → 0 < code
    → code < 2 ^ 16
    → strstr received content_length_name ≡ done (some (content_length_name ++ rest))
    → NoAlnum rest
    → create codec received n ≡ fault
unfolding create parse_message parse_content_length
create_overread codec received behind rest code n status some_code fits found h = simp (
  parse_status_code-decimal zero_response received behind code status some_code fits,
  ne→== code 0 (omega (arith, some_code)),
  find_http_field_value_overread received content_length_name rest found h,
)

-- A chunk of which only a first part is in memory makes `nhr_response_read_chunks` read past the end
-- of the memory: it takes no account of how much was received.
pub read_chunks_overread :
    (r : Response) (c : ℕ) (digits part : Bytes)
    → AllHex (c ∷ digits)
    → hex_value 0 (c ∷ digits) < 2 ^ 32
    → length part < hex_value 0 (c ∷ digits)
    → read_chunks r ((c ∷ digits) ++ (crlf ++ part)) ≡ fault
unfolding read_chunks read_chunks_from take_chunk add_body_data skip
read_chunks_overread r c digits part h fits short =
    let size = hex_value 0 (c ∷ digits) in
    rw (
      scan_hex-value c digits (10 ∷ part) h fits,
      skip_xdigits-hex (c ∷ digits) (10 ∷ part) h,
      ne→== size 0 (omega arith),
      read_lt size part short,
    )
