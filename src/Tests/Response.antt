-- ===== src/Tests/Response.antt =====
-- src/nhr_response.c at concrete responses.
use libnhr.Base.{◌≡◌, refl, arith, none, some, List, [], ◌∷◌, ◌++◌, take}
use libnhr.Exec.{done, fault, Halts}
use libnhr.Clib.Memory.{Bytes}
use libnhr.Clib.Strings.{codes}
use libnhr.Clib.Scan.Hex.{hex_value, nibble}
use libnhr.Codec.{Codec}
use libnhr.Response.{Response, zero_response, add_body_data}
use libnhr.Response.Chunks.{crlf, read_chunks}
use libnhr.Response.Receive.{start_body}
use libnhr.Response.Body.{IsValid, Added, add_body_data-Added}
use libnhr.Response.Chunked.{Chunk, AllChunks, message, contents, Decoded, read_chunks-Decoded}
use libnhr.Response.Plain.{IsPlain}
use libnhr.Response.Start.{Started, start_body-Started, start_body_overflow}
use libnhr.Response.Receive as Receive
use libnhr.Response.Overread.{create_overread, read_chunks_overread}
use libnhr.Response.Header.{parse_content_length}
use libnhr.Clib.Strings.{cstr, strstr, begins}
use libnhr.Clib.Decimal.{decimal, decimal_onto}
use libnhr.Response.Length.{parse_content_length-decimal}
use libnhr.Response.Halts.{read_chunks-Halts}

-- a codec that can do nothing
abbrev pub no_codec : Codec
no_codec = record { compress = λ m k. done none; decompress = λ m k. done none }

-- a response with two bytes of an announced five
abbrev pub two_of_five : Response
two_of_five = record zero_response {
  body = some (104 ∷ 101 ∷ []);
  body_len = 2;
  body_size = 2;
  content_length = 5;
}

pub two_of_five-IsValid : IsValid two_of_five
two_of_five-IsValid = record { allocated = refl; within = omega arith; limited = λ h. omega arith }

pub two_of_five-IsPlain : IsPlain two_of_five
two_of_five-IsPlain = record { not_chunked = refl; not_gzip = refl; not_deflate = refl }

zero_response-IsValid : IsValid zero_response
zero_response-IsValid = record {
  allocated = refl;
  within = omega arith;
  limited = λ h. omega arith;
}

abbrev two_chunks : List Chunk
two_chunks =
    record { digit = 53; digits = []; content = codes "hello" }
    ∷ record { digit = 48; digits = 51 ∷ []; content = codes " yo" }
    ∷ []

two_chunks-AllChunks : AllChunks two_chunks
unfolding hex_value nibble
two_chunks-AllChunks = (
  record { hex = (refl, tt); size = refl; positive = omega arith; fits = omega arith },
  (
    record { hex = (refl, (refl, tt)); size = refl; positive = omega arith; fits = omega arith },
    tt,
  ),
)

read_chunks-Decoded_example :
    (r' : Response) × (read_chunks zero_response (message two_chunks (0 ∷ [])) ≡ done r')
    × Decoded zero_response r' (contents two_chunks)
read_chunks-Decoded_example =
    read_chunks-Decoded two_chunks (0 ∷ []) zero_response two_chunks-AllChunks zero_response-IsValid
      (omega arith)

add_body_data-Added_example :
    (r' : Response) × (add_body_data two_of_five (codes "llo!") 4 ≡ done r')
    × Added two_of_five r' (take 4 (codes "llo!"))
add_body_data-Added_example =
    add_body_data-Added two_of_five (codes "llo!") 4 two_of_five-IsValid (omega arith) (omega arith)

start_body-Started_example :
    (r' : Response) × (start_body (record zero_response { content_length = 5 }) (codes "he") 2
      ≡ done r')
    × Started (record zero_response { content_length = 5 }) r' (take 2 (codes "he"))
start_body-Started_example =
    start_body-Started (record zero_response { content_length = 5 }) (codes "he") 2 (omega arith)
      (omega arith)

-- the response to `Content-Length: 18446744073709551615`
abbrev huge : Response
huge = record zero_response { content_length = 18446744073709551615 }

-- 32 bytes of a body, one more than the wrapped size
abbrev long_body : Bytes
long_body = codes "0123456789abcdef0123456789abcdef"

start_body_overflow_example : start_body huge long_body 32 ≡ fault
start_body_overflow_example =
    start_body_overflow huge long_body 32 (omega arith) (omega arith) (omega arith) (omega arith)
      (omega arith)

-- behind the field's name, a colon, a line's end and the NUL, and more NULs up to the array's end
create_overread_example :
    Receive.create no_codec
      (codes "HTTP/1.1 200 OK\r\nContent-Length:\r\n\r\n" ++ (0 ∷ 0 ∷ 0 ∷ []))
      36
    ≡ fault
unfolding strstr begins decimal decimal_onto
create_overread_example =
    create_overread no_codec
      (codes "HTTP/1.1 200 OK\r\nContent-Length:\r\n\r\n" ++ (0 ∷ 0 ∷ 0 ∷ [])) _
      (codes ":\r\n\r\n" ++ (0 ∷ 0 ∷ 0 ∷ [])) 200 36 refl (omega arith) (omega arith) refl
      (refl, (refl, (refl, (refl, (refl, (refl, (refl, (refl, tt))))))))

read_chunks_overread_example :
    read_chunks zero_response ((53 ∷ []) ++ (crlf ++ codes "hel")) ≡ fault
unfolding hex_value nibble
read_chunks_overread_example =
    read_chunks_overread zero_response 53 [] (codes "hel") (refl, tt) (omega arith) (omega arith)

read_chunks-Halts_example : Halts (read_chunks two_of_five (codes "5\r\nhel"))
read_chunks-Halts_example = read_chunks-Halts two_of_five (codes "5\r\nhel")

parse_content_length-decimal_example :
    parse_content_length zero_response
      (cstr (codes "HTTP/1.1 200 OK\r\nContent-Length: 42\r\n\r\n"))
    ≡ done (record zero_response { content_length = 42 })
unfolding strstr begins decimal decimal_onto
parse_content_length-decimal_example =
    parse_content_length-decimal zero_response
      (cstr (codes "HTTP/1.1 200 OK\r\nContent-Length: 42\r\n\r\n")) (10 ∷ 13 ∷ 10 ∷ 0 ∷ []) 42 refl
      (omega arith) (omega arith)
