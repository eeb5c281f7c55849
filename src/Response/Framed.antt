-- ===== src/Response/Framed.antt =====
-- The first block of a chunked response: its header, and how it goes on.
use libnhr.Base.{
  ℕ, ◌-◌, ◌^◌, ◌<◌, ◌≡◌, refl, arith, Bool, true, false, ◌||◌, none, some, ◌∷◌, ◌++◌, length,
  length-append, lt→ltb, ne→==,
}
use libnhr.Exec.{done}
use libnhr.Clib.Memory.{Bytes, skip, skip-append}
use libnhr.Clib.Strings.{codes, strstr, begins, is_alnum}
use libnhr.Clib.Decimal.{decimal}
use libnhr.Codec.{Codec}
use libnhr.Response.{Response, zero_response, fix_body_len}
use libnhr.Response.Chunks.{double_crlf, read_chunks}
use libnhr.Response.Header.{
  content_length_name, transfer_encoding_name, content_encoding_name, chunked_word, gzip_word,
  deflate_word, to_alnum, find_http_field_value, contains, parse_content_length,
  parse_transfer_encoding, parse_content_encoding,
}
use libnhr.Response.Receive.{parse_body, parse_message}
use libnhr.Response.Create.{Ends}

-- how a body is encoded
pub data Coding : Type 0 where
  as_is gzipped deflated : Coding

abbrev pub is_gzipped : Coding → Bool
is_gzipped gzipped = true
is_gzipped _ = false

abbrev pub is_deflated : Coding → Bool
is_deflated deflated = true
is_deflated _ = false

-- A field that begins with this word and does not have the other one; or no such field.
abbrev pub Says : Bytes → Bytes → Bytes → Type 0
Says word other received =
    (behind : Bytes) × (strstr received content_encoding_name
      ≡ done (some (content_encoding_name ++ (codes ": " ++ (word ++ behind)))))
    × (strstr (word ++ behind) other ≡ done none)

abbrev pub Encodes : Coding → Bytes → Type 0
Encodes as_is received = strstr received content_encoding_name ≡ done none
Encodes gzipped received = Says gzip_word deflate_word received
Encodes deflated received = Says deflate_word gzip_word received

-- A header with a status code that announces chunks, perhaps of an encoded body, and no length.
pub record Frames (received : Bytes) (code : ℕ) (coding : Coding) : Type 0 where
  pub behind_code : Bytes
  pub behind_chunked : Bytes
  pub status : strstr received (codes " ") ≡ done (some (32 ∷ (decimal code ++ (32 ∷ behind_code))))
  pub no_length : strstr received content_length_name ≡ done none
  pub chunked :
      strstr received transfer_encoding_name
      ≡ done (some (transfer_encoding_name ++ (codes ": " ++ (chunked_word ++ behind_chunked))))
  pub encoding : Encodes coding received
  pub some_code : 0 < code
  pub code_fits : code < 2 ^ 16

find_http_field_value-text :
    (received field value : Bytes) (c : ℕ)
    → strstr received field ≡ done (some (field ++ (codes ": " ++ (c ∷ value))))
    → is_alnum c ≡ true
    → find_http_field_value received field ≡ done (some (c ∷ value))
unfolding find_http_field_value to_alnum
find_http_field_value-text received field value c found alnum =
    rw (found, skip-append field (codes ": " ++ (c ∷ value))) (rw alnum refl)

abbrev pub framed : ℕ → Coding → Response
framed code coding = record zero_response {
  status_code = code;
  is_chunked = true;
  is_gzip = is_gzipped coding;
  is_deflate = is_deflated coding;
}

parse_transfer_encoding-chunked :
    (r : Response) (received behind : Bytes)
    → strstr received transfer_encoding_name
      ≡ done (some (transfer_encoding_name ++ (codes ": " ++ (chunked_word ++ behind))))
    → parse_transfer_encoding r received ≡ done (record r { is_chunked = r.is_chunked || true })
unfolding parse_transfer_encoding contains begins strstr
parse_transfer_encoding-chunked r received behind found = rw (
    find_http_field_value-text received transfer_encoding_name (codes "hunked" ++ behind) b'c' found
      refl)

find_http_field_value-none :
    (received field : Bytes)
    → strstr received field ≡ done none
    → find_http_field_value received field ≡ done none
unfolding find_http_field_value
find_http_field_value-none received field absent = rw absent refl

contains-none : (s word : Bytes) → strstr s word ≡ done none → contains s word ≡ done false
unfolding contains
contains-none s word absent = rw absent refl

contains-front :
    (behind : Bytes)
    → (contains (gzip_word ++ behind) gzip_word ≡ done true)
      × (contains (deflate_word ++ behind) deflate_word ≡ done true)
unfolding contains strstr begins
contains-front behind = (refl, refl)

parse_content_encoding-coded :
    (code : ℕ) (received : Bytes) (coding : Coding)
    → Encodes coding received
    → parse_content_encoding (framed code as_is) received ≡ done (framed code coding)
unfolding parse_content_encoding
parse_content_encoding-coded code received as_is absent =
    rw (find_http_field_value-none received content_encoding_name absent) refl
parse_content_encoding-coded code received gzipped (behind, found, no_word) = rw (
  find_http_field_value-text received content_encoding_name (codes "zip" ++ behind) b'g' found refl,
  (contains-front behind).0,
  contains-none (gzip_word ++ behind) deflate_word no_word,
)
parse_content_encoding-coded code received deflated (behind, found, no_word) = rw (
  find_http_field_value-text received content_encoding_name (codes "eflate" ++ behind) b'd' found
      refl,
  (contains-front behind).1,
  contains-none (deflate_word ++ behind) gzip_word no_word,
)

parse_content_length-none :
    (r : Response) (received : Bytes)
    → strstr received content_length_name ≡ done none
    → parse_content_length r received ≡ done r
unfolding parse_content_length
parse_content_length-none r received absent =
    rw (find_http_field_value-none received content_length_name absent) refl

pub parse_message-framed :
    (codec : Codec) (received : Bytes) (code : ℕ) (coding : Coding) (n : ℕ)
    → Frames received code coding
    → parse_message codec (record zero_response { status_code = code }) received n
      ≡ parse_body (framed code coding) received n
unfolding parse_message
parse_message-framed codec received code coding n f = simp (
  ne→== code 0 (omega (arith, f.some_code)),
  parse_content_length-none (record zero_response { status_code = code }) received f.no_length,
  parse_transfer_encoding-chunked (record zero_response { status_code = code }) received
      f.behind_chunked f.chunked,
  parse_content_encoding-coded code received coding f.encoding,
)

-- The chunks of the first block, behind the empty line.
pub parse_body-chunks :
    (r q : Response) (received content : Bytes) (head n : ℕ)
    → Ends received head content
    → r.is_chunked ≡ true
    → read_chunks r content ≡ done q
    → parse_body r received n ≡ done (fix_body_len q)
unfolding parse_body skip
parse_body-chunks r q received content head n ends chunked run =
    let skiped : length received - length (double_crlf ++ content) ≡ head =
      omega (arith, ends.size, length-append double_crlf content) in
    simp (ends.blank, skiped, lt→ltb 4 head ends.some_head, chunked, run)
