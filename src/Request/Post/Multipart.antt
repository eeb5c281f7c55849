-- ===== src/Request/Post/Multipart.antt =====
-- `nhr_request_create_data_parameters_POST`: a multipart/form-data body.
use libnhr.Base.{
  ℕ, ◌+◌, ◌*◌, Option, some, Bool, true, false, ◌||◌, List, [], ◌∷◌, ◌++◌, length, if◌then◌else◌,
  ◌==◌,
}
use libnhr.Exec.{Exec, done, ◌>>=◌}
use libnhr.Clib.Memory.{Bytes, u64, bytes_of, read}
use libnhr.Clib.Strings.{codes, cstr, strlen, text}
use libnhr.Clib.Decimal.{decimal}
use libnhr.Clib.Print.{Buffer, empty_buffer, print, copy, close}
use libnhr.Map.{Node, value_data, value_string, value_static_string}
use libnhr.Request.{Request}
use libnhr.Request.Public.{add_header, boundary_len}
use libnhr.Response.Chunks.{crlf}
use libnhr.Response.Header.{content_length_name}

abbrev pub is_text : Node → Bool
is_text n = n.value_type == value_string || n.value_type == value_static_string

-- the `switch` of the loop that measures
abbrev pub type_length : Node → ℕ
type_length cur =
    if cur.value_type == value_data then 124 + 4 * 2 else if is_text cur then 40 + 4 else 0

-- the first loop, from the length so far
unfoldable pub params_length_from : ℕ → List Node → Exec ℕ
params_length_from len [] = done len
params_length_from len (cur ∷ next) = do
  k ← strlen (bytes_of cur.key)
  params_length_from
      (u64
        (len + (k + cur.value_size + cur.reserved_size) + (boundary_len + 2) + 4 + type_length cur))
      next

abbrev pub disposition : Bytes
disposition = codes "Content-Disposition: form-data; name=\""

abbrev pub file_name_part : Bytes
file_name_part = codes "\"; filename=\""

abbrev pub octet_stream : Bytes
octet_stream = codes "Content-Type: application/octet-stream\r\n"

abbrev pub binary_encoding : Bytes
binary_encoding = codes "Content-Transfer-Encoding: binary\r\n\r\n"

-- `case NHR_MAP_VALUE_DATA`
unfoldable pub print_file : Node → Buffer → Exec Buffer
print_file cur buff = do
  name ← text (bytes_of cur.key)
  file ← text (bytes_of cur.reserved)
  named ← print (disposition ++ (name ++ (file_name_part ++ (file ++ codes "\"\r\n")))) buff
  typed ← copy octet_stream named
  encoded ← copy binary_encoding typed
  content ← read cur.value_size (bytes_of cur.value)
  copy content encoded

-- `case NHR_MAP_VALUE_STRING`
unfoldable pub print_text : Node → Buffer → Exec Buffer
print_text cur buff = do
  name ← text (bytes_of cur.key)
  named ← print (disposition ++ (name ++ codes "\"\r\n\r\n")) buff
  content ← read cur.value_size (bytes_of cur.value)
  copy content named

-- the `switch` of the loop that prints
unfoldable pub print_content : Node → Buffer → Exec Buffer
print_content cur buff =
    if cur.value_type == value_data
    then print_file cur buff
    else if is_text cur
    then print_text cur buff
    else done buff

-- One round of the second loop.
unfoldable pub print_part : Bytes → Bool → Node → Buffer → Exec Buffer
print_part boundary is_first cur buff = do
  separated ← if is_first then done buff else copy crlf buff
  b ← text boundary
  opened ← print (codes "--" ++ (b ++ crlf)) separated
  print_content cur opened

unfoldable pub print_parts : Bytes → Bool → List Node → Buffer → Exec Buffer
print_parts boundary is_first [] buff = done buff
print_parts boundary is_first (cur ∷ next) buff = do
  printed ← print_part boundary is_first cur buff
  print_parts boundary false next printed

-- `sprintf` into a local array of `cap` bytes
unfoldable pub print_local : ℕ → Bytes → Exec Bytes
print_local cap s = do b ← print s (empty_buffer cap); done (cstr b.text)

abbrev pub multipart_type : Bytes
multipart_type = codes "multipart/form-data; boundary="

-- The body, its length, and the request with its two new headers.
unfoldable pub create_data_parameters : Request → Exec (Request × Option Bytes × ℕ)
create_data_parameters r = do
  counted ← params_length_from 0 r.parameters
  let params_len = u64 (counted + (boundary_len + 4))
  parts ← print_parts (bytes_of r.boundary) true r.parameters (empty_buffer (u64 (params_len + 4)))
  b ← text (bytes_of r.boundary)
  whole ← print (codes "\r\n--" ++ (b ++ codes "--")) parts
  content_type ← print_local (boundary_len + 32) (multipart_type ++ b)
  typed ← add_header (some (cstr (codes "Content-Type"))) (some content_type) r
  content_length ← print_local 24 (decimal (length whole.text))
  measured ← add_header (some (cstr content_length_name)) (some content_length) typed
  body ← close whole
  done (measured, some body, length whole.text)
