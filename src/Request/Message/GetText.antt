-- ===== src/Request/Message/GetText.antt =====
-- The whole GET message.
use libnhr.Base.{
  ℕ, ◌+◌, ◌^◌, ◌≤◌, ◌<◌, ◌≡◌, arith, some, List, [], ◌∷◌, ◌++◌, length, length-append,
}
use libnhr.Exec.{done}
use libnhr.Clib.Memory.{Bytes, u64}
use libnhr.Clib.Strings.{codes, cstr, NoNul, text-append, strlen-append}
use libnhr.Clib.Print.{Buffer, empty_buffer, print_lem, close_lem}
use libnhr.Map.{Node}
use libnhr.Map.Stores.{StoresAll}
use libnhr.Response.Chunks.{crlf}
use libnhr.Request.{Request}
use libnhr.Request.Pairs.{colon, ampersand, equals}
use libnhr.Request.Get.{print_get_line, create_header_get}
use libnhr.Request.Render.{Field, texts, joined, total}
use libnhr.Request.Render.Strings.{NoNul-joined, total-lead}
use libnhr.Request.Message.{
  Heads, host_line, header_block, printed, strings_of-http_headers,
  strings_of-url_encoded_parameters, length-header_block, length-host_line, print_headers-block,
  print_host-line, length-printed_headers,
}

abbrev pub query : List Field → Bytes
query [] = codes " HTTP/1.1\r\n"
query (f ∷ fs) = codes "?" ++ (joined ampersand equals (f ∷ fs) ++ codes " HTTP/1.1\r\n")

abbrev pub get_line : Bytes → List Field → Bytes
get_line path qs = codes "GET " ++ (path ++ query qs)

abbrev pub get_message : Bytes → Bytes → ℕ → List Field → List Field → Bytes
get_message path host port fs qs = (get_line path qs ++ host_line host port) ++ header_block fs

length-get_line :
    (path : Bytes) (qs : List Field)
    → length (get_line path qs) ≤ length path + (printed ampersand equals qs).1 + 16
length-get_line path [] = omega (arith, length-append path (query []))
length-get_line path (q ∷ qs) = omega (
  arith,
  length-append path (query (q ∷ qs)),
  length-append (joined ampersand equals (q ∷ qs)) (codes " HTTP/1.1\r\n"),
)

print_get_line-query :
    (r : Request) (path : Bytes) (qs : List Field) (ns : List Node) (b : Buffer)
    → r.path ≡ some (cstr path)
    → NoNul path
    → StoresAll ns (texts qs)
    → length b.text + length (get_line path qs) < b.cap
    → print_get_line r (printed ampersand equals qs).0 b
      ≡ done (record { cap = b.cap; text = b.text ++ get_line path qs })
unfolding print_get_line
print_get_line-query r path [] ns b is_path ok h fits =
    simp (is_path, text-append path [] ok) (print_lem (get_line path []) b fits)
print_get_line-query r path (q ∷ qs) ns b is_path ok h fits =
    let string = NoNul-joined ampersand equals (q ∷ qs) ns (omega arith) (omega arith) h in
    simp (is_path, text-append path [] ok, text-append (joined ampersand equals (q ∷ qs)) [] string)
      (print_lem (get_line path (q ∷ qs)) b fits)

length-printed_query : (qs : List Field) → (printed ampersand equals qs).1 ≤ total 2 qs
length-printed_query [] = omega arith
length-printed_query (q ∷ qs) = omega (arith, total-lead ampersand equals q qs)

-- For a request whose path, host, header fields and text parameters are stored, with sizes that add
-- up to less than 2^64 - 256, `nhr_request_create_header_GET` succeeds: it writes nothing outside its
-- buffer, and it returns the request line with the query, the Host line and the header block, ended
-- by a NUL, with their length.
pub create_header_get-message :
    (r : Request) (path host : Bytes) (fs qs : List Field)
    → Heads r path host fs
    → StoresAll r.parameters (texts qs)
    → length path + length host + total 4 fs + total 2 qs + 256 < 2 ^ 64
    → create_header_get r
      ≡ done
          (cstr (get_message path host r.port fs qs), length (get_message path host r.port fs qs))
unfolding create_header_get
create_header_get-message r path host fs qs heads params fits =
    let hs = length-printed_headers fs in
    let ps = length-printed_query qs in
    let sum =
      length path
      + length host
      + (printed crlf colon fs).1
      + (printed ampersand equals qs).1
      + 256 in
    let size : u64 sum ≡ sum = omega (arith, hs, ps) in
    let line = get_line path qs in
    let top = line ++ host_line host r.port in
    let room : length (get_message path host r.port fs qs) < sum = omega (
      arith,
      length-get_line path qs,
      length-host_line host r.port,
      length-header_block fs,
      length-append top (header_block fs),
      length-append line (host_line host r.port),
    ) in
    let parts = length-append top (header_block fs) in
    let front = length-append line (host_line host r.port) in
    simp (
      heads.path_is,
      heads.host_is,
      strlen-append path [] heads.path_text,
      strlen-append host [] heads.host_text,
      strings_of-http_headers fs r.http_headers heads.headers (omega arith),
      strings_of-url_encoded_parameters qs r.parameters params (omega arith),
      size,
      print_get_line-query r path qs r.parameters (empty_buffer sum) heads.path_is heads.path_text
          params (omega (arith, parts, front, room)),
      print_host-line r host (record { cap = sum; text = line }) heads.host_is heads.host_text
          (omega (arith, parts, front, room)),
      print_headers-block fs r.http_headers (record { cap = sum; text = top }) heads.headers
          (omega (arith, parts, room)),
      close_lem (record { cap = sum; text = get_message path host r.port fs qs }) room,
    )
