-- ===== src/Request/Get.antt =====
-- src/nhr_request_method_get.c, and the text of the request head that it shares with
-- src/nhr_request_method_post.c.
use libnhr.Base.{ℕ, ◌+◌, Option, none, some, List, [], ◌∷◌, ◌++◌, length, if◌then◌else◌, ◌==◌}
use libnhr.Exec.{Exec, done, ◌>>=◌}
use libnhr.Clib.Memory.{Bytes, u64, bytes_of}
use libnhr.Clib.Strings.{codes, strlen, text}
use libnhr.Clib.Decimal.{decimal}
use libnhr.Clib.Print.{Buffer, empty_buffer, print, copy, close}
use libnhr.Map.{Node}
use libnhr.Request.{Request}
use libnhr.Request.Pairs.{http_headers, url_encoded_parameters}
use libnhr.Response.Chunks.{crlf, double_crlf}

-- `r->map ? f(r->map, &len) : NULL`
unfoldable pub strings_of :
    (List Node → Exec (Option Bytes × ℕ)) → List Node → Exec (Option Bytes × ℕ)
strings_of f [] = done (none, 0)
strings_of f (n ∷ ns) = f (n ∷ ns)

-- the `Host` line; `%i` of an `unsigned short` is its decimal
unfoldable pub print_host : Request → Buffer → Exec Buffer
print_host r buff = do
  host ← text (bytes_of r.host)
  if r.port == 80
      then print (codes "Host: " ++ (host ++ crlf)) buff
      else print (codes "Host: " ++ (host ++ (codes ":" ++ (decimal r.port ++ crlf)))) buff

-- the header lines and the empty line
unfoldable pub print_headers : Option Bytes → Buffer → Exec Buffer
print_headers none buff = copy crlf buff
print_headers (some headers) buff = do h ← text headers; print (h ++ double_crlf) buff

-- the request line, with the version k_nhr_request_http_ver
unfoldable pub print_get_line : Request → Option Bytes → Buffer → Exec Buffer
print_get_line r none buff = do
  path ← text (bytes_of r.path)
  print (codes "GET " ++ (path ++ codes " HTTP/1.1\r\n")) buff
print_get_line r (some parameters) buff = do
  path ← text (bytes_of r.path)
  query ← text parameters
  print (codes "GET " ++ (path ++ (codes "?" ++ (query ++ codes " HTTP/1.1\r\n")))) buff

-- The message, and `*header_size`.
unfoldable pub create_header_get : Request → Exec (Bytes × ℕ)
create_header_get r = do
  path_len ← strlen (bytes_of r.path)
  host_len ← strlen (bytes_of r.host)
  (headers, headers_len) ← strings_of http_headers r.http_headers
  (parameters, parameters_len) ← strings_of url_encoded_parameters r.parameters
  let buff_size = u64 (path_len + host_len + headers_len + parameters_len + 256)
  lined ← print_get_line r parameters (empty_buffer buff_size)
  hosted ← print_host r lined
  whole ← print_headers headers hosted
  message ← close whole
  done (message, length whole.text)
