-- ===== src/Request/Post.antt =====
-- src/nhr_request_method_post.c: the two kinds of request bodies, and the POST message. Both bodies
-- add their Content-Type and Content-Length fields to the request's headers.
pub mod Multipart
use libnhr.Base.{
  ℕ, ◌+◌, ◌*◌, ◌%◌, ◌^◌, Option, none, some, Bool, true, false, ◌||◌, ◌&&◌, List, [], ◌∷◌, ◌++◌,
  length, if◌then◌else◌, ltb, ◌==◌,
}
use libnhr.Exec.{Exec, done, fault, ◌>>=◌}
use libnhr.Clib.Memory.{Bytes, u64, bytes_of, read}
use libnhr.Clib.Strings.{codes, cstr, strlen, text}
use libnhr.Clib.Decimal.{decimal}
use libnhr.Clib.Print.{Buffer, empty_buffer, print, copy, close}
use libnhr.Codec.{Codec, method_deflate, method_gzip}
use libnhr.Map.{Node}
use libnhr.Request.{Request}
use libnhr.Request.Public.{add_header}
use libnhr.Request.Pairs.{http_headers, url_encoded_parameters}
use libnhr.Request.Get.{strings_of, print_host, print_headers}
use libnhr.Request.Post.Multipart.{create_data_parameters, print_local}
use libnhr.Response.Chunks.{crlf, double_crlf}
use libnhr.Response.Header.{content_length_name}

abbrev pub content_type_name : Bytes
content_type_name = codes "Content-Type"

abbrev pub url_encoded_type : Bytes
url_encoded_type = codes "application/x-www-form-urlencoded"

-- the request line of a POST
unfoldable pub print_post_line : Request → Buffer → Exec Buffer
print_post_line r buff = do
  path ← text (bytes_of r.path)
  print (codes "POST " ++ (path ++ codes " HTTP/1.1\r\n")) buff

-- `if (parameters_len > 0)`
unfoldable pub copy_body : Option Bytes → ℕ → Buffer → Exec Buffer
copy_body parameters parameters_len buff =
    if ltb 0 parameters_len
    then (do
      s ← read parameters_len (bytes_of parameters)
      copied ← copy s buff
      copy double_crlf copied)
    else done buff

module _ (codec : Codec) where
  -- the parameters compressed, if the request asks for it and the compression succeeds
  unfoldable pub compressed : Request → Bytes → ℕ → Exec (Bytes × ℕ)
  compressed r params params_len =
      if r.is_gziped || r.is_deflated
      then (do
        input ← read params_len params
        result ← codec.compress input (if r.is_gziped then method_gzip else method_deflate)
        done (elim result [
          | none ↦ (params, params_len)
          | some out ↦ if ltb 0 (length out) then (out, length out) else (params, params_len)
        ]))
      else done (params, params_len)

  -- The request with its new headers, the body, and `*parameters_len`.
  unfoldable pub create_url_encoded_parameters : Request → Exec (Request × Option Bytes × ℕ)
  create_url_encoded_parameters r = do
    (params, params_len) ← strings_of url_encoded_parameters r.parameters
    elim params [
      | none ↦ done (r, none, 0)
      | some raw ↦ (do
        (sent, sent_len) ← compressed r raw params_len
        content_length ← print_local 24 (decimal sent_len)
        typed ← add_header (some (cstr content_type_name)) (some (cstr url_encoded_type)) r
        measured ← add_header (some (cstr content_length_name)) (some content_length) typed
        done (measured, some sent, sent_len))
    ]

  unfoldable pub create_header_post : Request → Exec (Request × Bytes × ℕ)
  create_header_post r = do
    path_len ← strlen (bytes_of r.path)
    host_len ← strlen (bytes_of r.host)
    (r', parameters, parameters_len) ←
        if r.is_have_data_parameter
        then create_data_parameters r
        else create_url_encoded_parameters r
    (headers, headers_len) ← strings_of http_headers r'.http_headers
    let buff_size = u64 (path_len + host_len + parameters_len + headers_len + 256)
    lined ← print_post_line r' (empty_buffer buff_size)
    hosted ← print_host r' lined
    headed ← print_headers headers hosted
    whole ← copy_body parameters parameters_len headed
    message ← close whole
    done (r', message, length whole.text)
