-- ===== src/Request/Message/PostBody.antt =====
-- `nhr_request_create_header_POST` behind the body: the whole message, once the body has been made.
use libnhr.Base.{
  ℕ, ◌+◌, ◌^◌, ◌<◌, ◌≡◌, arith, Option, some, if◌then◌else◌, List, [], ◌++◌, length, length-append,
}
use libnhr.Exec.{Exec, done, ◌>>=◌}
use libnhr.Clib.Memory.{Bytes, u64}
use libnhr.Clib.Strings.{cstr, strlen-append}
use libnhr.Clib.Print.{Buffer, empty_buffer, close, close_lem}
use libnhr.Codec.{Codec}
use libnhr.Response.Chunks.{crlf, double_crlf}
use libnhr.Request.{Request}
use libnhr.Request.Pairs.{colon}
use libnhr.Request.Get.{print_host, print_headers}
use libnhr.Request.Post.{
  print_post_line, copy_body, create_url_encoded_parameters, create_header_post,
}
use libnhr.Request.Post.Multipart.{create_data_parameters}
use libnhr.Request.Render.{Field, total}
use libnhr.Request.Message.{
  Heads, host_line, header_block, printed, strings_of-http_headers, print_headers-block,
  print_host-line,
}
use libnhr.Request.Message.PostText.{
  post_line, post_head, post_message, copy_body-body, print_post_line_lem, length-post_message,
}

-- the builder behind the body
abbrev print_all : Request → Option Bytes → Option Bytes → ℕ → Buffer → Exec (Request × Bytes × ℕ)
print_all r headers body n buff = do
  lined ← print_post_line r buff
  hosted ← print_host r lined
  headed ← print_headers headers hosted
  whole ← copy_body body n headed
  message ← close whole
  done (r, message, length whole.text)

-- The builder behind the body: the request line, the head and the body in one buffer.
print_message :
    (r : Request) (path host : Bytes) (fs : List Field) (mem body rest : Bytes) (cap : ℕ)
    → Heads r path host fs
    → mem ≡ body ++ rest
    → 0 < length body
    → length (post_message path host r.port fs body) < cap
    → print_all r (printed crlf colon fs).0 (some mem) (length body) (empty_buffer cap)
      ≡ done (
        r,
        cstr (post_message path host r.port fs body),
        length (post_message path host r.port fs body),
      )
print_message r path host fs mem body rest cap heads front pos room =
    let line = post_line path in
    let top = line ++ host_line host r.port in
    let head = post_head path host r.port fs in
    let s1 = length-append (head ++ body) double_crlf in
    let s2 = length-append head body in
    let s3 = length-append top (header_block fs) in
    let s4 = length-append line (host_line host r.port) in
    simp (
      print_post_line_lem r path (empty_buffer cap) heads.path_is heads.path_text
          (omega (arith, s1, s2, s3, s4, room)),
      print_host-line r host (record { cap = cap; text = line }) heads.host_is heads.host_text
          (omega (arith, s1, s2, s3, s4, room)),
      print_headers-block fs r.http_headers (record { cap = cap; text = top }) heads.headers
          (omega (arith, s1, s2, s3, room)),
      copy_body-body mem body rest (record { cap = cap; text = head }) front pos
          (omega (arith, s1, s2, room)),
      close_lem (record { cap = cap; text = post_message path host r.port fs body }) room,
    )

-- The whole builder, if the body has been made.
pub create_header_post-body :
    (codec : Codec) (r r' : Request) (path host : Bytes) (fs sent : List Field)
    (mem body rest : Bytes)
    → Heads r path host fs
    → Heads r' path host sent
    → (if r.is_have_data_parameter
        then create_data_parameters r
        else create_url_encoded_parameters codec r)
      ≡ done (r', some mem, length body)
    → mem ≡ body ++ rest
    → 0 < length body
    → total 4 sent < 2 ^ 64
    → length path + length host + length body + (printed crlf colon sent).1 + 256 < 2 ^ 64
    → create_header_post codec r
      ≡ done (
        r',
        cstr (post_message path host r'.port sent body),
        length (post_message path host r'.port sent body),
      )
unfolding create_header_post
create_header_post-body codec r r' path host fs sent mem body rest heads heads' made front pos small
      fits =
    let cap = length path + length host + length body + (printed crlf colon sent).1 + 256 in
    let size : u64 cap ≡ cap = omega arith in
    simp
      (
        heads.path_is,
        heads.host_is,
        strlen-append path [] heads.path_text,
        strlen-append host [] heads.host_text,
        made,
        strings_of-http_headers sent r'.http_headers heads'.headers small,
        size,
      )
      (print_message r' path host sent mem body rest cap heads' front pos
        (length-post_message path host r'.port sent body))
