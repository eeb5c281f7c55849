-- ===== src/Request/Message/PostMessage.antt =====
-- The whole POST message that `nhr_request_create_header_POST` makes of a request with data
-- parameters.
use libnhr.Base.{
  ◌+◌, ◌^◌, ◌<◌, ◌≡◌, arith, true, List, [], ◌∷◌, ◌++◌, length, length-append, refl, ap, ◌∙◌,
  if◌then◌else◌,
}
use libnhr.Exec.{done}
use libnhr.Clib.Memory.{Bytes}
use libnhr.Clib.Strings.{codes, cstr, NoNul-append}
use libnhr.Clib.Decimal.{decimal, length-decimal}
use libnhr.Codec.{Codec}
use libnhr.Map.Stores.{Param}
use libnhr.Response.Header.{content_length_name}
use libnhr.Request.{Request}
use libnhr.Request.Post.{create_url_encoded_parameters, create_header_post}
use libnhr.Request.Post.Multipart.{multipart_type, create_data_parameters}
use libnhr.Request.Render.{Field, texts, total}
use libnhr.Request.Message.{Heads, length-printed_headers}
use libnhr.Request.Message.Parts.{weights}
use libnhr.Request.Message.MultipartBody.{
  multipart, with_body_headers, HasParts, length-multipart, create_data_parameters-multipart,
}
use libnhr.Request.Message.PostBody.{create_header_post-body}
use libnhr.Request.Message.PostText.{
  body_fields, post_message, total-append, body_fields-stored, multipart-pos,
}

-- For a request with data parameters and a 12-byte boundary, whose path, host, header fields and
-- parameters are stored, with sizes that add up to less than 2^64 - 512,
-- `nhr_request_create_header_POST` succeeds: it writes nothing outside its buffers, and it returns the
-- request line, the Host line, the header block with Content-Type and the exact Content-Length of
-- the body, and the multipart body, followed by an empty line, with the length of it all. The body
-- is not compressed, also if `is_gziped` or `is_deflated` is set.
pub create_header_post-message :
    (codec : Codec) (r : Request) (path host boundary : Bytes) (fs : List Field) (ps : List Param)
    → Heads r path host fs
    → HasParts r boundary ps (texts fs)
    → r.is_have_data_parameter ≡ true
    → length path + length host + total 4 fs + weights ps + 512 < 2 ^ 64
    → let body = multipart boundary ps in
      let sent = body_fields fs (multipart_type ++ boundary) (length body) in
      create_header_post codec r
      ≡ done (
        with_body_headers (multipart_type ++ boundary) (length body) r,
        cstr (post_message path host r.port sent body),
        length (post_message path host r.port sent body),
      )
create_header_post-message codec r path host boundary fs ps heads has has_data fits =
    let body = multipart boundary ps in
    let kind = multipart_type ++ boundary in
    let sent = body_fields fs kind (length body) in
    let r' = with_body_headers kind (length body) r in
    let added =
      body_fields-stored r fs kind (length body) has.headers
        (NoNul-append multipart_type boundary (omega arith) has.boundary_text) (cc) in
    let heads' : Heads r' path host sent = record {
      path_is = heads.path_is;
      host_is = heads.host_is;
      path_text = heads.path_text;
      host_text = heads.host_text;
      headers = added;
    } in
    let len = length-multipart r boundary ps (texts fs) has in
    let more =
      total-append 4 fs
        ((codes "Content-Type", kind) ∷ (content_length_name, decimal (length body)) ∷ []) in
    let type_len = length-append multipart_type boundary in
    let digits = length-decimal (length body) in
    let small : total 4 sent < total 4 fs + 140 =
      omega (arith, more, type_len, digits, has.boundary_length) in
    let printed_len = length-printed_headers sent in
    let made =
      ap (λ has. if has then create_data_parameters r else create_url_encoded_parameters codec r)
        has_data
      ∙ create_data_parameters-multipart r boundary ps (texts fs) has (omega arith) in
    create_header_post-body codec r r' path host fs sent (cstr body) body (0 ∷ []) heads heads' made
      refl (multipart-pos boundary ps) (omega (arith, small))
      (omega (arith, len, small, printed_len))
