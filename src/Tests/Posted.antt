-- ===== src/Tests/Posted.antt =====
-- A POST request with a compressed form, and a compressed response in chunks.
use libnhr.Base.{◌≡◌, refl, arith, some, true, [], ◌∷◌, length, inr}
use libnhr.Exec.{done}
use libnhr.Clib.Memory.{Bytes}
use libnhr.Clib.Strings.{codes, cstr}
use libnhr.Response.{Response}
use libnhr.Request.{Request, method_post, send_raw_request}
use libnhr.Request.Post.{url_encoded_type, create_header_post}
use libnhr.Request.Message.{Heads}
use libnhr.Request.Message.MultipartBody.{with_body_headers}
use libnhr.Request.Message.FormMessage.{form, form_message, Sends, create_header_post-form}
use libnhr.Worker.Loop.{on_recvd_response}
use libnhr.Tests.Request.{get_request, accept, query, accept-StoresAll, query-StoresAll}
use libnhr.Tests.Chunked.{marking_codec}

abbrev form_request : Request
form_request = record get_request {
  method = method_post;
  is_gziped = true;
  command = send_raw_request;
  on_recvd_response = some 1;
}

form_request-Heads : Heads form_request (codes "/find") (codes "example.org") (accept ∷ [])
form_request-Heads = record {
  path_is = refl;
  host_is = refl;
  path_text = omega arith;
  host_text = omega arith;
  headers = accept-StoresAll;
}

abbrev sent_form : Bytes
sent_form = b'x' ∷ form (query ∷ [])

abbrev sent_message : Bytes
sent_message =
    form_message (codes "/find") (codes "example.org") form_request.port (accept ∷ []) sent_form

form_request-Sends : Sends marking_codec form_request (form (query ∷ [])) sent_form
form_request-Sends = inr (some sent_form, refl, refl, refl)

create_header_post-form_example :
    create_header_post marking_codec form_request
    ≡ done (
      with_body_headers url_encoded_type (length sent_form) form_request,
      cstr sent_message,
      length sent_message,
    )
create_header_post-form_example =
    create_header_post-form marking_codec form_request (codes "/find") (codes "example.org")
      (accept ∷ []) query [] sent_form form_request-Heads query-StoresAll refl form_request-Sends
      (omega arith)
