-- ===== src/Tests/Request.antt =====
-- src/nhr_request_public.c and the message builders at concrete requests.
use libnhr.Base.{◌+◌, ◌*◌, ◌≡◌, refl, arith, some, true, List, [], ◌∷◌, ◌++◌, length}
use libnhr.Exec.{done}
use libnhr.Clib.Memory.{Bytes}
use libnhr.Clib.Strings.{codes, cstr}
use libnhr.Map.{Node, zero_node, value_data}
use libnhr.Map.Stores.{Param, text_param, file_param, IsFile, StoresAll}
use libnhr.Request.{Request, new_request}
use libnhr.Request.Public.{add_header}
use libnhr.Request.Get.{create_header_get}
use libnhr.Request.Post.{create_header_post}
use libnhr.Request.Post.Multipart.{create_data_parameters, multipart_type}
use libnhr.Request.Fields.{text_node, text_node-IsText, with_header, add_header-with_header}
use libnhr.Request.Files.{file_node, with_file, new_boundary, all_alnum, add_data-with_file}
use libnhr.Request.Public.{add_data}
use libnhr.Clib.Strings.{NoNul}
use libnhr.Request.Render.{Field, texts}
use libnhr.Request.Message.{Heads}
use libnhr.Request.Message.GetText.{get_message, create_header_get-message}
use libnhr.Request.Message.PostText.{body_fields, post_message}
use libnhr.Request.Message.PostMessage.{create_header_post-message}
use libnhr.Request.Message.MultipartBody.{
  multipart, with_body_headers, HasParts, create_data_parameters-multipart,
}
use libnhr.Tests.Response.{no_codec}

abbrev pub accept : Field
accept = (codes "Accept", codes "*/*")

abbrev pub query : Field
query = (codes "q", codes "fish")

abbrev accept_node : Node
accept_node = text_node (codes "Accept") (codes "*/*")

abbrev query_node : Node
query_node = text_node (codes "q") (codes "fish")

-- a GET of example.org with one header field and one parameter
abbrev pub get_request : Request
get_request = record new_request {
  port = 8080;
  host = some (cstr (codes "example.org"));
  path = some (cstr (codes "/find"));
  method = 1;
  http_headers = accept_node ∷ [];
  parameters = query_node ∷ [];
}

pub accept-StoresAll : StoresAll (accept_node ∷ []) (texts (accept ∷ []))
accept-StoresAll = (text_node-IsText (codes "Accept") (codes "*/*") (omega arith) (omega arith), tt)

pub query-StoresAll : StoresAll (query_node ∷ []) (texts (query ∷ []))
query-StoresAll = (text_node-IsText (codes "q") (codes "fish") (omega arith) (omega arith), tt)

get_request-Heads : Heads get_request (codes "/find") (codes "example.org") (accept ∷ [])
get_request-Heads = record {
  path_is = refl;
  host_is = refl;
  path_text = omega arith;
  host_text = omega arith;
  headers = accept-StoresAll;
}

create_header_get-message_example :
    create_header_get get_request
    ≡ done (
      cstr (get_message (codes "/find") (codes "example.org") 8080 (accept ∷ []) (query ∷ [])),
      length (get_message (codes "/find") (codes "example.org") 8080 (accept ∷ []) (query ∷ [])),
    )
create_header_get-message_example =
    create_header_get-message get_request (codes "/find") (codes "example.org") (accept ∷ [])
      (query ∷ []) get_request-Heads query-StoresAll (omega arith)

abbrev boundary : Bytes
boundary = codes "aB3dE5gH7jK9"

-- a file with a NUL in it
abbrev up_node : Node
up_node = record zero_node {
  key = some (cstr (codes "up"));
  value = some (1 ∷ 0 ∷ 2 ∷ []);
  reserved = some (cstr (codes "a.bin"));
  value_size = 3;
  reserved_size = 5;
  value_type = value_data;
}

abbrev up : Param
up = file_param (codes "up") (codes "a.bin") (1 ∷ 0 ∷ 2 ∷ [])

-- a POST of a text and a file
abbrev post_request : Request
post_request = record get_request {
  method = 2;
  boundary = some (cstr boundary);
  parameters = query_node ∷ up_node ∷ [];
  is_have_data_parameter = true;
}

up-IsFile : IsFile up_node (codes "up") (codes "a.bin") (1 ∷ 0 ∷ 2 ∷ [])
up-IsFile = record {
  key_is = refl;
  value_is = refl;
  reserved_is = refl;
  value_size_is = refl;
  reserved_size_is = refl;
  value_type_is = refl;
  name_text = omega arith;
  file_text = omega arith;
}

abbrev both : List Param
both = text_param (codes "q") (codes "fish") ∷ up ∷ []

post_request-HasParts : HasParts post_request boundary both (texts (accept ∷ []))
post_request-HasParts = record {
  boundary_is = refl;
  boundary_text = omega arith;
  boundary_length = refl;
  parameters = (query-StoresAll.0, (up-IsFile, tt));
  headers = accept-StoresAll;
}

post_request-Heads : Heads post_request (codes "/find") (codes "example.org") (accept ∷ [])
post_request-Heads = record {
  path_is = refl;
  host_is = refl;
  path_text = omega arith;
  host_text = omega arith;
  headers = accept-StoresAll;
}

create_data_parameters-multipart_example :
    let body = multipart boundary both in
    create_data_parameters post_request
    ≡ done (
      with_body_headers (multipart_type ++ boundary) (length body) post_request,
      some (cstr body),
      length body,
    )
create_data_parameters-multipart_example =
    create_data_parameters-multipart post_request boundary both (texts (accept ∷ []))
      post_request-HasParts (omega arith)

create_header_post-message_example :
    let body = multipart boundary both in
    let sent = body_fields (accept ∷ []) (multipart_type ++ boundary) (length body) in
    create_header_post no_codec post_request
    ≡ done (
      with_body_headers (multipart_type ++ boundary) (length body) post_request,
      cstr (post_message (codes "/find") (codes "example.org") 8080 sent body),
      length (post_message (codes "/find") (codes "example.org") 8080 sent body),
    )
create_header_post-message_example =
    create_header_post-message no_codec post_request (codes "/find") (codes "example.org") boundary
      (accept ∷ []) both post_request-Heads post_request-HasParts refl (omega arith)

add_header-with_header_example :
    (add_header (some (cstr (codes "Encoding"))) (some (cstr (codes "gzip"))) get_request
      ≡ done (with_header (codes "Encoding") (codes "gzip") get_request))
    × StoresAll
        (with_header (codes "Encoding") (codes "gzip") get_request).http_headers
        (texts (accept ∷ []) ++ (text_param (codes "Encoding") (codes "gzip") ∷ []))
add_header-with_header_example =
    add_header-with_header get_request (codes "Encoding") (codes "gzip") (omega arith) (omega arith)
      (cc) (cc) (texts (accept ∷ [])) accept-StoresAll

add_data-with_file_example :
    let b = new_boundary (λ i. i * 7 + 3) in
    let r' = with_file b (file_node (codes "up") (codes "a.bin") (1 ∷ 0 ∷ 2 ∷ [])) get_request in
    (add_data
        (λ i. i * 7 + 3)
        (some (cstr (codes "up")))
        (some (cstr (codes "a.bin")))
        (some ((1 ∷ 0 ∷ 2 ∷ []) ++ (9 ∷ [])))
        3
        get_request
      ≡ done r')
    × StoresAll r'.parameters (texts (query ∷ []) ++ (up ∷ []))
    × (length b ≡ 12)
    × (all_alnum b ≡ true)
    × NoNul b
add_data-with_file_example =
    add_data-with_file (λ i. i * 7 + 3) get_request (codes "up") (codes "a.bin") (1 ∷ 0 ∷ 2 ∷ [])
      (9 ∷ []) (omega arith) (omega arith) (cc) (cc) (cc) (texts (query ∷ [])) query-StoresAll
      (omega arith) refl
