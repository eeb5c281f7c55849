-- ===== src/Request/Message/MultipartBody.antt =====
-- The multipart body that `nhr_request_create_data_parameters_POST` makes.
use libnhr.Base.{
  ℕ, ◌+◌, ◌^◌, ◌≤◌, ◌<◌, ◌≡◌, ◌≢◌, ap, arith, some, true, List, [], ◌∷◌, ◌++◌, length,
  length-append,
}
use libnhr.Exec.{done}
use libnhr.Clib.Memory.{Bytes, u64, bytes_of}
use libnhr.Clib.Strings.{codes, cstr, NoNul, NoNul-append, text-append}
use libnhr.Clib.Decimal.{decimal, length-decimal, decimal-NoNul, decimal-ne-nil}
use libnhr.Clib.Print.{empty_buffer, print_lem, close_lem}
use libnhr.Map.Stores.{Param, text_param, StoresAll}
use libnhr.Response.Header.{content_length_name}
use libnhr.Request.{Request}
use libnhr.Request.Public.{add_header}
use libnhr.Request.Fields.{with_header, add_header-with_header}
use libnhr.Request.Post.Multipart.{print_local, multipart_type, create_data_parameters}
use libnhr.Request.Message.Parts.{parts, weights, params_length_from-weights}
use libnhr.Request.Message.MultipartText.{length-parts, print_parts-parts}

abbrev pub multipart : Bytes → List Param → Bytes
multipart boundary ps = parts boundary true ps ++ (codes "\r\n--" ++ (boundary ++ codes "--"))

-- the request with the two header fields of a body of a given length
abbrev pub with_body_headers : Bytes → ℕ → Request → Request
with_body_headers content_type n r =
    with_header content_length_name (decimal n) (with_header (codes "Content-Type") content_type r)

pub print_local_lem : (cap : ℕ) (s : Bytes) → length s < cap → print_local cap s ≡ done (cstr s)
unfolding print_local
print_local_lem size s fits = rw (print_lem s (empty_buffer size) (omega arith))

-- A request with a boundary of 12 bytes, and the parameters `ps` and the headers `hs` stored.
pub record HasParts (r : Request) (boundary : Bytes) (ps hs : List Param) : Type 0 where
  pub boundary_is : r.boundary ≡ some (cstr boundary)
  pub boundary_text : NoNul boundary
  pub boundary_length : length boundary ≡ 12
  pub parameters : StoresAll r.parameters ps
  pub headers : StoresAll r.http_headers hs

pub length-multipart :
    (r : Request) (boundary : Bytes) (ps hs : List Param)
    → HasParts r boundary ps hs
    → length (multipart boundary ps) ≤ weights ps + 18
length-multipart r boundary ps hs h = omega (
  arith,
  h.boundary_length,
  length-append (parts boundary true ps) (codes "\r\n--" ++ (boundary ++ codes "--")),
  length-append boundary (codes "--"),
  length-parts boundary h.boundary_text h.boundary_length true ps,
)

pub add_body_headers :
    (r : Request) (hs : List Param) (content_type : Bytes) (n : ℕ)
    → StoresAll r.http_headers hs
    → NoNul content_type
    → content_type ≢ []
    → let typed = with_header (codes "Content-Type") content_type r in
      (add_header (some (cstr (codes "Content-Type"))) (some (cstr content_type)) r ≡ done typed)
      × (add_header (some (cstr content_length_name)) (some (cstr (decimal n))) typed
          ≡ done (with_body_headers content_type n r))
      × StoresAll (with_body_headers content_type n r).http_headers (
          (hs ++ (text_param (codes "Content-Type") content_type ∷ []))
          ++ (text_param content_length_name (decimal n) ∷ []))
add_body_headers r hs content_type n h string ne =
    let (typed, stored) =
      add_header-with_header r (codes "Content-Type") content_type (omega arith) string (cc) ne hs
        h in
    let (measured, all) =
      add_header-with_header (with_header (codes "Content-Type") content_type r) content_length_name
        (decimal n) (omega arith) (decimal-NoNul n) (cc) (decimal-ne-nil n) _ stored in
    (typed, measured, all)

-- For a request with a 12-byte boundary and its parameters and headers stored, whose sizes add up
-- below 2^64 - 20, `nhr_request_create_data_parameters_POST` succeeds: it writes nothing outside its
-- buffer or its two local arrays, it returns the parts between boundaries, closed by the last
-- boundary, with their length, and it adds the headers Content-Type with the boundary and
-- Content-Length with exactly that length.
pub create_data_parameters-multipart :
    (r : Request) (boundary : Bytes) (ps hs : List Param)
    → HasParts r boundary ps hs
    → weights ps + 20 < 2 ^ 64
    → let body = multipart boundary ps in
      create_data_parameters r
      ≡ done (
        with_body_headers (multipart_type ++ boundary) (length body) r,
        some (cstr body),
        length body,
      )
unfolding create_data_parameters
create_data_parameters-multipart r boundary ps hs h fits =
    let body = multipart boundary ps in
    let cap = weights ps + 20 in
    let last = codes "\r\n--" ++ (boundary ++ codes "--") in
    let inner = parts boundary true ps in
    let room = length-multipart r boundary ps hs h in
    let apart = length-append inner last in
    let type_length = length-append multipart_type boundary in
    let size : u64 (u64 (0 + weights ps + 16) + 4) ≡ cap = omega arith in
    let fields =
      add_body_headers r hs (multipart_type ++ boundary) (length body) h.headers
        (NoNul-append multipart_type boundary (omega arith) h.boundary_text) (cc) in
    let memory : bytes_of r.boundary ≡ cstr boundary = ap bytes_of h.boundary_is in
    simp (
      memory,
      params_length_from-weights ps r.parameters 0 h.parameters (omega arith),
      text-append boundary [] h.boundary_text,
      size,
      print_parts-parts boundary h.boundary_text h.boundary_length true ps r.parameters
          (empty_buffer cap) h.parameters (omega arith),
      print_lem last (record { cap = cap; text = inner }) (omega (arith, room, apart)),
      print_local_lem 44 (multipart_type ++ boundary)
          (omega (arith, type_length, h.boundary_length)),
      print_local_lem 24 (decimal (length body)) (omega (arith, length-decimal (length body))),
      fields.0,
      fields.1,
      close_lem (record { cap = cap; text = body }) (omega (arith, room)),
    )
