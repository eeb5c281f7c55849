-- ===== src/Request/Message/FormMessage.antt =====
-- The whole POST message of a request without data parameters: its text parameters URL encoded, and
-- compressed if the request says so.
use libnhr.Base.{
  ℕ, ◌+◌, ◌^◌, ◌<◌, ◌≡◌, ◌⊎◌, sym, ap, ◌∙◌, arith, Bool, true, false, ◌||◌, Option, none, some,
  List, [], ◌∷◌, ◌++◌, length, append-nil, lt→ltb, if◌then◌else◌, inl, inr,
}
use libnhr.Exec.{done}
use libnhr.Clib.Memory.{Bytes, read-append}
use libnhr.Clib.Strings.{codes, cstr}
use libnhr.Clib.Decimal.{decimal, length-decimal}
use libnhr.Codec.{Codec, method_deflate, method_gzip}
use libnhr.Map.Stores.{StoresAll}
use libnhr.Response.Header.{content_length_name}
use libnhr.Request.{Request}
use libnhr.Request.Pairs.{ampersand, equals}
use libnhr.Request.Post.{
  url_encoded_type, compressed, create_url_encoded_parameters, create_header_post,
}
use libnhr.Request.Post.Multipart.{create_data_parameters}
use libnhr.Request.Render.{Field, texts, joined, total}
use libnhr.Request.Render.Strings.{total-lead}
use libnhr.Request.Message.{Heads, strings_of-url_encoded_parameters, length-printed_headers}
use libnhr.Request.Message.MultipartBody.{with_body_headers, add_body_headers, print_local_lem}
use libnhr.Request.Message.PostText.{body_fields, post_message, body_fields-stored, total-append}
use libnhr.Request.Message.PostBody.{create_header_post-body}

-- the texts of a form
abbrev pub form : List Field → Bytes
form fs = joined ampersand equals fs

-- the message that brings this body
abbrev pub form_message : Bytes → Bytes → ℕ → List Field → Bytes → Bytes
form_message path host port fs body =
    post_message path host port (body_fields fs url_encoded_type (length body)) body

abbrev pub method_of : Bool → ℕ
method_of gzip = if gzip then method_gzip else method_deflate

-- what is sent for `raw`, if the compression has this result
abbrev pub chosen : Option Bytes → Bytes → Bytes
chosen none raw = raw
chosen (some []) raw = raw
chosen (some (c ∷ out)) raw = c ∷ out

-- The body that stands for `raw`: these bytes, or what they are compressed to.
abbrev pub Sends : Codec → Request → Bytes → Bytes → Type 0
Sends codec r raw body =
    (((r.is_gziped || r.is_deflated) ≡ false) × (body ≡ raw))
    ⊎ ((result : Option Bytes) × ((r.is_gziped || r.is_deflated) ≡ true)
        × (codec.compress raw (method_of r.is_gziped) ≡ done result)
        × (body ≡ chosen result raw))

-- its memory
record BodyMemory (codec : Codec) (r : Request) (raw body : Bytes) : Type 0 where
  mem : Bytes
  rest : Bytes
  run : compressed codec r (cstr raw) (length raw) ≡ done (mem, length body)
  front : mem ≡ body ++ rest

compressed-plain :
    (codec : Codec) (r : Request) (raw body : Bytes)
    → (r.is_gziped || r.is_deflated) ≡ false
    → body ≡ raw
    → BodyMemory codec r raw body
unfolding compressed
compressed-plain codec r raw body plain same = record {
  mem = cstr raw;
  rest = 0 ∷ [];
  run = simp (plain, same);
  front = ap (λ s. s ++ (0 ∷ [])) (sym same);
}

compressed-chosen :
    (codec : Codec) (r : Request) (raw body : Bytes) (result : Option Bytes)
    → (r.is_gziped || r.is_deflated) ≡ true
    → codec.compress raw (method_of r.is_gziped) ≡ done result
    → body ≡ chosen result raw
    → BodyMemory codec r raw body
unfolding compressed
compressed-chosen codec r raw body none wanted run same = record {
  mem = cstr raw;
  rest = 0 ∷ [];
  run = simp (wanted, read-append raw (0 ∷ []), run, same);
  front = ap (λ s. s ++ (0 ∷ [])) (sym same);
}
compressed-chosen codec r raw body (some []) wanted run same = record {
  mem = cstr raw;
  rest = 0 ∷ [];
  run = simp (wanted, read-append raw (0 ∷ []), run, same);
  front = ap (λ s. s ++ (0 ∷ [])) (sym same);
}
compressed-chosen codec r raw body (some (c ∷ out)) wanted run same = record {
  mem = c ∷ out;
  rest = [];
  run =
      simp (wanted, read-append raw (0 ∷ []), run, same, lt→ltb 0 (length (c ∷ out)) (omega arith));
  front = sym same ∙ sym (append-nil body);
}

Sends-BodyMemory :
    (codec : Codec) (r : Request) (raw body : Bytes)
    → Sends codec r raw body
    → BodyMemory codec r raw body
Sends-BodyMemory codec r raw body (inl (plain, same)) = compressed-plain codec r raw body plain same
Sends-BodyMemory codec r raw body (inr (result, wanted, run, same)) =
    compressed-chosen codec r raw body result wanted run same

form-pos : (q : Field) (qs : List Field) → 0 < length (form (q ∷ qs))
form-pos q qs = omega (arith, total-lead ampersand equals q qs)

chosen-pos : (result : Option Bytes) (raw : Bytes) → 0 < length raw → 0 < length (chosen result raw)
chosen-pos none raw pos = pos
chosen-pos (some []) raw pos = pos
chosen-pos (some (c ∷ out)) raw pos = omega arith

Sends-pos :
    (codec : Codec) (r : Request) (raw body : Bytes)
    → Sends codec r raw body
    → 0 < length raw
    → 0 < length body
Sends-pos codec r raw body (inl (plain, same)) pos = omega (arith, ap length same, pos)
Sends-pos codec r raw body (inr (result, wanted, run, same)) pos =
    omega (arith, ap length same, chosen-pos result raw pos)

create_url_encoded_parameters-form :
    (codec : Codec) (r : Request) (fs : List Field) (q : Field) (qs : List Field) (body : Bytes)
    → StoresAll r.http_headers (texts fs)
    → StoresAll r.parameters (texts (q ∷ qs))
    → total 2 (q ∷ qs) < 2 ^ 64
    → (sent : BodyMemory codec r (form (q ∷ qs)) body)
    → create_url_encoded_parameters codec r
      ≡ done (with_body_headers url_encoded_type (length body) r, some sent.mem, length body)
unfolding create_url_encoded_parameters
create_url_encoded_parameters-form codec r fs q qs body headers params fits sent =
    let fields =
      add_body_headers r (texts fs) url_encoded_type (length body) headers (omega arith) (cc) in
    simp (
      strings_of-url_encoded_parameters (q ∷ qs) r.parameters params fits,
      sent.run,
      print_local_lem 24 (decimal (length body)) (omega (arith, length-decimal (length body))),
      fields.0,
      fields.1,
    )

-- For a request without data parameters but with one or more text parameters, whose path, host,
-- header fields and parameters are stored, with sizes that together with the body's add up to less
-- than 2^64 - 512, `nhr_request_create_header_POST` succeeds: it writes nothing outside its buffers,
-- and it returns the request line, the Host line, the header block with Content-Type and the exact
-- Content-Length of the body, and the body, followed by an empty line, with the length of it all. The
-- body is the parameters as `name=value` separated by `&`; if the request is to be compressed, it is
-- what the compression makes of these, or these if the compression fails or returns nothing.
pub create_header_post-form :
    (codec : Codec) (r : Request) (path host : Bytes) (fs : List Field) (q : Field)
    (qs : List Field) (body : Bytes)
    → Heads r path host fs
    → StoresAll r.parameters (texts (q ∷ qs))
    → r.is_have_data_parameter ≡ false
    → Sends codec r (form (q ∷ qs)) body
    → length path + length host + total 4 fs + total 2 (q ∷ qs) + length body + 512 < 2 ^ 64
    → create_header_post codec r
      ≡ done (
        with_body_headers url_encoded_type (length body) r,
        cstr (form_message path host r.port fs body),
        length (form_message path host r.port fs body),
      )
create_header_post-form codec r path host fs q qs body heads params no_data sends fits =
    let memory = Sends-BodyMemory codec r (form (q ∷ qs)) body sends in
    let sent = body_fields fs url_encoded_type (length body) in
    let r' = with_body_headers url_encoded_type (length body) r in
    let heads' : Heads r' path host sent = record {
      path_is = heads.path_is;
      host_is = heads.host_is;
      path_text = heads.path_text;
      host_text = heads.host_text;
      headers =
          body_fields-stored r fs url_encoded_type (length body) heads.headers (omega arith) (cc);
    } in
    let more = total-append 4 fs (
      (codes "Content-Type", url_encoded_type)
      ∷ (content_length_name, decimal (length body))
      ∷ []) in
    let small : total 4 sent < total 4 fs + 140 =
      omega (arith, more, length-decimal (length body)) in
    let made =
      ap (λ has. if has then create_data_parameters r else create_url_encoded_parameters codec r)
        no_data
      ∙ create_url_encoded_parameters-form codec r fs q qs body heads.headers params (omega arith)
          memory in
    create_header_post-body codec r r' path host fs sent memory.mem body memory.rest heads heads'
      made memory.front (Sends-pos codec r (form (q ∷ qs)) body sends (form-pos q qs))
      (omega (arith, small)) (omega (arith, small, length-printed_headers sent))
