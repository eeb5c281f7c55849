-- ===== src/Request/Message/PostText.antt =====
-- The texts of a POST message, and the parts of it that the builder prints.
use libnhr.Base.{
  ℕ, ◌+◌, ◌≤◌, ◌<◌, ◌≡◌, ◌≢◌, refl, ap, subst, arith, some, true, List, [], ◌∷◌, ◌++◌, length,
  length-append, append_assoc, lt→ltb,
}
use libnhr.Exec.{done}
use libnhr.Clib.Memory.{Bytes, read-append}
use libnhr.Clib.Strings.{codes, cstr, NoNul, text-append}
use libnhr.Clib.Decimal.{decimal}
use libnhr.Clib.Print.{Buffer, print_lem, copy_lem}
use libnhr.Map.Stores.{Param, text_param, StoresAll}
use libnhr.Response.Chunks.{crlf, double_crlf}
use libnhr.Response.Header.{content_length_name}
use libnhr.Request.{Request}
use libnhr.Request.Pairs.{colon}
use libnhr.Request.Post.{print_post_line, copy_body}
use libnhr.Request.Render.{Field, texts, total}
use libnhr.Request.Message.{host_line, header_block, printed, length-header_block, length-host_line}
use libnhr.Request.Message.Parts.{parts}
use libnhr.Request.Message.MultipartBody.{multipart, with_body_headers, add_body_headers}

-- the header fields with the two of the body
abbrev pub body_fields : List Field → Bytes → ℕ → List Field
body_fields fs content_type n =
    fs ++ ((codes "Content-Type", content_type) ∷ (content_length_name, decimal n) ∷ [])

abbrev pub post_line : Bytes → Bytes
post_line path = codes "POST " ++ (path ++ codes " HTTP/1.1\r\n")

abbrev pub post_head : Bytes → Bytes → ℕ → List Field → Bytes
post_head path host port fs = (post_line path ++ host_line host port) ++ header_block fs

abbrev pub post_message : Bytes → Bytes → ℕ → List Field → Bytes → Bytes
post_message path host port fs body = (post_head path host port fs ++ body) ++ double_crlf

-- the body at the front of its memory
pub copy_body-body :
    (mem body rest : Bytes) (b : Buffer)
    → mem ≡ body ++ rest
    → 0 < length body
    → length b.text + length body + 4 ≤ b.cap
    → copy_body (some mem) (length body) b
      ≡ done (record { cap = b.cap; text = (b.text ++ body) ++ double_crlf })
unfolding copy_body
copy_body-body mem body rest b front pos fits = simp (
  front,
  lt→ltb 0 (length body) pos,
  read-append body rest,
  copy_lem body b (omega arith),
  copy_lem double_crlf (record { cap = b.cap; text = b.text ++ body })
      (omega (arith, length-append b.text body)),
)

pub print_post_line_lem :
    (r : Request) (path : Bytes) (b : Buffer)
    → r.path ≡ some (cstr path)
    → NoNul path
    → length b.text + length (post_line path) < b.cap
    → print_post_line r b ≡ done (record { cap = b.cap; text = b.text ++ post_line path })
unfolding print_post_line
print_post_line_lem r path b is_path ok fits =
    simp (is_path, text-append path [] ok) (print_lem (post_line path) b fits)

texts-append : (fs gs : List Field) → texts (fs ++ gs) ≡ texts fs ++ texts gs
texts-append [] gs = refl
texts-append ((k, v) ∷ fs) gs = ap (◌∷◌ (text_param k v)) (texts-append fs gs)

pub total-append :
    (increment : ℕ) (fs gs : List Field)
    → total increment (fs ++ gs) ≡ total increment fs + total increment gs
total-append increment [] gs = omega arith
total-append increment ((k, v) ∷ fs) gs = omega (arith, total-append increment fs gs)

pub body_fields-stored :
    (r : Request) (fs : List Field) (content_type : Bytes) (n : ℕ)
    → StoresAll r.http_headers (texts fs)
    → NoNul content_type
    → content_type ≢ []
    → StoresAll
        (with_body_headers content_type n r).http_headers
        (texts (body_fields fs content_type n))
body_fields-stored r fs content_type n h string ne =
    let all = (add_body_headers r (texts fs) content_type n h string ne).2 in
    rw texts-append (
      subst (λ ps. StoresAll (with_body_headers content_type n r).http_headers ps)
        (append_assoc (texts fs) (text_param (codes "Content-Type") content_type ∷ [])
          (text_param content_length_name (decimal n) ∷ []))
        all)

pub multipart-pos : (boundary : Bytes) (ps : List Param) → 0 < length (multipart boundary ps)
multipart-pos boundary ps =
    omega
      (arith, length-append (parts boundary true ps) (codes "\r\n--" ++ (boundary ++ codes "--")))

-- The sizes of a whole message against the size that the builder computes.
pub length-post_message :
    (path host : Bytes) (port : ℕ) (fs : List Field) (body : Bytes)
    → length (post_message path host port fs body)
      < length path + length host + length body + (printed crlf colon fs).1 + 256
length-post_message path host port fs body = omega (
  arith,
  length-append (post_head path host port fs ++ body) double_crlf,
  length-append (post_head path host port fs) body,
  length-append (post_line path ++ host_line host port) (header_block fs),
  length-append (post_line path) (host_line host port),
  length-append path (codes " HTTP/1.1\r\n"),
  length-host_line host port,
  length-header_block fs,
)
