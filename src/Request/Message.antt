-- ===== src/Request/Message.antt =====
-- The text of a request's head, as plain concatenations, and the parts of it that the builders print.
pub mod GetText
pub mod FormMessage
pub mod Parts
pub mod PostText
pub mod PostBody
pub mod PostMessage
pub mod MultipartBody
pub mod MultipartText
use libnhr.Base.{
  ℕ, zero, suc, ◌+◌, ◌^◌, ◌≤◌, ◌<◌, ◌≡◌, ◌≢◌, refl, ap, ◌∙◌, arith, Option, none, some, List, [],
  ◌∷◌, ◌++◌, length, length-append, if◌then◌else◌, ltb, lt→ltb, ◌==◌, ne→==, Bool-cases, inl, inr,
}
use libnhr.Exec.{Exec, done, fault, ◌>>=◌}
use libnhr.Clib.Memory.{Bytes, bytes_of}
use libnhr.Clib.Strings.{codes, cstr, NoNul, text, text-append, strlen, strlen-append}
use libnhr.Clib.Decimal.{decimal, length-decimal}
use libnhr.Clib.Print.{Buffer, print, print_lem, copy, copy_lem}
use libnhr.Map.{Node}
use libnhr.Map.Stores.{StoresAll}
use libnhr.Response.Chunks.{crlf, double_crlf}
use libnhr.Request.{Request}
use libnhr.Request.Pairs.{http_headers, url_encoded_parameters, colon, ampersand, equals}
use libnhr.Request.Get.{strings_of, print_host, print_headers}
use libnhr.Request.Render.{Field, texts, joined, total}
use libnhr.Request.Render.Strings.{
  http_headers-joined, url_encoded_parameters-joined, NoNul-joined, total-lead,
}

-- the `Host` line, which leaves port 80 out
abbrev pub host_line : Bytes → ℕ → Bytes
host_line host port =
    if port == 80
    then codes "Host: " ++ (host ++ crlf)
    else codes "Host: " ++ (host ++ (codes ":" ++ (decimal port ++ crlf)))

-- the header lines up to the empty line
abbrev pub header_block : List Field → Bytes
header_block [] = crlf
header_block (f ∷ fs) = joined crlf colon (f ∷ fs) ++ double_crlf

-- what is stored of a printed map, and how long it is
abbrev pub printed : Bytes → Bytes → List Field → Option Bytes × ℕ
printed lead middle [] = (none, 0)
printed lead middle (f ∷ fs) =
    (some (cstr (joined lead middle (f ∷ fs))), length (joined lead middle (f ∷ fs)))

-- A request for a path of a host, with these header fields.
pub record Heads (r : Request) (path host : Bytes) (fs : List Field) : Type 0 where
  pub path_is : r.path ≡ some (cstr path)
  pub host_is : r.host ≡ some (cstr host)
  pub path_text : NoNul path
  pub host_text : NoNul host
  pub headers : StoresAll r.http_headers (texts fs)

pub strings_of-http_headers :
    (fs : List Field) (ns : List Node)
    → StoresAll ns (texts fs)
    → total 4 fs < 2 ^ 64
    → strings_of http_headers ns ≡ done (printed crlf colon fs)
unfolding strings_of
strings_of-http_headers [] [] h fits = refl
strings_of-http_headers [] (n ∷ ns) h fits = elim h [ ]
strings_of-http_headers (f ∷ fs) [] h fits = elim h [ ]
strings_of-http_headers (f ∷ fs) (n ∷ ns) h fits = http_headers-joined f fs (n ∷ ns) h fits

pub strings_of-url_encoded_parameters :
    (fs : List Field) (ns : List Node)
    → StoresAll ns (texts fs)
    → total 2 fs < 2 ^ 64
    → strings_of url_encoded_parameters ns ≡ done (printed ampersand equals fs)
unfolding strings_of
strings_of-url_encoded_parameters [] [] h fits = refl
strings_of-url_encoded_parameters [] (n ∷ ns) h fits = elim h [ ]
strings_of-url_encoded_parameters (f ∷ fs) [] h fits = elim h [ ]
strings_of-url_encoded_parameters (f ∷ fs) (n ∷ ns) h fits =
    url_encoded_parameters-joined f fs (n ∷ ns) h fits

pub length-header_block :
    (fs : List Field) → length (header_block fs) ≤ (printed crlf colon fs).1 + 4
length-header_block [] = omega arith
length-header_block (f ∷ fs) = omega (arith, length-append (joined crlf colon (f ∷ fs)) double_crlf)

pub length-host_line : (host : Bytes) (port : ℕ) → length (host_line host port) ≤ length host + 29
length-host_line host port = ground (
  arith,
  length-append host crlf,
  length-append host (codes ":" ++ (decimal port ++ crlf)),
  length-append (decimal port) crlf,
  length-decimal port,
)

pub length-printed_headers : (fs : List Field) → (printed crlf colon fs).1 ≤ total 4 fs
length-printed_headers [] = omega arith
length-printed_headers (f ∷ fs) = omega (arith, total-lead crlf colon f fs)

pub print_headers-block :
    (fs : List Field) (ns : List Node) (b : Buffer)
    → StoresAll ns (texts fs)
    → length b.text + length (header_block fs) < b.cap
    → print_headers (printed crlf colon fs).0 b
      ≡ done (record { cap = b.cap; text = b.text ++ header_block fs })
unfolding print_headers
print_headers-block [] ns b h fits = copy_lem crlf b (omega arith)
print_headers-block (f ∷ fs) ns b h fits =
    rw
      (text-append (joined crlf colon (f ∷ fs)) []
        (NoNul-joined crlf colon (f ∷ fs) ns (omega arith) (omega arith) h))
      (print_lem (header_block (f ∷ fs)) b fits)

pub print_host-line :
    (r : Request) (host : Bytes) (b : Buffer)
    → r.host ≡ some (cstr host)
    → NoNul host
    → length b.text + length (host_line host r.port) < b.cap
    → print_host r b ≡ done (record { cap = b.cap; text = b.text ++ host_line host r.port })
unfolding print_host
print_host-line r host b is_host ok fits = elim (Bool-cases (r.port == 80)) [
  | inl e ↦ simp (is_host, text-append host [] ok, e) (print_lem _ b (rw e at fits))
  | inr e ↦ simp (is_host, text-append host [] ok, e) (print_lem _ b (rw e at fits))
]
