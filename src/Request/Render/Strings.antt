-- ===== src/Request/Render/Strings.antt =====
-- `nhr_request_http_headers` and `nhr_request_url_encoded_parameters` against their text.
use libnhr.Base.{
  ℕ, ◌+◌, ◌^◌, ◌<◌, ◌≡◌, ap, ◌∙◌, arith, some, List, [], ◌∷◌, ◌++◌, length, length-append, lt→ltb,
  ne→==,
}
use libnhr.Exec.{done}
use libnhr.Clib.Memory.{Bytes}
use libnhr.Clib.Strings.{cstr, NoNul, NoNul-append}
use libnhr.Clib.Print.{close_lem}
use libnhr.Map.{Node}
use libnhr.Map.Stores.{StoresAll}
use libnhr.Response.Chunks.{crlf}
use libnhr.Request.Pairs.{
  map_strings_length, http_headers, url_encoded_parameters, colon, ampersand, equals,
}
use libnhr.Request.Render.{
  Field, texts, led, joined, total, strings_length_from-total, length-led, print_pairs-joined,
}

pub total-lead :
    (lead middle : Bytes) (f : Field) (fs : List Field)
    → length (joined lead middle (f ∷ fs)) + length lead
      ≡ total (length lead + length middle) (f ∷ fs)
total-lead lead middle (k, v) fs = omega (
  arith,
  length-append (k ++ (middle ++ v)) (led lead middle fs),
  length-append k (middle ++ v),
  length-append middle v,
  length-led lead middle fs,
)

map_strings_length-total :
    (fs : List Field) (ns : List Node) (increment : ℕ)
    → StoresAll ns (texts fs)
    → total increment fs < 2 ^ 64
    → map_strings_length ns increment ≡ done (total increment fs)
unfolding map_strings_length
map_strings_length-total fs ns increment h fits =
    strings_length_from-total fs ns 0 increment h (omega arith) ∙ ap done (omega arith)

-- For a map of one or more texts whose sizes add up below 2^64, `nhr_request_http_headers` succeeds:
-- it writes nothing outside its buffer, its `assert` holds, and it returns the lines `name: value`
-- separated by CRLF, ended by a NUL, with their length.
pub http_headers-joined :
    (f : Field) (fs : List Field) (ns : List Node)
    → StoresAll ns (texts (f ∷ fs))
    → total 4 (f ∷ fs) < 2 ^ 64
    → http_headers ns
      ≡ done (some (cstr (joined crlf colon (f ∷ fs))), length (joined crlf colon (f ∷ fs)))
unfolding http_headers
http_headers-joined f fs ns h fits =
    let size = total-lead crlf colon f fs in
    let whole = joined crlf colon (f ∷ fs) in
    rw (
      map_strings_length-total (f ∷ fs) ns 4 h fits,
      ne→== (total 4 (f ∷ fs)) 0 (omega (arith, size)),
      print_pairs-joined crlf colon (f ∷ fs) ns (total 4 (f ∷ fs)) h (omega arith)
          (omega (arith, size)),
      lt→ltb (length whole) (total 4 (f ∷ fs)) (omega (arith, size)),
      close_lem (record { cap = total 4 (f ∷ fs); text = whole }) (omega (arith, size)),
    )

-- For a map of one or more texts whose sizes add up below 2^64, `nhr_request_url_encoded_parameters`
-- succeeds: it writes nothing outside its buffer, and it returns the texts `name=value` separated by
-- `&`, ended by a NUL, with their length.
pub url_encoded_parameters-joined :
    (f : Field) (fs : List Field) (ns : List Node)
    → StoresAll ns (texts (f ∷ fs))
    → total 2 (f ∷ fs) < 2 ^ 64
    → url_encoded_parameters ns
      ≡ done (
        some (cstr (joined ampersand equals (f ∷ fs))),
        length (joined ampersand equals (f ∷ fs)),
      )
unfolding url_encoded_parameters
url_encoded_parameters-joined f fs ns h fits =
    let size = total-lead ampersand equals f fs in
    let whole = joined ampersand equals (f ∷ fs) in
    rw (
      map_strings_length-total (f ∷ fs) ns 2 h fits,
      ne→== (total 2 (f ∷ fs)) 0 (omega (arith, size)),
      print_pairs-joined ampersand equals (f ∷ fs) ns (total 2 (f ∷ fs)) h (omega arith)
          (omega (arith, size)),
      close_lem (record { cap = total 2 (f ∷ fs); text = whole }) (omega (arith, size)),
    )

NoNul-led :
    (lead middle : Bytes) (fs : List Field) (ns : List Node)
    → NoNul lead
    → NoNul middle
    → StoresAll ns (texts fs)
    → NoNul (led lead middle fs)
NoNul-led lead middle [] ns hl hm h = tt
NoNul-led lead middle (f ∷ fs) [] hl hm h = elim h [ ]
NoNul-led lead middle ((k, v) ∷ fs) (n ∷ ns) hl hm h = NoNul-append lead _ hl (
    NoNul-append (k ++ (middle ++ v)) _
      (NoNul-append k _ h.0.name_text (NoNul-append middle v hm h.0.value_text))
      (NoNul-led lead middle fs ns hl hm h.1))

-- The printed map is a string: there is no NUL inside.
pub NoNul-joined :
    (lead middle : Bytes) (fs : List Field) (ns : List Node)
    → NoNul lead
    → NoNul middle
    → StoresAll ns (texts fs)
    → NoNul (joined lead middle fs)
NoNul-joined lead middle [] ns hl hm h = tt
NoNul-joined lead middle (f ∷ fs) [] hl hm h = elim h [ ]
NoNul-joined lead middle ((k, v) ∷ fs) (n ∷ ns) hl hm h =
    NoNul-append (k ++ (middle ++ v)) _
      (NoNul-append k _ h.0.name_text (NoNul-append middle v hm h.0.value_text))
      (NoNul-led lead middle fs ns hl hm h.1)
