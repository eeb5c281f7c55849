-- ===== src/Request/Fields.antt =====
-- What the functions that add header fields and parameters do to a request.
use libnhr.Base.{
  ◌≡◌, ◌≢◌, refl, arith, some, Bool, true, false, ◌||◌, List, [], ◌∷◌, ◌++◌, length, if◌then◌else◌,
  ◌==◌, ne→==,
}
use libnhr.Exec.{done}
use libnhr.Clib.Memory.{Bytes}
use libnhr.Clib.Strings.{cstr, NoNul, begins, strcmp_eq}
use libnhr.Heap.{len_of-cstr, string_copy_len-cstr}
use libnhr.Map.{Node, zero_node}
use libnhr.Map.Stores.{Param, text_param, IsText, StoresAll, StoresAll-append, add_lem}
use libnhr.Response.Header.{gzip_word, deflate_word}
use libnhr.Request.{Request}
use libnhr.Request.Public.{fill_text, add_header, add_text}

-- Are two texts the same?
abbrev pub same : Bytes → Bytes → Bool
same [] [] = true
same [] (d ∷ t) = false
same (c ∷ s) [] = false
same (c ∷ s) (d ∷ t) = if c == d then same s t else false

begins-same : (w s : Bytes) → NoNul w → NoNul s → begins (cstr w) (cstr s) ≡ done (same w s)
unfolding begins
begins-same [] [] hw hs = refl
begins-same [] (c ∷ s) hw hs = ground arith
begins-same (d ∷ w) [] hw hs = ground arith
begins-same (d ∷ w) (c ∷ s) hw hs = ground (arith, begins-same w s hw.1 hs.1)

strcmp_eq-same : (s w : Bytes) → NoNul w → NoNul s → strcmp_eq (cstr s) w ≡ done (same w s)
unfolding strcmp_eq
strcmp_eq-same s w hw hs = begins-same w s hw hs

-- the node that a name and a text fill
abbrev pub text_node : Bytes → Bytes → Node
text_node name value = fill_text (some (cstr name)) (some (cstr value)) (length value) zero_node

pub text_node-IsText :
    (name value : Bytes) → NoNul name → NoNul value → IsText (text_node name value) name value
text_node-IsText name value hn hv = record {
  key_is = refl;
  value_is = refl;
  reserved_is = refl;
  value_size_is = refl;
  reserved_size_is = refl;
  value_type_is = refl;
  name_text = hn;
  value_text = hv;
}

pub length-ne_zero : (s : Bytes) → s ≢ [] → length s ≢ 0
length-ne_zero [] h = absurd (h refl)
length-ne_zero (c ∷ s) h = omega arith

-- the request with one more header field, as the text of its value tells the compression
abbrev pub with_header : Bytes → Bytes → Request → Request
with_header name value r = record r {
  http_headers = r.http_headers ++ (text_node name value ∷ []);
  is_gziped = r.is_gziped || same gzip_word value;
  is_deflated = r.is_deflated || same deflate_word value;
}

abbrev pub with_parameter : Node → Request → Request
with_parameter n r = record r { parameters = r.parameters ++ (n ∷ []) }

module _ (r : Request) (name value : Bytes) (hn : NoNul name) (hv : NoNul value)
    (ne_name : name ≢ []) (ne_value : value ≢ []) where
  -- A header field with a name and a value that are not empty is put at the end of the headers, with
  -- its own copies of both; a value "gzip" or "deflate" sets the flag of that compression; nothing
  -- else of the request changes.
  pub add_header-with_header :
      (ps : List Param)
      → StoresAll r.http_headers ps
      → (add_header (some (cstr name)) (some (cstr value)) r ≡ done (with_header name value r))
        × StoresAll (with_header name value r).http_headers (ps ++ (text_param name value ∷ []))
  unfolding add_header
  add_header-with_header ps h = (
    simp (
      len_of-cstr name hn,
      len_of-cstr value hv,
      ne→== (length name) 0 (length-ne_zero name ne_name),
      ne→== (length value) 0 (length-ne_zero value ne_value),
      string_copy_len-cstr name (0 ∷ []) ne_name,
      string_copy_len-cstr value (0 ∷ []) ne_value,
      add_lem (fill_text (some (cstr name)) (some (cstr value)) (length value)) r.http_headers ps h,
      strcmp_eq-same value gzip_word (omega arith) hv,
      strcmp_eq-same value deflate_word (omega arith) hv,
    ),
    StoresAll-append r.http_headers ps _ _ h (text_node-IsText name value hn hv),
  )

  -- A text parameter is put at the end of the parameters, with its own copies of name and value, if
  -- the method was set before.
  pub add_text-with_parameter :
      (ps : List Param)
      → StoresAll r.parameters ps
      → r.method ≢ 0
      → (add_text (some (cstr name)) (some (cstr value)) r
          ≡ done (with_parameter (text_node name value) r))
        × StoresAll
            (with_parameter (text_node name value) r).parameters
            (ps ++ (text_param name value ∷ []))
  unfolding add_text
  add_text-with_parameter ps h method = (
    simp (
      len_of-cstr name hn,
      len_of-cstr value hv,
      ne→== (length name) 0 (length-ne_zero name ne_name),
      ne→== (length value) 0 (length-ne_zero value ne_value),
      ne→== r.method 0 method,
      string_copy_len-cstr name (0 ∷ []) ne_name,
      string_copy_len-cstr value (0 ∷ []) ne_value,
      add_lem (fill_text (some (cstr name)) (some (cstr value)) (length value)) r.parameters ps h,
    ),
    StoresAll-append r.parameters ps _ _ h (text_node-IsText name value hn hv),
  )
