-- ===== src/Request/Message/Parts.antt =====
-- One part of a multipart body, and the sequence of parts.
use libnhr.Base.{
  ℕ, ◌+◌, ◌^◌, ◌<◌, ◌≡◌, ap, ◌∙◌, arith, Bool, true, false, List, [], ◌∷◌, ◌++◌, length,
  length-append, append_assoc,
}
use libnhr.Exec.{done}
use libnhr.Clib.Memory.{Bytes, read-append, read_self}
use libnhr.Clib.Strings.{codes, text-append, strlen-append}
use libnhr.Clib.Print.{Buffer, print_lem, copy_lem}
use libnhr.Map.{Node}
use libnhr.Map.Stores.{Param, text_param, file_param, IsText, IsFile, Stores, StoresAll}
use libnhr.Response.Chunks.{crlf}
use libnhr.Request.Post.Multipart.{
  params_length_from, disposition, file_name_part, octet_stream, binary_encoding, print_file,
  print_text,
}

abbrev pub text_part : Bytes → Bytes → Bytes
text_part name value = disposition ++ (name ++ (codes "\"\r\n\r\n" ++ value))

abbrev pub file_part : Bytes → Bytes → Bytes → Bytes
file_part name file content =
    disposition
    ++ (name
        ++ (file_name_part
            ++ (file ++ (codes "\"\r\n" ++ (octet_stream ++ (binary_encoding ++ content))))))

abbrev pub part_content : Param → Bytes
part_content (text_param name value) = text_part name value
part_content (file_param name file content) = file_part name file content

-- what separates a part from the one before it
abbrev pub separator : Bool → Bytes
separator true = []
separator false = crlf

abbrev pub parts : Bytes → Bool → List Param → Bytes
parts boundary is_first [] = []
parts boundary is_first (p ∷ ps) =
    separator is_first
    ++ ((codes "--" ++ (boundary ++ crlf)) ++ (part_content p ++ parts boundary false ps))

-- what the measuring loop adds for a part
abbrev pub weight : Param → ℕ
weight (text_param name value) = length name + length value + 62
weight (file_param name file content) = length name + length content + length file + 150

abbrev pub weights : List Param → ℕ
weights [] = 0
weights (p ∷ ps) = weight p + weights ps

params_length-step :
    (n : Node) (p : Param) (ns : List Node) (len : ℕ)
    → Stores n p
    → len + weight p < 2 ^ 64
    → params_length_from len (n ∷ ns) ≡ params_length_from (len + weight p) ns
unfolding params_length_from
params_length-step n (text_param k v) ns len s fits =
    simp
      (
        s.key_is,
        s.value_size_is,
        s.reserved_size_is,
        s.value_type_is,
        strlen-append k [] s.name_text,
      )
      (ap (λ l. params_length_from l ns) (omega arith))
params_length-step n (file_param k f c) ns len s fits =
    simp
      (
        s.key_is,
        s.value_size_is,
        s.reserved_size_is,
        s.value_type_is,
        strlen-append k [] s.name_text,
      )
      (ap (λ l. params_length_from l ns) (omega arith))

pub params_length_from-weights :
    (ps : List Param) (ns : List Node) (len : ℕ)
    → StoresAll ns ps
    → len + weights ps < 2 ^ 64
    → params_length_from len ns ≡ done (len + weights ps)
params_length_from-weights [] [] len h fits = unfold params_length_from in ap done (omega arith)
params_length_from-weights [] (n ∷ ns) len h fits = elim h [ ]
params_length_from-weights (p ∷ ps) [] len h fits = elim h [ ]
params_length_from-weights (p ∷ ps) (n ∷ ns) len h fits =
    params_length-step n p ns len h.0 (omega arith)
    ∙ params_length_from-weights ps ns (len + weight p) h.1 (omega arith)
    ∙ ap done (omega arith)

pub length-text_part :
    (name value : Bytes) → length (text_part name value) ≡ length name + length value + 43
length-text_part name value = omega (arith, length-append name (codes "\"\r\n\r\n" ++ value))

pub length-file_part :
    (name file content : Bytes)
    → length (file_part name file content) ≡ length name + length file + length content + 131
length-file_part name file content =
    let end = codes "\"\r\n" ++ (octet_stream ++ (binary_encoding ++ content)) in
    omega (arith, length-append name (file_name_part ++ (file ++ end)), length-append file end)

pub print_text-part :
    (n : Node) (k v : Bytes) (b : Buffer)
    → IsText n k v
    → length b.text + length (text_part k v) < b.cap
    → print_text n b ≡ done (record { cap = b.cap; text = b.text ++ text_part k v })
unfolding print_text
print_text-part n k v b s fits =
    let named = disposition ++ (k ++ codes "\"\r\n\r\n") in
    let whole = length-text_part k v in
    let front = length-append k (codes "\"\r\n\r\n") in
    let grown = length-append b.text named in
    simp (
      s.key_is,
      s.value_is,
      s.value_size_is,
      text-append k [] s.name_text,
      read-append v (0 ∷ []),
      print_lem named b (omega (arith, whole, front)),
      copy_lem v (record { cap = b.cap; text = b.text ++ named })
          (omega (arith, whole, front, grown)),
      append_assoc,
    )

pub print_file-part :
    (n : Node) (k f c : Bytes) (b : Buffer)
    → IsFile n k f c
    → length b.text + length (file_part k f c) < b.cap
    → print_file n b ≡ done (record { cap = b.cap; text = b.text ++ file_part k f c })
unfolding print_file
print_file-part n k f c b s fits =
    let named = disposition ++ (k ++ (file_name_part ++ (f ++ codes "\"\r\n"))) in
    let typed = b.text ++ named in
    let encoded = typed ++ octet_stream in
    let filled = encoded ++ binary_encoding in
    let whole = length-file_part k f c in
    let front = length-append k (file_name_part ++ (f ++ codes "\"\r\n")) in
    let inner = length-append f (codes "\"\r\n") in
    let g1 = length-append b.text named in
    let g2 = length-append typed octet_stream in
    let g3 = length-append encoded binary_encoding in
    simp
      (
        s.key_is,
        s.value_is,
        s.reserved_is,
        s.value_size_is,
        text-append k [] s.name_text,
        text-append f [] s.file_text,
        read_self c,
        print_lem named b (omega (arith, whole, front, inner)),
        copy_lem octet_stream (record { cap = b.cap; text = typed })
            (omega (arith, whole, front, inner, g1)),
        copy_lem binary_encoding (record { cap = b.cap; text = encoded })
            (omega (arith, whole, front, inner, g1, g2)),
        copy_lem c (record { cap = b.cap; text = filled })
            (omega (arith, whole, front, inner, g1, g2, g3)),
      )
      (simp append_assoc)
