-- ===== src/Request/Message/MultipartText.antt =====
-- The parts that `nhr_request_create_data_parameters_POST` prints.
use libnhr.Base.{
  ◌+◌, ◌≤◌, ◌<◌, ◌≡◌, ◌∙◌, arith, Bool, true, false, List, [], ◌∷◌, ◌++◌, length, length-append,
  append_assoc, append-nil,
}
use libnhr.Exec.{done}
use libnhr.Clib.Memory.{Bytes}
use libnhr.Clib.Strings.{codes, cstr, NoNul, text-append}
use libnhr.Clib.Print.{Buffer, print_lem, copy_lem}
use libnhr.Map.{Node}
use libnhr.Map.Stores.{Param, text_param, file_param, Stores, StoresAll}
use libnhr.Response.Chunks.{crlf}
use libnhr.Request.Post.Multipart.{print_content, print_part, print_parts}
use libnhr.Request.Message.Parts.{
  part_content, separator, parts, weight, weights, print_text-part, print_file-part,
  length-text_part, length-file_part,
}

length-part_content : (p : Param) → length (part_content p) + 19 ≤ weight p
length-part_content (text_param k v) = omega (arith, length-text_part k v)
length-part_content (file_param k f c) = omega (arith, length-file_part k f c)

print_content-part :
    (n : Node) (p : Param) (b : Buffer)
    → Stores n p
    → length b.text + length (part_content p) < b.cap
    → print_content n b ≡ done (record { cap = b.cap; text = b.text ++ part_content p })
unfolding print_content
print_content-part n (text_param k v) b s fits =
    simp s.value_type_is (print_text-part n k v b s fits)
print_content-part n (file_param k f c) b s fits =
    simp s.value_type_is (print_file-part n k f c b s fits)

module _ (boundary : Bytes) (string : NoNul boundary) (twelve : length boundary ≡ 12) where
  abbrev opening : Bytes
  opening = codes "--" ++ (boundary ++ crlf)

  pub length-parts :
      (is_first : Bool) (ps : List Param) → length (parts boundary is_first ps) ≤ weights ps
  length-parts is_first [] = omega arith
  length-parts is_first (p ∷ ps) =
      let inner = part_content p ++ parts boundary false ps in
      ground (
        arith,
        length-append (separator is_first) (opening ++ inner),
        length-append opening inner,
        length-append boundary crlf,
        length-append (part_content p) (parts boundary false ps),
        length-part_content p,
        length-parts false ps,
      )

  print_part-content :
      (is_first : Bool) (n : Node) (p : Param) (b : Buffer)
      → Stores n p
      → length b.text + weight p ≤ b.cap
      → print_part (cstr boundary) is_first n b
        ≡ done (record {
          cap = b.cap;
          text = ((b.text ++ separator is_first) ++ opening) ++ part_content p;
        })
  unfolding print_part
  print_part-content true n p b s fits =
      let content = length-part_content p in
      let front = length-append b.text opening in
      let around = length-append boundary crlf in
      simp (
        append-nil,
        text-append boundary [] string,
        print_lem opening b (omega (arith, content, around)),
        print_content-part n p (record { cap = b.cap; text = b.text ++ opening }) s
            (omega (arith, content, around, front)),
      )
  print_part-content false n p b s fits =
      let content = length-part_content p in
      let apart = b.text ++ crlf in
      let gap = length-append b.text crlf in
      let front = length-append apart opening in
      let around = length-append boundary crlf in
      simp (
        text-append boundary [] string,
        copy_lem crlf b (omega (arith, content)),
        print_lem opening (record { cap = b.cap; text = apart })
            (omega (arith, content, around, gap)),
        print_content-part n p (record { cap = b.cap; text = apart ++ opening }) s
            (omega (arith, content, around, gap, front)),
      )

  pub print_parts-parts :
      (is_first : Bool) (ps : List Param) (ns : List Node) (b : Buffer)
      → StoresAll ns ps
      → length b.text + weights ps ≤ b.cap
      → print_parts (cstr boundary) is_first ns b
        ≡ done (record { cap = b.cap; text = b.text ++ parts boundary is_first ps })
  unfolding print_parts
  print_parts-parts is_first [] [] b h fits = rw append-nil
  print_parts-parts is_first [] (n ∷ ns) b h fits = elim h [ ]
  print_parts-parts is_first (p ∷ ps) [] b h fits = elim h [ ]
  print_parts-parts is_first (p ∷ ps) (n ∷ ns) b h fits =
      let apart = b.text ++ separator is_first in
      let filled = (apart ++ opening) ++ part_content p in
      let grown : length filled ≤ length b.text + weight p = ground (
        arith,
        length-append b.text (separator is_first),
        length-append apart opening,
        length-append boundary crlf,
        length-append (apart ++ opening) (part_content p),
        length-part_content p,
      ) in
      rw (print_part-content is_first n p b h.0 (omega arith)) (
        print_parts-parts false ps ns (record { cap = b.cap; text = filled }) h.1
          (omega (arith, grown))
        ∙ simp append_assoc)
