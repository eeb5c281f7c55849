-- ===== src/Request/Files.antt =====
-- The boundary of a multipart body, and what adding a file to a request does.
use libnhr.Base.{
  ℕ, zero, suc, ◌%◌, ◌<◌, ◌≡◌, ◌≢◌, refl, sym, ap, ◌∙◌, arith, none, some, Bool, true, ◌&&◌, List,
  [], ◌∷◌, ◌++◌, length, ne→==,
}
use libnhr.Exec.{done}
use libnhr.Clib.Memory.{Bytes, read, read-append, read_self}
use libnhr.Clib.Strings.{cstr, NoNul, is_alnum}
use libnhr.Heap.{len_of-cstr, string_copy_len, string_copy_len-cstr}
use libnhr.Map.{Node, zero_node}
use libnhr.Map.Stores.{Param, file_param, IsFile, StoresAll, StoresAll-append, add_lem}
use libnhr.Request.{Request}
use libnhr.Request.Fields.{length-ne_zero}
use libnhr.Request.Public.{
  fill_data, charset, charset_at, boundary_from, boundary_len, generate_new_boundary,
  append_data_parameter, add_data,
}

-- letters and digits only
abbrev pub all_alnum : Bytes → Bool
all_alnum [] = true
all_alnum (c ∷ s) = is_alnum c && all_alnum s

charset_at-alnum :
    (i : ℕ) (s : Bytes) → all_alnum s ≡ true → i < length s → is_alnum (charset_at i s) ≡ true
unfolding charset_at
charset_at-alnum i [] h less = absurd (omega arith)
charset_at-alnum zero (c ∷ s) h less = ground arith
charset_at-alnum (suc i) (c ∷ s) h less = charset_at-alnum i s (ground (arith, h)) (omega arith)

boundary_from-alnum : (rand : ℕ → ℕ) (i count : ℕ) → all_alnum (boundary_from rand i count) ≡ true
unfolding boundary_from
boundary_from-alnum rand i zero = refl
boundary_from-alnum rand i (suc count) = simp (
  charset_at-alnum (rand i % 62) charset refl (omega arith),
  boundary_from-alnum rand (suc i) count,
)

length-boundary_from : (rand : ℕ → ℕ) (i count : ℕ) → length (boundary_from rand i count) ≡ count
unfolding boundary_from
length-boundary_from rand i zero = refl
length-boundary_from rand i (suc count) = ap suc (length-boundary_from rand (suc i) count)

alnum-NoNul : (s : Bytes) → all_alnum s ≡ true → NoNul s
alnum-NoNul [] h = tt
alnum-NoNul (c ∷ s) h = (ground (arith, h), alnum-NoNul s (ground (arith, h)))

-- the twelve characters that are made of the random numbers
abbrev pub new_boundary : (ℕ → ℕ) → Bytes
new_boundary rand = boundary_from rand 0 boundary_len

abbrev pub file_node : Bytes → Bytes → Bytes → Node
file_node name file content =
    fill_data (some (cstr name)) (some (cstr file)) (length file) content zero_node

file_node-IsFile :
    (name file content : Bytes)
    → NoNul name
    → NoNul file
    → IsFile (file_node name file content) name file content
file_node-IsFile name file content hn hf = record {
  key_is = refl;
  value_is = refl;
  reserved_is = refl;
  value_size_is = refl;
  reserved_size_is = refl;
  value_type_is = refl;
  name_text = hn;
  file_text = hf;
}

-- the request with one more file, and with a boundary
abbrev pub with_file : Bytes → Node → Request → Request
with_file boundary n r = record r {
  parameters = r.parameters ++ (n ∷ []);
  is_have_data_parameter = true;
  boundary = some (cstr boundary);
}

generate_new_boundary_lem :
    (rand : ℕ → ℕ) (r : Request)
    → generate_new_boundary rand r ≡ done (record r { boundary = some (cstr (new_boundary rand)) })
unfolding generate_new_boundary string_copy_len
generate_new_boundary_lem rand r =
    let len = length-boundary_from rand 0 12 in
    let copied : read 12 (new_boundary rand) ≡ done (new_boundary rand) =
      ap (λ n. read n (new_boundary rand)) (sym len) ∙ read_self (new_boundary rand) in
    simp copied

module _ (rand : ℕ → ℕ) (r : Request) (name file content rest : Bytes) (hn : NoNul name)
    (hf : NoNul file) (ne_name : name ≢ []) (ne_file : file ≢ []) (ne_content : content ≢ []) where
  -- A file with a name, a file name and one or more bytes of any value as content is put at the end of
  -- the parameters of a request with a method and no boundary yet, with its own copies of all three,
  -- also if there is a NUL in the content. The request gets a boundary of 12 letters and digits, whatever the random
  -- numbers are, and takes the multipart form from then on; nothing else of it changes.
  pub add_data-with_file :
      (ps : List Param)
      → StoresAll r.parameters ps
      → r.method ≢ 0
      → r.boundary ≡ none
      → let b = new_boundary rand in
        let r' = with_file b (file_node name file content) r in
        (add_data rand
            (some (cstr name))
            (some (cstr file))
            (some (content ++ rest))
            (length content)
            r
          ≡ done r')
        × StoresAll r'.parameters (ps ++ (file_param name file content ∷ []))
        × (length b ≡ 12)
        × (all_alnum b ≡ true)
        × NoNul b
  unfolding add_data append_data_parameter
  add_data-with_file ps h method no_boundary = (
    simp (
      len_of-cstr name hn,
      len_of-cstr file hf,
      ne→== (length content) 0 (length-ne_zero content ne_content),
      ne→== (length name) 0 (length-ne_zero name ne_name),
      ne→== (length file) 0 (length-ne_zero file ne_file),
      ne→== r.method 0 method,
      read-append content rest,
      string_copy_len-cstr name (0 ∷ []) ne_name,
      string_copy_len-cstr file (0 ∷ []) ne_file,
      add_lem (fill_data (some (cstr name)) (some (cstr file)) (length file) content) r.parameters
          ps h,
      no_boundary,
      generate_new_boundary_lem,
    ),
    StoresAll-append r.parameters ps _ _ h (file_node-IsFile name file content hn hf),
    length-boundary_from rand 0 12,
    boundary_from-alnum rand 0 12,
    alnum-NoNul (new_boundary rand) (boundary_from-alnum rand 0 12),
  )
