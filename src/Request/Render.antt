-- ===== src/Request/Render.antt =====
-- The loop that prints a map against its text, and that no byte is written outside their buffers.
pub mod Strings
use libnhr.Base.{
  ℕ, zero, suc, ◌+◌, ◌^◌, ◌≤◌, ◌<◌, ◌≡◌, ◌≢◌, refl, ap, ◌∙◌, arith, Option, none, some, Bool, List,
  [], ◌∷◌, ◌++◌, length, length-append, append_assoc, append-nil, if◌then◌else◌, ltb, lt→ltb, ◌==◌,
  ne→==,
}
use libnhr.Exec.{Exec, done, fault, ◌>>=◌}
use libnhr.Clib.Memory.{Bytes, u64, bytes_of}
use libnhr.Clib.Strings.{cstr, NoNul, NoNul-append, strlen, strlen-append, text, text-append}
use libnhr.Clib.Print.{Buffer, empty_buffer, print, print_lem, close, close_lem}
use libnhr.Map.{Node}
use libnhr.Map.Stores.{Param, text_param, IsText, StoresAll}
use libnhr.Response.Chunks.{crlf}
use libnhr.Request.Pairs.{
  strings_length_from, map_strings_length, print_pairs, http_headers, url_encoded_parameters, colon,
  ampersand, equals,
}

-- a name and a value
abbrev pub Field : Type 0
Field = Bytes × Bytes

abbrev pub texts : List Field → List Param
texts [] = []
texts ((k, v) ∷ fs) = text_param k v ∷ texts fs

-- The fields one after the other, `lead` in front of each, `middle` between name and value.
abbrev pub led : Bytes → Bytes → List Field → Bytes
led lead middle [] = []
led lead middle ((k, v) ∷ fs) = lead ++ ((k ++ (middle ++ v)) ++ led lead middle fs)

-- The same with no `lead` in front of the first.
abbrev pub joined : Bytes → Bytes → List Field → Bytes
joined lead middle [] = []
joined lead middle ((k, v) ∷ fs) = (k ++ (middle ++ v)) ++ led lead middle fs

abbrev pub total : ℕ → List Field → ℕ
total increment [] = 0
total increment ((k, v) ∷ fs) = length k + length v + increment + total increment fs

strings_length_from-total :
    (fs : List Field) (ns : List Node) (len increment : ℕ)
    → StoresAll ns (texts fs)
    → len + total increment fs < 2 ^ 64
    → strings_length_from len ns increment ≡ done (len + total increment fs)
unfolding strings_length_from
strings_length_from-total [] [] len increment h fits = ap done (omega arith)
strings_length_from-total [] (n ∷ ns) len increment h fits = elim h [ ]
strings_length_from-total (f ∷ fs) [] len increment h fits = elim h [ ]
strings_length_from-total ((k, v) ∷ fs) (n ∷ ns) len increment h fits =
    let sum : u64 (len + length k + length v + increment) ≡ len + length k + length v + increment =
      omega arith in
    rw
      (
        h.0.key_is,
        h.0.value_is,
        strlen-append k [] h.0.name_text,
        strlen-append v [] h.0.value_text,
        sum,
      )
      (strings_length_from-total fs ns (len + length k + length v + increment) increment h.1
          (omega arith)
        ∙ ap done (omega arith))

module _ (lead middle : Bytes) where
  pub length-led :
      (fs : List Field) → length (led lead middle fs) ≡ total (length lead + length middle) fs
  length-led [] = refl
  length-led ((k, v) ∷ fs) = omega (
    arith,
    length-append lead ((k ++ (middle ++ v)) ++ led lead middle fs),
    length-append (k ++ (middle ++ v)) (led lead middle fs),
    length-append k (middle ++ v),
    length-append middle v,
    length-led fs,
  )

  -- The loop behind its first round.
  print_pairs-led :
      (fs : List Field) (ns : List Node) (cap : ℕ) (s : Bytes)
      → StoresAll ns (texts fs)
      → 0 < length s
      → length s + length (led lead middle fs) < cap
      → print_pairs lead middle ns (record { cap = cap; text = s })
        ≡ done (record { cap = cap; text = s ++ led lead middle fs })
  unfolding print_pairs
  print_pairs-led [] [] cap s h pos fits = rw append-nil
  print_pairs-led [] (n ∷ ns) cap s h pos fits = elim h [ ]
  print_pairs-led (f ∷ fs) [] cap s h pos fits = elim h [ ]
  print_pairs-led ((k, v) ∷ fs) (n ∷ ns) cap s h pos fits =
      let out = lead ++ (k ++ (middle ++ v)) in
      let parts = length-append lead ((k ++ (middle ++ v)) ++ led lead middle fs) in
      let tail = length-append (k ++ (middle ++ v)) (led lead middle fs) in
      let front = length-append lead (k ++ (middle ++ v)) in
      let grown = length-append s out in
      rw
        (
          h.0.key_is,
          h.0.value_is,
          text-append k [] h.0.name_text,
          text-append v [] h.0.value_text,
          lt→ltb 0 (length s) pos,
          print_lem out (record { cap = cap; text = s }) (omega (arith, parts, tail, front)),
        )
        (print_pairs-led fs ns cap (s ++ out) h.1 (omega (arith, grown))
            (omega (arith, parts, tail, front, grown))
          ∙ simp append_assoc)

  print_pairs-joined :
      (fs : List Field) (ns : List Node) (cap : ℕ)
      → StoresAll ns (texts fs)
      → 0 < length middle
      → length (joined lead middle fs) < cap
      → print_pairs lead middle ns (empty_buffer cap)
        ≡ done (record { cap = cap; text = joined lead middle fs })
  unfolding print_pairs
  print_pairs-joined [] [] cap h pos fits = refl
  print_pairs-joined [] (n ∷ ns) cap h pos fits = elim h [ ]
  print_pairs-joined (f ∷ fs) [] cap h pos fits = elim h [ ]
  print_pairs-joined ((k, v) ∷ fs) (n ∷ ns) cap h pos fits =
      let out = k ++ (middle ++ v) in
      let tail = length-append out (led lead middle fs) in
      let inner = length-append k (middle ++ v) in
      let last = length-append middle v in
      rw
        (
          h.0.key_is,
          h.0.value_is,
          text-append k [] h.0.name_text,
          text-append v [] h.0.value_text,
          print_lem out (empty_buffer cap) (omega (arith, tail)),
        )
        (print_pairs-led fs ns cap out h.1 (omega (arith, inner, last)) (omega (arith, tail)))
