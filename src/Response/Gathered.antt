-- ===== src/Response/Gathered.antt =====
-- A chunked response while its blocks come, and when its last chunk has come.
use libnhr.Base.{
  ◌||◌, if◌then◌else◌, ℕ, ◌<◌, ◌≡◌, refl, sym, ap, ◌∙◌, arith, true, none, some, [], ◌++◌, length,
  take, lt→ltb,
}
use libnhr.Exec.{done}
use libnhr.Clib.Memory.{Bytes, bytes_of, read_le}
use libnhr.Codec.{Codec, Inflated, method_deflate, method_gzip}
use libnhr.Response.{Response, fix_body_len}
use libnhr.Response.Body.{stored, IsValid, SameHeader, SameHeader-trans, Added, length-stored}
use libnhr.Response.Chunked.{all_read}
use libnhr.Response.Receive.{is_finished_receiving, ungzip, check_is_finished}
use libnhr.Response.Gunzip.{is_set-stored, with_body}
use libnhr.Response.Framed.{Coding, as_is, gzipped, deflated, framed}

-- A chunked response that holds the contents `s` of the chunks so far.
pub record Gathered (code : ℕ) (coding : Coding) (s : Bytes) (r : Response) : Type 0 where
  pub valid : IsValid r
  pub header : SameHeader (framed code coding) r
  pub bytes : stored r ≡ s

-- What these bytes are decompressed to.
abbrev pub Inflates : Codec → ℕ → Bytes → Bytes → Type 0
Inflates codec method s body =
    (out : Inflated) × (codec.decompress s method ≡ done (some out))
    × (0 < length s)
    × (0 < out.size)
    × (take out.size out.mem ≡ body)

-- What the body comes to: the contents, or what they are decompressed to.
abbrev pub Decodes : Codec → Coding → Bytes → Bytes → Type 0
Decodes codec as_is s body = s ≡ body
Decodes codec gzipped s body = Inflates codec method_gzip s body
Decodes codec deflated s body = Inflates codec method_deflate s body

-- A finished response.
pub record Delivered (code : ℕ) (body : Bytes) (r : Response) : Type 0 where
  pub status : r.status_code ≡ code
  pub bytes : stored r ≡ body
  pub finished : r.is_finished ≡ true

pub Gathered-Added :
    (code : ℕ) (coding : Coding) (s t : Bytes) (r r' : Response)
    → Gathered code coding s r
    → Added r r' t
    → Gathered code coding (s ++ t) r'
Gathered-Added code coding s t r r' g a = record {
  valid = a.valid;
  header = SameHeader-trans g.header a.header;
  bytes = a.bytes ∙ rw (g.header.content_length, g.bytes) refl;
}

pub framed-Gathered : (code : ℕ) (coding : Coding) → Gathered code coding [] (framed code coding)
framed-Gathered code coding = record {
  valid = record { allocated = refl; within = omega arith; limited = λ h. omega arith };
  header = record {
    content_length = refl;
    status_code = refl;
    is_chunked = refl;
    is_gzip = refl;
    is_deflate = refl;
    is_all_chunks_processed = refl;
    is_finished = refl;
  };
  bytes = refl;
}

pub fix_body_len_unlimited : (r : Response) → r.content_length ≡ 0 → fix_body_len r ≡ r
unfolding fix_body_len
fix_body_len_unlimited r h = ground (arith, h)

module _ (codec : Codec) (code : ℕ) where
  -- while chunks are missing
  pub check_is_finished-Gathered :
      (coding : Coding) (s : Bytes) (r : Response)
      → Gathered code coding s r
      → check_is_finished codec r ≡ done r
  unfolding check_is_finished is_finished_receiving
  check_is_finished-Gathered coding s r g =
      ground (arith, g.header.is_chunked, g.header.is_all_chunks_processed)

  -- behind the last chunk of an encoded body
  check_is_finished-inflated :
      (coding : Coding) (method : ℕ) (s body : Bytes) (r : Response)
      → Gathered code coding s r
      → (r.is_gzip || r.is_deflate) ≡ true
      → ((input : Bytes)
          → (if r.is_gzip
              then codec.decompress input method_gzip
              else if r.is_deflate
              then codec.decompress input method_deflate
              else done none)
            ≡ codec.decompress input method)
      → Inflates codec method s body
      → (r' : Response) × (check_is_finished codec (all_read r) ≡ done r') × Delivered code body r'
  unfolding check_is_finished is_finished_receiving
  check_is_finished-inflated coding method s body r g encoded picked
        (out, run, some_input, some_output, text) =
      let v = g.valid in
      let len : length s ≡ r.body_len = ap length (sym g.bytes) ∙ length-stored r v in
      let set = is_set-stored r v (omega (arith, len, some_input)) in
      let input = read_le r.body_len (bytes_of r.body) (omega (arith, v.allocated, v.within)) in
      let there = lt→ltb 0 r.body_len (omega (arith, len, some_input)) in
      let same_run = picked (stored r) ∙ ap (λ t. codec.decompress t method) g.bytes ∙ run in
      (
        with_body out.mem out.size (all_read r),
        unfold ungzip in
            simp (
              g.header.is_chunked,
              encoded,
              set,
              there,
              input,
              same_run,
              lt→ltb 0 out.size some_output,
            ),
        record { status = g.header.status_code; bytes = text; finished = refl },
      )

  -- behind the last chunk
  pub check_is_finished-Delivered :
      (coding : Coding) (s body : Bytes) (r : Response)
      → Gathered code coding s r
      → Decodes codec coding s body
      → (r' : Response) × (check_is_finished codec (all_read r) ≡ done r') × Delivered code body r'
  unfolding check_is_finished is_finished_receiving
  check_is_finished-Delivered as_is s body r g same = (
    record r { is_all_chunks_processed = true; is_finished = true },
    simp (g.header.is_chunked, g.header.is_gzip, g.header.is_deflate),
    record { status = g.header.status_code; bytes = g.bytes ∙ same; finished = refl },
  )
  check_is_finished-Delivered gzipped s body r g inflates =
      check_is_finished-inflated gzipped method_gzip s body r g (rw g.header.is_gzip refl)
        (λ input. rw g.header.is_gzip refl) inflates
  check_is_finished-Delivered deflated s body r g inflates =
      check_is_finished-inflated deflated method_deflate s body r g
        (rw (g.header.is_gzip, g.header.is_deflate) refl)
        (λ input. rw (g.header.is_gzip, g.header.is_deflate) refl) inflates
