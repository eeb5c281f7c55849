-- ===== src/Response/Body.antt =====
-- The body buffer: what `nhr_response_add_body_data` stores, and that it stays inside its memory.
use libnhr.Base.{
  ℕ, zero, suc, ◌+◌, ◌-◌, ◌^◌, ◌≤◌, ◌<◌, ◌≡◌, refl, sym, ap, ◌∙◌, arith, some, [], ◌∷◌, ◌++◌,
  length, take, drop, replicate, length-append, length-take, take-append, take-append_le, take-all,
  take-take, append_assoc, if◌then◌else◌, ltb, Option-cases, inl, inr,
}
use libnhr.Exec.{done}
use libnhr.Clib.Memory.{
  Bytes, u64, unset, bytes_of, read_le, write_le, length_written, resize, length-resize,
}
use libnhr.Heap.{realloc}
use libnhr.Response.{Response, fix_body_len, copy_to_body, grow_body, add_body_data}

-- the bytes of the body received so far
abbrev pub stored : Response → Bytes
stored r = take r.body_len (bytes_of r.body)

-- The body's allocation is as large as `body_size` says, holds what is stored, and no more is stored
-- than the header announced.
pub record IsValid (r : Response) : Type 0 where
  pub allocated : length (bytes_of r.body) ≡ r.body_size
  pub within : r.body_len ≤ r.body_size
  pub limited : 0 < r.content_length → r.body_len ≤ r.content_length

-- what is kept of a body when the header announced a length
abbrev pub limit : ℕ → Bytes → Bytes
limit content_length s = if ltb 0 content_length then take content_length s else s

-- Everything but the body is as it was.
pub record SameHeader (r r' : Response) : Type 0 where
  pub content_length : r'.content_length ≡ r.content_length
  pub status_code : r'.status_code ≡ r.status_code
  pub is_chunked : r'.is_chunked ≡ r.is_chunked
  pub is_gzip : r'.is_gzip ≡ r.is_gzip
  pub is_deflate : r'.is_deflate ≡ r.is_deflate
  pub is_all_chunks_processed : r'.is_all_chunks_processed ≡ r.is_all_chunks_processed
  pub is_finished : r'.is_finished ≡ r.is_finished

pub SameHeader-trans : {r s t : Response} → SameHeader r s → SameHeader s t → SameHeader r t
SameHeader-trans h k = record {
  content_length = k.content_length ∙ h.content_length;
  status_code = k.status_code ∙ h.status_code;
  is_chunked = k.is_chunked ∙ h.is_chunked;
  is_gzip = k.is_gzip ∙ h.is_gzip;
  is_deflate = k.is_deflate ∙ h.is_deflate;
  is_all_chunks_processed = k.is_all_chunks_processed ∙ h.is_all_chunks_processed;
  is_finished = k.is_finished ∙ h.is_finished;
}

-- The header does not see the number of bytes stored.
SameHeader-body_len :
    {r : Response} (c : Response) (n : ℕ)
    → SameHeader r c
    → SameHeader r (record c { body_len = n })
SameHeader-body_len c n h = record {
  content_length = h.content_length;
  status_code = h.status_code;
  is_chunked = h.is_chunked;
  is_gzip = h.is_gzip;
  is_deflate = h.is_deflate;
  is_all_chunks_processed = h.is_all_chunks_processed;
  is_finished = h.is_finished;
}

pub length-stored : (r : Response) → IsValid r → length (stored r) ≡ r.body_len
length-stored r v = omega (arith, length-take r.body_len (bytes_of r.body), v)

take-resize : (m : Bytes) (i n : ℕ) → i ≤ length m → i ≤ n → take i (resize m n) ≡ take i m
unfolding resize
take-resize m i n h k =
    take-append_le i (take n m) (replicate (n - length m) unset) (omega (arith, length-take n m))
    ∙ take-take i n m k

-- Room for `required` bytes, and nothing of what is stored lost.
record Grown (r g : Response) (required : ℕ) : Type 0 where
  allocated : length (bytes_of g.body) ≡ g.body_size
  room : required ≤ g.body_size
  kept : take r.body_len (bytes_of g.body) ≡ stored r
  same_len : g.body_len ≡ r.body_len
  header : SameHeader r g

grow_body-Grown :
    (r : Response) (required : ℕ)
    → IsValid r
    → r.body_len ≤ required
    → Grown r (grow_body r required) required
unfolding grow_body realloc
grow_body-Grown r required v h = ground (
  arith,
  length-resize (bytes_of r.body) required,
  take-resize (bytes_of r.body) r.body_len required,
)

-- After a copy of `s` to `offset`.
pub record Copied (r c : Response) (offset : ℕ) (s : Bytes) : Type 0 where
  pub allocated : length (bytes_of c.body) ≡ length (bytes_of r.body)
  pub bytes : take (offset + length s) (bytes_of c.body) ≡ take offset (bytes_of r.body) ++ s
  pub same_len : c.body_len ≡ r.body_len
  pub same_size : c.body_size ≡ r.body_size
  pub header : SameHeader r c

take-written :
    (m : Bytes) (i : ℕ) (s : Bytes)
    → i + length s ≤ length m
    → take (i + length s) (take i m ++ (s ++ drop (i + length s) m)) ≡ take i m ++ s
take-written m i s h =
    let front = take i m ++ s in
    let e : i + length s ≡ length front =
      omega (arith, length-append (take i m) s, length-take i m) in
    ap (λ k. take k (take i m ++ (s ++ drop (i + length s) m))) e
    ∙ rw (← append_assoc) (take-append front (drop (i + length s) m))

-- A copy that fits into no memory at all copies nothing.
copy_nothing :
    (offset : ℕ) (s : Bytes)
    → offset + length s ≤ 0
    → take offset [] ++ s ≡ take (offset + length s) []
copy_nothing zero [] h = refl
copy_nothing zero (c ∷ s) h = absurd (omega arith)
copy_nothing (suc offset) s h = absurd (omega arith)

pub copy_to_body-Copied :
    (r : Response) (offset : ℕ) (s : Bytes)
    → offset + length s ≤ length (bytes_of r.body)
    → (c : Response) × (copy_to_body r offset s ≡ done c) × Copied r c offset s
unfolding copy_to_body
copy_to_body-Copied r offset s h =
    let m = take offset (bytes_of r.body) ++ (s ++ drop (offset + length s) (bytes_of r.body)) in
    let out = write_le (bytes_of r.body) offset s h in
    let whole = take-written (bytes_of r.body) offset s h in
    let size = length_written (bytes_of r.body) offset s h in
    elim (Option-cases r.body) [
      | inl e ↦ (r, ground (arith, out), ground (arith, whole, size, copy_nothing offset s))
      | inr (old, e) ↦
          (record r { body = some m }, ground (arith, out), ground (arith, whole, size))
    ]

pub fix_body_len-limit :
    (r : Response) (s : Bytes)
    → length (bytes_of r.body) ≡ r.body_size
    → r.body_len ≤ r.body_size
    → take r.body_len (bytes_of r.body) ≡ s
    → let r' = fix_body_len r in
      IsValid r' × (stored r' ≡ limit r.content_length s) × SameHeader r r'
unfolding fix_body_len
fix_body_len-limit r s size fits e = ground (
  arith,
  take-take r.content_length r.body_len (bytes_of r.body),
  take-all r.content_length s,
  length-take r.body_len (bytes_of r.body),
  ap length e,
  ap (take r.content_length) e,
)

-- What `nhr_response_add_body_data` promises: the bytes stored are those from before and the new
-- ones, cut at the announced length.
pub record Added (r r' : Response) (s : Bytes) : Type 0 where
  pub valid : IsValid r'
  pub bytes : stored r' ≡ limit r.content_length (stored r ++ s)
  pub header : SameHeader r r'

-- From a valid response, `nhr_response_add_body_data` of bytes that are there to be read, with sizes
-- that add up below 2^64, succeeds with no access outside its memory. The response stays valid, and
-- holds what it held and the new bytes behind, cut at the announced length if there is one; nothing
-- else changes.
pub add_body_data-Added :
    (r : Response) (source : Bytes) (n : ℕ)
    → IsValid r
    → n ≤ length source
    → r.body_len + n < 2 ^ 64
    → (r' : Response) × (add_body_data r source n ≡ done r') × Added r r' (take n source)
unfolding add_body_data
add_body_data-Added r source n v h fits =
    let s = take n source in
    let size : u64 (r.body_len + n) ≡ r.body_len + n = omega arith in
    let len = length-take n source in
    let grown = grow_body-Grown r (r.body_len + n) v (omega arith) in
    let g = grow_body r (r.body_len + n) in
    let (c, copied, after) =
      copy_to_body-Copied g r.body_len s (omega (arith, len, grown.allocated, grown.room)) in
    let same_n : length s ≡ n = omega (arith, len) in
    let end = ap (λ k. take (r.body_len + k) (bytes_of c.body)) (sym same_n) in
    let bytes = end ∙ after.bytes ∙ ap (λ t. t ++ s) grown.kept in
    let c' = record c { body_len = r.body_len + n } in
    let (valid, kept, header) =
      fix_body_len-limit c' (stored r ++ s) (omega (arith, after, grown))
        (omega (arith, after, grown)) bytes in
    (
      fix_body_len c',
      simp (read_le n source h, size, copied),
      record {
        valid = valid;
        bytes =
            kept
            ∙ ap (λ k. limit k (stored r ++ s))
                (after.header.content_length ∙ grown.header.content_length);
        header =
            SameHeader-trans grown.header
              (SameHeader-trans (SameHeader-body_len c (r.body_len + n) after.header) header);
      },
    )
