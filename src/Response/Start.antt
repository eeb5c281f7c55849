-- ===== src/Response/Start.antt =====
-- The first block of a body that is not chunked, and the sizes at which its buffer is too small.
use libnhr.Base.{
  ℕ, ◌+◌, ◌-◌, ◌^◌, ◌≤◌, ◌<◌, ◌≡◌, ap, ◌∙◌, arith, length, take, length-take, length-replicate,
  if◌then◌else◌, ltb, lt→ltb,
}
use libnhr.Exec.{done, fault}
use libnhr.Clib.Memory.{Bytes, u64, unset, bytes_of, read_le, write_lt}
use libnhr.Heap.{malloc}
use libnhr.Response.{Response, copy_to_body}
use libnhr.Response.Body.{stored, SameHeader, copy_to_body-Copied}
use libnhr.Response.Receive.{start_body}

length-malloc : (n : ℕ) → length (bytes_of (malloc n)) ≡ n
unfolding malloc
length-malloc n = ground (arith, length-replicate {0} n unset)

-- What the first block leaves: a buffer with room for the announced length.
pub record Started (r r' : Response) (s : Bytes) : Type 0 where
  pub allocated : length (bytes_of r'.body) ≡ r'.body_size
  pub within : r'.body_len ≤ r'.body_size
  pub room : r.content_length ≤ r'.body_size
  pub bytes : stored r' ≡ s
  pub header : SameHeader r r'

-- If the announced length plus 32 is below 2^64, the first `n` bytes of a body go into a new buffer
-- that has room for them and for the announced length, with no access outside the memory; the
-- header's fields stay.
pub start_body-Started :
    (r : Response) (sub : Bytes) (n : ℕ)
    → n ≤ length sub
    → r.content_length + 32 < 2 ^ 64
    → (r' : Response) × (start_body r sub n ≡ done r') × Started r r' (take n sub)
unfolding start_body
start_body-Started r sub n h fits =
    let size = if ltb n r.content_length then u64 (r.content_length + 32) else n in
    let enough : (n ≤ size) × (r.content_length ≤ size) = ground arith in
    let fresh = record r { body_len = n; body_size = size; body = malloc size } in
    let len = length-take n sub in
    let space = length-malloc size in
    let (r', copied, after) =
      copy_to_body-Copied fresh 0 (take n sub) (omega (arith, len, space, enough)) in
    let same : n ≡ 0 + length (take n sub) = omega (arith, len) in
    (
      r',
      simp (read_le n sub h) copied,
      record {
        allocated = omega (arith, after.allocated, space, after.same_size);
        within = omega (arith, after.same_size, after.same_len, enough);
        room = omega (arith, after.same_size, enough);
        bytes = ap (λ k. take k (bytes_of r'.body)) (after.same_len ∙ same) ∙ after.bytes;
        header = record {
          content_length = after.header.content_length;
          status_code = after.header.status_code;
          is_chunked = after.header.is_chunked;
          is_gzip = after.header.is_gzip;
          is_deflate = after.header.is_deflate;
          is_all_chunks_processed = after.header.is_all_chunks_processed;
          is_finished = after.header.is_finished;
        };
      },
    )

-- For an announced length in the last 32 numbers of `size_t`, the size of the buffer wraps round: a
-- first block that is longer than the wrapped size, and shorter than the announced length, is
-- copied past the end of the buffer.
pub start_body_overflow :
    (r : Response) (sub : Bytes) (n : ℕ)
    → n ≤ length sub
    → n < r.content_length
    → r.content_length < 2 ^ 64
    → 2 ^ 64 ≤ r.content_length + 32
    → r.content_length + 32 - 2 ^ 64 < n
    → start_body r sub n ≡ fault
unfolding start_body copy_to_body
start_body_overflow r sub n h less fits wraps long =
    let size : u64 (r.content_length + 32) ≡ r.content_length + 32 - 2 ^ 64 = omega arith in
    simp (
      read_le n sub h,
      lt→ltb n r.content_length less,
      size,
      write_lt (bytes_of (malloc (r.content_length + 32 - 2 ^ 64))) 0 (take n sub)
          (omega (arith, length-take n sub, length-malloc (r.content_length + 32 - 2 ^ 64))),
    )
