-- ===== src/Response.antt =====
-- src/nhr_response.h and src/nhr_response.c: the response object and its body buffer. The parsers
-- of the header are in Response/Header.antt, of chunks in Response/Chunks.antt, and the entry points
-- in Response/Receive.antt. The other children prove.
pub mod Header
pub mod Chunks
pub mod Receive
pub mod Body
pub mod Chunked
pub mod Blocks
pub mod Framed
pub mod Gathered
pub mod Staged
pub mod Limit
pub mod Halts
pub mod Start
pub mod Length
pub mod Create
pub mod Status
pub mod Gunzip
pub mod Overread
pub mod Plain
use libnhr.Base.{ℕ, ◌+◌, Option, none, some, Bool, ◌&&◌, if◌then◌else◌, ltb}
use libnhr.Exec.{Exec, done, ◌>>=◌}
use libnhr.Clib.Memory.{Bytes, u64, bytes_of, read, write}
use libnhr.Heap.{realloc}

-- `struct nhr_response_struct`. The two encodings are bit sets with one and two bits in use.
pub record Response : Type 0 where
  pub body : Option Bytes
  pub body_len : ℕ
  pub body_size : ℕ
  pub content_length : ℕ
  pub status_code : ℕ
  pub is_chunked : Bool
  pub is_gzip : Bool
  pub is_deflate : Bool
  pub is_all_chunks_processed : Bool
  pub is_finished : Bool

-- the zeroed structure
abbrev pub zero_response : Response
zero_response = record {
  body = none;
  body_len = 0;
  body_size = 0;
  content_length = 0;
  status_code = 0;
  is_chunked = Bool.false;
  is_gzip = Bool.false;
  is_deflate = Bool.false;
  is_all_chunks_processed = Bool.false;
  is_finished = Bool.false;
}

unfoldable pub fix_body_len : Response → Response
fix_body_len r =
    if ltb 0 r.content_length && ltb r.content_length r.body_len
    then record r { body_len = r.content_length }
    else r

-- A `memcpy` to NULL is a fault unless it copies nothing.
unfoldable pub copy_to_body : Response → ℕ → Bytes → Exec Response
copy_to_body r offset s = do
  m ← write (bytes_of r.body) offset s
  done (elim r.body [ none ↦ r | some old ↦ record r { body = some m } ])

-- `if (required > r->body_size)`
unfoldable pub grow_body : Response → ℕ → Response
grow_body r required =
    if ltb r.body_size required
    then record r { body = realloc r.body required; body_size = required }
    else r

unfoldable pub add_body_data : Response → Bytes → ℕ → Exec Response
add_body_data r source data_size = do
  s ← read data_size source
  filled ← copy_to_body (grow_body r (u64 (r.body_len + data_size))) r.body_len s
  done (fix_body_len (record filled { body_len = u64 (r.body_len + data_size) }))
