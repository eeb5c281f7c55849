-- ===== src/Tests/Gz.antt =====
-- src/nhr_gz.c with a zlib that does not compress.
use libnhr.Base.{
  ℕ, ◌≡◌, refl, arith, some, [], length, take, drop, replicate, if◌then◌else◌, ltb, ◌∷◌, ◌++◌, true,
}
use libnhr.Exec.{done}
use libnhr.Clib.Memory.{Bytes}
use libnhr.Clib.Strings.{codes}
use libnhr.Response.{Response, zero_response}
use libnhr.Response.Body.{stored, IsValid}
use libnhr.Response.Receive.{check_is_finished}
use libnhr.Response.Gunzip.{check_is_finished-gunzip}
use libnhr.Gz.Both.{codec}
use libnhr.Gz.{is_gzip_file, z_ok, z_stream_end, Step, Zlib}
use libnhr.Gz.Inflate.{open_input, decompress}
use libnhr.Gz.Inflated.{InflateLaw, decompress-Holds}

-- a stream is what is left to come of it
abbrev next_bytes : ℕ → Bytes → Step Bytes
next_bytes n s =
    if ltb n (length s)
    then record { result = z_ok; out = take n s; next = drop n s }
    else record { result = z_stream_end; out = s; next = [] }

abbrev stored_zlib : Zlib Bytes
stored_zlib = record {
  inflate_init = λ raw s. some s;
  inflate = next_bytes;
  deflate_init = λ raw s. some s;
  deflate = λ flush n s. next_bytes n s;
  avail_in = λ s. length s;
  total_out = λ s. 0;
  crc32 = λ s. 0;
}

stored_zlib-InflateLaw : InflateLaw stored_zlib (λ zip s. zip ≡ s)
stored_zlib-InflateLaw = record {
  full = λ zip s n h pos more. rw h (ground arith);
  ended = λ zip s n h pos some_left less. rw h (ground arith);
}

decompress-Holds_example :
    (mem : Bytes) × (decompress stored_zlib 3 (codes "hello") 0
      ≡ done (some (record { mem = mem; size = 5 })))
    × (take 5 mem ≡ codes "hello")
unfolding open_input
decompress-Holds_example =
    decompress-Holds stored_zlib (λ zip s. zip ≡ s) stored_zlib-InflateLaw 3 (codes "hello") 0
      (codes "hello") (codes "hello") (omega arith) refl refl (omega arith) (omega arith)

-- a gzip file of five bytes
abbrev gzip_hello : Bytes
gzip_hello = (31 ∷ 139 ∷ 8 ∷ 0 ∷ 0 ∷ 0 ∷ 0 ∷ 0 ∷ 0 ∷ 0 ∷ []) ++ (codes "hello" ++ replicate 8 0)

abbrev gzip_response : Response
gzip_response = record zero_response {
  body = some gzip_hello;
  body_len = 23;
  body_size = 23;
  content_length = 23;
  is_gzip = true;
}

gzip_response-IsValid : IsValid gzip_response
gzip_response-IsValid = record {
  allocated = refl;
  within = omega arith;
  limited = λ h. omega arith;
}

check_is_finished-gunzip_example :
    (r' : Response) × (check_is_finished (codec stored_zlib 3 0) gzip_response ≡ done r')
    × (stored r' ≡ codes "hello")
    × (r'.is_finished ≡ true)
unfolding open_input is_gzip_file
check_is_finished-gunzip_example =
    check_is_finished-gunzip stored_zlib (λ zip s. zip ≡ s) stored_zlib-InflateLaw 3 0 gzip_response
      (codes "hello") (codes "hello") gzip_response-IsValid refl refl (omega arith) refl refl refl
      (omega arith) (omega arith)
