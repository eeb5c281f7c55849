-- ===== src/Codec.antt =====
-- The interface between nhr_gz.c and its two users, src/nhr_response.c and
-- src/nhr_request_method_post.c.
use libnhr.Base.{ℕ, Option}
use libnhr.Exec.{Exec}
use libnhr.Clib.Memory.{Bytes}

-- NHR_GZ_METHOD_*
abbrev pub method_deflate : ℕ
method_deflate = 0

abbrev pub method_gzip : ℕ
method_gzip = 1

-- what `nhr_gz_decompress` returns: its buffer, and `*decompressed_size`
pub record Inflated : Type 0 where
  pub mem : Bytes
  pub size : ℕ

-- Each takes the bytes of its input buffer and a method. `none` is NULL.
pub record Codec : Type 0 where
  pub compress : Bytes → ℕ → Exec (Option Bytes)
  pub decompress : Bytes → ℕ → Exec (Option Inflated)
