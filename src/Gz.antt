-- ===== src/Gz.antt =====
-- src/nhr_gz.c: what its two directions share, and the interface to zlib, which they call.
-- Decompressing is in Gz/Inflate.antt, compressing in Gz/Deflate.antt, both as a Codec in
-- Gz/Both.antt; the other children prove.
pub mod Inflate
pub mod Deflate
pub mod Inflated
pub mod Filled
pub mod Deflated
pub mod Zipped
pub mod RoundTrip
pub mod Both
use libnhr.Base.{
  ℕ, zero, suc, ◌+◌, ◌-◌, ◌/◌, ◌%◌, ◌^◌, ◌≤◌, Option, none, some, Bool, true, false, ◌&&◌, List, [],
  ◌∷◌, ◌++◌, length, if◌then◌else◌, ltb, leb, ◌==◌,
}
use libnhr.Exec.{Exec, done, fault, ◌>>=◌}
use libnhr.Clib.Memory.{Bytes, u64, write, resize}

-- NHR_GZ_CHUNK_SIZE
abbrev pub chunk_size : ℕ
chunk_size = 512

-- NHR_GZ_HEADER_SIZE
abbrev pub header_size : ℕ
header_size = 10

-- NHR_GZ_FOOTER_SIZE
abbrev pub footer_size : ℕ
footer_size = 8

-- NHR_GZ_HEADER_FOOTER_SIZE
abbrev pub header_footer_size : ℕ
header_footer_size = 18

-- the results of zlib's calls that the source tells apart
pub data ZResult : Type 0 where
  z_ok z_stream_end z_failed z_other : ZResult

-- What a call of `inflate` or `deflate` returns, the bytes it puts at `next_out`, and the stream then.
pub record Step (S : Type 0) : Type 0 where
  pub result : ZResult
  pub out : Bytes
  pub next : S

-- zlib, which is not part of this code: a stream `S`, opened on its input with or without zlib's own
-- header, and run with a given `avail_out`.
pub record Zlib (S : Type 0) : Type 0 where
  pub inflate_init : Bool → Bytes → Option S
  pub inflate : ℕ → S → Step S
  pub deflate_init : Bool → Bytes → Option S
  pub deflate : Bool → ℕ → S → Step S
  pub avail_in : S → ℕ
  pub total_out : S → ℕ
  pub crc32 : Bytes → ℕ

-- The output buffer of a run, and the variables about it.
pub record Output : Type 0 where
  pub mem : Bytes
  pub writed : ℕ
  pub out_size : ℕ
  pub avail_out : ℕ

-- the `width` bytes of a number, low byte first
unfoldable pub little_endian : ℕ → ℕ → Bytes
little_endian zero n = []
little_endian (suc width) n = (n % 256) ∷ little_endian width (n / 256)

-- sizeof(uLong) where `unsigned long` has 64 bits
abbrev pub ulong_size : ℕ
ulong_size = 8

unfoldable pub write_header : Bytes → ℕ → Exec Bytes
write_header buff curr_time =
    write buff 0 ((31 ∷ 139 ∷ 8 ∷ 0 ∷ []) ++ (little_endian 4 curr_time ++ (0 ∷ 0 ∷ [])))

unfoldable pub write_footer : Bytes → ℕ → ℕ → ℕ → ℕ → Exec Bytes
write_footer buff buff_size writed crc src_size =
    let grown =
      if ltb (u64 (buff_size + 2 ^ 64 - writed)) footer_size
      then resize buff (u64 (buff_size + footer_size))
      else buff in
    do
      summed ← write grown writed (little_endian ulong_size crc)
      write summed (writed + ulong_size) (little_endian ulong_size src_size)

unfoldable pub is_gzip_file : Bytes → Bool
is_gzip_file [] = false
is_gzip_file (a ∷ []) = false
is_gzip_file (a ∷ b ∷ rest) = ltb header_footer_size (length rest + 2) && (a == 31 && b == 139)
