-- ===== src/Gz/Both.antt =====
-- The interface of Codec.antt, filled by src/nhr_gz.c over zlib.
use libnhr.Base.{ℕ}
use libnhr.Codec.{Codec}
use libnhr.Gz.{Zlib}
use libnhr.Gz.Inflate.{decompress}
use libnhr.Gz.Deflate.{compress}

-- with fuel for the loops, and the time
abbrev pub codec : {S : Type 0} → Zlib S → ℕ → ℕ → Codec
codec zlib fuel curr_time = record {
  compress = compress zlib fuel curr_time;
  decompress = decompress zlib fuel;
}
