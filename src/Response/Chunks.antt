-- ===== src/Response/Chunks.antt =====
-- `nhr_response_read_chunks`.
use libnhr.Base.{ℕ, zero, suc, none, some, true, [], ◌∷◌, length, if◌then◌else◌, ◌==◌}
use libnhr.Exec.{Exec, done, fault, no_fuel, ◌>>=◌}
use libnhr.Clib.Memory.{Bytes, skip}
use libnhr.Clib.Strings.{is_xdigit, strncmp_eq}
use libnhr.Clib.Scan.{scan_hex}
use libnhr.Response.{Response, add_body_data}

abbrev pub crlf : Bytes
crlf = 13 ∷ 10 ∷ []

abbrev pub double_crlf : Bytes
double_crlf = 13 ∷ 10 ∷ 13 ∷ 10 ∷ []

-- `while (isxdigit(*str)) str++`
unfoldable pub skip_xdigits : Bytes → Exec Bytes
skip_xdigits [] = fault
skip_xdigits (c ∷ m) = if is_xdigit c then skip_xdigits m else done (c ∷ m)

-- the branch for a chunk length of zero, `str` behind its digits
unfoldable pub last_chunk : Response → Bytes → Exec Response
last_chunk r str = do
  ended ← strncmp_eq str double_crlf
  done (if ended then record r { is_all_chunks_processed = true } else r)

-- the branch for a chunk of `chunk_len` bytes: the response, and `str` behind the chunk
unfoldable pub take_chunk : Response → Bytes → ℕ → Exec (Response × Bytes)
take_chunk r str chunk_len = do
  content ← skip 2 str
  filled ← add_body_data r content chunk_len
  behind ← skip chunk_len content
  next ← skip 2 behind
  done (filled, next)

-- The loop, with fuel for one round less than its number.
unfoldable pub read_chunks_from : ℕ → Response → Bytes → Exec Response
read_chunks_from zero r str = no_fuel
read_chunks_from (suc fuel) r str = scan_hex str >>= elim [
  | none ↦ done r
  | some chunk_len ↦ (do
    behind ← skip_xdigits str
    if chunk_len == 0
        then last_chunk r behind
        else (do (filled, next) ← take_chunk r behind chunk_len; read_chunks_from fuel filled next))
]

-- Each round but the last takes some five bytes, so the length of the memory is fuel enough.
unfoldable pub read_chunks : Response → Bytes → Exec Response
unfolding read_chunks_from
read_chunks r str = read_chunks_from (suc (length str)) r str
