-- ===== src/Response/Receive.antt =====
-- `nhr_response_create`, `nhr_response_append` and what they call, over a codec.
use libnhr.Base.{
  ℕ, ◌+◌, ◌-◌, ◌^◌, ◌%◌, Option, none, some, Bool, true, false, ◌&&◌, ◌||◌, length, if◌then◌else◌,
  ltb, ◌==◌,
}
use libnhr.Exec.{Exec, done, ◌>>=◌}
use libnhr.Clib.Memory.{Bytes, u64, bytes_of, read, skip}
use libnhr.Clib.Strings.{strstr}
use libnhr.Codec.{Codec, method_deflate, method_gzip}
use libnhr.Heap.{malloc}
use libnhr.Response.{Response, zero_response, fix_body_len, copy_to_body, add_body_data}
use libnhr.Response.Header.{
  parse_status_code, parse_content_length, parse_transfer_encoding, parse_content_encoding,
}
use libnhr.Response.Chunks.{double_crlf, read_chunks}

unfoldable pub is_finished_receiving : Response → Bool
is_finished_receiving r =
    if r.is_chunked
    then r.is_all_chunks_processed
    else if ltb 0 r.content_length
    then r.content_length == r.body_len
    else false

-- a body that is not chunked: the buffer for all of it, with what has come so far
unfoldable pub start_body : Response → Bytes → ℕ → Exec Response
start_body r sub body_len =
    let body_size =
      if ltb body_len r.content_length then u64 (r.content_length + 32) else body_len in
    do
      s ← read body_len sub
      copy_to_body
          (record r { body_len = body_len; body_size = body_size; body = malloc body_size }) 0 s

-- `sub - received`, where `sub` is a later pointer into the same memory
abbrev pub distance : Bytes → Bytes → ℕ
distance received sub = length received - length sub

unfoldable pub parse_body : Response → Bytes → ℕ → Exec Response
parse_body r received received_len = do
  found ← strstr received double_crlf
  elim found [
    | none ↦ done r
    | some sub ↦
        let skiped = distance received sub in
        if ltb 4 skiped
        then (do
          content ← skip 4 sub
          filled ←
              if r.is_chunked
              then read_chunks r content
              else start_body r content (u64 (received_len + 2 ^ 64 - (skiped + 4)))
          done (fix_body_len filled))
        else done r
  ]

abbrev pub is_set : Option Bytes → Bool
is_set none = false
is_set (some m) = true

module _ (codec : Codec) where
  unfoldable pub ungzip : Response → Exec Response
  ungzip r =
      if is_set r.body && ltb 0 r.body_len
      then (do
        input ← read r.body_len (bytes_of r.body)
        result ←
            if r.is_gzip
            then codec.decompress input method_gzip
            else if r.is_deflate
            then codec.decompress input method_deflate
            else done none
        done (elim result [
          | none ↦ r
          | some out ↦
              if ltb 0 out.size then record r { body = some out.mem; body_len = out.size } else r
        ]))
      else done r

  unfoldable pub check_is_finished : Response → Exec Response
  check_is_finished r =
      if is_finished_receiving r
      then (do
        plain ← if r.is_gzip || r.is_deflate then ungzip r else done r
        done (record plain { is_finished = true }))
      else done r

  -- the `if (r->status_code != 0)` of `nhr_response_create`
  unfoldable pub parse_message : Response → Bytes → ℕ → Exec Response
  parse_message r received received_len = if r.status_code == 0 then done r else (do
    sized ← parse_content_length r received
    framed ← parse_transfer_encoding sized received
    coded ← parse_content_encoding framed received
    parse_body coded received received_len)

  unfoldable pub create : Bytes → ℕ → Exec Response
  create received received_len = do
    status ← parse_status_code zero_response received
    parsed ← parse_message status received received_len
    check_is_finished parsed

  unfoldable pub append : Response → Bytes → ℕ → Exec Response
  append r received received_len = do
    filled ← if r.is_chunked then read_chunks r received else add_body_data r received received_len
    check_is_finished filled

-- the public getters; NULL for the response is `none`
unfoldable pub get_status_code : Option Response → ℕ
get_status_code none = 0
get_status_code (some r) = r.status_code

unfoldable pub get_body : Option Response → Option Bytes
get_body none = none
get_body (some r) = r.body

unfoldable pub get_body_length : Option Response → ℕ
get_body_length none = 0
get_body_length (some r) = r.body_len % 2 ^ 32
