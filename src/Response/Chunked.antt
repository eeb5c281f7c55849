-- ===== src/Response/Chunked.antt =====
-- Chunked bodies: what `nhr_response_read_chunks` makes of well-formed chunks.
use libnhr.Base.{
  ◌≤◌, ℕ, zero, suc, ◌+◌, ◌^◌, ◌<◌, ◌≡◌, refl, sym, ◌∙◌, arith, true, List, [], ◌∷◌, ◌++◌, length,
  length-append, take-append, append_assoc, append-nil, ne→==,
}
use libnhr.Exec.{done}
use libnhr.Clib.Memory.{Bytes, skip, skip-append}
use libnhr.Clib.Strings.{begins}
use libnhr.Clib.Scan.Hex.{AllHex, hex_value, scan_hex-value, hex_value_zero}
use libnhr.Response.{Response, add_body_data}
use libnhr.Response.Body.{
  stored, IsValid, limit, Added, add_body_data-Added, SameHeader, SameHeader-trans,
}
use libnhr.Response.Limit.{limit-limit, limit-stored, body_len-le}
use libnhr.Response.Chunks.{
  crlf, double_crlf, skip_xdigits, last_chunk, take_chunk, read_chunks_from, read_chunks,
}

-- A chunk: the first digit of its size, the others, and its content.
pub record Chunk : Type 0 where
  pub digit : ℕ
  pub digits : Bytes
  pub content : Bytes

pub record IsChunk (c : Chunk) : Type 0 where
  pub hex : AllHex (c.digit ∷ c.digits)
  pub size : hex_value 0 (c.digit ∷ c.digits) ≡ length c.content
  pub positive : 0 < length c.content
  pub fits : length c.content < 2 ^ 32

abbrev pub AllChunks : List Chunk → Type 0
AllChunks [] = Unit
AllChunks (c ∷ cs) = IsChunk c × AllChunks cs

-- a chunk as it is sent, with what follows it
abbrev pub wire : Chunk → Bytes → Bytes
wire c rest = (c.digit ∷ c.digits) ++ (crlf ++ (c.content ++ (crlf ++ rest)))

-- chunks in order, and what is behind them in memory
abbrev pub wires : List Chunk → Bytes → Bytes
wires [] rest = rest
wires (c ∷ cs) rest = wire c (wires cs rest)

-- the last chunk, of size 0, and what is behind it in memory
abbrev pub ending : Bytes → Bytes
ending rest = b'0' ∷ (double_crlf ++ rest)

-- the chunks in order, then the last chunk, and whatever is behind it in memory
abbrev pub message : List Chunk → Bytes → Bytes
message cs rest = wires cs (ending rest)

abbrev pub contents : List Chunk → Bytes
contents [] = []
contents (c ∷ cs) = c.content ++ contents cs

pub skip_xdigits-hex :
    (s rest : Bytes) → AllHex s → skip_xdigits (s ++ (13 ∷ rest)) ≡ done (13 ∷ rest)
unfolding skip_xdigits
skip_xdigits-hex [] rest h = refl
skip_xdigits-hex (c ∷ s) rest h = rw (h.0, skip_xdigits) (skip_xdigits-hex s rest h.1)

take_chunk-content :
    (r r' : Response) (content rest : Bytes)
    → add_body_data r (content ++ (crlf ++ rest)) (length content) ≡ done r'
    → take_chunk r (crlf ++ (content ++ (crlf ++ rest))) (length content) ≡ done (r', rest)
unfolding take_chunk skip
take_chunk-content r r' content rest e = rw (e, skip-append content (crlf ++ rest))

-- One round of the loop on a well-formed chunk.
pub read_chunks_from-wire :
    (fuel : ℕ) (r r' : Response) (c : Chunk) (rest : Bytes)
    → IsChunk c
    → add_body_data r (c.content ++ (crlf ++ rest)) (length c.content) ≡ done r'
    → read_chunks_from (suc fuel) r (wire c rest) ≡ read_chunks_from fuel r' rest
unfolding read_chunks_from
read_chunks_from-wire fuel r r' c rest h e =
    let behind = 10 ∷ (c.content ++ (crlf ++ rest)) in
    rw (
      scan_hex-value c.digit c.digits behind h.hex (omega (arith, h.size, h.fits)),
      skip_xdigits-hex (c.digit ∷ c.digits) behind h.hex,
      h.size,
      ne→== (length c.content) 0 (omega (arith, h.positive)),
      take_chunk-content r r' c.content rest e,
    )

-- The last round.
pub read_chunks_from-last :
    (fuel : ℕ) (r : Response) (rest : Bytes)
    → read_chunks_from (suc fuel) r (b'0' ∷ (double_crlf ++ rest))
      ≡ done (record r { is_all_chunks_processed = true })
unfolding read_chunks_from last_chunk begins
read_chunks_from-last fuel r rest =
    let behind = 10 ∷ 13 ∷ 10 ∷ rest in
    rw (
      scan_hex-value b'0' [] behind (refl, tt) (omega (arith, hex_value_zero)),
      skip_xdigits-hex (b'0' ∷ []) behind (refl, tt),
      hex_value_zero,
    )

SameHeader-refl : (r : Response) → SameHeader r r
SameHeader-refl r = record {
  content_length = refl;
  status_code = refl;
  is_chunked = refl;
  is_gzip = refl;
  is_deflate = refl;
  is_all_chunks_processed = refl;
  is_finished = refl;
}

Added-nil : (r : Response) → IsValid r → Added r r []
Added-nil r v = record {
  valid = v;
  bytes = rw append-nil (sym (limit-stored r v));
  header = SameHeader-refl r;
}

Added-append :
    (r r' r'' : Response) (s t : Bytes) → Added r r' s → Added r' r'' t → Added r r'' (s ++ t)
Added-append r r' r'' s t a b = record {
  valid = b.valid;
  bytes = b.bytes ∙ rw (a.header.content_length, a.bytes, limit-limit, append_assoc);
  header = SameHeader-trans a.header b.header;
}

-- The rounds over the chunks of a block.
pub read_chunks_from-wires :
    (cs : List Chunk) (rest : Bytes) (fuel : ℕ) (r : Response)
    → AllChunks cs
    → IsValid r
    → r.body_len + length (contents cs) < 2 ^ 64
    → length cs < fuel
    → (r' : Response) × (left : ℕ) × (read_chunks_from fuel r (wires cs rest)
        ≡ read_chunks_from (suc left) r' rest)
      × Added r r' (contents cs)
read_chunks_from-wires cs rest zero r all v fits enough = absurd (omega arith)
read_chunks_from-wires [] rest (suc fuel) r all v fits enough = (r, fuel, refl, Added-nil r v)
read_chunks_from-wires (c ∷ cs) rest (suc fuel) r all v fits enough =
    let behind = wires cs rest in
    let sum = length-append c.content (contents cs) in
    let (r', e, added) =
      add_body_data-Added r (c.content ++ (crlf ++ behind)) (length c.content) v
        (omega (arith, length-append c.content (crlf ++ behind))) (omega (arith, sum)) in
    let same : Added r r' c.content = rw (take-append c.content (crlf ++ behind)) at added in
    let (r'', left, run, later) =
      read_chunks_from-wires cs rest fuel r' all.1 same.valid
        (omega (arith, body_len-le r r' c.content v same, sum)) (omega arith) in
    (
      r'',
      left,
      read_chunks_from-wire fuel r r' c behind all.0 e ∙ run,
      Added-append r r' r'' c.content (contents cs) same later,
    )

pub length-wires : (cs : List Chunk) (rest : Bytes) → length cs ≤ length (wires cs rest)
length-wires [] rest = omega arith
length-wires (c ∷ cs) rest =
    let inner = c.content ++ (crlf ++ wires cs rest) in
    omega (
      arith,
      length-append c.digits (crlf ++ inner),
      length-append c.content (crlf ++ wires cs rest),
      length-wires cs rest,
    )

-- the response behind the last chunk
abbrev pub all_read : Response → Response
all_read r = record r { is_all_chunks_processed = true }

pub read_chunks-whole :
    (cs : List Chunk) (rest : Bytes) (r : Response)
    → AllChunks cs
    → IsValid r
    → r.body_len + length (contents cs) < 2 ^ 64
    → (r' : Response) × (read_chunks r (wires cs (ending rest)) ≡ done (all_read r'))
      × Added r r' (contents cs)
unfolding read_chunks
read_chunks-whole cs rest r all v fits =
    let text = wires cs (ending rest) in
    let (r', left, run, added) =
      read_chunks_from-wires cs (ending rest) (suc (length text)) r all v fits
        (omega (arith, length-wires cs (ending rest))) in
    (r', run ∙ read_chunks_from-last left r' rest, added)

-- What a message of chunks leaves: all contents are stored, and the end has been seen.
pub record Decoded (r r' : Response) (s : Bytes) : Type 0 where
  pub valid : IsValid r'
  pub bytes : stored r' ≡ limit r.content_length (stored r ++ s)
  pub ended : r'.is_all_chunks_processed ≡ true
  pub content_length : r'.content_length ≡ r.content_length
  pub is_finished : r'.is_finished ≡ r.is_finished

-- From a valid response, `nhr_response_read_chunks` on a well-formed sequence of chunks that ends
-- with the last chunk, all of it in memory with any bytes behind it, stops with no fault: the
-- contents of all chunks are stored in order behind what was stored before, cut at the announced
-- length if there is one, and the end of the chunks has been seen.
pub read_chunks-Decoded :
    (cs : List Chunk) (rest : Bytes) (r : Response)
    → AllChunks cs
    → IsValid r
    → r.body_len + length (contents cs) < 2 ^ 64
    → (r' : Response) × (read_chunks r (message cs rest) ≡ done r') × Decoded r r' (contents cs)
read_chunks-Decoded cs rest r all v fits =
    let (r', run, added) = read_chunks-whole cs rest r all v fits in
    (
      all_read r',
      run,
      record {
        valid = record {
          allocated = added.valid.allocated;
          within = added.valid.within;
          limited = added.valid.limited;
        };
        bytes = added.bytes;
        ended = refl;
        content_length = added.header.content_length;
        is_finished = added.header.is_finished;
      },
    )
