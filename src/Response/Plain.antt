-- ===== src/Response/Plain.antt =====
-- Bodies that are neither chunked nor compressed: the first block, the blocks after it, and when the
-- response counts as finished.
use libnhr.Base.{
  ℕ, ◌+◌, ◌^◌, ◌≤◌, ◌<◌, ◌≡◌, ap, ◌∙◌, arith, Bool, true, false, ◌||◌, ◌&&◌, ◌++◌, length, take,
  length-take, if◌then◌else◌, ltb, leb, ◌==◌,
}
use libnhr.Exec.{done}
use libnhr.Clib.Memory.{Bytes}
use libnhr.Codec.{Codec}
use libnhr.Response.{Response, add_body_data}
use libnhr.Response.Body.{stored, IsValid, limit, length-stored, Added, add_body_data-Added}
use libnhr.Response.Receive.{is_finished_receiving, check_is_finished, append}

pub record IsPlain (r : Response) : Type 0 where
  pub not_chunked : r.is_chunked ≡ false
  pub not_gzip : r.is_gzip ≡ false
  pub not_deflate : r.is_deflate ≡ false

-- has all of an announced body come?
abbrev pub is_complete : ℕ → Bytes → Bool
is_complete content_length s = ltb 0 content_length && leb content_length (length s)

-- the response that `nhr_response_check_is_finished` leaves
abbrev pub mark : Response → Response
mark r =
    if ltb 0 r.content_length && r.content_length == r.body_len
    then record r { is_finished = true }
    else r

pub check_is_finished-plain :
    (codec : Codec) (r : Response) → IsPlain r → check_is_finished codec r ≡ done (mark r)
unfolding check_is_finished is_finished_receiving
check_is_finished-plain codec r p = ground arith

-- What a further block does to a plain response.
pub record Appended (r r' : Response) (s : Bytes) : Type 0 where
  pub valid : IsValid r'
  pub plain : IsPlain r'
  pub content_length : r'.content_length ≡ r.content_length
  pub status_code : r'.status_code ≡ r.status_code
  pub bytes : stored r' ≡ limit r.content_length (stored r ++ s)
  pub finished : r'.is_finished ≡ (r.is_finished || is_complete r.content_length (stored r ++ s))

append-mark :
    (codec : Codec) (r r' : Response) (received : Bytes) (n : ℕ)
    → r.is_chunked ≡ false
    → add_body_data r received n ≡ done r'
    → IsPlain r'
    → append codec r received n ≡ done (mark r')
unfolding append
append-mark codec r r' received n h e p = simp (h, e) (check_is_finished-plain codec r' p)

pub Added-IsPlain : {r r' : Response} {s : Bytes} → Added r r' s → IsPlain r → IsPlain r'
Added-IsPlain added p = record {
  not_chunked = added.header.is_chunked ∙ p.not_chunked;
  not_gzip = added.header.is_gzip ∙ p.not_gzip;
  not_deflate = added.header.is_deflate ∙ p.not_deflate;
}

-- The length reached is the announced length exactly if that much has come.
body_len_complete :
    (r r' : Response) (s : Bytes)
    → Added r r' s
    → (ltb 0 r.content_length && r.content_length == r'.body_len)
      ≡ is_complete r.content_length (stored r ++ s)
body_len_complete r r' s added = ground (
  arith,
  length-stored r' added.valid,
  ap length added.bytes,
  length-take r.content_length (stored r ++ s),
)

mark-is_finished :
    (r r' : Response) (s : Bytes)
    → Added r r' s
    → (mark r').is_finished ≡ (r.is_finished || is_complete r.content_length (stored r ++ s))
mark-is_finished r r' s added =
    ground
      (arith, body_len_complete r r' s added, added.header.is_finished, added.header.content_length)

pub mark-Appended :
    (r r' : Response) (s : Bytes) → IsPlain r → Added r r' s → Appended r (mark r') s
mark-Appended r r' s p added = record {
  valid = ground (arith, added.valid);
  plain = ground (arith, Added-IsPlain added p);
  content_length = ground (arith, added.header.content_length);
  status_code = ground (arith, added.header.status_code);
  bytes = ground (arith, added.bytes);
  finished = mark-is_finished r r' s added;
}

-- A block of a plain body is stored behind what came before, cut at the announced length, with no
-- access outside the memory; the response is finished from the block on with which the announced
-- length is reached, and never if none was announced.
pub append-Appended :
    (codec : Codec) (r : Response) (received : Bytes) (n : ℕ)
    → IsPlain r
    → IsValid r
    → n ≤ length received
    → r.body_len + n < 2 ^ 64
    → (r' : Response) × (append codec r received n ≡ done r') × Appended r r' (take n received)
unfolding append
append-Appended codec r received n p v h fits =
    let (r', e, added) = add_body_data-Added r received n v h fits in
    (
      mark r',
      append-mark codec r r' received n p.not_chunked e (Added-IsPlain added p),
      mark-Appended r r' (take n received) p added,
    )
