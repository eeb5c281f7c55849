-- ===== src/Response/Create.antt =====
-- The first block of a response: its header, and the begin of a body that is neither chunked nor
-- compressed.
use libnhr.Base.{
  ℕ, ◌+◌, ◌-◌, ◌^◌, ◌≤◌, ◌<◌, ◌≡◌, refl, sym, ap, ◌∙◌, arith, none, some, false, ◌∷◌, ◌++◌, length,
  take, length-append, lt→ltb, ne→==,
}
use libnhr.Exec.{done}
use libnhr.Clib.Memory.{Bytes, u64, bytes_of, skip}
use libnhr.Clib.Strings.{codes, strstr}
use libnhr.Clib.Decimal.{decimal}
use libnhr.Codec.{Codec}
use libnhr.Response.{Response, zero_response, fix_body_len}
use libnhr.Response.Body.{limit, SameHeader-trans, Added, fix_body_len-limit}
use libnhr.Response.Chunks.{double_crlf}
use libnhr.Response.Header.{
  content_length_name, transfer_encoding_name, content_encoding_name, find_http_field_value,
  parse_transfer_encoding, parse_content_encoding,
}
use libnhr.Response.Receive.{parse_body, parse_message, create}
use libnhr.Response.Start.{start_body-Started}
use libnhr.Response.Status.{parse_status_code-decimal}
use libnhr.Response.Length.{parse_content_length-decimal}
use libnhr.Response.Plain.{
  IsPlain, Appended, mark, mark-Appended, Added-IsPlain, check_is_finished-plain,
}

-- Where the header ends: `head` bytes, the empty line, and then `content` up to the end of memory.
pub record Ends (received : Bytes) (head : ℕ) (content : Bytes) : Type 0 where
  pub blank : strstr received double_crlf ≡ done (some (double_crlf ++ content))
  pub size : length received ≡ head + 4 + length content
  pub some_head : 4 < head

-- The bytes of the body among the `n` bytes received.
abbrev pub body_part : ℕ → ℕ → Bytes → Bytes
body_part n head content = take (n - (head + 4)) content

parse_body-Added :
    (r : Response) (received content : Bytes) (head n : ℕ)
    → Ends received head content
    → r.is_chunked ≡ false
    → r.body_len ≡ 0
    → r.content_length + 32 < 2 ^ 64
    → head + 4 ≤ n
    → n ≤ length received
    → n < 2 ^ 64
    → (r' : Response) × (parse_body r received n ≡ done r') × Added r r' (body_part n head content)
unfolding parse_body skip
parse_body-Added r received content head n ends plain empty fits some_body all small =
    let skiped : length received - length (double_crlf ++ content) ≡ head =
      omega (arith, ends.size, length-append double_crlf content) in
    let left : u64 (n + 2 ^ 64 - (head + 4)) ≡ n - (head + 4) = omega arith in
    let (started, run, s) =
      start_body-Started r content (n - (head + 4)) (omega (arith, ends.size)) fits in
    let (valid, kept, header) =
      fix_body_len-limit started (body_part n head content) s.allocated s.within s.bytes in
    (
      fix_body_len started,
      simp (ends.blank, skiped, lt→ltb 4 head ends.some_head, plain, left, run),
      record {
        valid = valid;
        bytes =
            kept
            ∙ ap (λ k. limit k (body_part n head content)) s.header.content_length
            ∙ ap
                (λ k. limit r.content_length (take k (bytes_of r.body) ++ body_part n head content))
                (sym empty);
        header = SameHeader-trans s.header header;
      },
    )

-- A header with a status code and an announced length, and no encoding: the first space stands
-- before the code, and the first occurrence of the field's name is the field.
pub record Announces (received : Bytes) (code content_length : ℕ) : Type 0 where
  pub behind_code : Bytes
  pub behind_length : Bytes
  pub status : strstr received (codes " ") ≡ done (some (32 ∷ (decimal code ++ (32 ∷ behind_code))))
  pub length_field :
      strstr received content_length_name
      ≡ done (
          some (
            content_length_name
            ++ (codes ": " ++ (decimal content_length ++ (13 ∷ behind_length)))))
  pub no_transfer_encoding : strstr received transfer_encoding_name ≡ done none
  pub no_content_encoding : strstr received content_encoding_name ≡ done none
  pub some_code : 0 < code
  pub code_fits : code < 2 ^ 16
  pub some_length : 0 < content_length
  pub length_fits : content_length + 32 < 2 ^ 64

-- the response with what its header says
abbrev pub announced : ℕ → ℕ → Response
announced code content_length = record zero_response {
  status_code = code;
  content_length = content_length;
}

parse_message-announced :
    (codec : Codec) (received : Bytes) (code content_length n : ℕ)
    → Announces received code content_length
    → parse_message codec (record zero_response { status_code = code }) received n
      ≡ parse_body (announced code content_length) received n
unfolding parse_message parse_transfer_encoding parse_content_encoding find_http_field_value
parse_message-announced codec received code content_length n a = simp (
  ne→== code 0 (omega (arith, a.some_code)),
  parse_content_length-decimal (record zero_response { status_code = code }) received
      a.behind_length content_length a.length_field a.some_length (omega (arith, a.length_fits)),
  a.no_transfer_encoding,
  a.no_content_encoding,
)

pub create-Appended :
    (codec : Codec) (received content : Bytes) (code content_length head n : ℕ)
    → Announces received code content_length
    → Ends received head content
    → head + 4 ≤ n
    → n ≤ length received
    → n < 2 ^ 64
    → (r' : Response) × (create codec received n ≡ done r')
      × Appended (announced code content_length) r' (body_part n head content)
unfolding create
create-Appended codec received content code content_length head n a ends some_body all small =
    let r = announced code content_length in
    let (r', run, added) =
      parse_body-Added r received content head n ends refl refl a.length_fits some_body all small in
    let plain : IsPlain r = record { not_chunked = refl; not_gzip = refl; not_deflate = refl } in
    (
      mark r',
      simp
          (
            parse_status_code-decimal zero_response received a.behind_code code a.status a.some_code
                a.code_fits,
            parse_message-announced codec received code content_length n a,
            run,
          )
          (check_is_finished-plain codec r' (Added-IsPlain added plain)),
      mark-Appended r r' (body_part n head content) plain added,
    )
