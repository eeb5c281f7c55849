-- ===== src/Worker/Collected.antt =====
-- A whole response that comes in any number of blocks, and the round that tells it.
use libnhr.Base.{
  ℕ, ◌+◌, ◌-◌, ◌^◌, ◌≤◌, ◌<◌, ◌≡◌, refl, ap, ◌∙◌, subst, arith, none, some, ◌||◌, List, [], ◌∷◌,
  ◌++◌, length, take, length-append, length-take, append_assoc, append-nil,
}
use libnhr.Exec.{done}
use libnhr.Clib.Memory.{Bytes}
use libnhr.Codec.{Codec}
use libnhr.Response.{Response}
use libnhr.Response.Receive as Receive
use libnhr.Response.Body.{stored, IsValid, limit, length-stored}
use libnhr.Response.Limit.{limit-limit, length-limit}
use libnhr.Response.Plain.{IsPlain, is_complete, append-Appended}
use libnhr.Response.Create.{Ends, Announces, body_part, create-Appended}
use libnhr.Request.{Request}
use libnhr.Worker.Transfer.{Packet, take_packet, take_packets}

-- the bytes that a list of blocks brings
abbrev pub bodies : List Packet → Bytes
bodies [] = []
bodies (p ∷ ps) = take p.len p.buff ++ bodies ps

-- no block is longer than the array it came into
abbrev pub AllFit : List Packet → Type 0
AllFit [] = Unit
AllFit (p ∷ ps) = (p.len ≤ length p.buff) × AllFit ps

-- the time of the last block
abbrev pub last_time_of : ℕ → List Packet → ℕ
last_time_of time [] = time
last_time_of time (p ∷ ps) = last_time_of p.time ps

-- A response that has collected the body `s` so far: it holds `s` up to the announced length, and is
-- finished exactly if so much has come.
pub record Collected (code content_length : ℕ) (s : Bytes) (r : Response) : Type 0 where
  pub valid : IsValid r
  pub plain : IsPlain r
  pub status : r.status_code ≡ code
  pub announces : r.content_length ≡ content_length
  pub bytes : stored r ≡ limit content_length s
  pub finished : r.is_finished ≡ is_complete content_length s

is_complete-limit :
    (n : ℕ) (s t : Bytes)
    → (is_complete n s || is_complete n (limit n s ++ t)) ≡ is_complete n (s ++ t)
is_complete-limit n s t =
    ground
      (arith, length-append s t, length-append (limit n s) t, length-append s t, length-take n s)

module _ (codec : Codec) (code content_length : ℕ) where
  append-Collected :
      (p : Packet) (s : Bytes) (old : Response)
      → Collected code content_length s old
      → p.len ≤ length p.buff
      → length s + length (take p.len p.buff) < 2 ^ 64
      → (r : Response) × (Receive.append codec old p.buff p.len ≡ done r)
        × Collected code content_length (s ++ take p.len p.buff) r
  append-Collected p s old c fit fits =
      let t = take p.len p.buff in
      let room : old.body_len + p.len < 2 ^ 64 = omega (
        arith,
        length-stored old c.valid,
        ap length c.bytes,
        length-limit content_length s,
        length-take p.len p.buff,
        fit,
      ) in
      let (r, run, a) = append-Appended codec old p.buff p.len c.plain c.valid fit room in
      (
        r,
        run,
        record {
          valid = a.valid;
          plain = a.plain;
          status = a.status_code ∙ c.status;
          announces = a.content_length ∙ c.announces;
          bytes = a.bytes ∙ rw (c.announces, c.bytes) (limit-limit content_length s t);
          finished =
              a.finished
              ∙ rw (c.announces, c.bytes, c.finished) (is_complete-limit content_length s t);
        },
      )

  pub take_packets-append :
      (ps : List Packet) (s : Bytes) (r : Request) (old : Response)
      → r.response ≡ some old
      → Collected code content_length s old
      → AllFit ps
      → length s + length (bodies ps) < 2 ^ 64
      → (response : Response) × (take_packets codec ps r
          ≡ done (record r { last_time = last_time_of r.last_time ps; response = some response }))
        × Collected code content_length (s ++ bodies ps) response
  unfolding take_packets take_packet
  take_packets-append [] s r old e c fit fits =
      (old, ap (λ x. done (record r { response = x })) e, rw append-nil c)
  take_packets-append (p ∷ ps) s r old e c fit fits =
      let t = take p.len p.buff in
      let sum = length-append t (bodies ps) in
      let (next, run, n) = append-Collected p s old c fit.0 (omega (arith, sum)) in
      let r' = record r { last_time = p.time; response = some next } in
      let (response, later, all) =
        take_packets-append ps (s ++ t) r' next refl n fit.1
          (omega (arith, sum, length-append s t)) in
      (
        response,
        simp (e, run) later,
        subst (λ x. Collected code content_length x response) (append_assoc s t (bodies ps)) all,
      )

  -- If the first block has the header, with an announced length and no encoding, and the begin of
  -- the body, then the blocks of a response, whatever their number and sizes, give one response with
  -- the header's status code that holds the concatenation of their bodies, cut at the announced
  -- length, and that is finished exactly if so much has come. Of the request, only the response and
  -- the time of the last block change, and no access is outside the memory.
  pub take_packets-Collected :
      (first : Packet) (ps : List Packet) (r : Request) (head : ℕ) (content : Bytes)
      → r.response ≡ none
      → Announces first.buff code content_length
      → Ends first.buff head content
      → head + 4 ≤ first.len
      → AllFit (first ∷ ps)
      → first.len + length (bodies ps) < 2 ^ 64
      → (response : Response) × (take_packets codec (first ∷ ps) r
          ≡ done (record r { last_time = last_time_of first.time ps; response = some response }))
        × Collected code content_length (body_part first.len head content ++ bodies ps) response
  unfolding take_packets take_packet
  take_packets-Collected first ps r head content e a ends whole fit fits =
      let s = body_part first.len head content in
      let len = length-take (first.len - (head + 4)) content in
      let (next, run, made) =
        create-Appended codec first.buff content code content_length head first.len a ends whole
          fit.0 (omega arith) in
      let r' = record r { last_time = first.time; response = some next } in
      let begun : Collected code content_length s next = record {
        valid = made.valid;
        plain = made.plain;
        status = made.status_code;
        announces = made.content_length;
        bytes = made.bytes;
        finished = made.finished;
      } in
      let (response, later, all) =
        take_packets-append ps s r' next refl begun fit.1 (omega (arith, len)) in
      (response, simp (e, run) later, all)
