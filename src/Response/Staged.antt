-- ===== src/Response/Staged.antt =====
-- A block of a chunked response, the first or a later one, the last or not.
use libnhr.Base.{
  ℕ, ◌+◌, ◌^◌, ◌<◌, ◌≡◌, refl, sym, ap, ◌∙◌, arith, Bool, true, false, none, List, [], ◌++◌, length,
}
use libnhr.Exec.{done}
use libnhr.Clib.Memory.{Bytes}
use libnhr.Clib.Scan.{scan_hex}
use libnhr.Codec.{Codec}
use libnhr.Response.{Response, zero_response, fix_body_len}
use libnhr.Response.Body.{length-stored}
use libnhr.Response.Chunks.{read_chunks}
use libnhr.Response.Chunked.{Chunk, AllChunks, contents, wires, ending, all_read, read_chunks-whole}
use libnhr.Response.Blocks.{read_chunks-part}
use libnhr.Response.Receive.{check_is_finished, create, append}
use libnhr.Response.Status.{parse_status_code-decimal}
use libnhr.Response.Create.{Ends}
use libnhr.Response.Framed.{Coding, Frames, framed, parse_message-framed, parse_body-chunks}
use libnhr.Response.Gathered.{
  Gathered, Decodes, Delivered, Gathered-Added, framed-Gathered, fix_body_len_unlimited,
  check_is_finished-Gathered, check_is_finished-Delivered,
}

-- What stands behind the chunks of a block: the last chunk, or nothing that is a number.
abbrev pub Tail : Bool → Bytes → Type 0
Tail true tail = (rest : Bytes) × (tail ≡ ending rest)
Tail false tail = scan_hex tail ≡ done none

-- Behind a block: all has come, or more has to.
abbrev pub Stage : ℕ → Coding → Bytes → Bytes → Bool → Response → Type 0
Stage code coding s body true r = Delivered code body r
Stage code coding s body false r = Gathered code coding s r

-- the bytes that have to be decodable when the last chunk comes
abbrev pub DecodesAt : Codec → Coding → Bytes → Bytes → Bool → Type 0
DecodesAt codec coding s body true = Decodes codec coding s body
DecodesAt codec coding s body false = Unit

module _ (codec : Codec) (code : ℕ) (coding : Coding) where
  read_chunks-Stage :
      (last : Bool) (cs : List Chunk) (tail s body : Bytes) (r : Response)
      → Gathered code coding s r
      → AllChunks cs
      → r.body_len + length (contents cs) < 2 ^ 64
      → Tail last tail
      → DecodesAt codec coding (s ++ contents cs) body last
      → (q : Response) × (r' : Response) × (read_chunks r (wires cs tail) ≡ done q)
        × (fix_body_len q ≡ q)
        × (check_is_finished codec q ≡ done r')
        × Stage code coding (s ++ contents cs) body last r'
  read_chunks-Stage false cs tail s body r g all fits no_number decodes =
      let (q, run, added) = read_chunks-part cs tail r all g.valid fits no_number in
      let more = Gathered-Added code coding s (contents cs) r q g added in
      (
        q,
        q,
        run,
        fix_body_len_unlimited q more.header.content_length,
        check_is_finished-Gathered codec code coding _ q more,
        more,
      )
  read_chunks-Stage true cs tail s body r g all fits (rest, ends) decodes =
      let (q, run, added) = read_chunks-whole cs rest r all g.valid fits in
      let more = Gathered-Added code coding s (contents cs) r q g added in
      let (r', finish, d) = check_is_finished-Delivered codec code coding _ body q more decodes in
      (
        all_read q,
        r',
        ap (λ t. read_chunks r (wires cs t)) ends ∙ run,
        fix_body_len_unlimited (all_read q) more.header.content_length,
        finish,
        d,
      )

  -- a further block
  pub append-Stage :
      (last : Bool) (cs : List Chunk) (tail s body received : Bytes) (n : ℕ) (r : Response)
      → Gathered code coding s r
      → AllChunks cs
      → length s + length (contents cs) < 2 ^ 64
      → received ≡ wires cs tail
      → Tail last tail
      → DecodesAt codec coding (s ++ contents cs) body last
      → (r' : Response) × (append codec r received n ≡ done r')
        × Stage code coding (s ++ contents cs) body last r'
  unfolding append
  append-Stage last cs tail s body received n r g all fits is_wires tails decodes =
      let len : length s ≡ r.body_len = ap length (sym g.bytes) ∙ length-stored r g.valid in
      let (q, r', run, same, finish, stage) =
        read_chunks-Stage last cs tail s body r g all (omega (arith, fits, len)) tails decodes in
      (r', simp (g.header.is_chunked, ap (read_chunks r) is_wires ∙ run) finish, stage)

  -- the first block
  pub create-Stage :
      (last : Bool) (cs : List Chunk) (tail body received content : Bytes) (head n : ℕ)
      → Frames received code coding
      → Ends received head content
      → AllChunks cs
      → length (contents cs) < 2 ^ 64
      → content ≡ wires cs tail
      → Tail last tail
      → DecodesAt codec coding (contents cs) body last
      → (r' : Response) × (create codec received n ≡ done r')
        × Stage code coding (contents cs) body last r'
  unfolding create
  create-Stage last cs tail body received content head n f ends all fits is_wires tails decodes =
      let r = framed code coding in
      let (q, r', run, same, finish, stage) =
        read_chunks-Stage last cs tail [] body r (framed-Gathered code coding) all
          (omega (arith, fits)) tails decodes in
      (
        r',
        simp
            (
              parse_status_code-decimal zero_response received f.behind_code code f.status
                  f.some_code f.code_fits,
              parse_message-framed codec received code coding n f,
              parse_body-chunks r q received content head n ends refl
                  (ap (read_chunks r) is_wires ∙ run),
              same,
            )
            finish,
        stage,
      )
