-- ===== src/Worker/Arriving.antt =====
-- A response that comes over any number of rounds of the work thread.
use libnhr.Base.{
  ℕ, ◌+◌, ◌^◌, ◌<◌, ◌≡◌, refl, sym, ap, ◌∙◌, subst, arith, some, true, false, List, [], ◌∷◌, ◌++◌,
  length, length-append, append_assoc, append-nil, take-append_le, Bool-cases, inl, inr,
}
use libnhr.Exec.{done}
use libnhr.Clib.Memory.{Bytes}
use libnhr.Codec.{Codec}
use libnhr.Response.{Response}
use libnhr.Response.Body.{limit}
use libnhr.Response.Plain.{is_complete}
use libnhr.Request.{Request, wait_raw_response, end_command}
use libnhr.Worker.Transfer.{errno_after, is_again, take_packets, is_finished}
use libnhr.Worker.Loop.{Answers, on_recvd_response, rounds}
use libnhr.Worker.Collected.{bodies, AllFit, last_time_of, Collected, take_packets-append}
use libnhr.Worker.Waiting.{rounds_ended, rounds_step, round-missing, round-told}

-- the bytes that come in these rounds
abbrev pub bytes_of_rounds : List Answers → Bytes
bytes_of_rounds [] = []
bytes_of_rounds (a ∷ as') = bodies a.received.packets ++ bytes_of_rounds as'

-- Rounds behind a block of this time: the connection stays, and no round is over too late behind the
-- last block before it.
abbrev pub InTime : ℕ → ℕ → List Answers → Type 0
InTime timeout time [] = Unit
InTime timeout time (a ∷ as') =
    let now = last_time_of time a.received.packets in
    (is_again (errno_after a.received.errno a.received.stop) ≡ true)
    × AllFit a.received.packets
    × (a.received.checked < now + timeout)
    × InTime timeout now as'

-- What comes behind the announced length is not kept.
limit_complete : (n : ℕ) (s t : Bytes) → is_complete n s ≡ true → limit n (s ++ t) ≡ limit n s
limit_complete n s t all = ground (arith, all, take-append_le n s t)

Collected-more :
    (code n : ℕ) (s t : Bytes) (r : Response)
    → is_complete n s ≡ true
    → Collected code n s r
    → Collected code n (s ++ t) r
Collected-more code n s t r all c = record {
  valid = c.valid;
  plain = c.plain;
  status = c.status;
  announces = c.announces;
  bytes = c.bytes ∙ sym (limit_complete n s t all);
  finished = c.finished ∙ ground (arith, all, length-append s t);
}

module _ (codec : Codec) (code n : ℕ) where
  -- Behind a round that finished the response, whatever comes then.
  pub rounds-told :
      (a : Answers) (as' : List Answers) (s t : Bytes) (r q : Request) (callback : ℕ)
      (response : Response)
      → r.command ≡ wait_raw_response
      → take_packets codec a.received.packets r ≡ done q
      → q.response ≡ some response
      → is_again (errno_after a.received.errno a.received.stop) ≡ true
      → a.received.checked < q.last_time + q.timeout
      → q.on_recvd_response ≡ some callback
      → Collected code n s response
      → is_complete n s ≡ true
      → (r' : Request) × (told : Response) × (rounds codec (a ∷ as') r
          ≡ done (r', on_recvd_response (some told) ∷ []))
        × (r'.command ≡ end_command)
        × Collected code n (s ++ t) told
  unfolding rounds
  rounds-told a as' s t r q callback response at run is again early tells c all =
      let q' = record q { command = end_command } in
      let finished : is_finished q.response ≡ true = ap is_finished is ∙ c.finished ∙ all in
      let told = round-told codec a r q callback at run again early finished tells in
      (
        q',
        response,
        simp (at, told, rounds_ended codec as' q' refl)
            (ap (λ x. done (q', on_recvd_response x ∷ [])) is),
        refl,
        Collected-more code n s t response all c,
      )

  pub rounds-more :
      (as' : List Answers) (s : Bytes) (r : Request) (old : Response) (callback : ℕ)
      → r.command ≡ wait_raw_response
      → r.response ≡ some old
      → r.on_recvd_response ≡ some callback
      → Collected code n s old
      → is_complete n s ≡ false
      → InTime r.timeout r.last_time as'
      → length s + length (bytes_of_rounds as') < 2 ^ 64
      → is_complete n (s ++ bytes_of_rounds as') ≡ true
      → (r' : Request) × (response : Response) × (rounds codec as' r
          ≡ done (r', on_recvd_response (some response) ∷ []))
        × (r'.command ≡ end_command)
        × Collected code n (s ++ bytes_of_rounds as') response
  unfolding rounds
  rounds-more [] s r old callback at has tells c missing times fits all =
      absurd (ground (arith, missing, all, append-nil s))
  rounds-more (a ∷ as') s r old callback at has tells c missing (again, fit, early, times) fits
        all =
      let ps = a.received.packets in
      let sum = length-append (bodies ps) (bytes_of_rounds as') in
      let same = append_assoc s (bodies ps) (bytes_of_rounds as') in
      let (next, run, c') =
        take_packets-append codec code n ps s r old has c fit (omega (arith, fits, sum)) in
      let q = record r { last_time = last_time_of r.last_time ps; response = some next } in
      subst
        (λ t.
          (r' : Request) × (response : Response) × (rounds codec (a ∷ as') r
            ≡ done (r', on_recvd_response (some response) ∷ []))
          × (r'.command ≡ end_command)
          × Collected code n t response)
        same
        (elim (Bool-cases (is_complete n (s ++ bodies ps))) [
          | inl whole ↦
              rounds-told a as' (s ++ bodies ps) (bytes_of_rounds as') r q callback next at run refl
                again early tells c' whole
          | inr missing' ↦
              let (r', response, told, ended, result) =
                rounds-more as' (s ++ bodies ps) q next callback at refl tells c' missing' times
                  (omega (arith, fits, sum, length-append s (bodies ps)))
                  (ap (is_complete n) same ∙ all) in
              (
                r',
                response,
                rounds_step codec a as' r q r' _ at
                    (round-missing codec a r q at at run again early (c'.finished ∙ missing')) told,
                ended,
                result,
              )
        ])
