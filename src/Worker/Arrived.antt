-- ===== src/Worker/Arrived.antt =====
-- A response that comes over any number of rounds of the work thread, and one that is cut short.
use libnhr.Base.{
  ℕ, ◌+◌, ◌-◌, ◌^◌, ◌≤◌, ◌<◌, ◌≡◌, refl, ap, ◌∙◌, arith, none, some, true, false, List, [], ◌∷◌,
  ◌++◌, length, length-append, length-take, Bool-cases, inl, inr,
}
use libnhr.Exec.{done}
use libnhr.Clib.Memory.{Bytes}
use libnhr.Codec.{Codec}
use libnhr.Response.{Response}
use libnhr.Response.Plain.{is_complete}
use libnhr.Response.Create.{Ends, Announces, body_part}
use libnhr.Request.{Request, wait_raw_response, end_command}
use libnhr.Worker.Transfer.{Packet, errno_after, is_again, take_packets, is_finished}
use libnhr.Worker.Loop.{Answers, on_recvd_response, round, rounds}
use libnhr.Worker.Collected.{
  bodies, AllFit, last_time_of, Collected, take_packets-append, take_packets-Collected,
}
use libnhr.Worker.Waiting.{rounds_step, round-missing, round-closed}
use libnhr.Worker.Arriving.{bytes_of_rounds, InTime, rounds-told, rounds-more}
use libnhr.Worker.Timeout.{AllQuiet, round-quiet}

module _ (codec : Codec) (code n : ℕ) where
  rounds-first :
      (a : Answers) (more : List Answers) (r : Request) (first : Packet) (ps : List Packet)
      (head : ℕ) (content : Bytes) (callback : ℕ)
      → r.command ≡ wait_raw_response
      → r.response ≡ none
      → r.on_recvd_response ≡ some callback
      → a.received.packets ≡ first ∷ ps
      → is_again (errno_after a.received.errno a.received.stop) ≡ true
      → a.received.checked < last_time_of first.time ps + r.timeout
      → Announces first.buff code n
      → Ends first.buff head content
      → head + 4 ≤ first.len
      → AllFit (first ∷ ps)
      → InTime r.timeout (last_time_of first.time ps) more
      → let s = body_part first.len head content ++ bodies ps in
        first.len + length (bodies ps) + length (bytes_of_rounds more) < 2 ^ 64
        → is_complete n (s ++ bytes_of_rounds more) ≡ true
        → (r' : Request) × (response : Response) × (rounds codec (a ∷ more) r
            ≡ done (r', on_recvd_response (some response) ∷ []))
          × (r'.command ≡ end_command)
          × Collected code n (s ++ bytes_of_rounds more) response
  rounds-first a more r first ps head content callback at new tells came again early says ends whole
        fit times fits all =
      let s = body_part first.len head content ++ bodies ps in
      let (next, run, c) =
        take_packets-Collected codec code n first ps r head content new says ends whole fit
          (omega (arith, fits)) in
      let q = record r { last_time = last_time_of first.time ps; response = some next } in
      let run' = ap (λ x. take_packets codec x r) came ∙ run in
      elim (Bool-cases (is_complete n s)) [
        | inl enough ↦
            rounds-told codec code n a more s (bytes_of_rounds more) r q callback next at run' refl
              again early tells c enough
        | inr missing ↦
            let (r', response, told, ended, result) =
              rounds-more codec code n more s q next callback at refl tells c missing times
                (omega (
                  arith,
                  fits,
                  length-append (body_part first.len head content) (bodies ps),
                  length-take (first.len - (head + 4)) content,
                ))
                all in
            (
              r',
              response,
              rounds_step codec a more r q r' _ at
                  (round-missing codec a r q at at run' again early (c.finished ∙ missing)) told,
              ended,
              result,
            )
      ]

  -- A request that waits for its response gets it over any number of rounds: first none in which
  -- nothing comes, or some; then one with the header, which announces a length; then any with more, or
  -- with nothing. If no round is too late behind the last block before it, and as many bytes as are
  -- announced come in all, then the thread calls the response callback once, with a finished response
  -- of the header's status code, which holds the bytes of the body in the order in which they came, up
  -- to the announced length; and the thread ends.
  pub rounds-Collected :
      (quiet : List Answers) (a : Answers) (more : List Answers) (r : Request) (first : Packet)
      (ps : List Packet) (head : ℕ) (content : Bytes) (callback : ℕ)
      → r.command ≡ wait_raw_response
      → r.response ≡ none
      → r.on_recvd_response ≡ some callback
      → AllQuiet (r.last_time + r.timeout) quiet
      → a.received.packets ≡ first ∷ ps
      → is_again (errno_after a.received.errno a.received.stop) ≡ true
      → a.received.checked < last_time_of first.time ps + r.timeout
      → Announces first.buff code n
      → Ends first.buff head content
      → head + 4 ≤ first.len
      → AllFit (first ∷ ps)
      → InTime r.timeout (last_time_of first.time ps) more
      → let s = body_part first.len head content ++ bodies ps in
        first.len + length (bodies ps) + length (bytes_of_rounds more) < 2 ^ 64
        → is_complete n (s ++ bytes_of_rounds more) ≡ true
        → (r' : Request) × (response : Response) × (rounds codec (quiet ++ (a ∷ more)) r
            ≡ done (r', on_recvd_response (some response) ∷ []))
          × (r'.command ≡ end_command)
          × Collected code n (s ++ bytes_of_rounds more) response
  rounds-Collected [] a more r first ps head content callback at new tells still came again early
        says ends whole fit times fits all =
      rounds-first a more r first ps head content callback at new tells came again early says ends
        whole fit times fits all
  rounds-Collected (b ∷ quiet) a more r first ps head content callback at new tells
        (nothing, on_time, still) came again early says ends whole fit times fits all =
      let (r', response, told, ended, result) =
        rounds-Collected quiet a more r first ps head content callback at new tells still came again
          early says ends whole fit times fits all in
      (
        r',
        response,
        rounds_step codec b (quiet ++ (a ∷ more)) r r r' _ at
            (round-quiet codec b r at (ap is_finished new) nothing on_time) told,
        ended,
        result,
      )

  -- If `recv` stops while a response without encoding is collected, and the `errno` that is read then
  -- is neither EAGAIN nor EINPROGRESS, as when the connection fails, or ends with no such value left
  -- from before, the response callback is called once with what has come, whether this is all of the
  -- announced length or not, the socket is closed, and the thread ends. The response is finished
  -- exactly if all has come.
  pub round-cut :
      (a : Answers) (r : Request) (old : Response) (s : Bytes) (callback : ℕ)
      → r.command ≡ wait_raw_response
      → r.response ≡ some old
      → r.on_recvd_response ≡ some callback
      → Collected code n s old
      → AllFit a.received.packets
      → length s + length (bodies a.received.packets) < 2 ^ 64
      → is_again (errno_after a.received.errno a.received.stop) ≡ false
      → (response : Response) × (round codec a r
          ≡ done (
            record r {
              command = end_command;
              socket = none;
              last_time = last_time_of r.last_time a.received.packets;
              response = some response;
            },
            on_recvd_response (some response) ∷ [],
          ))
        × Collected code n (s ++ bodies a.received.packets) response
  round-cut a r old s callback at has tells c fit fits ends =
      let (response, run, c') =
        take_packets-append codec code n a.received.packets s r old has c fit fits in
      (response, round-closed codec a r _ callback at run ends tells, c')
