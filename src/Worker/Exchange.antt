-- ===== src/Worker/Exchange.antt =====
-- A GET request and its response, from the message to the callback.
use libnhr.Base.{
  ℕ, ◌+◌, ◌^◌, ◌≤◌, ◌<◌, ◌≡◌, refl, ap, ◌∙◌, none, some, Bool, true, List, [], ◌∷◌, ◌++◌, length,
  lt→ltb,
}
use libnhr.Exec.{done}
use libnhr.Clib.Memory.{Bytes}
use libnhr.Clib.Strings.{cstr}
use libnhr.Codec.{Codec}
use libnhr.Map.Stores.{StoresAll}
use libnhr.Response.{Response}
use libnhr.Response.Body.{stored}
use libnhr.Response.Plain.{is_complete}
use libnhr.Response.Create.{Ends, Announces, body_part}
use libnhr.Request.{
  Request, method_get, send_raw_request, wait_raw_response, inform_response, end_command,
}
use libnhr.Request.Render.{Field, texts, total}
use libnhr.Request.Message.{Heads}
use libnhr.Request.Message.GetText.{get_message, create_header_get-message}
use libnhr.Worker.{set_command, check_timeout}
use libnhr.Worker.Transfer.{
  Packet, Received, errno_after, is_again, receive, wait_response, create_header,
}
use libnhr.Worker.Loop.{Answers, on_recvd_response, call_if, inform, work, round, rounds}
use libnhr.Worker.Sending.{waiting_since, round-work, rounds-sent}
use libnhr.Worker.Collected.{bodies, AllFit, last_time_of, Collected, take_packets-Collected}

-- The blocks of one call of `nhr_request_recv`: a header with a status code and an announced length
-- in the first, and then a body, with the time when all is there.
pub record Arrives (answer : Received) (code content_length : ℕ) (body : Bytes) : Type 0 where
  pub first : Packet
  pub more : List Packet
  pub head : ℕ
  pub content : Bytes
  pub packets : answer.packets ≡ first ∷ more
  pub again : is_again (errno_after answer.errno answer.stop) ≡ true
  pub says : Announces first.buff code content_length
  pub ends : Ends first.buff head content
  pub whole : head + 4 ≤ first.len
  pub fit : AllFit (first ∷ more)
  pub fits : first.len + length (bodies more) < 2 ^ 64
  pub all : body_part first.len head content ++ bodies more ≡ body
  pub complete : is_complete content_length body ≡ true

abbrev pub arrival :
    {answer : Received} {code content_length : ℕ} {body : Bytes}
    → Arrives answer code content_length body
    → ℕ
arrival a = last_time_of a.first.time a.more

module _ (codec : Codec) where
  wait_response-Collected :
      (answer : Received) (code content_length : ℕ) (body : Bytes) (r : Request)
      (a : Arrives answer code content_length body)
      → r.response ≡ none
      → answer.checked < arrival a + r.timeout
      → (response : Response) × (wait_response codec answer r
          ≡ done (record r {
            command = inform_response;
            last_time = arrival a;
            response = some response;
          }))
        × Collected code content_length body response
  unfolding wait_response receive set_command check_timeout
  wait_response-Collected answer code content_length body r a e early =
      let (response, run, c) =
        take_packets-Collected codec code content_length a.first a.more r a.head a.content e a.says
          a.ends a.whole a.fit a.fits in
      (
        response,
        simp (
          a.packets,
          run,
          a.again,
          c.finished,
          a.all,
          a.complete,
          lt→ltb answer.checked (arrival a + r.timeout) early,
        ),
        rw a.all at c,
      )

  round-Collected :
      (a : Answers) (code content_length : ℕ) (body : Bytes) (r : Request) (callback : ℕ)
      (arr : Arrives a.received code content_length body)
      → r.command ≡ wait_raw_response
      → r.response ≡ none
      → r.on_recvd_response ≡ some callback
      → a.received.checked < arrival arr + r.timeout
      → (response : Response) × (round codec a r
          ≡ done (
            record r { command = end_command; last_time = arrival arr; response = some response },
            on_recvd_response (some response) ∷ [],
          ))
        × Collected code content_length body response
  unfolding work inform set_command
  round-Collected a code content_length body r callback arr c e cb early =
      let (response, run, all) =
        wait_response-Collected a.received code content_length body r arr e early in
      (
        response,
        round-work codec a wait_raw_response r _ c run
            ∙ ap
                (λ called. done (
                  record r {
                    command = end_command;
                    last_time = arrival arr;
                    response = some response;
                  },
                  call_if called (on_recvd_response (some response)),
                ))
                cb,
        all,
      )

  -- A GET request whose host is connected, with path, host, headers and text parameters of bounded
  -- size, whose message has less than 2^31 bytes, comes to its callback in three rounds if `send`,
  -- given exactly this message, takes bytes of it, and the response comes with the third round and in
  -- time: the one call is that of the response callback,
  -- with the response that has collected the whole body, however it was split into blocks, and the
  -- thread ends.
  pub rounds_get :
      (a b c : Answers) (r : Request) (path host : Bytes) (fs qs : List Field)
      (n callback code content_length : ℕ) (body : Bytes)
      (arr : Arrives c.received code content_length body)
      → r.command ≡ send_raw_request
      → r.method ≡ method_get
      → r.response ≡ none
      → r.on_recvd_response ≡ some callback
      → Heads r path host fs
      → StoresAll r.parameters (texts qs)
      → length path + length host + total 4 fs + total 2 qs + 256 < 2 ^ 64
      → length (get_message path host r.port fs qs) < 2 ^ 31
      → (a.sent (get_message path host r.port fs qs)).result ≡ some n
      → 0 < n
      → c.received.checked < arrival arr + r.timeout
      → (r' : Request) × (response : Response) × (rounds codec (a ∷ b ∷ c ∷ []) r
          ≡ done (r', on_recvd_response (some response) ∷ []))
        × (r'.command ≡ end_command)
        × Collected code content_length body response
  unfolding create_header
  rounds_get a b c r path host fs qs n callback code content_length body arr is_send is_get new cb
        heads params fits small sent some_sent early =
      let waiting = waiting_since b.now r in
      let message = create_header_get-message r path host fs qs heads params fits in
      let text_of = get_message path host r.port fs qs in
      let made : create_header codec r ≡ done (r, cstr text_of, length text_of) =
        simp (is_get, message) in
      let (response, told, all) =
        round-Collected c code content_length body waiting callback arr refl new cb early in
      let r' = record waiting {
        command = end_command;
        last_time = arrival arr;
        response = some response;
      } in
      (
        r',
        response,
        rounds-sent codec a b c r r r' text_of n (on_recvd_response (some response)) is_send made
            small sent some_sent told,
        refl,
        all,
      )

-- what the getters show of a response, and whether it is finished
abbrev pub view : Response → ℕ × Bytes × Bool
view r = (r.status_code, stored r, r.is_finished)
