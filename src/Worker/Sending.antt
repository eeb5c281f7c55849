-- ===== src/Worker/Sending.antt =====
-- The rounds that send the message and begin to wait for the response.
use libnhr.Base.{List, ℕ, ◌^◌, ◌<◌, ◌≡◌, refl, ap, ◌∙◌, arith, some, true, [], ◌∷◌, length, lt→ltb}
use libnhr.Exec.{done, ◌>>=◌}
use libnhr.Clib.Memory.{Bytes, read-append}
use libnhr.Clib.Strings.{cstr}
use libnhr.Codec.{Codec}
use libnhr.Request.{
  Request, Command, error_none, send_raw_request, start_waiting_raw_response, wait_raw_response,
}
use libnhr.Worker.{set_command}
use libnhr.Worker.Transfer.{
  Sent, start_waiting, send_buffer, given_size, sent_or_failed, create_header, send_raw,
}
use libnhr.Worker.Loop.{Call, Answers, inform, work, round, rounds}

-- the request while its response is waited for
abbrev pub waiting_since : ℕ → Request → Request
waiting_since now r = record r {
  command = wait_raw_response;
  last_time = now;
  error_code = error_none;
}

module _ (codec : Codec) where
  -- A round whose command and its work are known.
  pub round-work :
      (a : Answers) (c : Command) (r q : Request)
      → r.command ≡ c
      → work codec a c r ≡ done q
      → round codec a r ≡ done (inform q.command q)
  unfolding round
  round-work a c r q h e =
      ap (λ k. work codec a k r >>= λ r'. done (inform r'.command r')) h
      ∙ ap (λ m. m >>= λ r'. done (inform r'.command r')) e

  round-start :
      (a : Answers) (r : Request)
      → r.command ≡ start_waiting_raw_response
      → round codec a r ≡ done (record r { command = wait_raw_response; last_time = a.now }, [])
  unfolding work inform start_waiting set_command
  round-start a r c = round-work a start_waiting_raw_response r _ c refl

  given_size_small : (n : ℕ) → n < 2 ^ 31 → given_size n ≡ n
  unfolding given_size
  given_size_small n small = ground (arith, small)

  send_buffer-sent :
      (answer : Bytes → Sent) (r : Request) (s : Bytes) (n : ℕ)
      → length s < 2 ^ 31
      → (answer s).result ≡ some n
      → 0 < n
      → send_buffer answer r (cstr s) (length s) ≡ done (record r { error_code = error_none }, true)
  unfolding send_buffer
  send_buffer-sent answer r s n small sent some_sent =
      simp (given_size_small (length s) small, read-append s (0 ∷ []), sent, lt→ltb 0 n some_sent)

  round-send :
      (a : Answers) (r q : Request) (message : Bytes) (n : ℕ)
      → r.command ≡ send_raw_request
      → create_header codec r ≡ done (q, cstr message, length message)
      → length message < 2 ^ 31
      → (a.sent message).result ≡ some n
      → 0 < n
      → round codec a r
        ≡ done (record q { command = start_waiting_raw_response; error_code = error_none }, [])
  unfolding work inform send_raw sent_or_failed set_command
  round-send a r q message n c made small sent some_sent =
      round-work a send_raw_request r
        (record q { command = start_waiting_raw_response; error_code = error_none }) c
        (simp (made, send_buffer-sent a.sent q message n small sent some_sent))

  -- Sending, beginning to wait, and what comes then.
  pub rounds-sending :
      (a b : Answers) (cs : List Answers) (r q r' : Request) (message : Bytes) (n : ℕ)
      (calls : List Call)
      → r.command ≡ send_raw_request
      → create_header codec r ≡ done (q, cstr message, length message)
      → length message < 2 ^ 31
      → (a.sent message).result ≡ some n
      → 0 < n
      → rounds codec cs (waiting_since b.now q) ≡ done (r', calls)
      → rounds codec (a ∷ b ∷ cs) r ≡ done (r', calls)
  unfolding rounds
  rounds-sending a b cs r q r' message n calls is_send made small sent some_sent told =
      let sent_request = record q {
        command = start_waiting_raw_response;
        error_code = error_none;
      } in
      simp (
        is_send,
        round-send a r q message n is_send made small sent some_sent,
        round-start b sent_request refl,
        told,
      )

  -- and the one call of `nhr_request_recv` that brings all
  pub rounds-sent :
      (a b c : Answers) (r q r' : Request) (message : Bytes) (n : ℕ) (call : Call)
      → r.command ≡ send_raw_request
      → create_header codec r ≡ done (q, cstr message, length message)
      → length message < 2 ^ 31
      → (a.sent message).result ≡ some n
      → 0 < n
      → round codec c (waiting_since b.now q) ≡ done (r', call ∷ [])
      → rounds codec (a ∷ b ∷ c ∷ []) r ≡ done (r', call ∷ [])
  unfolding rounds
  rounds-sent a b c r q r' message n call is_send made small sent some_sent told =
      rounds-sending a b (c ∷ []) r q r' message n (call ∷ []) is_send made small sent some_sent
        (rw told refl)
