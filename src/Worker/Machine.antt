-- ===== src/Worker/Machine.antt =====
-- The commands of the work thread as a state machine, and the callbacks that a run makes.
pub mod Runs
use libnhr.Base.{
  ℕ, zero, suc, ◌+◌, ◌≤◌, ◌<◌, ◌≡◌, ◌≢◌, ◌⊎◌, refl, ap, ◌∙◌, arith, Option, none, some, Bool, true,
  false, List, [], ◌∷◌, ◌++◌, length, if◌then◌else◌, Bool-cases, inl, inr,
}
use libnhr.Exec.{Exec, done, fault, ◌>>=◌, >>=-eq-done}
use libnhr.Clib.Memory.{Bytes}
use libnhr.Codec.{Codec}
use libnhr.Request.{
  Request, Command, ErrorCode, idle, none_command, connect_to_host, send_raw_request,
  start_waiting_raw_response, wait_raw_response, inform_response, inform_error, end_command,
  error_none,
}
use libnhr.Worker.{close, set_command, check_timeout}
use libnhr.Worker.Transfer.{
  Sent, Received, Packet, create_header, send_raw, send_buffer, sent_or_failed, take_packet,
  take_packets, receive, wait_response, start_waiting, is_finished,
}
use libnhr.Worker.Loop.{
  Call, Answers, on_recvd_response, on_error, call_if, inform, work, round, rounds,
}

-- The command that the first `switch` may leave.
abbrev pub Works : Command → Command → Type 0
Works connect_to_host d = (d ≡ send_raw_request) ⊎ (d ≡ inform_error)
Works send_raw_request d = (d ≡ start_waiting_raw_response) ⊎ (d ≡ inform_error)
Works start_waiting_raw_response d = d ≡ wait_raw_response
Works wait_raw_response d = (d ≡ wait_raw_response) ⊎ (d ≡ inform_response) ⊎ (d ≡ inform_error)
Works c d = d ≡ c

-- An error to be told has its code.
abbrev pub HasCode : Request → Type 0
HasCode r = r.command ≡ inform_error → r.error_code ≢ error_none

sent_or_failed-Works :
    (now : ℕ) (r : Request) (sent : Bool)
    → Works send_raw_request (sent_or_failed now r sent).command
      × HasCode (sent_or_failed now r sent)
unfolding sent_or_failed
sent_or_failed-Works now r true = ground arith
sent_or_failed-Works now r false = ground arith

module _ (codec : Codec) where
  command-take_packet :
      (p : Packet) (r r' : Request) → take_packet codec p r ≡ done r' → r'.command ≡ r.command
  unfolding take_packet
  command-take_packet p r r' e =
      let (response, e1, k1) =
        >>=-eq-done _ (λ response. done (record r { last_time = p.time; response = some response }))
          e in
      ground (arith, k1)

  command-take_packets :
      (ps : List Packet) (r r' : Request)
      → take_packets codec ps r ≡ done r'
      → r'.command ≡ r.command
  unfolding take_packets
  command-take_packets [] r r' e = ground arith
  command-take_packets (p ∷ ps) r r' e =
      let (q, e1, k1) = >>=-eq-done (take_packet codec p r) (take_packets codec ps) e in
      command-take_packets ps q r' k1 ∙ command-take_packet p r q e1

  command-receive :
      (a : Received) (r r' : Request) (more : Bool)
      → receive codec a r ≡ done (r', more)
      → r'.command ≡ r.command
  unfolding receive close
  command-receive a r r' more e =
      let (q, e1, k1) = >>=-eq-done (take_packets codec a.packets r) _ e in
      ground (arith, k1, command-take_packets a.packets r q e1)

  pub wait_response-Works :
      (a : Received) (r r' : Request)
      → r.command ≡ wait_raw_response
      → wait_response codec a r ≡ done r'
      → Works wait_raw_response r'.command × HasCode r'
  unfolding wait_response
  wait_response-Works a r r' h e =
      let (q, e1, k1) = >>=-eq-done (receive codec a r) _ e in
      ground (arith, k1, command-receive a r q.0 q.1 e1)

  pub send_raw-Works :
      (a : Bytes → Sent) (now : ℕ) (r r' : Request)
      → send_raw codec a now r ≡ done r'
      → Works send_raw_request r'.command × HasCode r'
  unfolding send_raw
  send_raw-Works a now r r' e =
      let (q, e1, k1) = >>=-eq-done (create_header codec r) _ e in
      let (p, e2, k2) = >>=-eq-done (send_buffer a q.0 q.1 q.2) _ k1 in
      ground (arith, k2, sent_or_failed-Works now p.0 p.1)
