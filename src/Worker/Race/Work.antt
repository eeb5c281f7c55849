-- ===== src/Worker/Race/Work.antt =====
-- What the first `switch` leaves of a request whose command another thread may have changed.
use libnhr.Base.{ℕ, ◌≡◌, ◌≢◌, refl, arith, List, [], ◌∷◌}
use libnhr.Exec.{done}
use libnhr.Clib.Memory.{Bytes}
use libnhr.Codec.{Codec}
use libnhr.Request.{
  Request, Command, connect_to_host, send_raw_request, start_waiting_raw_response,
  wait_raw_response, end_command,
}
use libnhr.Worker.{close, set_command, check_timeout}
use libnhr.Worker.Connected.{connect_to_host_command}
use libnhr.Worker.Machine.{HasCode}
use libnhr.Worker.Transfer.{
  Sent, Received, Packet, send_raw, send_buffer, sent_or_failed, take_packet, take_packets, receive,
  wait_response, start_waiting,
}
use libnhr.Worker.Loop.{Answers, work}
use libnhr.Worker.Race.Frame.{setup, setup-connect_to_host}
use libnhr.Worker.Race.Message.{setup-create_header}

-- The thread and the callbacks are the same; an END that is there was there before; and an error to
-- be told has its code, if it had it before.
pub record After (r r' : Request) : Type 0 where
  pub same : setup r' ≡ setup r
  pub unended : r.command ≢ end_command → r'.command ≢ end_command
  pub coded : HasCode r → HasCode r'

After-refl : (r : Request) → After r r
After-refl r = record { same = refl; unended = λ h. h; coded = λ h. h }

module _ (codec : Codec) where
  send_raw-After :
      (a : Bytes → Sent) (now : ℕ) (r r' : Request) → send_raw codec a now r ≡ done r' → After r r'
  unfolding send_raw sent_or_failed send_buffer check_timeout close set_command
  send_raw-After a now r r' e = record {
    same = grind (arith, e, setup-create_header codec r);
    unended = λ h. ground (arith, e);
    coded = λ h. ground (arith, e);
  }

  -- Receiving changes the response, the socket and the times.
  abbrev ReceivedOnly : Request → Request → Type 0
  ReceivedOnly r r' =
      (setup r' ≡ setup r) × (r'.command ≡ r.command) × (r'.error_code ≡ r.error_code)

  take_packets-ReceivedOnly :
      (ps : List Packet) (r r' : Request) → take_packets codec ps r ≡ done r' → ReceivedOnly r r'
  unfolding take_packets take_packet
  take_packets-ReceivedOnly [] r r' e = ground (arith, e)
  take_packets-ReceivedOnly (p ∷ ps) r r' e = grind (arith, e, take_packets-ReceivedOnly ps)

  wait_response-After :
      (a : Received) (r r' : Request) → wait_response codec a r ≡ done r' → After r r'
  unfolding wait_response receive close set_command check_timeout
  wait_response-After a r r' e = record {
    same = grind (arith, e, take_packets-ReceivedOnly a.packets r);
    unended = λ h. grind (arith, e, take_packets-ReceivedOnly a.packets r);
    coded = λ h. grind (arith, e, take_packets-ReceivedOnly a.packets r);
  }

  pub work-After :
      (a : Answers) (c : Command) (r r' : Request) → work codec a c r ≡ done r' → After r r'
  unfolding work
  work-After a connect_to_host r r' e =
      let d = connect_to_host_command a.network r in
      let same = setup-connect_to_host (setup r) a.network r refl in
      record {
        same = grind (arith, e, same);
        unended = λ h. ground (arith, e, d);
        coded = λ h. ground (arith, e, d);
      }
  work-After a send_raw_request r r' e = send_raw-After a.sent a.now r r' e
  work-After a start_waiting_raw_response r r' e =
      unfold start_waiting in
      record {
        same = ground (arith, e);
        unended = λ h. ground (arith, e);
        coded = λ h. ground (arith, e);
      }
  work-After a wait_raw_response r r' e = wait_response-After a.received r r' e
  work-After a _ r r' e = record {
    same = ground (arith, e);
    unended = λ h. ground (arith, e);
    coded = λ h. ground (arith, e);
  }
