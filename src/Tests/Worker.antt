-- ===== src/Tests/Worker.antt =====
-- src/nhr_request_private.c at concrete requests.
use libnhr.Base.{ℕ, zero, suc, ◌≡◌, refl, arith, none, some, true, false, [], ◌∷◌}
use libnhr.Exec.{done}
use libnhr.Request.{
  Request, new_request, connect_to_host, end_command, failed_connect_to_host, wait_raw_response,
  timeout_error, inform_error,
}
use libnhr.Worker.{set_command, check_timeout}
use libnhr.Worker.Connect as Connect
use libnhr.Worker.Connect.{
  Attempt, Network, Outcome, looped, resolve_from, connect_getaddr_info, connect_each,
  connect_addresses, connect_resolved, fail_connect,
}
use libnhr.Worker.Connected.{Decided, connect_to_host-Decided}
use libnhr.Worker.Refused.{Refuses, connect_to_host-Refuses}
use libnhr.Worker.Transfer.{closed, failed, would_block}
use libnhr.Worker.Timeout.{timed_out, rounds_timeout}
use libnhr.Worker.Loop.{Answers, on_error, inform, work, round, rounds}
use libnhr.Worker.Machine.{HasCode}
use libnhr.Worker.Machine.Runs.{Follows, Told, round-Follows, rounds-Told}
use libnhr.Tests.Response.{no_codec}

-- `connect` fails on the one address in the first round, and would succeed in the second
abbrev second_time : ℕ → ℕ → Attempt
second_time zero i = record { started = 1; opened = some 5; connected = false; checked = 1 }
second_time (suc j) i = record { started = 1; opened = some 6; connected = true; checked = 1 }

abbrev one_address : Network
one_address = record { begun = 1; resolved = λ i. some 1; resolved_at = 1; attempt = second_time }

-- no host has an address
abbrev no_address : Network
no_address = record { begun = 1; resolved = λ i. none; resolved_at = 1; attempt = second_time }

-- a sent request
abbrev pub sent_request : Request
sent_request = record new_request { command = connect_to_host; on_error = some 1 }

abbrev failed_request : Request
failed_request = record sent_request {
  command = end_command;
  last_time = 1;
  error_code = failed_connect_to_host;
}

abbrev pub answers : Answers
answers = record {
  now = 1;
  network = no_address;
  sent = λ given. record { result = none; errno = 0 };
  received = record { packets = []; errno = would_block; stop = closed; checked = 1 };
}

connect_to_host-Decided_example :
    Decided one_address sent_request (Connect.connect_to_host one_address sent_request)
connect_to_host-Decided_example = connect_to_host-Decided one_address sent_request

one_address-Refuses : Refuses one_address sent_request.timeout 0 5
unfolding resolve_from
one_address-Refuses = record {
  found = refl;
  in_time = omega arith;
  refuses = (refl, refl, omega arith);
}

connect_to_host-Refuses_example :
    Connect.connect_to_host one_address sent_request ≡ record sent_request {
      command = inform_error;
      error_code = failed_connect_to_host;
      last_time = 1;
    }
connect_to_host-Refuses_example =
    connect_to_host-Refuses one_address sent_request 0 5 refl one_address-Refuses

failed_round :
    round no_codec answers sent_request
    ≡ done (failed_request, on_error failed_connect_to_host ∷ [])
unfolding round work inform Connect.connect_to_host connect_getaddr_info resolve_from
    connect_resolved check_timeout set_command
failed_round = refl

sent_request-HasCode : HasCode sent_request
sent_request-HasCode = ground arith

round-Follows_example :
    Follows connect_to_host end_command
    × Told failed_request (on_error failed_connect_to_host ∷ [])
    × HasCode failed_request
round-Follows_example =
    round-Follows no_codec answers sent_request failed_request
      (on_error failed_connect_to_host ∷ []) sent_request-HasCode failed_round

failed_run :
    rounds no_codec (answers ∷ answers ∷ []) sent_request
    ≡ done (failed_request, on_error failed_connect_to_host ∷ [])
unfolding rounds
failed_run = rw failed_round refl

rounds-Told_example : Told failed_request (on_error failed_connect_to_host ∷ [])
rounds-Told_example =
    rounds-Told no_codec (answers ∷ answers ∷ []) sent_request failed_request
      (on_error failed_connect_to_host ∷ []) sent_request-HasCode failed_run

-- nothing comes at time 20, and nothing at time 40
abbrev waiting_request : Request
waiting_request = record sent_request { command = wait_raw_response; last_time = 10 }

abbrev quiet_at : ℕ → Answers
quiet_at time = record answers {
  received = record {
    packets = [];
    errno = would_block;
    stop = failed would_block;
    checked = time;
  };
}

rounds_timeout_example :
    rounds no_codec (quiet_at 20 ∷ quiet_at 40 ∷ []) waiting_request
    ≡ done (timed_out waiting_request, on_error timeout_error ∷ [])
rounds_timeout_example =
    rounds_timeout no_codec (quiet_at 20 ∷ []) (quiet_at 40) waiting_request 1 refl refl refl
      ((refl, refl), omega arith, tt) (refl, refl) (omega arith)
