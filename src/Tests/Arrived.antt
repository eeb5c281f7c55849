-- ===== src/Tests/Arrived.antt =====
-- A response whose blocks come in different rounds, and one that is cut short.
use libnhr.Base.{length, ◌≡◌, refl, arith, none, some, false, [], ◌∷◌, List}
use libnhr.Exec.{done}
use libnhr.Clib.Strings.{codes}
use libnhr.Response.{Response}
use libnhr.Request.{Request, wait_raw_response, end_command}
use libnhr.Worker.Transfer.{Packet, Errno, failed, would_block, other_error}
use libnhr.Worker.Loop.{Answers, on_recvd_response, round}
use libnhr.Worker.Collected.{Collected}
use libnhr.Worker.Arrived.{round-cut}
use libnhr.Tests.Response.{no_codec, two_of_five, two_of_five-IsValid, two_of_five-IsPlain}
use libnhr.Tests.Request.{get_request}
use libnhr.Tests.Exchange.{first_block, second_block}

-- a round that brings these blocks
abbrev pub brings : List Packet → Errno → Answers
brings ps errno = record {
  now = 6;
  network = record {
    begun = 1;
    resolved = λ i. none;
    resolved_at = 1;
    attempt = λ round i. record { started = 1; opened = none; connected = false; checked = 1 };
  };
  sent = λ given. record { result = some (length given); errno = 0 };
  received = record { packets = ps; errno = would_block; stop = failed errno; checked = 9 };
}

abbrev pub waiting_request : Request
waiting_request = record get_request { command = wait_raw_response; on_recvd_response = some 1 }

abbrev pub nothing : Answers
nothing = brings [] would_block

abbrev pub with_header : Answers
with_header = brings (first_block ∷ []) would_block

abbrev pub with_rest : Answers
with_rest = brings (second_block ∷ []) would_block

two_of_five-Collected : Collected two_of_five.status_code 5 (codes "he") two_of_five
two_of_five-Collected = record {
  valid = two_of_five-IsValid;
  plain = two_of_five-IsPlain;
  status = refl;
  announces = refl;
  bytes = refl;
  finished = refl;
}

-- one letter, and the end
abbrev cut_short : Answers
cut_short = brings (record { buff = codes "l"; len = 1; time = 8 } ∷ []) other_error

abbrev begun_request : Request
begun_request = record waiting_request { response = some two_of_five }

round-cut_example :
    (response : Response) × (round no_codec cut_short begun_request
      ≡ done (
        record begun_request {
          command = end_command;
          socket = none;
          last_time = 8;
          response = some response;
        },
        on_recvd_response (some response) ∷ [],
      ))
    × Collected two_of_five.status_code 5 (codes "hel") response
round-cut_example =
    round-cut no_codec two_of_five.status_code 5 cut_short begun_request two_of_five (codes "he") 1
      refl refl refl two_of_five-Collected (omega arith, tt) (omega arith) refl
