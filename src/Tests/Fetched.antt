-- ===== src/Tests/Fetched.antt =====
-- A GET request from its connection to its callback: the second of two addresses accepts, and the
-- response comes in two rounds.
use libnhr.Base.{◌≡◌, refl, arith, some, ltb, inr}
use libnhr.Response.{Response}
use libnhr.Request.{Request, connect_to_host, send_raw_request}
use libnhr.Worker.Connect as Connect
use libnhr.Worker.Connect.{Network, resolve_from}
use libnhr.Worker.Loop.{Answers, on_recvd_response}
use libnhr.Worker.Collected.{Collected}
use libnhr.Worker.Reached.{Reaches, connect_to_host-Reaches}
use libnhr.Tests.Request.{get_request}
use libnhr.Tests.Arrived.{nothing}

abbrev two_addresses : Network
two_addresses = record {
  begun = 1;
  resolved = λ i. some 2;
  resolved_at = 2;
  attempt = λ round i. record { started = 2; opened = some 5; connected = ltb 0 i; checked = 3 };
}

abbrev connecting : Answers
connecting = record nothing { network = two_addresses }

abbrev new_get : Request
new_get = record get_request { command = connect_to_host; on_recvd_response = some 1 }

two_addresses-Reaches : Reaches two_addresses new_get.timeout 1 5
unfolding resolve_from
two_addresses-Reaches = record {
  addresses = 2;
  found = refl;
  in_time = omega arith;
  enough = omega arith;
  accepts = (inr (5, refl, refl), omega arith, (refl, refl));
}

connect_to_host-Reaches_example :
    Connect.connect_to_host two_addresses new_get
    ≡ record new_get { command = send_raw_request; last_time = 2; socket = some 5 }
connect_to_host-Reaches_example =
    connect_to_host-Reaches two_addresses new_get 1 5 two_addresses-Reaches
