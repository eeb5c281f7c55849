-- ===== src/Tests/Exchange.antt =====
-- A GET request and a response in two blocks.
use libnhr.Base.{refl, arith, [], ◌∷◌, ◌++◌}
use libnhr.Clib.Memory.{Bytes}
use libnhr.Clib.Strings.{codes, cstr, strstr, begins}
use libnhr.Clib.Decimal.{decimal, decimal_onto}
use libnhr.Response.{Response}
use libnhr.Response.Receive as Receive
use libnhr.Response.Create.{Ends, Announces}
use libnhr.Request.{Request}
use libnhr.Worker.Transfer.{Packet, Received, failed, would_block}

abbrev head_text : Bytes
head_text = codes "HTTP/1.1 200 OK\r\nContent-Length: 5"

abbrev pub first_buff : Bytes
first_buff = cstr (head_text ++ codes "\r\n\r\nhe")

pub first_buff-Announces : Announces first_buff 200 5
unfolding strstr begins decimal decimal_onto
first_buff-Announces = record {
  behind_code = codes "OK\r\nContent-Length: 5\r\n\r\nhe" ++ (0 ∷ []);
  behind_length = codes "\n\r\nhe" ++ (0 ∷ []);
  status = refl;
  length_field = refl;
  no_transfer_encoding = refl;
  no_content_encoding = refl;
  some_code = omega arith;
  code_fits = omega arith;
  some_length = omega arith;
  length_fits = omega arith;
}

pub first_buff-Ends : Ends first_buff 34 (cstr (codes "he"))
unfolding strstr begins
first_buff-Ends = record { blank = refl; size = refl; some_head = omega arith }

abbrev pub first_block : Packet
first_block = record { buff = first_buff; len = 40; time = 7 }

abbrev pub second_block : Packet
second_block = record { buff = codes "llo!"; len = 3; time = 8 }

abbrev pub received : Received
received = record {
  packets = first_block ∷ second_block ∷ [];
  errno = would_block;
  stop = failed would_block;
  checked = 9;
}

-- the same body in three blocks
abbrev letter_blocks : Received
letter_blocks = record {
  packets =
      first_block
      ∷ record { buff = codes "l"; len = 1; time = 8 }
      ∷ record { buff = codes "lo"; len = 2; time = 8 }
      ∷ [];
  errno = would_block;
  stop = failed would_block;
  checked = 9;
}
