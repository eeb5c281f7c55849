-- ===== src/Tests/Chunked.antt =====
-- A compressed response in chunks, which come in two blocks.
use libnhr.Base.{refl, arith, none, some, true, false, [], ◌∷◌, ◌++◌, length}
use libnhr.Exec.{done}
use libnhr.Clib.Memory.{Bytes}
use libnhr.Clib.Strings.{codes, cstr, strstr, begins}
use libnhr.Clib.Decimal.{decimal, decimal_onto}
use libnhr.Clib.Scan.{
  scan_hex, scan_signed, scan_number, scan_digits, scan_zero, digit, digit_value, to_unsigned,
}
use libnhr.Clib.Scan.Hex.{hex_value, nibble}
use libnhr.Codec.{Codec}
use libnhr.Response.{Response}
use libnhr.Response.Create.{Ends}
use libnhr.Response.Framed.{gzipped, Frames}
use libnhr.Request.{Request, wait_raw_response}
use libnhr.Worker.Transfer.{Received, failed, would_block}
use libnhr.Worker.Loop.{Answers, on_recvd_response, round}
use libnhr.Worker.Gathered.{Block, IsBlock, packets_of}
use libnhr.Tests.Request.{get_request}

-- what is compressed comes behind a mark
abbrev pub marking_codec : Codec
marking_codec = record {
  compress = λ m k. done (some (b'x' ∷ m));
  decompress =
      λ m k. done (elim m [ [] ↦ none | c ∷ s ↦ some (record { mem = s; size = length s }) ]);
}

abbrev head_text : Bytes
head_text = codes "HTTP/1.1 200 OK\r\nTransfer-Encoding: chunked\r\nContent-Encoding: gzip"

abbrev pub first_content : Bytes
first_content = cstr (codes "3\r\nxhe\r\n")

abbrev pub first_block : Block
first_block = record {
  packet = record { buff = head_text ++ (codes "\r\n\r\n" ++ first_content); len = 78; time = 7 };
  chunks = record { digit = b'3'; digits = []; content = codes "xhe" } ∷ [];
  tail = 0 ∷ [];
  is_last = false;
}

abbrev pub last_block : Block
last_block = record {
  packet = record { buff = cstr (codes "3\r\nllo\r\n0\r\n\r\n"); len = 13; time = 8 };
  chunks = record { digit = b'3'; digits = []; content = codes "llo" } ∷ [];
  tail = cstr (codes "0\r\n\r\n");
  is_last = true;
}

pub first_block-Frames : Frames first_block.packet.buff 200 gzipped
unfolding strstr begins decimal decimal_onto
first_block-Frames = record {
  behind_code = _;
  behind_chunked = _;
  status = refl;
  no_length = refl;
  chunked = refl;
  encoding = (_, refl, refl);
  some_code = omega arith;
  code_fits = omega arith;
}

pub first_block-Ends : Ends first_block.packet.buff 67 first_content
unfolding strstr begins
first_block-Ends = record { blank = refl; size = refl; some_head = omega arith }

pub first_block-IsBlock : IsBlock first_block first_content
unfolding scan_hex scan_signed scan_number scan_digits scan_zero digit digit_value to_unsigned
    hex_value nibble
first_block-IsBlock = record {
  whole = refl;
  chunks =
      (record { hex = (refl, tt); size = refl; positive = omega arith; fits = omega arith }, tt);
  ends = refl;
}

pub last_block-IsBlock : IsBlock last_block last_block.packet.buff
unfolding hex_value nibble
last_block-IsBlock = record {
  whole = refl;
  chunks =
      (record { hex = (refl, tt); size = refl; positive = omega arith; fits = omega arith }, tt);
  ends = (0 ∷ [], refl);
}

abbrev received : Received
received = record {
  packets = packets_of (first_block ∷ last_block ∷ []);
  errno = would_block;
  stop = failed would_block;
  checked = 9;
}

abbrev pub answers : Answers
answers = record {
  now = 6;
  network = record {
    begun = 1;
    resolved = λ i. none;
    resolved_at = 1;
    attempt = λ round i. record { started = 1; opened = none; connected = false; checked = 1 };
  };
  sent = λ given. record { result = some (length given); errno = 0 };
  received = received;
}

abbrev waiting_request : Request
waiting_request = record get_request { command = wait_raw_response; on_recvd_response = some 1 }
