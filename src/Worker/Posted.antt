-- ===== src/Worker/Posted.antt =====
-- A POST request with text parameters and a chunked response, from the message to the callback.
use libnhr.Base.{ℕ, ◌^◌, ◌<◌, ◌≡◌, true, List, ◌∷◌, length}
use libnhr.Clib.Memory.{Bytes}
use libnhr.Codec.{Codec}
use libnhr.Response.{Response}
use libnhr.Response.Create.{Ends}
use libnhr.Response.Framed.{Coding, Frames}
use libnhr.Request.{Request}
use libnhr.Worker.Transfer.{Received, errno_after, is_again}
use libnhr.Worker.Collected.{last_time_of}
use libnhr.Worker.Gathered.{Block, IsBlock, WellEnded, contents_of, packets_of}

-- The blocks of one call of `nhr_request_recv`: a chunked response with the contents `s`, perhaps
-- encoded, with the time when all is there.
pub record Streams (answer : Received) (code : ℕ) (coding : Coding) (s : Bytes) : Type 0 where
  pub first : Block
  pub more : List Block
  pub head : ℕ
  pub content : Bytes
  pub packets : answer.packets ≡ packets_of (first ∷ more)
  pub again : is_again (errno_after answer.errno answer.stop) ≡ true
  pub frames : Frames first.packet.buff code coding
  pub ends : Ends first.packet.buff head content
  pub chunks : IsBlock first content
  pub well_ended : WellEnded first.is_last more
  pub all : contents_of (first ∷ more) ≡ s
  pub fits : length s < 2 ^ 64

abbrev pub last_arrival :
    {answer : Received} {code : ℕ} {coding : Coding} {s : Bytes} → Streams answer code coding s → ℕ
last_arrival x = last_time_of x.first.packet.time (packets_of x.more)
