-- ===== src/Worker/Fetched.antt =====
-- The whole life of a GET request in its thread: connecting, sending, waiting, telling.
use libnhr.Base.{ℕ, ◌+◌, ◌^◌, ◌≤◌, ◌<◌, ◌≡◌, some, true, List, ◌∷◌, ◌++◌, length}
use libnhr.Clib.Memory.{Bytes}
use libnhr.Codec.{Codec}
use libnhr.Response.{Response}
use libnhr.Response.Plain.{is_complete}
use libnhr.Response.Create.{Ends, Announces, body_part}
use libnhr.Request.{Request, send_raw_request}
use libnhr.Worker.Transfer.{Packet, errno_after, is_again}
use libnhr.Worker.Loop.{Answers}
use libnhr.Worker.Collected.{bodies, AllFit, last_time_of, Collected}
use libnhr.Worker.Timeout.{AllQuiet}
use libnhr.Worker.Arriving.{bytes_of_rounds, InTime}

-- Rounds that bring a response with an announced length and no encoding: some in which nothing comes,
-- one with the whole header, and more; `since` is the time when the waiting begins.
pub record Brings (answers : List Answers) (timeout since code n : ℕ) (body : Bytes) : Type 0 where
  pub quiet : List Answers
  pub begin : Answers
  pub more : List Answers
  pub first : Packet
  pub ps : List Packet
  pub head : ℕ
  pub content : Bytes
  pub all : answers ≡ quiet ++ (begin ∷ more)
  pub still : AllQuiet (since + timeout) quiet
  pub came : begin.received.packets ≡ first ∷ ps
  pub again : is_again (errno_after begin.received.errno begin.received.stop) ≡ true
  pub early : begin.received.checked < last_time_of first.time ps + timeout
  pub says : Announces first.buff code n
  pub ends : Ends first.buff head content
  pub whole : head + 4 ≤ first.len
  pub fit : AllFit (first ∷ ps)
  pub times : InTime timeout (last_time_of first.time ps) more
  pub fits : first.len + length (bodies ps) + length (bytes_of_rounds more) < 2 ^ 64
  pub same : (body_part first.len head content ++ bodies ps) ++ bytes_of_rounds more ≡ body
  pub complete : is_complete n body ≡ true

-- the request once it is connected
abbrev pub connected : Request → ℕ → ℕ → Request
connected r time s = record r { command = send_raw_request; last_time = time; socket = some s }
