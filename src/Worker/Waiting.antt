-- ===== src/Worker/Waiting.antt =====
-- Single rounds in which `nhr_request_wait_raw_response` is called, by what it brings.
use libnhr.Base.{ℕ, ◌+◌, ◌<◌, ◌≡◌, refl, arith, none, some, true, false, List, [], ◌∷◌}
use libnhr.Exec.{done}
use libnhr.Codec.{Codec}
use libnhr.Request.{Request, wait_raw_response, end_command}
use libnhr.Worker.{close, set_command, check_timeout}
use libnhr.Worker.Transfer.{
  errno_after, is_again, take_packets, receive, wait_response, is_finished,
}
use libnhr.Worker.Loop.{Call, Answers, on_recvd_response, inform, work, round, rounds}

module _ (codec : Codec) where
  pub rounds_ended :
      (as' : List Answers) (r : Request)
      → r.command ≡ end_command
      → rounds codec as' r ≡ done (r, [])
  unfolding rounds
  rounds_ended [] r ended = refl
  rounds_ended (a ∷ as') r ended = simp ended

  -- a round without a callback, and those behind it
  pub rounds_step :
      (a : Answers) (as' : List Answers) (r q r' : Request) (calls : List Call)
      → r.command ≡ wait_raw_response
      → round codec a r ≡ done (q, [])
      → rounds codec as' q ≡ done (r', calls)
      → rounds codec (a ∷ as') r ≡ done (r', calls)
  unfolding rounds
  rounds_step a as' r q r' calls at once later = simp (at, once, later)

  -- a round behind which the response is not finished
  pub round-missing :
      (a : Answers) (r q : Request)
      → r.command ≡ wait_raw_response
      → q.command ≡ wait_raw_response
      → take_packets codec a.received.packets r ≡ done q
      → is_again (errno_after a.received.errno a.received.stop) ≡ true
      → a.received.checked < q.last_time + q.timeout
      → is_finished q.response ≡ false
      → round codec a r ≡ done (q, [])
  unfolding round work inform wait_response receive check_timeout set_command
  round-missing a r q at still run again early more =
      ground (arith, at, still, run, again, early, more)

  -- and one that finishes it
  pub round-told :
      (a : Answers) (r q : Request) (callback : ℕ)
      → r.command ≡ wait_raw_response
      → take_packets codec a.received.packets r ≡ done q
      → is_again (errno_after a.received.errno a.received.stop) ≡ true
      → a.received.checked < q.last_time + q.timeout
      → is_finished q.response ≡ true
      → q.on_recvd_response ≡ some callback
      → round codec a r
        ≡ done (record q { command = end_command }, on_recvd_response q.response ∷ [])
  unfolding round work inform wait_response receive check_timeout set_command
  round-told a r q callback at run again early all tells =
      ground (arith, at, run, again, early, all, tells)

  -- and one in which the connection ends, or fails
  pub round-closed :
      (a : Answers) (r q : Request) (callback : ℕ)
      → r.command ≡ wait_raw_response
      → take_packets codec a.received.packets r ≡ done q
      → is_again (errno_after a.received.errno a.received.stop) ≡ false
      → q.on_recvd_response ≡ some callback
      → round codec a r
        ≡ done
            (record q { command = end_command; socket = none }, on_recvd_response q.response ∷ [])
  unfolding round work inform wait_response receive close check_timeout set_command
  round-closed a r q callback at run ends tells = ground (arith, at, run, ends, tells)
