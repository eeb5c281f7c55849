-- ===== src/Worker/Timeout.antt =====
-- A response that does not come in time.
use libnhr.Base.{ℕ, ◌+◌, ◌≤◌, ◌<◌, ◌≡◌, arith, some, true, false, List, [], ◌∷◌, ◌++◌}
use libnhr.Exec.{done}
use libnhr.Codec.{Codec}
use libnhr.Request.{Request, wait_raw_response, end_command, timeout_error}
use libnhr.Worker.{set_command, check_timeout}
use libnhr.Worker.Transfer.{
  Received, errno_after, is_again, take_packets, receive, wait_response, is_finished,
}
use libnhr.Worker.Loop.{Answers, on_error, inform, work, round, rounds}

-- Nothing has come, and `errno` says to try again.
abbrev pub IsQuiet : Received → Type 0
IsQuiet answer = (answer.packets ≡ []) × (is_again (errno_after answer.errno answer.stop) ≡ true)

-- rounds in which nothing has come before the time is over
abbrev pub AllQuiet : ℕ → List Answers → Type 0
AllQuiet limit [] = Unit
AllQuiet limit (a ∷ as') = IsQuiet a.received × (a.received.checked < limit) × AllQuiet limit as'

abbrev pub timed_out : Request → Request
timed_out r = record r { error_code = timeout_error; command = end_command }

module _ (codec : Codec) where
  receive-quiet :
      (answer : Received) (r : Request) → IsQuiet answer → receive codec answer r ≡ done (r, true)
  unfolding receive take_packets
  receive-quiet answer r quiet = ground (arith, quiet)

  pub round-quiet :
      (a : Answers) (r : Request)
      → r.command ≡ wait_raw_response
      → is_finished r.response ≡ false
      → IsQuiet a.received
      → a.received.checked < r.last_time + r.timeout
      → round codec a r ≡ done (r, [])
  unfolding round work inform wait_response check_timeout set_command
  round-quiet a r at more quiet early =
      ground (arith, at, more, early, receive-quiet a.received r quiet)

  round-late :
      (a : Answers) (r : Request) (callback : ℕ)
      → r.command ≡ wait_raw_response
      → is_finished r.response ≡ false
      → r.on_error ≡ some callback
      → IsQuiet a.received
      → r.last_time + r.timeout ≤ a.received.checked
      → round codec a r ≡ done (timed_out r, on_error timeout_error ∷ [])
  unfolding round work inform wait_response check_timeout set_command
  round-late a r callback at more tells quiet late =
      ground (arith, at, more, tells, late, receive-quiet a.received r quiet)

  -- A request whose response is not finished, and for which no block comes while the `errno` that is
  -- read says to try again, as an old one also does when the connection has ended, waits in every
  -- round that is in time, without a callback and without a change; in the first round that is not,
  -- the error callback is called with the error of a timeout, and the thread ends.
  pub rounds_timeout :
      (as' : List Answers) (late : Answers) (r : Request) (callback : ℕ)
      → r.command ≡ wait_raw_response
      → is_finished r.response ≡ false
      → r.on_error ≡ some callback
      → AllQuiet (r.last_time + r.timeout) as'
      → IsQuiet late.received
      → r.last_time + r.timeout ≤ late.received.checked
      → rounds codec (as' ++ (late ∷ [])) r ≡ done (timed_out r, on_error timeout_error ∷ [])
  unfolding rounds
  rounds_timeout [] late r callback at more tells all quiet over =
      ground (arith, at, round-late late r callback at more tells quiet over)
  rounds_timeout (a ∷ as') late r callback at more tells (quiet_now, early, all) quiet over =
      ground (
        arith,
        at,
        round-quiet a r at more quiet_now early,
        rounds_timeout as' late r callback at more tells all quiet over,
      )
