-- ===== src/Worker/Loop.antt =====
-- `nhr_request_work_th_func`: the loop of the work thread.
use libnhr.Base.{ℕ, Option, none, some, Bool, true, false, List, [], ◌∷◌, ◌++◌, if◌then◌else◌}
use libnhr.Exec.{Exec, done, ◌>>=◌}
use libnhr.Clib.Memory.{Bytes}
use libnhr.Codec.{Codec}
use libnhr.Request.{
  Request, ErrorCode, Command, connect_to_host, send_raw_request, start_waiting_raw_response,
  wait_raw_response, inform_response, inform_error, end_command,
}
use libnhr.Response.{Response}
use libnhr.Worker.{set_command}
use libnhr.Worker.Connect as Connect
use libnhr.Worker.Connect.{Network}
use libnhr.Worker.Transfer.{Sent, Received, send_raw, start_waiting, wait_response}

-- a call of one of the two callbacks
pub data Call : Type 0 where
  on_recvd_response : Option Response → Call
  on_error : ErrorCode → Call

-- What the system answers in one round of the loop, whichever branch it takes.
pub record Answers : Type 0 where
  pub now : ℕ
  pub network : Network
  pub sent : Bytes → Sent
  pub received : Received

abbrev pub call_if {ℓ} : {A : Type ℓ} → Option A → Call → List Call
call_if none c = []
call_if (some callback) c = c ∷ []

-- the second `switch`
unfoldable pub inform : Command → Request → Request × List Call
unfolding set_command
inform inform_response r =
    (set_command end_command r, call_if r.on_recvd_response (on_recvd_response r.response))
inform inform_error r = (set_command end_command r, call_if r.on_error (on_error r.error_code))
inform _ r = (r, [])

-- `command < NHR_COMMAND_END`
abbrev pub before_end : Command → Bool
before_end end_command = false
before_end _ = true

module _ (codec : Codec) where
  -- the first `switch`
  unfoldable pub work : Answers → Command → Request → Exec Request
  work a connect_to_host r = done (Connect.connect_to_host a.network r)
  work a send_raw_request r = send_raw codec a.sent a.now r
  work a start_waiting_raw_response r = done (start_waiting a.now r)
  work a wait_raw_response r = wait_response codec a.received r
  work a _ r = done r

  -- One round: the request, and the callbacks made.
  unfoldable pub round : Answers → Request → Exec (Request × List Call)
  round a r = do r' ← work a r.command r; done (inform r'.command r')

  -- Rounds until the command is END, or no more answers are given.
  unfoldable pub rounds : List Answers → Request → Exec (Request × List Call)
  rounds [] r = done (r, [])
  rounds (a ∷ as') r =
      let next = (do
        (r', calls) ← round a r
        (r'', later) ← rounds as' r'
        done (r'', calls ++ later)) in
      if before_end r.command then next else done (r, [])
