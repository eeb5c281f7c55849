-- ===== src/Worker.antt =====
-- src/nhr_request_private.c: the thread that works a request off. What the operating system and the
-- clock answer are arguments. Connecting is in Worker/Connect.antt, sending and receiving in
-- Worker/Transfer.antt, the thread's loop in Worker/Loop.antt. The other children prove.
pub mod Connect
pub mod Transfer
pub mod Loop
pub mod Connected
pub mod Reached
pub mod Refused
pub mod Collected
pub mod Gathered
pub mod Sending
pub mod Exchange
pub mod Waiting
pub mod Arriving
pub mod Arrived
pub mod Fetched
pub mod Posted
pub mod Timeout
pub mod Machine
pub mod Race
use libnhr.Base.{ℕ, ◌+◌, Option, none, some, Bool, true, false, if◌then◌else◌, ltb}
use libnhr.Request.{Request, Command, inform_error, timeout_error}

-- `nhr_request_close`
unfoldable pub close : Request → Request
close r = record r { socket = none }

-- `nhr_request_set_command`, between its lock and its unlock
unfoldable pub set_command : Command → Request → Request
set_command command r = record r { command = command }

-- `time(NULL) - r->last_time < r->timeout`, over whole numbers
abbrev pub in_time : ℕ → Request → Bool
in_time now r = ltb now (r.last_time + r.timeout)

unfoldable pub check_timeout : ℕ → Request → Request × Bool
unfolding set_command
check_timeout now r =
    if in_time now r
    then (r, true)
    else (set_command inform_error (record r { error_code = timeout_error }), false)
