-- ===== src/Worker/Race.antt =====
-- The work thread and a thread that calls `nhr_request_cancel`, in any order of their steps. What
-- `nhr_request_work_th_func` does between two reads of the command is one move: of what it uses, the
-- other thread writes nothing but the command, and what the first `switch` writes there last is what
-- stays. The children prove.
pub mod Frame
pub mod Message
pub mod Work
pub mod Inv
pub mod Ends
pub mod Promise
use libnhr.Base.{
  ℕ, suc, Option, none, some, Bool, true, false, ◌||◌, List, [], ◌∷◌, ◌++◌, ltb, if◌then◌else◌,
}
use libnhr.Exec.{Exec, done, ◌>>=◌}
use libnhr.Codec.{Codec}
use libnhr.Request.{Request, Command, end_command}
use libnhr.Worker.{close, set_command}
use libnhr.Worker.Loop.{Call, Answers, inform, work, before_end}

-- Where the work thread is: before the test of the loop; behind it; with the command read, in the
-- first `switch`; behind the unlock; with the command read, in the second `switch`; behind the loop;
-- with `work_thread` set to NULL; with the request deleted.
pub data Place : Type 0 where
  testing entered worked leaving left gone : Place
  working telling : Command → Place

-- Where the cancelling thread is: not there yet; in `nhr_request_cancel`, with `work_thread` read,
-- which was a thread or NULL; behind it.
pub data Canceller : Type 0 where
  outside found missing over : Canceller

-- The request; where the two threads are; the callbacks made; how often the request has been deleted,
-- and whether it was used then.
pub record System : Type 0 where
  pub request : Request
  pub place : Place
  pub canceller : Canceller
  pub calls : List Call
  pub deletions : ℕ
  pub misused : Bool

-- each access of the request
abbrev pub use_request : System → System
use_request s = record s { misused = s.misused || ltb 0 s.deletions }

-- `nhr_request_close` and `nhr_request_delete`
abbrev pub delete : System → System
delete s = record s { request = close s.request; deletions = suc s.deletions }

-- `nhr_request_cancel`: the test of `work_thread`, and what it leads to
unfoldable pub cancel_move : Canceller → System → System
unfolding set_command
cancel_move outside s = record (use_request s) {
  canceller = elim s.request.work_thread [ none ↦ missing | some t ↦ found ];
}
cancel_move found s = record (use_request s) {
  request = set_command end_command s.request;
  canceller = over;
}
cancel_move missing s = record (delete (use_request s)) { canceller = over }
cancel_move over s = s

module _ (codec : Codec) where
  -- the next move of the work thread
  unfoldable pub work_move : Answers → Place → System → Exec System
  work_move a testing s =
      done (record (use_request s) {
        place = if before_end s.request.command then entered else leaving;
      })
  work_move a entered s = done (record (use_request s) { place = working s.request.command })
  work_move a (working c) s = do
    r ← work codec a c s.request
    done (record (use_request s) { request = r; place = worked })
  work_move a worked s = done (record (use_request s) { place = telling s.request.command })
  work_move a (telling c) s =
      let (r, calls) = inform c s.request in
      done (record (use_request s) { request = r; calls = s.calls ++ calls; place = testing })
  work_move a leaving s =
      done
        (record (use_request s) { request = record s.request { work_thread = none }; place = left })
  work_move a left s = done (record (delete (use_request s)) { place = gone })
  work_move a gone s = done s

  -- moves of the work thread alone
  unfoldable pub work_moves : List Answers → System → Exec System
  work_moves [] s = done s
  work_moves (a ∷ as') s = do s' ← work_move a s.place s; work_moves as' s'
