-- ===== src/Worker/Race/Inv.antt =====
-- What holds of the two threads while the client keeps to the rule of libnhr.h: no call of
-- `nhr_request_cancel` once a callback has been made.
use libnhr.Base.{ℕ, Option, ◌≡◌, ◌≢◌, ◌⊎◌, refl, arith, none, Bool, true, false, [], if◌then◌else◌}
use libnhr.Exec.{done, >>=-eq-done}
use libnhr.Codec.{Codec}
use libnhr.Request.{Request, inform_error, end_command, error_none}
use libnhr.Request.Public.{send_request}
use libnhr.Worker.{close}
use libnhr.Worker.Machine.{HasCode}
use libnhr.Worker.Machine.Runs.{Told}
use libnhr.Worker.Loop.{Answers, inform, work}
use libnhr.Worker.Race.{
  Place, testing, entered, worked, leaving, left, gone, working, telling, Canceller, outside, found,
  missing, over, System, cancel_move, work_move,
}
use libnhr.Worker.Race.Work.{work-After}

-- the thread's function begins
abbrev pub begun : Request → System
begun r = record {
  request = r;
  place = testing;
  canceller = outside;
  calls = [];
  deletions = 0;
  misused = false;
}

-- A request as `nhr_request_send` leaves it to its thread.
pub record Started (r : Request) : Type 0 where
  pub thread : r.work_thread ≢ none
  pub tells_response : r.on_recvd_response ≢ none
  pub tells_error : r.on_error ≢ none
  pub goes_on : r.command ≢ end_command
  pub coded : HasCode r

-- The states that some order of moves leads to, with the client's rule.
pub data Reach (codec : Codec) (r : Request) : System → Type 0 where
  start : Reach codec r (begun r)
  works :
      {s s' : System}
      → Reach codec r s
      → (a : Answers) → work_move codec a s.place s ≡ done s'
      → Reach codec r s'
  cancels :
      {s : System} → Reach codec r s → s.calls ≡ [] → Reach codec r (cancel_move s.canceller s)

-- behind the loop
abbrev pub is_behind : Place → Bool
is_behind leaving = true
is_behind left = true
is_behind gone = true
is_behind _ = false

-- `work_thread` has been set to NULL
abbrev pub is_cleared : Place → Bool
is_cleared left = true
is_cleared gone = true
is_cleared _ = false

-- a place where a callback may have been made
abbrev pub is_calm : Place → Bool
is_calm testing = true
is_calm leaving = true
is_calm left = true
is_calm gone = true
is_calm _ = false

abbrev pub is_gone : Place → Bool
is_gone gone = true
is_gone _ = false

-- a callback has been made, or the cancelling is over
abbrev pub Over : System → Type 0
Over s = (s.calls ≢ []) ⊎ (s.canceller ≡ over)

abbrev pub Inv : System → Type 0
Inv s =
    (s.misused ≡ false)
    × (s.deletions ≡ (if is_gone s.place then 1 else 0))
    × (is_cleared s.place ≡ false → s.request.work_thread ≢ none)
    × (s.request.on_recvd_response ≢ none)
    × (s.request.on_error ≢ none)
    × (s.canceller ≢ missing)
    × (s.request.command ≡ end_command → Over s)
    × (is_behind s.place ≡ true → Over s)
    × (s.calls ≢ [] → is_calm s.place ≡ true)
    × HasCode s.request
    × (s.place ≡ telling inform_error → s.request.error_code ≢ error_none)
    × Told s.request s.calls

begun-Inv : (r : Request) → Started r → Inv (begun r)
begun-Inv r v = ground (arith, v.thread, v.tells_response, v.tells_error, v.goes_on, v.coded)

cancel_move-Inv :
    (c : Canceller) (s : System) → s.canceller ≡ c → s.calls ≡ [] → Inv s → Inv (cancel_move c s)
unfolding cancel_move
cancel_move-Inv outside s e h v = ground (arith, v)
cancel_move-Inv found s e h v = ground (arith, v)
cancel_move-Inv missing s e h v = ground (arith, v)
cancel_move-Inv over s e h v = v

module _ (codec : Codec) where
  pub work_move-Inv :
      (a : Answers) (p : Place) (s s' : System)
      → s.place ≡ p
      → work_move codec a p s ≡ done s'
      → Inv s
      → Inv s'
  unfolding work_move
  work_move-Inv a testing s s' at e v = ground (arith, e, v)
  work_move-Inv a entered s s' at e v = ground (arith, e, v)
  work_move-Inv a (working c) s s' at e v =
      let (r, run, k) = >>=-eq-done (work codec a c s.request) _ e in
      let w = work-After codec a c s.request r run in
      ground (arith, k, v, w.same, w.unended, w.coded)
  work_move-Inv a worked s s' at e v = ground (arith, e, v)
  work_move-Inv a (telling c) s s' at e v = unfold inform in ground (arith, e, v)
  work_move-Inv a leaving s s' at e v = ground (arith, e, v)
  work_move-Inv a left s s' at e v = unfold close in ground (arith, e, v)
  work_move-Inv a gone s s' at e v = ground (arith, e, v)

pub Reach-Inv : {codec : Codec} {r : Request} {s : System} → Started r → Reach codec r s → Inv s
Reach-Inv {r = r} begins start = begun-Inv r begins
Reach-Inv {codec} begins (works {s} {s'} m a e) =
    work_move-Inv codec a s.place s s' refl e (Reach-Inv begins m)
Reach-Inv begins (cancels {s} m h) = cancel_move-Inv s.canceller s refl h (Reach-Inv begins m)

pub send_request-Started :
    (thread : Option ℕ) (q r : Request) → send_request thread q ≡ (r, true) → Started r
unfolding send_request
send_request-Started thread q r e = record {
  thread = ground (arith, e);
  tells_response = ground (arith, e);
  tells_error = ground (arith, e);
  goes_on = ground (arith, e);
  coded = ground (arith, e);
}

-- If `nhr_request_send` has started a thread for a request, which is cancelled at most once, and no
-- part of `nhr_request_cancel` runs once a callback has been made, then whatever the order of the
-- moves, the request is never used after its deletion, and its thread deletes it once, in its last
-- move.
pub Reach-unused :
    {codec : Codec} {s : System} (thread : Option ℕ) (q r : Request)
    → send_request thread q ≡ (r, true)
    → Reach codec r s
    → (s.misused ≡ false) × (s.deletions ≡ (if is_gone s.place then 1 else 0))
Reach-unused thread q r sent m = ground (arith, Reach-Inv (send_request-Started thread q r sent) m)

-- If `nhr_request_send` has started a thread for a request, which is cancelled at most once, and no
-- part of `nhr_request_cancel` runs once a callback has been made, then whatever the order of the
-- moves, at most one callback is called. If one is, the command is END, and it was given the
-- request's response, or an error code that is not "none". If none is called and the thread is behind
-- its loop, the request has been cancelled.
pub Reach-Told :
    {codec : Codec} {s : System} (thread : Option ℕ) (q r : Request)
    → send_request thread q ≡ (r, true)
    → Reach codec r s
    → Told s.request s.calls × ((is_behind s.place ≡ false) ⊎ (s.calls ≢ []) ⊎ (s.canceller ≡ over))
Reach-Told thread q r sent m = ground (arith, Reach-Inv (send_request-Started thread q r sent) m)
