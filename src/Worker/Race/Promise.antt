-- ===== src/Worker/Race/Promise.antt =====
-- What a sent request promises its client, apart from how its thread keeps the promise.
use libnhr.Base.{
  ℕ, Option, ◌≡◌, ◌≢◌, ◌⊎◌, refl, sym, ◌∙◌, subst, arith, Bool, true, false, List, [], ◌∷◌, inl,
  inr,
}
use libnhr.Exec.{done}
use libnhr.Codec.{Codec}
use libnhr.Response.{Response}
use libnhr.Request.{Request, ErrorCode, error_none}
use libnhr.Request.Public.{send_request}
use libnhr.Worker.Machine.Runs.{Told}
use libnhr.Worker.Loop.{Call, Answers, on_recvd_response, on_error, inform}
use libnhr.Worker.Race.{
  Place, testing, entered, worked, leaving, left, gone, working, telling, Canceller, outside, found,
  missing, over, System, cancel_move, work_move,
}
use libnhr.Worker.Race.Inv.{
  Inv, Reach, start, works, Reach-Inv, send_request-Started, work_move-Inv, Started,
}

-- What the client may see of a request: whether its cancelling is over, the callbacks that have been
-- called, and how often it has been deleted.
pub data View : Type 0 where
  shows : Bool → List Call → ℕ → View

-- A response, or an error that is one.
pub data IsAnswer : Call → Type 0 where
  responds : (r : Option Response) → IsAnswer (on_recvd_response r)
  fails : (e : ErrorCode) → e ≢ error_none → IsAnswer (on_error e)

-- How the view may change in one move: a request without a callback is cancelled; one without a
-- callback, and not deleted, gets its one callback; one with its callback, or cancelled, is deleted.
pub data Goes : View → View → Type 0 where
  stays : {v : View} → Goes v v
  is_cancelled : Goes (shows false [] 0) (shows true [] 0)
  tells : {k : Bool} → (c : Call) → IsAnswer c → Goes (shows k [] 0) (shows k (c ∷ []) 0)
  ends_told : {k : Bool} → (c : Call) → Goes (shows k (c ∷ []) 0) (shows k (c ∷ []) 1)
  ends_cancelled : Goes (shows true [] 0) (shows true [] 1)

-- some moves of this kind
pub data GoesOn : View → View → Type 0 where
  here : {v : View} → GoesOn v v
  then : {u v w : View} → GoesOn u v → Goes v w → GoesOn u w

abbrev pub is_over : Canceller → Bool
is_over over = true
is_over _ = false

abbrev pub view : System → View
view s = shows (is_over s.canceller) s.calls s.deletions

-- One move of either thread, with the client's rule.
pub data Move (codec : Codec) : System → System → Type 0 where
  moves : {s s' : System} → (a : Answers) → work_move codec a s.place s ≡ done s' → Move codec s s'
  moves_cancel : {s : System} → s.calls ≡ [] → Move codec s (cancel_move s.canceller s)

-- a move that the client does not see
unseen : (s s' : System) → view s' ≡ view s → Goes (view s) (view s')
unseen s s' e = subst (λ v. Goes (view s) v) (sym e) stays

quiet-Goes :
    (s s' : System)
    → s'.calls ≡ s.calls
    → s'.canceller ≡ s.canceller
    → s'.deletions ≡ s.deletions
    → Goes (view s) (view s')
quiet-Goes s s' calls canceller deletions = unseen s s' (simp (calls, canceller, deletions))

Told-once : (r : Request) (c : Call) (cs : List Call) → Told r (c ∷ cs) → (cs ≡ []) × IsAnswer c
Told-once r c cs (inl e) = cc
Told-once r c cs (inr (e, inl answer)) =
    let same : c ≡ on_recvd_response r.response = cc in
    (cc, subst IsAnswer (sym same) (responds r.response))
Told-once r c cs (inr (e, inr (answer, real))) =
    let same : c ≡ on_error r.error_code = cc in
    (cc, subst IsAnswer (sym same) (fails r.error_code real))

-- A move that may have made callbacks, where none had been made.
call-Goes :
    (s s' : System) (cs : List Call)
    → s'.calls ≡ cs
    → s.calls ≡ []
    → s'.canceller ≡ s.canceller
    → s.deletions ≡ 0
    → s'.deletions ≡ 0
    → Told s'.request s'.calls
    → Goes (view s) (view s')
call-Goes s s' [] e none_told canceller before after t =
    quiet-Goes s s' (e ∙ sym none_told) canceller (after ∙ sym before)
call-Goes s s' (c ∷ cs) e none_told canceller before after t =
    let (once, answer) = Told-once s'.request c cs (subst (Told s'.request) e t) in
    rw (canceller, none_told, before, after, e, once) (tells c answer)

-- the last move of the work thread
end-Goes :
    (s s' : System) (cs : List Call) (k : Canceller)
    → s.calls ≡ cs
    → s.canceller ≡ k
    → s'.calls ≡ s.calls
    → s'.canceller ≡ s.canceller
    → s.deletions ≡ 0
    → s'.deletions ≡ 1
    → Told s.request s.calls
    → (s.calls ≢ []) ⊎ (s.canceller ≡ over)
    → Goes (view s) (view s')
end-Goes s s' [] k e at calls canceller before after t (inl some_told) = absurd (some_told e)
end-Goes s s' [] k e at calls canceller before after t (inr is_over) =
    rw (calls, canceller, before, after, e, is_over) ends_cancelled
end-Goes s s' (c ∷ cs) k e at calls canceller before after t is_over =
    let once = (Told-once s.request c cs (subst (Told s.request) e t)).0 in
    rw (calls, canceller, before, after, e, once) (ends_told c)

cancel_move-Goes :
    (k : Canceller) (s : System)
    → s.canceller ≡ k
    → s.calls ≡ []
    → Inv s
    → Goes (view s) (view (cancel_move k s))
unfolding cancel_move
cancel_move-Goes outside s e h v = unseen s (cancel_move outside s) (ground (arith, e, h))
cancel_move-Goes found s e h v =
    let present : s.deletions ≡ 0 = ground (arith, v, e, h) in rw (present, h, e) is_cancelled
cancel_move-Goes missing s e h v = absurd (ground (arith, v))
cancel_move-Goes over s e h v = unseen s s refl

module _ (codec : Codec) where
  work_move-Goes :
      (a : Answers) (p : Place) (s s' : System)
      → s.place ≡ p
      → work_move codec a p s ≡ done s'
      → Inv s
      → Inv s'
      → Goes (view s) (view s')
  unfolding work_move
  work_move-Goes a testing s s' at e v w =
      quiet-Goes s s' (ground (arith, e)) (ground (arith, e)) (ground (arith, e))
  work_move-Goes a entered s s' at e v w =
      quiet-Goes s s' (ground (arith, e)) (ground (arith, e)) (ground (arith, e))
  work_move-Goes a (working c) s s' at e v w =
      quiet-Goes s s' (ground (arith, e)) (ground (arith, e)) (ground (arith, e))
  work_move-Goes a worked s s' at e v w =
      quiet-Goes s s' (ground (arith, e)) (ground (arith, e)) (ground (arith, e))
  work_move-Goes a (telling c) s s' at e v w =
      unfold inform in
      call-Goes s s' s'.calls refl (ground (arith, at, v)) (ground (arith, e))
        (ground (arith, at, v)) (ground (arith, e, at, v)) (ground (arith, w))
  work_move-Goes a leaving s s' at e v w =
      quiet-Goes s s' (ground (arith, e)) (ground (arith, e)) (ground (arith, e))
  work_move-Goes a left s s' at e v w =
      end-Goes s s' s.calls s.canceller refl refl (ground (arith, e)) (ground (arith, e))
        (ground (arith, at, v)) (ground (arith, e, at, v)) (ground (arith, v))
        (ground (arith, at, v))
  work_move-Goes a gone s s' at e v w = unseen s s' (ground (arith, e))

  Move-Goes :
      (r : Request) (s s' : System)
      → Started r
      → Reach codec r s
      → Move codec s s'
      → Goes (view s) (view s')
  Move-Goes r s s' begins m (moves a e) =
      let v = Reach-Inv begins m in
      work_move-Goes a s.place s s' refl e v (work_move-Inv codec a s.place s s' refl e v)
  Move-Goes r s s' begins m (moves_cancel h) =
      cancel_move-Goes s.canceller s refl h (Reach-Inv begins m)

  Reach-views :
      (r : Request) {s : System} → Started r → Reach codec r s → GoesOn (shows false [] 0) (view s)
  Reach-views r begins start = here
  Reach-views r begins (works {s} {s'} m a e) =
      then (Reach-views r begins m) (Move-Goes r s s' begins m (moves a e))
  Reach-views r begins (Reach.cancels {s} m h) =
      then (Reach-views r begins m)
        (Move-Goes r s (cancel_move s.canceller s) begins m (moves_cancel h))

-- A request for which `nhr_request_send` has started a thread, which is cancelled at most once, with
-- no part of `nhr_request_cancel` running once a callback has been made, keeps the promise, whatever
-- the order of the moves. The client's view, which is whether the cancelling is over, all callbacks
-- made, and the number of deletions, goes on from an empty one by allowed changes only, and the next
-- move of either thread makes such a change or none: the cancelling of a request without a callback;
-- the first callback, with an answer, on a request that is not deleted; the one deletion of a request
-- that is cancelled or has had its callback.
pub Reach-GoesOn :
    {codec : Codec} (thread : Option ℕ) (q r : Request) {s s' : System}
    → send_request thread q ≡ (r, true)
    → Reach codec r s
    → Move codec s s'
    → GoesOn (shows false [] 0) (view s) × Goes (view s) (view s')
Reach-GoesOn {codec} thread q r {s} {s'} sent m move =
    let begins = send_request-Started thread q r sent in
    (Reach-views codec r begins m, Move-Goes codec r s s' begins m move)
