-- ===== src/Worker/Machine/Runs.antt =====
-- Rounds of the work thread's loop, one and many.
use libnhr.Base.{
  ◌≡◌, ◌≢◌, ◌⊎◌, refl, subst, arith, false, List, [], ◌∷◌, ◌++◌, append-nil, Bool-cases, inl, inr,
}
use libnhr.Exec.{done, >>=-eq-done, done-injective}
use libnhr.Codec.{Codec}
use libnhr.Request.{
  Request, Command, connect_to_host, send_raw_request, start_waiting_raw_response,
  wait_raw_response, inform_response, inform_error, end_command, error_none,
}
use libnhr.Worker.Connect as Connect
use libnhr.Worker.Connected.{connect_to_host_command}
use libnhr.Worker.Transfer.{start_waiting}
use libnhr.Worker.Loop.{
  Call, Answers, on_recvd_response, on_error, inform, work, round, rounds, before_end,
}
use libnhr.Worker.Machine.{Works, HasCode, send_raw-Works, wait_response-Works}

-- The command behind a whole round: what was to be told has been told.
abbrev pub Follows : Command → Command → Type 0
Follows connect_to_host d = (d ≡ send_raw_request) ⊎ (d ≡ end_command)
Follows send_raw_request d = (d ≡ start_waiting_raw_response) ⊎ (d ≡ end_command)
Follows start_waiting_raw_response d = d ≡ wait_raw_response
Follows wait_raw_response d = (d ≡ wait_raw_response) ⊎ (d ≡ end_command)
Follows inform_response d = d ≡ end_command
Follows inform_error d = d ≡ end_command
Follows c d = d ≡ c

-- Nothing was told; or the thread is to end, and one callback got the response, or a real error.
abbrev pub Told : Request → List Call → Type 0
Told r calls =
    (calls ≡ [])
    ⊎ ((r.command ≡ end_command)
        × ((calls ≡ on_recvd_response r.response ∷ [])
            ⊎ ((calls ≡ on_error r.error_code ∷ []) × (r.error_code ≢ error_none))))

-- Behind a round that told something, nothing more happens.
Told-append :
    (q r : Request) (calls later : List Call)
    → Told q calls
    → (q.command ≡ end_command → (r ≡ q) × (later ≡ []))
    → Told r later
    → Told r (calls ++ later)
Told-append q r calls later (inl e) ends t = rw e t
Told-append q r calls later (inr (e, told)) ends t =
    let (same, nothing) = ends e in rw (same, nothing, append-nil) (inr (e, told))

connect_to_host-Works :
    (net : Connect.Network) (r : Request)
    → Works connect_to_host (Connect.connect_to_host net r).command
      × HasCode (Connect.connect_to_host net r)
connect_to_host-Works net r = ground (arith, connect_to_host_command net r)

inform-Follows :
    (c : Command) (r : Request) → Works c r.command → Follows c (inform r.command r).0.command
unfolding inform
inform-Follows connect_to_host r w = ground arith
inform-Follows _ r w = ground arith

inform-Told :
    (c : Command) (r : Request) → r.command ≡ c → HasCode r → Told (inform c r).0 (inform c r).1
unfolding inform
inform-Told inform_response r e h = ground arith
inform-Told inform_error r e h = ground arith
inform-Told _ r e h = inl refl

inform-HasCode : (c : Command) (r : Request) → r.command ≡ c → HasCode (inform c r).0
unfolding inform
inform-HasCode inform_response r e = ground arith
inform-HasCode _ r e = ground arith

module _ (codec : Codec) where
  work-Works :
      (a : Answers) (c : Command) (r r' : Request)
      → r.command ≡ c
      → HasCode r
      → work codec a c r ≡ done r'
      → Works c r'.command × HasCode r'
  unfolding work
  work-Works a connect_to_host r r' h k e = ground (arith, connect_to_host-Works a.network r)
  work-Works a send_raw_request r r' h k e = send_raw-Works codec a.sent a.now r r' e
  work-Works a start_waiting_raw_response r r' h k e = unfold start_waiting in ground arith
  work-Works a wait_raw_response r r' h k e = wait_response-Works codec a.received r r' h e
  work-Works a _ r r' h k e = ground arith

  -- One round of the thread's loop takes the command one step along its way: connect, send, wait
  -- until the response is there, END. From each of these an error leads to END; the commands that
  -- tell something lead to END; idle, none and END stay. In the round that comes to END, one callback
  -- at most is called, with the request's response or with an error code that is not "none"; in any
  -- other round, none is.
  pub round-Follows :
      (a : Answers) (r r' : Request) (calls : List Call)
      → HasCode r
      → round codec a r ≡ done (r', calls)
      → Follows r.command r'.command × Told r' calls × HasCode r'
  unfolding round
  round-Follows a r r' calls k e =
      let (q, e1, k1) = >>=-eq-done (work codec a r.command r) _ e in
      let (w, c) = work-Works a r.command r q refl k e1 in
      ground (
        arith,
        k1,
        inform-Follows r.command q w,
        inform-Told q.command q refl c,
        inform-HasCode q.command q refl,
      )

  before_end-ended : (c : Command) → c ≡ end_command → before_end c ≡ false
  before_end-ended c e = rw e

  rounds-ended :
      (as' : List Answers) (r r' : Request) (calls : List Call)
      → r.command ≡ end_command
      → rounds codec as' r ≡ done (r', calls)
      → (r' ≡ r) × (calls ≡ [])
  unfolding rounds
  rounds-ended [] r r' calls h e = ground arith
  rounds-ended (a ∷ as') r r' calls h e =
      let e' = rw (before_end-ended r.command h) at e in ground (arith, e')

  -- In any run of the work thread from a request that has no error to tell without its code, at most
  -- one callback is called. If one is, the thread is to end, and it was given the request's response,
  -- or an error code that is not "none".
  pub rounds-Told :
      (as' : List Answers) (r r' : Request) (calls : List Call)
      → HasCode r
      → rounds codec as' r ≡ done (r', calls)
      → Told r' calls
  unfolding rounds
  rounds-Told [] r r' calls k e = ground arith
  rounds-Told (a ∷ as') r r' calls k e = elim (Bool-cases (before_end r.command)) [
    | inr ended ↦ let e' = rw ended at e in ground (arith, e')
    | inl more ↦
        let (q, e1, k1) = >>=-eq-done (round codec a r) _ (rw more at e) in
        let (p, e2, k2) = >>=-eq-done (rounds codec as' q.0) _ k1 in
        let (follows, told, code) = round-Follows a r q.0 q.1 k e1 in
        subst (λ x. Told x.0 x.1) (done-injective k2)
          (Told-append q.0 p.0 q.1 p.1 told (λ h. rounds-ended as' q.0 p.0 p.1 h e2)
            (rounds-Told as' q.0 p.0 p.1 code e2))
  ]
