-- ===== src/Worker/Connected.antt =====
-- How an attempt to connect ends.
use libnhr.Base.{
  ℕ, zero, suc, ◌≡◌, ◌⊎◌, refl, sym, ◌∙◌, arith, Option, none, some, true, false, Bool-cases,
  Option-cases, inl, inr,
}
use libnhr.Request.{Request, inform_error, send_raw_request, failed_connect_to_host, timeout_error}
use libnhr.Worker.{check_timeout}
use libnhr.Worker.Connect.{
  Network, attempts, fail_connect, connect_getaddr_info, Outcome, returned, looped, unless_timeout,
  connect_each, connect_rounds, connected_or_failed, connect_addresses, connect_resolved,
  connect_to_host,
}

-- A socket that was opened for one of the addresses, and on which `connect` succeeded.
abbrev pub Accepted : Network → ℕ → Type 0
Accepted net s =
    (round : ℕ) × (i : ℕ) × ((net.attempt round i).opened ≡ some s)
    × ((net.attempt round i).connected ≡ true)

-- From the request `r`: the host is connected to, or the request had this socket before, and it goes
-- on with it; or the error is set that is to be told.
abbrev pub Decided : Network → Request → Request → Type 0
Decided net r r' =
    ((s : ℕ) × (r'.command ≡ send_raw_request)
      × (r'.socket ≡ some s)
      × (Accepted net s ⊎ (r.socket ≡ some s)))
    ⊎ ((r'.command ≡ inform_error)
        × ((r'.error_code ≡ failed_connect_to_host) ⊎ (r'.error_code ≡ timeout_error)))

-- the socket is that of `r`, or has been connected
abbrev SocketFrom : Network → Request → Request → Type 0
SocketFrom net r r' = (r'.socket ≡ r.socket) ⊎ ((s : ℕ) × (r'.socket ≡ some s) × Accepted net s)

-- a loop that returned did so for a timeout
abbrev Tried : Network → Request → Outcome → Type 0
Tried net r (returned r') = (r'.command ≡ inform_error) × (r'.error_code ≡ timeout_error)
Tried net r (looped r' sock) = SocketFrom net r r'

check_timeout-late :
    (now : ℕ) (r : Request)
    → (check_timeout now r).1 ≡ false
    → ((check_timeout now r).0.command ≡ inform_error)
      × ((check_timeout now r).0.error_code ≡ timeout_error)
unfolding check_timeout
check_timeout-late now r h = ground arith

check_timeout-in_time :
    (now : ℕ) (r : Request) → (check_timeout now r).1 ≡ true → (check_timeout now r).0 ≡ r
unfolding check_timeout
check_timeout-in_time now r h = ground arith

module _ (net : Network) (r : Request) where
  unless_timeout-Tried :
      (now : ℕ) (r' : Request) (next : Request → Outcome)
      → Tried net r (next r')
      → Tried net r (unless_timeout now r' next)
  unless_timeout-Tried now r' next h = elim (Bool-cases (check_timeout now r').1) [
    | inl e ↦ rw (e, check_timeout-in_time now r' e) h
    | inr e ↦ rw e (check_timeout-late now r' e)
  ]

  connect_each-Tried :
      (round i left : ℕ) (sock : Option ℕ) (r' : Request)
      → SocketFrom net r r'
      → Tried net r (connect_each (net.attempt round) i left sock r')
  unfolding connect_each
  connect_each-Tried round i zero sock r' h = h
  connect_each-Tried round i (suc left) sock r' h =
      let a = net.attempt round i in
      let r'' = record r' { last_time = a.started } in
      elim (Option-cases a.opened) [
        | inl e ↦
            rw (e, connect_each)
              (unless_timeout-Tried a.checked r''
                (connect_each (net.attempt round) (suc i) left none)
                (connect_each-Tried round (suc i) left none r'' h))
        | inr (s, e) ↦ elim (Bool-cases a.connected) [
          | inl c ↦ rw (e, connect_each) (rw c (inr (s, refl, (round, i, e, c))))
          | inr c ↦
              rw (e, connect_each)
                (rw c (
                  unless_timeout-Tried a.checked r''
                    (connect_each (net.attempt round) (suc i) left (some s))
                    (connect_each-Tried round (suc i) left (some s) r'' h)))
        ]
      ]

  connect_rounds-Tried :
      (addresses round left : ℕ) (sock : Option ℕ) (r' : Request)
      → SocketFrom net r r'
      → Tried net r (connect_rounds net addresses round left sock r')
  unfolding connect_rounds
  connect_rounds-Tried addresses round zero sock r' h = h
  connect_rounds-Tried addresses round (suc left) (some s) r' h = h
  connect_rounds-Tried addresses round (suc left) none r' h =
      go (connect_each (net.attempt round) 0 addresses none r')
        (connect_each-Tried round 0 addresses none r' h)
        (connect_rounds-Tried addresses (suc round) left)
    where
      go :
          (o : Outcome)
          → Tried net r o
          → ((sock : Option ℕ) (r'' : Request)
              → SocketFrom net r r''
              → Tried net r (connect_rounds net addresses (suc round) left sock r''))
          → Tried net r (elim o [
            | returned r'' ↦ returned r''
            | looped r'' sock ↦ connect_rounds net addresses (suc round) left sock r''
          ])
      go (returned r'') k later = k
      go (looped r'' sock) k later = later sock r'' k

  connected_or_failed-Decided :
      (r' : Request) → SocketFrom net r r' → Decided net r (connected_or_failed r')
  unfolding connected_or_failed
  connected_or_failed-Decided r' (inr (s, e, accepted)) =
      rw (e, connected_or_failed) (inl (s, refl, e, inl accepted))
  connected_or_failed-Decided r' (inl same) = elim (Option-cases r'.socket) [
    | inl e ↦ rw (e, connected_or_failed) (inr (refl, inl refl))
    | inr (s, e) ↦ rw (e, connected_or_failed) (inl (s, refl, e, inr (sym same ∙ e)))
  ]

  connect_addresses-Decided :
      (addresses : ℕ) (r' : Request)
      → r'.socket ≡ r.socket
      → Decided net r (connect_addresses net addresses r')
  unfolding connect_addresses
  connect_addresses-Decided addresses r' same =
      go (connect_rounds net addresses 0 attempts none r')
        (connect_rounds-Tried addresses 0 attempts none r' (inl same))
    where
      go :
          (o : Outcome)
          → Tried net r o
          → Decided net r
              (elim o [ returned r'' ↦ r'' | looped r'' sock ↦ connected_or_failed r'' ])
      go (returned r'') h = inr (h.0, inr h.1)
      go (looped r'' sock) h = connected_or_failed-Decided r'' h

  connect_resolved-Decided :
      (r' : Request) (addresses : Option ℕ)
      → r'.socket ≡ r.socket
      → (addresses ≡ none → Decided net r r')
      → Decided net r (connect_resolved net r' addresses)
  unfolding connect_resolved
  connect_resolved-Decided r' none same h = elim (Bool-cases (check_timeout net.resolved_at r').1) [
    | inl e ↦ rw (e, check_timeout-in_time net.resolved_at r' e) (h refl)
    | inr e ↦ let (c, t) = check_timeout-late net.resolved_at r' e in rw e (inr (c, inr t))
  ]
  connect_resolved-Decided r' (some n) same h =
      elim (Bool-cases (check_timeout net.resolved_at r').1) [
        | inl e ↦
            rw (e, check_timeout-in_time net.resolved_at r' e) (connect_addresses-Decided n r' same)
        | inr e ↦ let (c, t) = check_timeout-late net.resolved_at r' e in rw e (inr (c, inr t))
      ]

  connect_getaddr_info-Decided :
      (resolved : ℕ → Option ℕ) (r' : Request)
      → (connect_getaddr_info resolved r').1 ≡ none
      → Decided net r (connect_getaddr_info resolved r').0
  unfolding connect_getaddr_info
  connect_getaddr_info-Decided resolved r' h = ground (arith, h)

connect_getaddr_info-socket :
    (resolved : ℕ → Option ℕ) (r : Request) → (connect_getaddr_info resolved r).0.socket ≡ r.socket
unfolding connect_getaddr_info
connect_getaddr_info-socket resolved r = ground arith

-- Whatever the network answers, `nhr_request_connect_to_host` decides: behind it the request goes on
-- to send, with a socket that was opened for one of the addresses and on which `connect` succeeded,
-- or that it had before; or it is to tell the error of a failed connection or of a timeout. It does
-- so whatever the command was before, so also if it was END.
pub connect_to_host-Decided : (net : Network) (r : Request) → Decided net r (connect_to_host net r)
unfolding connect_to_host
connect_to_host-Decided net r =
    let begun = record r { last_time = net.begun } in
    let found = connect_getaddr_info net.resolved begun in
    connect_resolved-Decided net r found.0 found.1 (connect_getaddr_info-socket net.resolved begun)
      (connect_getaddr_info-Decided net r net.resolved begun)

-- the command and the error that it leaves
pub connect_to_host_command :
    (net : Network) (r : Request)
    → let r' = connect_to_host net r in
      (r'.command ≡ send_raw_request)
      ⊎ ((r'.command ≡ inform_error)
          × ((r'.error_code ≡ failed_connect_to_host) ⊎ (r'.error_code ≡ timeout_error)))
connect_to_host_command net r = elim (connect_to_host-Decided net r) [
  | inl (s, sends, socket, from) ↦ inl sends
  | inr fails ↦ inr fails
]

-- The first round over the addresses, if it leaves a socket that is not connected.
pub connect_addresses_no_retry :
    (net : Network) (addresses : ℕ) (r r' : Request) (s : ℕ)
    → connect_each (net.attempt 0) 0 addresses none r ≡ looped r' (some s)
    → r'.socket ≡ none
    → connect_addresses net addresses r ≡ fail_connect r'
unfolding connect_addresses connect_rounds connected_or_failed
connect_addresses_no_retry net addresses r r' s e h =
    rw (e, connect_addresses, connect_rounds) (ground arith)
