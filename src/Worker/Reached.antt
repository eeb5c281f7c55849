-- ===== src/Worker/Reached.antt =====
-- A host that is reached: the address that `nhr_request_connect_to_host` connects to.
use libnhr.Base.{
  ℕ, zero, suc, ◌+◌, ◌<◌, ◌≡◌, ◌⊎◌, inl, inr, refl, ap, ◌∙◌, arith, Option, none, some, true, false,
  lt→ltb,
}
use libnhr.Request.{Request, send_raw_request}
use libnhr.Worker.{set_command, check_timeout}
use libnhr.Worker.Connect.{
  Attempt, Network, Outcome, looped, attempts, resolve_from, connect_getaddr_info, unless_timeout,
  connect_each, connect_rounds, connected_or_failed, connect_addresses, connect_resolved,
  connect_to_host,
}

-- no socket, or one that can not be connected
abbrev pub Fails : Attempt → Type 0
Fails a = (a.opened ≡ none) ⊎ ((t : ℕ) × (a.opened ≡ some t) × (a.connected ≡ false))

-- From address `i` on, `k` addresses fail in time, and the next one is connected to by socket `s`.
abbrev pub ReachesFrom : (ℕ → Attempt) → ℕ → ℕ → ℕ → ℕ → Type 0
ReachesFrom attempt timeout i zero s =
    ((attempt i).opened ≡ some s) × ((attempt i).connected ≡ true)
ReachesFrom attempt timeout i (suc k) s =
    Fails (attempt i)
    × ((attempt i).checked < (attempt i).started + timeout)
    × ReachesFrom attempt timeout (suc i) k s

-- The time of the attempt that succeeds.
abbrev pub reached_at : (ℕ → Attempt) → ℕ → ℕ → ℕ
reached_at attempt i zero = (attempt i).started
reached_at attempt i (suc k) = reached_at attempt (suc i) k

-- The host's addresses are found in time, and the one behind the first `k` is the first to accept.
pub record Reaches (net : Network) (timeout k s : ℕ) : Type 0 where
  pub addresses : ℕ
  pub found : resolve_from net.resolved 0 attempts ≡ some addresses
  pub in_time : net.resolved_at < net.begun + timeout
  pub enough : k < addresses
  pub accepts : ReachesFrom (net.attempt 0) timeout 0 k s

pub unless_timeout-in_time :
    (now : ℕ) (r : Request) (next : Request → Outcome)
    → now < r.last_time + r.timeout
    → unless_timeout now r next ≡ next r
unfolding check_timeout
unless_timeout-in_time now r next early = rw (lt→ltb now (r.last_time + r.timeout) early) refl

connect_each-Reaches :
    (attempt : ℕ → Attempt) (i left k s : ℕ) (sock : Option ℕ) (r : Request)
    → k < left
    → ReachesFrom attempt r.timeout i k s
    → connect_each attempt i left sock r
      ≡ looped (record r { last_time = reached_at attempt i k; socket = some s }) (some s)
unfolding connect_each
connect_each-Reaches attempt i zero k s sock r enough reaches = absurd (omega (arith, enough))
connect_each-Reaches attempt i (suc left) zero s sock r enough (opened, connected) =
    rw (opened, connect_each) (rw connected refl)
connect_each-Reaches attempt i (suc left) (suc k) s sock r enough (fails, early, later) =
    let r' = record r { last_time = (attempt i).started } in
    elim fails [
      | inl e ↦
          rw (e, connect_each)
            (rw
              (unless_timeout-in_time (attempt i).checked r'
                (connect_each attempt (suc i) left none) early)
              (connect_each-Reaches attempt (suc i) left k s none r' (omega (arith, enough)) later))
      | inr (t, e, c) ↦
          rw (e, connect_each)
            (rw
              (
                c,
                unless_timeout-in_time (attempt i).checked r'
                    (connect_each attempt (suc i) left (some t)) early,
              )
              (connect_each-Reaches attempt (suc i) left k s (some t) r' (omega (arith, enough))
                later))
    ]

pub connect_getaddr_info-found :
    (resolved : ℕ → Option ℕ) (r : Request) (n : ℕ)
    → resolve_from resolved 0 attempts ≡ some n
    → connect_getaddr_info resolved r ≡ (r, some n)
unfolding connect_getaddr_info
connect_getaddr_info-found resolved r n found = rw (found, connect_getaddr_info) refl

pub connect_resolved-in_time :
    (net : Network) (r : Request) (n : ℕ)
    → net.resolved_at < r.last_time + r.timeout
    → connect_resolved net r (some n) ≡ connect_addresses net n r
unfolding connect_resolved check_timeout
connect_resolved-in_time net r n early =
    rw (lt→ltb net.resolved_at (r.last_time + r.timeout) early) refl

connect_addresses-looped :
    (net : Network) (r r' : Request) (n s : ℕ)
    → connect_each (net.attempt 0) 0 n none r ≡ looped r' (some s)
    → r'.socket ≡ some s
    → connect_addresses net n r ≡ record r' { command = send_raw_request }
unfolding connect_addresses connect_rounds connected_or_failed set_command
connect_addresses-looped net r r' n s run is_open =
    rw (run, connect_addresses, connect_rounds) (rw is_open refl)

-- If the addresses of the host are found in time, and the first of them fail in time until one
-- accepts, then `nhr_request_connect_to_host` connects to this one, whatever those behind it would do:
-- the request has its socket and goes on to send, and but for these and the time nothing changes.
pub connect_to_host-Reaches :
    (net : Network) (r : Request) (k s : ℕ)
    → Reaches net r.timeout k s
    → connect_to_host net r ≡ record r {
      command = send_raw_request;
      last_time = reached_at (net.attempt 0) 0 k;
      socket = some s;
    }
unfolding connect_to_host
connect_to_host-Reaches net r k s x =
    let begun = record r { last_time = net.begun } in
    let run =
      connect_each-Reaches (net.attempt 0) 0 x.addresses k s none begun x.enough x.accepts in
    ap (λ p. connect_resolved net p.0 p.1)
      (connect_getaddr_info-found net.resolved begun x.addresses x.found)
    ∙ connect_resolved-in_time net begun x.addresses x.in_time
    ∙ connect_addresses-looped net begun _ x.addresses s run refl
