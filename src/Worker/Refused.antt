-- ===== src/Worker/Refused.antt =====
-- A host whose addresses all fail in the first round.
use libnhr.Base.{ℕ, zero, suc, ◌+◌, ◌<◌, ◌≡◌, inl, inr, refl, ap, ◌∙◌, Option, none, some, false}
use libnhr.Request.{Request, inform_error, failed_connect_to_host}
use libnhr.Worker.{set_command}
use libnhr.Worker.Connected.{connect_addresses_no_retry}
use libnhr.Worker.Connect.{
  Attempt, Network, looped, attempts, resolve_from, connect_each, connect_resolved, connect_to_host,
}
use libnhr.Worker.Reached.{
  Fails, reached_at, unless_timeout-in_time, connect_getaddr_info-found, connect_resolved-in_time,
}

-- From address `i` on, `k` addresses fail in time, and then one does for which the socket `t` was
-- opened, but not connected.
abbrev pub RefusesFrom : (ℕ → Attempt) → ℕ → ℕ → ℕ → ℕ → Type 0
RefusesFrom attempt timeout i zero t =
    ((attempt i).opened ≡ some t)
    × ((attempt i).connected ≡ false)
    × ((attempt i).checked < (attempt i).started + timeout)
RefusesFrom attempt timeout i (suc k) t =
    Fails (attempt i)
    × ((attempt i).checked < (attempt i).started + timeout)
    × RefusesFrom attempt timeout (suc i) k t

-- The host's addresses, one more than `k`, are found in time, and in the first round over them all
-- fail, the last one because `connect` does.
pub record Refuses (net : Network) (timeout k t : ℕ) : Type 0 where
  pub found : resolve_from net.resolved 0 attempts ≡ some (suc k)
  pub in_time : net.resolved_at < net.begun + timeout
  pub refuses : RefusesFrom (net.attempt 0) timeout 0 k t

connect_each-Refuses :
    (attempt : ℕ → Attempt) (i k t : ℕ) (sock : Option ℕ) (r : Request)
    → RefusesFrom attempt r.timeout i k t
    → connect_each attempt i (suc k) sock r
      ≡ looped (record r { last_time = reached_at attempt i k }) (some t)
unfolding connect_each
connect_each-Refuses attempt i zero t sock r (e, c, early) =
    let r' = record r { last_time = (attempt i).started } in
    rw (e, connect_each)
      (rw
        (
          c,
          unless_timeout-in_time (attempt i).checked r' (connect_each attempt (suc i) 0 (some t))
              early,
        )
        refl)
connect_each-Refuses attempt i (suc k) t sock r (fails, early, later) =
    let r' = record r { last_time = (attempt i).started } in
    elim fails [
      | inl e ↦
          rw (e, connect_each)
            (rw
              (unless_timeout-in_time (attempt i).checked r'
                (connect_each attempt (suc i) (suc k) none) early)
              (connect_each-Refuses attempt (suc i) k t none r' later))
      | inr (u, e, c) ↦
          rw (e, connect_each)
            (rw
              (
                c,
                unless_timeout-in_time (attempt i).checked r'
                    (connect_each attempt (suc i) (suc k) (some u)) early,
              )
              (connect_each-Refuses attempt (suc i) k t (some u) r' later))
    ]

-- If the addresses of the host are found in time, and in the first round over them all fail in time,
-- the last one with a socket on which `connect` fails, then `nhr_request_connect_to_host` fails,
-- whatever a second round would give, and so though NHR_CONNECT_ATTEMPS leaves more rounds: none of
-- them is made. The request had no socket before.
pub connect_to_host-Refuses :
    (net : Network) (r : Request) (k t : ℕ)
    → r.socket ≡ none
    → Refuses net r.timeout k t
    → connect_to_host net r ≡ record r {
      command = inform_error;
      error_code = failed_connect_to_host;
      last_time = reached_at (net.attempt 0) 0 k;
    }
unfolding connect_to_host set_command
connect_to_host-Refuses net r k t closed x =
    let begun = record r { last_time = net.begun } in
    ap (λ p. connect_resolved net p.0 p.1)
      (connect_getaddr_info-found net.resolved begun (suc k) x.found)
    ∙ connect_resolved-in_time net begun (suc k) x.in_time
    ∙ connect_addresses_no_retry net (suc k) begun
        (record r { last_time = reached_at (net.attempt 0) 0 k }) t
        (connect_each-Refuses (net.attempt 0) 0 k t none begun x.refuses) closed
