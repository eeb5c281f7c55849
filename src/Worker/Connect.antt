-- ===== src/Worker/Connect.antt =====
-- `nhr_request_connect_getaddr_info` and `nhr_request_connect_to_host`.
use libnhr.Base.{ℕ, zero, suc, Option, none, some, Bool, if◌then◌else◌}
use libnhr.Request.{Request, inform_error, send_raw_request, failed_connect_to_host}
use libnhr.Worker.{set_command, check_timeout}

-- NHR_CONNECT_ATTEMPS less one: `++retry_number < NHR_CONNECT_ATTEMPS` holds so often
abbrev pub attempts : ℕ
attempts = 4

-- What happens with one address: the time before `socket`, what `socket` returns, whether `connect`
-- succeeds, and the time at `nhr_request_check_timeout`.
pub record Attempt : Type 0 where
  pub started : ℕ
  pub opened : Option ℕ
  pub connected : Bool
  pub checked : ℕ

-- What the system answers while a host is connected to: the time, how many addresses each call of
-- `getaddrinfo` gives (`none`: it fails, or gives none), the time after it, and for each round over
-- the addresses what happens with each of them.
pub record Network : Type 0 where
  pub begun : ℕ
  pub resolved : ℕ → Option ℕ
  pub resolved_at : ℕ
  pub attempt : ℕ → ℕ → Attempt

-- the `while` loop over `getaddrinfo`, with the rounds left
unfoldable pub resolve_from : (ℕ → Option ℕ) → ℕ → ℕ → Option ℕ
resolve_from resolved i zero = none
resolve_from resolved i (suc left) = elim (resolved i) [
  | none ↦ resolve_from resolved (suc i) left
  | some n ↦ some n
]

abbrev pub fail_connect : Request → Request
fail_connect r = set_command inform_error (record r { error_code = failed_connect_to_host })

unfoldable pub connect_getaddr_info : (ℕ → Option ℕ) → Request → Request × Option ℕ
unfolding set_command
connect_getaddr_info resolved r = elim (resolve_from resolved 0 attempts) [
  | none ↦ (fail_connect r, none)
  | some n ↦ (r, some n)
]

-- A loop that may return from the whole function, or ends with the variable `sock`.
pub data Outcome : Type 0 where
  returned : Request → Outcome
  looped : Request → Option ℕ → Outcome

-- behind the body of the `for` loop: `next` is the rest of the loop
abbrev pub unless_timeout : ℕ → Request → (Request → Outcome) → Outcome
unless_timeout now r next =
    let (r', ok) = check_timeout now r in if ok then next r' else returned r'

-- the `for` loop over the addresses from index `i`, `left` of them
unfoldable pub connect_each : (ℕ → Attempt) → ℕ → ℕ → Option ℕ → Request → Outcome
unfolding check_timeout
connect_each attempt i zero sock r = looped r sock
connect_each attempt i (suc left) sock r =
    let a = attempt i in
    let r' = record r { last_time = a.started } in
    elim a.opened [
      | none ↦ unless_timeout a.checked r' (connect_each attempt (suc i) left none)
      | some s ↦
          if a.connected
          then looped (record r' { socket = some s }) (some s)
          else unless_timeout a.checked r' (connect_each attempt (suc i) left (some s))
    ]

-- the `while` loop around it, with the rounds left
unfoldable pub connect_rounds : Network → ℕ → ℕ → ℕ → Option ℕ → Request → Outcome
connect_rounds net addresses round zero sock r = looped r sock
connect_rounds net addresses round (suc left) (some s) r = looped r (some s)
connect_rounds net addresses round (suc left) none r =
    elim (connect_each (net.attempt round) 0 addresses none r) [
      | returned r' ↦ returned r'
      | looped r' sock ↦ connect_rounds net addresses (suc round) left sock r'
    ]

-- behind both loops
unfoldable pub connected_or_failed : Request → Request
unfolding set_command
connected_or_failed r = elim r.socket [
  | none ↦ fail_connect r
  | some s ↦ set_command send_raw_request r
]

unfoldable pub connect_addresses : Network → ℕ → Request → Request
connect_addresses net addresses r = elim (connect_rounds net addresses 0 attempts none r) [
  | returned r' ↦ r'
  | looped r' sock ↦ connected_or_failed r'
]

-- behind `nhr_request_connect_getaddr_info`, which gave `addresses`
unfoldable pub connect_resolved : Network → Request → Option ℕ → Request
connect_resolved net resolved addresses =
    let (checked, ok) = check_timeout net.resolved_at resolved in
    if ok
    then elim addresses [ none ↦ checked | some n ↦ connect_addresses net n checked ]
    else checked

unfoldable pub connect_to_host : Network → Request → Request
connect_to_host net r =
    let (resolved, addresses) =
      connect_getaddr_info net.resolved (record r { last_time = net.begun }) in
    connect_resolved net resolved addresses
