-- ===== src/Worker/Race/Frame.antt =====
-- What the work thread leaves alone: `work_thread` and the two callbacks.
use libnhr.Base.{
  ℕ, zero, suc, ◌≡◌, ◌∙◌, arith, Option, none, some, Bool-cases, Option-cases, inl, inr,
}
use libnhr.Request.{Request}
use libnhr.Worker.{check_timeout}
use libnhr.Worker.Connect as Connect
use libnhr.Worker.Connect.{
  Attempt, Network, Outcome, returned, looped, resolve_from, connect_getaddr_info, unless_timeout,
  connect_each, connect_rounds, connected_or_failed, connect_addresses, connect_resolved, attempts,
}

abbrev pub setup : Request → Option ℕ × Option ℕ × Option ℕ
setup r = (r.work_thread, r.on_recvd_response, r.on_error)

-- behind a loop, returned or not
abbrev Leaves : Option ℕ × Option ℕ × Option ℕ → Outcome → Type 0
Leaves u (returned r) = setup r ≡ u
Leaves u (looped r sock) = setup r ≡ u

setup-check_timeout : (now : ℕ) (r : Request) → setup (check_timeout now r).0 ≡ setup r
unfolding check_timeout
setup-check_timeout now r = ground arith

unless_timeout-Leaves :
    (u : Option ℕ × Option ℕ × Option ℕ) (now : ℕ) (r : Request) (next : Request → Outcome)
    → setup r ≡ u
    → ((r' : Request) → setup r' ≡ u → Leaves u (next r'))
    → Leaves u (unless_timeout now r next)
unless_timeout-Leaves u now r next e h = elim (Bool-cases (check_timeout now r).1) [
  | inl k ↦ rw k (h (check_timeout now r).0 (setup-check_timeout now r ∙ e))
  | inr k ↦ rw k (setup-check_timeout now r ∙ e)
]

module _ (u : Option ℕ × Option ℕ × Option ℕ) where
  connect_each-Leaves :
      (attempt : ℕ → Attempt) (i left : ℕ) (sock : Option ℕ) (r : Request)
      → setup r ≡ u
      → Leaves u (connect_each attempt i left sock r)
  unfolding connect_each
  connect_each-Leaves attempt i zero sock r e = e
  connect_each-Leaves attempt i (suc left) sock r e = elim (Option-cases (attempt i).opened) [
    | inl k ↦
        rw (k, connect_each)
          (unless_timeout-Leaves u (attempt i).checked _ _ e
            (connect_each-Leaves attempt (suc i) left none))
    | inr (s, k) ↦ elim (Bool-cases (attempt i).connected) [
      | inl c ↦ rw (k, connect_each) (rw c e)
      | inr c ↦
          rw (k, connect_each)
            (rw c (
              unless_timeout-Leaves u (attempt i).checked _ _ e
                (connect_each-Leaves attempt (suc i) left (some s))))
    ]
  ]

  looped-Leaves :
      (o : Outcome) (next : Option ℕ → Request → Outcome)
      → Leaves u o
      → ((sock : Option ℕ) (r : Request) → setup r ≡ u → Leaves u (next sock r))
      → Leaves u (elim o [ returned r ↦ returned r | looped r sock ↦ next sock r ])
  looped-Leaves (returned r) next e h = e
  looped-Leaves (looped r sock) next e h = h sock r e

  connect_rounds-Leaves :
      (net : Network) (addresses round left : ℕ) (sock : Option ℕ) (r : Request)
      → setup r ≡ u
      → Leaves u (connect_rounds net addresses round left sock r)
  unfolding connect_rounds
  connect_rounds-Leaves net addresses round zero sock r e = e
  connect_rounds-Leaves net addresses round (suc left) (some s) r e = e
  connect_rounds-Leaves net addresses round (suc left) none r e =
      looped-Leaves (connect_each (net.attempt round) 0 addresses none r)
        (connect_rounds net addresses (suc round) left)
        (connect_each-Leaves (net.attempt round) 0 addresses none r e)
        (connect_rounds-Leaves net addresses (suc round) left)

  decided-Leaves :
      (o : Outcome)
      → Leaves u o
      → setup (elim o [ returned r ↦ r | looped r sock ↦ connected_or_failed r ]) ≡ u
  unfolding connected_or_failed
  decided-Leaves (returned r) e = e
  decided-Leaves (looped r sock) e = ground arith

  connect_addresses-setup :
      (net : Network) (addresses : ℕ) (r : Request)
      → setup r ≡ u
      → setup (connect_addresses net addresses r) ≡ u
  unfolding connect_addresses
  connect_addresses-setup net addresses r e =
      decided-Leaves (connect_rounds net addresses 0 attempts none r)
        (connect_rounds-Leaves net addresses 0 attempts none r e)

  connect_resolved-setup :
      (net : Network) (r : Request) (addresses : Option ℕ)
      → setup r ≡ u
      → setup (connect_resolved net r addresses) ≡ u
  unfolding connect_resolved
  connect_resolved-setup net r addresses e =
      let k = setup-check_timeout net.resolved_at r ∙ e in
      elim (Bool-cases (check_timeout net.resolved_at r).1) [
        | inr late ↦ rw late k
        | inl ok ↦ elim (Option-cases addresses) [
          | inl h ↦ rw (ok, h) k
          | inr (n, h) ↦
              rw (ok, h) (connect_addresses-setup net n (check_timeout net.resolved_at r).0 k)
        ]
      ]

  pub setup-connect_to_host :
      (net : Network) (r : Request) → setup r ≡ u → setup (Connect.connect_to_host net r) ≡ u
  unfolding Connect.connect_to_host connect_getaddr_info
  setup-connect_to_host net r e =
      let begun = record r { last_time = net.begun } in
      connect_resolved-setup net (connect_getaddr_info net.resolved begun).0
        (connect_getaddr_info net.resolved begun).1 (ground arith)
