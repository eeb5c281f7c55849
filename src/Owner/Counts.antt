-- ===== src/Owner/Counts.antt =====
-- How often an address is among those of a request.
use libnhr.Base.{ℕ, ◌+◌, ◌≡◌, arith, List, [], ◌∷◌, ◌++◌, if◌then◌else◌, ◌==◌}
use libnhr.Owner.{NodePointers, RequestPointers}
use libnhr.Owner.Owns.{count, count-append}
use libnhr.Owner.Life.{node_owns, map_owns, response_owns, request_owns}

pub count-map_owns :
    (p : ℕ) (ns : List NodePointers) (n : NodePointers)
    → count p (map_owns (ns ++ (n ∷ []))) ≡ count p (map_owns ns) + count p (node_owns n)
count-map_owns p [] n = omega (arith, count-append p (node_owns n) [])
count-map_owns p (k ∷ ns) n = omega (
  arith,
  count-append p (node_owns k) (map_owns (ns ++ (n ∷ []))),
  count-append p (node_owns k) (map_owns ns),
  count-map_owns p ns n,
)

-- one address
abbrev one : ℕ → ℕ → ℕ
one p q = if q == p then 1 else 0

pub count-request_owns :
    (p : ℕ) (r : RequestPointers)
    → count p (request_owns r)
      ≡ one p r.scheme
        + one p r.host
        + one p r.path
        + count p (map_owns r.http_headers)
        + count p (map_owns r.parameters)
        + one p r.work_mutex
        + one p r.command_mutex
        + count p (response_owns r.response)
        + one p r.boundary
        + one p r.self
count-request_owns p r =
    let tail = response_owns r.response ++ (r.boundary ∷ r.self ∷ []) in
    let mutexes = r.work_mutex ∷ r.command_mutex ∷ tail in
    omega (
      arith,
      count-append p (map_owns r.http_headers) (map_owns r.parameters ++ mutexes),
      count-append p (map_owns r.parameters) mutexes,
      count-append p (response_owns r.response) (r.boundary ∷ r.self ∷ []),
    )
