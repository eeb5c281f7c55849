-- ===== src/Owner.antt =====
-- Who owns which allocation: what the functions of a request and of its response allocate and free,
-- with pointers in place of contents. The functions that free are those of src/nhr_memory.c,
-- src/nhr_string.c, src/nhr_map.c, src/nhr_thread.c (mutexes), src/nhr_response.c and
-- src/nhr_request_private.c. Allocating functions are in Owner/Calls.antt, proofs in the other
-- children.
pub mod Calls
pub mod Owns
pub mod Life
pub mod Counts
pub mod Steps
pub mod Received
pub mod Runs
use libnhr.Base.{
  ℕ, suc, ◌+◌, ◌-◌, Option, none, some, Bool, true, false, List, [], ◌∷◌, ◌++◌, if◌then◌else◌, leb,
  ◌==◌,
}
use libnhr.Exec.{Exec, done, fault, ◌>>=◌}

-- How often an address is allocated, once or not at all, and the next address that `malloc` gives,
-- which it never gave before: an address that was freed stays free, so each later use of it shows.
pub record Memory : Type 0 where
  pub next : ℕ
  pub live : ℕ → ℕ

abbrev pub set_live : (ℕ → ℕ) → ℕ → ℕ → ℕ → ℕ
set_live live p n q = if p == q then n else live q

-- the address and the memory then
unfoldable pub allocate : Memory → ℕ × Memory
allocate m =
    (m.next, record { next = suc m.next; live = set_live m.live m.next (suc (m.live m.next)) })

-- `nhr_free`; to free what is not allocated is a fault
unfoldable pub free : ℕ → Memory → Exec Memory
free p m =
    if p == 0
    then done m
    else if m.live p == 0
    then fault
    else done (record m { live = set_live m.live p (m.live p - 1) })

-- `nhr_mutex_delete`; a mutex is its address, and NULL is left alone
abbrev pub delete_mutex : ℕ → Memory → Exec Memory
delete_mutex p m = free p m

-- a node of a map: its address and its pointers
pub record NodePointers : Type 0 where
  pub self : ℕ
  pub key : ℕ
  pub value : ℕ
  pub reserved : ℕ
  pub value_type : ℕ
  pub reserved_type : ℕ

-- `nhr_map_delete`; a type of at most NHR_MAP_VALUE_STRING is freed
unfoldable pub delete_node : NodePointers → Memory → Exec Memory
delete_node n m = do
  m1 ← free n.key m
  m2 ← if leb n.value_type 2 then free n.value m1 else done m1
  m3 ← if leb n.reserved_type 2 then free n.reserved m2 else done m2
  free n.self m3

unfoldable pub delete_map : List NodePointers → Memory → Exec Memory
delete_map [] m = done m
delete_map (n ∷ ns) m = do m1 ← delete_node n m; delete_map ns m1

pub record ResponsePointers : Type 0 where
  pub self : ℕ
  pub body : ℕ

-- `nhr_response_delete`
unfoldable pub delete_response : Option ResponsePointers → Memory → Exec Memory
delete_response none m = done m
delete_response (some r) m = do m1 ← free r.body m; free r.self m1

-- a request: its address and its pointers
pub record RequestPointers : Type 0 where
  pub self : ℕ
  pub scheme : ℕ
  pub host : ℕ
  pub path : ℕ
  pub http_headers : List NodePointers
  pub parameters : List NodePointers
  pub work_mutex : ℕ
  pub command_mutex : ℕ
  pub response : Option ResponsePointers
  pub boundary : ℕ

-- `nhr_request_delete`, behind the closing of the socket
unfoldable pub delete_request : RequestPointers → Memory → Exec Memory
delete_request r m = do
  m1 ← free r.scheme m
  m2 ← free r.host m1
  m3 ← free r.path m2
  m4 ← delete_map r.http_headers m3
  m5 ← delete_map r.parameters m4
  m6 ← delete_mutex r.work_mutex m5
  m7 ← delete_mutex r.command_mutex m6
  m8 ← delete_response r.response m7
  m9 ← free r.boundary m8
  free r.self m9
