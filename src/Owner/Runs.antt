-- ===== src/Owner/Runs.antt =====
-- A request's whole life: nothing is freed twice, and nothing is left.
use libnhr.Base.{
  ℕ, ◌+◌, ◌≡◌, suc, ◌≤◌, ◌<◌, refl, arith, Bool, true, false, List, [], ◌∷◌, ◌++◌, length,
  length-append,
}
use libnhr.Exec.{Exec, done}
use libnhr.Owner.{Memory, allocate, RequestPointers}
use libnhr.Owner.Calls.{
  create_request, add_header, add_text, Step, sets_url, adds_header, adds_text, adds_data,
  receives_first, receives_more, run_step, run_steps, live_and_die, create_thread, create_joiner,
  take_addresses, leaving_none, starts_thread, connects,
}
use libnhr.Owner.Owns.{Owns, count, allocate-Owns, free-Owns, count-append}
use libnhr.Owner.Life.{request_owns, delete_request-Owns}
use libnhr.Owner.Steps.{
  Keeps, create_request-Owns, set_url-Keeps, text_node-Owns, header-Owns, parameter-Owns,
  add_data-Keeps,
}
use libnhr.Owner.Received.{receive_first-Keeps, receive_more-Keeps}

-- The owner's addresses under another rest.
move-Owns :
    (rest rest' : ℕ → ℕ) (o o' : List ℕ) (m : Memory)
    → ((p : ℕ) → rest p + count p o ≡ rest' p + count p o')
    → Owns rest o m
    → Owns rest' o' m
move-Owns rest rest' o o' m same v = record {
  lives = λ p h. omega (arith, v.lives p h, same p);
  fresh = v.fresh;
  some_next = v.some_next;
}

-- What a call leaves to others than the request: a thread's structure, for the first thread the
-- joiner and its mutex, and the addresses of a connecting that timed out.
abbrev pub leftover : Step → ℕ
leftover (starts_thread true) = 3
leftover (starts_thread false) = 1
leftover (connects true) = 1
leftover _ = 0

abbrev pub leftovers : List Step → ℕ
leftovers [] = 0
leftovers (c ∷ cs) = leftover c + leftovers cs

-- A run that leaves `n` addresses, which count with the rest, and a request that owns its own.
abbrev KeepsBeside : (ℕ → ℕ) → ℕ → Exec (List ℕ × RequestPointers × Memory) → Type 0
KeepsBeside rest n run =
    (left : List ℕ) × (r : RequestPointers) × (m : Memory) × (run ≡ done (left, r, m))
    × (length left ≡ n)
    × Owns (λ p. rest p + count p left) (request_owns r) m

leaving_none-Keeps :
    (rest : ℕ → ℕ) (run : Exec (RequestPointers × Memory))
    → Keeps rest run
    → KeepsBeside rest 0 (leaving_none run)
unfolding leaving_none
leaving_none-Keeps rest run (r, m, e, v) = (
  [],
  r,
  m,
  rw e refl,
  refl,
  move-Owns rest (λ p. rest p + 0) (request_owns r) (request_owns r) m (λ p. omega arith) v,
)

create_thread-Keeps :
    (rest : ℕ → ℕ) (first : Bool) (r : RequestPointers) (m : Memory)
    → Owns rest (request_owns r) m
    → KeepsBeside rest (leftover (starts_thread first)) (run_step (starts_thread first) r m)
unfolding run_step create_thread create_joiner
create_thread-Keeps rest true r m v =
    let joiner = allocate-Owns rest (request_owns r) m v in
    let mutex = allocate-Owns rest _ _ joiner in
    let t = allocate-Owns rest _ _ mutex in
    (_, r, _, refl, refl, move-Owns rest _ _ (request_owns r) _ (λ p. omega arith) t)
create_thread-Keeps rest false r m v =
    let t = allocate-Owns rest (request_owns r) m v in
    (_, r, _, refl, refl, move-Owns rest _ _ (request_owns r) _ (λ p. omega arith) t)

take_addresses-Keeps :
    (rest : ℕ → ℕ) (timed_out : Bool) (r : RequestPointers) (m : Memory)
    → Owns rest (request_owns r) m
    → KeepsBeside rest (leftover (connects timed_out)) (run_step (connects timed_out) r m)
unfolding run_step take_addresses
take_addresses-Keeps rest true r m v =
    let a = allocate-Owns rest (request_owns r) m v in
    (_, r, _, refl, refl, move-Owns rest _ _ (request_owns r) _ (λ p. omega arith) a)
take_addresses-Keeps rest false r m v =
    let (m1, e, w) =
      free-Owns rest (allocate m).0 (request_owns r) (allocate m).1
        (allocate-Owns rest (request_owns r) m v) in
    ([], r, m1, rw e refl, refl, move-Owns rest _ _ (request_owns r) _ (λ p. omega arith) w)

run_step-Keeps :
    (rest : ℕ → ℕ) (c : Step) (r : RequestPointers) (m : Memory)
    → Owns rest (request_owns r) m
    → KeepsBeside rest (leftover c) (run_step c r m)
unfolding run_step add_header add_text
run_step-Keeps rest (sets_url scheme host path) r m v =
    leaving_none-Keeps rest _ (set_url-Keeps rest scheme host path r m v)
run_step-Keeps rest adds_header r m v =
    leaving_none-Keeps rest (done _)
      (_, _, refl, header-Owns rest r _ _ (text_node-Owns rest (request_owns r) m v))
run_step-Keeps rest adds_text r m v =
    leaving_none-Keeps rest (done _)
      (_, _, refl, parameter-Owns rest r _ _ (text_node-Owns rest (request_owns r) m v))
run_step-Keeps rest adds_data r m v = leaving_none-Keeps rest _ (add_data-Keeps rest r m v)
run_step-Keeps rest (starts_thread first) r m v = create_thread-Keeps rest first r m v
run_step-Keeps rest (connects timed_out) r m v = take_addresses-Keeps rest timed_out r m v
run_step-Keeps rest (receives_first has_body) r m v =
    leaving_none-Keeps rest _ (receive_first-Keeps rest has_body r.response r m refl v)
run_step-Keeps rest receives_more r m v =
    leaving_none-Keeps rest _ (receive_more-Keeps rest r.response r m refl v)

run_steps-Keeps :
    (rest : ℕ → ℕ) (cs : List Step) (r : RequestPointers) (m : Memory)
    → Owns rest (request_owns r) m
    → KeepsBeside rest (leftovers cs) (run_steps cs r m)
unfolding run_steps
run_steps-Keeps rest [] r m v = (
  [],
  r,
  m,
  refl,
  refl,
  move-Owns rest (λ p. rest p + 0) (request_owns r) (request_owns r) m (λ p. omega arith) v,
)
run_steps-Keeps rest (c ∷ cs) r m v =
    let (left, r1, m1, e1, n1, v1) = run_step-Keeps rest c r m v in
    let (more, r2, m2, e2, n2, v2) = run_steps-Keeps (λ p. rest p + count p left) cs r1 m1 v1 in
    (
      more ++ left,
      r2,
      m2,
      rw (e1, e2) refl,
      omega (arith, length-append more left, n1, n2),
      move-Owns (λ p. rest p + count p left + count p more) _ (request_owns r2) (request_owns r2) m2
          (λ p. omega (arith, count-append p more left)) v2,
    )

-- Over any list, in any order, of calls of nhr_request_set_url, nhr_request_add_header_field,
-- nhr_request_add_parameter and nhr_request_add_data_parameter, of calls of nhr_request_send that
-- start a thread, and of what that thread does for the request (connecting, in time or not, taking
-- the first block, taking a further one), between a request's creation and its deletion: if the
-- addresses that were never given are free at first, then no address is freed that is not
-- allocated, so none twice. Behind the deletion what is allocated is what was allocated before the
-- creation and, beside it, as many addresses as the calls leave to others: one structure for each
-- thread started, two more (the joiner and its mutex) for the program's first, and the list of
-- getaddrinfo for each connecting that timed out. The addresses of getaddrinfo count as one
-- allocation; what the message builders and zlib allocate in between is not among the calls.
pub live_and_die-Owns :
    (cs : List Step) (m : Memory)
    → ((p : ℕ) → m.next ≤ p → m.live p ≡ 0)
    → 0 < m.next
    → (left : List ℕ) × (m' : Memory) × (live_and_die cs m ≡ done (left, m'))
      × (length left ≡ leftovers cs)
      × ((p : ℕ) → m'.live (suc p) ≡ m.live (suc p) + count (suc p) left)
unfolding live_and_die
live_and_die-Owns cs m fresh some_next =
    let v : Owns m.live [] m = record {
      lives = λ p h. omega arith;
      fresh = fresh;
      some_next = some_next;
    } in
    let (left, r, m1, e, n, w) =
      run_steps-Keeps m.live cs (create_request m).0 (create_request m).1
        (create_request-Owns m.live m v) in
    let (m', e', u) = delete_request-Owns (λ p. m.live p + count p left) r m1 w in
    (left, m', rw (e, e') refl, n, λ p. omega (arith, u.lives (suc p) (λ h. omega (arith, h))))
