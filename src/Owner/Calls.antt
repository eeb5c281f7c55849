-- ===== src/Owner/Calls.antt =====
-- What the calls on a request allocate and free. A text argument is told by whether there is one.
use libnhr.Base.{ℕ, Option, none, some, Bool, true, false, List, [], ◌∷◌, ◌++◌, if◌then◌else◌, ◌==◌}
use libnhr.Exec.{Exec, done, ◌>>=◌}
use libnhr.Map.{value_data, value_string}
use libnhr.Owner.{
  Memory, allocate, free, NodePointers, ResponsePointers, RequestPointers, delete_request,
}

-- `nhr_mutex_create_recursive`
abbrev pub create_mutex : Memory → ℕ × Memory
create_mutex m = allocate m

-- `nhr_request_create`
unfoldable pub create_request : Memory → RequestPointers × Memory
create_request m =
    let (self, m1) = allocate m in
    let (work_mutex, m2) = create_mutex m1 in
    let (command_mutex, m3) = create_mutex m2 in
    (
      record {
        self = self;
        scheme = 0;
        host = 0;
        path = 0;
        http_headers = [];
        parameters = [];
        work_mutex = work_mutex;
        command_mutex = command_mutex;
        response = none;
        boundary = 0;
      },
      m3,
    )

-- `nhr_string_copy` of a text that is there and not empty, or NULL
unfoldable pub copy_string : Bool → Memory → ℕ × Memory
copy_string true m = allocate m
copy_string false m = (0, m)

-- `nhr_string_delete` of the old text, and a copy of the new
unfoldable pub replace_string : ℕ → Bool → Memory → Exec (ℕ × Memory)
unfolding copy_string
replace_string old text m = do m1 ← free old m; done (copy_string text m1)

-- `nhr_request_set_url`
unfoldable pub set_url :
    Bool → Bool → Bool → RequestPointers → Memory → Exec (RequestPointers × Memory)
set_url scheme host path r m = do
  (scheme_copy, m1) ← replace_string r.scheme scheme m
  (host_copy, m2) ← replace_string r.host host m1
  (path_copy, m3) ← replace_string r.path path m2
  done (record r { scheme = scheme_copy; host = host_copy; path = path_copy }, m3)

-- A new last node for a text, as `nhr_request_add_header_field` and `nhr_request_add_parameter` make
-- it. A map that is there has no node without a value, so its last node is never taken again.
unfoldable pub text_node : Memory → NodePointers × Memory
text_node m =
    let (self, m1) = allocate m in
    let (key, m2) = allocate m1 in
    let (value, m3) = allocate m2 in
    (
      record {
        self = self;
        key = key;
        value = value;
        reserved = 0;
        value_type = value_string;
        reserved_type = 0;
      },
      m3,
    )

unfoldable pub add_header : RequestPointers → Memory → RequestPointers × Memory
add_header r m =
    let (n, m1) = text_node m in (record r { http_headers = r.http_headers ++ (n ∷ []) }, m1)

unfoldable pub add_text : RequestPointers → Memory → RequestPointers × Memory
add_text r m = let (n, m1) = text_node m in (record r { parameters = r.parameters ++ (n ∷ []) }, m1)

-- the node that `nhr_request_add_data_parameter` makes: the copy of the data is the first allocation
unfoldable pub data_node : Memory → NodePointers × Memory
data_node m =
    let (value, m1) = allocate m in
    let (self, m2) = allocate m1 in
    let (key, m3) = allocate m2 in
    let (file, m4) = allocate m3 in
    (
      record {
        self = self;
        key = key;
        value = value;
        reserved = file;
        value_type = value_data;
        reserved_type = value_string;
      },
      m4,
    )

-- `nhr_request_generate_new_boundary`
unfoldable pub generate_new_boundary : RequestPointers → Memory → Exec (RequestPointers × Memory)
unfolding replace_string
generate_new_boundary r m = do
  (boundary, m1) ← replace_string r.boundary true m
  done (record r { boundary = boundary }, m1)

unfoldable pub add_data : RequestPointers → Memory → Exec (RequestPointers × Memory)
add_data r m =
    let (n, m1) = data_node m in
    let added = record r { parameters = r.parameters ++ (n ∷ []) } in
    if r.boundary == 0 then generate_new_boundary added m1 else done (added, m1)

-- `nhr_realloc`, or the exchange of one body for another: the old one is freed
unfoldable pub replace_body : ResponsePointers → Memory → Exec (ResponsePointers × Memory)
unfolding replace_string
replace_body response m = do
  (body, m1) ← replace_string response.body true m
  done (record response { body = body }, m1)

-- The first block makes the response, with a body if any has come; a later block, or the
-- decompression, may put a new body in place of the old.
unfoldable pub receive_first :
    Bool → Option ResponsePointers → RequestPointers → Memory → Exec (RequestPointers × Memory)
receive_first has_body none r m =
    let (self, m1) = allocate m in
    let (body, m2) = copy_string has_body m1 in
    done (record r { response = some (record { self = self; body = body }) }, m2)
receive_first has_body (some old) r m = done (r, m)

unfoldable pub receive_more :
    Option ResponsePointers → RequestPointers → Memory → Exec (RequestPointers × Memory)
receive_more none r m = done (r, m)
receive_more (some response) r m = do
  (grown, m1) ← replace_body response m
  done (record r { response = some grown }, m1)

-- `nhr_threads_joiner_create_ifneed`, told whether there is no joiner yet: what it allocates
unfoldable pub create_joiner : Bool → Memory → List ℕ × Memory
create_joiner false m = ([], m)
create_joiner true m =
    let (self, m1) = allocate m in let (mutex, m2) = create_mutex m1 in (mutex ∷ self ∷ [], m2)

-- `nhr_thread_create`: what it allocates, the thread's structure last
unfoldable pub create_thread : Bool → Memory → List ℕ × Memory
create_thread first m =
    let (joiner, m1) = create_joiner first m in let (t, m2) = allocate m1 in (t ∷ joiner, m2)

-- The list of addresses that `getaddrinfo` gives `nhr_request_connect_to_host`, told whether the
-- function returns for a timeout: what is left of it. The list counts as one allocation.
unfoldable pub take_addresses : Bool → Memory → Exec (List ℕ × Memory)
take_addresses true m = let (addresses, m1) = allocate m in done (addresses ∷ [], m1)
take_addresses false m =
    let (addresses, m1) = allocate m in do m2 ← free addresses m1; done ([], m2)

-- One call of the client or of the request's thread. `starts_thread` is a `nhr_request_send` that
-- is not refused, told whether it is the program's first; a refused one allocates nothing.
pub data Step : Type 0 where
  sets_url : Bool → Bool → Bool → Step
  adds_header adds_text adds_data : Step
  starts_thread connects : Bool → Step
  receives_first : Bool → Step
  receives_more : Step

-- a call that leaves nothing that is not the request's
unfoldable pub leaving_none :
    Exec (RequestPointers × Memory) → Exec (List ℕ × RequestPointers × Memory)
leaving_none run = do (r, m) ← run; done ([], r, m)

-- The result has the addresses that are left to others than the request.
unfoldable pub run_step : Step → RequestPointers → Memory → Exec (List ℕ × RequestPointers × Memory)
unfolding leaving_none
run_step (sets_url scheme host path) r m = leaving_none (set_url scheme host path r m)
run_step adds_header r m = leaving_none (done (add_header r m))
run_step adds_text r m = leaving_none (done (add_text r m))
run_step adds_data r m = leaving_none (add_data r m)
run_step (starts_thread first) r m = let (left, m1) = create_thread first m in done (left, r, m1)
run_step (connects timed_out) r m = do (left, m1) ← take_addresses timed_out m; done (left, r, m1)
run_step (receives_first has_body) r m = leaving_none (receive_first has_body r.response r m)
run_step receives_more r m = leaving_none (receive_more r.response r m)

unfoldable pub run_steps :
    List Step → RequestPointers → Memory → Exec (List ℕ × RequestPointers × Memory)
run_steps [] r m = done ([], r, m)
run_steps (c ∷ cs) r m = do
  (left, r1, m1) ← run_step c r m
  (more, r2, m2) ← run_steps cs r1 m1
  done (more ++ left, r2, m2)

-- A request from `nhr_request_create` to `nhr_request_delete`, and what it leaves to others.
unfoldable pub live_and_die : List Step → Memory → Exec (List ℕ × Memory)
live_and_die cs m =
    let (r, m1) = create_request m in
    do (left, last, m2) ← run_steps cs r m1; m3 ← delete_request last m2; done (left, m3)
