-- ===== src/Request/Public.antt =====
-- src/nhr_request_public.c. A request that is NULL is `none`.
use libnhr.Base.{
  ℕ, zero, suc, ◌%◌, ◌^◌, Option, none, some, Bool, true, false, ◌||◌, [], ◌∷◌, length,
  if◌then◌else◌, ◌==◌,
}
use libnhr.Exec.{Exec, done, fault, ◌>>=◌}
use libnhr.Clib.Memory.{Bytes, bytes_of, read}
use libnhr.Clib.Strings.{codes, strcmp_eq}
use libnhr.Heap.{len_of, string_copy, string_copy_len}
use libnhr.Map.{Node, value_data, value_string, add}
use libnhr.Response.Header.{gzip_word, deflate_word}
use libnhr.Request.{
  Request, ErrorCode, error_none, missed_parameter, none_command, connect_to_host, end_command,
}

-- `if (request) …`
abbrev on_request : (Request → Exec Request) → Option Request → Exec (Option Request)
on_request f none = done none
on_request f (some r) = do r' ← f r; done (some r')

unfoldable pub set_url_of : Option Bytes → Option Bytes → Option Bytes → ℕ → Request → Exec Request
set_url_of scheme host path port r = do
  s ← string_copy scheme
  h ← string_copy host
  p ← string_copy path
  done (record r { scheme = s; host = h; path = p; port = port })

unfoldable pub set_url :
    Option Request → Option Bytes → Option Bytes → Option Bytes → ℕ → Exec (Option Request)
unfolding set_url_of
set_url request scheme host path port = on_request (set_url_of scheme host path port) request

abbrev set_field : (Request → Request) → Option Request → Option Request
set_field f none = none
set_field f (some r) = some (f r)

unfoldable pub set_method : Option Request → ℕ → Option Request
set_method request method = set_field (λ r. record r { method = method }) request

unfoldable pub set_on_recvd_response : Option Request → Option ℕ → Option Request
set_on_recvd_response request callback =
    set_field (λ r. record r { on_recvd_response = callback }) request

unfoldable pub set_on_error : Option Request → Option ℕ → Option Request
set_on_error request callback = set_field (λ r. record r { on_error = callback }) request

unfoldable pub set_user_object : Option Request → Option ℕ → Option Request
set_user_object request object = set_field (λ r. record r { user_object = object }) request

unfoldable pub set_timeout : Option Request → ℕ → Option Request
set_timeout request seconds = set_field (λ r. record r { timeout = seconds }) request

unfoldable pub get_timeout : Option Request → ℕ
get_timeout none = 0
get_timeout (some r) = r.timeout % 2 ^ 32

unfoldable pub get_user_object : Option Request → Option ℕ
get_user_object none = none
get_user_object (some r) = r.user_object

unfoldable pub get_error_code : Option Request → ErrorCode
get_error_code none = error_none
get_error_code (some r) = r.error_code

-- the stores of `nhr_request_add_header_field` and `nhr_request_add_parameter` to the new node
abbrev pub fill_text : Option Bytes → Option Bytes → ℕ → Node → Node
fill_text key value size n = record n {
  key = key;
  value = value;
  value_size = size;
  value_type = value_string;
}

abbrev pub fill_data : Option Bytes → Option Bytes → ℕ → Bytes → Node → Node
fill_data key file_name file_name_len content n = record n {
  key = key;
  value = some content;
  reserved = file_name;
  value_size = length content;
  reserved_size = file_name_len;
  reserved_type = value_string;
  value_type = value_data;
}

-- both lengths are known and neither is 0
unfoldable pub append_header : Request → Option Bytes → ℕ → Option Bytes → ℕ → Exec Request
append_header r name name_len value value_len = do
  k ← string_copy_len name name_len
  v ← string_copy_len value value_len
  headers ← add (fill_text k v value_len) r.http_headers
  gzip ← strcmp_eq (bytes_of value) gzip_word
  deflate ← strcmp_eq (bytes_of value) deflate_word
  done (record r {
    http_headers = headers;
    is_gziped = r.is_gziped || gzip;
    is_deflated = r.is_deflated || deflate;
  })

unfoldable pub add_header : Option Bytes → Option Bytes → Request → Exec Request
unfolding append_header
add_header name value r = do
  name_len ← len_of name
  value_len ← len_of value
  if name_len == 0 || value_len == 0 then done r else append_header r name name_len value value_len

unfoldable pub add_header_field :
    Option Request → Option Bytes → Option Bytes → Exec (Option Request)
add_header_field request name value = on_request (add_header name value) request

-- `assert(request->method)` and what follows it
unfoldable pub append_parameter : Request → Option Bytes → ℕ → Option Bytes → ℕ → Exec Request
append_parameter r name name_len value value_len = if r.method == 0 then fault else (do
  k ← string_copy_len name name_len
  v ← string_copy_len value value_len
  parameters ← add (fill_text k v value_len) r.parameters
  done (record r { parameters = parameters }))

unfoldable pub add_text : Option Bytes → Option Bytes → Request → Exec Request
unfolding append_parameter
add_text name value r = do
  name_len ← len_of name
  value_len ← len_of value
  if name_len == 0 || value_len == 0
      then done r
      else append_parameter r name name_len value value_len

unfoldable pub add_parameter : Option Request → Option Bytes → Option Bytes → Exec (Option Request)
add_parameter request name value = on_request (add_text name value) request

-- the 62 characters of `charset`
abbrev pub charset : Bytes
charset = codes "0123456789ABCDEFGHIJKLMNOPQRSTUVWXYZabcdefghijklmnopqrstuvwxyz"

abbrev pub boundary_len : ℕ
boundary_len = 12

unfoldable pub charset_at : ℕ → Bytes → ℕ
charset_at i [] = 0
charset_at i (c ∷ cs) = elim i [ zero ↦ c | suc j ↦ charset_at j cs ]

-- `boundary[i] = charset[rand() % 62]`, `count` times; the random numbers stand in order
unfoldable pub boundary_from : (ℕ → ℕ) → ℕ → ℕ → Bytes
unfolding charset_at
boundary_from rand i zero = []
boundary_from rand i (suc count) =
    charset_at (rand i % 62) charset ∷ boundary_from rand (suc i) count

module _ (rand : ℕ → ℕ) where
  unfoldable pub generate_new_boundary : Request → Exec Request
  generate_new_boundary r = do
    b ← string_copy_len (some (boundary_from rand 0 boundary_len)) boundary_len
    done (record r { boundary = b })

  unfoldable pub append_data_parameter :
      Request → Option Bytes → ℕ → Option Bytes → ℕ → Bytes → Exec Request
  append_data_parameter r name name_len file_name file_name_len content =
      if r.method == 0 then fault else (do
        k ← string_copy_len name name_len
        f ← string_copy_len file_name file_name_len
        parameters ← add (fill_data k f file_name_len content) r.parameters
        let added = record r { parameters = parameters; is_have_data_parameter = true }
        elim r.boundary [ none ↦ generate_new_boundary added | some b ↦ done added ])

  -- with a request; NULL for the data is `none`
  unfoldable pub add_data : Option Bytes → Option Bytes → Option Bytes → ℕ → Request → Exec Request
  add_data name file_name none data_size r = done r
  add_data name file_name (some content) data_size r = if data_size == 0 then done r else (do
    name_len ← len_of name
    file_name_len ← len_of file_name
    if name_len == 0 || file_name_len == 0 then done r else (do
      copied ← read data_size content
      append_data_parameter r name name_len file_name file_name_len copied))

  unfoldable pub add_data_parameter :
      Option Request → Option Bytes → Option Bytes → Option Bytes → ℕ → Exec (Option Request)
  add_data_parameter request name file_name content data_size =
      on_request (add_data name file_name content data_size) request

abbrev is_missing {ℓ} : {A : Type ℓ} → Option A → Bool
is_missing none = true
is_missing (some a) = false

-- `nhr_request_create_start_work_thread`; `thread` is what `nhr_thread_create` returns
unfoldable pub create_start_work_thread : Option ℕ → Request → Request × Bool
create_start_work_thread none r = (record r { command = none_command; work_thread = none }, false)
create_start_work_thread (some thread) r =
    (record r { command = connect_to_host; work_thread = some thread }, true)

unfoldable pub send_request : Option ℕ → Request → Request × Bool
unfolding create_start_work_thread
send_request thread r =
    if is_missing r.scheme
      || is_missing r.host
      || is_missing r.path
      || r.method == 0
      || is_missing r.on_recvd_response
      || is_missing r.on_error
    then (record r { error_code = missed_parameter }, false)
    else create_start_work_thread thread (record r { error_code = error_none })

unfoldable pub send : Option ℕ → Option Request → Option Request × Bool
unfolding send_request
send thread none = (none, false)
send thread (some r) = let (r', sent) = send_request thread r in (some r', sent)

-- what a cancelled request comes to: the command END for its thread, or its deletion at once
unfoldable pub cancel : Option Request → Option Request
cancel none = none
cancel (some r) = elim r.work_thread [
  | none ↦ none
  | some t ↦ some (record r { command = end_command })
]
