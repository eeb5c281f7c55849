-- ===== src/Worker/Transfer.antt =====
-- `nhr_request_send_raw_request`, `nhr_request_send_buffer`, `nhr_request_recv` and the two
-- functions that wait for the response.
use libnhr.Base.{
  ℕ, ◌+◌, ◌-◌, ◌%◌, ◌^◌, Option, none, some, Bool, true, false, ◌||◌, not, List, [], ◌∷◌,
  if◌then◌else◌, ltb, ◌==◌,
}
use libnhr.Exec.{Exec, done, fault, ◌>>=◌}
use libnhr.Clib.Memory.{Bytes, u64, read}
use libnhr.Codec.{Codec}
use libnhr.Request.{
  Request, error_none, failed_connect_to_host, start_waiting_raw_response, wait_raw_response,
  inform_response, inform_error, method_get, method_post,
}
use libnhr.Request.Get.{create_header_get}
use libnhr.Request.Post.{create_header_post}
use libnhr.Response.{Response}
use libnhr.Response.Receive
use libnhr.Worker.{close, set_command, check_timeout}

-- What `send` returns (`none` is -1), and `errno` behind it.
pub record Sent : Type 0 where
  pub result : Option ℕ
  pub errno : ℕ

-- `(int)data_size`, as the `size_t` that `send` takes it for
unfoldable pub given_size : ℕ → ℕ
given_size data_size =
    let low = data_size % 2 ^ 32 in if ltb low (2 ^ 31) then low else u64 (low + 2 ^ 64 - 2 ^ 32)

-- The answer is that to the bytes that `send` is given.
unfoldable pub send_buffer : (Bytes → Sent) → Request → Bytes → ℕ → Exec (Request × Bool)
send_buffer answer r buff data_size = do
  given ← read (given_size data_size) buff
  let r' = record r { error_code = error_none }
  let sent = answer given
  done (elim sent.result [
    | none ↦ (r', not (ltb 0 sent.errno))
    | some n ↦ (r', ltb 0 n || not (ltb 0 sent.errno))
  ])

-- behind `nhr_request_send_buffer`, which returned `sent`
unfoldable pub sent_or_failed : ℕ → Request → Bool → Request
unfolding close set_command check_timeout
sent_or_failed now r true = set_command start_waiting_raw_response r
sent_or_failed now r false =
    let (r', ok) = check_timeout now (close r) in
    if ok then set_command inform_error (record r' { error_code = failed_connect_to_host }) else r'

-- One block that `recv` gives: the whole array `buff`, how much of it is new, and the time then.
pub record Packet : Type 0 where
  pub buff : Bytes
  pub len : ℕ
  pub time : ℕ

-- `errno`: EAGAIN, EINPROGRESS, or any other value
pub data Errno : Type 0 where
  would_block in_progress other_error : Errno

-- How the blocks end: `recv` returns 0, which leaves `errno` alone, or fails.
pub data Stop : Type 0 where
  closed : Stop
  failed : Errno → Stop

-- the `errno` that is read behind the last `recv`
abbrev pub errno_after : Errno → Stop → Errno
errno_after errno closed = errno
errno_after errno (failed e) = e

abbrev pub is_again : Errno → Bool
is_again would_block = true
is_again in_progress = true
is_again other_error = false

-- The blocks that one call of `nhr_request_recv` gets, `errno` before it, and the time behind it.
pub record Received : Type 0 where
  pub packets : List Packet
  pub errno : Errno
  pub stop : Stop
  pub checked : ℕ

abbrev pub is_finished : Option Response → Bool
is_finished none = false
is_finished (some response) = response.is_finished

module _ (codec : Codec) where
  -- The message of the request's method. Another method fails an `assert`.
  unfoldable pub create_header : Request → Exec (Request × Bytes × ℕ)
  create_header r =
      if r.method == method_get
      then (do (message, size) ← create_header_get r; done (r, message, size))
      else if r.method == method_post
      then create_header_post codec r
      else fault

  unfoldable pub send_raw : (Bytes → Sent) → ℕ → Request → Exec Request
  send_raw answer now r = do
    (r', message, size) ← create_header r
    (r'', sent) ← send_buffer answer r' message size
    done (sent_or_failed now r'' sent)

  unfoldable pub take_packet : Packet → Request → Exec Request
  take_packet p r = do
    response ← elim r.response [
      | none ↦ Receive.create codec p.buff p.len
      | some old ↦ Receive.append codec old p.buff p.len
    ]
    done (record r { last_time = p.time; response = some response })

  unfoldable pub take_packets : List Packet → Request → Exec Request
  unfolding take_packet
  take_packets [] r = done r
  take_packets (p ∷ ps) r = do r' ← take_packet p r; take_packets ps r'

  -- `nhr_request_recv`
  unfoldable pub receive : Received → Request → Exec (Request × Bool)
  receive answer r = do
    r' ← take_packets answer.packets r
    if is_again (errno_after answer.errno answer.stop)
        then done (r', true)
        else done (close r', false)

  -- `nhr_request_wait_raw_response`. The last branch of the source, for a NULL request, is dead.
  unfoldable pub wait_response : Received → Request → Exec Request
  unfolding set_command check_timeout
  wait_response answer r = do
    (r', more) ← receive answer r
    if more
        then done
            (check_timeout answer.checked
              (if is_finished r'.response then set_command inform_response r' else r')).0
        else done (set_command inform_response r')

-- `nhr_request_start_waiting_raw_response`
unfoldable pub start_waiting : ℕ → Request → Request
unfolding set_command
start_waiting now r = set_command wait_raw_response (record r { last_time = now })
