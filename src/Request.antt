-- ===== src/Request.antt =====
-- src/nhr_request.h: the request object. Its functions are in the children: the public interface
-- in Request/Public.antt, the HTTP texts in Request/Pairs.antt, Request/Get.antt and
-- Request/Post.antt. The other children prove.
pub mod Public
pub mod Pairs
pub mod Get
pub mod Post
pub mod Render
pub mod Message
pub mod Fields
pub mod Files
use libnhr.Base.{ℕ, List, [], Option, none, Bool, false}
use libnhr.Clib.Memory.{Bytes}
use libnhr.Map.{Node}
use libnhr.Response.{Response}

-- `nhr_error_code`
pub data ErrorCode : Type 0 where
  error_none missed_parameter failed_connect_to_host timeout_error : ErrorCode

-- NHR_COMMAND_*, in the order of their numbers
pub data Command : Type 0 where
  idle none_command connect_to_host send_raw_request start_waiting_raw_response : Command
  wait_raw_response inform_response inform_error end_command : Command

-- `nhr_method`; 0 is a method that was not set
abbrev pub method_unset : ℕ
method_unset = 0

abbrev pub method_get : ℕ
method_get = 1

abbrev pub method_post : ℕ
method_post = 2

-- `struct nhr_request_struct`. A callback, the user's object, the socket and the thread are names, of
-- which only the presence matters. The two mutexes are left out: what they order is the order in
-- which the operations are applied.
pub record Request : Type 0 where
  pub port : ℕ
  pub socket : Option ℕ
  pub scheme : Option Bytes
  pub host : Option Bytes
  pub path : Option Bytes
  pub method : ℕ
  pub work_thread : Option ℕ
  pub command : Command
  pub timeout : ℕ
  pub last_time : ℕ
  pub error_code : ErrorCode
  pub user_object : Option ℕ
  pub http_headers : List Node
  pub parameters : List Node
  pub on_recvd_response : Option ℕ
  pub on_error : Option ℕ
  pub response : Option Response
  pub is_gziped : Bool
  pub is_deflated : Bool
  pub boundary : Option Bytes
  pub is_have_data_parameter : Bool

-- `nhr_request_create`
abbrev pub new_request : Request
new_request = record {
  port = 0;
  socket = none;
  scheme = none;
  host = none;
  path = none;
  method = method_unset;
  work_thread = none;
  command = none_command;
  timeout = 30;
  last_time = 0;
  error_code = error_none;
  user_object = none;
  http_headers = [];
  parameters = [];
  on_recvd_response = none;
  on_error = none;
  response = none;
  is_gziped = false;
  is_deflated = false;
  boundary = none;
  is_have_data_parameter = false;
}
