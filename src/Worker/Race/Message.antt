-- ===== src/Worker/Race/Message.antt =====
-- The message builders leave `work_thread` and the two callbacks alone.
use libnhr.Base.{ℕ, ◌≡◌, arith, Option}
use libnhr.Exec.{done}
use libnhr.Clib.Memory.{Bytes}
use libnhr.Codec.{Codec}
use libnhr.Request.{Request}
use libnhr.Request.Public.{add_header, append_header}
use libnhr.Request.Post.{create_header_post, create_url_encoded_parameters}
use libnhr.Request.Post.Multipart.{create_data_parameters}
use libnhr.Worker.Race.Frame.{setup}
use libnhr.Worker.Transfer.{create_header}

setup-append_header :
    (r r' : Request) (name : Option Bytes) (name_len : ℕ) (value : Option Bytes) (value_len : ℕ)
    → append_header r name name_len value value_len ≡ done r'
    → setup r' ≡ setup r
unfolding append_header
setup-append_header r r' name name_len value value_len e = ground (arith, e)

setup-add_header :
    (name value : Option Bytes) (r r' : Request)
    → add_header name value r ≡ done r'
    → setup r' ≡ setup r
unfolding add_header
setup-add_header name value r r' e = ground (arith, e, setup-append_header r r' name)

setup-create_data_parameters :
    (r : Request) (made : Request × Option Bytes × ℕ)
    → create_data_parameters r ≡ done made
    → setup made.0 ≡ setup r
unfolding create_data_parameters
setup-create_data_parameters r made e = grind (arith, e, setup-add_header)

module _ (codec : Codec) where
  setup-create_url_encoded_parameters :
      (r : Request) (made : Request × Option Bytes × ℕ)
      → create_url_encoded_parameters codec r ≡ done made
      → setup made.0 ≡ setup r
  unfolding create_url_encoded_parameters
  setup-create_url_encoded_parameters r made e = grind (arith, e, setup-add_header)

  setup-create_header_post :
      (r : Request) (made : Request × Bytes × ℕ)
      → create_header_post codec r ≡ done made
      → setup made.0 ≡ setup r
  unfolding create_header_post
  setup-create_header_post r made e =
      grind (arith, e, setup-create_data_parameters r, setup-create_url_encoded_parameters r)

  pub setup-create_header :
      (r : Request) (made : Request × Bytes × ℕ)
      → create_header codec r ≡ done made
      → setup made.0 ≡ setup r
  unfolding create_header
  setup-create_header r made e = grind (arith, e, setup-create_header_post r)
