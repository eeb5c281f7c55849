-- ===== src/Response/Gunzip.antt =====
-- The end of a compressed body: what `nhr_response_ungzip` leaves.
use libnhr.Base.{
  ℕ, ◌*◌, ◌%◌, ◌<◌, ◌≡◌, ◌≢◌, refl, ap, arith, some, true, false, length, lt→ltb, ◌==◌,
  Option-cases, inl, inr,
}
use libnhr.Exec.{done}
use libnhr.Clib.Memory.{Bytes, bytes_of, read_le}
use libnhr.Codec.{Codec, Inflated, method_gzip}
use libnhr.Gz.{Zlib}
use libnhr.Gz.Inflate.{open_input}
use libnhr.Gz.Inflated.{InflateLaw, decompress-Holds}
use libnhr.Gz.Both.{codec}
use libnhr.Response.{Response}
use libnhr.Response.Body.{stored, IsValid, length-stored}
use libnhr.Response.Receive.{is_set, is_finished_receiving, ungzip, check_is_finished}

-- the response with a decompressed body
abbrev pub with_body : Bytes → ℕ → Response → Response
with_body mem n r = record r { body = some mem; body_len = n; is_finished = true }

pub is_set-stored : (r : Response) → IsValid r → 0 < r.body_len → is_set r.body ≡ true
is_set-stored r v pos = elim (Option-cases r.body) [
  | inl e ↦ absurd (omega (arith, v.allocated, v.within, ap (λ b. length (bytes_of b)) e))
  | inr (m, e) ↦ rw e refl
]

check_is_finished-codec :
    (c : Codec) (r : Response) (out : Inflated)
    → IsValid r
    → r.is_chunked ≡ false
    → r.is_gzip ≡ true
    → 0 < r.content_length
    → r.body_len ≡ r.content_length
    → c.decompress (stored r) method_gzip ≡ done (some out)
    → 0 < out.size
    → check_is_finished c r ≡ done (with_body out.mem out.size r)
unfolding check_is_finished is_finished_receiving ungzip
check_is_finished-codec c r out v plain gzip pos all run some_output =
    let set = is_set-stored r v (omega (arith, pos, all)) in
    let input = read_le r.body_len (bytes_of r.body) (omega (arith, v.allocated, v.within)) in
    let announced = lt→ltb 0 r.content_length pos in
    let there = lt→ltb 0 r.body_len (omega (arith, pos, all)) in
    let same : (r.content_length == r.body_len) ≡ true = ground (arith, all) in
    simp (plain, gzip, announced, same, set, there, input, run, lt→ltb 0 out.size some_output)

module _ {S : Type 0} (zlib : Zlib S) (Holds : S → Bytes → Type 0)
    (law : InflateLaw zlib Holds) where
  -- When a gzip body that is not chunked has come to its announced length, and zlib, which does what
  -- its manual says, opens it as a stream of `s`, whose length is no multiple of 512, then
  -- `nhr_response_check_is_finished` makes `s` the body and the response finished, with no access
  -- outside the memory.
  pub check_is_finished-gunzip :
      (fuel time : ℕ) (r : Response) (zip : S) (s : Bytes)
      → IsValid r
      → r.is_chunked ≡ false
      → r.is_gzip ≡ true
      → 0 < r.content_length
      → r.body_len ≡ r.content_length
      → open_input zlib (stored r) method_gzip ≡ some zip
      → Holds zip s
      → length s % 512 ≢ 0
      → length s < fuel * 512
      → (r' : Response) × (check_is_finished (codec zlib fuel time) r ≡ done r')
        × (stored r' ≡ s)
        × (r'.is_finished ≡ true)
  check_is_finished-gunzip fuel time r zip s v plain gzip pos all opened h rest enough =
      let some_input : length (stored r) ≢ 0 = omega (arith, length-stored r v, pos, all) in
      let (mem, run, kept) =
        decompress-Holds zlib Holds law fuel (stored r) method_gzip zip s some_input opened h rest
          enough in
      (
        with_body mem (length s) r,
        check_is_finished-codec (codec zlib fuel time) r (record { mem = mem; size = length s }) v
            plain gzip pos all run (omega arith),
        kept,
        refl,
      )
