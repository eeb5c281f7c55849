-- ===== src/Response/Limit.antt =====
-- How cutting at the announced length goes with adding.
use libnhr.Base.{
  ℕ, ◌+◌, ◌≤◌, ◌≡◌, sym, ap, ◌∙◌, arith, ◌++◌, length, take, length-append, length-take,
  take-append_le, take-take, take-all, ltb, Bool-cases, inl, inr,
}
use libnhr.Clib.Memory.{Bytes}
use libnhr.Response.{Response}
use libnhr.Response.Body.{stored, IsValid, limit, length-stored, Added}

-- Cutting before more is added changes nothing if all is cut again.
pub limit-limit : (n : ℕ) (s t : Bytes) → limit n (limit n s ++ t) ≡ limit n (s ++ t)
limit-limit n s t = elim (Bool-cases (ltb 0 n)) [
  | inr unlimited ↦ rw unlimited
  | inl limited ↦ rw limited (elim (Bool-cases (ltb n (length s))) [
    | inl long ↦
        take-append_le n (take n s) t (ground (arith, length-take n s))
        ∙ take-take n n s (omega arith)
        ∙ sym (take-append_le n s t (ground arith))
    | inr short ↦ rw (take-all n s (ground arith))
  ])
]

pub length-limit : (n : ℕ) (s : Bytes) → length (limit n s) ≤ length s
length-limit n s = ground (arith, length-take n s)

-- What is stored is not cut again.
pub limit-stored : (r : Response) → IsValid r → limit r.content_length (stored r) ≡ stored r
limit-stored r v =
    ground (arith, length-stored r v, take-all r.content_length (stored r), v.limited)

-- No more is stored than was added.
pub body_len-le :
    (r r' : Response) (s : Bytes) → IsValid r → Added r r' s → r'.body_len ≤ r.body_len + length s
body_len-le r r' s v added = omega (
  arith,
  length-stored r v,
  length-stored r' added.valid,
  ap length added.bytes,
  length-limit r.content_length (stored r ++ s),
  length-append (stored r) s,
)
