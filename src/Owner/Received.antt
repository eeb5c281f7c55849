-- ===== src/Owner/Received.antt =====
-- The response that the blocks make and extend is among what the request owns.
use libnhr.Base.{ℕ, ◌+◌, ◌≡◌, refl, ap, arith, Option, none, some, Bool, true, false, List, ◌∷◌}
use libnhr.Owner.{Memory, allocate, ResponsePointers, RequestPointers}
use libnhr.Owner.Calls.{copy_string, replace_body, receive_first, receive_more}
use libnhr.Owner.Owns.{Owns, count, Owns-count, allocate-Owns}
use libnhr.Owner.Life.{response_owns, request_owns}
use libnhr.Owner.Steps.{Keeps, replace_string-Owns}
use libnhr.Owner.Counts.{count-request_owns}

module _ (rest : ℕ → ℕ) where
  -- The owner of a request with another response.
  response-Owns :
      (r : RequestPointers) (before after : Option ResponsePointers) (o : List ℕ) (m : Memory)
      → ((p : ℕ)
          → count p o + count p (response_owns before)
            ≡ count p (request_owns r) + count p (response_owns after))
      → r.response ≡ before
      → Owns rest o m
      → Owns rest (request_owns (record r { response = after })) m
  response-Owns r before after o m same e v =
      Owns-count rest o (request_owns (record r { response = after })) m
        (λ p k. omega (
          arith,
          same p,
          count-request_owns p r,
          count-request_owns p (record r { response = after }),
          ap (λ x. count p (response_owns x)) e,
        ))
        v

  pub receive_first-Keeps :
      (has_body : Bool) (o : Option ResponsePointers) (r : RequestPointers) (m : Memory)
      → r.response ≡ o
      → Owns rest (request_owns r) m
      → Keeps rest (receive_first has_body o r m)
  unfolding receive_first copy_string
  receive_first-Keeps has_body (some old) r m e v = (r, m, refl, v)
  receive_first-Keeps true none r m e v =
      let self = allocate-Owns rest (request_owns r) m v in
      let body = allocate-Owns rest _ _ self in
      (
        _,
        _,
        refl,
        response-Owns r none
            (some (record { self = (allocate m).0; body = (copy_string true (allocate m).1).0 })) _
            _ (λ p. ground arith) e body,
      )
  receive_first-Keeps false none r m e v =
      let self = allocate-Owns rest (request_owns r) m v in
      let body =
        Owns-count rest _ (0 ∷ (allocate m).0 ∷ request_owns r) _ (λ p h. ground arith) self in
      (
        _,
        _,
        refl,
        response-Owns r none
            (some (record { self = (allocate m).0; body = (copy_string false (allocate m).1).0 })) _
            _ (λ p. ground arith) e body,
      )

  pub receive_more-Keeps :
      (o : Option ResponsePointers) (r : RequestPointers) (m : Memory)
      → r.response ≡ o
      → Owns rest (request_owns r) m
      → Keeps rest (receive_more o r m)
  unfolding receive_more replace_body
  receive_more-Keeps none r m e v = (r, m, refl, v)
  receive_more-Keeps (some old) r m e v =
      let without = old.self ∷ request_owns (record r { response = none }) in
      let (b, m1, run, w) = replace_string-Owns rest old.body true without m (
        Owns-count rest (request_owns r) (old.body ∷ without) m
          (λ p k. omega (
            arith,
            count-request_owns p r,
            count-request_owns p (record r { response = none }),
            ap (λ x. count p (response_owns x)) e,
          ))
          v) in
      let r' = record r { response = some (record old { body = b }) } in
      (
        r',
        m1,
        rw run refl,
        Owns-count rest (b ∷ without) (request_owns r') m1
            (λ p k.
              omega (
                arith,
                count-request_owns p r',
                count-request_owns p (record r { response = none }),
              ))
            w,
      )
