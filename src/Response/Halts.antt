-- ===== src/Response/Halts.antt =====
-- The loop over chunks ends within its fuel.
use libnhr.Base.{ℕ, zero, suc, ◌≤◌, ◌<◌, ◌≡◌, arith, none, some, [], ◌∷◌, length, ◌==◌}
use libnhr.Exec.{done, >>=-eq-done, Halts, Halts->>=}
use libnhr.Clib.Memory.{Bytes, bytes_of, read, skip, write}
use libnhr.Clib.Strings.{begins, is_xdigit}
use libnhr.Clib.Scan.{scan_hex}
use libnhr.Clib.Halts.{
  Halts-if, Halts-read, Halts-skip, length-skip, Halts-write, Halts-begins, Halts-scan_hex,
}
use libnhr.Response.{Response, copy_to_body, add_body_data}
use libnhr.Response.Chunks.{
  double_crlf, skip_xdigits, last_chunk, take_chunk, read_chunks_from, read_chunks,
}

Halts-copy_to_body : (r : Response) (i : ℕ) (s : Bytes) → Halts (copy_to_body r i s)
unfolding copy_to_body
Halts-copy_to_body r i s =
    Halts->>= (write (bytes_of r.body) i s) _ (Halts-write (bytes_of r.body) i s) (λ m e. tt)

Halts-add_body_data : (r : Response) (m : Bytes) (n : ℕ) → Halts (add_body_data r m n)
unfolding add_body_data
Halts-add_body_data r m n = Halts->>= (read n m) _ (Halts-read n m) λ s e.
    Halts->>= (copy_to_body _ r.body_len s) _ (Halts-copy_to_body _ r.body_len s) (λ c e'. tt)

Halts-skip_xdigits : (m : Bytes) → Halts (skip_xdigits m)
unfolding skip_xdigits
Halts-skip_xdigits [] = tt
Halts-skip_xdigits (c ∷ m) =
    Halts-if (is_xdigit c) (skip_xdigits m) (done (c ∷ m)) (Halts-skip_xdigits m) tt

length-skip_xdigits : (m m' : Bytes) → skip_xdigits m ≡ done m' → length m' ≤ length m
unfolding skip_xdigits
length-skip_xdigits [] m' e = cc
length-skip_xdigits (c ∷ m) m' e = ground (arith, length-skip_xdigits m m')

Halts-last_chunk : (r : Response) (m : Bytes) → Halts (last_chunk r m)
unfolding last_chunk
Halts-last_chunk r m = Halts->>= (begins double_crlf m) _ (Halts-begins double_crlf m) (λ b e. tt)

Halts-take_chunk : (r : Response) (m : Bytes) (n : ℕ) → Halts (take_chunk r m n)
unfolding take_chunk
Halts-take_chunk r m n = Halts->>= (skip 2 m) _ (Halts-skip 2 m) λ content e.
    Halts->>= (add_body_data r content n) _ (Halts-add_body_data r content n) λ filled e'.
      Halts->>= (skip n content) _ (Halts-skip n content)
        λ behind e''. Halts->>= (skip 2 behind) _ (Halts-skip 2 behind) (λ next e'''. tt)

-- A chunk that is taken brings the loop nearer to the end of the memory.
length-take_chunk :
    (r r' : Response) (m m' : Bytes) (n : ℕ)
    → take_chunk r m n ≡ done (r', m')
    → length m' < length m
unfolding take_chunk
length-take_chunk r r' m m' n e =
    let (content, e1, k1) = >>=-eq-done (skip 2 m) _ e in
    let (filled, e2, k2) = >>=-eq-done (add_body_data r content n) _ k1 in
    let (behind, e3, k3) = >>=-eq-done (skip n content) _ k2 in
    let (next, e4, k4) = >>=-eq-done (skip 2 behind) _ k3 in
    let same : length next ≡ length m' = ground (arith, k4) in
    omega (
      arith,
      length-skip 2 m content e1,
      length-skip n content behind e3,
      length-skip 2 behind next e4,
      same,
    )

Halts-read_chunks_from :
    (fuel : ℕ) (r : Response) (m : Bytes) → length m < fuel → Halts (read_chunks_from fuel r m)
unfolding read_chunks_from
Halts-read_chunks_from zero r m h = absurd (omega arith)
Halts-read_chunks_from (suc fuel) r m h = Halts->>= (scan_hex m) _ (Halts-scan_hex m) (elim [
  | none ↦ λ e. tt
  | some n ↦ λ e. Halts->>= (skip_xdigits m) _ (Halts-skip_xdigits m) λ behind e1.
      Halts-if (n == 0) _ _ (Halts-last_chunk r behind) (
        Halts->>= (take_chunk r behind n) _ (Halts-take_chunk r behind n) λ p e2.
          Halts-read_chunks_from fuel p.0 p.1 (
            omega
              (arith, length-take_chunk r p.0 behind p.1 n e2, length-skip_xdigits m behind e1)))
])

-- Whatever the response and the memory hold, the loop of `nhr_response_read_chunks` ends: its fuel,
-- one round more than there are bytes of memory, does not run out.
pub read_chunks-Halts : (r : Response) (m : Bytes) → Halts (read_chunks r m)
unfolding read_chunks
read_chunks-Halts r m = Halts-read_chunks_from (suc (length m)) r m (omega arith)
