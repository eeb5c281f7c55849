-- ===== src/Gz/Filled.antt =====
-- The output buffer of `nhr_gz_compress` while its loops fill it.
use libnhr.Base.{
  ℕ, ◌+◌, ◌-◌, ◌%◌, ◌≤◌, ◌<◌, ◌≡◌, inl, inr, refl, sym, ap, ◌∙◌, arith, ◌++◌, length, take, drop,
  length-append, ◌==◌, Bool-cases,
}
use libnhr.Exec.{done}
use libnhr.Clib.Memory.{Bytes, read, read-append, write_le, length_written, length-resize}
use libnhr.Gz.{Output}
use libnhr.Gz.Deflate.{next_out, make_room, put}
use libnhr.Gz.Inflated.{take-written, take-resize, take-drop}

-- The buffer begins with the bytes `p`, of which the first `k` are a header, and `next_out` stands
-- behind them.
pub record Filled (k : ℕ) (o : Output) (p : Bytes) : Type 0 where
  pub size : length o.mem ≡ o.out_size
  pub chunk : o.out_size ≡ o.writed + 512
  pub aligned : o.writed % 512 ≡ k
  pub avail : o.avail_out ≤ 512
  pub behind : length p ≡ next_out o
  pub text : take (length p) o.mem ≡ p

pub put-Filled :
    (k : ℕ) (o : Output) (p out : Bytes)
    → Filled k o p
    → length out ≤ o.avail_out
    → (o' : Output) × (put o out ≡ done o')
      × Filled k o' (p ++ out)
      × (o'.avail_out ≡ o.avail_out - length out)
unfolding put
put-Filled k o p out v fits =
    let i = o.writed + (512 - o.avail_out) in
    let room : i + length out ≤ length o.mem = omega (arith, v.size, v.chunk, v.avail, fits) in
    let m = take i o.mem ++ (out ++ drop (i + length out) o.mem) in
    let o' = record o { mem = m; avail_out = o.avail_out - length out } in
    let sum : length (p ++ out) ≡ i + length out = omega (arith, length-append p out, v.behind) in
    (
      o',
      rw (write_le o.mem i out room) refl,
      record {
        size = length_written o.mem i out room ∙ v.size;
        chunk = v.chunk;
        aligned = v.aligned;
        avail = omega (arith, v.avail);
        behind = omega (arith, sum, v.avail, fits);
        text =
            ap (λ n. take n m) sum
            ∙ take-written o.mem out _ i (omega (arith, room))
            ∙ ap (λ t. t ++ out) (ap (λ n. take n o.mem) (sym v.behind) ∙ v.text);
      },
      refl,
    )

pub make_room-Filled :
    (k : ℕ) (o : Output) (p : Bytes)
    → Filled k o p
    → Filled k (make_room o) p × (0 < (make_room o).avail_out)
unfolding make_room
make_room-Filled k o p v = elim (Bool-cases (o.avail_out == 0)) [
  | inr some_room ↦ rw some_room (v, ground (arith, some_room))
  | inl no_room ↦ rw no_room (
    record {
      size = length-resize o.mem (o.out_size + 512);
      chunk = omega (arith, v.chunk);
      aligned = omega (arith, v.aligned);
      avail = omega arith;
      behind = ground (arith, v.behind, no_room);
      text =
          take-resize o.mem (length p) (o.out_size + 512)
            (ground (arith, v.behind, v.size, v.chunk, no_room))
            (ground (arith, v.behind, v.size, v.chunk, no_room))
          ∙ v.text;
    },
    omega arith,
  )
]

pub Filled-read : (k : ℕ) (o : Output) (p : Bytes) → Filled k o p → read (length p) o.mem ≡ done p
Filled-read k o p v =
    ap (read (length p))
      (sym (take-drop (length p) o.mem) ∙ ap (λ t. t ++ drop (length p) o.mem) v.text)
    ∙ read-append p (drop (length p) o.mem)
