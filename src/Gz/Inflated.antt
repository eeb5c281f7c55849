-- ===== src/Gz/Inflated.antt =====
-- What `nhr_gz_decompress` returns, if zlib does what its manual says, and a gzip footer that does
-- not fit.
use libnhr.Base.{
  ℕ, zero, suc, ◌+◌, ◌-◌, ◌*◌, ◌/◌, ◌%◌, ◌^◌, ◌≤◌, ◌<◌, ◌≡◌, ◌≢◌, inl, inr, refl, sym, ap, ◌∙◌,
  subst, arith, some, [], ◌∷◌, ◌++◌, length, take, drop, replicate, length-append, length-take,
  length-drop, length-replicate, take-append, take-append_le, take-take, append_assoc, ltb, ne→==,
  Bool-cases,
}
use libnhr.Exec.{done, fault, ◌>>=◌}
use libnhr.Clib.Memory.{
  Bytes, u64, unset, write, write_le, write_lt, length_written, resize, length-resize,
}
use libnhr.Heap.{malloc}
use libnhr.Gz.{z_ok, z_stream_end, Zlib, Output, ulong_size, little_endian, write_footer}
use libnhr.Gz.Inflate.{advance, finish, inflate_from, open_input, decompress}

-- zlib's manual on `inflate` with the whole input given: it decompresses as much as possible, and
-- stops when the output is full, with Z_OK if there is more, or at the end of the stream, with
-- Z_STREAM_END. `Holds zip s` says that `s` is what is left to come of the stream.
pub record InflateLaw {S : Type 0} (zlib : Zlib S) (Holds : S → Bytes → Type 0) : Type 0 where
  pub full :
      (zip : S) (s : Bytes) (n : ℕ)
      → Holds zip s
      → 0 < n
      → n < length s
      → ((zlib.inflate n zip).result ≡ z_ok)
        × ((zlib.inflate n zip).out ≡ take n s)
        × Holds (zlib.inflate n zip).next (drop n s)
  pub ended :
      (zip : S) (s : Bytes) (n : ℕ)
      → Holds zip s
      → 0 < n
      → 0 < length s
      → length s < n
      → ((zlib.inflate n zip).result ≡ z_stream_end) × ((zlib.inflate n zip).out ≡ s)

-- the buffer at the begin of a round
abbrev output : Bytes → ℕ → Output
output m writed = record { mem = m; writed = writed; out_size = writed + 512; avail_out = 512 }

-- The variables behind a call that filled the output.
advance_full :
    (m : Bytes) (w : ℕ)
    → advance (output m w) 0 ≡ some (output (resize m (w + 512 + 512)) (w + 512))
unfolding advance
advance_full m w = ground arith

pub take-written :
    (m out rest : Bytes) (i : ℕ)
    → i ≤ length m
    → take (i + length out) (take i m ++ (out ++ rest)) ≡ take i m ++ out
take-written m out rest i h =
    let sum : i + length out ≡ length (take i m ++ out) =
      omega (arith, length-append (take i m) out, length-take i m) in
    rw (sum, ← append_assoc) (take-append (take i m ++ out) rest)

pub take-resize : (m : Bytes) (i n : ℕ) → i ≤ length m → i ≤ n → take i (resize m n) ≡ take i m
unfolding resize
take-resize m i n h k =
    take-append_le i (take n m) (replicate (n - length m) unset) (omega (arith, length-take n m))
    ∙ take-take i n m k

pub take-drop : (n : ℕ) (s : Bytes) → take n s ++ drop n s ≡ s
take-drop zero s = refl
take-drop (suc n) [] = refl
take-drop (suc n) (c ∷ s) = ap (◌∷◌ c) (take-drop n s)

module _ {S : Type 0} (zlib : Zlib S) (Holds : S → Bytes → Type 0)
    (law : InflateLaw zlib Holds) where
  inflate_from-last :
      (fuel : ℕ) (zip : S) (s m : Bytes) (w : ℕ)
      → Holds zip s
      → length m ≡ w + 512
      → 0 < length s
      → length s < 512
      → (mem : Bytes) × (inflate_from zlib (suc fuel) zip (output m w)
          ≡ done (some (record { mem = mem; size = w + length s })))
        × (take (w + length s) mem ≡ take w m ++ s)
  unfolding inflate_from advance finish
  inflate_from-last fuel zip s m w h size pos less =
      let (ends, out) = law.ended zip s 512 h (omega arith) pos less in
      let rest = drop (w + length s) m in
      (
        take w m ++ (s ++ rest),
        simp (ends, out, write_le m w s (omega (arith, size))) (ground arith),
        take-written m s rest w (omega (arith, size)),
      )

  -- the buffer behind a round that filled it
  abbrev grown : Bytes → ℕ → Bytes → Bytes
  grown m w out = resize (take w m ++ (out ++ drop (w + length out) m)) (w + 512 + 512)

  inflate_from-full :
      (fuel : ℕ) (zip : S) (s m : Bytes) (w : ℕ)
      → Holds zip s
      → length m ≡ w + 512
      → 512 < length s
      → inflate_from zlib (suc fuel) zip (output m w)
        ≡ inflate_from zlib fuel
            (zlib.inflate 512 zip).next
            (output (grown m w (take 512 s)) (w + 512))
  unfolding inflate_from
  inflate_from-full fuel zip s m w h size more =
      let (ok, out, later) = law.full zip s 512 h (omega arith) more in
      let len : length (take 512 s) ≡ 512 = omega (arith, length-take 512 s) in
      simp (ok, out, write_le m w (take 512 s) (omega (arith, size, len)), len, advance_full)

  -- The loop, by the number of whole chunks that are left.
  inflate_from-Holds :
      (chunks fuel : ℕ) (zip : S) (s m : Bytes) (w : ℕ)
      → Holds zip s
      → length m ≡ w + 512
      → chunks * 512 < length s
      → length s < chunks * 512 + 512
      → chunks < fuel
      → (mem : Bytes) × (inflate_from zlib fuel zip (output m w)
          ≡ done (some (record { mem = mem; size = w + length s })))
        × (take (w + length s) mem ≡ take w m ++ s)
  inflate_from-Holds chunks zero zip s m w h size low high enough = absurd (omega arith)
  inflate_from-Holds zero (suc fuel) zip s m w h size low high enough =
      inflate_from-last fuel zip s m w h size (omega arith) (omega arith)
  inflate_from-Holds (suc chunks) (suc fuel) zip s m w h size low high enough =
      let more : 512 < length s = omega arith in
      let (ok, out, later) = law.full zip s 512 h (omega arith) more in
      let len : length (take 512 s) ≡ 512 = omega (arith, length-take 512 s) in
      let left : length (drop 512 s) + 512 ≡ length s = omega (arith, length-drop 512 s) in
      let m' = grown m w (take 512 s) in
      let (mem, run, kept) =
        inflate_from-Holds chunks fuel (zlib.inflate 512 zip).next (drop 512 s) m' (w + 512) later
          (length-resize _ (w + 512 + 512)) (omega (arith, left)) (omega (arith, left))
          (omega arith) in
      let sum : w + 512 + length (drop 512 s) ≡ w + length s = omega (arith, left) in
      let first : take (w + 512) m' ≡ take w m ++ take 512 s =
        take-resize _ (w + 512) (w + 512 + 512)
          (omega (arith, length_written m w (take 512 s) (omega (arith, size, len)), size))
          (omega arith)
        ∙ ap (λ k. take (w + k) (take w m ++ (take 512 s ++ drop (w + length (take 512 s)) m)))
            (sym len)
        ∙ take-written m (take 512 s) _ w (omega (arith, size)) in
      (
        mem,
        inflate_from-full fuel zip s m w h size more
            ∙ run
            ∙ ap (λ n. done (some (record { mem = mem; size = n }))) sum,
        ap (λ n. take n mem) (sym sum)
            ∙ kept
            ∙ ap (λ t. t ++ drop 512 s) first
            ∙ append_assoc (take w m) (take 512 s) (drop 512 s)
            ∙ ap (λ t. take w m ++ t) (take-drop 512 s),
      )

  -- If zlib does what its manual says and opens the input as a stream of `s`, whose length is no
  -- multiple of 512, `nhr_gz_decompress` returns a buffer that begins with `s`, and the length of
  -- `s`, with no access outside its buffer; its loop makes at most one round more than there are
  -- whole chunks of 512 bytes in `s`.
  pub decompress-Holds :
      (fuel : ℕ) (buff : Bytes) (method : ℕ) (zip : S) (s : Bytes)
      → length buff ≢ 0
      → open_input zlib buff method ≡ some zip
      → Holds zip s
      → length s % 512 ≢ 0
      → length s < fuel * 512
      → (mem : Bytes) × (decompress zlib fuel buff method
          ≡ done (some (record { mem = mem; size = length s })))
        × (take (length s) mem ≡ s)
  unfolding decompress malloc
  decompress-Holds fuel buff method zip s some_input opened h rest enough =
      let fresh = replicate 512 unset in
      let size : length fresh ≡ 512 = length-replicate {0} 512 unset in
      let all : 0 + length s ≡ length s = omega arith in
      let (mem, run, kept) =
        subst
          (λ n.
            (mem : Bytes) × (inflate_from zlib fuel zip (output fresh 0)
              ≡ done (some (record { mem = mem; size = n })))
            × (take n mem ≡ s))
          all
          (inflate_from-Holds (length s / 512) fuel zip s fresh 0 h size (omega arith) (omega arith)
            (omega arith)) in
      (mem, simp (ne→== (length buff) 0 some_input, opened) run, kept)

pub length-little_endian : (width n : ℕ) → length (little_endian width n) ≡ width
unfolding little_endian
length-little_endian zero n = refl
length-little_endian (suc width) n = ap suc (length-little_endian width (n / 256))

-- Two numbers, where there is no room for both.
write_two :
    (m : Bytes) (i crc src_size : ℕ)
    → length m < i + 16
    → (do
      summed ← write m i (little_endian ulong_size crc)
      write summed (i + ulong_size) (little_endian ulong_size src_size))
      ≡ fault
write_two m i crc src_size short =
    let a = length-little_endian 8 crc in
    let b = length-little_endian 8 src_size in
    elim (Bool-cases (ltb (length m) (i + 8))) [
      | inl e ↦ rw (write_lt m i (little_endian 8 crc) (ground (arith, a, e)))
      | inr e ↦
          let room : i + length (little_endian 8 crc) ≤ length m = ground (arith, a, e) in
          rw (write_le m i (little_endian 8 crc) room) (
            write_lt _ (i + 8) (little_endian 8 src_size)
              (omega (arith, b, length_written m i (little_endian 8 crc) room)))
    ]

-- With fewer than 16 bytes left in the buffer, `nhr_gz_write_footer` writes past its end: it makes
-- room for 8 bytes, but writes two numbers of type `uLong`, of 8 bytes each.
pub write_footer_overflow :
    (buff : Bytes) (writed crc src_size : ℕ)
    → writed ≤ length buff
    → length buff < writed + 16
    → length buff + 8 < 2 ^ 64
    → write_footer buff (length buff) writed crc src_size ≡ fault
unfolding write_footer
write_footer_overflow buff writed crc src_size h short fits =
    let space : u64 (length buff + 2 ^ 64 - writed) ≡ length buff - writed = omega arith in
    let size : u64 (length buff + 8) ≡ length buff + 8 = omega arith in
    elim (Bool-cases (ltb (length buff - writed) 8)) [
      | inl e ↦
          simp (space, e, size)
            (write_two (resize buff (length buff + 8)) writed crc src_size
              (ground (arith, length-resize buff (length buff + 8), e)))
      | inr e ↦ simp (space, e) (write_two buff writed crc src_size (omega arith))
    ]
