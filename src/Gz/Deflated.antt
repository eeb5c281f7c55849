-- ===== src/Gz/Deflated.antt =====
-- What `nhr_gz_compress` returns, if zlib does what its manual says.
use libnhr.Base.{
  Bool, ℕ, zero, suc, ◌+◌, ◌%◌, ◌^◌, ◌≤◌, ◌<◌, ◌≡◌, ◌≢◌, ◌⊎◌, inl, inr, refl, sym, ap, ◌∙◌, arith,
  subst, some, true, false, [], ◌++◌, length, take, drop, replicate, length-append, length-take,
  length-drop, length-replicate, append_assoc, ltb, ne→==, ◌==◌, Bool-cases,
}
use libnhr.Exec.{done}
use libnhr.Clib.Memory.{Bytes, unset, read}
use libnhr.Heap.{malloc}
use libnhr.Codec.{method_deflate}
use libnhr.Gz.{z_ok, z_stream_end, Zlib, Output}
use libnhr.Gz.Deflate.{
  make_room, put, deflate_input, deflate_finish, first_output, finish_output, compress,
}
use libnhr.Gz.Filled.{Filled, put-Filled, make_room-Filled, Filled-read}
use libnhr.Gz.Inflated.{take-drop}

-- zlib's manual on `deflate`: it compresses as much as possible, and stops when the input is empty or
-- the output is full; with Z_FINISH it returns Z_STREAM_END if there was enough space for all output,
-- and Z_OK if there was not. `Makes zip s` says that `s` is what is left to come of the output.
pub record DeflateLaw {S : Type 0} (zlib : Zlib S) (Makes : S → Bytes → Type 0) : Type 0 where
  pub more :
      (zip : S) (s : Bytes) (n : ℕ)
      → Makes zip s
      → 0 < n
      → zlib.avail_in zip ≢ 0
      → ((zlib.deflate false n zip).result ≡ z_ok)
        × (length (zlib.deflate false n zip).out ≤ n)
        × ((length (zlib.deflate false n zip).out ≡ n)
            ⊎ (zlib.avail_in (zlib.deflate false n zip).next ≡ 0))
        × ((s' : Bytes) × (s ≡ (zlib.deflate false n zip).out ++ s')
            × Makes (zlib.deflate false n zip).next s')
  pub full :
      (zip : S) (s : Bytes) (n : ℕ)
      → Makes zip s
      → 0 < n
      → n < length s
      → ((zlib.deflate true n zip).result ≡ z_ok)
        × ((zlib.deflate true n zip).out ≡ take n s)
        × Makes (zlib.deflate true n zip).next (drop n s)
  pub ended :
      (zip : S) (s : Bytes) (n : ℕ)
      → Makes zip s
      → 0 < n
      → length s ≤ n
      → ((zlib.deflate true n zip).result ≡ z_stream_end) × ((zlib.deflate true n zip).out ≡ s)
  pub counts :
      (finishes : Bool) (zip : S) (n : ℕ)
      → zlib.total_out (zlib.deflate finishes n zip).next
        ≡ zlib.total_out zip + length (zlib.deflate finishes n zip).out

module _ {S : Type 0} (zlib : Zlib S) (Makes : S → Bytes → Type 0)
    (law : DeflateLaw zlib Makes) where
  -- A stream that makes what is missing of `whole`, of which the first `k` bytes are a header, and the
  -- output that has the rest.
  pub record Making (k : ℕ) (whole : Bytes) (zip : S) (o : Output) (p s : Bytes) : Type 0 where
    pub makes : Makes zip s
    pub filled : Filled k o p
    pub all : p ++ s ≡ whole
    pub total : zlib.total_out zip + k ≡ length p

  -- one call of `deflate`, and what it puts into the buffer
  put-Making :
      (k : ℕ) (whole : Bytes) (finishes : Bool) (zip : S) (o : Output) (p s s' : Bytes)
      → Making k whole zip o p s
      → length (zlib.deflate finishes o.avail_out zip).out ≤ o.avail_out
      → s ≡ (zlib.deflate finishes o.avail_out zip).out ++ s'
      → Makes (zlib.deflate finishes o.avail_out zip).next s'
      → (o' : Output) × (put o (zlib.deflate finishes o.avail_out zip).out ≡ done o')
        × Making k whole
            (zlib.deflate finishes o.avail_out zip).next
            o'
            (p ++ (zlib.deflate finishes o.avail_out zip).out)
            s'
  put-Making k whole finishes zip o p s s' v fits split later =
      let out = (zlib.deflate finishes o.avail_out zip).out in
      let (o', run, filled, left) = put-Filled k o p out v.filled fits in
      (
        o',
        run,
        record {
          makes = later;
          filled = filled;
          all = append_assoc p out s' ∙ ap (λ t. p ++ t) (sym split) ∙ v.all;
          total = omega (arith, law.counts finishes zip o.avail_out, v.total, length-append p out);
        },
      )

  make_room-Making :
      (k : ℕ) (whole : Bytes) (zip : S) (o : Output) (p s : Bytes)
      → Making k whole zip o p s
      → Making k whole zip (make_room o) p s × (0 < (make_room o).avail_out)
  make_room-Making k whole zip o p s v =
      let (filled, room) = make_room-Filled k o p v.filled in
      (record { makes = v.makes; filled = filled; all = v.all; total = v.total }, room)

  deflate_input_empty :
      (fuel : ℕ) (zip : S) (o : Output)
      → 0 < fuel
      → zlib.avail_in zip ≡ 0
      → deflate_input zlib fuel zip o ≡ done (some (zip, o))
  unfolding deflate_input
  deflate_input_empty zero zip o some_fuel empty = absurd (omega (arith, some_fuel))
  deflate_input_empty (suc fuel) zip o some_fuel empty = rw empty refl

  pub deflate_input-Making :
      (k : ℕ) (whole : Bytes) (fuel : ℕ) (zip : S) (o : Output) (p s : Bytes)
      → Making k whole zip o p s
      → 0 < o.avail_out
      → length s + 2 ≤ fuel
      → (zip' : S) × (o' : Output) × (p' : Bytes) × (s' : Bytes) × (deflate_input zlib fuel zip o
          ≡ done (some (zip', o')))
        × Making k whole zip' o' p' s'
        × (length s' ≤ length s)
  unfolding deflate_input
  deflate_input-Making k whole zero zip o p s v room enough = absurd (omega (arith, enough))
  deflate_input-Making k whole (suc fuel) zip o p s v room enough =
      elim (Bool-cases (zlib.avail_in zip == 0)) [
        | inl empty ↦ (zip, o, p, s, rw empty refl, v, omega arith)
        | inr some_input ↦
            let d = zlib.deflate false o.avail_out zip in
            let (ok, fits, stops, (s', split, later)) =
              law.more zip s o.avail_out v.makes room (ground (arith, some_input)) in
            let (o1, run, w) = put-Making k whole false zip o p s s' v fits split later in
            let (w', room') = make_room-Making k whole d.next o1 (p ++ d.out) s' w in
            let len : length s ≡ length d.out + length s' =
              ap length split ∙ length-append d.out s' in
            elim stops [
              | inl filled ↦
                  let (zip', o', p', s'', runs, last, less) =
                    deflate_input-Making k whole fuel d.next (make_room o1) (p ++ d.out) s' w' room'
                      (omega (arith, len, filled, room, enough)) in
                  (
                    zip',
                    o',
                    p',
                    s'',
                    simp (some_input, run, ok) runs,
                    last,
                    omega (arith, less, len),
                  )
              | inr empty ↦ (
                d.next,
                make_room o1,
                p ++ d.out,
                s',
                simp (some_input, run, ok)
                    (deflate_input_empty fuel d.next (make_room o1) (omega (arith, enough)) empty),
                w',
                omega (arith, len),
              )
            ]
      ]

  pub deflate_finish-Making :
      (k : ℕ) (whole : Bytes) (fuel : ℕ) (zip : S) (o : Output) (p s : Bytes)
      → Making k whole zip o p s
      → length s < fuel
      → (zip' : S) × (o' : Output) × (deflate_finish zlib fuel zip o ≡ done (some (zip', o')))
        × Filled k o' whole
        × (zlib.total_out zip' + k ≡ length whole)
  unfolding deflate_finish
  deflate_finish-Making k whole zero zip o p s v enough = absurd (omega (arith, enough))
  deflate_finish-Making k whole (suc fuel) zip o p s v enough =
      let r = make_room o in
      let d = zlib.deflate true r.avail_out zip in
      let (w, room) = make_room-Making k whole zip o p s v in
      elim (Bool-cases (ltb r.avail_out (length s))) [
        | inl less ↦
            let (ok, out, later) = law.full zip s r.avail_out v.makes room (ground (arith, less)) in
            let size : length d.out ≡ r.avail_out =
              ap length out ∙ ground (arith, less, length-take r.avail_out s) in
            let (o1, run, w1) =
              put-Making k whole true zip r p s (drop r.avail_out s) w (omega (arith, size))
                (sym (take-drop r.avail_out s) ∙ ap (λ t. t ++ drop r.avail_out s) (sym out))
                later in
            let (zip', o', runs, last, sum) =
              deflate_finish-Making k whole fuel d.next o1 (p ++ d.out) (drop r.avail_out s) w1
                (ground (arith, less, length-drop r.avail_out s, room, enough)) in
            (zip', o', simp (run, ok) runs, last, sum)
        | inr fits ↦
            let (ends, out) = law.ended zip s r.avail_out v.makes room (ground (arith, fits)) in
            let (o1, run, filled, left) =
              put-Filled k r p d.out w.filled (ground (arith, fits, ap length out)) in
            let same : p ++ d.out ≡ whole = ap (λ t. p ++ t) out ∙ v.all in
            let total : zlib.total_out d.next + k ≡ length (p ++ d.out) =
              omega (arith, law.counts true zip r.avail_out, v.total, length-append p d.out) in
            (
              d.next,
              o1,
              simp (run, ends) refl,
              subst (Filled k o1) same filled,
              total ∙ ap length same,
            )
      ]

  -- If zlib does what its manual says and opens the input as a stream that makes `s`, then
  -- `nhr_gz_compress` without the gzip header returns `s`, with no access outside its buffer, however
  -- zlib splits the output over its calls; each of the loops makes at most two rounds more than there
  -- are bytes in `s`.
  pub compress-Makes :
      (fuel curr_time : ℕ) (buff : Bytes) (zip : S) (s : Bytes)
      → length buff ≢ 0
      → zlib.deflate_init false (take (length buff % 2 ^ 32) buff) ≡ some zip
      → Makes zip s
      → zlib.total_out zip ≡ 0
      → length s + 2 ≤ fuel
      → compress zlib fuel curr_time buff method_deflate ≡ done (some s)
  unfolding compress first_output finish_output malloc
  compress-Makes fuel curr_time buff zip s some_input opened makes none_out enough =
      let fresh = replicate 512 unset in
      let o : Output = record { mem = fresh; writed = 0; out_size = 512; avail_out = 512 } in
      let v : Making 0 s zip o [] s = record {
        makes = makes;
        filled = record {
          size = length-replicate {0} 512 unset;
          chunk = refl;
          aligned = refl;
          avail = omega arith;
          behind = refl;
          text = refl;
        };
        all = refl;
        total = omega (arith, none_out);
      } in
      let (zip', o', p', s', given, w, less) =
        deflate_input-Making 0 s fuel zip o [] s v (omega arith) enough in
      let (last, o'', finished, filled, sum) =
        deflate_finish-Making 0 s fuel zip' o' p' s' w (omega (arith, less, enough)) in
      let total : zlib.total_out last ≡ length s = omega (arith, sum) in
      let got = ap (λ n. read n o''.mem) total ∙ Filled-read 0 o'' s filled in
      simp (ne→== (length buff) 0 some_input, opened, given, finished, got) refl
