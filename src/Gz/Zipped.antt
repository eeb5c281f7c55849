-- ===== src/Gz/Zipped.antt =====
-- `nhr_gz_compress` to a gzip file: what it returns, and when it writes past its buffer.
use libnhr.Base.{
  ℕ, ◌+◌, ◌-◌, ◌%◌, ◌^◌, ◌≤◌, ◌<◌, ◌≡◌, ◌≢◌, refl, sym, ap, ◌∙◌, arith, some, true, [], ◌∷◌, ◌++◌,
  length, take, drop, replicate, length-append, append_assoc, ne→==,
}
use libnhr.Exec.{done, fault, ◌>>=◌}
use libnhr.Clib.Memory.{Bytes, u64, unset, read, read-append, write, write_le, length_written}
use libnhr.Heap.{malloc}
use libnhr.Codec.{method_gzip}
use libnhr.Gz.{Zlib, Output, little_endian, write_header, write_footer}
use libnhr.Gz.Inflated.{length-little_endian, take-written, write_footer_overflow}
use libnhr.Gz.Deflate.{first_output, finish_output, compress}
use libnhr.Gz.Filled.{Filled}
use libnhr.Gz.Deflated.{DeflateLaw, Making, deflate_input-Making, deflate_finish-Making}

-- The header of a gzip file made at this time.
abbrev pub gzip_header : ℕ → Bytes
gzip_header curr_time = (31 ∷ 139 ∷ 8 ∷ 0 ∷ []) ++ (little_endian 4 curr_time ++ (0 ∷ 0 ∷ []))

-- the checksum of the input
abbrev pub checksum : {S : Type 0} → Zlib S → Bytes → ℕ
checksum zlib buff = zlib.crc32 (take (length buff % 2 ^ 32) buff)

-- Where both numbers fit: the bytes before them are kept, and the first number stands behind them.
write_footer-read :
    (m p : Bytes) (crc src_size : ℕ)
    → length p + 16 ≤ length m
    → length m ≤ length p + 512
    → take (length p) m ≡ p
    → (m' : Bytes) × (write_footer m (length m) (length p) crc src_size ≡ done m')
      × (read (length p + 8) m' ≡ done (p ++ little_endian 8 crc))
unfolding write_footer
write_footer-read m p crc src_size room near text =
    let n = length p in
    let sum_of = little_endian 8 crc in
    let size_of = little_endian 8 src_size in
    let a = length-little_endian 8 crc in
    let b = length-little_endian 8 src_size in
    let fits : n + length sum_of ≤ length m = omega (arith, a, room) in
    let m1 = take n m ++ (sum_of ++ drop (n + length sum_of) m) in
    let len = length_written m n sum_of fits in
    let fits' : n + 8 + length size_of ≤ length m1 = omega (arith, b, len, room) in
    let rest = size_of ++ drop (n + 8 + length size_of) m1 in
    let space : u64 (length m + 2 ^ 64 - n) ≡ length m - n = omega (arith, room, near) in
    let front : take (n + 8) m1 ≡ p ++ sum_of =
      ap (λ k. take (n + k) m1) (sym a)
      ∙ take-written m sum_of (drop (n + length sum_of) m) n (omega (arith, room))
      ∙ ap (λ t. t ++ sum_of) text in
    let size : n + 8 ≡ length (p ++ sum_of) = omega (arith, length-append p sum_of, a) in
    (
      take (n + 8) m1 ++ rest,
      ground (arith, space, write_le m n sum_of fits, write_le m1 (n + 8) size_of fits', room),
      ap (λ t. read (n + 8) (t ++ rest)) front
          ∙ ap (λ k. read k ((p ++ sum_of) ++ rest)) size
          ∙ read-append (p ++ sum_of) rest,
    )

module _ {S : Type 0} (zlib : Zlib S) (Makes : S → Bytes → Type 0)
    (law : DeflateLaw zlib Makes) where
  -- Behind the loops: the header and all output are in the buffer.
  compress-finish :
      (fuel curr_time : ℕ) (buff : Bytes) (zip : S) (s : Bytes)
      → length buff ≢ 0
      → zlib.deflate_init true (take (length buff % 2 ^ 32) buff) ≡ some zip
      → Makes zip s
      → zlib.total_out zip ≡ 0
      → length s + 2 ≤ fuel
      → (last : S) × (o : Output) × (compress zlib fuel curr_time buff method_gzip
          ≡ (do out ← finish_output zlib buff method_gzip (last, o); done (some out)))
        × Filled 10 o (gzip_header curr_time ++ s)
        × (zlib.total_out last + 10 ≡ length (gzip_header curr_time ++ s))
  unfolding compress first_output malloc write_header write little_endian
  compress-finish fuel curr_time buff zip s some_input opened makes none_out enough =
      let o : Output = record {
        mem = gzip_header curr_time ++ replicate 512 unset;
        writed = 10;
        out_size = 522;
        avail_out = 512;
      } in
      let v : Making zlib Makes law 10 (gzip_header curr_time ++ s) zip o (gzip_header curr_time)
          s =
        record {
          makes = makes;
          filled = record {
            size = refl;
            chunk = refl;
            aligned = refl;
            avail = omega arith;
            behind = refl;
            text = refl;
          };
          all = refl;
          total = omega (arith, none_out);
        } in
      let (zip', o', p', s', given, w, less) =
        deflate_input-Making zlib Makes law 10 (gzip_header curr_time ++ s) fuel zip o
          (gzip_header curr_time) s v (omega arith) enough in
      let (last, o'', finished, filled, sum) =
        deflate_finish-Making zlib Makes law 10 (gzip_header curr_time ++ s) fuel zip' o' p' s' w
          (omega (arith, less, enough)) in
      (
        last,
        o'',
        simp (ne→== (length buff) 0 some_input, opened, given, finished) refl,
        filled,
        sum,
      )

  -- The space behind the output, which grows by 512 bytes at a time.
  space-Filled :
      (o : Output) (head s : Bytes)
      → Filled 10 o (head ++ s)
      → length head ≡ 10
      → 0 < length s % 512
      → length o.mem ≡ length (head ++ s) + (512 - length s % 512)
  space-Filled o head s filled size rest = omega (
    arith,
    filled.size,
    filled.chunk,
    filled.aligned,
    filled.avail,
    filled.behind,
    length-append head s,
    size,
    rest,
  )

  -- If zlib does what its manual says and opens the input as a stream without zlib's header that
  -- makes `s`, and the last chunk of 512 bytes of `s` is begun and has 16 bytes left, then
  -- `nhr_gz_compress` to a gzip file returns the header with the time, `s`, and the checksum of the
  -- input as a number of 8 bytes, with no access outside its buffer.
  pub compress-zips :
      (fuel curr_time : ℕ) (buff : Bytes) (zip : S) (s : Bytes)
      → length buff ≢ 0
      → zlib.deflate_init true (take (length buff % 2 ^ 32) buff) ≡ some zip
      → Makes zip s
      → zlib.total_out zip ≡ 0
      → 0 < length s % 512
      → length s % 512 ≤ 496
      → length s + 2 ≤ fuel
      → compress zlib fuel curr_time buff method_gzip
        ≡ done (some (gzip_header curr_time ++ (s ++ little_endian 8 (checksum zlib buff))))
  unfolding finish_output little_endian
  compress-zips fuel curr_time buff zip s some_input opened makes none_out rest room enough =
      let p = gzip_header curr_time ++ s in
      let (last, o, run, filled, sum) =
        compress-finish fuel curr_time buff zip s some_input opened makes none_out enough in
      let space = space-Filled o (gzip_header curr_time) s filled refl rest in
      let (m, written, got) =
        write_footer-read o.mem p (checksum zlib buff) (length buff) (omega (arith, space, room))
          (omega (arith, space)) filled.text in
      run
      ∙ simp
          (
            sum,
            ap (λ n. write_footer o.mem n (length p) (checksum zlib buff) (length buff))
                  (sym filled.size)
                ∙ written,
            got,
          )
          (ap (λ t. done (some t)) (append_assoc (gzip_header curr_time) s _))

  -- If zlib does what its manual says and opens the input as a stream without zlib's header that
  -- makes `s`, of less than 2^64 - 600 bytes, and the last chunk of 512 bytes of `s` has at least one
  -- byte left and fewer than 16, then `nhr_gz_compress` to a gzip file writes past the end of its
  -- buffer.
  pub compress_overflows :
      (fuel curr_time : ℕ) (buff : Bytes) (zip : S) (s : Bytes)
      → length buff ≢ 0
      → zlib.deflate_init true (take (length buff % 2 ^ 32) buff) ≡ some zip
      → Makes zip s
      → zlib.total_out zip ≡ 0
      → 497 ≤ length s % 512
      → length s + 600 < 2 ^ 64
      → length s + 2 ≤ fuel
      → compress zlib fuel curr_time buff method_gzip ≡ fault
  unfolding finish_output little_endian
  compress_overflows fuel curr_time buff zip s some_input opened makes none_out full small enough =
      let p = gzip_header curr_time ++ s in
      let (last, o, run, filled, sum) =
        compress-finish fuel curr_time buff zip s some_input opened makes none_out enough in
      let space = space-Filled o (gzip_header curr_time) s filled refl (omega (arith, full)) in
      let fault_of =
        write_footer_overflow o.mem (length p) (checksum zlib buff) (length buff)
          (omega (arith, space)) (omega (arith, space, full))
          (omega (arith, space, length-append (gzip_header curr_time) s, small)) in
      run
      ∙ simp (
        sum,
        ap (λ n. write_footer o.mem n (length p) (checksum zlib buff) (length buff))
              (sym filled.size)
            ∙ fault_of,
      )
