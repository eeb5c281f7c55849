-- ===== src/Gz/RoundTrip.antt =====
-- `nhr_gz_compress` and then `nhr_gz_decompress`.
use libnhr.Base.{
  ℕ, ◌+◌, ◌*◌, ◌%◌, ◌^◌, ◌≤◌, ◌<◌, ◌≡◌, ◌≢◌, refl, ap, ◌∙◌, arith, Bool, some, false, [], ◌∷◌,
  length, take, true, ◌++◌, ◌-◌, length-append, take-append,
}
use libnhr.Exec.{done}
use libnhr.Clib.Memory.{Bytes}
use libnhr.Codec.{method_deflate, method_gzip}
use libnhr.Gz.{Zlib, is_gzip_file, little_endian}
use libnhr.Gz.Inflate.{open_input, decompress}
use libnhr.Gz.Inflated.{InflateLaw, length-little_endian, decompress-Holds}
use libnhr.Gz.Deflate.{compress}
use libnhr.Gz.Deflated.{DeflateLaw, compress-Makes}
use libnhr.Gz.Zipped.{gzip_header, checksum, compress-zips}

-- What zlib is for: a stream that is made of `buff` is opened as one that holds `buff`.
pub record InverseLaw {S : Type 0} (zlib : Zlib S) (Makes Holds : S → Bytes → Type 0) : Type 0 where
  pub inverse :
      (raw : Bool) (buff s : Bytes) (zip : S)
      → zlib.deflate_init raw buff ≡ some zip
      → Makes zip s
      → (zip' : S) × (zlib.inflate_init raw s ≡ some zip') × Holds zip' buff

take_whole : (s : Bytes) → length s < 2 ^ 32 → take (length s % 2 ^ 32) s ≡ s
take_whole s h =
    let small : length s % 2 ^ 32 ≡ length s = omega (arith, h) in
    ap (λ n. take n s) small ∙ take_all s
  where
    take_all : (t : Bytes) → take (length t) t ≡ t
    take_all [] = refl
    take_all (c ∷ t) = ap (◌∷◌ c) (take_all t)

-- If zlib does what its manual says, what `nhr_gz_compress` makes of bytes, whose number is no
-- multiple of 512, is decompressed by `nhr_gz_decompress` to a buffer that begins with these bytes,
-- and to their number, with the method of deflate. Both have less than 2^32 bytes.
pub compress-decompress :
    {S : Type 0} (zlib : Zlib S) (Makes Holds : S → Bytes → Type 0)
    (deflates : DeflateLaw zlib Makes) (inflates : InflateLaw zlib Holds)
    (inverts : InverseLaw zlib Makes Holds) (fuel curr_time : ℕ) (buff s : Bytes) (zip : S)
    → zlib.deflate_init false buff ≡ some zip
    → Makes zip s
    → zlib.total_out zip ≡ 0
    → length buff < 2 ^ 32
    → length s < 2 ^ 32
    → length s ≢ 0
    → length buff % 512 ≢ 0
    → length s + 2 ≤ fuel
    → length buff < fuel * 512
    → (mem : Bytes) × (compress zlib fuel curr_time buff method_deflate ≡ done (some s))
      × (decompress zlib fuel s method_deflate
          ≡ done (some (record { mem = mem; size = length buff })))
      × (take (length buff) mem ≡ buff)
unfolding open_input
compress-decompress zlib Makes Holds deflates inflates inverts fuel curr_time buff s zip opened
      makes none_out small small_out some_out rest enough enough_in =
    let whole = take_whole buff small in
    let (zip', reopened, holds) = inverts.inverse false buff s zip opened makes in
    let (mem, run, kept) =
      decompress-Holds zlib Holds inflates fuel s method_deflate zip' buff some_out
        (ap (zlib.inflate_init false) (take_whole s small_out) ∙ reopened) holds rest enough_in in
    (
      mem,
      compress-Makes zlib Makes deflates fuel curr_time buff zip s (omega (arith, rest))
          (ap (zlib.deflate_init false) whole ∙ opened) makes none_out enough,
      run,
      kept,
    )

is_gzip_file-zipped :
    (curr_time : ℕ) (s rest : Bytes)
    → 8 < length s + length rest
    → is_gzip_file (gzip_header curr_time ++ (s ++ rest)) ≡ true
unfolding is_gzip_file little_endian
is_gzip_file-zipped curr_time s rest some_out = ground (arith, length-append s rest, some_out)

open_input-zipped :
    {S : Type 0} (zlib : Zlib S) (curr_time : ℕ) (s rest : Bytes)
    → length s ≢ 0
    → length s < 2 ^ 32
    → length rest ≡ 8
    → open_input zlib (gzip_header curr_time ++ (s ++ rest)) method_gzip ≡ zlib.inflate_init true s
unfolding open_input little_endian
open_input-zipped zlib curr_time s rest some_out small size =
    let len = length-append s rest in
    let there = is_gzip_file-zipped curr_time s rest (omega (arith, size, some_out)) in
    let count : (length (gzip_header curr_time ++ (s ++ rest)) - 18) % 2 ^ 32 ≡ length s =
      omega (arith, len, size, small) in
    simp there (
      ap (λ n. zlib.inflate_init true (take n (s ++ rest))) count
      ∙ ap (zlib.inflate_init true) (take-append s rest))

-- If zlib does what its manual says, `nhr_gz_compress` makes of bytes, whose number is no multiple of
-- 512, the gzip file that has the header with the time, the compressed bytes and the checksum as a
-- number of 8 bytes, if the last chunk of 512 compressed bytes is begun and has 16 bytes left; and
-- `nhr_gz_decompress` makes of this file a buffer that begins with the bytes, and their number. Both
-- have less than 2^32 bytes.
pub zip-decompress :
    {S : Type 0} (zlib : Zlib S) (Makes Holds : S → Bytes → Type 0)
    (deflates : DeflateLaw zlib Makes) (inflates : InflateLaw zlib Holds)
    (inverts : InverseLaw zlib Makes Holds) (fuel curr_time : ℕ) (buff s : Bytes) (zip : S)
    → zlib.deflate_init true buff ≡ some zip
    → Makes zip s
    → zlib.total_out zip ≡ 0
    → length buff < 2 ^ 32
    → length s < 2 ^ 32
    → 0 < length s % 512
    → length s % 512 ≤ 496
    → length buff % 512 ≢ 0
    → length s + 2 ≤ fuel
    → length buff < fuel * 512
    → let file = gzip_header curr_time ++ (s ++ little_endian 8 (checksum zlib buff)) in
      (mem : Bytes) × (compress zlib fuel curr_time buff method_gzip ≡ done (some file))
      × (decompress zlib fuel file method_gzip
          ≡ done (some (record { mem = mem; size = length buff })))
      × (take (length buff) mem ≡ buff)
zip-decompress zlib Makes Holds deflates inflates inverts fuel curr_time buff s zip opened makes
      none_out small small_out some_out room rest enough enough_in =
    let sum_of = little_endian 8 (checksum zlib buff) in
    let file = gzip_header curr_time ++ (s ++ sum_of) in
    let (zip', reopened, holds) = inverts.inverse true buff s zip opened makes in
    let (mem, run, kept) =
      decompress-Holds zlib Holds inflates fuel file method_gzip zip' buff (omega arith)
        (open_input-zipped zlib curr_time s sum_of (omega (arith, some_out)) small_out
            (length-little_endian 8 _)
          ∙ reopened)
        holds rest enough_in in
    (
      mem,
      compress-zips zlib Makes deflates fuel curr_time buff zip s (omega (arith, rest))
          (ap (zlib.deflate_init true) (take_whole buff small) ∙ opened) makes none_out some_out
          room enough,
      run,
      kept,
    )
