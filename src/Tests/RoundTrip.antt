-- ===== src/Tests/RoundTrip.antt =====
-- Both directions of src/nhr_gz.c with a zlib that does not compress.
use libnhr.Base.{
  ℕ, ◌+◌, ◌≡◌, ◌⊎◌, ◌≤◌, append-nil, refl, sym, arith, Bool, true, false, some, [], ◌++◌, length,
  take, drop, if◌then◌else◌, ltb, length-take, replicate, Bool-cases, inl, inr,
}
use libnhr.Exec.{done, fault}
use libnhr.Clib.Memory.{Bytes}
use libnhr.Clib.Strings.{codes}
use libnhr.Gz.{little_endian, z_ok, z_stream_end, Step, Zlib}
use libnhr.Gz.Inflate.{decompress}
use libnhr.Gz.Inflated.{InflateLaw, take-drop}
use libnhr.Gz.Deflate.{compress}
use libnhr.Gz.Deflated.{DeflateLaw}
use libnhr.Gz.Zipped.{gzip_header, checksum, compress_overflows}
use libnhr.Gz.RoundTrip.{InverseLaw, compress-decompress, zip-decompress}

-- what is left to come, and how much has
abbrev Stream : Type 0
Stream = Bytes × ℕ

abbrev counted : Stream → Bytes → Bytes → Stream
counted zip out left = (left, zip.1 + length out)

abbrev next_bytes : Bool → ℕ → Stream → Step Stream
next_bytes finishes n zip =
    if ltb n (length zip.0)
    then record {
      result = z_ok;
      out = take n zip.0;
      next = counted zip (take n zip.0) (drop n zip.0);
    }
    else record {
      result = if finishes then z_stream_end else z_ok;
      out = zip.0;
      next = counted zip zip.0 [];
    }

abbrev counting_zlib : Zlib Stream
counting_zlib = record {
  inflate_init = λ raw s. some (s, 0);
  inflate = next_bytes true;
  deflate_init = λ raw s. some (s, 0);
  deflate = next_bytes;
  avail_in = λ zip. length zip.0;
  total_out = λ zip. zip.1;
  crc32 = λ s. 0;
}

abbrev Left : Stream → Bytes → Type 0
Left zip s = zip.0 ≡ s

counting_zlib-InflateLaw : InflateLaw counting_zlib Left
counting_zlib-InflateLaw = record {
  full = λ zip s n h pos more. rw h (ground arith);
  ended = λ zip s n h pos some_left less. rw h (ground arith);
}

counting_zlib-more :
    (s : Bytes) (total n : ℕ)
    → ((next_bytes false n (s, total)).result ≡ z_ok)
      × (length (next_bytes false n (s, total)).out ≤ n)
      × ((length (next_bytes false n (s, total)).out ≡ n)
          ⊎ (length (next_bytes false n (s, total)).next.0 ≡ 0))
      × ((s' : Bytes) × (s ≡ (next_bytes false n (s, total)).out ++ s')
          × Left (next_bytes false n (s, total)).next s')
counting_zlib-more s total n = elim (Bool-cases (ltb n (length s))) [
  | inl more ↦
      let len : length (take n s) ≡ n = ground (arith, more, length-take n s) in
      rw more (refl, omega (arith, len), inl len, (drop n s, sym (take-drop n s), refl))
  | inr fits ↦ rw fits (refl, ground (arith, fits), inr refl, ([], sym (append-nil s), refl))
]

counting_zlib-DeflateLaw : DeflateLaw counting_zlib Left
counting_zlib-DeflateLaw = record {
  more = λ zip s n h pos some_input. rw (sym h) (counting_zlib-more zip.0 zip.1 n);
  full = λ zip s n h pos more. rw h (ground arith);
  ended = λ zip s n h pos fits. rw h (ground arith);
  counts = λ finishes zip n. ground arith;
}

counting_zlib-InverseLaw : InverseLaw counting_zlib Left Left
counting_zlib-InverseLaw = record {
  inverse = λ raw buff s zip opened makes. ((s, 0), refl, ground (arith, opened, makes));
}

compress-decompress_example :
    (mem : Bytes) × (compress counting_zlib 7 0 (codes "hello") 0 ≡ done (some (codes "hello")))
    × (decompress counting_zlib 7 (codes "hello") 0 ≡ done (some (record { mem = mem; size = 5 })))
    × (take 5 mem ≡ codes "hello")
compress-decompress_example =
    compress-decompress counting_zlib Left Left counting_zlib-DeflateLaw counting_zlib-InflateLaw
      counting_zlib-InverseLaw 7 0 (codes "hello") (codes "hello") (codes "hello", 0) refl refl refl
      (omega arith) (omega arith) (omega arith) (omega arith) (omega arith) (omega arith)

zip-decompress_example :
    let file =
      gzip_header 0
      ++ (codes "hello" ++ little_endian 8 (checksum counting_zlib (codes "hello"))) in
    (mem : Bytes) × (compress counting_zlib 7 0 (codes "hello") 1 ≡ done (some file))
    × (decompress counting_zlib 7 file 1 ≡ done (some (record { mem = mem; size = 5 })))
    × (take 5 mem ≡ codes "hello")
zip-decompress_example =
    zip-decompress counting_zlib Left Left counting_zlib-DeflateLaw counting_zlib-InflateLaw
      counting_zlib-InverseLaw 7 0 (codes "hello") (codes "hello") (codes "hello", 0) refl refl refl
      (omega arith) (omega arith) (omega arith) (omega arith) (omega arith) (omega arith)
      (omega arith)

-- 15 bytes are left in the first chunk
abbrev many_letters : Bytes
many_letters = replicate 497 b'a'

compress_overflows_example : compress counting_zlib 500 0 many_letters 1 ≡ fault
compress_overflows_example =
    compress_overflows counting_zlib Left counting_zlib-DeflateLaw 500 0 many_letters
      (many_letters, 0) many_letters (omega arith) refl refl refl (omega arith) (omega arith)
      (omega arith)
