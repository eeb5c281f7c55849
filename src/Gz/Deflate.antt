-- ===== src/Gz/Deflate.antt =====
-- `nhr_gz_compress`.
use libnhr.Base.{
  ℕ, zero, suc, ◌+◌, ◌-◌, ◌%◌, ◌^◌, Option, none, some, true, false, not, length, take,
  if◌then◌else◌, ◌==◌,
}
use libnhr.Exec.{Exec, done, no_fuel, ◌>>=◌}
use libnhr.Clib.Memory.{Bytes, bytes_of, read, write, resize}
use libnhr.Heap.{malloc}
use libnhr.Codec.{method_deflate, method_gzip}
use libnhr.Gz.{
  chunk_size, header_size, footer_size, z_ok, z_stream_end, z_failed, z_other, Zlib, Output,
  write_header, write_footer,
}

-- `zip.next_out`, as an offset in the buffer
abbrev pub next_out : Output → ℕ
next_out o = o.writed + (chunk_size - o.avail_out)

-- `if (zip.avail_out == 0)`
unfoldable pub make_room : Output → Output
make_room o =
    if o.avail_out == 0
    then record {
      mem = resize o.mem (o.out_size + chunk_size);
      writed = o.writed + chunk_size;
      out_size = o.out_size + chunk_size;
      avail_out = chunk_size;
    }
    else o

-- the output behind a call that gave `out`
unfoldable pub put : Output → Bytes → Exec Output
put o out = do
  m ← write o.mem (next_out o) out
  done (record o { mem = m; avail_out = o.avail_out - length out })

module _ {S : Type 0} (zlib : Zlib S) where
  -- `while (zip.avail_in)`
  unfoldable pub deflate_input : ℕ → S → Output → Exec (Option (S × Output))
  deflate_input zero zip o = no_fuel
  deflate_input (suc fuel) zip o = if zlib.avail_in zip == 0 then done (some (zip, o)) else (do
    let step = zlib.deflate false o.avail_out zip
    o' ← put o step.out
    elim step.result [
      | z_ok ↦ deflate_input fuel step.next (make_room o')
      | z_stream_end ↦ done none
      | z_failed ↦ done none
      | z_other ↦ done none
    ])

  -- the `do` loop with Z_FINISH
  unfoldable pub deflate_finish : ℕ → S → Output → Exec (Option (S × Output))
  deflate_finish zero zip o = no_fuel
  deflate_finish (suc fuel) zip o =
      let r = make_room o in
      let step = zlib.deflate true r.avail_out zip in
      do
        o' ← put r step.out
        elim step.result [
          | z_ok ↦ deflate_finish fuel step.next o'
          | z_stream_end ↦ done (some (step.next, o'))
          | z_failed ↦ done none
          | z_other ↦ done none
        ]

  -- the buffer before the loops, with the header of a gzip file in front
  unfoldable pub first_output : ℕ → ℕ → Exec Output
  first_output method curr_time =
      if method == method_gzip
      then (do
        headed ← write_header (bytes_of (malloc (chunk_size + header_size))) curr_time
        done (record {
          mem = headed;
          writed = header_size;
          out_size = chunk_size + header_size;
          avail_out = chunk_size;
        }))
      else done (record {
        mem = bytes_of (malloc chunk_size);
        writed = 0;
        out_size = chunk_size;
        avail_out = chunk_size;
      })

  -- behind the loops: the buffer up to `*compressed_size`
  unfoldable pub finish_output : Bytes → ℕ → S × Output → Exec Bytes
  finish_output buff method (zip, o) =
      let total = zlib.total_out zip in
      if method == method_gzip
      then (do
        m ←
            write_footer o.mem o.out_size (total + header_size)
              (zlib.crc32 (take (length buff % 2 ^ 32) buff)) (length buff)
        read (total + header_size + footer_size) m)
      else read total o.mem

  -- with fuel for each of the loops, and the time
  unfoldable pub compress : ℕ → ℕ → Bytes → ℕ → Exec (Option Bytes)
  compress fuel curr_time buff method =
      if length buff == 0
      then done none
      else elim (zlib.deflate_init (not (method == method_deflate))
          (take (length buff % 2 ^ 32) buff)) [
            | none ↦ done none
            | some zip ↦ (do
              o ← first_output method curr_time
              given ← deflate_input fuel zip o
              elim given [
                | none ↦ done none
                | some run ↦ (do
                  ended ← deflate_finish fuel run.0 run.1
                  elim ended [
                    | none ↦ done none
                    | some last ↦ (do out ← finish_output buff method last; done (some out))
                  ])
              ])
          ]
