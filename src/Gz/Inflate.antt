-- ===== src/Gz/Inflate.antt =====
-- `nhr_gz_decompress`.
use libnhr.Base.{
  ℕ, zero, suc, ◌+◌, ◌-◌, ◌%◌, ◌^◌, Option, none, some, true, false, length, take, drop,
  if◌then◌else◌, ltb, ◌==◌,
}
use libnhr.Exec.{Exec, done, no_fuel, ◌>>=◌}
use libnhr.Clib.Memory.{Bytes, bytes_of, write, resize}
use libnhr.Heap.{malloc}
use libnhr.Codec.{Inflated, method_deflate}
use libnhr.Gz.{
  chunk_size, header_size, header_footer_size, z_ok, z_stream_end, z_failed, z_other, Zlib, Output,
  is_gzip_file,
}

-- behind `inflate`, which left `avail_out` of the output: the variables then, `none` if nothing is new
unfoldable pub advance : Output → ℕ → Option Output
advance o avail_out =
    let available_size = chunk_size - avail_out in
    let writed = o.writed + available_size in
    if ltb 0 available_size
    then (if ltb writed o.out_size
        then some (record o { writed = writed; avail_out = chunk_size - available_size })
        else some (record {
          mem = resize o.mem (o.out_size + chunk_size);
          writed = writed;
          out_size = o.out_size + chunk_size;
          avail_out = chunk_size;
        }))
    else none

-- behind the loop
unfoldable pub finish : Option Output → Option Inflated
finish none = none
finish (some o) = some (record { mem = o.mem; size = o.writed })

module _ {S : Type 0} (zlib : Zlib S) where
  -- the `do` loop
  unfoldable pub inflate_from : ℕ → S → Output → Exec (Option Inflated)
  inflate_from zero zip o = no_fuel
  inflate_from (suc fuel) zip o =
      let step = zlib.inflate o.avail_out zip in
      do
        m ← write o.mem o.writed step.out
        let advanced = advance (record o { mem = m }) (o.avail_out - length step.out)
        elim step.result [
          | z_failed ↦ done none
          | z_stream_end ↦ done (finish advanced)
          | z_ok ↦ elim advanced [ none ↦ done none | some o' ↦ inflate_from fuel step.next o' ]
          | z_other ↦ elim advanced [ none ↦ done none | some o' ↦ inflate_from fuel step.next o' ]
        ]

  -- the stream opened on the input
  unfoldable pub open_input : Bytes → ℕ → Option S
  open_input buff method =
      if method == method_deflate
      then zlib.inflate_init false (take (length buff % 2 ^ 32) buff)
      else if is_gzip_file buff
      then zlib.inflate_init true
          (take ((length buff - header_footer_size) % 2 ^ 32) (drop header_size buff))
      else none

  -- with fuel for the loop
  unfoldable pub decompress : ℕ → Bytes → ℕ → Exec (Option Inflated)
  decompress fuel buff method =
      if length buff == 0 then done none else elim (open_input buff method) [
        | none ↦ done none
        | some zip ↦ inflate_from fuel zip (record {
          mem = bytes_of (malloc chunk_size);
          writed = 0;
          out_size = chunk_size;
          avail_out = chunk_size;
        })
      ]
