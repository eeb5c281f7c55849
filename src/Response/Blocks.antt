-- ===== src/Response/Blocks.antt =====
-- A chunked body that comes in blocks, each of which ends where a chunk ends.
use libnhr.Base.{suc, ◌+◌, ◌^◌, ◌<◌, ◌≡◌, ◌∙◌, arith, none, List, length}
use libnhr.Exec.{done}
use libnhr.Clib.Memory.{Bytes}
use libnhr.Clib.Scan.{scan_hex}
use libnhr.Response.{Response}
use libnhr.Response.Body.{IsValid, Added}
use libnhr.Response.Chunks.{read_chunks_from, read_chunks}
use libnhr.Response.Chunked.{
  Chunk, AllChunks, contents, wires, length-wires, read_chunks_from-wires,
}

-- A block that is not the last: behind its chunks there is no number.
pub read_chunks-part :
    (cs : List Chunk) (rest : Bytes) (r : Response)
    → AllChunks cs
    → IsValid r
    → r.body_len + length (contents cs) < 2 ^ 64
    → scan_hex rest ≡ done none
    → (r' : Response) × (read_chunks r (wires cs rest) ≡ done r') × Added r r' (contents cs)
unfolding read_chunks read_chunks_from
read_chunks-part cs rest r all v fits no_number =
    let (r', left, run, added) =
      read_chunks_from-wires cs rest (suc (length (wires cs rest))) r all v fits
        (omega (arith, length-wires cs rest)) in
    (r', run ∙ rw no_number, added)
