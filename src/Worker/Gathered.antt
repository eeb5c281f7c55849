-- ===== src/Worker/Gathered.antt =====
-- A chunked response, compressed or not, that comes in any number of blocks, and the round that
-- tells it.
use libnhr.Base.{◌≡◌, Bool, true, false, List, [], ◌∷◌, ◌++◌}
use libnhr.Clib.Memory.{Bytes}
use libnhr.Codec.{Codec}
use libnhr.Response.{Response}
use libnhr.Response.Chunked.{Chunk, AllChunks, contents, wires}
use libnhr.Response.Staged.{Tail}
use libnhr.Request.{Request}
use libnhr.Worker.Transfer.{Packet}

-- A block, as `recv` gives it, with the chunks in it and what stands behind them in the array.
pub record Block : Type 0 where
  pub packet : Packet
  pub chunks : List Chunk
  pub tail : Bytes
  pub is_last : Bool

-- The block has the chunks from its byte `text` on.
pub record IsBlock (b : Block) (text : Bytes) : Type 0 where
  pub whole : text ≡ wires b.chunks b.tail
  pub chunks : AllChunks b.chunks
  pub ends : Tail b.is_last b.tail

-- Blocks behind one that is the last, or not: none, or some, of which the last is the last.
abbrev pub WellEnded : Bool → List Block → Type 0
WellEnded true [] = Unit
WellEnded true (b ∷ bs) = ⊥
WellEnded false [] = ⊥
WellEnded false (b ∷ bs) = IsBlock b b.packet.buff × WellEnded b.is_last bs

abbrev pub contents_of : List Block → Bytes
contents_of [] = []
contents_of (b ∷ bs) = contents b.chunks ++ contents_of bs

abbrev pub packets_of : List Block → List Packet
packets_of [] = []
packets_of (b ∷ bs) = b.packet ∷ packets_of bs
