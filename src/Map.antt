-- ===== src/Map.antt =====
-- src/nhr_map.c: a list of nodes, each a key with a value that is a string or raw data. A pointer to
-- a node that has nodes behind it is the list from that node on; NULL is the empty list.
pub mod Stores
use libnhr.Base.{
  ℕ, ◌≡◌, refl, List, [], ◌∷◌, ◌++◌, Option, none, some, Bool, true, false, if◌then◌else◌, ◌==◌,
  leb,
}
use libnhr.Exec.{Exec, done, fault, ◌>>=◌}
use libnhr.Clib.Memory.{Bytes}

-- NHR_MAP_VALUE_*
abbrev pub value_none : ℕ
value_none = 0

abbrev pub value_data : ℕ
value_data = 1

abbrev pub value_string : ℕ
value_string = 2

abbrev pub value_static_string : ℕ
value_static_string = 3

-- `struct _nhr_map_node_struct` without `next`. The unions only ever hold pointers, as nothing in
-- the library stores a number in one.
pub record Node : Type 0 where
  pub key : Option Bytes
  pub value : Option Bytes
  pub reserved : Option Bytes
  pub value_size : ℕ
  pub reserved_size : ℕ
  pub reserved_type : ℕ
  pub value_type : ℕ

-- what `nhr_malloc_zero` gives
abbrev pub zero_node : Node
zero_node = record {
  key = none;
  value = none;
  reserved = none;
  value_size = 0;
  reserved_size = 0;
  reserved_type = 0;
  value_type = value_none;
}

unfoldable pub create : List Node
create = zero_node ∷ []

last_from : Node → List Node → Node
last_from last [] = last
last_from last (cur ∷ rest) = last_from cur rest

unfoldable pub last : List Node → Option Node
unfolding last_from
last [] = none
last (n ∷ map) = some (last_from n map)

-- The map after the call. The pointer that is returned is that of its last node.
unfoldable pub append : List Node → Exec (List Node)
unfolding last
append map = elim (last map) [
  | none ↦ fault
  | some n ↦ done (if n.value_type == 0 then map else map ++ (zero_node ∷ []))
]

-- stores through the pointer that `append` returns
unfoldable pub set_last : (Node → Node) → List Node → List Node
set_last f [] = []
set_last f (n ∷ []) = f n ∷ []
set_last f (n ∷ m ∷ rest) = n ∷ set_last f (m ∷ rest)

-- `if (!map) map = nhr_map_create()`
unfoldable pub ensure : List Node → List Node
unfolding create
ensure [] = create
ensure (n ∷ ns) = n ∷ ns

-- what the callers do: `ensure`, `nhr_map_append`, and stores to the node it returns
unfoldable pub add : (Node → Node) → List Node → Exec (List Node)
unfolding append ensure set_last
add f map = do m ← append (ensure map); done (set_last f m)
